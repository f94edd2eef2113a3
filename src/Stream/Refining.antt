-- ===== src/Stream/Refining.antt =====
-- cbits/stream.c: each call of a reader, a writer or the agent, as its function has it, is one run of
-- the sections that `Stream.Pauses` interleaves.
use hcurl.Prelude.{
  ℕ, ◌≡◌, ◌∙◌, inl, inr, Bool, true, false, not, List, Option-cases, if-elim, ◌==◌, length,
  true-ne-false,
}
use hcurl.Waker.{Put}
use hcurl.Sender.{Message}
use hcurl.Stream.State.{Stream, World, Answers, with_stream, is_download, pop_chunk, push_chunk}
use hcurl.Stream.Control.{
  ControlResult, control_ok, retry, control_closed, enqueue_control, needs_cancel, close_locked,
  after_cancel, close, resume_if_paused,
}
use hcurl.Stream.Download.{try_read, read_chunk, ReadOut}
use hcurl.Stream.Upload.{try_write, WriteOut, write_open, refuse_write, resume_if, finish_upload}
use hcurl.Stream.Bytes.{Call, step}
use hcurl.Stream.Pauses.{Threads, IsQuiet, Section}
use hcurl.Stream.Pausing.{close-closed}
use hcurl.Stream.Resuming.{Runs, flush_resume-Runs}
use hcurl.Stream.Quiet.{
  SameFlags, flags-IsQuiet, wait_read_flags, cancel_wait_read_flags, wait_write_flags,
  cancel_wait_write_flags, pop_flags, push_flags, finish_flags, enqueue_control-IsQuiet,
}

-- The calls that libcurl makes on the agent's thread.
abbrev pub is_callback : Call → Bool
is_callback (Call.write_data a bytes size count) = true
is_callback (Call.read_data size count) = true
is_callback (Call.read a) = false
is_callback (Call.await_read mvar capability) = false
is_callback (Call.cancel_await_read mvar) = false
is_callback (Call.send a bytes) = false
is_callback (Call.finish a) = false
is_callback (Call.await_write mvar capability) = false
is_callback (Call.cancel_await_write mvar) = false
is_callback (Call.resume a) = false
is_callback (Call.shut a) = false
is_callback (Call.end code) = false

-- A run that changes the world only.
abbrev Leads : Threads → World → Type 0
Leads s w = Runs s (record s { world = w })

append-Runs : {s t u : Threads} → Runs s t → Runs t u → Runs s u
append-Runs Runs.here later = later
append-Runs (Runs.next st run) later = Runs.next st (append-Runs run later)

quietly : {s : Threads} (w : World) → IsQuiet s.world w → Leads s w
quietly w q = Runs.next (Section.others w q) Runs.here

alone : {s : Threads} (v : Stream) → SameFlags s.world.stream v → Leads s (with_stream s.world v)
alone {s} v f = quietly (with_stream s.world v) (flags-IsQuiet f)

resume_if_paused-Runs :
    (a : Answers) (paused : Bool) (s : Threads) → Leads s (resume_if_paused a paused s.world).2
unfolding resume_if_paused
resume_if_paused-Runs a true s = flush_resume-Runs a s
resume_if_paused-Runs a false s = Runs.here

try_read-Runs : (a : Answers) (s : Threads) → Leads s (try_read a s.world).2
unfolding try_read read_chunk
try_read-Runs a s =
    let v = s.world.stream in
    let popped = with_stream s.world (pop_chunk v) in
    let P : ReadOut × List Put × World → Type 0 = λ r. Leads s r.2 in
    if-elim P (not (is_download v.kind)) (λ e. Runs.here)
      (λ e.
        if-elim P (not (v.count == 0))
          (λ e.
            append-Runs (alone (pop_chunk v) (pop_flags v))
              (resume_if_paused-Runs a v.paused (record s { world = popped })))
          (λ e.
            if-elim P v.closed (λ e. Runs.here)
              (λ e. if-elim P v.terminal_set (λ e. Runs.here) (λ e. Runs.here))))

-- A section that leaves the flags alone, and then the end of both writer's calls.
resume_if-Runs :
    (a : Answers) (paused : Bool) (v : Stream) (s : Threads)
    → SameFlags s.world.stream v
    → Leads s (resume_if a paused (with_stream s.world v)).2
unfolding resume_if
resume_if-Runs a paused v s f =
    append-Runs (alone v f)
      (resume_if_paused-Runs a paused (record s { world = with_stream s.world v }))

write_open-Runs :
    (a : Answers) (bytes : List ℕ) (s : Threads) → Leads s (write_open a bytes s.world).2
unfolding write_open
write_open-Runs a bytes s =
    let v = s.world.stream in
    let P : WriteOut × List Put × World → Type 0 = λ r. Leads s r.2 in
    if-elim P v.finished (λ e. Runs.here)
      (λ e.
        if-elim P (length bytes == 0) (λ e. Runs.here)
          (λ e.
            if-elim P (v.count == v.capacity) (λ e. Runs.here)
              (λ e.
                if-elim P (not a.malloc_ok) (λ e. Runs.here)
                  (λ e.
                    resume_if-Runs a v.paused (push_chunk bytes (length bytes) v) s
                      (push_flags bytes (length bytes) v)))))

try_write-Runs :
    (a : Answers) (bytes : List ℕ) (s : Threads) → Leads s (try_write a bytes s.world).2
unfolding try_write
try_write-Runs a bytes s = elim (Option-cases (refuse_write s.world.stream)) [
  | inl e ↦ rw (try_write, e) (write_open-Runs a bytes s)
  | inr (out, e) ↦ rw (try_write, e) Runs.here
]

finish_upload-Runs : (a : Answers) (s : Threads) → Leads s (finish_upload a s.world).2
unfolding finish_upload
finish_upload-Runs a s = elim (Option-cases (refuse_write s.world.stream)) [
  | inl e ↦
      rw (finish_upload, e)
        (resume_if-Runs a s.world.stream.paused (record s.world.stream { finished = true }) s
          (finish_flags s.world.stream))
  | inr (out, e) ↦ rw (finish_upload, e) Runs.here
]

after_cancel-Runs :
    (result : ControlResult) (s : Threads)
    → s.world.stream.closed ≡ true
    → Leads s (after_cancel result s.world).2
unfolding after_cancel
after_cancel-Runs control_ok s e = Runs.here
after_cancel-Runs retry s e = Runs.next (Section.forgets e) Runs.here
after_cancel-Runs control_closed s e = Runs.next (Section.completes 42) Runs.here

close-Runs : (a : Answers) (s : Threads) → Leads s (close a s.world).2
unfolding close
close-Runs a s =
    let shut = with_stream s.world (close_locked s.world.stream) in
    let message = Message.cancel_request s.world.stream.transfer_id in
    let (result, sent) = enqueue_control a message shut in
    let quiet = enqueue_control-IsQuiet a message shut in
    if-elim (λ (r : ControlResult × List Put × World). Leads s r.2)
      (not (needs_cancel s.world.stream)) (λ e. Runs.next Section.closes Runs.here)
      (λ e. Runs.next Section.closes (
        append-Runs (quietly sent quiet) (
          after_cancel-Runs result (record s { world = sent })
            (quiet.closed ∙ close-closed s.world.stream))))

-- Each call but libcurl's callbacks, as its function has it, is one run of the sections that
-- `Stream.Pauses` interleaves.
pub step-Runs :
    (c : Call) (s : Threads)
    → is_callback c ≡ false
    → Runs s (record s { world = (step c s.world).world })
unfolding step
step-Runs (Call.write_data a bytes size count) s e = true-ne-false e
step-Runs (Call.read_data size count) s e = true-ne-false e
step-Runs (Call.read a) s e = try_read-Runs a s
step-Runs (Call.await_read mvar capability) s e =
    alone _ (wait_read_flags mvar capability s.world.stream)
step-Runs (Call.cancel_await_read mvar) s e = alone _ (cancel_wait_read_flags mvar s.world.stream)
step-Runs (Call.send a bytes) s e = try_write-Runs a bytes s
step-Runs (Call.finish a) s e = finish_upload-Runs a s
step-Runs (Call.await_write mvar capability) s e =
    alone _ (wait_write_flags mvar capability s.world.stream)
step-Runs (Call.cancel_await_write mvar) s e = alone _ (cancel_wait_write_flags mvar s.world.stream)
step-Runs (Call.resume a) s e = flush_resume-Runs a s
step-Runs (Call.shut a) s e = close-Runs a s
step-Runs (Call.end code) s e = Runs.next (Section.completes code) Runs.here

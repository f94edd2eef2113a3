-- ===== src/Stream/Callbacks.antt =====
-- cbits/stream.c: libcurl's callbacks as runs of sections, and so every call on a stream.
use mathlib.Core.List.{append-nil}
use hcurl.Prelude.{
  ℕ, ◌≡◌, refl, sym, Bool, true, false, ◌||◌, not, List, [], ◌==◌, if-elim, mul_size,
  product_overflows, true-ne-false,
}
use hcurl.Waker.{Put}
use hcurl.Stream.State.{World, Answers, is_download}
use hcurl.Stream.Download.{CallbackReturn, mark_headers_started, write_locked, write_callback}
use hcurl.Stream.Upload.{read_callback}
use hcurl.Stream.Bytes.{Call, step}
use hcurl.Stream.Pauses.{Threads, IsQuiet, Section, is_pause, halts_after}
use hcurl.Stream.Resuming.{Runs}
use hcurl.Stream.Refining.{is_callback, step-Runs}

-- A run that leaves a world, and libcurl about to pause or not.
abbrev Ends : Threads → World → Type 0
Ends s w = (stops : Bool) × Runs s (record s { world = w; halting = stops })

headers-IsQuiet :
    (w : World) → IsQuiet w (record w { headers = (mark_headers_started w.headers).1 })
headers-IsQuiet w = record {
  paused = refl;
  closed = refl;
  terminal_set = refl;
  cancel_sent = refl;
  transfer_id = refl;
  more = [];
  queue = sym (append-nil w.sender.queue);
}

write_callback-Ends :
    (a : Answers) (bytes : List ℕ) (size count : ℕ) (s : Threads)
    → s.halted ≡ false
    → s.halting ≡ false
    → Ends s (write_callback a bytes size count s.world).2
unfolding write_callback
write_callback-Ends a bytes size count s running outside =
    let P : CallbackReturn × List Put × World → Type 0 = λ r. Ends s r.2 in
    let w : World = record s.world { headers = (mark_headers_started s.world.headers).1 } in
    let total = mul_size size count in
    let r = write_locked a bytes total w in
    if-elim P (not (is_download s.world.stream.kind) || product_overflows size count)
      (λ e. (s.halting, Runs.here))
      (λ e.
        if-elim P (total == 0) (λ e. (s.halting, Runs.here))
          (λ e. (
            halts_after r.0 r.2.stream,
            Runs.next (Section.others w (headers-IsQuiet s.world))
                (Runs.next (Section.writes a bytes total running outside) Runs.here),
          )))

-- Each call on a stream, as its function has it, is one run of the sections that `Stream.Pauses`
-- interleaves, if libcurl calls back only what it has not paused; and only a callback may make
-- libcurl pause.
pub call-Runs :
    (c : Call) (s : Threads)
    → (is_callback c ≡ true → (s.halted ≡ false) × (s.halting ≡ false))
    → (stops : Bool) × Runs s (record s { world = (step c s.world).world; halting = stops })
      × (is_callback c ≡ false → stops ≡ s.halting)
unfolding step
call-Runs (Call.write_data a bytes size count) s h =
    let (running, outside) = h refl in
    let (stops, run) = write_callback-Ends a bytes size count s running outside in
    (stops, run, λ e. true-ne-false e)
call-Runs (Call.read_data size count) s h =
    let (running, outside) = h refl in
    (
      is_pause (read_callback size count s.world).0,
      Runs.next (Section.reads size count running outside) Runs.here,
      λ e. true-ne-false e,
    )
call-Runs (Call.read a) s h = (s.halting, step-Runs (Call.read a) s refl, λ e. refl)
call-Runs (Call.await_read mvar capability) s h =
    (s.halting, step-Runs (Call.await_read mvar capability) s refl, λ e. refl)
call-Runs (Call.cancel_await_read mvar) s h =
    (s.halting, step-Runs (Call.cancel_await_read mvar) s refl, λ e. refl)
call-Runs (Call.send a bytes) s h = (s.halting, step-Runs (Call.send a bytes) s refl, λ e. refl)
call-Runs (Call.finish a) s h = (s.halting, step-Runs (Call.finish a) s refl, λ e. refl)
call-Runs (Call.await_write mvar capability) s h =
    (s.halting, step-Runs (Call.await_write mvar capability) s refl, λ e. refl)
call-Runs (Call.cancel_await_write mvar) s h =
    (s.halting, step-Runs (Call.cancel_await_write mvar) s refl, λ e. refl)
call-Runs (Call.resume a) s h = (s.halting, step-Runs (Call.resume a) s refl, λ e. refl)
call-Runs (Call.shut a) s h = (s.halting, step-Runs (Call.shut a) s refl, λ e. refl)
call-Runs (Call.end code) s h = (s.halting, step-Runs (Call.end code) s refl, λ e. refl)

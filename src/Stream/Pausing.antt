-- ===== src/Stream/Pausing.antt =====
-- cbits/stream.c: no pause is forgotten.
use hcurl.Prelude.{
  only_right, or_left, or_right, ◌-◌, ◌≡◌, refl, sym, ap, ◌∙◌, Bool, true, false, ◌&&◌, ◌||◌, not,
  List, ◌∷◌, arith, true-ne-false,
}
use hcurl.Sender.{Message}
use hcurl.Stream.State.{drop_chunks, Stream, World, with_stream}
use hcurl.Stream.Control.{close_locked}
use hcurl.Stream.Pauses.{Threads, resumes, will_resume, IsQuiet, take_message, Section, Interleaved}
use hcurl.Stream.Sections.{will_resume-append}
use hcurl.Stream.Flushing.{
  Pending, IsKept, Passes, pass, write-IsKept, read-IsKept, restore-IsKept, send-IsKept,
  complete-IsKept, forget-IsKept,
}

pub close-closed : (s : Stream) → (close_locked s).closed ≡ true
unfolding close_locked drop_chunks
close-closed s = refl

-- libcurl pauses, or has refused to.
halt-IsKept :
    {s : Threads} (ok : Bool)
    → s.halting ≡ true
    → IsKept s
    → IsKept (record s { halted = ok; halting = false })
halt-IsKept {s} ok e k = record {
  cancelled = k.cancelled;
  pending = λ _. pass same (λ q. q) (k.pending (or_right s.halted e));
}
  where
    same : Passes s (record s { halted = ok; halting = false })
    same = record {
      paused = refl;
      closed = refl;
      ended = refl;
      cancelled = refl;
      flushing = refl;
      restoring = refl;
      aborting = refl;
    }

close-IsKept :
    (s : Threads) → IsKept (record s { world = with_stream s.world (close_locked s.world.stream) })
close-IsKept s = record {
  cancelled = λ _. close-closed s.world.stream;
  pending = λ _. Pending.was_closed (close-closed s.world.stream);
}

quiet-IsKept :
    {s : Threads} (w : World) → IsQuiet s.world w → IsKept s → IsKept (record s { world = w })
quiet-IsKept {s} w quiet k = record {
  cancelled = λ e. quiet.closed ∙ k.cancelled (sym quiet.cancel_sent ∙ e);
  pending = λ e.
      let more = will_resume-append s.world.stream.transfer_id s.world.sender.queue quiet.more in
      pass same
        (λ q.
          rw (quiet.transfer_id, quiet.queue)
            (more ∙ or_left (will_resume s.world.stream.transfer_id quiet.more) q))
        (k.pending e);
}
  where
    same : Passes s (record s { world = w })
    same = record {
      paused = quiet.paused;
      closed = quiet.closed;
      ended = quiet.terminal_set;
      cancelled = quiet.cancel_sent;
      flushing = refl;
      restoring = refl;
      aborting = refl;
    }

-- The agent takes one message.
handle-IsKept :
    {s : Threads} (m : Message) (rest : List Message)
    → s.halting ≡ false
    → s.world.sender.queue ≡ m ∷ rest
    → IsKept s
    → IsKept (record s {
      world = take_message rest s.world;
      halted = s.halted && not (resumes s.world.stream.transfer_id m);
    })
handle-IsKept {s} m rest outside queue k = record {
  cancelled = k.cancelled;
  pending = λ e.
      let id = s.world.stream.transfer_id in
      let (halted, other) = still_halted s.halted (resumes id m) outside e in
      pass same (λ q. only_right other (sym (ap (will_resume id) queue) ∙ q))
        (k.pending (or_left s.halting halted));
}
  where
    same : Passes s (record s {
      world = take_message rest s.world;
      halted = s.halted && not (resumes s.world.stream.transfer_id m);
    })
    same = record {
      paused = refl;
      closed = refl;
      ended = refl;
      cancelled = refl;
      flushing = refl;
      restoring = refl;
      aborting = refl;
    }

    still_halted :
        (a b : Bool) {c : Bool} → c ≡ false → ((a && not b) || c) ≡ true → (a ≡ true) × (b ≡ false)
    still_halted a b off e = ground (arith, off, e)

Section-IsKept : {s t : Threads} → Section s t → IsKept s → IsKept t
Section-IsKept (Section.writes a bytes total running outside) k =
    write-IsKept a bytes total running k
Section-IsKept (Section.reads size count running outside) k = read-IsKept size count running k
Section-IsKept (Section.halts ok e) k = halt-IsKept ok e k
Section-IsKept {s} (Section.lifts e) k = record {
  cancelled = k.cancelled;
  pending = λ _. Pending.is_lifted (omega arith);
}
Section-IsKept (Section.sends a pos) k = send-IsKept a k
Section-IsKept {s} (Section.restores pos) k = restore-IsKept (s.restoring - 1) k
Section-IsKept {s} (Section.aborts pos) k = complete-IsKept 42 (s.aborting - 1) k
Section-IsKept {s} (Section.completes code) k = complete-IsKept code s.aborting k
Section-IsKept {s} Section.closes k = close-IsKept s
Section-IsKept (Section.forgets closed) k = forget-IsKept closed k
Section-IsKept (Section.others w quiet) k = quiet-IsKept w quiet k
Section-IsKept (Section.handles m rest outside queue) k = handle-IsKept m rest outside queue k

pub Interleaved-IsKept : {s : Threads} → Interleaved s → IsKept s
Interleaved-IsKept (Interleaved.start i) = record {
  cancelled = λ e. true-ne-false (sym e ∙ i.fresh);
  pending = λ e. true-ne-false (sym (only_right i.running e) ∙ i.outside);
}
Interleaved-IsKept (Interleaved.then r st) = Section-IsKept st (Interleaved-IsKept r)

-- In every interleaving, a transfer that libcurl has paused is not forgotten: the stream says that it is
-- paused, so that the next reader or writer resumes it; or a thread that lifts the pause has still
-- to send its message, to restore the pause or to end the stream; or the agent will read a message to
-- resume it; or the stream is closed or has ended.
pub pause-kept : {s : Threads} → Interleaved s → s.halted ≡ true → Pending s
pause-kept {s} r e = (Interleaved-IsKept r).pending (or_left s.halting e)

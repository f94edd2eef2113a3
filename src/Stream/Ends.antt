-- ===== src/Stream/Ends.antt =====
-- cbits/stream.c: resuming, completing and closing keep the invariant, and only closing drops bytes.
use hcurl.Prelude.{
  ℕ, ◌≡◌, refl, Bool, true, false, [], arith, ◌&&◌, not, Bool-cases, inl, inr, true-ne-false,
}
use hcurl.Stream.State.{with_stream, Stream, World, Answers, detached, detach_waiter}
use hcurl.Stream.Ring.{queued}
use hcurl.Sender.{Message}
use hcurl.Stream.Drain.{drop_chunks-Holds}
use hcurl.Stream.Control.{
  ControlResult, resume_if_paused, complete_locked, complete, restore_pause, after_resume,
  flush_resume, close_locked, forget_cancel, after_cancel, close, needs_resume, needs_cancel,
  enqueue_control,
}
use hcurl.Stream.Invariant.{IsValid, Moved, Still, still, Still-refl, Moved-Still}

pub complete_locked-Still : (code : ℕ) {s : Stream} → IsValid s → Still s (complete_locked code s)
unfolding complete_locked detached detach_waiter
complete_locked-Still code {s} v =
    still (record { ring = v.ring; flags = ground arith }) refl (λ c. c) (ground arith)

restore_pause-Still :
    {s : Stream} → IsValid s → s.read_waiter.present ≡ false → Still s (restore_pause s)
unfolding restore_pause
restore_pause-Still {s} v quiet =
    elim (Bool-cases (not s.closed && not s.terminal_set && not s.cancel_sent)) [
      | inr e ↦ rw e (Still-refl v)
      | inl e ↦
          rw e
            (still (record { ring = v.ring; flags = ground arith }) refl (λ c. c) (λ t. (t, refl)))
    ]

after_resume-Still :
    (r : ControlResult) (w : World)
    → IsValid w.stream
    → w.stream.read_waiter.present ≡ false
    → Still w.stream (after_resume r w).2.stream
unfolding after_resume complete
after_resume-Still ControlResult.control_ok w v quiet = Still-refl v
after_resume-Still ControlResult.retry w v quiet = restore_pause-Still v quiet
after_resume-Still ControlResult.control_closed w v quiet = complete_locked-Still 42 v

unpaused-Still : {s : Stream} → IsValid s → Still s (record s { paused = false })
unpaused-Still {s} v =
    still (record { ring = v.ring; flags = ground arith }) refl (λ c. c) (λ t. (t, refl))

pub flush_resume-Still :
    (a : Answers) (w : World) → IsValid w.stream → Still w.stream (flush_resume a w).2.stream
unfolding flush_resume enqueue_control
flush_resume-Still a w v = elim (Bool-cases (needs_resume w.stream)) [
  | inr e ↦ rw e (Still-refl v)
  | inl e ↦
      let sent =
        (enqueue_control a (Message.resume_request w.stream.transfer_id)
          (with_stream w (record w.stream { paused = false }))).1 in
      rw e (
        Moved-Still (unpaused-Still v) (
          after_resume-Still
            (enqueue_control a (Message.resume_request w.stream.transfer_id)
              (with_stream w (record w.stream { paused = false }))).0
            sent (unpaused-Still v).valid (ground arith)))
]

pub resume_if_paused-Still :
    (a : Answers) (paused : Bool) (w : World)
    → IsValid w.stream
    → Still w.stream (resume_if_paused a paused w).2.stream
unfolding resume_if_paused
resume_if_paused-Still a true w v = flush_resume-Still a w v
resume_if_paused-Still a false w v = Still-refl v

-- Closing drops what is queued.
pub close_locked-Moved : {s : Stream} → IsValid s → Moved s [] [] (queued s) (close_locked s)
unfolding close_locked detached detach_waiter
close_locked-Moved {s} v =
    let (ring, empty) = drop_chunks-Holds (record s { closed = true; paused = false }) v.ring in
    record {
      valid = record { ring = ring; flags = ground arith };
      bytes = refl;
      quiet = λ c. (refl, refl, refl);
      lossless = λ c. true-ne-false c;
      final = λ t. (t, refl);
    }

forget_cancel-Still : {s : Stream} → IsValid s → Still s (forget_cancel s)
unfolding forget_cancel
forget_cancel-Still {s} v = elim (Bool-cases (not s.terminal_set)) [
  | inr e ↦ rw e (Still-refl v)
  | inl e ↦
      rw e (still (record { ring = v.ring; flags = ground arith }) refl (λ c. c) (λ t. (t, refl)))
]

after_cancel-Still :
    (r : ControlResult) (w : World) → IsValid w.stream → Still w.stream (after_cancel r w).2.stream
unfolding after_cancel complete
after_cancel-Still ControlResult.control_ok w v = Still-refl v
after_cancel-Still ControlResult.retry w v = forget_cancel-Still v
after_cancel-Still ControlResult.control_closed w v = complete_locked-Still 42 v

pub close-Moved :
    (a : Answers) (w : World)
    → IsValid w.stream
    → Moved w.stream [] [] (queued w.stream) (close a w).2.stream
unfolding close enqueue_control
close-Moved a w v = elim (Bool-cases (needs_cancel w.stream)) [
  | inr e ↦ rw e (close_locked-Moved v)
  | inl e ↦
      let shut = with_stream w (close_locked w.stream) in
      let answer = enqueue_control a (Message.cancel_request w.stream.transfer_id) shut in
      rw e (
        Moved-Still (close_locked-Moved v)
          (after_cancel-Still answer.0 answer.1 (close_locked-Moved v).valid))
]

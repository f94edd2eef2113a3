-- ===== src/Stream/Signals.antt =====
-- cbits/stream.c: what resuming and closing a stream tell the agent, on every branch.
use mathlib.Core.Path.{subst, ap₂}
use hcurl.Prelude.{
  ◌+◌, ◌≡◌, refl, sym, ap, ◌∙◌, ◌⊎◌, inl, inr, false, not, ◌&&◌, ◌||◌, List, [], ◌∷◌, ◌++◌, arith,
  Bool-cases,
}
use hcurl.Waker.{Put, Slot}
use hcurl.Sender.{Sender, Message, EnqueueResult}
use hcurl.Sender.Outcomes.{IsWord, enqueue_outer_message-Outcome}
use hcurl.Stream.State.{Stream, World, Answers, with_stream, wake, detached, detach_waiter}
use hcurl.Stream.Control.{
  ControlResult, control_ok, retry, control_closed, enqueue_control, after_resume, complete_locked,
  complete, close_locked, needs_cancel, after_cancel, close,
}

-- The sender with one more message in its queue, for which the loop was signalled.
abbrev pub sent : Message → Sender → Sender
sent message s = record s { queue = s.queue ++ (message ∷ []); signals = s.signals + 1 }

-- What `enqueue_control` answers: the message was accepted, or nothing has changed.
abbrev pub Control : Message → World → ControlResult × World → Type 0
Control message w r =
    (r ≡ (control_ok, record w { sender = sent message w.sender }))
    ⊎ (r ≡ (retry, w))
    ⊎ (r ≡ (control_closed, w))

answer : EnqueueResult → ControlResult
answer r = elim r [
  | EnqueueResult.enqueued ↦ control_ok
  | EnqueueResult.closed ↦ control_closed
  | EnqueueResult.full ↦ retry
  | EnqueueResult.out_of_memory ↦ retry
]

controlled : World → EnqueueResult × Sender → ControlResult × World
unfolding answer
controlled w r = (answer r.0, record w { sender = r.1 })

pub enqueue_control-Control :
    (a : Answers) (message : Message) (w : World)
    → IsWord w.sender.state
    → Control message w (enqueue_control a message w)
unfolding enqueue_control controlled answer
enqueue_control-Control a message w small =
    elim (enqueue_outer_message-Outcome a.calloc_ok a.queue_ok message w.sender small) [
      | inl (e, _, _, _) ↦ inl (ap (controlled w) e)
      | inr (inl (e, _, _)) ↦ inr (inl (ap (controlled w) e))
      | inr (inr (inl (e, _, _))) ↦ inr (inl (ap (controlled w) e))
      | inr (inr (inr (e, _))) ↦ inr (inr (ap (controlled w) e))
    ]

abbrev resumed : ControlResult × World → ControlResult × List Put × World
resumed r = after_resume r.0 r.1

-- A stream that was closed and whose agent knows, or needs not know; nobody waits on it.
pub record IsShut (s : Stream) : Type 0 where
  pub told : needs_cancel s ≡ false
  pub no_reader : s.read_waiter.present ≡ false
  pub no_writer : s.write_waiter.present ≡ false

wake-none : (s : Slot) → s.present ≡ false → wake s ≡ []
unfolding wake detach_waiter
wake-none s e = rw (wake, e) refl

shut-quiet :
    (a : Answers) (w : World)
    → IsShut w.stream
    → ((close a w).0 ≡ control_ok) × ((close a w).1 ≡ []) × ((close a w).2.sender ≡ w.sender)
unfolding close
shut-quiet a w i =
    let opened : close a w ≡ (
      control_ok,
      wake w.stream.read_waiter ++ wake w.stream.write_waiter,
      with_stream w (close_locked w.stream),
    ) =
      rw (close, i.told) refl in
    (
      ap (λ r. r.0) opened,
      ap (λ r. r.1) opened
          ∙ ap₂ ◌++◌ (wake-none w.stream.read_waiter i.no_reader)
              (wake-none w.stream.write_waiter i.no_writer),
      ap (λ r. r.2.sender) opened,
    )

abbrev cancelled : List Put → ControlResult × World → ControlResult × List Put × World
cancelled woken r =
    let (answer, puts, ended) = after_cancel r.0 r.1 in (answer, woken ++ puts, ended)

retry-ne-ok : {P : Type 0} → retry ≡ control_ok → P
retry-ne-ok e = cc

detached-absent : (s : Slot) → (detached s).present ≡ false
unfolding detached detach_waiter
detached-absent s = ground arith

close_locked-IsShut :
    (s : Stream)
    → ((not s.terminal_set && not (s.cancel_sent || not s.terminal_set)) ≡ false)
    → IsShut (close_locked s)
unfolding close_locked
close_locked-IsShut s e = record {
  told = e;
  no_reader = detached-absent s.read_waiter;
  no_writer = detached-absent s.write_waiter;
}

ended-IsShut : (s : Stream) → IsShut (complete_locked 42 (close_locked s))
unfolding complete_locked close_locked
ended-IsShut s = record {
  told = refl;
  no_reader = detached-absent (detached s.read_waiter);
  no_writer = detached-absent (detached s.write_waiter);
}

close-IsShut :
    (a : Answers) (w : World)
    → IsWord w.sender.state
    → (close a w).0 ≡ control_ok
    → IsShut (close a w).2.stream
unfolding close after_cancel complete
close-IsShut a w small e = elim (Bool-cases (needs_cancel w.stream)) [
  | inr n ↦ rw (close, n) (close_locked-IsShut w.stream (ground arith))
  | inl n ↦
      let message = Message.cancel_request w.stream.transfer_id in
      let shut_world = with_stream w (close_locked w.stream) in
      let woken = wake w.stream.read_waiter ++ wake w.stream.write_waiter in
      let opened : close a w ≡ cancelled woken (enqueue_control a message shut_world) =
        rw (close, n) refl in
      let shut_by = λ (r : ControlResult × List Put × World). IsShut r.2.stream in
      elim (enqueue_control-Control a message shut_world small) [
        | inl sent_ok ↦
            subst shut_by (sym (opened ∙ ap (cancelled woken) sent_ok))
              (close_locked-IsShut w.stream (ground arith))
        | inr (inl again) ↦
            retry-ne-ok (sym (ap (λ r. r.0) (opened ∙ ap (cancelled woken) again)) ∙ e)
        | inr (inr shut) ↦
            subst shut_by (sym (opened ∙ ap (cancelled woken) shut)) (ended-IsShut w.stream)
      ]
]

-- Once `hcurl_stream_close` has answered that all is well, closing the stream again sends the agent
-- nothing, wakes nobody and answers the same.
pub close-twice :
    (a b : Answers) (w : World)
    → IsWord w.sender.state
    → (close a w).0 ≡ control_ok
    → let again = close b (close a w).2 in
      (again.0 ≡ control_ok) × (again.1 ≡ []) × (again.2.sender ≡ (close a w).2.sender)
close-twice a b w small e = shut-quiet b (close a w).2 (close-IsShut a w small e)

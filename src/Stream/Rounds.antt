-- ===== src/Stream/Rounds.antt =====
-- cbits/stream.c: a pause that `hcurl_stream_flush_resume` has lifted is over once the agent comes to the
-- message.
use hcurl.Prelude.{
  either, ℕ, zero, suc, ◌+◌, ◌<◌, ◌≡◌, refl, sym, ap, ◌∙◌, ◌⊎◌, inl, inr, Bool, true, false, ◌&&◌,
  ◌||◌, not, List, [], ◌∷◌, ◌++◌, arith, true-ne-false, length,
}
use hcurl.Sender.{Message}
use hcurl.Stream.State.{World, Answers, with_stream}
use hcurl.Stream.Control.{
  ControlResult, control_ok, enqueue_control, needs_resume, lift_pause, flush_resume, after_resume,
}
use hcurl.Stream.Pauses.{Threads, resumes, Interleaved}
use hcurl.Stream.Pausing.{Interleaved-IsKept}
use hcurl.Stream.Queueing.{is_round, Grows, Section-Grows, Takes, Section-cases}
use hcurl.Stream.Resuming.{Runs}
use hcurl.Stream.Sections.{Posts, enqueue_control-Posts}

-- How many messages the agent takes in a run.
abbrev pub rounds : {s t : Threads} → Runs s t → ℕ
rounds Runs.here = 0
rounds (Runs.next st run) = is_round st + rounds run

-- At some point of a run libcurl does not pause the transfer.
abbrev pub GoesOn : {s t : Threads} → Runs s t → Type 0
GoesOn {s} Runs.here = s.halted ≡ false
GoesOn {s} (Runs.next st run) = (s.halted ≡ false) ⊎ GoesOn run

going : {s t : Threads} (run : Runs s t) → s.halted ≡ false → GoesOn run
going Runs.here e = e
going (Runs.next st run) e = inl e

-- A message to resume is among the first ones, behind at most `n` others.
abbrev soon : ℕ → ℕ → List Message → Bool
soon id n [] = false
soon id zero (m ∷ queue) = resumes id m
soon id (suc n) (m ∷ queue) = resumes id m || soon id n queue

soon-append :
    (id n : ℕ) (queue more : List Message)
    → soon id n queue ≡ true
    → soon id n (queue ++ more) ≡ true
soon-append id n [] more e = true-ne-false (sym e)
soon-append id zero (m ∷ queue) more e = e
soon-append id (suc n) (m ∷ queue) more e = elim (either (resumes id m) (soon id n queue) e) [
  | inl this ↦ rw this refl
  | inr later ↦ ground (arith, soon-append id n queue more later)
]

soon-sent :
    (id : ℕ) (queue : List Message)
    → soon id (length queue) (queue ++ (Message.resume_request id ∷ [])) ≡ true
soon-sent id [] = ground arith
soon-sent id (m ∷ queue) = ground (arith, soon-sent id queue)

soon-cases :
    (id n : ℕ) (m : Message) (rest : List Message)
    → soon id n (m ∷ rest) ≡ true
    → (resumes id m ≡ true) ⊎ ((k : ℕ) × (n ≡ suc k) × (soon id k rest ≡ true))
soon-cases id zero m rest e = inl e
soon-cases id (suc n) m rest e = elim (either (resumes id m) (soon id n rest) e) [
  | inl this ↦ inl this
  | inr later ↦ inr (n, refl, later)
]

Grows-soon :
    {s t : Threads} (n : ℕ)
    → Grows s t
    → soon s.world.stream.transfer_id n s.world.sender.queue ≡ true
    → soon t.world.stream.transfer_id n t.world.sender.queue ≡ true
Grows-soon {s} n g e =
    rw (g.queue, g.transfer_id)
      (soon-append s.world.stream.transfer_id n s.world.sender.queue g.more e)

Takes-soon :
    {s t : Threads} (n : ℕ) (taken : Takes s t)
    → soon s.world.stream.transfer_id n s.world.sender.queue ≡ true
    → (t.halted ≡ false)
      ⊎ ((k : ℕ) × (n ≡ suc k) × (soon t.world.stream.transfer_id k t.world.sender.queue ≡ true))
Takes-soon {s} {t} n taken e =
    let id = s.world.stream.transfer_id in
    let asked : soon id n (taken.message ∷ taken.rest) ≡ true =
      ap (soon id n) (sym taken.before) ∙ e in
    elim (soon-cases id n taken.message taken.rest asked) [
      | inl this ↦ inl (taken.halted ∙ ap (λ b. s.halted && not b) this ∙ resumed s.halted)
      | inr (k, n-eq, later) ↦ inr (k, n-eq, rw (taken.after, taken.transfer_id) later)
    ]
  where
    resumed : (a : Bool) → (a && false) ≡ false
    resumed true = refl
    resumed false = refl

-- A message to resume is reached, whatever comes between.
reached :
    (n : ℕ) {s t : Threads}
    → soon s.world.stream.transfer_id n s.world.sender.queue ≡ true
    → (run : Runs s t) → n < rounds run
    → GoesOn run
reached n asked Runs.here far = absurd (omega (arith, far))
reached n asked (Runs.next st run) far = elim (Section-cases st) [
  | inl e ↦ inr (reached n (Grows-soon n (Section-Grows st e) asked) run (omega (arith, far, e)))
  | inr (taken, e) ↦ elim (Takes-soon n taken asked) [
    | inl on ↦ inr (going run on)
    | inr (k, n-eq, later) ↦ inr (reached k later run (omega (arith, far, e, n-eq)))
  ]
]

-- A flush whose message was taken is over.
after-ok :
    {result : ControlResult} (w : World) → result ≡ control_ok → (after_resume result w).2 ≡ w
unfolding after_resume
after-ok w e = rw (e) refl

posted :
    (m : Message) (w w' : World) {result : ControlResult}
    → result ≡ control_ok
    → Posts m w (result, w')
    → w'.sender.queue ≡ w.sender.queue ++ (m ∷ [])
posted m w w' ok (inl (e, q)) = q
posted m w w' ok (inr (inl e, q)) = absurd (cc (e, ok))
posted m w w' ok (inr (inr e, q)) = absurd (cc (e, ok))

-- The world after `hcurl_stream_flush_resume` has queued its message.
flush-sent :
    (a : Answers) (w : World)
    → needs_resume w.stream ≡ true
    → (enqueue_control a (Message.resume_request w.stream.transfer_id) w).0 ≡ control_ok
    → ((flush_resume a w).2.sender.queue
        ≡ w.sender.queue ++ (Message.resume_request w.stream.transfer_id ∷ []))
      × ((flush_resume a w).2.stream.transfer_id ≡ w.stream.transfer_id)
unfolding flush_resume enqueue_control
flush-sent a w e taken =
    let message = Message.resume_request w.stream.transfer_id in
    let before = with_stream w (lift_pause w.stream) in
    let r = enqueue_control a message before in
    let ok : r.0 ≡ control_ok = taken in
    let opened : (flush_resume a w).2 ≡ (after_resume r.0 r.1).2 = rw (flush_resume, e) refl in
    let ended : (flush_resume a w).2 ≡ r.1 = opened ∙ after-ok r.1 ok in
    (
      ap (λ u. u.sender.queue) ended
          ∙ posted message before r.1 ok (enqueue_control-Posts a message before),
      ap (λ u. u.stream.transfer_id) ended,
    )

-- In any interleaving, a paused stream that is neither closed nor ended and that
-- `hcurl_stream_flush_resume` resumes while the sender takes its message: in every run from there in
-- which the agent takes more messages than were queued before, there is a point at which libcurl
-- does not pause the transfer.
pub pause-resumes :
    (a : Answers) {s t : Threads}
    → Interleaved s
    → s.world.stream.paused ≡ true
    → s.world.stream.closed ≡ false
    → s.world.stream.terminal_set ≡ false
    → (enqueue_control a (Message.resume_request s.world.stream.transfer_id) s.world).0 ≡ control_ok
    → (run : Runs (record s { world = (flush_resume a s.world).2 }) t)
    → length s.world.sender.queue < rounds run
    → GoesOn run
pause-resumes a {s} r paused open_stream live taken run far =
    let kept = Interleaved-IsKept r in
    let v = s.world.stream in
    let e : needs_resume v ≡ true =
      ground
        (arith, paused, open_stream, live, uncancelled v.cancel_sent kept.cancelled open_stream) in
    let (queued, id) = flush-sent a s.world e taken in
    reached (length s.world.sender.queue)
      (rw (queued, id) (soon-sent v.transfer_id s.world.sender.queue)) run far
  where
    uncancelled :
        {closed : Bool} (cancelled : Bool)
        → (cancelled ≡ true → closed ≡ true)
        → closed ≡ false
        → cancelled ≡ false
    uncancelled true k e = true-ne-false (sym (k refl) ∙ e)
    uncancelled false k e = refl

-- ===== src/Sender/Outcomes.antt =====
-- cbits/message_chan.c: what `enqueue_outer_message` answers, and what it leaves.
use hcurl.Prelude.{
  ℕ, ◌+◌, ◌-◌, ◌^◌, ◌<◌, ◌≡◌, refl, ap, ◌⊎◌, inl, inr, Bool, true, false, not, ◌||◌, [], ◌∷◌, ◌++◌,
  none, some, arith, ◌==◌, if◌then◌else◌, add_size, Bool-cases, if-elim,
}
use hcurl.Sender.{
  Message, Sender, is_closed, producers, enter, leave, EnqueueResult, enqueued, full, out_of_memory,
  closed, enqueue_outer_message,
}

-- A state word of 64 bits.
abbrev pub IsWord : ℕ → Type 0
IsWord state = state < 2 ^ 64

-- Who enters leaves the state word as it was.
leave-enter : (state : ℕ) → IsWord state → (leave (add_size state 1)).1 ≡ state
unfolding leave
leave-enter state small = omega arith

-- The answers of `enqueue_outer_message`, each with its reason: the message is the last one of the
-- queue and the loop is signalled, or nothing has changed.
abbrev pub Outcome : Bool → Bool → Message → Sender → EnqueueResult × Sender → Type 0
Outcome calloc_ok queue_ok message s r =
    ((r ≡ (enqueued, record s { queue = s.queue ++ (message ∷ []); signals = s.signals + 1 }))
      × (is_closed s.state ≡ false)
      × (calloc_ok ≡ true)
      × (queue_ok ≡ true))
    ⊎ ((r ≡ (full, s)) × (is_closed s.state ≡ false) × (queue_ok ≡ false))
    ⊎ ((r ≡ (out_of_memory, s)) × (is_closed s.state ≡ false) × (calloc_ok ≡ false))
    ⊎ ((r ≡ (closed, s)) × ((is_closed s.state ≡ true) ⊎ (producers s.state ≡ 2 ^ 63 - 1)))

-- What follows the two first tests.
enter-Outcome :
    (calloc_ok queue_ok : Bool) (message : Message) (s : Sender)
    → IsWord s.state
    → is_closed s.state ≡ false
    → calloc_ok ≡ true
    → Outcome calloc_ok queue_ok message s (elim (enter s.state) [
      | none ↦ (closed, s)
      | some entered ↦
          if queue_ok
          then (
            enqueued,
            record s {
              state = (leave entered).1;
              queue = s.queue ++ (message ∷ []);
              signals = s.signals + 1;
            },
          )
          else (full, record s { state = (leave entered).1 })
    ])
unfolding enter
enter-Outcome calloc_ok queue_ok message s small alive granted =
    elim (Bool-cases (is_closed s.state || producers s.state == 2 ^ 63 - 1)) [
      | inl e ↦ rw (enter, e) (inr (inr (inr (refl, inr (ground arith)))))
      | inr e ↦
          let back = leave-enter s.state small in
          rw (enter, e)
            (if-elim (Outcome calloc_ok queue_ok message s) queue_ok
              (λ q. inl (
                ap
                    (λ k. (
                      enqueued,
                      record s {
                        state = k;
                        queue = s.queue ++ (message ∷ []);
                        signals = s.signals + 1;
                      },
                    ))
                    back,
                alive,
                granted,
                q,
              ))
              (λ q. inr (inl (ap (λ k. (full, record s { state = k })) back, alive, q))))
    ]

-- `enqueue_outer_message`, on every branch: the message is accepted at the end of the queue and
-- the loop is signalled once, or the
-- answer says why not and nothing has changed; either way the producer has left again.
pub enqueue_outer_message-Outcome :
    (calloc_ok queue_ok : Bool) (message : Message) (s : Sender)
    → IsWord s.state
    → Outcome calloc_ok queue_ok message s (enqueue_outer_message calloc_ok queue_ok message s)
unfolding enqueue_outer_message
enqueue_outer_message-Outcome calloc_ok queue_ok message s small =
    if-elim P (is_closed s.state) (λ e. inr (inr (inr (refl, inl e))))
      (λ e.
        if-elim P (not calloc_ok) (λ f. inr (inr (inl (refl, e, ground arith))))
          (λ f. enter-Outcome calloc_ok queue_ok message s small e (ground arith)))
  where
    P : EnqueueResult × Sender → Type 0
    P = Outcome calloc_ok queue_ok message s

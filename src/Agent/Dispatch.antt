-- ===== src/Agent/Dispatch.antt =====
-- cbits/message_chan.c: the loop of `async_check_outer_messages`.
use hcurl.Prelude.{
  ℕ, ◌+◌, ◌-◌, ◌≤◌, ◌≡◌, ◌≢◌, refl, ap, ◌⊎◌, inl, inr, List, [], ◌∷◌, some, arith, length,
}
use hcurl.Sender.{Message, execute, cancel_request, resume_request, stop_agent}
use hcurl.Stream.State.{aborted_by_callback}
use hcurl.Agent.{Agent, Answers, stop_loop, emit}
use hcurl.Agent.Loop.{handle, dispatch, shutdown_message_context, execute_transfer, cancel_transfer}
use hcurl.Agent.Ledger.{
  Debt, easy_handle, result_at, waiter_of, stream_at, pointer, queued, demand, paid, account,
}
use hcurl.Agent.Chunks.{Whole}
use hcurl.Agent.Invariant.{IsValid, Handled, nothing, emit-Handled}
use hcurl.Agent.Completion.{cancel_transfer-Handled, resume_transfer-Handled}
use hcurl.Agent.Requests.{IsFair, execute_transfer-Handled}
use hcurl.Agent.Shutdown.{shutdown-Shut}

-- What is paid, owed to registered transfers, and owed to messages in the queue.
abbrev pub owing : Debt → Agent → ℕ
owing d a = account d a + queued d a.sender.queue

-- One step of the agent's thread: no debt is lost, and none is paid twice; the queue does not grow.
pub record Stepped (a a' : Agent) : Type 0 where
  pub valid : IsValid a'
  pub balance : (d : Debt) → pointer d ≢ 0 → owing d a' ≡ owing d a
  pub shorter : length a'.sender.queue ≤ length a.sender.queue

-- The same, for a message that was taken from the queue.
record Took (m : Message) (a a' : Agent) : Type 0 where
  valid : IsValid a'
  balance : (d : Debt) → pointer d ≢ 0 → owing d a' ≡ owing d a + demand d m
  shorter : length a'.sender.queue ≤ length a.sender.queue

Handled-Took :
    {more : Debt → ℕ} {a a' : Agent} (m : Message)
    → ((d : Debt) → more d ≡ demand d m)
    → Handled more a a'
    → Took m a a'
Handled-Took m same h = record {
  valid = h.valid;
  balance = λ d p. omega (arith, h.balance d p, same d, ap (λ s. queued d s.queue) h.sender);
  shorter = omega (arith, ap (λ s. length s.queue) h.sender);
}

paid-stop : (d : Debt) → paid d (stop_loop ∷ []) ≡ 0
paid-stop (easy_handle p) = refl
paid-stop (result_at p) = refl
paid-stop (waiter_of p) = refl
paid-stop (stream_at p) = refl

stop_Took :
    (answers : Answers) {a : Agent}
    → IsValid a
    → Took stop_agent a
        (emit (stop_loop ∷ []) (shutdown_message_context answers.streams aborted_by_callback a))
stop_Took answers {a} v =
    let s = shutdown-Shut answers.streams aborted_by_callback v in
    let (closed, drained) = s.valid.settled (ap length s.empty) in
    let h =
      emit-Handled {extra = nothing} (stop_loop ∷ []) s.valid Whole.stopped (λ d p. paid-stop d) in
    record {
      valid = h.valid;
      balance = λ d p. omega (arith, s.balance d p, h.balance d p, ap (queued d) drained);
      shorter = omega (arith, ap length drained);
    }

handle-Took :
    (answers : Answers) (m : Message) {a : Agent}
    → IsValid a
    → IsFair answers a
    → (a' : Agent) × (handle answers m a ≡ some a') × Took m a a'
unfolding handle
handle-Took answers (execute p) {a} v fair = (
  execute_transfer answers p a,
  refl,
  Handled-Took (execute p) (λ d. refl) (execute_transfer-Handled answers p v fair),
)
handle-Took answers (cancel_request id) {a} v fair = (
  cancel_transfer answers id a,
  refl,
  Handled-Took (cancel_request id) (λ d. refl) (cancel_transfer-Handled answers id v),
)
handle-Took answers (resume_request id) v fair =
    let (a', ran, h) = resume_transfer-Handled answers id v in
    (a', ran, Handled-Took (resume_request id) (λ d. refl) h)
handle-Took answers stop_agent {a} v fair = (
  emit (stop_loop ∷ []) (shutdown_message_context answers.streams aborted_by_callback a),
  refl,
  stop_Took answers v,
)

-- One round: a queue with messages loses one at least.
pub dispatch-Stepped :
    (answers : Answers) {a : Agent}
    → IsValid a
    → IsFair answers a
    → (a' : Agent) × (dispatch answers a ≡ some a')
      × Stepped a a'
      × (length a'.sender.queue ≤ length a.sender.queue - 1)
unfolding dispatch
dispatch-Stepped answers {a} v fair = elim (queue-cases a.sender.queue) [
  | inl e ↦ (
    a,
    rw e refl,
    record { valid = v; balance = λ d p. refl; shorter = omega arith },
    omega (arith, ap length e),
  )
  | inr (m, messages, e) ↦
      let popped : Agent = record a { sender = record a.sender { queue = messages } } in
      let v' : IsValid popped = record {
        held = v.held;
        weight = v.weight;
        kept = v.kept;
        apart = v.apart;
        owns = v.owns;
        word = v.word;
        chunks = v.chunks;
        settled = λ k. ((v.settled k).0, cc (e, (v.settled k).1));
      } in
      let fair' : IsFair answers popped = record { fresh = fair.fresh; small = fair.small } in
      let (a', ran, t) = handle-Took answers m v' fair' in
      (
        a',
        rw e ran,
        record {
          valid = t.valid;
          balance = λ d p. omega (arith, t.balance d p, ap (queued d) e);
          shorter = omega (arith, t.shorter, ap length e);
        },
        omega (arith, t.shorter, ap length e),
      )
]
  where
    queue-cases :
        (q : List Message) → (q ≡ []) ⊎ ((m : Message) × (rest : List Message) × (q ≡ m ∷ rest))
    queue-cases [] = inl refl
    queue-cases (m ∷ rest) = inr (m, rest, refl)

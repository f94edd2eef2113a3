-- ===== src/Agent/Settling.antt =====
-- cbits/message_chan.c: whatever the agent is given, it gives back once.
use mathlib.Core.Path.{subst}
use hcurl.Prelude.{
  ℕ, zero, suc, ◌+◌, ◌≤◌, ◌≡◌, ◌≢◌, refl, ap, inl, inr, Bool, true, false, List, [], ◌∷◌, ◌++◌,
  none, some, arith, length,
}
use hcurl.Sender
use hcurl.Sender.{Message, Sender, is_closed, enqueue_outer_message}
use hcurl.Sender.Outcomes.{enqueue_outer_message-Outcome}
use hcurl.Stream.State.{Stream}
use hcurl.Registry.{init}
use hcurl.Registry.Map.{init-Refines}
use hcurl.Registry.Chains.{total, total-replicate}
use hcurl.Agent.{Agent, Answers}
use hcurl.Agent.Loop.{async_check_outer_messages, shutdown_message_context}
use hcurl.Agent.Ledger.{Debt, pointer, queued, queued-append, paid, load}
use hcurl.Agent.Chunks.{none_yet}
use hcurl.Agent.Invariant.{IsValid}
use hcurl.Agent.Completion.{check_multi_info-Handled}
use hcurl.Agent.Shutdown.{shutdown-Shut}
use hcurl.Agent.Dispatch.{owing, dispatch-Stepped}
use hcurl.Agent.Steps.{
  init_async_check_messages, Event, post, dispatched, reported, stopped, taken_over, step, run,
  FairAt, After, AreFair, FairRounds, silently,
}

-- A step, or several, that accept some messages.
pub record Went (accepted : List Message) (a a' : Agent) : Type 0 where
  pub valid : IsValid a'
  pub balance : (d : Debt) → pointer d ≢ 0 → owing d a' ≡ owing d a + queued d accepted

accept-Went :
    {a : Agent} (m : Message)
    → IsValid a
    → is_closed a.sender.state ≡ false
    → Went (m ∷ []) a (record a {
      sender = record a.sender {
        queue = a.sender.queue ++ (m ∷ []);
        signals = a.sender.signals + 1;
      };
    })
accept-Went {a} m v alive = record {
  valid = record {
    held = v.held;
    weight = v.weight;
    kept = v.kept;
    apart = v.apart;
    owns = v.owns;
    word = v.word;
    chunks = v.chunks;
    settled = λ e. cc (alive, (v.settled e).0);
  };
  balance = λ d p. omega (arith, queued-append d a.sender.queue (m ∷ []));
}

stay-Went : {a : Agent} → IsValid a → Went [] a a
stay-Went v = record { valid = v; balance = λ d p. omega arith }

post-Went :
    (calloc_ok queue_ok : Bool) (m : Message) {a : Agent}
    → IsValid a
    → let r = enqueue_outer_message calloc_ok queue_ok m a.sender in
      Went (taken_over r.0 m) a (record a { sender = r.1 })
post-Went calloc_ok queue_ok m {a} v =
    elim (enqueue_outer_message-Outcome calloc_ok queue_ok m a.sender v.word) [
      | inl (e, alive, granted, room) ↦ rw e (accept-Went m v alive)
      | inr (inl (e, alive, rest)) ↦ rw e (stay-Went v)
      | inr (inr (inl (e, alive, rest))) ↦ rw e (stay-Went v)
      | inr (inr (inr (e, rest))) ↦ rw e (stay-Went v)
    ]

pub step-Went :
    (e : Event) {a : Agent}
    → IsValid a
    → FairAt e a
    → (accepted : List Message) × (a' : Agent) × (step e a ≡ some (accepted, a'))
      × Went accepted a a'
unfolding step
step-Went (post calloc_ok queue_ok m) {a} v fair =
    let r = enqueue_outer_message calloc_ok queue_ok m a.sender in
    (taken_over r.0 m, record a { sender = r.1 }, refl, post-Went calloc_ok queue_ok m v)
step-Went (dispatched answers) v fair =
    let (a', ran, s, shorter) = dispatch-Stepped answers v fair in
    ([], a', rw ran refl, record { valid = s.valid; balance = λ d p. omega (arith, s.balance d p) })
step-Went (reported streams done) v fair =
    let (a', ran, h) = check_multi_info-Handled streams done v in
    (
      [],
      a',
      rw ran refl,
      record {
        valid = h.valid;
        balance = λ d p. omega (arith, h.balance d p, ap (λ s. queued d s.queue) h.sender);
      },
    )
step-Went (stopped streams code) {a} v fair =
    let s = shutdown-Shut streams code v in
    let (closed, drained) = s.valid.settled (ap length s.empty) in
    (
      [],
      shutdown_message_context streams code a,
      refl,
      record {
        valid = s.valid;
        balance = λ d p. omega (arith, s.balance d p, ap (queued d) drained);
      },
    )

pub run-Went :
    (events : List Event) {a : Agent}
    → IsValid a
    → AreFair events a
    → (accepted : List Message) × (a' : Agent) × (run events a ≡ some (accepted, a'))
      × Went accepted a a'
unfolding run
run-Went [] {a} v fair = ([], a, refl, stay-Went v)
run-Went (e ∷ events) {a} v fair =
    let (first, b, ran, w) = step-Went e v fair.0 in
    let (others, c, later, w') =
      run-Went events w.valid (subst (After (AreFair events)) ran fair.1) in
    (
      first ++ others,
      c,
      rw (run, ran, later) refl,
      record {
        valid = w'.valid;
        balance = λ d p. omega (arith, w.balance d p, w'.balance d p, queued-append d first others);
      },
    )

-- What `init_async_check_messages` returns: null, or a valid agent that owes nothing.
pub init-IsValid :
    (malloc_ok calloc_ok sender_ok buckets_ok async_ok : Bool) {a : Agent}
    → init_async_check_messages malloc_ok calloc_ok sender_ok buckets_ok async_ok ≡ some a
    → IsValid a × ((d : Debt) → owing d a ≡ 0)
unfolding init_async_check_messages init
init-IsValid true true true true true {a} e =
    let start : Agent = record {
      registry = (init true).1;
      sender = record Sender.create { attached = true };
      private_of = λ easy. 0;
      log = [];
    } in
    let same : start ≡ a = ground (arith, e) in
    subst (λ k. IsValid k × ((d : Debt) → owing d k ≡ 0)) same
      (
        record {
          held = λ q. none;
          weight = λ f. 0;
          kept = inl init-Refines;
          apart = λ p. omega arith;
          owns = λ easy. inl refl;
          word = omega arith;
          chunks = none_yet;
          settled = λ k. cc k;
        },
        λ d. omega (arith, total-replicate (load d) 64),
      )
init-IsValid true true true true false e = cc e
init-IsValid true true true false async_ok e = cc e
init-IsValid true true false buckets_ok async_ok e = cc e
init-IsValid true false sender_ok buckets_ok async_ok e = cc e
init-IsValid false calloc_ok sender_ok buckets_ok async_ok e = cc e

-- From `init_async_check_messages` on, any interleaving of producers that send messages, of the
-- agent that handles them, of libcurl that reports transfers and of shutdowns, given fresh memory in
-- each `execute_transfer`, reads no freed memory. A shutdown at the end leaves no registered
-- transfer and no message. By then each easy handle was cleaned up, each result set and woken, and
-- each stream completed, exactly as often as an accepted message had it.
pub run-settled :
    (malloc_ok calloc_ok sender_ok buckets_ok async_ok : Bool) (events : List Event)
    (streams : ℕ → Stream) (code : ℕ) (d : Debt) (a : Agent)
    → init_async_check_messages malloc_ok calloc_ok sender_ok buckets_ok async_ok ≡ some a
    → AreFair events a
    → pointer d ≢ 0
    → (accepted : List Message) × (a' : Agent) × (run events a ≡ some (accepted, a'))
      × let end = shutdown_message_context streams code a' in
        (end.registry.buckets ≡ []) × (end.sender.queue ≡ []) × (paid d end.log ≡ queued d accepted)
run-settled malloc_ok calloc_ok sender_ok buckets_ok async_ok events streams code d a started fair
      p =
    let (v, clear) = init-IsValid malloc_ok calloc_ok sender_ok buckets_ok async_ok started in
    let (accepted, a', ran, w) = run-Went events v fair in
    let s = shutdown-Shut streams code w.valid in
    let (closed, drained) = s.valid.settled (ap length s.empty) in
    let end = shutdown_message_context streams code a' in
    (
      accepted,
      a',
      ran,
      (
        s.empty,
        drained,
        omega (arith, clear d, w.balance d p, s.balance d p, ap (λ bs. total (load d) bs) s.empty),
      ),
    )

-- `async_check_outer_messages`, at a valid agent and given fresh memory: its loop ends within as many
-- rounds as there are messages, with an empty queue and a valid agent.
pub async_check_outer_messages-ends :
    (rounds : ℕ) (answers : ℕ → Answers) {a : Agent}
    → IsValid a
    → FairRounds rounds answers a
    → length a.sender.queue ≤ rounds
    → (a' : Agent) × (async_check_outer_messages rounds answers a ≡ some a')
      × (a'.sender.queue ≡ [])
      × IsValid a'
unfolding async_check_outer_messages
async_check_outer_messages-ends zero answers {a} v fair enough =
    (a, refl, empty a.sender.queue enough, v)
  where
    empty : (q : List Message) → length q ≤ 0 → q ≡ []
    empty [] h = refl
    empty (m ∷ q) h = absurd (omega arith)
async_check_outer_messages-ends (suc rounds) answers {a} v fair enough =
    let (b, ran, s, shorter) = dispatch-Stepped (answers rounds) v fair.0 in
    let (c, later, empty, v') =
      async_check_outer_messages-ends rounds answers s.valid
        (subst (After (FairRounds rounds answers)) (ap silently ran) fair.1) (omega arith) in
    (c, rw (async_check_outer_messages, ran) later, empty, v')

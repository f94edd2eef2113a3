-- ===== src/Agent/Results.antt =====
-- cbits/message_chan.c with cbits/extras.c: the result of a transfer, as the agent's calls of
-- `hs_easy_data_set_result` and `hs_easy_data_wake` leave it.
use mathlib.Core.Path.{subst}
use hcurl.Prelude.{
  ℕ, ◌+◌, ◌≤◌, ◌≡◌, ◌≢◌, refl, sym, ap, ◌∙◌, inl, inr, true, List, [], ◌∷◌, ◌++◌, Option, Bool,
  some, arith, ◌==◌, Bool-cases, if◌then◌else◌,
}
use hcurl.Sender.{Message, Payload}
use hcurl.Stream.State.{Stream}
use hcurl.Headers.Collector.Invariant.{consumed}
use hcurl.Easy.{EasyData, fresh, create, destroy}
use hcurl.Easy.Release
use mathlib.Core.List.{append_assoc}
use hcurl.Registry.{Transfer}
use hcurl.Easy.Release.{
  Call, finish, notify, run-destroy, after, after-append, ended_lem, fired-destroy,
}
use hcurl.Agent.{Effect, Agent, set_result, wake_result, finish_effects}
use hcurl.Agent.Loop.{fail_effects, shutdown_message_context}
use hcurl.Agent.Invariant.{IsValid}
use hcurl.Agent.Shutdown.{shutdown-Shut}
use hcurl.Agent.Settling.{init-IsValid, run-Went}
use hcurl.Agent.Dispatch.{owing}
use hcurl.Registry.Chains.{total}
use hcurl.Easy.Release.{fresh-IsValid, fresh-destroy, create-fresh}
use hcurl.Agent.Steps.{init_async_check_messages, Event, run, AreFair}
use mathlib.Core.List.{append-nil}
use hcurl.Agent.Ledger.{
  Debt, pointer, paid-finish, paid-fail, load, result_at, paid, paid-append, queued, one,
}
use hcurl.Agent.Chunks.{Whole, finished, failed, freed, stopped, Chunks, none_yet, more}

-- The calls that concern the result at an address; `info` is what `curl_easy_getinfo` answers for a
-- handle.
abbrev call_of : (ℕ → Option ℕ) → ℕ → Effect → List Call
call_of info p (set_result q easy code) = if q == p then finish easy (info easy) code ∷ [] else []
call_of info p (wake_result q) = if q == p then notify ∷ [] else []
call_of info p effect = []

abbrev pub calls_of : (ℕ → Option ℕ) → ℕ → List Effect → List Call
calls_of info p [] = []
calls_of info p (effect ∷ log) = call_of info p effect ++ calls_of info p log

-- Between two groups of calls: the waiter has been woken just if the result is complete.
record Told (n : ℕ) (d : EasyData) : Type 0 where
  level : d.waker_fired ≡ d.completed
  reached : 1 ≤ n → d.completed ≡ true

calls_of-append :
    (info : ℕ → Option ℕ) (p : ℕ) (log later : List Effect)
    → calls_of info p (log ++ later) ≡ calls_of info p log ++ calls_of info p later
calls_of-append info p [] later = refl
calls_of-append info p (effect ∷ log) later =
    ap (λ t. call_of info p effect ++ t) (calls_of-append info p log later)
    ∙ sym (append_assoc (call_of info p effect) (calls_of info p log) (calls_of info p later))

-- The calls of a transfer's end, if the result is that transfer's.
abbrev ends : Option ℕ → ℕ → ℕ → ℕ → ℕ → List Call
ends info easy result p code = if result == p then finish easy info code ∷ notify ∷ [] else []

finish-ends :
    (info : ℕ → Option ℕ) (p : ℕ) (t : Transfer) (code : ℕ)
    → calls_of info p (finish_effects t code) ≡ ends (info t.easy) t.easy t.result p code
finish-ends info p t code = ground arith

fail-ends :
    (info : ℕ → Option ℕ) (p : ℕ) (q : Payload) (code : ℕ)
    → calls_of info p (fail_effects q code) ≡ ends (info q.easy) q.easy q.result p code
fail-ends info p q code = ground arith

ends-Told :
    (info : Option ℕ) (easy result p code : ℕ) {n : ℕ} {d : EasyData}
    → Told n d
    → Told (n + one result p) (after (ends info easy result p code) d)
unfolding Release.run
ends-Told info easy result p code {n} {d} h = elim (Bool-cases (result == p)) [
  | inl e ↦
      let (done, woken) = ended_lem easy info code d h.level in
      rw e (record { level = woken ∙ sym done; reached = λ some_end. done })
  | inr e ↦ rw e (record { level = h.level; reached = λ k. h.reached (omega (arith, k)) })
]

-- What a group adds, and what it pays.
Whole-Told :
    (info : ℕ → Option ℕ) (p : ℕ) {n : ℕ} {effects : List Effect} {d : EasyData}
    → p ≢ 0
    → Whole effects
    → Told n d
    → Told (n + paid (result_at p) effects) (after (calls_of info p effects) d)
unfolding Release.run
Whole-Told info p {n} {d} h (finished t code) told =
    subst (λ k. Told (n + k) (after (calls_of info p (finish_effects t code)) d))
      (sym (paid-finish (result_at p) t code))
      (rw (finish-ends info p t code) (ends-Told (info t.easy) t.easy t.result p code told))
Whole-Told info p {n} {d} h (failed q code) told =
    subst (λ k. Told (n + k) (after (calls_of info p (fail_effects q code)) d))
      (sym (paid-fail (result_at p) q code h))
      (rw (fail-ends info p q code) (ends-Told (info q.easy) q.easy q.result p code told))
Whole-Told info p h (freed address) told = record {
  level = told.level;
  reached = λ k. told.reached (omega (arith, k));
}
Whole-Told info p h stopped told = record {
  level = told.level;
  reached = λ k. told.reached (omega (arith, k));
}

Chunks-Told :
    (info : ℕ → Option ℕ) (p mvar capability : ℕ) {log : List Effect}
    → p ≢ 0
    → Chunks log
    → Told (paid (result_at p) log) (after (calls_of info p log) (fresh mvar capability))
unfolding Release.run
Chunks-Told info p mvar capability h none_yet = record {
  level = refl;
  reached = λ k. absurd (omega (arith, k));
}
Chunks-Told info p mvar capability h (more {log} {effects} chunks whole) =
    let d = fresh mvar capability in
    let told = Whole-Told info p h whole (Chunks-Told info p mvar capability h chunks) in
    rw (paid-append (result_at p) log effects) (
      rw (calls_of-append info p log effects)
        (rw (after-append (calls_of info p log) (calls_of info p effects) d) told))

-- A result that was paid for, after the calls of a valid agent.
paid-woken :
    (info : ℕ → Option ℕ) (p mvar capability : ℕ) {log : List Effect}
    → p ≢ 0
    → mvar ≢ 0
    → Chunks log
    → 1 ≤ paid (result_at p) log
    → let (puts, d) = Release.run (calls_of info p log) (fresh mvar capability) in
      (d.completed ≡ true) × (consumed puts ≡ mvar ∷ []) × (destroy d ≡ [])
paid-woken info p mvar capability {log} h present chunks some_end =
    let told = Chunks-Told info p mvar capability h chunks in
    let calls = calls_of info p log in
    let start = fresh mvar capability in
    let none_left = fired-destroy (after calls start) (told.level ∙ told.reached some_end) in
    let released : mvar ∷ [] ≡ consumed (Release.run calls start).0 ++ destroy (after calls start) =
      sym (fresh-destroy mvar capability present)
      ∙ run-destroy calls (fresh-IsValid mvar capability) in
    (
      told.reached some_end,
      sym (
          released
          ∙ ap (λ t. consumed (Release.run calls start).0 ++ t) none_left
          ∙ append-nil (consumed (Release.run calls start).0)),
      none_left,
    )

-- A shutdown pays for what is owed.
shutdown-paid :
    (streams : ℕ → Stream) (code : ℕ) (d : Debt) {a : Agent}
    → IsValid a
    → pointer d ≢ 0
    → let end = shutdown_message_context streams code a in
      (paid d end.log ≡ owing d a) × IsValid end
shutdown-paid streams code d v h =
    let s = shutdown-Shut streams code v in
    (omega (arith, s.balance d h, ap (λ bs. total (load d) bs) s.empty), s.valid)

-- From `init_async_check_messages` on, after any interleaving of messages, rounds of the agent,
-- reports of libcurl and shutdowns, given fresh memory in each `execute_transfer`, and after a
-- shutdown at the end: the result at an address that an accepted message had, made by
-- `hs_easy_data_create` with a `StablePtr` that is not null, is complete; its waiter was woken, by
-- the only wake-up that took the pointer, and `hs_easy_data_destroy` has none to free.
pub run-woken :
    (malloc_ok calloc_ok sender_ok buckets_ok async_ok : Bool) (events : List Event)
    (streams : ℕ → Stream) (code : ℕ) (info : ℕ → Option ℕ) (p mvar capability : ℕ) {a a' : Agent}
    {accepted : List Message}
    → init_async_check_messages malloc_ok calloc_ok sender_ok buckets_ok async_ok ≡ some a
    → AreFair events a
    → run events a ≡ some (accepted, a')
    → p ≢ 0
    → mvar ≢ 0
    → 1 ≤ queued (result_at p) accepted
    → (d : EasyData) × (create true mvar capability ≡ some d)
      × let end = shutdown_message_context streams code a' in
        let (puts, d') = Release.run (calls_of info p end.log) d in
        (d'.completed ≡ true) × (consumed puts ≡ mvar ∷ []) × (destroy d' ≡ [])
run-woken malloc_ok calloc_ok sender_ok buckets_ok async_ok events streams code info p mvar
      capability {a} {a'} {accepted} started fair ran h present sent =
    let (v, clear) = init-IsValid malloc_ok calloc_ok sender_ok buckets_ok async_ok started in
    let (messages, b, ran', w) = run-Went events v fair in
    let both : some (messages, b) ≡ some (accepted, a') = sym ran' ∙ ran in
    let same : messages ≡ accepted = ground (arith, both) in
    let same' : b ≡ a' = ground (arith, both) in
    let valid : IsValid a' = subst IsValid same' w.valid in
    let owed_now : owing (result_at p) a' ≡ queued (result_at p) accepted = omega (
      arith,
      clear (result_at p),
      w.balance (result_at p) h,
      ap (owing (result_at p)) same',
      ap (queued (result_at p)) same,
    ) in
    let (settled, end_valid) = shutdown-paid streams code (result_at p) valid h in
    (
      fresh mvar capability,
      create-fresh mvar capability,
      paid-woken info p mvar capability h present end_valid.chunks
          (subst (λ n. 1 ≤ n) (sym (settled ∙ owed_now)) sent),
    )

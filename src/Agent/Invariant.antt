-- ===== src/Agent/Invariant.antt =====
-- cbits/message_chan.c: what holds of the agent between its calls, and what a call does.
use hcurl.Prelude.{
  ℕ, ◌+◌, ◌-◌, ◌≤◌, ◌≡◌, ◌≢◌, refl, sym, ap, ◌∙◌, ◌⊎◌, inl, inr, true, false, List, [], Option,
  none, some, arith, ◌==◌, ==_iff, Bool-cases, length,
}
use hcurl.Sender.{is_closed, Payload}
use hcurl.Sender.Outcomes.{IsWord}
use hcurl.Stream.State.{Stream}
use hcurl.Registry.{Transfer, Registry}
use hcurl.Registry.Buckets.{update}
use hcurl.Agent.{
  Effect, Agent, emit, set_private, final_code, finish_effects, finish_detached_transfer,
}
use hcurl.Agent.Loop.{fail_unregistered_transfer, fail_effects}
use hcurl.Agent.Chunks.{Chunks, more, Whole, finished, failed}
use hcurl.Agent.Heap.{lies_at}
use hcurl.Agent.Table.{Keeps, Keeps-total, Removed}
use hcurl.Agent.Ledger.{
  Debt, pointer, load, owed, paid, paid-append, paid-finish, paid-fail, account,
}

-- The transfer that an easy handle's private pointer leads to, if that is not null.
abbrev pub Owns : (ℕ → Option Transfer) → (ℕ → ℕ) → Type 0
Owns held private_of =
    (easy : ℕ)
    → (private_of easy ≡ 0)
      ⊎ ((t : Transfer) × (held t.id ≡ some t) × (t.address ≡ private_of easy) × (t.easy ≡ easy))

-- The registry is a finite map, no two transfers lie at one address, no private pointer dangles, the
-- calls are whole groups;
-- and a registry that is destroyed comes with a closed sender and an empty queue.
pub record IsValid (a : Agent) : Type 0 where
  pub held : ℕ → Option Transfer
  pub weight : (Transfer → ℕ) → ℕ
  pub kept : Keeps held weight a.registry
  pub apart : (p : ℕ) → weight (lies_at p) ≤ 1
  pub owns : Owns held a.private_of
  pub word : IsWord a.sender.state
  pub chunks : Chunks a.log
  pub settled :
      length a.registry.buckets ≡ 0 → (is_closed a.sender.state ≡ true) × (a.sender.queue ≡ [])

-- A call that leaves the sender alone, and takes over some debts.
pub record Handled (extra : Debt → ℕ) (a a' : Agent) : Type 0 where
  pub valid : IsValid a'
  pub balance : (d : Debt) → pointer d ≢ 0 → account d a' ≡ account d a + extra d
  pub sender : a'.sender ≡ a.sender

abbrev pub nothing : Debt → ℕ
nothing d = 0

pub unchanged : {a : Agent} → IsValid a → Handled nothing a a
unchanged v = record { valid = v; balance = λ d h. omega arith; sender = refl }

pub then_Handled :
    {extra extra' : Debt → ℕ} {a b c : Agent}
    → Handled extra a b
    → Handled extra' b c
    → Handled (λ d. extra d + extra' d) a c
then_Handled h k = record {
  valid = k.valid;
  balance = λ d p. omega (arith, h.balance d p, k.balance d p);
  sender = k.sender ∙ h.sender;
}

same_held :
    (held : ℕ → Option Transfer) (u t : Transfer) {id : ℕ}
    → held u.id ≡ some u
    → held id ≡ some t
    → u.id ≡ id
    → u ≡ t
same_held held u t hu ht e =
    let both : some u ≡ some t = sym hu ∙ ap held e ∙ ht in ground (arith, both)

-- Calls that only pay keep the agent valid.
pub emit-Handled :
    {extra : Debt → ℕ} {a : Agent} (effects : List Effect)
    → IsValid a
    → Whole effects
    → ((d : Debt) → pointer d ≢ 0 → paid d effects ≡ extra d)
    → Handled extra a (emit effects a)
emit-Handled {a} effects v whole pays = record {
  valid = record {
    held = v.held;
    weight = v.weight;
    kept = v.kept;
    apart = v.apart;
    owns = v.owns;
    word = v.word;
    chunks = more v.chunks whole;
    settled = v.settled;
  };
  balance = λ d p. omega (arith, paid-append d a.log effects, pays d p);
  sender = refl;
}

pub fail-Handled :
    {a : Agent} (p : Payload) (code : ℕ)
    → IsValid a
    → Handled (λ d. owed d p) a (fail_unregistered_transfer p code a)
unfolding fail_unregistered_transfer
fail-Handled p code v =
    emit-Handled (fail_effects p code) v (failed p code) (λ d h. paid-fail d p code h)

-- `finish_detached_transfer` of a transfer that was taken out pays for all that it had.
pub finish-Handled :
    {a : Agent} (streams : ℕ → Stream) (code id : ℕ) {t : Transfer} {r : Registry} (v : IsValid a)
    → Removed v.held v.weight a.registry id t r
    → Handled nothing a (finish_detached_transfer streams t code (record a { registry = r }))
unfolding finish_detached_transfer
finish-Handled {a} streams code id {t} {r} v out = record {
  valid = record {
    held = update v.held id none;
    weight = λ f. v.weight f - f t;
    kept = out.kept;
    apart = λ p. omega (arith, v.apart p);
    owns = still_owns;
    word = v.word;
    chunks = more v.chunks (finished t (final_code streams t code));
    settled = λ e. v.settled (out.lasts e);
  };
  balance = λ d p. omega (
    arith,
    paid-append d a.log (finish_effects t (final_code streams t code)),
    paid-finish d t (final_code streams t code),
    out.lighter (load d),
    Keeps-total v.kept (load d),
    Keeps-total out.kept (load d),
  );
  sender = refl;
}
  where
    still_owns : Owns (update v.held id none) (set_private t.easy 0 a.private_of)
    still_owns easy = elim (Bool-cases (easy == t.easy)) [
      | inl e ↦ inl (rw e refl)
      | inr e ↦ elim (v.owns easy) [
        | inl null ↦ inl (rw e null)
        | inr (u, found, address, own) ↦
            let other : (u.id == id) ≡ false = elim (Bool-cases (u.id == id)) [
              | inl k ↦
                  let same = same_held v.held u t found out.found ((==_iff u.id id).0 k) in
                  absurd (ground (arith, e, own, ap (λ s. s.easy) same))
              | inr k ↦ k
            ] in
            inr (u, rw other found, rw e address, own)
      ]
    ]

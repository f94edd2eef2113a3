-- ===== src/Agent/Shutdown.antt =====
-- cbits/message_chan.c: `shutdown_message_context` leaves nothing behind.
use mathlib.Core.Path.{subst}
use hcurl.Prelude.{
  ℕ, ◌+◌, ◌<◌, ◌≡◌, ◌≢◌, refl, sym, ap, ◌∙◌, ◌⊎◌, inl, inr, true, List, [], ◌∷◌, none, arith, ◌==◌,
  ==_iff, Bool-cases, concat, length,
}
use hcurl.Sender.{is_closed, mark_closed}
use hcurl.Sender.Outcomes.{IsWord}
use hcurl.Stream.State.{Stream}
use hcurl.Registry.{Transfer}
use hcurl.Registry.Chains.{total}
use hcurl.Agent.{Agent}
use hcurl.Agent.Loop.{finish_buckets, fail_messages, closed_sender, shutdown_message_context}
use hcurl.Agent.Table.{Keeps-total, Keeps-le}
use hcurl.Agent.Ledger.{Debt, pointer, queued, account}
use hcurl.Agent.Draining.{
  runs_on, Finished, finish_chain-Finished, finish_buckets-concat, fail_messages-Failed,
}
use hcurl.Agent.Invariant.{IsValid}

closed_lem : (s : ℕ) → IsWord s → IsWord (mark_closed s) × (is_closed (mark_closed s) ≡ true)
unfolding mark_closed
closed_lem s small = ground arith

-- What a shutdown leaves: a valid agent without a registry, whose debts are paid.
pub record Shut (a a' : Agent) : Type 0 where
  pub valid : IsValid a'
  pub empty : a'.registry.buckets ≡ []
  pub balance : (d : Debt) → pointer d ≢ 0 → account d a' ≡ account d a + queued d a.sender.queue

-- A second shutdown only closes the sender again.
IsValid-Shut :
    {a : Agent}
    → IsValid a
    → length a.registry.buckets ≡ 0
    → Shut a (record a { sender = closed_sender a.sender })
IsValid-Shut {a} v e =
    let (closed, none_left) = v.settled e in
    let (word, closed') = closed_lem a.sender.state v.word in
    record {
      valid = record {
        held = v.held;
        weight = v.weight;
        kept = v.kept;
        apart = v.apart;
        owns = v.owns;
        word = word;
        chunks = v.chunks;
        settled = λ _. (closed', none_left);
      };
      empty = length-nil a.registry.buckets e;
      balance = λ d h. omega (arith, ap (queued d) none_left);
    }
  where
    length-nil : (bs : List (List Transfer)) → length bs ≡ 0 → bs ≡ []
    length-nil [] e = refl
    length-nil (b ∷ bs) e = absurd (omega arith)

-- Every easy handle with a private pointer has a registered transfer.
owner :
    {a : Agent} (v : IsValid a) (easy : ℕ)
    → (a.private_of easy ≡ 0) ⊎ (0 < total (runs_on easy) a.registry.buckets)
owner v easy = elim (v.owns easy) [
  | inl null ↦ inl null
  | inr (t, found, address, own) ↦
      let one : runs_on easy t ≡ 1 = ground (arith, own) in
      inr (
        omega (
          arith,
          one,
          Keeps-le v.kept (runs_on easy) t.id found,
          Keeps-total v.kept (runs_on easy),
        ))
]

-- `shutdown_message_context`
pub shutdown-Shut :
    (streams : ℕ → Stream) (code : ℕ) {a : Agent}
    → IsValid a
    → Shut a (shutdown_message_context streams code a)
unfolding shutdown_message_context
shutdown-Shut streams code {a} v = elim (Bool-cases (length a.registry.buckets == 0)) [
  | inl e ↦ rw e (IsValid-Shut v ((==_iff (length a.registry.buckets) 0).0 e))
  | inr e ↦
      let start : Agent = record a { sender = closed_sender a.sender } in
      let bs = a.registry.buckets in
      let finished = finish_buckets streams code bs start in
      let left : Agent = record finished { sender = record finished.sender { queue = [] } } in
      let drained = fail_messages code a.sender.queue left in
      let f : Finished (concat bs) start finished =
        subst (Finished (concat bs) start) (finish_buckets-concat streams code bs start)
          (finish_chain-Finished streams code (concat bs) start) in
      let g = fail_messages-Failed code a.sender.queue left in
      let state : drained.sender.state ≡ mark_closed a.sender.state =
        ap (λ s. s.state) g.sender ∙ ap (λ s. s.state) f.sender in
      let (word, closed) = closed_lem a.sender.state v.word in
      rw e (record {
        valid = record {
          held = λ q. none;
          weight = λ f. 0;
          kept = inr (refl, λ q. refl, λ f. refl);
          apart = λ p. omega arith;
          owns = λ easy. inl (ap (λ k. k easy) g.private_of ∙ f.clears easy (owner v easy));
          word = subst IsWord (sym state) word;
          chunks = g.chunks (f.chunks v.chunks);
          settled = λ _. (ap is_closed state ∙ closed, ap (λ s. s.queue) g.sender);
        };
        empty = refl;
        balance = λ d h. omega (arith, g.pays d h, f.pays d);
      })
]

-- ===== src/Agent/Answering.antt =====
-- cbits/message_chan.c: what a single message or report does to the transfers of the agent.
use hcurl.Prelude.{
  ℕ, ◌≡◌, ◌≢◌, refl, sym, ap, ◌∙◌, ◌⊎◌, inl, inr, true, false, not, ◌||◌, ◌++◌, none, some, arith,
  ◌==◌, if◌then◌else◌,
}
use mathlib.Core.Path.{subst}
use hcurl.Stream.State.{Stream, aborted_by_callback}
use hcurl.Registry.{Transfer, Registry, find}
use hcurl.Agent.{
  Agent, Answers, final_code, finish_effects, finish_detached_transfer, complete_transfer,
  complete_removed,
}
use hcurl.Agent.Loop.{finish_removed, cancel_transfer}
use hcurl.Agent.Table.{Keeps-find, Keeps-id, Removed, remove-Removed}
use hcurl.Agent.Invariant.{IsValid}
use hcurl.Agent.Completion.{registered_there, IsValid-Removed}

-- One transfer is found, finished with a code, and found no more; the others stay.
pub record Ended (streams : ℕ → Stream) (code : ℕ) (t : Transfer) (a a' : Agent) : Type 0 where
  pub found : find a.registry t.id ≡ some t
  pub calls : a'.log ≡ a.log ++ finish_effects t (final_code streams t code)
  pub others : (id : ℕ) → find a'.registry id ≡ (if id == t.id then none else find a.registry id)

Removed-Ended :
    (streams : ℕ → Stream) (code : ℕ) {a : Agent} (v : IsValid a) {t : Transfer} {r : Registry}
    → Removed v.held v.weight a.registry t.id t r
    → Ended streams code t a (finish_detached_transfer streams t code (record a { registry = r }))
unfolding finish_detached_transfer
Removed-Ended streams code v {t} out = record {
  found = Keeps-find v.kept t.id ∙ out.found;
  calls = refl;
  others = λ id.
      Keeps-find out.kept id
      ∙ ap (λ o. if id == t.id then none else o) (sym (Keeps-find v.kept id));
}

-- `cancel_transfer` at a valid agent: an identifier that is not registered changes nothing; else its
-- transfer, and no other, ends with `CURLE_ABORTED_BY_CALLBACK`.
pub cancel_transfer_lem :
    (answers : Answers) (id : ℕ) {a : Agent}
    → IsValid a
    → ((find a.registry id ≡ none) × (cancel_transfer answers id a ≡ a))
      ⊎ ((t : Transfer) × (t.id ≡ id)
          × Ended answers.streams aborted_by_callback t a (cancel_transfer answers id a))
unfolding cancel_transfer finish_removed
cancel_transfer_lem answers id {a} v = elim (remove-Removed id v.kept) [
  | inl (absent, ran) ↦ inl (Keeps-find v.kept id ∙ absent, rw (cancel_transfer, ran) refl)
  | inr (t, r, out) ↦
      let same : t.id ≡ id = Keeps-id v.kept id out.found in
      let there = subst (λ k. Removed v.held v.weight a.registry k t r) (sym same) out in
      inr (t, same, rw out.ran (Removed-Ended answers.streams aborted_by_callback v there))
]

-- `complete_transfer` at a valid agent, of a handle whose private pointer is set and is read: the
-- transfer at this pointer runs on this handle, and it, and no other, ends, with the reported code, or
-- with `CURLE_ABORTED_BY_CALLBACK` where one of its streams was closed or cancelled.
pub complete_transfer_lem :
    (streams : ℕ → Stream) (easy code : ℕ) {a : Agent}
    → IsValid a
    → easy ≢ 0
    → a.private_of easy ≢ 0
    → (t : Transfer) × (a' : Agent) × (t.address ≡ a.private_of easy)
      × (t.easy ≡ easy)
      × (complete_transfer streams true easy code a ≡ some a')
      × Ended streams code t a a'
unfolding complete_transfer complete_removed
complete_transfer_lem streams easy code {a} v present set_there = elim (v.owns easy) [
  | inl null ↦ absurd (set_there null)
  | inr (t, found, address, own) ↦
      let read = registered_there v found address in
      let (r, out) = IsValid-Removed v found in
      let self : (t.address == t.address) ≡ true = ground arith in
      let open_test : (easy == 0 || not true || a.private_of easy == 0) ≡ false = ground arith in
      (
        t,
        finish_detached_transfer streams t code (record a { registry = r }),
        address,
        own,
        rw (open_test, read, out.ran, self) refl,
        Removed-Ended streams code v out,
      )
]

-- ===== src/Agent/Completion.antt =====
-- cbits/message_chan.c and `check_multi_info` of cbits/curl_uv.c: transfers that end, on their own or
-- cancelled.
use mathlib.Core.Path.{subst}
use hcurl.Prelude.{
  ℕ, ◌≡◌, refl, sym, ◌∙◌, inl, inr, Bool, true, not, ◌||◌, List, [], ◌∷◌, Option, some, arith, ◌==◌,
  Bool-cases, Option-cases, concat,
}
use hcurl.Stream.State.{Stream, aborted_by_callback, curle_ok}
use hcurl.Registry.{Transfer, Registry, find, remove}
use hcurl.Agent.{
  Agent, Answers, Done, at_address, complete_removed, complete_transfer, check_multi_info,
  finish_detached_transfer,
}
use hcurl.Agent.Loop.{finish_removed, cancel_transfer, resume_transfer}
use hcurl.Agent.Table.{Removed, remove-Removed, Keeps-at_address}
use hcurl.Agent.Ledger.{Debt}
use hcurl.Agent.Invariant.{IsValid, Handled, nothing, unchanged, then_Handled, finish-Handled}

-- The code ran without a fault, and kept the agent's accounts.
abbrev pub Runs : (Debt → ℕ) → Agent → Option Agent → Type 0
Runs more a result = (a' : Agent) × (result ≡ some a') × Handled more a a'

pub registered_there :
    {a : Agent} (v : IsValid a) {t : Transfer} {p : ℕ}
    → v.held t.id ≡ some t
    → t.address ≡ p
    → at_address p (concat a.registry.buckets) ≡ some t
registered_there {a} v {t} found address =
    subst (λ q. at_address q (concat a.registry.buckets) ≡ some t) address
      (Keeps-at_address v.kept t.id found (v.apart t.address))

pub IsValid-Removed :
    {a : Agent} (v : IsValid a) {t : Transfer}
    → v.held t.id ≡ some t
    → (r : Registry) × Removed v.held v.weight a.registry t.id t r
IsValid-Removed {a} v {t} found = elim (remove-Removed t.id v.kept) [
  | inl (absent, ran) ↦ cc (absent, found)
  | inr (u, r, out) ↦
      let both : some u ≡ some t = sym out.found ∙ found in
      let same : u ≡ t = ground (arith, both) in
      (r, subst (λ s. Removed v.held v.weight a.registry t.id s r) same out)
]

-- `complete_transfer` reads no freed memory.
pub complete_transfer-Handled :
    (streams : ℕ → Stream) (getinfo_ok : Bool) (easy code : ℕ) {a : Agent}
    → IsValid a
    → Runs nothing a (complete_transfer streams getinfo_ok easy code a)
unfolding complete_transfer complete_removed
complete_transfer-Handled streams getinfo_ok easy code {a} v =
    elim (Bool-cases (easy == 0 || not getinfo_ok || a.private_of easy == 0)) [
      | inl e ↦ (a, rw e refl, unchanged v)
      | inr e ↦ elim (v.owns easy) [
        | inl null ↦ absurd (ground (arith, e, null))
        | inr (t, found, address, own) ↦
            let read = registered_there v found address in
            let (r, out) = IsValid-Removed v found in
            let self : (t.address == t.address) ≡ true = ground arith in
            (
              finish_detached_transfer streams t code (record a { registry = r }),
              rw (e, read, out.ran, self) refl,
              finish-Handled streams code t.id v out,
            )
      ]
    ]

-- `check_multi_info`, whatever libcurl reports.
pub check_multi_info-Handled :
    (streams : ℕ → Stream) (done : List Done) {a : Agent}
    → IsValid a
    → Runs nothing a (check_multi_info streams done a)
unfolding check_multi_info
check_multi_info-Handled streams [] {a} v = (a, refl, unchanged v)
check_multi_info-Handled streams (d ∷ done) {a} v = elim (Bool-cases d.is_done) [
  | inl e ↦
      let (b, ran, h) = complete_transfer-Handled streams d.getinfo_ok d.easy d.code v in
      let (c, later, k) = check_multi_info-Handled streams done h.valid in
      (c, rw (check_multi_info, e, ran) later, then_Handled h k)
  | inr e ↦
      let (c, later, k) = check_multi_info-Handled streams done v in
      (c, rw (check_multi_info, e) later, k)
]

pub finish_removed-Handled :
    (streams : ℕ → Stream) (code id : ℕ) {a : Agent}
    → IsValid a
    → Handled nothing a (finish_removed streams code (remove a.registry id) a)
unfolding finish_removed
finish_removed-Handled streams code id {a} v = elim (remove-Removed id v.kept) [
  | inl (absent, ran) ↦ rw ran (unchanged v)
  | inr (t, r, out) ↦ rw out.ran (finish-Handled streams code id v out)
]

-- `cancel_transfer`
pub cancel_transfer-Handled :
    (answers : Answers) (id : ℕ) {a : Agent}
    → IsValid a
    → Handled nothing a (cancel_transfer answers id a)
unfolding cancel_transfer
cancel_transfer-Handled answers id v =
    finish_removed-Handled answers.streams aborted_by_callback id v

-- `resume_transfer`
pub resume_transfer-Handled :
    (answers : Answers) (id : ℕ) {a : Agent}
    → IsValid a
    → Runs nothing a (resume_transfer answers id a)
unfolding resume_transfer
resume_transfer-Handled answers id {a} v = elim (Option-cases (find a.registry id)) [
  | inl e ↦ (a, rw (resume_transfer, e) refl, unchanged v)
  | inr (t, e) ↦ elim (Bool-cases t.active) [
    | inr idle ↦ (a, rw (resume_transfer, e, idle) refl, unchanged v)
    | inl active ↦ elim (Bool-cases (answers.pause_code == curle_ok)) [
      | inl ok ↦
          let (b, ran, h) = check_multi_info-Handled answers.streams answers.done v in
          (b, rw (resume_transfer, e, active, ok) ran, h)
      | inr failed ↦ (
        finish_removed answers.streams answers.pause_code (remove a.registry id) a,
        rw (resume_transfer, e, active, failed) refl,
        finish_removed-Handled answers.streams answers.pause_code id v,
      )
    ]
  ]
]

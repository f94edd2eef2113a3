-- ===== src/Agent/Execution.antt =====
-- cbits/message_chan.c: how `execute_transfer` registers a transfer, starts it, or gives it up.
use mathlib.Core.Option
use mathlib.Core.Path.{subst, fun_ext}
use hcurl.Prelude.{
  ℕ, ◌+◌, ◌-◌, ◌≤◌, ◌≡◌, refl, sym, ap, ◌∙◌, inl, inr, Bool, false, Option, none, some, arith, ◌==◌,
  ==_iff, if◌then◌else◌, Bool-cases,
}
use hcurl.Sender.{Payload}
use hcurl.Registry.{Transfer, Registry, remove}
use hcurl.Registry.Buckets.{update}
use hcurl.Registry.Chains.{total}
use hcurl.Agent.{Agent, set_private}
use hcurl.Agent.Heap.{lies_at}
use hcurl.Agent.Table.{Keeps-total, remove-Removed, Inserted}
use hcurl.Agent.Marks.{length-map, mark-Keeps}
use hcurl.Agent.Ledger.{Debt, easy_handle, result_at, waiter_of, stream_at, owed, load}
use hcurl.Agent.Invariant.{IsValid, Owns, Handled, nothing}
use hcurl.Agent.Loop.{transfer_of, activate, map_buckets}

pub Handled-more :
    {more more' : Debt → ℕ} {a a' : Agent}
    → ((d : Debt) → more d ≡ more' d)
    → Handled more a a'
    → Handled more' a a'
Handled-more e h = record {
  valid = h.valid;
  balance = λ d p. omega (arith, e d, h.balance d p);
  sender = h.sender;
}

activate-id : (p : ℕ) (t : Transfer) → (activate p t).id ≡ t.id
activate-id p t = ground arith

activate-address : (p : ℕ) (t : Transfer) → (activate p t).address ≡ t.address
activate-address p t = ground arith

activate-easy : (p : ℕ) (t : Transfer) → (activate p t).easy ≡ t.easy
activate-easy p t = ground arith

activate-load : (d : Debt) (p : ℕ) (t : Transfer) → load d (activate p t) ≡ load d t
activate-load (easy_handle q) p t = ground arith
activate-load (result_at q) p t = ground arith
activate-load (waiter_of q) p t = ground arith
activate-load (stream_at q) p t = ground arith

-- `transfer->active = true`
pub activate-Handled :
    (p : ℕ) {a : Agent}
    → IsValid a
    → Handled nothing a (record a {
      registry = record a.registry { buckets = map_buckets (activate p) a.registry.buckets };
    })
activate-Handled p {a} v =
    let kept = mark-Keeps (activate p) (activate-id p) v.kept in
    let held : ℕ → Option Transfer = λ q. Option.map (activate p) (v.held q) in
    record {
      valid = record {
        held = held;
        weight = λ f. v.weight (λ t. f (activate p t));
        kept = kept;
        apart = λ q. omega (
          arith,
          v.apart q,
          ap v.weight (fun_ext (λ t. ap (λ k. if k == q then 1 else 0) (activate-address p t))),
        );
        owns = λ easy. elim (v.owns easy) [
          | inl null ↦ inl null
          | inr (u, found, address, own) ↦ inr (
            activate p u,
            ap held (activate-id p u) ∙ ap (λ o. Option.map (activate p) o) found,
            activate-address p u ∙ address,
            activate-easy p u ∙ own,
          )
        ];
        word = v.word;
        chunks = v.chunks;
        settled = λ e. v.settled (sym (length-map (activate p) a.registry.buckets) ∙ e);
      };
      balance = λ d h. omega (
        arith,
        Keeps-total kept (load d),
        Keeps-total v.kept (load d),
        ap v.weight (fun_ext (λ t. activate-load d p t)),
      );
      sender = refl;
    }

module _ {a : Agent} (v : IsValid a) (calloc_ok : Bool) (address : ℕ) (p : Payload)
    (fresh : total (lies_at address) a.registry.buckets ≡ 0) {r : Registry}
    (i : Inserted v.held v.weight a.registry calloc_ok (transfer_of address p) r) where
  still_apart : (q : ℕ) → lies_at q (transfer_of address p) + v.weight (lies_at q) ≤ 1
  still_apart q = elim (Bool-cases (address == q)) [
    | inl e ↦
        let none_there =
          subst (λ k. total (lies_at k) a.registry.buckets ≡ 0) ((==_iff address q).0 e) fresh in
        rw e (omega (arith, none_there, Keeps-total v.kept (lies_at q)))
    | inr e ↦ rw e (omega (arith, v.apart q))
  ]

  other_id : {u : Transfer} → v.held u.id ≡ some u → (u.id == p.transfer_id) ≡ false
  other_id {u} found = elim (Bool-cases (u.id == p.transfer_id)) [
    | inl e ↦
        let absent : v.held u.id ≡ none = ap v.held ((==_iff u.id p.transfer_id).0 e) ∙ i.free in
        cc (absent, found)
    | inr e ↦ e
  ]

  registered-Owns :
      Owns
        (update v.held p.transfer_id (some (transfer_of address p)))
        (set_private p.easy address a.private_of)
  registered-Owns easy = elim (Bool-cases (easy == p.easy)) [
    | inl e ↦ inr (transfer_of address p, ground arith, rw e refl, sym ((==_iff easy p.easy).0 e))
    | inr e ↦ elim (v.owns easy) [
      | inl null ↦ inl (rw e null)
      | inr (u, found, lies, own) ↦ inr (u, rw (other_id found) found, rw e lies, own)
    ]
  ]

  -- The transfer is registered, and its easy handle has it as its private pointer.
  pub registered-Handled :
      (h : Handled
        (λ d. owed d p)
        a
        (record a { registry = r; private_of = set_private p.easy address a.private_of }))
      × (h.valid.held p.transfer_id ≡ some (transfer_of address p))
  registered-Handled = (
    record {
      valid = record {
        held = update v.held p.transfer_id (some (transfer_of address p));
        weight = λ f. f (transfer_of address p) + v.weight f;
        kept = i.kept;
        apart = still_apart;
        owns = registered-Owns;
        word = v.word;
        chunks = v.chunks;
        settled = λ e. v.settled (i.lasts e);
      };
      balance = λ d h. omega (arith, Keeps-total i.kept (load d), Keeps-total v.kept (load d));
      sender = refl;
    },
    ground arith,
  )

  -- The transfer is registered and taken out again.
  pub undone-Handled : Handled nothing a (record a { registry = (remove r p.transfer_id).1 })
  undone-Handled = elim (remove-Removed p.transfer_id i.kept) [
    | inl (absent, ran) ↦ absurd (ground (arith, absent))
    | inr (t, r', out) ↦
        let same : t ≡ transfer_of address p = ground (arith, out.found) in
        rw out.ran (record {
          valid = record {
            held =
                update (update v.held p.transfer_id (some (transfer_of address p))) p.transfer_id
                  none;
            weight = λ f. (f (transfer_of address p) + v.weight f) - f t;
            kept = out.kept;
            apart = λ q. omega (arith, still_apart q);
            owns = λ easy. elim (v.owns easy) [
              | inl null ↦ inl null
              | inr (u, found, lies, own) ↦ inr (u, rw (other_id found) found, lies, own)
            ];
            word = v.word;
            chunks = v.chunks;
            settled = λ e. v.settled (i.lasts (out.lasts e));
          };
          balance = λ d h.
              omega (
                arith,
                Keeps-total out.kept (load d),
                Keeps-total v.kept (load d),
                ap (load d) same,
              );
          sender = refl;
        })
  ]

-- ===== src/Agent/Table.antt =====
-- cbits/message_chan.c: the registry as the agent uses it, before and after `registry_destroy`.

use mathlib.Core.Path.{subst}
use hcurl.Prelude.{
  ℕ, ◌+◌, ◌-◌, ◌≤◌, ◌<◌, ◌≡◌, refl, sym, ap, ◌∙◌, ◌⊎◌, inl, inr, Bool, true, false, Option, none,
  some, arith, length, concat, size_max,
}
use hcurl.Registry.{Transfer, Registry, find, insert, remove, destroyed, home, bucket}
use hcurl.Registry.Chains.{total, bucket-le-total, find_chain-id}
use hcurl.Registry.Buckets.{update}
use hcurl.Registry.Map.{Refines, find_lem, insert_lem, remove_lem}
use hcurl.Agent.{at_address}
use hcurl.Agent.Heap.{lies_at, find_chain-le, at_address-bucket}

-- The registry is the map `g`, whose transfers weigh `w`; or it is destroyed, and the map is empty.
abbrev pub Keeps : (ℕ → Option Transfer) → ((Transfer → ℕ) → ℕ) → Registry → Type 0
Keeps g w r =
    Refines g w r ⊎ ((r ≡ destroyed) × ((q : ℕ) → g q ≡ none) × ((f : Transfer → ℕ) → w f ≡ 0))

pub Refines-width :
    {g : ℕ → Option Transfer} {w : (Transfer → ℕ) → ℕ} {r : Registry}
    → Refines g w r
    → 0 < length r.buckets
Refines-width v = omega (arith, v.holds.width, v.some_buckets)

module _ {g : ℕ → Option Transfer} {w : (Transfer → ℕ) → ℕ} {r : Registry} (k : Keeps g w r) where
  pub Keeps-find : (id : ℕ) → find r id ≡ g id
  unfolding find
  Keeps-find id = elim k [
    | inl v ↦ find_lem id v
    | inr (e, empty, light) ↦ subst (λ s. find s id ≡ g id) (sym e) (sym (empty id))
  ]

  pub Keeps-total : (f : Transfer → ℕ) → total f r.buckets ≡ w f
  Keeps-total f = elim k [
    | inl v ↦ v.holds.weighs f
    | inr (e, empty, light) ↦ ap (λ s. total f s.buckets) e ∙ sym (light f)
  ]

  pub Keeps-id : (id : ℕ) {t : Transfer} → g id ≡ some t → t.id ≡ id
  Keeps-id id found = elim k [
    | inl v ↦ find_chain-id id (bucket r id) (v.holds.reads id ∙ found)
    | inr (e, empty, light) ↦ cc (empty id, found)
  ]

  pub Keeps-le : (f : Transfer → ℕ) (id : ℕ) {t : Transfer} → g id ≡ some t → f t ≤ w f
  Keeps-le f id found = elim k [
    | inl v ↦ omega (
      arith,
      find_chain-le f id (bucket r id) (v.holds.reads id ∙ found),
      bucket-le-total f r.buckets (home id r.bucket_count),
      v.holds.weighs f,
    )
    | inr (e, empty, light) ↦ cc (empty id, found)
  ]

  pub Keeps-at_address :
      (id : ℕ) {t : Transfer}
      → g id ≡ some t
      → w (lies_at t.address) ≤ 1
      → at_address t.address (concat r.buckets) ≡ some t
  Keeps-at_address id {t} found once = elim k [
    | inl v ↦
        at_address-bucket id (home id r.bucket_count) r.buckets (v.holds.reads id ∙ found)
          (omega (arith, v.holds.weighs (lies_at t.address), once))
    | inr (e, empty, light) ↦ cc (empty id, found)
  ]

-- A registry that has buckets later has them now.
abbrev pub Lasts : Registry → Registry → Type 0
Lasts r r' = length r'.buckets ≡ 0 → length r.buckets ≡ 0

-- A transfer that is taken out, and the registry without it.
pub record Removed (g : ℕ → Option Transfer) (w : (Transfer → ℕ) → ℕ) (r : Registry) (id : ℕ)
    (t : Transfer) (r' : Registry) : Type 0 where
  pub ran : remove r id ≡ (some t, r')
  pub found : g id ≡ some t
  pub kept : Keeps (update g id none) (λ f. w f - f t) r'
  pub lasts : Lasts r r'
  pub lighter : (f : Transfer → ℕ) → f t ≤ w f

pub remove-Removed :
    (id : ℕ) {g : ℕ → Option Transfer} {w : (Transfer → ℕ) → ℕ} {r : Registry}
    → Keeps g w r
    → ((g id ≡ none) × (remove r id ≡ (none, r)))
      ⊎ ((t : Transfer) × (r' : Registry) × Removed g w r id t r')
unfolding remove
remove-Removed id {g} {w} {r} k = elim k [
  | inl v ↦ elim (remove_lem id v) [
    | inl (absent, ran) ↦ inl (absent, ran)
    | inr (t, r', found, ran, v') ↦ inr (
      t,
      r',
      record {
        ran = ran;
        found = found;
        kept = inl v';
        lasts = λ e. absurd (omega (arith, Refines-width v', e));
        lighter = λ f. Keeps-le (inl v) f id found;
      },
    )
  ]
  | inr (e, empty, light) ↦ inl (empty id, subst (λ s. remove s id ≡ (none, s)) (sym e) refl)
]

-- A transfer that is put in, and the registry with it.
pub record Inserted (g : ℕ → Option Transfer) (w : (Transfer → ℕ) → ℕ) (r : Registry)
    (calloc_ok : Bool) (t : Transfer) (r' : Registry) : Type 0 where
  pub ran : insert calloc_ok r t ≡ (true, r')
  pub free : g t.id ≡ none
  pub kept : Keeps (update g t.id (some t)) (λ f. f t + w f) r'
  pub lasts : Lasts r r'

pub insert-Inserted :
    (calloc_ok : Bool) (t : Transfer) {g : ℕ → Option Transfer} {w : (Transfer → ℕ) → ℕ}
    {r : Registry}
    → Keeps g w r
    → r.count < size_max
    → (insert calloc_ok r t ≡ (false, r)) ⊎ ((r' : Registry) × Inserted g w r calloc_ok t r')
unfolding insert
insert-Inserted calloc_ok t {g} {w} {r} k small = elim k [
  | inl v ↦ elim (insert_lem calloc_ok t v (omega (arith, v.counted, small))) [
    | inl (taken, ran) ↦ inl ran
    | inr (free, r', ran, v') ↦ inr (
      r',
      record {
        ran = ran;
        free = free;
        kept = inl v';
        lasts = λ e. absurd (omega (arith, Refines-width v', e));
      },
    )
  ]
  | inr (e, empty, light) ↦ inl (subst (λ s. insert calloc_ok s t ≡ (false, s)) (sym e) refl)
]

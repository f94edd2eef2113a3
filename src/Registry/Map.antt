-- ===== src/Registry/Map.antt =====
-- The registry is a finite map from identifiers to transfers: each operation, and any sequence of
-- operations, answers as the map does, whatever the hash, the buckets and the resizing.
use hcurl.Prelude.{
  ℕ, ◌+◌, ◌-◌, ◌/◌, ◌≤◌, ◌<◌, ◌≡◌, refl, sym, ap, ◌∙◌, set, ◌⊎◌, inl, inr, Bool, true, false, not,
  ◌&&◌, ◌||◌, Option, none, some, arith, ltb, leb, ◌==◌, if-elim, Option-cases, is_none, length,
  size_max, mul_size,
}
use hcurl.Registry.{
  Transfer, Registry, initial_bucket_count, init, is_null, bucket, find, resize, link, make_room,
  insert, unlink, remove, home,
}
use hcurl.Registry.Chains.{take_out-Taken}
use hcurl.Registry.Buckets.{Holds, update}
use hcurl.Registry.Moves.{prepend-Holds, take_out-Holds, replicate-Holds}
use hcurl.Registry.Resizing.{move_all-Holds}

-- The registry holds the transfers of the map `g`, which weigh `w` altogether.
pub record Refines (g : ℕ → Option Transfer) (w : (Transfer → ℕ) → ℕ) (r : Registry) : Type 0 where
  pub some_buckets : 0 < r.bucket_count
  pub fits : r.bucket_count ≤ size_max
  pub holds : Holds r.bucket_count g w r.buckets
  pub counted : r.count ≡ w (λ t. 1)

pub init-Refines : Refines (λ _. none) (λ _. 0) (init true).1
unfolding init
init-Refines = record {
  some_buckets = omega arith;
  fits = omega arith;
  holds = replicate-Holds initial_bucket_count;
  counted = refl;
}

not_null :
    {g : ℕ → Option Transfer} {w : (Transfer → ℕ) → ℕ} {r : Registry}
    → Refines g w r
    → is_null r ≡ false
not_null v = ground (arith, v.holds.width)

pub find_lem :
    {g : ℕ → Option Transfer} {w : (Transfer → ℕ) → ℕ} {r : Registry} (id : ℕ)
    → Refines g w r
    → find r id ≡ g id
unfolding find
find_lem id v = rw (find, not_null v) (v.holds.reads id)

make_room-Refines :
    (calloc_ok : Bool) {g : ℕ → Option Transfer} {w : (Transfer → ℕ) → ℕ} {r : Registry}
    → Refines g w r
    → Refines g w (make_room calloc_ok r)
unfolding make_room resize
make_room-Refines calloc_ok {g} {w} {r} v =
    if-elim (Refines g w)
      (leb r.bucket_count (size_max / 2) && leb (mul_size r.bucket_count 2) r.count)
      (λ e.
        if-elim (Refines g w) (ltb (size_max / 2) r.bucket_count) (λ f. v)
          (λ f.
            if-elim (Refines g w) (not calloc_ok) (λ h. v)
              (λ h. record {
                some_buckets = ground (arith, v.some_buckets);
                fits = omega arith;
                holds = move_all-Holds (ground (arith, v.some_buckets)) v.holds;
                counted = v.counted;
              })))
      (λ e. v)

link-Refines :
    {g : ℕ → Option Transfer} {w : (Transfer → ℕ) → ℕ} {r : Registry} (t : Transfer)
    → Refines g w r
    → g t.id ≡ none
    → w (λ t. 1) < size_max
    → Refines (update g t.id (some t)) (λ f. f t + w f) (link r t)
unfolding link
link-Refines t v absent small = record {
  some_buckets = v.some_buckets;
  fits = v.fits;
  holds = prepend-Holds v.some_buckets v.holds t absent;
  counted = omega (arith, v.counted);
}

refused :
    {g : ℕ → Option Transfer} {w : (Transfer → ℕ) → ℕ} {r : Registry} (id : ℕ)
    → Refines g w r
    → (length r.buckets == 0 || not (is_none (find r id))) ≡ not (is_none (g id))
refused {r} id v =
    let null : (length r.buckets == 0) ≡ false = ground (arith, v.holds.width, v.some_buckets) in
    rw (null, find_lem id v) refl

-- `registry_insert`: an identifier that is taken is refused, and nothing changes; else the map has
-- the transfer there.
pub insert_lem :
    (calloc_ok : Bool) {g : ℕ → Option Transfer} {w : (Transfer → ℕ) → ℕ} {r : Registry}
    (t : Transfer)
    → Refines g w r
    → w (λ t. 1) < size_max
    → ((is_none (g t.id) ≡ false) × (insert calloc_ok r t ≡ (false, r)))
      ⊎ ((g t.id ≡ none)
          × (r' : Registry) × (insert calloc_ok r t ≡ (true, r'))
          × Refines (update g t.id (some t)) (λ f. f t + w f) r')
unfolding insert
insert_lem calloc_ok {g} {w} {r} t v small =
    let test = refused t.id v in
    elim (Option-cases (g t.id)) [
      | inr (s, e) ↦ inl (rw e refl, rw (insert, test, e) refl)
      | inl e ↦ inr (
        e,
        link (make_room calloc_ok r) t,
        rw (insert, test, e) refl,
        link-Refines t (make_room-Refines calloc_ok v) e small,
      )
    ]

-- `registry_remove`: what the map has at the identifier, and the map without it.
pub remove_lem :
    {g : ℕ → Option Transfer} {w : (Transfer → ℕ) → ℕ} {r : Registry} (id : ℕ)
    → Refines g w r
    → ((g id ≡ none) × (remove r id ≡ (none, r)))
      ⊎ ((t : Transfer) × (r' : Registry) × (g id ≡ some t)
          × (remove r id ≡ (some t, r'))
          × Refines (update g id none) (λ f. w f - f t) r')
unfolding remove unlink
remove_lem {g} {w} {r} id v = elim (take_out-Taken id (bucket r id)) [
  | inl (absent, untaken) ↦
      inl (sym (v.holds.reads id) ∙ absent, rw (remove, not_null v, untaken) refl)
  | inr (t, rest, run, k) ↦ inr (
    t,
    record r { buckets = set r.buckets (home id r.bucket_count) rest; count = r.count - 1 },
    sym (v.holds.reads id) ∙ k.found,
    rw (remove, not_null v, run) refl,
    record {
      some_buckets = v.some_buckets;
      fits = v.fits;
      holds = take_out-Holds v.some_buckets v.holds id k;
      counted = ap (λ n. n - 1) v.counted;
    },
  )
]

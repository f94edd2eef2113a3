-- ===== src/Registry/Chains.antt =====
-- One chain of the registry, and what it weighs: a sum over its transfers, such as their number, or
-- the number of those with one identifier or with one handle.
use hcurl.Prelude.{
  ℕ, zero, suc, ◌+◌, ◌≤◌, ◌<◌, ◌≡◌, ◌≢◌, refl, ◌⊎◌, inl, inr, List, [], ◌∷◌, ◌++◌, none, some,
  arith, ◌==◌, if◌then◌else◌, Bool-cases, length, get_or, set, concat, replicate,
}
use hcurl.Registry.{Transfer, find_chain, take_out}

abbrev pub weigh : (Transfer → ℕ) → List Transfer → ℕ
weigh f [] = 0
weigh f (t ∷ chain) = f t + weigh f chain

-- 1 at the transfers with an identifier.
abbrev pub has : ℕ → Transfer → ℕ
has id t = if t.id == id then 1 else 0

pub weigh-append :
    (f : Transfer → ℕ) (a b : List Transfer) → weigh f (a ++ b) ≡ weigh f a + weigh f b
weigh-append f [] b = omega arith
weigh-append f (t ∷ a) b = omega (arith, weigh-append f a b)

-- The weight of all buckets.
abbrev pub total : (Transfer → ℕ) → List (List Transfer) → ℕ
total f bs = weigh f (concat bs)

-- A write to one bucket.
pub total-set :
    (f : Transfer → ℕ) (bs : List (List Transfer)) (i : ℕ) (c : List Transfer)
    → i < length bs
    → total f (set bs i c) + weigh f (get_or bs i []) ≡ total f bs + weigh f c
total-set f [] i c h = absurd (omega arith)
total-set f (b ∷ bs) zero c h =
    omega (arith, weigh-append f c (concat bs), weigh-append f b (concat bs))
total-set f (b ∷ bs) (suc i) c h = omega (
  arith,
  weigh-append f b (concat (set bs i c)),
  weigh-append f b (concat bs),
  total-set f bs i c (omega arith),
)

pub total-replicate : (f : Transfer → ℕ) (n : ℕ) → total f (replicate n []) ≡ 0
total-replicate f zero = refl
total-replicate f (suc n) = total-replicate f n

-- A bucket weighs no more than all.
pub bucket-le-total :
    (f : Transfer → ℕ) (bs : List (List Transfer)) (i : ℕ) → weigh f (get_or bs i []) ≤ total f bs
bucket-le-total f [] i = omega arith
bucket-le-total f (b ∷ bs) zero = omega (arith, weigh-append f b (concat bs))
bucket-le-total f (b ∷ bs) (suc i) =
    omega (arith, weigh-append f b (concat bs), bucket-le-total f bs i)

pub find_chain-absent :
    (id : ℕ) (chain : List Transfer) → weigh (has id) chain ≡ 0 → find_chain id chain ≡ none
unfolding find_chain
find_chain-absent id [] h = refl
find_chain-absent id (t ∷ chain) h = ground (arith, find_chain-absent id chain)

pub absent-find_chain :
    (id : ℕ) (chain : List Transfer) → find_chain id chain ≡ none → weigh (has id) chain ≡ 0
unfolding find_chain
absent-find_chain id [] h = refl
absent-find_chain id (t ∷ chain) h = ground (arith, absent-find_chain id chain)

pub find_chain-id :
    (id : ℕ) (chain : List Transfer) {t : Transfer} → find_chain id chain ≡ some t → t.id ≡ id
unfolding find_chain
find_chain-id id [] h = cc
find_chain-id id (u ∷ chain) {t} h = ground (arith, find_chain-id id chain {t = t})

pub find_chain-append :
    (id : ℕ) (a b : List Transfer) → weigh (has id) a ≡ 0 → find_chain id (a ++ b) ≡ find_chain id b
unfolding find_chain
find_chain-append id [] b h = refl
find_chain-append id (t ∷ a) b h = ground (arith, find_chain-append id a b)

-- What `take_out` finds: what `find_chain` finds, and the rest weighs as much less.
pub record Taken (id : ℕ) (chain : List Transfer) (t : Transfer) (rest : List Transfer)
    : Type 0 where
  pub found : find_chain id chain ≡ some t
  pub lighter : (f : Transfer → ℕ) → weigh f chain ≡ f t + weigh f rest
  pub others : (q : ℕ) → q ≢ id → find_chain q rest ≡ find_chain q chain

pub take_out-Taken :
    (id : ℕ) (chain : List Transfer)
    → ((find_chain id chain ≡ none) × (take_out id chain ≡ none))
      ⊎ ((t : Transfer) × (rest : List Transfer) × (take_out id chain ≡ some (t, rest))
          × Taken id chain t rest)
unfolding find_chain take_out
take_out-Taken id [] = inl (refl, refl)
take_out-Taken id (t ∷ chain) = elim (Bool-cases (t.id == id)) [
  | inl e ↦ inr (
    t,
    chain,
    rw e refl,
    record { found = rw e refl; lighter = λ f. refl; others = λ q n. ground arith },
  )
  | inr e ↦ elim (take_out-Taken id chain) [
    | inl (absent, none_taken) ↦ inl (rw e absent, rw (e, none_taken) refl)
    | inr (s, rest, run, k) ↦ inr (
      s,
      t ∷ rest,
      rw (e, run) refl,
      record {
        found = rw e k.found;
        lighter = λ f. omega (arith, k.lighter f);
        others = λ q n. ground (arith, k.others q n);
      },
    )
  ]
]

-- ===== src/Registry/Buckets.antt =====
-- The buckets of the registry: where a transfer stands, what they mean, and writes to one bucket.
use hcurl.Prelude.{
  ℕ, zero, suc, ◌+◌, ◌≤◌, ◌<◌, ◌≡◌, ◌≢◌, refl, ap, ◌∙◌, List, [], ◌∷◌, Option, arith, ◌==◌,
  if◌then◌else◌, length, length-set, get_or, set,
}
use hcurl.Registry.{Transfer, home, find_chain, hash_transfer_id}
use hcurl.Registry.Mask.{bit_and-lt}
use hcurl.Registry.Chains.{weigh, has, total, total-set}

pub home-lt : (id n : ℕ) → 0 < n → home id n < n
unfolding home
home-lt id n h = bit_and-lt (hash_transfer_id id) n h

home_congr : (q k n : ℕ) → q ≡ k → home q n ≡ home k n
home_congr q k n e = ap (λ t. home t n) e

has_congr : (q k : ℕ) (c : List Transfer) → q ≡ k → weigh (has q) c ≡ weigh (has k) c
has_congr q k c e = ap (λ t. weigh (has t) c) e

find_congr : (q k : ℕ) (c : List Transfer) → q ≡ k → find_chain q c ≡ find_chain k c
find_congr q k c e = ap (λ t. find_chain t c) e

bucket-set :
    (bs : List (List Transfer)) (i j : ℕ) (c : List Transfer)
    → i < length bs
    → get_or (set bs i c) j [] ≡ (if i == j then c else get_or bs j [])
bucket-set [] i j c h = absurd (omega arith)
bucket-set (b ∷ bs) zero zero c h = refl
bucket-set (b ∷ bs) zero (suc j) c h = ground arith
bucket-set (b ∷ bs) (suc i) zero c h = ground arith
bucket-set (b ∷ bs) (suc i) (suc j) c h = ground (arith, bucket-set bs i j c)

-- An identifier occurs at most once, and only in its own bucket.
abbrev pub IsPlaced : ℕ → List (List Transfer) → Type 0
IsPlaced n bs =
    (q i : ℕ)
    → (weigh (has q) (get_or bs i []) ≤ 1) × (home q n ≢ i → weigh (has q) (get_or bs i []) ≡ 0)

-- The chain of an identifier, and what is found there.
abbrev pub chain_of : ℕ → List (List Transfer) → ℕ → List Transfer
chain_of n bs q = get_or bs (home q n) []

abbrev pub view : ℕ → List (List Transfer) → ℕ → Option Transfer
view n bs q = find_chain q (chain_of n bs q)

-- `n` buckets that hold what `g` says at each identifier, and weigh `w` altogether.
pub record Holds (n : ℕ) (g : ℕ → Option Transfer) (w : (Transfer → ℕ) → ℕ)
    (bs : List (List Transfer)) : Type 0 where
  pub width : length bs ≡ n
  pub placed : IsPlaced n bs
  pub reads : (q : ℕ) → view n bs q ≡ g q
  pub weighs : (f : Transfer → ℕ) → total f bs ≡ w f

abbrev pub update : (ℕ → Option Transfer) → ℕ → Option Transfer → ℕ → Option Transfer
update g k v q = if q == k then v else g q

-- What a new chain of `k` has to be.
pub record Rewrites (k : ℕ) (v : Option Transfer) (old new : List Transfer) : Type 0 where
  pub own : find_chain k new ≡ v
  pub once : weigh (has k) new ≤ 1
  pub others : (q : ℕ) → q ≢ k → find_chain q new ≡ find_chain q old
  pub as_often : (q : ℕ) → q ≢ k → weigh (has q) new ≡ weigh (has q) old

module _ {n : ℕ} {g : ℕ → Option Transfer} {w : (Transfer → ℕ) → ℕ} {bs : List (List Transfer)}
    (pos : 0 < n) (h : Holds n g w bs) (k : ℕ) {v : Option Transfer} {c : List Transfer}
    (r : Rewrites k v (chain_of n bs k) c) where
  in_range : home k n < length bs
  in_range = omega (arith, home-lt k n pos, h.width)

  set-IsPlaced : IsPlaced n (set bs (home k n) c)
  set-IsPlaced q i = rw (bucket-set bs (home k n) i c in_range) (
      ground (
        arith,
        h.placed q i,
        h.placed q (home k n),
        r.once,
        r.as_often q,
        home_congr q k n,
        has_congr q k c,
      ))

  set-reads : (q : ℕ) → view n (set bs (home k n) c) q ≡ update g k v q
  set-reads q =
      rw (bucket-set bs (home k n) (home q n) c in_range)
        (ground (arith, h.reads q, r.own, r.others q, home_congr q k n, find_congr q k c))

  pub set-Holds :
      (w' : (Transfer → ℕ) → ℕ)
      → ((f : Transfer → ℕ) → w' f + weigh f (chain_of n bs k) ≡ w f + weigh f c)
      → Holds n (update g k v) w' (set bs (home k n) c)
  set-Holds w' balance = record {
    width = length-set bs (home k n) c ∙ h.width;
    placed = set-IsPlaced;
    reads = set-reads;
    weighs = λ f. omega (arith, balance f, total-set f bs (home k n) c in_range, h.weighs f);
  }

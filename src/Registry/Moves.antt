-- ===== src/Registry/Moves.antt =====
-- What putting a transfer into its chain, taking one out, and moving all to new buckets do.
use mathlib.Core.Option.{or_else}
use hcurl.Prelude.{
  ℕ, zero, suc, ◌+◌, ◌-◌, ◌≤◌, ◌<◌, ◌≡◌, refl, sym, ap, ◌∙◌, List, [], ◌∷◌, ◌++◌, Option, none,
  some, arith, length, get_or, set, replicate, concat,
}
use hcurl.Registry.{Transfer, home, find_chain, move_chain, move_all}
use hcurl.Registry.Chains.{
  weigh, has, total-replicate, bucket-le-total, absent-find_chain, find_chain-absent, find_chain-id,
  Taken,
}
use hcurl.Registry.Buckets.{chain_of, Holds, update, set-Holds}

pub prepend-Holds :
    {n : ℕ} {g : ℕ → Option Transfer} {w : (Transfer → ℕ) → ℕ} {bs : List (List Transfer)}
    → 0 < n
    → Holds n g w bs
    → (t : Transfer) → g t.id ≡ none
    → Holds n
        (update g t.id (some t))
        (λ f. f t + w f)
        (set bs (home t.id n) (t ∷ chain_of n bs t.id))
unfolding find_chain
prepend-Holds {n} {g} {w} {bs} pos h t absent =
    let free = absent-find_chain t.id (chain_of n bs t.id) (h.reads t.id ∙ absent) in
    set-Holds pos h t.id
      (record {
        own = ground arith;
        once = ground arith;
        others = λ q ne. ground arith;
        as_often = λ q ne. ground arith;
      })
      (λ f. f t + w f) (λ f. omega arith)

pub take_out-Holds :
    {n : ℕ} {g : ℕ → Option Transfer} {w : (Transfer → ℕ) → ℕ} {bs : List (List Transfer)}
    → 0 < n
    → Holds n g w bs
    → (k : ℕ) {t : Transfer} {rest : List Transfer} → Taken k (chain_of n bs k) t rest
    → Holds n (update g k none) (λ f. w f - f t) (set bs (home k n) rest)
take_out-Holds {n} {g} {w} {bs} pos h k {t} {rest} d =
    let same_id = find_chain-id k (chain_of n bs k) d.found in
    let here : has k t ≡ 1 = ground arith in
    let gone : weigh (has k) rest ≡ 0 =
      omega (arith, d.lighter (has k), (h.placed k (home k n)).0) in
    set-Holds pos h k
      (record {
        own = find_chain-absent k rest gone;
        once = omega arith;
        others = d.others;
        as_often = λ q ne. ground (arith, d.lighter (has q));
      })
      (λ f. w f - f t)
      (λ f. omega (arith, d.lighter f, h.weighs f, bucket-le-total f bs (home k n)))

pub replicate-Holds : (n : ℕ) → Holds n (λ _. none) (λ _. 0) (replicate n [])
unfolding find_chain
replicate-Holds n = record {
  width = length-replicate n;
  placed = λ q i. rw (bucket-replicate n i) (omega arith);
  reads = λ q. rw (bucket-replicate n (home q n)) refl;
  weighs = λ f. total-replicate f n;
}
  where
    length-replicate : (n : ℕ) → length (replicate {A = List Transfer} n []) ≡ n
    length-replicate zero = refl
    length-replicate (suc n) = ap suc (length-replicate n)

    bucket-replicate : (n i : ℕ) → get_or (replicate {A = List Transfer} n []) i [] ≡ []
    bucket-replicate zero i = refl
    bucket-replicate (suc n) zero = refl
    bucket-replicate (suc n) (suc i) = bucket-replicate n i

pub move_chain-Holds :
    (chain : List Transfer) {n : ℕ} {g : ℕ → Option Transfer} {w : (Transfer → ℕ) → ℕ}
    (fresh : List (List Transfer))
    → 0 < n
    → Holds n g w fresh
    → ((q : ℕ) → weigh (has q) chain ≤ 1)
    → ((q : ℕ) → 0 < weigh (has q) chain → g q ≡ none)
    → Holds n
        (λ q. or_else (find_chain q chain) (g q))
        (λ f. weigh f chain + w f)
        (move_chain n chain fresh)
unfolding move_chain find_chain or_else
move_chain-Holds [] fresh pos h once apart = record {
  width = h.width;
  placed = h.placed;
  reads = h.reads;
  weighs = λ f. omega (arith, h.weighs f);
}
move_chain-Holds (t ∷ chain) {n} {g} {w} fresh pos h once apart =
    let step = prepend-Holds pos h t (apart t.id (ground arith)) in
    let rest =
      move_chain-Holds chain (set fresh (home t.id n) (t ∷ chain_of n fresh t.id)) pos step
        (λ q. omega (arith, once q)) (λ q e. ground (arith, once q, apart q)) in
    record {
      width = rest.width;
      placed = rest.placed;
      reads = λ q. rest.reads q ∙ ground (arith, once q, find_chain-absent q chain);
      weighs = λ f. rest.weighs f ∙ omega arith;
    }

move_chain-append :
    (n : ℕ) (a b : List Transfer) (fresh : List (List Transfer))
    → move_chain n (a ++ b) fresh ≡ move_chain n b (move_chain n a fresh)
unfolding move_chain
move_chain-append n [] b fresh = refl
move_chain-append n (t ∷ a) b fresh =
    move_chain-append n a b (set fresh (home t.id n) (t ∷ get_or fresh (home t.id n) []))

-- The two nested loops are one loop over all the transfers.
pub move_all-concat :
    (n : ℕ) (bs fresh : List (List Transfer)) → move_all n bs fresh ≡ move_chain n (concat bs) fresh
unfolding move_all move_chain
move_all-concat n [] fresh = refl
move_all-concat n (c ∷ bs) fresh =
    move_all-concat n bs (move_chain n c fresh) ∙ sym (move_chain-append n c (concat bs) fresh)

-- ===== src/Registry/Resizing.antt =====
-- `registry_resize` keeps every transfer and every lookup.
use mathlib.Core.Option.{or_else}
use hcurl.Prelude.{
  ℕ, zero, suc, ◌≤◌, ◌<◌, ◌≡◌, ◌≢◌, refl, sym, ◌∙◌, List, [], ◌∷◌, ◌++◌, Option, none, some, arith,
  get_or, concat, replicate,
}
use mathlib.Core.Path.{subst}
use hcurl.Registry.{Transfer, home, find_chain, move_all}
use hcurl.Registry.Chains.{weigh, weigh-append, has, total, find_chain-absent, find_chain-append}
use hcurl.Registry.Buckets.{IsPlaced, view, Holds}
use hcurl.Registry.Moves.{replicate-Holds, move_chain-Holds, move_all-concat}

find_chain-append_absent :
    (q : ℕ) (a b : List Transfer) → weigh (has q) b ≡ 0 → find_chain q (a ++ b) ≡ find_chain q a
unfolding find_chain
find_chain-append_absent q [] b h = find_chain-absent q b h
find_chain-append_absent q (t ∷ a) b h = ground (arith, find_chain-append_absent q a b)

nowhere :
    (q : ℕ) (bs : List (List Transfer))
    → ((i : ℕ) → weigh (has q) (get_or bs i []) ≡ 0)
    → total (has q) bs ≡ 0
nowhere q [] h = refl
nowhere q (c ∷ bs) h =
    omega (arith, weigh-append (has q) c (concat bs), h 0, nowhere q bs (λ i. h (suc i)))

-- An identifier that stands in one bucket alone.
only_in :
    (q : ℕ) (bs : List (List Transfer)) (j : ℕ)
    → ((i : ℕ) → i ≢ j → weigh (has q) (get_or bs i []) ≡ 0)
    → (find_chain q (concat bs) ≡ find_chain q (get_or bs j []))
      × (total (has q) bs ≡ weigh (has q) (get_or bs j []))
only_in q [] j h = (refl, refl)
only_in q (c ∷ bs) zero h =
    let rest = nowhere q bs (λ i. h (suc i) (omega arith)) in
    (
      find_chain-append_absent q c (concat bs) rest,
      omega (arith, weigh-append (has q) c (concat bs)),
    )
only_in q (c ∷ bs) (suc j) h =
    let here = h 0 (omega arith) in
    let (found, counted) = only_in q bs j (λ i n. h (suc i) (omega arith)) in
    (
      find_chain-append q c (concat bs) here ∙ found,
      omega (arith, weigh-append (has q) c (concat bs)),
    )

placed_lem :
    (n : ℕ) (bs : List (List Transfer)) (q : ℕ)
    → IsPlaced n bs
    → (find_chain q (concat bs) ≡ view n bs q) × (total (has q) bs ≤ 1)
placed_lem n bs q p =
    let (found, counted) = only_in q bs (home q n) (λ i ne. (p q i).1 (λ e. ne (sym e))) in
    (found, omega (arith, (p q (home q n)).0))

or_else-none : (o : Option Transfer) → or_else o none ≡ o
unfolding or_else
or_else-none none = refl
or_else-none (some t) = refl

pub move_all-Holds :
    {n m : ℕ} {g : ℕ → Option Transfer} {w : (Transfer → ℕ) → ℕ} {bs : List (List Transfer)}
    → 0 < m
    → Holds n g w bs
    → Holds m g w (move_all m bs (replicate m []))
unfolding or_else
move_all-Holds {n} {m} {g} {w} {bs} pos h =
    let moved =
      move_chain-Holds (concat bs) (replicate m []) pos (replicate-Holds m)
        (λ q. (placed_lem n bs q h.placed).1) (λ q _. refl) in
    subst (Holds m g w) (sym (move_all-concat m bs (replicate m []))) (record {
      width = moved.width;
      placed = moved.placed;
      reads = λ q.
          moved.reads q
          ∙ or_else-none (find_chain q (concat bs))
          ∙ (placed_lem n bs q h.placed).0
          ∙ h.reads q;
      weighs = λ f. moved.weighs f ∙ omega (arith, h.weighs f);
    })

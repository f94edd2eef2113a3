-- ===== src/Memory.antt =====
-- The blocks of bytes that the C code allocates and writes: `malloc`, `realloc` and `memcpy` as
-- cbits/simple_string.c and cbits/headers.c use them, and the loop by which both grow a buffer.
pub mod Examples
use hcurl.Prelude.{
  ℕ, zero, suc, ◌+◌, ◌*◌, ◌/◌, ◌≤◌, ◌<◌, ◌≡◌, refl, ap, List, [], ◌∷◌, ◌++◌, Option, none, some,
  arith, length, take, ltb, if◌then◌else◌, size_max, Bool-cases, inl, inr,
}
use mathlib.Core.Option
use native.Mathlib.Nat.{zero-add}

-- A block holds one number for each of its bytes.
abbrev pub Block : Type 0
Block = List ℕ

-- A run of C code that touches memory; `none` is an access outside a block, or a loop out of fuel.
infixl 5 ◌>>=◌
abbrev pub ◌>>=◌ {ℓ κ} : {A : Type ℓ} {B : Type κ} → Option A → (A → Option B) → Option B
none >>= f = none
some a >>= f = f a

-- `memcpy(block + i, xs, n)`, where `xs` are the `n` bytes that are copied.
unfoldable pub store : Block → ℕ → List ℕ → Option Block
store b zero [] = some b
store [] zero (x ∷ xs) = none
store (c ∷ b) zero (x ∷ xs) = Option.map (λ r. x ∷ r) (store b zero xs)
store [] (suc i) xs = none
store (c ∷ b) (suc i) xs = Option.map (λ r. c ∷ r) (store b i xs)

-- The first `n` bytes behind a pointer to the bytes `xs`.
unfoldable pub load : ℕ → List ℕ → Option (List ℕ)
load zero xs = some []
load (suc n) [] = none
load (suc n) (x ∷ xs) = Option.map (λ r. x ∷ r) (load n xs)

-- What the code relies on of the C library's allocator: a block has the size that was asked for,
-- and `realloc` to a larger size keeps the old bytes. Either may fail.
pub record Allocator : Type 0 where
  pub malloc : ℕ → Option Block
  pub realloc : Block → ℕ → Option Block
  pub malloc_size : (n : ℕ) (b : Block) → malloc n ≡ some b → length b ≡ n
  pub realloc_size : (b : Block) (n : ℕ) (r : Block) → realloc b n ≡ some r → length r ≡ n
  pub realloc_keeps :
      (b : Block) (n k : ℕ) (r : Block)
      → realloc b n ≡ some r
      → k ≤ length b
      → k ≤ n
      → take k r ≡ take k b

-- `while (capacity < required) { if (capacity > SIZE_MAX / 2) { capacity = required; break; }
-- capacity *= 2; }`
unfoldable pub grow : ℕ → ℕ → ℕ → Option ℕ
grow zero capacity required = none
grow (suc fuel) capacity required =
    let rest = grow fuel (capacity * 2) required in
    if ltb capacity required
    then (if ltb (size_max / 2) capacity then some required else rest)
    else some capacity

-- The loop ends if there is a round, the capacity is positive, and there are more rounds than the
-- capacity lacks of `required`; its result is at least both and, as they are, at most `SIZE_MAX`.
pub grow_total :
    (fuel capacity required : ℕ)
    → 0 < fuel
    → 0 < capacity
    → required < capacity + fuel
    → required ≤ size_max
    → capacity ≤ size_max
    → (c : ℕ) × (grow fuel capacity required ≡ some c)
      × (required ≤ c)
      × (capacity ≤ c)
      × (c ≤ size_max)
unfolding grow
grow_total zero capacity required live pos enough small fits = absurd (omega arith)
grow_total (suc fuel) capacity required live pos enough small fits =
    elim (Bool-cases (ltb capacity required)) [
      | inr e ↦ (capacity, rw e refl, ground arith, omega arith, fits)
      | inl e ↦ elim (Bool-cases (ltb (size_max / 2) capacity)) [
        | inl big ↦ (required, rw (e, big) refl, omega arith, ground arith, small)
        | inr low ↦
            let (c, run, above, more, below) =
              grow_total fuel (capacity * 2) required (ground arith) (omega arith) (ground arith)
                small (ground arith) in
            (c, rw (e, low) run, above, omega arith, below)
      ]
    ]

-- What a copy inside the block leaves: its size, the bytes before it, and the bytes copied.
pub record Stored (b : Block) (i : ℕ) (xs : List ℕ) (r : Block) : Type 0 where
  pub size : length r ≡ length b
  pub before : take i r ≡ take i b
  pub written : (n : ℕ) → n ≡ i + length xs → take n r ≡ take i b ++ xs

pub store_lem :
    (b : Block) (i : ℕ) (xs : List ℕ)
    → i + length xs ≤ length b
    → (r : Block) × (store b i xs ≡ some r) × Stored b i xs r
unfolding store
store_lem b zero [] h = (b, refl, record { size = refl; before = refl; written = λ n e. rw e refl })
store_lem [] zero (x ∷ xs) h = absurd (omega arith)
store_lem (c ∷ b) zero (x ∷ xs) h =
    let (r, run, s) = store_lem b zero xs (omega arith) in
    (
      x ∷ r,
      rw run refl,
      record {
        size = ap suc s.size;
        before = refl;
        written = λ n e. rw (e, zero-add) (ap (λ t. x ∷ t) (s.written (length xs) (omega arith)));
      },
    )
store_lem [] (suc i) xs h = absurd (omega arith)
store_lem (c ∷ b) (suc i) xs h =
    let (r, run, s) = store_lem b i xs (omega arith) in
    (
      c ∷ r,
      rw run refl,
      record {
        size = ap suc s.size;
        before = ap (λ t. c ∷ t) s.before;
        written = λ n e.
            rw (let e' : n ≡ suc (i + length xs) = omega arith in e')
              (ap (λ t. c ∷ t) (s.written (i + length xs) refl));
      },
    )

pub load_lem : (n : ℕ) (xs : List ℕ) → n ≤ length xs → load n xs ≡ some (take n xs)
unfolding load
load_lem zero xs h = refl
load_lem (suc n) [] h = absurd (omega arith)
load_lem (suc n) (x ∷ xs) h = rw (load_lem n xs (omega arith)) refl

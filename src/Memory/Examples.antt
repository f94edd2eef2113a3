-- ===== src/Memory/Examples.antt =====
-- An allocator that grants every request, for the tests, and one that grants none.
use hcurl.Prelude.{
  ℕ, zero, suc, ◌≤◌, ◌≡◌, ◌≢◌, refl, sym, ap, ◌∙◌, List, [], ◌∷◌, ◌++◌, none, some, arith, length,
  take, length-take, length-append, take-take, replicate,
}
use hcurl.Memory.{Block, Allocator}

length-replicate : (n : ℕ) → length (replicate {A = ℕ} n 0) ≡ n
length-replicate zero = refl
length-replicate (suc n) = ap suc (length-replicate n)

take-append : (k : ℕ) (xs ys : List ℕ) → k ≤ length xs → take k (xs ++ ys) ≡ take k xs
take-append zero xs ys h = refl
take-append (suc k) [] ys h = absurd (omega arith)
take-append (suc k) (x ∷ xs) ys h = ap (λ t. x ∷ t) (take-append k xs ys (omega arith))

same_block : {a b : Block} → some a ≡ some b → a ≡ b
same_block e = cc

abbrev pub resized : Block → ℕ → Block
resized b n = take n (b ++ replicate n 0)

pub malloc_size_law : (n : ℕ) (b : Block) → some (replicate n 0) ≡ some b → length b ≡ n
malloc_size_law n b e = ap length (sym (same_block e)) ∙ length-replicate n

pub realloc_size_law : (b : Block) (n : ℕ) (r : Block) → some (resized b n) ≡ some r → length r ≡ n
realloc_size_law b n r e =
    ap length (sym (same_block e))
    ∙ omega (
      arith,
      length-take n (b ++ replicate n 0),
      length-append b (replicate n 0),
      length-replicate n,
    )

pub realloc_keeps_law :
    (b : Block) (n k : ℕ) (r : Block)
    → some (resized b n) ≡ some r
    → k ≤ length b
    → k ≤ n
    → take k r ≡ take k b
realloc_keeps_law b n k r e h h' =
    ap (take k) (sym (same_block e))
    ∙ take-take k n (b ++ replicate n 0) h'
    ∙ take-append k b (replicate n 0) h

abbrev pub granting : Allocator
granting = record {
  malloc = λ n. some (replicate n 0);
  realloc = λ b n. some (resized b n);
  malloc_size = malloc_size_law;
  realloc_size = realloc_size_law;
  realloc_keeps = realloc_keeps_law;
}

pub granting_grants : (b : Block) (n : ℕ) → granting.realloc b n ≢ none
granting_grants b n e = cc

pub none_law : {P : Type 0} {b : Block} → none ≡ some b → P
none_law e = cc

abbrev pub refusing : Allocator
refusing = record {
  malloc = λ n. none;
  realloc = λ b n. none;
  malloc_size = λ n b e. none_law e;
  realloc_size = λ b n r e. none_law e;
  realloc_keeps = λ b n k r e h h'. none_law e;
}

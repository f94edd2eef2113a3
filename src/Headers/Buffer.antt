-- ===== src/Headers/Buffer.antt =====
-- cbits/headers.c: `reserve` and `append`, on a buffer with its length and its capacity.
use mathlib.Core.Option
use hcurl.Prelude.{
  ℕ, suc, ◌+◌, ◌-◌, ◌<◌, ◌≤◌, ◌≡◌, refl, sym, ap, ◌∙◌, ◌⊎◌, inl, inr, List, [], ◌∷◌, ◌++◌, Option,
  true, none, some, arith, ltb, leb, if◌then◌else◌, length, length-take, ◌≢◌, take, size_max,
  add_size, Bool-cases, Option-cases,
}
use hcurl.Memory.{Block, Allocator, ◌>>=◌, store, grow, grow_total, store_lem}

-- One of the two buffers of `header_data_s`, such as `current`, `current_size` and
-- `current_capacity`.
pub record Buffer : Type 0 where
  pub block : Block
  pub size : ℕ
  pub capacity : ℕ

-- `reserve`; the inner `none` is its `false`, and then the buffer is left as it was.
unfoldable pub reserve : Allocator → Buffer → ℕ → Option (Option Buffer)
reserve alloc buffer required =
    if leb required buffer.capacity
    then some (some buffer)
    else (grow (suc required) (if ltb 0 buffer.capacity then buffer.capacity else 1) required
        >>= λ grown. some (
            Option.map (λ resized. record buffer { block = resized; capacity = grown })
              (alloc.realloc buffer.block grown)))

-- The copy of the line behind the text, and of the final zero, up to the new length.
unfoldable pub fill : Buffer → List ℕ → ℕ → Option Buffer
fill buffer line new_size = do
  copied ← store buffer.block buffer.size line
  ended ← store copied new_size (0 ∷ [])
  some (record buffer { block = ended; size = new_size })

-- `append` behind its test: `required` bytes are made sure of, then filled.
unfoldable pub append_at : Allocator → Buffer → List ℕ → ℕ → ℕ → Option (Option Buffer)
append_at alloc buffer line new_size required = reserve alloc buffer required >>= elim [
  | none ↦ some none
  | some roomy ↦ fill roomy line new_size >>= λ filled. some (some filled)
]

-- `append`; the inner `none` is its `false`.
unfoldable pub append : Allocator → Buffer → List ℕ → Option (Option Buffer)
append alloc buffer line =
    if ltb (size_max - buffer.size - 1) (length line)
    then some none
    else let new_size = add_size buffer.size (length line) in
      append_at alloc buffer line new_size (add_size new_size 1)

-- `current_size = 0; current[0] = '\0';`
unfoldable pub clear : Buffer → Option Buffer
clear buffer = store buffer.block 0 (0 ∷ []) >>= λ b. some (record buffer { block = b; size = 0 })

abbrev pub text : Buffer → List ℕ
text b = take b.size b.block

-- The block has the capacity, and a zero behind the text.
pub record IsValid (b : Buffer) : Type 0 where
  pub extent : length b.block ≡ b.capacity
  pub room : b.size < b.capacity
  pub fits : b.capacity ≤ size_max
  pub ended : take (suc b.size) b.block ≡ text b ++ (0 ∷ [])

reserve_lem :
    (alloc : Allocator) {b : Buffer} (required : ℕ)
    → IsValid b
    → required ≤ size_max
    → ((c : ℕ) × (alloc.realloc b.block c ≡ none) × (reserve alloc b required ≡ some none))
      ⊎ ((r : Buffer) × (reserve alloc b required ≡ some (some r))
          × (length r.block ≡ r.capacity)
          × (required ≤ r.capacity)
          × (r.capacity ≤ size_max)
          × (r.size ≡ b.size)
          × (take b.size r.block ≡ text b))
unfolding reserve
reserve_lem alloc {b} required v small =
    let nonzero : ltb 0 b.capacity ≡ true = ground arith in
    elim (Bool-cases (leb required b.capacity)) [
      | inl e ↦ inr (b, rw e refl, v.extent, ground arith, v.fits, refl, refl)
      | inr e ↦
          let (c, run, above, more, below) =
            grow_total (suc required) b.capacity required (omega arith) (omega arith) (omega arith)
              small v.fits in
          elim (Option-cases (alloc.realloc b.block c)) [
            | inl r ↦ inl (c, r, rw (e, nonzero, run, ◌>>=◌, r) refl)
            | inr (block, r) ↦ inr (
              record b { block = block; capacity = c },
              rw (e, nonzero, run, ◌>>=◌, r) refl,
              alloc.realloc_size b.block c block r,
              above,
              below,
              refl,
              alloc.realloc_keeps b.block c b.size block r (omega arith) (omega arith),
            )
          ]
    ]

-- The line stands behind the old text, in a valid buffer.
pub record Extended (b : Buffer) (line : List ℕ) (r : Buffer) : Type 0 where
  pub valid : IsValid r
  pub appended : text r ≡ text b ++ line

fill_lem :
    (r : Buffer) (line : List ℕ) (n : ℕ)
    → n ≡ r.size + length line
    → length r.block ≡ r.capacity
    → n < r.capacity
    → r.capacity ≤ size_max
    → (f : Buffer) × (fill r line n ≡ some f) × IsValid f × (text f ≡ take r.size r.block ++ line)
unfolding fill
fill_lem r line n e extent room fits =
    let (copied, run, st) = store_lem r.block r.size line (omega arith) in
    let (ended, run', st') = store_lem copied n (0 ∷ []) (omega (arith, st.size)) in
    (
      record r { block = ended; size = n },
      rw run (rw run' refl),
      record {
        extent = st'.size ∙ st.size ∙ extent;
        room = room;
        fits = fits;
        ended = st'.written (suc n) (omega arith) ∙ ap (λ t. t ++ (0 ∷ [])) (sym st'.before);
      },
      st'.before ∙ st.written n e,
    )

-- Why `append` refuses a line.
pub data Refusal (alloc : Allocator) (b : Buffer) (line : List ℕ) : Type 0 where
  over_size : size_max ≤ b.size + length line → Refusal alloc b line
  out_of_memory : (c : ℕ) → alloc.realloc b.block c ≡ none → Refusal alloc b line

append_at_lem :
    (alloc : Allocator) {b : Buffer} (line : List ℕ) (n required : ℕ)
    → IsValid b
    → n ≡ b.size + length line
    → required ≡ n + 1
    → required ≤ size_max
    → ((append_at alloc b line n required ≡ some none) × Refusal alloc b line)
      ⊎ ((r : Buffer) × (append_at alloc b line n required ≡ some (some r)) × Extended b line r)
unfolding append_at
append_at_lem alloc {b} line n required v e e' small = elim (reserve_lem alloc required v small) [
  | inl (c, failed, run) ↦ inl (rw run refl, out_of_memory c failed)
  | inr (r, run, extent, room, fits, size, kept) ↦
      let (f, filled, valid, t) = fill_lem r line n (omega arith) extent (omega arith) fits in
      inr (
        f,
        rw run (rw filled refl),
        record {
          valid = valid;
          appended = t ∙ ap (λ t. t ++ line) (ap (λ k. take k r.block) size ∙ kept);
        },
      )
]

-- `append` touches no byte outside the block: it refuses the line for a reason, or puts it behind
-- the text.
pub append_lem :
    (alloc : Allocator) {b : Buffer} (line : List ℕ)
    → IsValid b
    → ((append alloc b line ≡ some none) × Refusal alloc b line)
      ⊎ ((r : Buffer) × (append alloc b line ≡ some (some r)) × Extended b line r)
unfolding append
append_lem alloc {b} line v = elim (Bool-cases (ltb (size_max - b.size - 1) (length line))) [
  | inl e ↦ inl (rw e refl, over_size (ground arith))
  | inr e ↦
      let sum : add_size b.size (length line) ≡ b.size + length line = ground arith in
      let wrap : add_size (b.size + length line) 1 ≡ b.size + length line + 1 = ground arith in
      rw (e, sum, wrap)
        (append_at_lem alloc line (b.size + length line) (b.size + length line + 1) v refl refl
          (ground arith))
]

pub clear_lem :
    {b : Buffer} → IsValid b → (r : Buffer) × (clear b ≡ some r) × IsValid r × (r.size ≡ 0)
unfolding clear
clear_lem {b} v =
    let (r, run, st) = store_lem b.block 0 (0 ∷ []) (omega arith) in
    (
      record b { block = r; size = 0 },
      rw run refl,
      record {
        extent = st.size ∙ v.extent;
        room = omega arith;
        fits = v.fits;
        ended = st.written 1 refl;
      },
      refl,
    )

-- Every request for memory is granted.
abbrev pub IsGenerous : Allocator → Type 0
IsGenerous alloc = (b : Block) (n : ℕ) → alloc.realloc b n ≢ none

-- With memory and below `SIZE_MAX` every line is taken.
pub append-Extended :
    (alloc : Allocator) {b : Buffer} (line : List ℕ)
    → IsGenerous alloc
    → IsValid b
    → b.size + length line < size_max
    → (r : Buffer) × (append alloc b line ≡ some (some r)) × Extended b line r
append-Extended alloc {b} line generous v small = elim (append_lem alloc line v) [
  | inr done ↦ done
  | inl (run, over_size h) ↦ absurd (omega arith)
  | inl (run, out_of_memory c h) ↦ absurd (generous b.block c h)
]

pub length-text : {b : Buffer} → IsValid b → length (text b) ≡ b.size
length-text {b} v = omega (arith, length-take b.size b.block)

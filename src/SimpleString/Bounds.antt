-- ===== src/SimpleString/Bounds.antt =====
-- cbits/simple_string.c: one call keeps the buffer within its block and its limit.
use hcurl.Prelude.{
  ℕ, suc, ◌+◌, ◌≤◌, ◌<◌, ◌≡◌, refl, ◌⊎◌, inl, inr, Bool, true, false, List, [], ◌∷◌, ◌++◌, none,
  some, arith, length, length-take, take, ltb, sym, ◌∙◌, ap, ◌==◌, size_max, Bool-cases,
  Option-cases,
}
use hcurl.Memory.{Block, Allocator, ◌>>=◌, grow_total, store_lem, load_lem}
use hcurl.SimpleString.{SimpleString, initial_capacity, create, reserve, fill}

-- The string owns the block `b`, whose first `len` bytes are the text, with a zero behind them.
pub record IsValid (s : SimpleString) (b : Block) : Type 0 where
  pub owns : s.ptr ≡ some b
  pub size : length b ≡ s.capacity
  pub room : s.len < s.capacity
  pub fits : s.capacity ≤ size_max
  pub bounded : s.len ≤ s.max_len
  pub limit : s.max_len ≤ size_max
  pub ended : take (suc s.len) b ≡ take s.len b ++ (0 ∷ [])

initial_capacity_bounds :
    (max_len : ℕ) → (0 < initial_capacity max_len) × (initial_capacity max_len ≤ 4096)
initial_capacity_bounds max_len = ground arith

-- `simple_string_create` never writes outside its block: it returns null, or an empty string.
pub create-IsValid :
    (alloc : Allocator) (struct_ok : Bool) (max_len : ℕ)
    → max_len ≤ size_max
    → (create alloc struct_ok max_len ≡ some none)
      ⊎ ((s : SimpleString) × (b : Block) × (create alloc struct_ok max_len ≡ some (some s))
          × IsValid s b
          × (s.len ≡ 0)
          × (s.max_len ≡ max_len))
unfolding create
create-IsValid alloc false max_len limit = inl refl
create-IsValid alloc true max_len limit =
    elim (Option-cases (alloc.malloc (initial_capacity max_len))) [
      | inl e ↦ inl (rw (create, e) refl)
      | inr (block, e) ↦
          let size = alloc.malloc_size (initial_capacity max_len) block e in
          let caps = initial_capacity_bounds max_len in
          let (b, run, st) = store_lem block 0 (0 ∷ []) (omega arith) in
          inr (
            record {
              ptr = some b;
              len = 0;
              capacity = initial_capacity max_len;
              max_len = max_len;
            },
            b,
            rw (create, e, run) refl,
            record {
              owns = refl;
              size = st.size ∙ size;
              room = caps.0;
              fits = omega arith;
              bounded = omega arith;
              limit = limit;
              ended = st.written 1 refl;
            },
            refl,
            refl,
          )
    ]

pub reserve_lem :
    (alloc : Allocator) (block : Block) (capacity required : ℕ)
    → length block ≡ capacity
    → 0 < capacity
    → capacity ≤ size_max
    → required ≤ size_max
    → ((c : ℕ) × (alloc.realloc block c ≡ none)
        × (reserve alloc block capacity required ≡ some none))
      ⊎ ((b : Block) × (c : ℕ) × (reserve alloc block capacity required ≡ some (some (b, c)))
          × (length b ≡ c)
          × (required ≤ c)
          × (c ≤ size_max)
          × ((k : ℕ) → k ≤ capacity → take k b ≡ take k block))
unfolding reserve
reserve_lem alloc block capacity required size pos fits small =
    let nonzero : (capacity == 0) ≡ false = ground arith in
    elim (Bool-cases (ltb capacity required)) [
      | inr e ↦ inr (block, capacity, rw e refl, size, ground arith, fits, λ k h. refl)
      | inl e ↦
          let (c, run, above, more, below) =
            grow_total (suc required) capacity required (omega arith) pos (omega arith) small
              fits in
          elim (Option-cases (alloc.realloc block c)) [
            | inl r ↦ inl (c, r, rw (e, nonzero, run, ◌>>=◌, r) refl)
            | inr (b, r) ↦ inr (
              b,
              c,
              rw (e, nonzero, run, ◌>>=◌, r) refl,
              alloc.realloc_size block c b r,
              above,
              below,
              λ k h. alloc.realloc_keeps block c k b r (omega arith) (omega arith),
            )
          ]
    ]

-- What an accepted call leaves: the bytes follow the text, and the string is valid again.
pub record Appended (s : SimpleString) (b : Block) (xs : List ℕ) (s' : SimpleString) : Type 0 where
  pub block : Block
  pub valid : IsValid s' block
  pub text : take s'.len block ≡ take s.len b ++ xs
  pub same_limit : s'.max_len ≡ s.max_len
  pub longer : s'.len ≡ s.len + length xs

pub fill_lem :
    (s : SimpleString) (b block : Block) (xs : List ℕ) (n capacity : ℕ)
    → IsValid s b
    → n ≤ length xs
    → s.len + n ≤ s.max_len
    → length block ≡ capacity
    → s.len + n < capacity
    → capacity ≤ size_max
    → take s.len block ≡ take s.len b
    → (s' : SimpleString) × (fill s xs n (s.len + n) block capacity ≡ some (n, s'))
      × Appended s b (take n xs) s'
unfolding fill
fill_lem s b block xs n capacity v enough limit size room fits kept =
    let short : length (take n xs) ≡ n = omega (arith, length-take n xs) in
    let (written, run, st) = store_lem block s.len (take n xs) (omega arith) in
    let (ended, run', st') = store_lem written (s.len + n) (0 ∷ []) (omega (arith, st.size)) in
    let text : take (s.len + n) ended ≡ take s.len b ++ take n xs =
      st'.before ∙ st.written (s.len + n) (omega arith) ∙ ap (λ t. t ++ take n xs) kept in
    (
      record { ptr = some ended; len = s.len + n; capacity = capacity; max_len = s.max_len },
      rw (load_lem n xs enough) (rw run (rw run' refl)),
      record {
        block = ended;
        valid = record {
          owns = refl;
          size = st'.size ∙ st.size ∙ size;
          room = room;
          fits = fits;
          bounded = limit;
          limit = v.limit;
          ended =
              st'.written (suc (s.len + n)) (omega arith)
              ∙ ap (λ t. t ++ (0 ∷ [])) (sym st'.before);
        };
        text = text;
        same_limit = refl;
        longer = omega arith;
      },
    )

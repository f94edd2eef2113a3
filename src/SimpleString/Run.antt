-- ===== src/SimpleString/Run.antt =====
-- cbits/simple_string.c: `simple_string_writefunc` on every branch, and a whole body written by
-- any number of calls.
use hcurl.Prelude.{
  ℕ, ◌+◌, ◌*◌, ◌≤◌, ◌<◌, ◌-◌, ◌≡◌, refl, sym, ◌⊎◌, inl, inr, List, [], ◌∷◌, ◌++◌, Option, none,
  some, arith, length, take, concat, ap, ◌∙◌, ltb, ◌==◌, size_max, add_size, mul_size,
  product_overflows, product_overflows_lem, Bool-cases,
}
use mathlib.Core.List.{append-nil, append_assoc}
use mathlib.Core.Path.{subst}
use hcurl.Memory.{Block, Allocator, ◌>>=◌}
use hcurl.SimpleString.{SimpleString, write, write_at, append_block, commit}
use hcurl.SimpleString.Bounds.{IsValid, reserve_lem, Appended, fill_lem}

-- Why a call of `n` bytes is refused.
pub data Refusal (alloc : Allocator) (s : SimpleString) (b : Block) (n : ℕ) : Type 0 where
  empty : n ≡ 0 → Refusal alloc s b n
  over_limit : s.max_len < s.len + n → Refusal alloc s b n
  over_size : size_max ≤ s.len + n → Refusal alloc s b n
  out_of_memory : (c : ℕ) → alloc.realloc b c ≡ none → Refusal alloc s b n

-- The call takes no byte and leaves the string alone, for a reason; or it takes all of them.
abbrev pub Written :
    Allocator → SimpleString → Block → List ℕ → ℕ → Option (ℕ × SimpleString) → Type 0
Written alloc s b xs n r =
    ((r ≡ some (0, s)) × Refusal alloc s b n)
    ⊎ ((s' : SimpleString) × (r ≡ some (n, s')) × Appended s b (take n xs) s')

commit_lem :
    (alloc : Allocator) (xs : List ℕ) (n required : ℕ) {s : SimpleString} {b : Block}
    → IsValid s b
    → n ≤ length xs
    → s.len + n ≤ s.max_len
    → required ≡ s.len + n + 1
    → required ≤ size_max
    → Written alloc s b xs n (commit alloc xs n s b (s.len + n) required)
unfolding commit
commit_lem alloc xs n required {s} {b} v enough limit e fits =
    elim (reserve_lem alloc b s.capacity required v.size (omega arith) v.fits fits) [
      | inl (c, failed, run) ↦ inl (rw run refl, out_of_memory c failed)
      | inr (block, c, run, size, room, below, kept) ↦
          let (s', filled, done) =
            fill_lem s b block xs n c v enough limit size (omega arith) below
              (kept s.len (omega arith)) in
          inr (s', rw run filled, done)
    ]

append_block_lem :
    (alloc : Allocator) (xs : List ℕ) (n : ℕ) {s : SimpleString} {b : Block}
    → IsValid s b
    → n ≤ size_max
    → n ≤ length xs
    → Written alloc s b xs n (append_block alloc xs n s b)
unfolding append_block
append_block_lem alloc xs n {s} {b} v fits enough = elim (Bool-cases (ltb (size_max - s.len) n)) [
  | inl e ↦ inl (rw e refl, over_size (ground arith))
  | inr e ↦
      let new_len : add_size s.len n ≡ s.len + n = ground arith in
      elim (Bool-cases (ltb s.max_len (s.len + n))) [
        | inl f ↦ inl (rw (e, new_len, f) refl, over_limit (ground arith))
        | inr f ↦ elim (Bool-cases ((s.len + n) == size_max)) [
          | inl g ↦ inl (rw (e, new_len, f, g) refl, over_size (ground arith))
          | inr g ↦
              let wrap : add_size (s.len + n) 1 ≡ s.len + n + 1 = ground arith in
              rw (e, new_len, f, g, wrap)
                (commit_lem alloc xs n (s.len + n + 1) v enough (ground arith) refl (ground arith))
        ]
      ]
]

-- A call with a pointer to enough bytes.
write_bytes-Written :
    (alloc : Allocator) (xs : List ℕ) (size nmemb : ℕ) {s : SimpleString} {b : Block}
    → IsValid s b
    → size * nmemb ≤ length xs
    → Written alloc s b xs (size * nmemb) (write alloc (some xs) size nmemb s)
unfolding write write_at
write_bytes-Written alloc xs size nmemb {s} {b} v enough =
    let keep = λ (p : Option Block).
      Written alloc s b xs (size * nmemb) (write_at alloc (some xs) size nmemb s p) in
    subst keep (sym v.owns) at_block
  where
    at_block : Written alloc s b xs (size * nmemb) (write_at alloc (some xs) size nmemb s (some b))
    at_block = elim (Bool-cases (product_overflows size nmemb)) [
      | inl e ↦ inl (rw e refl, over_size (ground (arith, product_overflows_lem size nmemb)))
      | inr e ↦
          let fits : size * nmemb ≤ size_max = ground (arith, product_overflows_lem size nmemb) in
          let exact : mul_size size nmemb ≡ size * nmemb = omega arith in
          elim (Bool-cases ((size * nmemb) == 0)) [
            | inl z ↦ inl (rw (e, exact, z) refl, empty (ground arith))
            | inr z ↦ rw (e, exact, z) (append_block_lem alloc xs (size * nmemb) v fits enough)
          ]
    ]

-- What libcurl hands over: a null pointer, or one to at least `n` bytes.
abbrev pub Announced : ℕ → Option (List ℕ) → Type 0
Announced n none = Unit
Announced n (some xs) = n ≤ length xs

-- The call has a null pointer and changes nothing; or it has a pointer, and is `Written`.
abbrev pub Answered :
    Allocator → SimpleString → Block → Option (List ℕ) → ℕ → Option (ℕ × SimpleString) → Type 0
Answered alloc s b none n r = r ≡ some (0, s)
Answered alloc s b (some xs) n r = Written alloc s b xs n r

write_null :
    (alloc : Allocator) (size nmemb : ℕ) (s : SimpleString) (p : Option Block)
    → write_at alloc none size nmemb s p ≡ some (0, s)
unfolding write_at
write_null alloc size nmemb s none = refl
write_null alloc size nmemb s (some b) = elim (Bool-cases (product_overflows size nmemb)) [
  | inl e ↦ rw e refl
  | inr e ↦ elim (Bool-cases (mul_size size nmemb == 0)) [
    | inl z ↦ rw (e, z) refl
    | inr z ↦ rw (e, z) refl
  ]
]

-- `simple_string_writefunc`, on every branch, at a valid string and a pointer that is null or leads to
-- as many bytes as are announced: it touches no byte outside its block; either it returns 0 and
-- changes nothing, because the pointer is null, the call is empty, passes the limit or `SIZE_MAX`, or
-- `realloc` failed, or it returns the number of bytes and appends exactly those.
pub write-Written :
    (alloc : Allocator) (bytes : Option (List ℕ)) (size nmemb : ℕ) {s : SimpleString} {b : Block}
    → IsValid s b
    → Announced (size * nmemb) bytes
    → Answered alloc s b bytes (size * nmemb) (write alloc bytes size nmemb s)
unfolding write
write-Written alloc none size nmemb {s} v told = write_null alloc size nmemb s s.ptr
write-Written alloc (some xs) size nmemb v told = write_bytes-Written alloc xs size nmemb v told

-- One call of libcurl: what its allocator does, the sizes, and the bytes that it points to.
pub record Call : Type 0 where
  pub alloc : Allocator
  pub size : ℕ
  pub nmemb : ℕ
  pub bytes : List ℕ

-- The calls of one transfer in order: the bytes that each reports as taken, and the string.
unfoldable pub run : List Call → SimpleString → Option (List (List ℕ) × SimpleString)
run [] s = some ([], s)
run (c ∷ cs) s = write c.alloc (some c.bytes) c.size c.nmemb s >>= λ r.
    run cs r.1 >>= λ q. some (take r.0 c.bytes ∷ q.0, q.1)

abbrev pub PointsToEnough : List Call → Type 0
PointsToEnough [] = Unit
PointsToEnough (c ∷ cs) = (c.size * c.nmemb ≤ length c.bytes) × PointsToEnough cs

-- What the calls leave: a valid string within the same limit, that holds its old text and then
-- the bytes that were taken, in order.
pub record Collected (cs : List Call) (s : SimpleString) (b : Block) : Type 0 where
  pub taken : List (List ℕ)
  pub last : SimpleString
  pub block : Block
  pub runs : run cs s ≡ some (taken, last)
  pub valid : IsValid last block
  pub text : take last.len block ≡ take s.len b ++ concat taken
  pub same_limit : last.max_len ≡ s.max_len

extend :
    (c : Call) (cs : List Call) {s s' : SimpleString} {b b' : Block} (n : ℕ)
    → write c.alloc (some c.bytes) c.size c.nmemb s ≡ some (n, s')
    → take s'.len b' ≡ take s.len b ++ take n c.bytes
    → s'.max_len ≡ s.max_len
    → Collected cs s' b'
    → Collected (c ∷ cs) s b
unfolding run
extend c cs {s} {b} n wrote text limit later = record {
  taken = take n c.bytes ∷ later.taken;
  last = later.last;
  block = later.block;
  runs = rw (wrote, ◌>>=◌, later.runs) refl;
  valid = later.valid;
  text =
      later.text
      ∙ ap (λ t. t ++ concat later.taken) text
      ∙ append_assoc (take s.len b) (take n c.bytes) (concat later.taken);
  same_limit = later.same_limit ∙ limit;
}

-- Any sequence of calls ends with a valid string, within its limit and its block, whose text is
-- the old text followed by exactly the bytes that the calls reported as taken.
pub run-Collected :
    (cs : List Call) {s : SimpleString} {b : Block}
    → IsValid s b
    → PointsToEnough cs
    → Collected cs s b
unfolding run
run-Collected [] {s} {b} v enough = record {
  taken = [];
  last = s;
  block = b;
  runs = refl;
  valid = v;
  text = sym (append-nil (take s.len b));
  same_limit = refl;
}
run-Collected (c ∷ cs) {s} {b} v enough =
    elim (write_bytes-Written c.alloc c.bytes c.size c.nmemb v enough.0) [
      | inl (wrote, why) ↦
          extend c cs 0 wrote (sym (append-nil (take s.len b))) refl (run-Collected cs v enough.1)
      | inr (s', wrote, done) ↦
          extend c cs (c.size * c.nmemb) wrote done.text done.same_limit
            (run-Collected cs done.valid enough.1)
    ]

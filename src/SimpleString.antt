-- ===== src/SimpleString.antt =====
-- cbits/simple_string.c: the growing buffer that collects a buffered response body.
pub mod Bounds
pub mod Run
mod Tests
use mathlib.Core.Option
use hcurl.Prelude.{
  ℕ, suc, ◌+◌, ◌*◌, ◌-◌, Bool, true, false, ◌&&◌, not, List, [], ◌∷◌, Option, none, some, ltb, ◌==◌,
  if◌then◌else◌, size_max, product_overflows, add_size, mul_size,
}
use hcurl.Memory.{Block, Allocator, ◌>>=◌, store, load, grow}

-- `simple_string_s`; `ptr` is `none` for a null pointer.
pub record SimpleString : Type 0 where
  pub ptr : Option Block
  pub len : ℕ
  pub capacity : ℕ
  pub max_len : ℕ

abbrev pub initial_capacity : ℕ → ℕ
initial_capacity max_len =
    let capacity : ℕ =
      if not (max_len == size_max) && ltb (add_size max_len 1) 4096
      then add_size max_len 1
      else 4096 in
    if capacity == 0 then 1 else capacity

-- `simple_string_create`, where `struct_ok` says that the `calloc` of the struct succeeded. The
-- inner option is the pointer that is returned.
pub create : Allocator → Bool → ℕ → Option (Option SimpleString)
create alloc false max_len = some none
create alloc true max_len =
    let capacity = initial_capacity max_len in
    elim (alloc.malloc capacity) [
      | none ↦ some none
      | some block ↦ store block 0 (0 ∷ []) >>= λ b.
          some (some (record { ptr = some b; len = 0; capacity = capacity; max_len = max_len }))
    ]

-- `simple_string_take` of a string and a place for the length: the pointer and the length that
-- the caller gets, and what is left.
pub take_buffer : SimpleString → Option Block × ℕ × SimpleString
take_buffer str = (str.ptr, str.len, record str { ptr = none; len = 0; capacity = 0 })

-- `simple_string_destroy`: the block that it frees, besides the struct.
unfoldable pub destroy : SimpleString → Option Block
destroy str = str.ptr

-- Room for `required` bytes: the block and its capacity, or `none` if `realloc` fails.
pub reserve : Allocator → Block → ℕ → ℕ → Option (Option (Block × ℕ))
reserve alloc block capacity required =
    if ltb capacity required
    then (grow (suc required) (if capacity == 0 then 4096 else capacity) required >>= λ c.
        some (Option.map (λ r. (r, c)) (alloc.realloc block c)))
    else some (some (block, capacity))

-- The copy of the bytes and of the final zero, and the new length.
pub fill : SimpleString → List ℕ → ℕ → ℕ → Block → ℕ → Option (ℕ × SimpleString)
fill str bytes appended new_len block capacity = do
  copied ← load appended bytes
  written ← store block str.len copied
  ended ← store written new_len (0 ∷ [])
  some (
    appended,
    record { ptr = some ended; len = new_len; capacity = capacity; max_len = str.max_len },
  )

-- A call that passed the tests: `required` bytes are made sure of, then filled.
pub commit : Allocator → List ℕ → ℕ → SimpleString → Block → ℕ → ℕ → Option (ℕ × SimpleString)
commit alloc bytes appended str block new_len required =
    reserve alloc block str.capacity required
    >>= elim [ none ↦ some (0, str) | some (b, c) ↦ fill str bytes appended new_len b c ]

-- The end of `simple_string_writefunc`: `appended` bytes, at least one, of those at `ptr`.
pub append_block : Allocator → List ℕ → ℕ → SimpleString → Block → Option (ℕ × SimpleString)
append_block alloc bytes appended str block =
    let refused : Option (ℕ × SimpleString) = some (0, str) in
    if ltb (size_max - str.len) appended
    then refused
    else let new_len = add_size str.len appended in
      if ltb str.max_len new_len
      then refused
      else if new_len == size_max
      then refused
      else commit alloc bytes appended str block new_len (add_size new_len 1)

-- The tests before it; the option is the pointer `str->ptr`.
pub write_at :
    Allocator → Option (List ℕ) → ℕ → ℕ → SimpleString → Option Block → Option (ℕ × SimpleString)
write_at alloc bytes size nmemb str none = some (0, str)
write_at alloc bytes size nmemb str (some block) =
    if product_overflows size nmemb
    then some (0, str)
    else let appended = mul_size size nmemb in
      if appended == 0
      then some (0, str)
      else elim bytes [ none ↦ some (0, str) | some xs ↦ append_block alloc xs appended str block ]

-- `simple_string_writefunc` at a string: what it returns, and the string afterwards. The option
-- is what the callback's `ptr` points to.
pub write : Allocator → Option (List ℕ) → ℕ → ℕ → SimpleString → Option (ℕ × SimpleString)
write alloc bytes size nmemb str = write_at alloc bytes size nmemb str str.ptr

-- `simple_string_writefunc`, whose `userdata` may be null.
pub writefunc :
    Allocator → Option (List ℕ) → ℕ → ℕ → Option SimpleString → Option (ℕ × Option SimpleString)
writefunc alloc bytes size nmemb none = some (0, none)
writefunc alloc bytes size nmemb (some str) =
    Option.map (λ r. (r.0, some r.1)) (write alloc bytes size nmemb str)

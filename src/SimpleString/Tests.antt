-- ===== src/SimpleString/Tests.antt =====
-- Runs of the buffer, and the theorems at concrete calls.
use hcurl.Prelude.{ℕ, ◌≤◌, size_max, ◌≡◌, refl, ◌^◌, List, [], ◌∷◌, none, some, arith}
use hcurl.Memory.{Block, store, load, grow, grow_total}
use hcurl.Memory.Examples.{granting, refusing}
use hcurl.SimpleString.{
  SimpleString, create, write, write_at, append_block, commit, reserve, fill, writefunc,
  take_buffer, destroy,
}
use hcurl.SimpleString.Bounds.{IsValid}
use hcurl.SimpleString.Run.{Answered, write-Written, Call, run, Collected, run-Collected}

-- A limit of 5 bytes: a block of 6.
abbrev small : SimpleString
small = record { ptr = some (7 ∷ 0 ∷ 0 ∷ []); len = 1; capacity = 3; max_len = 5 }

abbrev small_block : Block
small_block = 7 ∷ 0 ∷ 0 ∷ []

small-IsValid : IsValid small small_block
small-IsValid = record {
  owns = refl;
  size = refl;
  room = omega arith;
  fits = omega arith;
  bounded = omega arith;
  limit = omega arith;
  ended = refl;
}

-- What a test computes with.
program : Unit {0}
unfolding create write write_at append_block commit reserve fill writefunc take_buffer store load
    grow
program = tt

-- Four more bytes need a block of 6; the fifth would pass the limit.
write_grows :
    write granting (some (1 ∷ 2 ∷ 3 ∷ 4 ∷ [])) 2 2 small
    ≡ some
        (4, record { ptr = some (7 ∷ 1 ∷ 2 ∷ 3 ∷ 4 ∷ 0 ∷ []); len = 5; capacity = 6; max_len = 5 })
unfolding program
write_grows = refl

write_over_limit : write granting (some (1 ∷ 2 ∷ 3 ∷ 4 ∷ 5 ∷ [])) 1 5 small ≡ some (0, small)
unfolding program
write_over_limit = refl

write_product_overflow : write granting (some []) 2 (2 ^ 63) small ≡ some (0, small)
unfolding program
write_product_overflow = refl

write_after_take :
    write granting (some (1 ∷ [])) 1 1 (take_buffer small).2 ≡ some (0, (take_buffer small).2)
unfolding program
write_after_take = refl

-- The block belongs to the one who took it.
destroy_after_take : destroy (take_buffer small).2 ≡ none
unfolding program destroy
destroy_after_take = refl

writefunc_null : writefunc granting (some (1 ∷ [])) 1 1 none ≡ some (0, none)
unfolding program
writefunc_null = refl

abbrev calls : List Call
calls =
    record { alloc = granting; size = 1; nmemb = 3; bytes = 1 ∷ 2 ∷ 3 ∷ [] }
    ∷ record { alloc = refusing; size = 1; nmemb = 1; bytes = 9 ∷ [] }
    ∷ record { alloc = granting; size = 1; nmemb = 1; bytes = 4 ∷ [] }
    ∷ record { alloc = granting; size = 1; nmemb = 1; bytes = 5 ∷ [] }
    ∷ []

-- The second call needs no new memory; the other two would pass the limit.
run_takes :
    run calls small
    ≡ some (
      (1 ∷ 2 ∷ 3 ∷ []) ∷ (9 ∷ []) ∷ [] ∷ [] ∷ [],
      record { ptr = some (7 ∷ 1 ∷ 2 ∷ 3 ∷ 9 ∷ 0 ∷ []); len = 5; capacity = 6; max_len = 5 },
    )
unfolding program run
run_takes = refl

write-Written_example :
    Answered granting small small_block
      (some (1 ∷ 2 ∷ 3 ∷ 4 ∷ []))
      4
      (write granting (some (1 ∷ 2 ∷ 3 ∷ 4 ∷ [])) 2 2 small)
write-Written_example =
    write-Written granting (some (1 ∷ 2 ∷ 3 ∷ 4 ∷ [])) 2 2 small-IsValid (omega arith)

run-Collected_example : Collected calls small small_block
run-Collected_example = run-Collected calls small-IsValid (omega arith)

-- From 3 bytes to 9, within 7 rounds.
grow_total_example : (c : ℕ) × (grow 7 3 9 ≡ some c) × (9 ≤ c) × (3 ≤ c) × (c ≤ size_max)
grow_total_example =
    grow_total 7 3 9 (omega arith) (omega arith) (omega arith) (omega arith) (omega arith)

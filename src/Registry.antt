-- ===== src/Registry.antt =====
-- cbits/message_chan.c: the agent's registry of transfers, a hash table with chained buckets. A
-- chain is a list, which stands for the `next` pointers; a `registry` that is null is not modelled.
pub mod Mask
pub mod Chains
pub mod Buckets
pub mod Moves
pub mod Resizing
pub mod Map
pub mod Client
mod Tests
use mathlib.Core.Option
use Prim.Native.Nat.{bit_xor, bit_and}
use hcurl.Prelude.{
  ℕ, zero, suc, ◌+◌, ◌-◌, ◌/◌, ◌%◌, ◌^◌, Bool, true, false, ◌&&◌, ◌||◌, not, List, [], ◌∷◌, Option,
  none, some, ltb, leb, ◌==◌, if◌then◌else◌, size_max, add_size, mul_size, length, get_or, set,
  replicate, is_none,
}

-- `transfer_s`; `address` is where it lies, and the other pointers are numbers, 0 for null.
pub record Transfer : Type 0 where
  pub address : ℕ
  pub id : ℕ
  pub easy : ℕ
  pub result : ℕ
  pub metrics : ℕ
  pub download_stream : ℕ
  pub upload_stream : ℕ
  pub active : Bool

-- `transfer_registry_s`; there are no buckets where `buckets` is null.
pub record Registry : Type 0 where
  pub buckets : List (List Transfer)
  pub bucket_count : ℕ
  pub count : ℕ

-- `hash_transfer_id`
unfoldable pub hash_transfer_id : ℕ → ℕ
hash_transfer_id id =
    let a = bit_xor id (id / 2 ^ 30) in
    let b = mul_size a 0xbf58476d1ce4e5b9 in
    let c = bit_xor b (b / 2 ^ 27) in
    let d = mul_size c 0x94d049bb133111eb in bit_xor d (d / 2 ^ 31)

-- `hash_transfer_id(id) & (bucket_count - 1)`; the count is not 0 where this runs.
unfoldable pub home : ℕ → ℕ → ℕ
unfolding hash_transfer_id
home id bucket_count = bit_and (hash_transfer_id id) (bucket_count - 1)

abbrev pub initial_bucket_count : ℕ
initial_bucket_count = 64

-- `registry_destroy`, and what `registry_init` leaves without memory.
abbrev pub destroyed : Registry
destroyed = record { buckets = []; bucket_count = 0; count = 0 }

-- `registry_init`; the Boolean is what `calloc` answers.
unfoldable pub init : Bool → Bool × Registry
init calloc_ok =
    if calloc_ok
    then (
      true,
      record {
        buckets = replicate initial_bucket_count [];
        bucket_count = initial_bucket_count;
        count = 0;
      },
    )
    else (false, destroyed)

-- The loop over a chain, in `registry_find`.
unfoldable pub find_chain : ℕ → List Transfer → Option Transfer
find_chain id [] = none
find_chain id (t ∷ chain) = if t.id == id then some t else find_chain id chain

-- `!registry->buckets || registry->bucket_count == 0`
abbrev pub is_null : Registry → Bool
is_null r = length r.buckets == 0 || r.bucket_count == 0

abbrev pub bucket : Registry → ℕ → List Transfer
bucket r id = get_or r.buckets (home id r.bucket_count) []

-- `registry_find`
unfoldable pub find : Registry → ℕ → Option Transfer
unfolding find_chain home
find r id = if is_null r then none else find_chain id (bucket r id)

-- The inner loop of `registry_resize`: a chain is moved, each transfer to the front of its new one.
unfoldable pub move_chain : ℕ → List Transfer → List (List Transfer) → List (List Transfer)
unfolding home
move_chain new_count [] fresh = fresh
move_chain new_count (t ∷ chain) fresh =
    let i = home t.id new_count in move_chain new_count chain (set fresh i (t ∷ get_or fresh i []))

-- The outer loop.
unfoldable pub move_all : ℕ → List (List Transfer) → List (List Transfer) → List (List Transfer)
unfolding move_chain
move_all new_count [] fresh = fresh
move_all new_count (chain ∷ chains) fresh =
    move_all new_count chains (move_chain new_count chain fresh)

-- `registry_resize`; the Boolean is what `calloc` answers.
unfoldable pub resize : Bool → Registry → Registry
unfolding move_all
resize calloc_ok r =
    if ltb (size_max / 2) r.bucket_count
    then r
    else let new_count = mul_size r.bucket_count 2 in
      if not calloc_ok then r else record r {
        buckets = move_all new_count r.buckets (replicate new_count []);
        bucket_count = new_count;
      }

-- The end of `registry_insert`: the transfer goes to the front of its chain.
unfoldable pub link : Registry → Transfer → Registry
unfolding home
link r t = record r {
  buckets = set r.buckets (home t.id r.bucket_count) (t ∷ bucket r t.id);
  count = add_size r.count 1;
}

-- The resizing in `registry_insert`.
unfoldable pub make_room : Bool → Registry → Registry
unfolding resize
make_room calloc_ok r =
    if leb r.bucket_count (size_max / 2) && leb (mul_size r.bucket_count 2) r.count
    then resize calloc_ok r
    else r

-- `registry_insert` of a transfer that is not null.
unfoldable pub insert : Bool → Registry → Transfer → Bool × Registry
unfolding find link make_room
insert calloc_ok r t =
    if length r.buckets == 0 || not (is_none (find r t.id))
    then (false, r)
    else (true, link (make_room calloc_ok r) t)

-- The loop of `registry_remove`: what is taken out of the chain, and the rest.
unfoldable pub take_out : ℕ → List Transfer → Option (Transfer × List Transfer)
take_out id [] = none
take_out id (t ∷ chain) =
    if t.id == id then some (t, chain) else Option.map (λ r. (r.0, t ∷ r.1)) (take_out id chain)

-- The end of `registry_remove`; the count is not 0 where this runs.
unfoldable pub unlink :
    Registry → ℕ → Option (Transfer × List Transfer) → Option Transfer × Registry
unlink r i none = (none, r)
unlink r i (some (t, rest)) =
    (some t, record r { buckets = set r.buckets i rest; count = r.count - 1 })

-- `registry_remove`
unfoldable pub remove : Registry → ℕ → Option Transfer × Registry
unfolding take_out unlink home
remove r id =
    if is_null r then (none, r) else unlink r (home id r.bucket_count) (take_out id (bucket r id))

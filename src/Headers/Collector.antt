-- ===== src/Headers/Collector.antt =====
-- cbits/headers.c: the state of the collector of header blocks and its operations. The section
-- under the mutex of each function is one step. A null `headers`, at which every function returns
-- at once, is the `none` of `header_callback`; the other models take the structure itself.
pub mod Invariant
pub mod Fields
pub mod Blocks
pub mod Waiters
pub mod Create
mod Tests
use mathlib.Core.Option
use hcurl.Prelude.{
  ℕ, ◌+◌, Bool, true, false, ◌&&◌, ◌||◌, not, List, [], ◌∷◌, Option, none, some, ltb, leb, ◌==◌,
  if◌then◌else◌, mul_size, add_size, product_overflows,
}
use hcurl.Memory.{Block, Allocator, ◌>>=◌, store, load}
use hcurl.Waker.{Slot, Put, empty_slot, registered, wake_detached}
use hcurl.Headers.Lines.{is_status_line, is_blank_line, parse_status}
use hcurl.Headers.Search.{contains}
use hcurl.Headers.Buffer
use hcurl.Headers.Buffer.{Buffer}

-- `header_data_s`. A `CURLcode` is its number.
pub record HeaderData : Type 0 where
  pub current : Buffer
  pub completed : Buffer
  pub current_status : ℕ
  pub completed_status : ℕ
  pub in_block : Bool
  pub ready : Bool
  pub response_available : Bool
  pub transfer_completed : Bool
  pub terminal_code : ℕ
  pub waiter : Slot

-- A fresh buffer: `malloc(capacity)` and the zero in its first byte.
pub fresh : Block → ℕ → Option Buffer
fresh block capacity =
    store block 0 (0 ∷ []) >>= λ b. some (record { block = b; size = 0; capacity = capacity })

abbrev pub initial : Buffer → Buffer → HeaderData
initial current completed = record {
  current = current;
  completed = completed;
  current_status = 0;
  completed_status = 0;
  in_block = false;
  ready = false;
  response_available = false;
  transfer_completed = false;
  terminal_code = 0;
  waiter = empty_slot;
}

abbrev pub first_capacity : ℕ → ℕ
first_capacity initial_capacity = if ltb 0 initial_capacity then initial_capacity else 1

-- `header_data_create`, where `setup_ok` says that the `calloc` of the structure and the
-- initialisation of its mutex succeeded. The two buffers come from two calls of the allocators.
pub create : Allocator → Allocator → Bool → ℕ → Option (Option HeaderData)
create first second setup_ok initial_capacity =
    let capacity = first_capacity initial_capacity in
    elim (first.malloc capacity) [
      | none ↦ some none
      | some a ↦ elim (second.malloc capacity) [
        | none ↦ some none
        | some b ↦
            if setup_ok
            then (fresh a capacity >>= λ current.
                fresh b capacity >>= λ completed. some (some (initial current completed)))
            else some none
      ]
    ]

-- The block that ends each waking function: a waiter that is present is taken out and woken.
unfoldable pub notify : HeaderData → List Put × HeaderData
unfolding wake_detached
notify h =
    if h.waiter.present
    then (
      wake_detached (some h.waiter.waker),
      record h { waiter = record { present = false; waker = h.waiter.waker } },
    )
    else ([], h)

-- "connection established"
abbrev pub connection_established : List ℕ
connection_established =
    b'c' ∷ b'o' ∷ b'n' ∷ b'n' ∷ b'e' ∷ b'c' ∷ b't' ∷ b'i' ∷ b'o' ∷ b'n' ∷ b' ' ∷ b'e' ∷ b's' ∷ b't'
    ∷ b'a' ∷ b'b' ∷ b'l' ∷ b'i' ∷ b's' ∷ b'h' ∷ b'e' ∷ b'd' ∷ []

-- `publish_early`
unfoldable pub publish_early : ℕ → List ℕ → Bool
publish_early status block =
    let proxy_connect = status == 200 && contains block connection_established in
    (status == 101 || leb 200 status)
    && not (leb 300 status && ltb status 400)
    && not (status == 401)
    && not (status == 407)
    && not proxy_connect

-- The blank line of a block, once the old completed buffer is emptied: the current block becomes
-- the completed one, and is published unless a later block is to replace it.
unfoldable pub publish : HeaderData → Buffer → List Put × HeaderData
unfolding notify
publish h emptied =
    let swapped : HeaderData = record h {
      current = emptied;
      completed = h.current;
      completed_status = h.current_status;
      in_block = false;
    } in
    if publish_early h.current_status (Buffer.text h.current)
    then notify (record swapped { ready = true; response_available = true })
    else ([], swapped)

pub finish_block : HeaderData → Option (List Put × HeaderData)
finish_block h = Buffer.clear h.completed >>= λ emptied. some (publish h emptied)

-- A status line starts a block anew.
pub start_block : List ℕ → HeaderData → Option HeaderData
start_block line h =
    if is_status_line line
    then (Buffer.clear h.current >>= λ emptied.
        some (record h { current = emptied; current_status = parse_status line; in_block = true }))
    else some h

-- A line inside a block; the blank line ends the block.
pub block_line : Allocator → List ℕ → ℕ → HeaderData → Option (ℕ × List Put × HeaderData)
block_line alloc line total h = Buffer.append alloc h.current line >>= elim [
  | none ↦ some (0, [], h)
  | some extended ↦
      let h' : HeaderData = record h { current = extended } in
      if is_blank_line line
      then (finish_block h' >>= λ r. some (total, r.0, r.1))
      else some (total, [], h')
]

-- A line outside a block: a trailer, if a block was completed.
pub trailer_line : Allocator → List ℕ → ℕ → HeaderData → Option (ℕ × List Put × HeaderData)
trailer_line alloc line total h =
    if ltb 0 h.completed.size
    then (Buffer.append alloc h.completed line >>= elim [
      | none ↦ some (0, [], h)
      | some extended ↦ some (total, [], record h { completed = extended })
    ])
    else some (total, [], h)

-- The rest of the section under the mutex: what the callback returns, the wake-up, the state.
unfoldable pub accept_line :
    Allocator → List ℕ → ℕ → HeaderData → Option (ℕ × List Put × HeaderData)
accept_line alloc line total h =
    if h.in_block then block_line alloc line total h else trailer_line alloc line total h

-- `header_callback` at a collector; `bytes` is what `buffer` points to.
pub callback : Allocator → List ℕ → ℕ → ℕ → HeaderData → Option (ℕ × List Put × HeaderData)
callback alloc bytes size nitems h =
    if product_overflows size nitems
    then some (0, [], h)
    else let total = mul_size size nitems in
      if total == 0
      then some (0, [], h)
      else (load total bytes >>= λ line.
          start_block line h >>= λ started. accept_line alloc line total started)

-- `header_callback`
pub header_callback :
    Allocator → List ℕ → ℕ → ℕ → Option HeaderData → Option (ℕ × List Put × Option HeaderData)
header_callback alloc bytes size nitems none = some (0, [], none)
header_callback alloc bytes size nitems (some h) =
    Option.map (λ r. (r.0, r.1, some r.2)) (callback alloc bytes size nitems h)

-- What `header_data_snapshot` writes through its pointers.
pub record Snapshot : Type 0 where
  pub buffer : Block
  pub length : ℕ
  pub status_code : ℕ
  pub terminal_before_response : Bool
  pub terminal_code : ℕ

-- The copy of the completed block into a fresh one, with a zero behind it.
pub copy_text : Block → Buffer → Option Block
copy_text block completed = do
  copied ← load completed.size completed.block
  filled ← store block 0 copied
  store filled completed.size (0 ∷ [])

-- `header_data_snapshot`; the inner `none` is its `false`.
pub snapshot : Allocator → HeaderData → Option (Option Snapshot)
snapshot alloc h = elim (alloc.malloc (add_size h.completed.size 1)) [
  | none ↦ some none
  | some block ↦ copy_text block h.completed >>= λ copy. some (
      some (record {
        buffer = copy;
        length = h.completed.size;
        status_code = h.completed_status;
        terminal_before_response = h.transfer_completed && not h.response_available;
        terminal_code = h.terminal_code;
      }))
]

-- `enum header_wait_result`
pub data WaitResult : Type 0 where
  registered_wait ready_wait invalid_wait : WaitResult

-- `header_data_wait`
pub wait : ℕ → ℕ → HeaderData → WaitResult × HeaderData
wait mvar capability h =
    if mvar == 0
    then (invalid_wait, h)
    else if h.ready
    then (ready_wait, h)
    else if h.waiter.present
    then (invalid_wait, h)
    else (registered_wait, record h { waiter = registered mvar capability })

-- `header_data_cancel_wait`
pub cancel_wait : ℕ → HeaderData → Bool × HeaderData
cancel_wait mvar h =
    if not (mvar == 0) && (h.waiter.present && h.waiter.waker.mvar == mvar)
    then (
      true,
      record h { waiter = record { present = false; waker = record h.waiter.waker { mvar = 0 } } },
    )
    else (false, h)

-- `mark_ready`
unfoldable pub mark_ready : Bool → HeaderData → List Put × HeaderData
unfolding notify
mark_ready available h =
    let seen : HeaderData =
      if available && not (h.completed_status == 0)
      then record h { response_available = true }
      else h in
    notify (record seen { ready = true })

-- `header_data_mark_body_started`
unfoldable pub mark_body_started : HeaderData → List Put × HeaderData
unfolding mark_ready
mark_body_started h = mark_ready true h

-- `header_data_mark_complete`
unfoldable pub mark_complete : ℕ → HeaderData → List Put × HeaderData
unfolding notify
mark_complete code h =
    notify (record h { transfer_completed = true; terminal_code = code; ready = true })

-- `free_header_data`: the wake-up of a waiter that is still there.
unfoldable pub free_header_data : HeaderData → List Put
unfolding notify
free_header_data h = (notify h).0

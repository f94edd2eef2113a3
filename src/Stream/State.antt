-- ===== src/Stream/State.antt =====
-- cbits/stream.c and cbits/stream.h: the state of a stream, the structures that it points to, and
-- the helpers that run under its mutex. A null `stream`, at which every function returns at once,
-- is not modelled.
use hcurl.Prelude.{
  ℕ, zero, suc, ◌-◌, ◌/◌, ◌%◌, Bool, true, false, ◌||◌, not, List, [], Option, none, some, ltb,
  ◌==◌, if◌then◌else◌, size_max, add_size, get_or, set, replicate,
}
use hcurl.Waker.{Waker, Slot, Put, empty_slot, wake_detached}
use hcurl.Metrics.{Metrics}
use hcurl.Sender
use hcurl.Sender.{Sender}
use hcurl.Headers.Collector.{HeaderData}

-- `hcurl_chunk_t`; `bytes` is `none` for a null `data`.
pub record Chunk : Type 0 where
  pub bytes : Option (List ℕ)
  pub length : ℕ
  pub offset : ℕ

abbrev pub null_chunk : Chunk
null_chunk = record { bytes = none; length = 0; offset = 0 }

-- The bytes behind `data`.
abbrev pub bytes_of : Option (List ℕ) → List ℕ
bytes_of none = []
bytes_of (some xs) = xs

-- `enum hcurl_stream_kind`
pub data Kind : Type 0 where
  download upload : Kind

abbrev pub is_download : Kind → Bool
is_download download = true
is_download upload = false

-- `hcurl_stream_s` without its pointers to other structures; `attached` says that `easy` is not
-- null. A `CURLcode` is its number.
pub record Stream : Type 0 where
  pub kind : Kind
  pub chunks : List Chunk
  pub capacity : ℕ
  pub head : ℕ
  pub tail : ℕ
  pub count : ℕ
  pub finished : Bool
  pub closed : Bool
  pub paused : Bool
  pub terminal_set : Bool
  pub cancel_sent : Bool
  pub terminal_code : ℕ
  pub read_waiter : Slot
  pub write_waiter : Slot
  pub transfer_id : ℕ
  pub attached : Bool

-- The stream and what its pointers `headers`, `metrics` and `sender` lead to.
pub record World : Type 0 where
  pub stream : Stream
  pub headers : Option HeaderData
  pub metrics : Option Metrics
  pub sender : Sender

-- What the code outside answers during one call: `malloc` for a chunk, `calloc` for a message,
-- `mpscq_enqueue`, and whether `curl_easy_pause` returns `CURLE_OK`.
pub record Answers : Type 0 where
  pub malloc_ok : Bool
  pub calloc_ok : Bool
  pub queue_ok : Bool
  pub pause_ok : Bool

-- `CURLE_OK`, and `CURLE_ABORTED_BY_CALLBACK` of libcurl's numbering.
abbrev pub curle_ok : ℕ
curle_ok = 0

abbrev pub aborted_by_callback : ℕ
aborted_by_callback = 42

-- `sizeof(hcurl_chunk_t)`
abbrev pub chunk_size : ℕ
chunk_size = 24

-- `hcurl_stream_create`; the Boolean says that the allocations and the mutex were granted. The
-- sender is not null.
unfoldable pub create : Bool → Kind → ℕ → Sender → ℕ → Option Stream × Sender
unfolding Sender.retain Sender.release
create setup_ok kind capacity sender transfer_id =
    if capacity == 0 || ltb (size_max / chunk_size) capacity || transfer_id == 0
    then (none, sender)
    else let (kept, held) = Sender.retain sender in
      if not kept
      then (none, sender)
      else if not setup_ok
      then (none, (Sender.release held).1)
      else (
        some (record {
          kind = kind;
          chunks = replicate capacity null_chunk;
          capacity = capacity;
          head = 0;
          tail = 0;
          count = 0;
          finished = false;
          closed = false;
          paused = false;
          terminal_set = false;
          cancel_sent = false;
          terminal_code = curle_ok;
          read_waiter = empty_slot;
          write_waiter = empty_slot;
          transfer_id = transfer_id;
          attached = false;
        }),
        held,
      )

-- `detach_waiter_locked`: the copy that was detached, and what is stored.
unfoldable pub detach_waiter : Slot → Option Waker × Slot
detach_waiter slot =
    if slot.present
    then (some slot.waker, record { present = false; waker = record slot.waker { mvar = 0 } })
    else (none, slot)

-- The wake-ups of a waiter that is detached now.
unfoldable pub wake : Slot → List Put
unfolding detach_waiter wake_detached
wake slot = wake_detached (detach_waiter slot).0

unfoldable pub detached : Slot → Slot
unfolding detach_waiter
detached slot = (detach_waiter slot).1

-- The loop of `drop_chunks_locked`, on `count`: the chunks and the head that it leaves.
unfoldable pub drop_loop : ℕ → ℕ → List Chunk → ℕ → List Chunk × ℕ
drop_loop zero capacity chunks head = (chunks, head)
drop_loop (suc count) capacity chunks head =
    drop_loop count capacity (set chunks head null_chunk) (add_size head 1 % capacity)

-- `drop_chunks_locked`
unfoldable pub drop_chunks : Stream → Stream
unfolding drop_loop
drop_chunks s =
    let (chunks, head) = drop_loop s.count s.capacity s.chunks s.head in
    record s { chunks = chunks; head = head; tail = head; count = 0 }

-- The lines by which both producers put a copied chunk at the tail.
unfoldable pub push_chunk : List ℕ → ℕ → Stream → Stream
push_chunk bytes length s = record s {
  chunks = set s.chunks s.tail (record { bytes = some bytes; length = length; offset = 0 });
  tail = add_size s.tail 1 % s.capacity;
  count = add_size s.count 1;
}

-- The chunk at the head.
abbrev pub head_chunk : Stream → Chunk
head_chunk s = get_or s.chunks s.head null_chunk

-- The lines by which both consumers give up the chunk at the head; they run where `count` is not 0.
unfoldable pub pop_chunk : Stream → Stream
pop_chunk s = record s {
  chunks = set s.chunks s.head null_chunk;
  head = add_size s.head 1 % s.capacity;
  count = s.count - 1;
}

-- `uv_mutex_lock(&stream->mutex)` and a change of the stream.
abbrev pub with_stream : World → Stream → World
with_stream w s = record w { stream = s }

-- ===== src/Sender.antt =====
-- cbits/message_chan.c: the sender of control messages, with its reference count and the state
-- word that counts the producers inside and marks the closed sender. Each function is one thread's
-- run with no other in between; `Sender.Protocol` has the interleavings.
pub mod Outcomes
pub mod Interleaving
pub mod Protocol
pub mod Closing
pub mod References
pub mod Counting
mod Tests
use hcurl.Prelude.{
  ℕ, ◌+◌, ◌-◌, ◌/◌, ◌%◌, ◌^◌, Bool, true, false, ◌&&◌, ◌||◌, not, List, [], ◌∷◌, ◌++◌, Option, none,
  some, ◌==◌, if◌then◌else◌, size_max, add_size,
}

-- `outer_message_execute_payload_t`; a pointer is a number, and 0 is null.
pub record Payload : Type 0 where
  pub transfer_id : ℕ
  pub easy : ℕ
  pub result : ℕ
  pub metrics : ℕ
  pub download_stream : ℕ
  pub upload_stream : ℕ

-- `outer_message_t`
pub data Message : Type 0 where
  execute : Payload → Message
  cancel_request : ℕ → Message
  resume_request : ℕ → Message
  stop_agent : Message

-- `message_sender_s`. The queue, `mpscq`, is third-party code: here are the messages that it
-- accepted, in the order of their acceptance, and the number of calls of `uv_async_send`. `attached`
-- says that `async_handle` is not null.
pub record Sender : Type 0 where
  pub references : ℕ
  pub state : ℕ
  pub queue : List Message
  pub signals : ℕ
  pub attached : Bool

-- `(state & SENDER_CLOSED_BIT) != 0`
abbrev pub is_closed : ℕ → Bool
is_closed state = state / 2 ^ 63 % 2 == 1

-- `state & SENDER_PRODUCER_MASK`
abbrev pub producers : ℕ → ℕ
producers state = state % 2 ^ 63

-- `message_sender_create`, where its allocations succeed.
abbrev pub create : Sender
create = record { references = 1; state = 0; queue = []; signals = 0; attached = false }

-- `message_sender_retain`
unfoldable pub retain : Sender → Bool × Sender
retain s =
    if s.references == 0 || s.references == size_max
    then (false, s)
    else (true, record s { references = add_size s.references 1 })

-- `message_sender_release`, and whether it frees the sender.
unfoldable pub release : Sender → Bool × Sender
release s = (s.references == 1, record s { references = (s.references + (2 ^ 64 - 1)) % 2 ^ 64 })

-- `message_sender_enter`: the new state word, unless the sender is closed or full.
unfoldable pub enter : ℕ → Option ℕ
enter state =
    if is_closed state || producers state == 2 ^ 63 - 1 then none else some (add_size state 1)

-- `message_sender_leave`: the new state word, and whether the closing thread is signalled.
unfoldable pub leave : ℕ → Bool × ℕ
leave state = (is_closed state && producers state == 1, (state + (2 ^ 64 - 1)) % 2 ^ 64)

-- `atomic_fetch_or_explicit(&sender->state, SENDER_CLOSED_BIT, ...)`
unfoldable pub mark_closed : ℕ → ℕ
mark_closed state = if is_closed state then state else add_size state (2 ^ 63)

-- `enum enqueue_message_result`
pub data EnqueueResult : Type 0 where
  enqueued full out_of_memory closed : EnqueueResult

-- `enqueue_outer_message` on a sender that is not null: what `calloc` and `mpscq_enqueue` answer
-- are its first two arguments.
unfoldable pub enqueue_outer_message : Bool → Bool → Message → Sender → EnqueueResult × Sender
unfolding enter leave
enqueue_outer_message calloc_ok queue_ok message s =
    if is_closed s.state
    then (closed, s)
    else if not calloc_ok
    then (out_of_memory, s)
    else elim (enter s.state) [
      | none ↦ (closed, s)
      | some entered ↦
          if queue_ok
          then (
            enqueued,
            record s {
              state = (leave entered).1;
              queue = s.queue ++ (message ∷ []);
              signals = s.signals + 1;
            },
          )
          else (full, record s { state = (leave entered).1 })
    ]

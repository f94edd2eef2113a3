-- ===== src/Agent.antt =====
-- cbits/message_chan.c: the agent's loop over control messages, and how a transfer begins and ends.
-- The code is that for libcurl 7.32.0 and later: what older versions need is compiled out.

pub mod Loop
pub mod Heap
pub mod Table
pub mod Marks
pub mod Ledger
pub mod Chunks
pub mod Invariant
pub mod Completion
pub mod Execution
pub mod Requests
pub mod Draining
pub mod Shutdown
pub mod Dispatch
pub mod Steps
pub mod Settling
pub mod Results
pub mod Answering
mod Tests
use hcurl.Prelude.{
  ℕ, ◌+◌, ◌^◌, Bool, true, false, ◌&&◌, ◌||◌, not, List, [], ◌∷◌, ◌++◌, Option, none, some, ◌==◌,
  if◌then◌else◌, concat,
}
use hcurl.Sender.{
  Sender, Payload, Message, execute, cancel_request, resume_request, stop_agent, mark_closed,
}
use hcurl.Stream.State.{Stream, aborted_by_callback, curle_ok}
use hcurl.Stream.Control.{normalize_completion}
use hcurl.Easy.{failed_init}
use hcurl.Registry.{Transfer, Registry, destroyed, insert, find, remove}

-- The calls that the agent makes, of libcurl, libuv, `free`, and of the other parts; each of the
-- latter does nothing at null.
pub data Effect : Type 0 where
  remove_handle : (easy : ℕ) → Effect
  finish_metrics : (metrics easy : ℕ) → Effect
  set_result : (result easy code : ℕ) → Effect
  complete_stream : (stream code : ℕ) → Effect
  cleanup : (easy : ℕ) → Effect
  wake_result : (result : ℕ) → Effect
  free_transfer : (address : ℕ) → Effect
  stop_loop : Effect

-- A `CURLMsg`: whether it is `CURLMSG_DONE`, the handle and the code; and whether
-- `curl_easy_getinfo` finds the handle's private pointer.
pub record Done : Type 0 where
  pub is_done : Bool
  pub easy : ℕ
  pub code : ℕ
  pub getinfo_ok : Bool

-- What other code answers while one message is handled: `calloc`, for a transfer and for buckets,
-- libcurl, and the streams as the agent finds them.
pub record Answers : Type 0 where
  pub transfer : Option ℕ
  pub buckets_ok : Bool
  pub setopt_ok : Bool
  pub add_handle_ok : Bool
  pub pause_code : ℕ
  pub done : List Done
  pub streams : ℕ → Stream

-- `async_messages_context_s`, with the private pointers that libcurl keeps for easy handles, and the
-- calls made so far. The queue is the sender's.
pub record Agent : Type 0 where
  pub registry : Registry
  pub sender : Sender
  pub private_of : ℕ → ℕ
  pub log : List Effect

abbrev pub emit : List Effect → Agent → Agent
emit effects a = record a { log = a.log ++ effects }

abbrev pub set_private : ℕ → ℕ → (ℕ → ℕ) → ℕ → ℕ
set_private easy p private_of q = if q == easy then p else private_of q

-- `hcurl_stream_normalize_completion` of a stream that may be null.
abbrev pub normalize : (ℕ → Stream) → ℕ → ℕ → ℕ
normalize streams s code = if s == 0 then code else normalize_completion (streams s) code

abbrev pub final_code : (ℕ → Stream) → Transfer → ℕ → ℕ
final_code streams t code =
    normalize streams t.upload_stream (normalize streams t.download_stream code)

-- The calls of `finish_detached_transfer`, but for the clearing of the private pointer.
abbrev pub finish_effects : Transfer → ℕ → List Effect
finish_effects t code =
    (if t.active then remove_handle t.easy ∷ [] else [])
    ++ (finish_metrics t.metrics t.easy
        ∷ set_result t.result t.easy code
        ∷ complete_stream t.download_stream code
        ∷ complete_stream t.upload_stream code
        ∷ cleanup t.easy
        ∷ wake_result t.result
        ∷ free_transfer t.address
        ∷ [])

-- `finish_detached_transfer` of a transfer that is not null.
unfoldable pub finish_detached_transfer : (ℕ → Stream) → Transfer → ℕ → Agent → Agent
finish_detached_transfer streams t code a =
    emit (finish_effects t (final_code streams t code))
      (record a { private_of = set_private t.easy 0 a.private_of })

-- A read through a pointer to a transfer: the live ones are those in the registry.
unfoldable pub at_address : ℕ → List Transfer → Option Transfer
at_address p [] = none
at_address p (t ∷ chain) = if t.address == p then some t else at_address p chain

-- The end of `complete_transfer`, with what `registry_remove` returned.
unfoldable pub complete_removed : (ℕ → Stream) → Transfer → ℕ → Option Transfer → Agent → Agent
unfolding finish_detached_transfer
complete_removed streams t code none a = a
complete_removed streams t code (some registered) a =
    if registered.address == t.address then finish_detached_transfer streams t code a else a

-- `complete_transfer`; `none` is a read of freed memory.
unfoldable pub complete_transfer : (ℕ → Stream) → Bool → ℕ → ℕ → Agent → Option Agent
unfolding at_address complete_removed remove
complete_transfer streams getinfo_ok easy code a =
    if easy == 0 || not getinfo_ok || a.private_of easy == 0
    then some a
    else elim (at_address (a.private_of easy) (concat a.registry.buckets)) [
      | none ↦ none
      | some t ↦
          let (registered, r) = remove a.registry t.id in
          some (complete_removed streams t code registered (record a { registry = r }))
    ]

-- `check_multi_info`, over what `curl_multi_info_read` returns.
unfoldable pub check_multi_info : (ℕ → Stream) → List Done → Agent → Option Agent
unfolding complete_transfer
check_multi_info streams [] a = some a
check_multi_info streams (d ∷ done) a =
    elim (if d.is_done then complete_transfer streams d.getinfo_ok d.easy d.code a else some a) [
      | none ↦ none
      | some a' ↦ check_multi_info streams done a'
    ]

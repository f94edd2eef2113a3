-- ===== src/Agent/Loop.antt =====
-- cbits/message_chan.c: the messages that the agent handles, its loop over them, and its shutdown.
use hcurl.Prelude.{
  ℕ, zero, suc, true, false, ◌||◌, not, List, [], ◌∷◌, ◌++◌, Option, none, some, ◌==◌,
  if◌then◌else◌, length,
}
use hcurl.Sender.{
  Sender, Payload, Message, execute, cancel_request, resume_request, stop_agent, mark_closed,
}
use hcurl.Stream.State.{Stream, aborted_by_callback, curle_ok}
use hcurl.Easy.{failed_init}
use hcurl.Registry.{Transfer, Registry, destroyed, insert, find, remove}
use hcurl.Agent.{
  Effect, finish_metrics, set_result, complete_stream, cleanup, wake_result, free_transfer,
  stop_loop, Answers, Agent, emit, set_private, finish_detached_transfer, check_multi_info,
}

-- `CURLE_OUT_OF_MEMORY`
abbrev pub curle_out_of_memory : ℕ
curle_out_of_memory = 27

-- The calls of `fail_unregistered_transfer`.
abbrev pub fail_effects : Payload → ℕ → List Effect
fail_effects p code =
    (finish_metrics p.metrics p.easy
      ∷ set_result p.result p.easy code
      ∷ complete_stream p.download_stream code
      ∷ complete_stream p.upload_stream code
      ∷ [])
    ++ (if not (p.easy == 0) then cleanup p.easy ∷ [] else [])
    ++ (wake_result p.result ∷ [])

-- `fail_unregistered_transfer`
unfoldable pub fail_unregistered_transfer : Payload → ℕ → Agent → Agent
fail_unregistered_transfer p code a = emit (fail_effects p code) a

-- The new `transfer_t` of `execute_transfer`.
abbrev pub transfer_of : ℕ → Payload → Transfer
transfer_of address p = record {
  address = address;
  id = p.transfer_id;
  easy = p.easy;
  result = p.result;
  metrics = p.metrics;
  download_stream = p.download_stream;
  upload_stream = p.upload_stream;
  active = false;
}

-- `transfer->active = true` of the transfer at an address, wherever the registry has it.
abbrev pub activate : ℕ → Transfer → Transfer
activate p t = if t.address == p then record t { active = true } else t

abbrev pub map_chain : (Transfer → Transfer) → List Transfer → List Transfer
map_chain f [] = []
map_chain f (t ∷ chain) = f t ∷ map_chain f chain

abbrev pub map_buckets : (Transfer → Transfer) → List (List Transfer) → List (List Transfer)
map_buckets f [] = []
map_buckets f (chain ∷ chains) = map_chain f chain ∷ map_buckets f chains

-- The end of `execute_transfer`, once the transfer is registered and has its private pointer.
unfoldable pub start_transfer : Answers → Transfer → Agent → Agent
unfolding finish_detached_transfer remove
start_transfer answers t a =
    if not answers.add_handle_ok
    then finish_detached_transfer answers.streams t failed_init
        (record a { registry = (remove a.registry t.id).1 })
    else record a {
      registry = record a.registry {
        buckets = map_buckets (activate t.address) a.registry.buckets;
      };
    }

-- `execute_transfer` from its call of `calloc` on.
unfoldable pub execute_allocated : Answers → Payload → ℕ → Agent → Agent
unfolding fail_unregistered_transfer start_transfer insert remove
execute_allocated answers p address a =
    let t = transfer_of address p in
    let (inserted, r) = insert answers.buckets_ok a.registry t in
    let a' : Agent = record a { registry = r } in
    if not inserted
    then emit (free_transfer address ∷ []) (fail_unregistered_transfer p failed_init a')
    else if not answers.setopt_ok
    then emit (free_transfer address ∷ [])
        (fail_unregistered_transfer p failed_init (record a { registry = (remove r t.id).1 }))
    else start_transfer answers t
        (record a' { private_of = set_private p.easy address a.private_of })

-- `execute_transfer`
unfoldable pub execute_transfer : Answers → Payload → Agent → Agent
unfolding fail_unregistered_transfer execute_allocated
execute_transfer answers p a =
    if p.easy == 0 || p.result == 0 || p.transfer_id == 0
    then if not (p.easy == 0)
        || not (p.result == 0)
        || not (p.download_stream == 0)
        || not (p.upload_stream == 0)
      then fail_unregistered_transfer p failed_init a
      else a
    else elim answers.transfer [
      | none ↦ fail_unregistered_transfer p curle_out_of_memory a
      | some address ↦ execute_allocated answers p address a
    ]

-- What follows `registry_remove` where it is not null.
unfoldable pub finish_removed : (ℕ → Stream) → ℕ → Option Transfer × Registry → Agent → Agent
unfolding finish_detached_transfer
finish_removed streams code (none, r) a = record a { registry = r }
finish_removed streams code (some t, r) a =
    finish_detached_transfer streams t code (record a { registry = r })

-- `cancel_transfer`
unfoldable pub cancel_transfer : Answers → ℕ → Agent → Agent
unfolding finish_removed remove
cancel_transfer answers id a =
    finish_removed answers.streams aborted_by_callback (remove a.registry id) a

-- `resume_transfer`
unfoldable pub resume_transfer : Answers → ℕ → Agent → Option Agent
unfolding finish_removed check_multi_info find remove
resume_transfer answers id a = elim (find a.registry id) [
  | none ↦ some a
  | some t ↦
      if not t.active
      then some a
      else if not (answers.pause_code == curle_ok)
      then some (finish_removed answers.streams answers.pause_code (remove a.registry id) a)
      else check_multi_info answers.streams answers.done a
]

-- The loop of `shutdown_message_context` over a chain.
unfoldable pub finish_chain : (ℕ → Stream) → ℕ → List Transfer → Agent → Agent
unfolding finish_detached_transfer
finish_chain streams code [] a = a
finish_chain streams code (t ∷ chain) a =
    finish_chain streams code chain (finish_detached_transfer streams t code a)

-- And over the buckets.
unfoldable pub finish_buckets : (ℕ → Stream) → ℕ → List (List Transfer) → Agent → Agent
unfolding finish_chain
finish_buckets streams code [] a = a
finish_buckets streams code (chain ∷ chains) a =
    finish_buckets streams code chains (finish_chain streams code chain a)

-- And over the messages that are left.
unfoldable pub fail_messages : ℕ → List Message → Agent → Agent
unfolding fail_unregistered_transfer
fail_messages code [] a = a
fail_messages code (execute p ∷ messages) a =
    fail_messages code messages (fail_unregistered_transfer p code a)
fail_messages code (cancel_request id ∷ messages) a = fail_messages code messages a
fail_messages code (resume_request id ∷ messages) a = fail_messages code messages a
fail_messages code (stop_agent ∷ messages) a = fail_messages code messages a

-- `message_sender_close`, at its end.
abbrev pub closed_sender : Sender → Sender
closed_sender s = record s { state = mark_closed s.state; attached = false }

-- `shutdown_message_context`
unfoldable pub shutdown_message_context : (ℕ → Stream) → ℕ → Agent → Agent
unfolding finish_buckets fail_messages mark_closed
shutdown_message_context streams code a =
    let a' : Agent = record a { sender = closed_sender a.sender } in
    if length a.registry.buckets == 0
    then a'
    else let finished = finish_buckets streams code a.registry.buckets a' in
      let drained =
        fail_messages code a.sender.queue
          (record finished { sender = record finished.sender { queue = [] } }) in
      record drained { registry = destroyed }

-- The `switch` of `async_check_outer_messages`.
unfoldable pub handle : Answers → Message → Agent → Option Agent
unfolding execute_transfer cancel_transfer resume_transfer shutdown_message_context
handle answers (execute p) a = some (execute_transfer answers p a)
handle answers (cancel_request id) a = some (cancel_transfer answers id a)
handle answers (resume_request id) a = resume_transfer answers id a
handle answers stop_agent a =
    some (emit (stop_loop ∷ []) (shutdown_message_context answers.streams aborted_by_callback a))

-- One round of its loop, with a message of the queue.
unfoldable pub dispatch : Answers → Agent → Option Agent
unfolding handle
dispatch answers a = elim a.sender.queue [
  | [] ↦ some a
  | message ∷ messages ↦
      handle answers message (record a { sender = record a.sender { queue = messages } })
]

-- `async_check_outer_messages`: its loop, for a number of rounds; what is answered in a round is told
-- by the number of rounds that are left.
unfoldable pub async_check_outer_messages : ℕ → (ℕ → Answers) → Agent → Option Agent
unfolding dispatch
async_check_outer_messages zero answers a = some a
async_check_outer_messages (suc rounds) answers a = elim (dispatch (answers rounds) a) [
  | none ↦ none
  | some a' ↦ async_check_outer_messages rounds answers a'
]

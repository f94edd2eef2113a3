-- ===== src/Agent/Steps.antt =====
-- cbits/message_chan.c: how an agent starts, and the steps that may follow: a producer sends a
-- message, the agent handles one, libcurl reports transfers, the reactor shuts the agent down.
use hcurl.Prelude.{
  ℕ, zero, suc, Bool, true, ◌||◌, not, List, [], ◌∷◌, ◌++◌, Option, none, some, if◌then◌else◌,
}
use hcurl.Sender.{
  Sender, Message, EnqueueResult, enqueued, full, out_of_memory, closed, enqueue_outer_message,
}
use hcurl.Sender
use hcurl.Stream.State.{Stream}
use hcurl.Registry.{init}
use hcurl.Agent.{Agent, Answers, Done, check_multi_info}
use hcurl.Agent.Loop.{dispatch, shutdown_message_context}
use hcurl.Agent.Requests.{IsFair}

-- `init_async_check_messages` of pointers that are not null: whether `malloc`, `calloc`,
-- `message_sender_create`, the `calloc` of the buckets and `uv_async_init` succeed. No easy handle
-- has a private pointer yet.
unfoldable pub init_async_check_messages : Bool → Bool → Bool → Bool → Bool → Option Agent
unfolding init
init_async_check_messages malloc_ok calloc_ok sender_ok buckets_ok async_ok =
    if not malloc_ok || not calloc_ok || not sender_ok
    then none
    else let (ok, registry) = init buckets_ok in
      if not ok
      then none
      else if not async_ok
      then none
      else some (record {
        registry = registry;
        sender = record Sender.create { attached = true };
        private_of = λ easy. 0;
        log = [];
      })

pub data Event : Type 0 where
  post : (calloc_ok queue_ok : Bool) → Message → Event
  dispatched : Answers → Event
  reported : (ℕ → Stream) → List Done → Event
  stopped : (ℕ → Stream) → (code : ℕ) → Event

-- The message, if it was accepted.
abbrev pub taken_over : EnqueueResult → Message → List Message
taken_over enqueued m = m ∷ []
taken_over full m = []
taken_over out_of_memory m = []
taken_over closed m = []

abbrev pub silently : Option Agent → Option (List Message × Agent)
silently none = none
silently (some a) = some ([], a)

-- One step, with the message that it accepts.
unfoldable pub step : Event → Agent → Option (List Message × Agent)
unfolding enqueue_outer_message dispatch check_multi_info shutdown_message_context
step (post calloc_ok queue_ok m) a =
    let (answer, s) = enqueue_outer_message calloc_ok queue_ok m a.sender in
    some (taken_over answer m, record a { sender = s })
step (dispatched answers) a = silently (dispatch answers a)
step (reported streams done) a = silently (check_multi_info streams done a)
step (stopped streams code) a = some ([], shutdown_message_context streams code a)

unfoldable pub run : List Event → Agent → Option (List Message × Agent)
unfolding step
run [] a = some ([], a)
run (e ∷ events) a = elim (step e a) [
  | none ↦ none
  | some r ↦ elim (run events r.1) [ none ↦ none | some later ↦ some (r.0 ++ later.0, later.1) ]
]

-- `calloc` gives memory that no registered transfer lies in, whenever a message is handled.
abbrev pub FairAt : Event → Agent → Type 0
FairAt (post calloc_ok queue_ok m) a = Unit
FairAt (dispatched answers) a = IsFair answers a
FairAt (reported streams done) a = Unit
FairAt (stopped streams code) a = Unit

-- What holds of the agent after a step.
abbrev pub After : (Agent → Type 0) → Option (List Message × Agent) → Type 0
After P none = Unit
After P (some r) = P r.1

abbrev pub AreFair : List Event → Agent → Type 0
AreFair [] a = Unit
AreFair (e ∷ events) a = FairAt e a × After (AreFair events) (step e a)

-- And in each round of the loop.
abbrev pub FairRounds : ℕ → (ℕ → Answers) → Agent → Type 0
FairRounds zero answers a = Unit
FairRounds (suc rounds) answers a =
    IsFair (answers rounds) a
    × After (FairRounds rounds answers) (silently (dispatch (answers rounds) a))

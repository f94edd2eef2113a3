-- ===== src/Agent/Tests.antt =====
-- The agent at concrete messages.
use hcurl.Prelude.{
  ℕ, ◌+◌, ◌<◌, ◌≡◌, refl, sym, ◌∙◌, size_max, ◌⊎◌, true, false, List, [], ◌∷◌, ◌++◌, none, some,
  arith,
}
use hcurl.Sender.{
  Message, Payload, Sender, execute, cancel_request, resume_request, enqueue_outer_message, enter,
  leave, mark_closed,
}
use hcurl.Sender
use hcurl.Stream.State.{Stream, aborted_by_callback, download}
use hcurl.Waker.{empty_slot}
use hcurl.Stream.Control.{normalize_completion}
use hcurl.Easy.{EasyData, create, destroy, failed_init}
use hcurl.Easy.Release
use hcurl.Headers.Collector.Invariant.{consumed}
use hcurl.Agent.Results.{calls_of, run-woken}
use hcurl.Registry.{
  Transfer, init, find, find_chain, insert, remove, make_room, resize, link, unlink, take_out, home,
  hash_transfer_id,
}
use hcurl.Agent.{
  set_private, finish_effects, Agent, Answers, free_transfer, finish_detached_transfer, at_address,
  complete_removed, complete_transfer, check_multi_info,
}
use hcurl.Agent.Loop.{
  transfer_of, fail_effects, fail_unregistered_transfer, start_transfer, execute_allocated,
  execute_transfer, finish_removed, cancel_transfer, resume_transfer, finish_chain, finish_buckets,
  fail_messages, shutdown_message_context, handle, dispatch, async_check_outer_messages,
}
use hcurl.Agent.Heap.{lies_at}
use hcurl.Agent.Requests.{IsFair, execute_transfer-Handled}
use hcurl.Registry.Chains.{total}
use mathlib.Core.Path.{subst}
use hcurl.Agent.Ledger.{stream_at, paid, queued}
use hcurl.Agent.Invariant.{IsValid}
use hcurl.Agent.Answering.{Ended, cancel_transfer_lem, complete_transfer_lem}
use hcurl.Agent.Steps.{
  init_async_check_messages, Event, post, dispatched, reported, step, run, AreFair, FairRounds,
}
use hcurl.Agent.Settling.{init-IsValid, run-settled, async_check_outer_messages-ends}

abbrev stream : Stream
stream = record {
  kind = download;
  chunks = [];
  capacity = 0;
  head = 0;
  tail = 0;
  count = 0;
  finished = false;
  closed = false;
  paused = false;
  terminal_set = false;
  cancel_sent = false;
  terminal_code = 0;
  read_waiter = empty_slot;
  write_waiter = empty_slot;
  transfer_id = 0;
  attached = false;
}

abbrev submission : ℕ → ℕ → Payload
submission id easy = record {
  transfer_id = id;
  easy = easy;
  result = easy + 1;
  metrics = 0;
  download_stream = easy + 2;
  upload_stream = 0;
}

abbrev answering : ℕ → Answers
answering address = record {
  transfer = some address;
  buckets_ok = true;
  setopt_ok = true;
  add_handle_ok = true;
  pause_code = 0;
  done = [];
  streams = λ s. stream;
}

-- Two submissions with one identifier; the first one is completed, a third one is left in the queue.
abbrev events : List Event
events =
    post true true (execute (submission 7 11))
    ∷ post true true (execute (submission 7 21))
    ∷ dispatched (answering 100)
    ∷ dispatched (answering 200)
    ∷ reported (λ s. stream)
        (record { is_done = true; easy = 11; code = 0; getinfo_ok = true } ∷ [])
    ∷ post true true (execute (submission 9 31))
    ∷ []

abbrev start : Agent
start = record {
  registry = (init true).1;
  sender = record Sender.create { attached = true };
  private_of = λ easy. 0;
  log = [];
}

program : Unit {0}
unfolding init find find_chain insert remove make_room resize link unlink take_out home
    hash_transfer_id enqueue_outer_message enter leave mark_closed normalize_completion
    finish_detached_transfer at_address complete_removed complete_transfer check_multi_info
    fail_unregistered_transfer start_transfer execute_allocated execute_transfer finish_removed
    cancel_transfer resume_transfer finish_chain finish_buckets fail_messages
    shutdown_message_context handle dispatch async_check_outer_messages init_async_check_messages
    step run
program = tt

started : init_async_check_messages true true true true true ≡ some start
unfolding program
started = refl

-- Memory at an address where nothing lies.
fresh-IsFair :
    {answers : Answers} {a : Agent} (p : ℕ)
    → answers.transfer ≡ some p
    → total (lies_at p) a.registry.buckets ≡ 0
    → a.registry.count < size_max
    → IsFair answers a
fresh-IsFair {answers} {a} p granted free small = record {
  fresh = λ q e.
      let both : some p ≡ some q = sym granted ∙ e in
      let same : p ≡ q = ground (arith, both) in
      subst (λ k. total (lies_at k) a.registry.buckets ≡ 0) same free;
  small = small;
}

events-AreFair : AreFair events start
unfolding program
events-AreFair = (
  tt,
  (
    tt,
    (
      fresh-IsFair 100 refl refl (omega arith),
      (fresh-IsFair 200 refl refl (omega arith), (tt, (tt, tt))),
    ),
  ),
)

-- What they leave.
abbrev run_end : Agent
run_end = record {
  registry = record (init true).1 { count = 0 };
  sender = record Sender.create {
    queue = execute (submission 9 31) ∷ [];
    signals = 3;
    attached = true;
  };
  private_of = set_private 11 0 (set_private 11 100 (λ easy. 0));
  log =
      fail_effects (submission 7 21) failed_init
      ++ (free_transfer 200
          ∷ finish_effects (record (transfer_of 100 (submission 7 11)) { active = true }) 0);
}

test_events :
    run events start
    ≡ some (
      execute (submission 7 11) ∷ execute (submission 7 21) ∷ execute (submission 9 31) ∷ [],
      run_end,
    )
unfolding program
test_events = refl

run-settled_example :
    (accepted : List Message) × (a' : Agent) × (run events start ≡ some (accepted, a'))
    × let end = shutdown_message_context (λ s. stream) 42 a' in
      (end.registry.buckets ≡ [])
      × (end.sender.queue ≡ [])
      × (paid (stream_at 33) end.log ≡ queued (stream_at 33) accepted)
run-settled_example =
    run-settled true true true true true events (λ s. stream) 42 (stream_at 33) start started
      events-AreFair (ground arith)

start-IsValid : IsValid start
start-IsValid = (init-IsValid true true true true true started).0

start-IsFair : IsFair (answering 100) start
unfolding program
start-IsFair = fresh-IsFair 100 refl refl (omega arith)

-- An agent with one transfer.
abbrev busy : Agent
busy = execute_transfer (answering 100) (submission 7 11) start

busy-IsValid : IsValid busy
busy-IsValid =
    (execute_transfer-Handled (answering 100) (submission 7 11) start-IsValid start-IsFair).valid

cancel_transfer_lem_example :
    ((find busy.registry 7 ≡ none) × (cancel_transfer (answering 200) 7 busy ≡ busy))
    ⊎ ((t : Transfer) × (t.id ≡ 7)
        × Ended (λ s. stream) aborted_by_callback t busy (cancel_transfer (answering 200) 7 busy))
cancel_transfer_lem_example = cancel_transfer_lem (answering 200) 7 busy-IsValid

busy_private : busy.private_of 11 ≡ 100
unfolding program
busy_private = refl

busy_found :
    find busy.registry 7 ≡ some (record (transfer_of 100 (submission 7 11)) { active = true })
unfolding program
busy_found = refl

complete_transfer_lem_example :
    (t : Transfer) × (a' : Agent) × (t.address ≡ busy.private_of 11)
    × (t.easy ≡ 11)
    × (complete_transfer (λ s. stream) true 11 0 busy ≡ some a')
    × Ended (λ s. stream) 0 t busy a'
complete_transfer_lem_example =
    complete_transfer_lem (λ s. stream) 11 0 busy-IsValid (ground arith)
      (ground (arith, busy_private))

-- An agent with messages in its queue.
abbrev loaded : Agent
loaded = record start {
  sender = record Sender.create {
    queue = execute (submission 7 11) ∷ resume_request 7 ∷ cancel_request 7 ∷ [];
    attached = true;
  };
}

loaded-IsValid : IsValid loaded
unfolding program
loaded-IsValid =
    let v = start-IsValid in
    record {
      held = v.held;
      weight = v.weight;
      kept = v.kept;
      apart = v.apart;
      owns = v.owns;
      word = omega arith;
      chunks = v.chunks;
      settled = λ e. absurd (ground (arith, e));
    }

loaded_fair : FairRounds 3 (λ n. answering (100 + n)) loaded
unfolding program
loaded_fair = (
  fresh-IsFair 102 refl refl (omega arith),
  (fresh-IsFair 101 refl refl (omega arith), (fresh-IsFair 100 refl refl (omega arith), tt)),
)

async_check_outer_messages-ends_example :
    (a' : Agent) × (async_check_outer_messages 3 (λ n. answering (100 + n)) loaded ≡ some a')
    × (a'.sender.queue ≡ [])
    × IsValid a'
async_check_outer_messages-ends_example =
    async_check_outer_messages-ends 3 (λ n. answering (100 + n)) loaded-IsValid loaded_fair
      (omega arith)

-- The waiters of the two results with one identifier.
run-woken_example :
    (d : EasyData) × (create true 77 0 ≡ some d)
    × let end = shutdown_message_context (λ s. stream) 42 run_end in
      let (puts, d') = Release.run (calls_of (λ easy. some 200) 22 end.log) d in
      (d'.completed ≡ true) × (consumed puts ≡ 77 ∷ []) × (destroy d' ≡ [])
run-woken_example =
    run-woken true true true true true events (λ s. stream) 42 (λ easy. some 200) 22 77 0 started
      events-AreFair test_events (ground arith) (ground arith) (omega arith)

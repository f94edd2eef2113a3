-- ===== src/Reactor/Tests.antt =====
-- The reactor at concrete callbacks.
use hcurl.Prelude.{
  ℕ, ◌≤◌, ◌≡◌, ◌≢◌, refl, sym, ◌∙◌, true, false, List, [], ◌∷◌, Option, none, some, arith,
}
use hcurl.Sender
use hcurl.Registry.{init}
use hcurl.Stream.State.{Stream, download}
use hcurl.Waker.{empty_slot}
use hcurl.Agent.{Agent, complete_transfer, check_multi_info}
use hcurl.Agent.Loop.{shutdown_message_context}
use hcurl.Agent.Steps.{init_async_check_messages}
use hcurl.Agent.Settling.{init-IsValid}
use hcurl.Agent.Invariant.{IsValid}
use hcurl.Reactor.{
  absent, open_at, Reactor, put, SocketAnswers, poll_in, poll_inout, poll_remove,
  destroy_socket_context, new_socket_context, renew, ensure_context, poll_for, curl_socket_function,
  curl_timer_function,
}
use mathlib.Core.Path.{subst}
use hcurl.Reactor.Sockets.{IsFresh}
use hcurl.Reactor.Safety.{count, IsSafe}
use hcurl.Reactor.Steps.{
  multi_ok, bad_socket, socket_call, timer_call, call, drive_multi_socket, check, stop_reactor,
  after_socket, socket_callback, on_timeout, destroy_socket_context_cb, closed_handle, walk,
  uv_poll, uv_other, run_closing, agent_shutdown, bind_uv_curl_multi,
}
use hcurl.Reactor.Events.{
  Event, socket_event, timer_event, closed_event, step, run, AreFair, run-IsSafe,
}
use hcurl.Reactor.Freeing.{agent_shutdown-frees}

abbrev stream : Stream
stream = record {
  kind = download;
  chunks = [];
  capacity = 0;
  head = 0;
  tail = 0;
  count = 0;
  finished = false;
  closed = false;
  paused = false;
  terminal_set = false;
  cancel_sent = false;
  terminal_code = 0;
  read_waiter = empty_slot;
  write_waiter = empty_slot;
  transfer_id = 0;
  attached = false;
}

abbrev agent : Agent
agent = record {
  registry = (init true).1;
  sender = record Sender.create { attached = true };
  private_of = λ easy. 0;
  log = [];
}

abbrev start : Reactor
start = record {
  phase = λ c. absent;
  assigned = λ fd. 0;
  timer = none;
  stopped = false;
  agent = agent;
  allocated = [];
  closed = [];
  freed = [];
}

abbrev granting : ℕ → SocketAnswers
granting c = record { context = some c; init_ok = true; assign_ok = true; start_ok = true }

abbrev first : Reactor
first = record start {
  phase = put 100 (open_at 3 1) (put 100 (open_at 3 0) (λ c. absent));
  assigned = put 3 100 (λ fd. 0);
  allocated = 100 ∷ [];
}

abbrev opened : Reactor
opened = record start {
  phase = put 200 (open_at 4 3) (put 200 (open_at 4 0) first.phase);
  assigned = put 4 200 first.assigned;
  timer = some 50;
  allocated = 200 ∷ 100 ∷ [];
}

abbrev ap_freed : Option Reactor → List ℕ
ap_freed none = []
ap_freed (some r) = r.freed

-- A timeout in which libcurl opens the sockets 3 and 4; then socket 3 is readable, and libcurl
-- removes it; libuv frees its context.
abbrev opening : Event
opening = timer_event (record {
  calls =
      socket_call (granting 100) poll_in 3
      ∷ socket_call (granting 200) poll_inout 4
      ∷ timer_call true (some 50)
      ∷ [];
  code = multi_ok;
  streams = λ s. stream;
  done = [];
})

abbrev events : List Event
events =
    opening
    ∷ socket_event
        (record {
          calls = socket_call (granting 300) poll_remove 3 ∷ [];
          code = bad_socket;
          streams = λ s. stream;
          done = [];
        })
        100
    ∷ closed_event 100
    ∷ []

program : Unit {0}
unfolding init init_async_check_messages complete_transfer check_multi_info shutdown_message_context
    destroy_socket_context new_socket_context renew ensure_context poll_for curl_socket_function
    curl_timer_function call drive_multi_socket check stop_reactor after_socket socket_callback
    on_timeout destroy_socket_context_cb closed_handle walk run_closing agent_shutdown
    bind_uv_curl_multi step run
program = tt

bound : bind_uv_curl_multi true true true agent ≡ some start
unfolding program
bound = refl

agent-IsValid : IsValid agent
unfolding program
agent-IsValid = (init-IsValid true true true true true refl).0

-- Memory at an address where no context is.
granting-IsFresh :
    (answers : SocketAnswers) (r : Reactor) (p : ℕ)
    → answers.context ≡ some p
    → p ≢ 0
    → r.phase p ≡ absent
    → IsFresh answers r
granting-IsFresh answers r p granted present free c e =
    let both : some p ≡ some c = sym granted ∙ e in
    let same : p ≡ c = ground (arith, both) in
    (subst (λ k. k ≢ 0) same present, subst (λ k. r.phase k ≡ absent) same free)

events-AreFair : AreFair events start
unfolding program
events-AreFair = (
  (
    granting-IsFresh (granting 100) start 100 refl (ground arith) refl,
    (granting-IsFresh (granting 200) first 200 refl (ground arith) refl, (tt, tt)),
  ),
  (
    (
      refl,
      (granting-IsFresh (granting 300) opened 300 refl (ground arith) refl, tt),
      λ fd e. ground (arith, e),
    ),
    (refl, tt),
  ),
)

run-IsSafe_example : (end : Reactor) × (run events start ≡ some end) × IsSafe end
run-IsSafe_example = run-IsSafe true true true agent events start agent-IsValid bound events-AreFair

-- The contexts are freed in the run, and at a shutdown.
test_freed : ap_freed (run events start) ≡ 100 ∷ []
unfolding program
test_freed = refl

opened_there : run (opening ∷ []) start ≡ some opened
unfolding program
opened_there = refl

opening-AreFair : AreFair (opening ∷ []) start
unfolding program
opening-AreFair = (events-AreFair.0, tt)

opened-IsSafe : IsSafe opened
opened-IsSafe =
    let (end, ran, v) =
      run-IsSafe true true true agent (opening ∷ []) start agent-IsValid bound opening-AreFair in
    let both : some end ≡ some opened = sym ran ∙ opened_there in
    let same : end ≡ opened = ground (arith, both) in subst IsSafe same v

agent_shutdown-frees_example :
    let end =
      agent_shutdown (λ s. stream) (uv_other ∷ uv_poll 200 ∷ uv_poll 100 ∷ uv_other ∷ []) opened in
    (count 200 end.freed ≡ count 200 end.allocated)
    × (count 200 end.closed ≤ count 200 end.allocated)
    × (end.agent.registry.buckets ≡ [])
agent_shutdown-frees_example =
    agent_shutdown-frees (λ s. stream) (uv_other ∷ uv_poll 200 ∷ uv_poll 100 ∷ uv_other ∷ []) 200
      opened opened-IsSafe (λ d. ground arith)

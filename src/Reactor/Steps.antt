-- ===== src/Reactor/Steps.antt =====
-- cbits/curl_uv.c: the callbacks of libuv, with the callbacks that libcurl makes within them.
use hcurl.Prelude.{
  ℕ, ◌||◌, not, Bool, true, false, List, [], ◌∷◌, Option, none, some, if◌then◌else◌,
}
use hcurl.Stream.State.{Stream, aborted_by_callback}
use hcurl.Agent.{Agent, Done, check_multi_info}
use hcurl.Agent.Loop.{shutdown_message_context}
use hcurl.Reactor.{
  Phase, absent, open_at, closing_at, Reactor, put, SocketAnswers, Action, destroy_socket_context,
  curl_socket_function, curl_timer_function,
}

-- A `CURLMcode`, but for `CURLM_CALL_MULTI_PERFORM`, at which the loop of `drive_multi_socket` goes on.
pub data MultiCode : Type 0 where
  multi_ok bad_socket failed : MultiCode

-- A call by libcurl.
pub data Call : Type 0 where
  socket_call : SocketAnswers → Action → (fd : ℕ) → Call
  timer_call : Bool → Option ℕ → Call

-- What `drive_multi_socket` does and answers; then, what libcurl reports.
pub record Drive : Type 0 where
  pub calls : List Call
  pub code : MultiCode
  pub streams : ℕ → Stream
  pub done : List Done

abbrev pub forget_result : Option (Bool × Reactor) → Option Reactor
forget_result none = none
forget_result (some (ok, r)) = some r

unfoldable pub call : Call → Reactor → Option Reactor
unfolding curl_socket_function curl_timer_function
call (socket_call answers action fd) r = forget_result (curl_socket_function answers action fd r)
call (timer_call uv_ok timeout) r = some (curl_timer_function uv_ok timeout r).1

unfoldable pub drive_multi_socket : List Call → Reactor → Option Reactor
unfolding call
drive_multi_socket [] r = some r
drive_multi_socket (c ∷ calls) r = elim (call c r) [
  | none ↦ none
  | some r' ↦ drive_multi_socket calls r'
]

-- `CURLE_OPERATION_TIMEDOUT` and `CURLE_RECV_ERROR`
abbrev pub operation_timedout : ℕ
operation_timedout = 28

abbrev pub recv_error : ℕ
recv_error = 56

-- `check_multi_info(multi_context->messages)`
unfoldable pub check : Drive → Reactor → Option Reactor
unfolding check_multi_info
check d r = elim (check_multi_info d.streams d.done r.agent) [
  | none ↦ none
  | some a ↦ some (record r { agent = a })
]

-- `shutdown_message_context` and `uv_stop`
unfoldable pub stop_reactor : Drive → ℕ → Reactor → Reactor
unfolding shutdown_message_context
stop_reactor d code r = record r {
  agent = shutdown_message_context d.streams code r.agent;
  stopped = true;
}

-- What follows the driving of libcurl in `socket_callback`, for the context `c`.
unfoldable pub after_socket : MultiCode → Drive → ℕ → Reactor → Option Reactor
unfolding check stop_reactor destroy_socket_context
after_socket multi_ok d c r = check d r
after_socket bad_socket d c r = elim (destroy_socket_context c r) [
  | none ↦ none
  | some r' ↦ check d r'
]
after_socket failed d c r = some (stop_reactor d recv_error r)

-- `socket_callback`
unfoldable pub socket_callback : Drive → ℕ → Reactor → Option Reactor
unfolding drive_multi_socket after_socket
socket_callback d c r = elim (drive_multi_socket d.calls r) [
  | none ↦ none
  | some r' ↦ after_socket d.code d c r'
]

abbrev pub is_ok : MultiCode → Bool
is_ok multi_ok = true
is_ok bad_socket = false
is_ok failed = false

-- `on_timeout`
unfoldable pub on_timeout : Drive → Reactor → Option Reactor
unfolding drive_multi_socket check stop_reactor
on_timeout d r = elim (drive_multi_socket d.calls r) [
  | none ↦ none
  | some r' ↦ if is_ok d.code then check d r' else some (stop_reactor d operation_timedout r')
]

-- `destroy_socket_context_cb`, which libuv calls for a handle that it has closed.
unfoldable pub destroy_socket_context_cb : ℕ → Reactor → Reactor
destroy_socket_context_cb c r = record r { phase = put c absent r.phase; freed = c ∷ r.freed }

abbrev pub is_closing : Phase → Bool
is_closing absent = false
is_closing (open_at fd events) = false
is_closing (closing_at fd) = true

-- The same, wherever the handle is closing.
unfoldable pub closed_handle : ℕ → Reactor → Reactor
unfolding destroy_socket_context_cb
closed_handle c r = if is_closing (r.phase c) then destroy_socket_context_cb c r else r

-- A handle that `uv_walk` visits: of type `UV_POLL`, in the context at an address, or of another type,
-- the timer and the agent's handle for messages.
pub data Handle : Type 0 where
  uv_poll : ℕ → Handle
  uv_other : Handle

-- The contexts of the handles for which `uv_close` is given `destroy_socket_context_cb`.
abbrev pub contexts : List Handle → List ℕ
contexts [] = []
contexts (uv_poll c ∷ handles) = c ∷ contexts handles
contexts (uv_other ∷ handles) = contexts handles

-- `uv_close(handle, destroy_socket_context_cb)` where the handle is not closing.
abbrev pub close_poll : Phase → ℕ → Reactor → Reactor
close_poll absent c r = r
close_poll (closing_at fd) c r = r
close_poll (open_at fd events) c r = record r {
  phase = put c (closing_at fd) r.phase;
  closed = c ∷ r.closed;
}

-- `close_handle_cb`; `uv_close(handle, NULL)` of another handle concerns no context.
abbrev pub close_handle : Handle → Reactor → Reactor
close_handle (uv_poll c) r = close_poll (r.phase c) c r
close_handle uv_other r = r

unfoldable pub walk : List Handle → Reactor → Reactor
walk [] r = r
walk (handle ∷ handles) r = walk handles (close_handle handle r)

-- The runs of the loop until no handle is left.
unfoldable pub run_closing : List ℕ → Reactor → Reactor
unfolding closed_handle
run_closing [] r = r
run_closing (c ∷ handles) r = run_closing handles (closed_handle c r)

-- `agent_shutdown`, with the handles that `uv_walk` visits.
unfoldable pub agent_shutdown : (ℕ → Stream) → List Handle → Reactor → Reactor
unfolding walk run_closing shutdown_message_context
agent_shutdown streams handles r = run_closing (contexts handles) (
    walk handles
      (record r { agent = shutdown_message_context streams aborted_by_callback r.agent }))

-- `bind_uv_curl_multi` of pointers that are not null: whether `calloc`, the four options and
-- `uv_timer_init` succeed.
unfoldable pub bind_uv_curl_multi : Bool → Bool → Bool → Agent → Option Reactor
bind_uv_curl_multi calloc_ok options_ok timer_ok agent =
    if not calloc_ok || not options_ok || not timer_ok
    then none
    else some (record {
      phase = λ c. absent;
      assigned = λ fd. 0;
      timer = none;
      stopped = false;
      agent = agent;
      allocated = [];
      closed = [];
      freed = [];
    })

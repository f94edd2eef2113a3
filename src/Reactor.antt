-- ===== src/Reactor.antt =====
-- cbits/curl_uv.c: the socket and timer callbacks between libuv and libcurl, for libcurl 7.19.1 and
-- later. A pointer is a number, and 0 is null; `none` is a use of memory that is not there.
pub mod Flags
pub mod Steps
pub mod Safety
pub mod Sockets
pub mod Polls
pub mod Runs
pub mod Closing
pub mod Freeing
pub mod Events
mod Tests
use hcurl.Prelude.{
  ℕ, ◌+◌, Bool, true, false, not, ◌||◌, List, [], ◌∷◌, Option, none, some, ◌==◌, if◌then◌else◌,
}
use hcurl.Agent.{Agent}

-- `socket_context_s` at an address: not there, watched by libuv for some events, or given to
-- `uv_close`, whose callback frees it.
pub data Phase : Type 0 where
  absent : Phase
  open_at : (socket_fd events : ℕ) → Phase
  closing_at : (socket_fd : ℕ) → Phase

-- `multi_context_s`, with the contexts, the pointer that `curl_multi_assign` gave to libcurl for each
-- socket, the timeout for which the timer is started, and the addresses of the contexts that were
-- allocated, passed to `uv_close`, and freed.
pub record Reactor : Type 0 where
  pub phase : ℕ → Phase
  pub assigned : ℕ → ℕ
  pub timer : Option ℕ
  pub stopped : Bool
  pub agent : Agent
  pub allocated : List ℕ
  pub closed : List ℕ
  pub freed : List ℕ

abbrev pub put {ℓ} : {A : Type ℓ} → ℕ → A → (ℕ → A) → ℕ → A
put k v f q = if q == k then v else f q

-- What `calloc`, `uv_poll_init_socket`, `curl_multi_assign` and `uv_poll_start` answer in one call.
pub record SocketAnswers : Type 0 where
  pub context : Option ℕ
  pub init_ok : Bool
  pub assign_ok : Bool
  pub start_ok : Bool

-- `what` of a `CURLMOPT_SOCKETFUNCTION`.
pub data Action : Type 0 where
  poll_in poll_out poll_inout poll_remove poll_other : Action

-- The body of `destroy_socket_context`, at a context in a phase.
abbrev pub close_phase : Phase → ℕ → Reactor → Option Reactor
close_phase absent c r = none
close_phase (closing_at fd) c r = some r
close_phase (open_at fd events) c r =
    some (record r { phase = put c (closing_at fd) r.phase; closed = c ∷ r.closed })

-- `destroy_socket_context`
unfoldable pub destroy_socket_context : ℕ → Reactor → Option Reactor
destroy_socket_context c r = if c == 0 then some r else close_phase (r.phase c) c r

-- `new_socket_context`
unfoldable pub new_socket_context : SocketAnswers → ℕ → Reactor → ℕ × Reactor
new_socket_context answers fd r = elim answers.context [
  | none ↦ (0, r)
  | some c ↦
      if answers.init_ok
      then (c, record r { phase = put c (open_at fd 0) r.phase; allocated = c ∷ r.allocated })
      else (0, record r { allocated = c ∷ r.allocated; freed = c ∷ r.freed })
]

-- The new context in `curl_socket_function`; 0 where that returns -1.
unfoldable pub renew : SocketAnswers → ℕ → Reactor → Option (ℕ × Reactor)
unfolding destroy_socket_context new_socket_context
renew answers fd r =
    let (c, r') = new_socket_context answers fd r in
    if c == 0
    then some (0, r')
    else if answers.assign_ok
    then some (c, record r' { assigned = put fd c r'.assigned })
    else elim (destroy_socket_context c r') [ none ↦ none | some r'' ↦ some (0, r'') ]

-- `!context || uv_is_closing(...)`, and what depends on it.
abbrev pub context_at : Phase → SocketAnswers → ℕ → ℕ → Reactor → Option (ℕ × Reactor)
unfolding renew
context_at absent answers fd c r = none
context_at (closing_at old_fd) answers fd c r = renew answers fd r
context_at (open_at old_fd events) answers fd c r = some (c, r)

unfoldable pub ensure_context : SocketAnswers → ℕ → Reactor → Option (ℕ × Reactor)
unfolding renew
ensure_context answers fd r =
    let c = r.assigned fd in
    if c == 0 then renew answers fd r else context_at (r.phase c) answers fd c r

abbrev pub with_events : ℕ → Phase → Phase
with_events events absent = absent
with_events events (open_at fd old) = open_at fd events
with_events events (closing_at fd) = closing_at fd

-- `uv_poll_start`; the Boolean of the result says that `curl_socket_function` returns 0.
abbrev pub start_poll : Bool → ℕ → ℕ → Reactor → Bool × Reactor
start_poll start_ok events c r =
    if c == 0
    then (false, r)
    else if start_ok
    then (true, record r { phase = put c (with_events events (r.phase c)) r.phase })
    else (false, r)

unfoldable pub poll_for : SocketAnswers → ℕ → ℕ → Reactor → Option (Bool × Reactor)
unfolding ensure_context
poll_for answers events fd r = elim (ensure_context answers fd r) [
  | none ↦ none
  | some k ↦ some (start_poll answers.start_ok events k.0 k.1)
]

-- `curl_socket_function`. libcurl passes the pointer that is assigned to the socket; `UV_READABLE` is
-- 1 and `UV_WRITABLE` 2.
unfoldable pub curl_socket_function : SocketAnswers → Action → ℕ → Reactor → Option (Bool × Reactor)
unfolding poll_for destroy_socket_context
curl_socket_function answers poll_in fd r = poll_for answers 1 fd r
curl_socket_function answers poll_out fd r = poll_for answers 2 fd r
curl_socket_function answers poll_inout fd r = poll_for answers 3 fd r
curl_socket_function answers poll_remove fd r =
    elim (destroy_socket_context (r.assigned fd) (record r { assigned = put fd 0 r.assigned })) [
      | none ↦ none
      | some r' ↦ some (true, r')
    ]
curl_socket_function answers poll_other fd r = some (false, r)

-- `curl_timer_function`, of a timeout that may be negative; the Boolean is what libuv answers.
unfoldable pub curl_timer_function : Bool → Option ℕ → Reactor → Bool × Reactor
curl_timer_function uv_ok none r = if uv_ok then (true, record r { timer = none }) else (false, r)
curl_timer_function uv_ok (some timeout_ms) r =
    if uv_ok then (true, record r { timer = some timeout_ms }) else (false, r)

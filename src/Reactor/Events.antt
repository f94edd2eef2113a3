-- ===== src/Reactor/Events.antt =====
-- cbits/curl_uv.c with cbits/message_chan.c: the agent's thread, whatever libuv calls, in any order.
use mathlib.Core.Path.{subst}
use hcurl.Prelude.{ℕ, ◌≡◌, refl, inl, Bool, true, false, List, [], ◌∷◌, Option, none, some, arith}
use hcurl.Agent.{Agent}
use hcurl.Agent.Invariant.{IsValid}
use hcurl.Agent.Steps
use hcurl.Agent.Settling.{step-Went}
use hcurl.Reactor.{absent, Reactor}
use hcurl.Reactor.Safety.{live, IsSafe}
use hcurl.Reactor.Steps.{
  Drive, drive_multi_socket, socket_callback, on_timeout, destroy_socket_context_cb, is_closing,
  bind_uv_curl_multi,
}
use hcurl.Reactor.Runs.{FairCalls, After, Forgotten, socket_callback-Kept, on_timeout-Kept}
use hcurl.Reactor.Freeing.{callback-IsSafe}

-- A call of `socket_callback`, of `on_timeout`, of the callback of `uv_close`; and what happens to the
-- agent's messages.
pub data Event : Type 0 where
  socket_event : Drive → (context : ℕ) → Event
  timer_event : Drive → Event
  closed_event : (context : ℕ) → Event
  agent_event : Steps.Event → Event

unfoldable pub step : Event → Reactor → Option Reactor
unfolding socket_callback on_timeout destroy_socket_context_cb Steps.step
step (socket_event d c) r = socket_callback d c r
step (timer_event d) r = on_timeout d r
step (closed_event c) r = some (destroy_socket_context_cb c r)
step (agent_event e) r = elim (Steps.step e r.agent) [
  | none ↦ none
  | some k ↦ some (record r { agent = k.1 })
]

unfoldable pub run : List Event → Reactor → Option Reactor
unfolding step
run [] r = some r
run (e ∷ events) r = elim (step e r) [ none ↦ none | some r' ↦ run events r' ]

-- libuv calls `socket_callback` for a context that is there, and the callback of `uv_close` for one
-- that is closing; libcurl forgets a socket before it calls it a bad one; `calloc` gives fresh memory.
abbrev pub FairAt : Event → Reactor → Type 0
FairAt (socket_event d c) r =
    (live (r.phase c) ≡ 1)
    × FairCalls d.calls r
    × After (Forgotten d.code c) (drive_multi_socket d.calls r)
FairAt (timer_event d) r = FairCalls d.calls r
FairAt (closed_event c) r = is_closing (r.phase c) ≡ true
FairAt (agent_event e) r = Steps.FairAt e r.agent

abbrev pub AreFair : List Event → Reactor → Type 0
AreFair [] r = Unit
AreFair (e ∷ events) r = FairAt e r × After (AreFair events) (step e r)

-- The code ran without a fault.
abbrev Goes : Option Reactor → Type 0
Goes result = (r' : Reactor) × (result ≡ some r') × IsSafe r'

step_lem : (e : Event) {r : Reactor} → IsSafe r → FairAt e r → Goes (step e r)
unfolding step
step_lem (socket_event d c) v fair =
    let (r', ran, h) = socket_callback-Kept d c v fair.0 fair.1 fair.2 in (r', ran, h.safe)
step_lem (timer_event d) v fair = let (r', ran, h) = on_timeout-Kept d v fair in (r', ran, h.safe)
step_lem (closed_event c) {r} v fair =
    (destroy_socket_context_cb c r, refl, callback-IsSafe c v fair)
step_lem (agent_event e) {r} v fair =
    let (accepted, a, ran, w) = step-Went e v.agent fair in
    (
      record r { agent = a },
      rw (step, ran) refl,
      record { agent = w.valid; linked = v.linked; allocs = v.allocs; closes = v.closes },
    )

run_lem : (events : List Event) {r : Reactor} → IsSafe r → AreFair events r → Goes (run events r)
unfolding run
run_lem [] {r} v fair = (r, refl, v)
run_lem (e ∷ events) {r} v fair =
    let (r', ran, h) = step_lem e v fair.0 in
    let (r'', later, k) = run_lem events h (subst (After (AreFair events)) ran fair.1) in
    (r'', rw (run, ran) later, k)

bind-IsSafe :
    (calloc_ok options_ok timer_ok : Bool) (agent : Agent) {r : Reactor}
    → IsValid agent
    → bind_uv_curl_multi calloc_ok options_ok timer_ok agent ≡ some r
    → IsSafe r
unfolding bind_uv_curl_multi
bind-IsSafe true true true agent {r} v e =
    let start : Reactor = record {
      phase = λ c. absent;
      assigned = λ fd. 0;
      timer = none;
      stopped = false;
      agent = agent;
      allocated = [];
      closed = [];
      freed = [];
    } in
    let same : start ≡ r = ground (arith, e) in
    subst IsSafe same
      (record { agent = v; linked = λ fd. inl refl; allocs = λ c. refl; closes = λ c. omega arith })
bind-IsSafe true true false agent v e = cc e
bind-IsSafe true false timer_ok agent v e = cc e
bind-IsSafe false options_ok timer_ok agent v e = cc e

-- From `bind_uv_curl_multi` on, at a valid agent: in any order of libuv's callbacks, of libcurl's
-- calls within them and of the agent's messages that is fair, no memory is used after it was freed,
-- neither a context of a socket nor a transfer; and what libcurl has for a socket is null or an open
-- context of this socket.
pub run-IsSafe :
    (calloc_ok options_ok timer_ok : Bool) (agent : Agent) (events : List Event) (r : Reactor)
    → IsValid agent
    → bind_uv_curl_multi calloc_ok options_ok timer_ok agent ≡ some r
    → AreFair events r
    → (end : Reactor) × (run events r ≡ some end) × IsSafe end
run-IsSafe calloc_ok options_ok timer_ok agent events r v bound fair =
    run_lem events (bind-IsSafe calloc_ok options_ok timer_ok agent v bound) fair

-- ===== src/Reactor/Runs.antt =====
-- cbits/curl_uv.c: the callbacks of libuv, in any order.
use hcurl.Prelude.{
  ℕ, ◌≤◌, ◌≡◌, ◌≢◌, refl, inl, inr, Bool, true, List, [], ◌∷◌, Option, none, some, arith,
  Bool-cases,
}
use mathlib.Core.Path.{subst}
use hcurl.Agent.{Agent}
use hcurl.Agent.Completion.{check_multi_info-Handled}
use hcurl.Agent.Shutdown.{shutdown-Shut}
use hcurl.Agent.Invariant.{IsValid}
use hcurl.Reactor.{Phase, absent, open_at, closing_at, Reactor, curl_timer_function}
use hcurl.Reactor.Safety.{live, IsSafe, Kept, stay, then_Kept, destroy-Kept}
use hcurl.Reactor.Sockets.{IsFresh}
use hcurl.Reactor.Polls.{socket-Kept, timer-Kept}
use hcurl.Reactor.Steps.{
  MultiCode, multi_ok, bad_socket, failed, Call, socket_call, timer_call, Drive, call,
  drive_multi_socket, check, stop_reactor, after_socket, socket_callback, on_timeout, is_ok,
  recv_error, operation_timedout,
}

-- The code ran without a fault, and kept the contexts safe.
abbrev pub Ran : Reactor → Option Reactor → Type 0
Ran r result = (r' : Reactor) × (result ≡ some r') × Kept r r'

abbrev pub FairCall : Call → Reactor → Type 0
FairCall (socket_call answers action fd) r = IsFresh answers r
FairCall (timer_call uv_ok timeout) r = Unit

-- What holds of the reactor after some calls.
abbrev pub After : (Reactor → Type 0) → Option Reactor → Type 0
After P none = Unit
After P (some r) = P r

abbrev pub FairCalls : List Call → Reactor → Type 0
FairCalls [] r = Unit
FairCalls (c ∷ calls) r = FairCall c r × After (FairCalls calls) (call c r)

call-Kept : (c : Call) {r : Reactor} → IsSafe r → FairCall c r → Ran r (call c r)
unfolding call
call-Kept (socket_call answers action fd) v fair =
    let (k, ran, h) = socket-Kept answers action fd v fair in (k.1, rw ran refl, h)
call-Kept (timer_call uv_ok timeout) {r} v fair =
    ((curl_timer_function uv_ok timeout r).1, refl, timer-Kept uv_ok timeout v)

drive-Kept :
    (calls : List Call) {r : Reactor}
    → IsSafe r
    → FairCalls calls r
    → Ran r (drive_multi_socket calls r)
unfolding drive_multi_socket
drive-Kept [] {r} v fair = (r, refl, stay v)
drive-Kept (c ∷ calls) {r} v fair =
    let (r', ran, h) = call-Kept c v fair.0 in
    let (r'', later, k) = drive-Kept calls h.safe (subst (After (FairCalls calls)) ran fair.1) in
    (r'', rw (drive_multi_socket, ran) later, then_Kept h k)

agent-Kept :
    {r : Reactor} (a : Agent) (b : Bool)
    → IsSafe r
    → IsValid a
    → Kept r (record r { agent = a; stopped = b })
agent-Kept a b v valid = record {
  safe = record { agent = valid; linked = v.linked; allocs = v.allocs; closes = v.closes };
  stays = λ c. omega arith;
}

check-Kept : (d : Drive) {r : Reactor} → IsSafe r → Ran r (check d r)
unfolding check
check-Kept d {r} v =
    let (a, ran, h) = check_multi_info-Handled d.streams d.done v.agent in
    (record r { agent = a }, rw (check, ran) refl, agent-Kept a r.stopped v h.valid)

stop-Kept : (d : Drive) (code : ℕ) {r : Reactor} → IsSafe r → Kept r (stop_reactor d code r)
unfolding stop_reactor
stop-Kept d code v = let s = shutdown-Shut d.streams code v.agent in agent-Kept _ true v s.valid

-- libcurl answers `CURLM_BAD_SOCKET` for a socket of which it knows nothing.
abbrev pub Forgotten : MultiCode → ℕ → Reactor → Type 0
Forgotten multi_ok c r = Unit
Forgotten bad_socket c r = (fd : ℕ) → r.assigned fd ≢ c
Forgotten failed c r = Unit

after_socket-Kept :
    (code : MultiCode) (d : Drive) (c : ℕ) {r : Reactor}
    → IsSafe r
    → live (r.phase c) ≡ 1
    → Forgotten code c r
    → Ran r (after_socket code d c r)
unfolding after_socket
after_socket-Kept multi_ok d c v there fair = check-Kept d v
after_socket-Kept bad_socket d c v there fair =
    let (r', ran, h) = destroy-Kept c v (λ n. there) (λ fd e. absurd (fair fd e)) in
    let (r'', later, k) = check-Kept d h.safe in (r'', rw (after_socket, ran) later, then_Kept h k)
after_socket-Kept failed d c {r} v there fair =
    (stop_reactor d recv_error r, refl, stop-Kept d recv_error v)

live-le : (p : Phase) → live p ≤ 1
live-le absent = omega arith
live-le (open_at fd events) = omega arith
live-le (closing_at fd) = omega arith

pub socket_callback-Kept :
    (d : Drive) (c : ℕ) {r : Reactor}
    → IsSafe r
    → live (r.phase c) ≡ 1
    → FairCalls d.calls r
    → After (Forgotten d.code c) (drive_multi_socket d.calls r)
    → Ran r (socket_callback d c r)
unfolding socket_callback
socket_callback-Kept d c {r} v there fair forgotten =
    let (r', ran, h) = drive-Kept d.calls v fair in
    let (r'', later, k) =
      after_socket-Kept d.code d c h.safe (omega (arith, there, h.stays c, live-le (r'.phase c)))
        (subst (After (Forgotten d.code c)) ran forgotten) in
    (r'', rw (socket_callback, ran) later, then_Kept h k)

pub on_timeout-Kept :
    (d : Drive) {r : Reactor} → IsSafe r → FairCalls d.calls r → Ran r (on_timeout d r)
unfolding on_timeout
on_timeout-Kept d {r} v fair =
    let (r', ran, h) = drive-Kept d.calls v fair in
    elim (Bool-cases (is_ok d.code)) [
      | inl e ↦
          let (r'', later, k) = check-Kept d h.safe in
          (r'', rw (on_timeout, ran, e) later, then_Kept h k)
      | inr e ↦ (
        stop_reactor d operation_timedout r',
        rw (on_timeout, ran, e) refl,
        then_Kept h (stop-Kept d operation_timedout h.safe),
      )
    ]

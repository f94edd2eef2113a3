-- ===== src/Reactor/Polls.antt =====
-- cbits/curl_uv.c: `curl_socket_function` and `curl_timer_function`, on every branch.
use hcurl.Prelude.{
  ℕ, ◌≡◌, ◌≢◌, refl, sym, ap, ◌∙◌, inl, inr, Bool, true, false, Option, none, some, arith, ◌==◌,
  ==_iff, Bool-cases, Option-cases,
}
use hcurl.Reactor.{
  Phase, absent, open_at, closing_at, Reactor, put, SocketAnswers, Action, poll_in, poll_out,
  poll_inout, poll_remove, poll_other, ensure_context, with_events, start_poll, poll_for,
  curl_socket_function, curl_timer_function,
}
use hcurl.Reactor.Safety.{live, opened, IsSafe, Kept, stay, then_Kept, destroy-Kept}
use hcurl.Reactor.Sockets.{IsFresh, Renews, renew-Kept}

live-with_events : (events : ℕ) (p : Phase) → live (with_events events p) ≡ live p
live-with_events events absent = refl
live-with_events events (open_at fd old) = refl
live-with_events events (closing_at fd) = refl

opened-with_events : (events : ℕ) (p : Phase) → opened (with_events events p) ≡ opened p
opened-with_events events absent = refl
opened-with_events events (open_at fd old) = refl
opened-with_events events (closing_at fd) = refl

put-same :
    (f : Phase → ℕ) (events c : ℕ) (phase : ℕ → Phase)
    → ((p : Phase) → f (with_events events p) ≡ f p)
    → (d : ℕ) → f (put c (with_events events (phase c)) phase d) ≡ f (phase d)
put-same f events c phase same d = elim (Bool-cases (d == c)) [
  | inl k ↦
      let at_c : phase d ≡ phase c = ap phase ((==_iff d c).0 k) in
      rw k (same (phase c) ∙ sym (ap f at_c))
  | inr k ↦ rw k refl
]

watch-Kept :
    (events c : ℕ) {r : Reactor}
    → IsSafe r
    → Kept r (record r { phase = put c (with_events events (r.phase c)) r.phase })
watch-Kept events c {r} v = record {
  safe = record {
    agent = v.agent;
    linked = λ fd. elim (v.linked fd) [
      | inl null ↦ inl null
      | inr (old, e) ↦ elim (Bool-cases (r.assigned fd == c)) [
        | inl k ↦
            let at_c = (==_iff (r.assigned fd) c).0 k in
            let there : r.phase c ≡ open_at fd old = sym (ap r.phase at_c) ∙ e in
            inr (events, rw (k, there) refl)
        | inr k ↦ inr (old, rw k e)
      ]
    ];
    allocs =
        λ d. omega (arith, v.allocs d, put-same live events c r.phase (live-with_events events) d);
    closes = λ d.
        omega (arith, v.closes d, put-same opened events c r.phase (opened-with_events events) d);
  };
  stays = λ d. omega (arith, put-same live events c r.phase (live-with_events events) d);
}

start_poll-Kept :
    (start_ok : Bool) (events c : ℕ) {r : Reactor}
    → IsSafe r
    → Kept r (start_poll start_ok events c r).1
start_poll-Kept start_ok events c {r} v = elim (Bool-cases (c == 0)) [
  | inl e ↦ rw e (stay v)
  | inr e ↦ elim (Bool-cases start_ok) [
    | inl k ↦ rw (e, k) (watch-Kept events c v)
    | inr k ↦ rw (e, k) (stay v)
  ]
]

ensure_context-Kept :
    (answers : SocketAnswers) (fd : ℕ) {r : Reactor}
    → IsSafe r
    → IsFresh answers r
    → Renews r (ensure_context answers fd r)
unfolding ensure_context
ensure_context-Kept answers fd {r} v fresh = elim (Bool-cases (r.assigned fd == 0)) [
  | inl e ↦ rw e (renew-Kept answers fd v fresh)
  | inr e ↦ elim (v.linked fd) [
    | inl null ↦ absurd (ground (arith, e, null))
    | inr (events, k) ↦ ((r.assigned fd, r), rw (e, k) refl, stay v)
  ]
]

-- The code ran without a fault, and kept the contexts safe.
abbrev pub Answered : Reactor → Option (Bool × Reactor) → Type 0
Answered r result = (k : Bool × Reactor) × (result ≡ some k) × Kept r k.1

poll_for-Kept :
    (answers : SocketAnswers) (events fd : ℕ) {r : Reactor}
    → IsSafe r
    → IsFresh answers r
    → Answered r (poll_for answers events fd r)
unfolding poll_for
poll_for-Kept answers events fd v fresh =
    let (k, ran, h) = ensure_context-Kept answers fd v fresh in
    (
      start_poll answers.start_ok events k.0 k.1,
      rw (poll_for, ran) refl,
      then_Kept h (start_poll-Kept answers.start_ok events k.0 h.safe),
    )

forget-Kept :
    (fd : ℕ) {r : Reactor} → IsSafe r → Kept r (record r { assigned = put fd 0 r.assigned })
forget-Kept fd {r} v = record {
  safe = record {
    agent = v.agent;
    linked =
        λ f. elim (Bool-cases (f == fd)) [ inl e ↦ inl (rw e refl) | inr e ↦ rw e (v.linked f) ];
    allocs = v.allocs;
    closes = v.closes;
  };
  stays = λ c. omega arith;
}

-- A pointer of libcurl belongs to one socket.
one_socket :
    {r : Reactor} (v : IsSafe r) (f fd : ℕ)
    → r.assigned f ≡ r.assigned fd
    → (f == fd) ≡ false
    → r.assigned fd ≡ 0
one_socket {r} v f fd e other = elim (v.linked f) [
  | inl null ↦ sym e ∙ null
  | inr (events, k) ↦ elim (v.linked fd) [
    | inl null ↦ null
    | inr (events', k') ↦
        let both : open_at f events ≡ open_at fd events' = sym k ∙ ap r.phase e ∙ k' in
        absurd (ground (arith, both, other))
  ]
]

remove-Kept :
    (answers : SocketAnswers) (fd : ℕ) {r : Reactor}
    → IsSafe r
    → Answered r (curl_socket_function answers poll_remove fd r)
unfolding curl_socket_function
remove-Kept answers fd {r} v =
    let h = forget-Kept fd v in
    let there : r.assigned fd ≢ 0 → live (r.phase (r.assigned fd)) ≡ 1 =
      λ n. elim (v.linked fd) [ inl null ↦ absurd (n null) | inr (events, k) ↦ ap live k ] in
    let alone : (f : ℕ) → put fd 0 r.assigned f ≡ r.assigned fd → r.assigned fd ≡ 0 = λ f e.
      elim (Bool-cases (f == fd)) [
        | inl k ↦ sym (sym (rw k refl) ∙ e)
        | inr k ↦ one_socket v f fd (sym (rw k refl) ∙ e) k
      ] in
    let (r', ran, k) = destroy-Kept (r.assigned fd) h.safe there alone in
    ((true, r'), rw (curl_socket_function, ran) refl, then_Kept h k)

-- `curl_socket_function`, whatever libcurl asks for.
pub socket-Kept :
    (answers : SocketAnswers) (action : Action) (fd : ℕ) {r : Reactor}
    → IsSafe r
    → IsFresh answers r
    → Answered r (curl_socket_function answers action fd r)
unfolding curl_socket_function
socket-Kept answers poll_in fd v fresh = poll_for-Kept answers 1 fd v fresh
socket-Kept answers poll_out fd v fresh = poll_for-Kept answers 2 fd v fresh
socket-Kept answers poll_inout fd v fresh = poll_for-Kept answers 3 fd v fresh
socket-Kept answers poll_remove fd v fresh = remove-Kept answers fd v
socket-Kept answers poll_other fd {r} v fresh = ((false, r), refl, stay v)

pub timer-Kept :
    (uv_ok : Bool) (timeout : Option ℕ) {r : Reactor}
    → IsSafe r
    → Kept r (curl_timer_function uv_ok timeout r).1
unfolding curl_timer_function
timer-Kept uv_ok timeout {r} v = elim (Bool-cases uv_ok) [
  | inl k ↦ elim (Option-cases timeout) [
    | inl e ↦ rw (e, k) (timed none)
    | inr (ms, e) ↦ rw (e, k) (timed (some ms))
  ]
  | inr k ↦ elim (Option-cases timeout) [
    | inl e ↦ rw (e, k) (stay v)
    | inr (ms, e) ↦ rw (e, k) (stay v)
  ]
]
  where
    timed : (t : Option ℕ) → Kept r (record r { timer = t })
    timed t = record {
      safe = record { agent = v.agent; linked = v.linked; allocs = v.allocs; closes = v.closes };
      stays = λ c. omega arith;
    }

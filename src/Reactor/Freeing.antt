-- ===== src/Reactor/Freeing.antt =====
-- cbits/curl_uv.c: `agent_shutdown` frees every context.
use hcurl.Prelude.{
  ℕ, ◌≤◌, ◌<◌, ◌≡◌, refl, sym, ap, ◌∙◌, inl, inr, true, false, List, [], ◌∷◌, arith, ◌==◌, ==_iff,
  Bool-cases,
}
use hcurl.Stream.State.{Stream, aborted_by_callback}
use hcurl.Agent.Loop.{shutdown_message_context}
use hcurl.Agent.Shutdown.{shutdown-Shut}
use hcurl.Reactor.{Phase, absent, open_at, closing_at, Reactor}
use hcurl.Reactor.Safety.{count, live, opened, IsSafe, put-Linked}
use hcurl.Reactor.Steps.{
  Handle, contexts, destroy_socket_context_cb, is_closing, closed_handle, walk, run_closing,
  agent_shutdown,
}
use hcurl.Reactor.Closing.{Counted, walk-Walked}

closing_live : (p : Phase) → is_closing p ≡ true → (live p ≡ 1) × (opened p ≡ 0)
closing_live absent e = cc e
closing_live (open_at fd events) e = cc e
closing_live (closing_at fd) e = (refl, refl)

not_closing : (p : Phase) → is_closing p ≡ false → live p ≡ opened p
not_closing absent e = refl
not_closing (open_at fd events) e = refl
not_closing (closing_at fd) e = cc e

-- The callback of `uv_close` frees a context that is there.
callback-Counted :
    (c : ℕ) {r : Reactor}
    → Counted r
    → is_closing (r.phase c) ≡ true
    → Counted (destroy_socket_context_cb c r)
unfolding destroy_socket_context_cb
callback-Counted c {r} v closing = record {
  allocs = λ d. elim (Bool-cases (d == c)) [
    | inl k ↦
        let back : (c == d) ≡ true = ground (arith, k) in
        let at_c = ap r.phase ((==_iff d c).0 k) in
        rw (k, back) (omega (arith, v.allocs d, ap live at_c, (closing_live (r.phase c) closing).0))
    | inr k ↦
        let back : (c == d) ≡ false = ground (arith, k) in rw (k, back) (omega (arith, v.allocs d))
  ];
  closes = λ d. elim (Bool-cases (d == c)) [
    | inl k ↦ rw k (omega (arith, v.closes d))
    | inr k ↦ rw k (v.closes d)
  ];
}

-- The runs of the loop: what is closing goes away.
record Emptied (handles : List ℕ) (r r' : Reactor) : Type 0 where
  counted : Counted r'
  fewer : (d : ℕ) → live (r'.phase d) ≤ live (r.phase d)
  less_open : (d : ℕ) → opened (r'.phase d) ≤ opened (r.phase d)
  gone : (d : ℕ) → 0 < count d handles → opened (r.phase d) ≡ 0 → live (r'.phase d) ≡ 0
  agent : r'.agent ≡ r.agent

closed_handle-Emptied : (c : ℕ) {r : Reactor} → Counted r → Emptied (c ∷ []) r (closed_handle c r)
unfolding closed_handle destroy_socket_context_cb
closed_handle-Emptied c {r} v = elim (Bool-cases (is_closing (r.phase c))) [
  | inl e ↦ rw e (record {
    counted = callback-Counted c v e;
    fewer =
        λ d. elim (Bool-cases (d == c)) [ inl k ↦ rw k (omega arith) | inr k ↦ rw k (omega arith) ];
    less_open =
        λ d. elim (Bool-cases (d == c)) [ inl k ↦ rw k (omega arith) | inr k ↦ rw k (omega arith) ];
    gone = λ d h o. elim (Bool-cases (d == c)) [
      | inl k ↦ rw k refl
      | inr k ↦ let back : (c == d) ≡ false = ground (arith, k) in absurd (ground (arith, h, back))
    ];
    agent = refl;
  })
  | inr e ↦ rw e (record {
    counted = v;
    fewer = λ d. omega arith;
    less_open = λ d. omega arith;
    gone = λ d h o. elim (Bool-cases (c == d)) [
      | inl k ↦
          let at_d = ap r.phase ((==_iff c d).0 k) in
          omega (arith, not_closing (r.phase c) e, ap live at_d, ap opened at_d, o)
      | inr k ↦ absurd (ground (arith, h, k))
    ];
    agent = refl;
  })
]

run_closing-Emptied :
    (handles : List ℕ) {r : Reactor} → Counted r → Emptied handles r (run_closing handles r)
unfolding run_closing
run_closing-Emptied [] v = record {
  counted = v;
  fewer = λ d. omega arith;
  less_open = λ d. omega arith;
  gone = λ d h o. absurd (omega arith);
  agent = refl;
}
run_closing-Emptied (c ∷ handles) {r} v =
    let s = closed_handle-Emptied c v in
    let w = run_closing-Emptied handles s.counted in
    record {
      counted = w.counted;
      fewer = λ d. omega (arith, w.fewer d, s.fewer d);
      less_open = λ d. omega (arith, w.less_open d, s.less_open d);
      gone = λ d h o. elim (Bool-cases (c == d)) [
        | inl k ↦ omega (arith, w.fewer d, s.gone d (ground (arith, k)) o)
        | inr k ↦ w.gone d (ground (arith, h, k)) (omega (arith, s.less_open d, o))
      ];
      agent = w.agent ∙ s.agent;
    }

-- `agent_shutdown` of a safe reactor, where `uv_walk` visits every context that is there, among other
-- handles: each
-- address was freed exactly as often as it was allocated, and never passed to `uv_close` more often;
-- the agent has no transfer left.
pub agent_shutdown-frees :
    (streams : ℕ → Stream) (handles : List Handle) (c : ℕ) (r : Reactor)
    → IsSafe r
    → ((d : ℕ) → live (r.phase d) ≤ count d (contexts handles))
    → let end = agent_shutdown streams handles r in
      (count c end.freed ≡ count c end.allocated)
      × (count c end.closed ≤ count c end.allocated)
      × (end.agent.registry.buckets ≡ [])
unfolding agent_shutdown
agent_shutdown-frees streams handles c r v visited =
    let down : Reactor = record r {
      agent = shutdown_message_context streams aborted_by_callback r.agent;
    } in
    let counted : Counted down = record { allocs = v.allocs; closes = v.closes } in
    let w = walk-Walked handles counted in
    let e = run_closing-Emptied (contexts handles) w.counted in
    let gone : live ((run_closing (contexts handles) (walk handles down)).phase c) ≡ 0 =
      elim (Bool-cases (count c (contexts handles) == 0)) [
        | inl k ↦
            omega
              (arith, e.fewer c, w.same c, visited c, (==_iff (count c (contexts handles)) 0).0 k)
        | inr k ↦
            let some_there : 0 < count c (contexts handles) = ground (arith, k) in
            e.gone c some_there (w.shut c some_there)
      ] in
    (
      omega (arith, e.counted.allocs c, gone),
      omega (arith, e.counted.closes c),
      ap (λ a. a.registry.buckets) (e.agent ∙ w.agent)
          ∙ (shutdown-Shut streams aborted_by_callback v.agent).empty,
    )

-- `destroy_socket_context_cb` for a handle that was closed.
pub callback-IsSafe :
    (c : ℕ) {r : Reactor}
    → IsSafe r
    → is_closing (r.phase c) ≡ true
    → IsSafe (destroy_socket_context_cb c r)
unfolding destroy_socket_context_cb
callback-IsSafe c {r} v closing =
    let k = callback-Counted c {r = r} (record { allocs = v.allocs; closes = v.closes }) closing in
    record {
      agent = v.agent;
      linked = λ fd. put-Linked c absent r.assigned r.phase fd (unlinked fd) (v.linked fd);
      allocs = k.allocs;
      closes = k.closes;
    }
  where
    unlinked : (fd : ℕ) → r.assigned fd ≡ c → c ≡ 0
    unlinked fd e = elim (v.linked fd) [
      | inl null ↦ sym e ∙ null
      | inr (events, there) ↦
          let at_c : r.phase c ≡ open_at fd events = sym (ap r.phase e) ∙ there in
          absurd (omega (arith, ap opened at_c, (closing_live (r.phase c) closing).1))
    ]

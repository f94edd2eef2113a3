-- ===== src/Reactor/Closing.antt =====
-- cbits/curl_uv.c: `uv_walk` in `agent_shutdown` closes every context.
use hcurl.Prelude.{
  ℕ, ◌+◌, ◌≤◌, ◌<◌, ◌≡◌, refl, sym, ap, ◌∙◌, inl, inr, true, false, List, [], ◌∷◌, arith, ◌==◌,
  ==_iff, Bool-cases,
}
use hcurl.Reactor.{open_at, closing_at, Reactor, put}
use hcurl.Reactor.Safety.{count, live, opened, phase-cases}
use hcurl.Reactor.Steps.{Handle, uv_poll, uv_other, contexts, close_poll, walk}

-- What stays true of the counts once libcurl is gone.
pub record Counted (r : Reactor) : Type 0 where
  pub allocs : (c : ℕ) → count c r.allocated ≡ count c r.freed + live (r.phase c)
  pub closes : (c : ℕ) → count c r.closed + opened (r.phase c) ≤ count c r.allocated

-- A handle is closed: its context is open no more.
record Shuts (c : ℕ) (r r' : Reactor) : Type 0 where
  counted : Counted r'
  same : (d : ℕ) → live (r'.phase d) ≡ live (r.phase d)
  fewer : (d : ℕ) → opened (r'.phase d) ≤ opened (r.phase d)
  shut : opened (r'.phase c) ≡ 0
  agent : r'.agent ≡ r.agent

close_poll-Shuts : (c : ℕ) {r : Reactor} → Counted r → Shuts c r (close_poll (r.phase c) c r)
close_poll-Shuts c {r} v = elim (phase-cases (r.phase c)) [
  | inl gone ↦ rw gone (record {
    counted = v;
    same = λ d. refl;
    fewer = λ d. omega arith;
    shut = ap opened gone;
    agent = refl;
  })
  | inr (inr (fd, e)) ↦ rw e (record {
    counted = v;
    same = λ d. refl;
    fewer = λ d. omega arith;
    shut = ap opened e;
    agent = refl;
  })
  | inr (inl (fd, events, e)) ↦ rw e (closing fd events e)
]
  where
    at_c :
        (fd events d : ℕ)
        → r.phase c ≡ open_at fd events
        → (d == c) ≡ true
        → r.phase d ≡ open_at fd events
    at_c fd events d e k = ap r.phase ((==_iff d c).0 k) ∙ e

    closing :
        (fd events : ℕ)
        → r.phase c ≡ open_at fd events
        → Shuts c r (record r { phase = put c (closing_at fd) r.phase; closed = c ∷ r.closed })
    closing fd events e =
        let self : (c == c) ≡ true = ground arith in
        record {
          counted = record {
            allocs = λ d. elim (Bool-cases (d == c)) [
              | inl k ↦ rw k (omega (arith, v.allocs d, ap live (at_c fd events d e k)))
              | inr k ↦ rw k (v.allocs d)
            ];
            closes = λ d. elim (Bool-cases (d == c)) [
              | inl k ↦
                  let back : (c == d) ≡ true = ground (arith, k) in
                  rw (k, back) (omega (arith, v.closes d, ap opened (at_c fd events d e k)))
              | inr k ↦
                  let back : (c == d) ≡ false = ground (arith, k) in
                  rw (k, back) (omega (arith, v.closes d))
            ];
          };
          same = λ d. elim (Bool-cases (d == c)) [
            | inl k ↦ rw k (sym (ap live (at_c fd events d e k)))
            | inr k ↦ rw k refl
          ];
          fewer = λ d. elim (Bool-cases (d == c)) [
            | inl k ↦ rw k (omega arith)
            | inr k ↦ rw k (omega arith)
          ];
          shut = rw self refl;
          agent = refl;
        }

-- `uv_walk`: no handle that it visits is open afterwards.
pub record Walked (handles : List Handle) (r r' : Reactor) : Type 0 where
  pub counted : Counted r'
  pub same : (d : ℕ) → live (r'.phase d) ≡ live (r.phase d)
  pub fewer : (d : ℕ) → opened (r'.phase d) ≤ opened (r.phase d)
  pub shut : (d : ℕ) → 0 < count d (contexts handles) → opened (r'.phase d) ≡ 0
  pub agent : r'.agent ≡ r.agent

pub walk-Walked :
    (handles : List Handle) {r : Reactor} → Counted r → Walked handles r (walk handles r)
unfolding walk
walk-Walked [] v = record {
  counted = v;
  same = λ d. refl;
  fewer = λ d. omega arith;
  shut = λ d h. absurd (omega arith);
  agent = refl;
}
walk-Walked (uv_other ∷ handles) {r} v =
    let w = walk-Walked handles v in
    record { counted = w.counted; same = w.same; fewer = w.fewer; shut = w.shut; agent = w.agent }
walk-Walked (uv_poll c ∷ handles) {r} v =
    let s = close_poll-Shuts c v in
    let w = walk-Walked handles s.counted in
    record {
      counted = w.counted;
      same = λ d. w.same d ∙ s.same d;
      fewer = λ d. omega (arith, w.fewer d, s.fewer d);
      shut = λ d h. elim (Bool-cases (c == d)) [
        | inl k ↦
            let e = (==_iff c d).0 k in
            omega
              (arith, w.fewer d, s.shut, ap (λ q. opened ((close_poll (r.phase c) c r).phase q)) e)
        | inr k ↦ w.shut d (ground (arith, h, k))
      ];
      agent = w.agent ∙ s.agent;
    }

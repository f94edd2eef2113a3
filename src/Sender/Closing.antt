-- ===== src/Sender/Closing.antt =====
-- cbits/message_chan.c: the close of a sender ends, and is woken by the last producer.
use mathlib.Core.Path.{subst, ap₂}
use hcurl.Prelude.{
  ℕ, suc, ◌+◌, ◌*◌, ◌-◌, ◌^◌, ◌<◌, ◌≤◌, ◌≡◌, refl, ap, ◌∙◌, ◌⊎◌, inl, inr, Bool, true, false, arith,
  ◌↔◌, sym, ◌==◌, ==_iff, Bool-cases, true-ne-false, if◌then◌else◌,
}
use hcurl.Sender.{producers, enter, leave}
use hcurl.Sender.Interleaving.{
  Closer, Phase, testing, checked, asleep, System, Step, Reachable, Holds, word, closing, is_done,
  is_waiting, has_tested, signalled,
}
use hcurl.Sender.Protocol.{enter_lem, Step-Holds, Reachable-Holds}

-- A wake-up that no signal caused.
abbrev pub is_spurious : {s t : System} → Step s t → Bool
is_spurious (Step.enters w e) = false
is_spurious (Step.leaves pos) = false
is_spurious (Step.signals pos free) = false
is_spurious (Step.marks e) = false
is_spurious (Step.checks e p some_in) = false
is_spurious (Step.sleeps e p) = false
is_spurious (Step.wakes e p) = true
is_spurious (Step.finishes e p none_in) = false

-- A run of so many steps, none of them a spurious wake-up.
pub data Reaches : ℕ → System → System → Type 0 where
  here : {s : System} → Reaches 0 s s
  next :
      {n : ℕ} {s t u : System} (st : Step s t)
      → is_spurious st ≡ false
      → Reaches n t u
      → Reaches (suc n) s u

-- How many steps may be left.
abbrev pub rank : Closer → Phase → ℕ
rank Closer.idle p = 0
rank Closer.done p = 0
rank Closer.waiting testing = 3
rank Closer.waiting checked = 2
rank Closer.waiting asleep = 1

abbrev pub measure : System → ℕ
measure s = 4 * s.inside + 3 * s.signalling + rank s.closer s.phase

rank-signalled : (c : Closer) (p : Phase) → rank c (signalled p) ≤ rank c p + 2
rank-signalled Closer.idle p = omega arith
rank-signalled Closer.done p = omega arith
rank-signalled Closer.waiting testing = omega arith
rank-signalled Closer.waiting checked = omega arith
rank-signalled Closer.waiting asleep = omega arith

left_steps :
    (i k r : ℕ) (b : Bool)
    → 0 < i
    → 4 * (i - 1) + 3 * (k + (if b then 1 else 0)) + r < 4 * i + 3 * k + r
left_steps i k r true pos = omega (arith, pos)
left_steps i k r false pos = omega (arith, pos)

-- Each step but a spurious wake-up leaves fewer, once the sender is marked.
Step-measure :
    {s t : System}
    → Holds s
    → closing s.closer ≡ true
    → (st : Step s t) → is_spurious st ≡ false
    → (measure t < measure s) × (closing t.closer ≡ true)
Step-measure {s} h c (Step.enters w e) q =
    let (running, _, _) =
      enter_lem (closing s.closer) s.inside w h.room (ap enter (sym h.counts) ∙ e) in
    true-ne-false (sym c ∙ running)
Step-measure {s} h c (Step.leaves pos) q =
    (left_steps s.inside s.signalling (rank s.closer s.phase) (leave s.state).0 pos, c)
Step-measure {s} h c (Step.signals pos free) q =
    (omega (arith, pos, rank-signalled s.closer s.phase), c)
Step-measure h c (Step.marks e) q = true-ne-false (sym c ∙ ap closing e)
Step-measure {s} h c (Step.checks e p some_in) q =
    (omega (arith, ap₂ rank e p, ap (λ k. rank k checked) e), c)
Step-measure {s} h c (Step.sleeps e p) q =
    (omega (arith, ap₂ rank e p, ap (λ k. rank k asleep) e), c)
Step-measure h c (Step.wakes e p) q = true-ne-false q
Step-measure {s} h c (Step.finishes e p none_in) q = (omega (arith, ap₂ rank e p), refl)

asleep-ne-checked : {P : Type 0} → asleep ≡ checked → P
asleep-ne-checked e = cc e

-- A close that is not done can go on.
goes_on :
    {s : System}
    → Holds s
    → closing s.closer ≡ true
    → (s.closer ≡ Closer.done) ⊎ ((u : System) × (st : Step s u) × (is_spurious st ≡ false))
goes_on {s} h c = at s.closer s.phase refl refl
  where
    awakened :
        s.closer ≡ Closer.waiting
        → s.phase ≡ asleep
        → (u : System) × (st : Step s u) × (is_spurious st ≡ false)
    awakened e p = elim (Bool-cases (s.signalling == 0)) [
      | inl none_signals ↦
          let somebody = h.awaited (ap is_waiting e) (ap has_tested p) in
          (_, Step.leaves (ground (arith, somebody, none_signals)), refl)
      | inr k ↦ (_, Step.signals (ground (arith, k)) (λ z. asleep-ne-checked (sym p ∙ z)), refl)
    ]

    at :
        (k : Closer) (p : Phase)
        → s.closer ≡ k
        → s.phase ≡ p
        → (s.closer ≡ Closer.done) ⊎ ((u : System) × (st : Step s u) × (is_spurious st ≡ false))
    at Closer.idle p e e' = true-ne-false (sym c ∙ ap closing e)
    at Closer.done p e e' = inl e
    at Closer.waiting testing e e' = elim (Bool-cases (producers s.state == 0)) [
      | inl z ↦ inr (_, Step.finishes e e' ((==_iff (producers s.state) 0).0 z), refl)
      | inr z ↦ inr (
        _,
        Step.checks e e' (λ k. true-ne-false (sym ((==_iff (producers s.state) 0).1 k) ∙ z)),
        refl,
      )
    ]
    at Closer.waiting checked e e' = inr (_, Step.sleeps e e', refl)
    at Closer.waiting asleep e e' = inr (awakened e e')

run_ends :
    {n : ℕ} {s t : System}
    → Holds s
    → closing s.closer ≡ true
    → Reaches n s t
    → (n ≤ measure s)
      × ((t.closer ≡ Closer.done) ⊎ ((u : System) × (st : Step t u) × (is_spurious st ≡ false)))
run_ends h c Reaches.here = (omega arith, goes_on h c)
run_ends h c (Reaches.next st q run) =
    let (fewer, c') = Step-measure h c st q in
    let (bounded, end) = run_ends (Step-Holds h st) c' run in (omega (arith, fewer, bounded), end)

-- `message_sender_close` ends, whatever the order of the steps: from every reachable state in which it
-- waits, a run without spurious wake-ups has at most 4 steps for each producer that is inside, 3 for
-- each that has to signal, and 3; and while the close is not done, such a run can go on.
pub close-ends :
    {n : ℕ} {s t : System}
    → Reachable s
    → s.closer ≡ Closer.waiting
    → Reaches n s t
    → (n ≤ 4 * s.inside + 3 * s.signalling + 3)
      × ((t.closer ≡ Closer.done) ⊎ ((u : System) × (st : Step t u) × (is_spurious st ≡ false)))
close-ends {n} {s} r e run =
    let (bounded, end) = run_ends (Reachable-Holds r) (ap closing e) run in
    let most : rank s.closer s.phase ≤ 3 = rank_le s.closer s.phase in
    (omega (arith, bounded, most), end)
  where
    rank_le : (c : Closer) (p : Phase) → rank c p ≤ 3
    rank_le Closer.idle p = omega arith
    rank_le Closer.done p = omega arith
    rank_le Closer.waiting testing = omega arith
    rank_le Closer.waiting checked = omega arith
    rank_le Closer.waiting asleep = omega arith

idle-ne-waiting : {P : Type 0} → Closer.idle ≡ Closer.waiting → P
idle-ne-waiting e = cc

signals_at :
    (c : Closer) (n : ℕ)
    → n < 2 ^ 63
    → 0 < n
    → (is_done c ≡ true → n ≡ 0)
    → ((leave (word (closing c) n)).0 ≡ true) ↔ ((c ≡ Closer.waiting) × (n ≡ 1))
unfolding leave
signals_at Closer.idle n h pos d = (λ e. absurd (ground arith), λ p. idle-ne-waiting p.0)
signals_at Closer.waiting n h pos d = (λ e. (refl, ground arith), λ p. ground arith)
signals_at Closer.done n h pos d = absurd (omega (arith, d refl))

-- The producer that leaves signals the closing thread exactly if that waits and nobody else is inside.
pub leave-signals :
    {s : System}
    → Reachable s
    → 0 < s.inside
    → ((leave s.state).0 ≡ true) ↔ ((s.closer ≡ Closer.waiting) × (s.inside ≡ 1))
leave-signals {s} r pos =
    let h = Reachable-Holds r in
    subst (λ k. ((leave k).0 ≡ true) ↔ ((s.closer ≡ Closer.waiting) × (s.inside ≡ 1)))
      (sym h.counts) (signals_at s.closer s.inside h.room pos h.empty)

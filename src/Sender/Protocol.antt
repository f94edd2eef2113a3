-- ===== src/Sender/Protocol.antt =====
-- cbits/message_chan.c: what holds of a sender in any interleaving of its producers with the thread that
-- closes it.
use hcurl.Prelude.{
  ℕ, ◌+◌, ◌-◌, ◌^◌, ◌<◌, ◌≡◌, ◌≢◌, refl, ap, ◌∙◌, Bool, true, false, ◌||◌, Option, none, some,
  arith, ◌==◌, add_size, if◌then◌else◌, Bool-cases, inl, inr, if-elim, true-ne-false, sym,
}
use hcurl.Sender.{is_closed, producers, enter, leave, mark_closed}
use hcurl.Sender.Interleaving.{
  Closer, Holds, Phase, Reachable, Step, System, asleep, checked, closing, has_tested, is_done,
  is_waiting, signalled, testing, word,
}

pub producers_lem : (b : Bool) (n : ℕ) → n < 2 ^ 63 → producers (word b n) ≡ n
producers_lem false n h = omega arith
producers_lem true n h = omega arith

none-ne-some : {P : Type 0} {w : ℕ} → none ≡ some w → P
none-ne-some e = cc

same_word : {v w : ℕ} → some v ≡ some w → v ≡ w
same_word e = cc

enter-some :
    (state w : ℕ)
    → enter state ≡ some w
    → (is_closed state ≡ false) × (producers state ≢ 2 ^ 63 - 1) × (add_size state 1 ≡ w)
unfolding enter
enter-some state w =
    if-elim
      (λ (r : Option ℕ).
        r ≡ some w
        → (is_closed state ≡ false) × (producers state ≢ 2 ^ 63 - 1) × (add_size state 1 ≡ w))
      (is_closed state || producers state == 2 ^ 63 - 1) (λ c e. none-ne-some e)
      (λ c e. (ground arith, ground arith, same_word e))

pub enter_lem :
    (b : Bool) (n w : ℕ)
    → n < 2 ^ 63
    → enter (word b n) ≡ some w
    → (b ≡ false) × (w ≡ n + 1) × (n + 1 < 2 ^ 63)
enter_lem false n w h e =
    let (_, not_full, counted) = enter-some n w e in (refl, omega arith, omega arith)
enter_lem true n w h e =
    let (open_word, _, _) = enter-some (2 ^ 63 + n) w e in absurd (ground arith)

leave_lem : (b : Bool) (n : ℕ) → n < 2 ^ 63 → 0 < n → (leave (word b n)).1 ≡ word b (n - 1)
unfolding leave
leave_lem false n h pos = omega arith
leave_lem true n h pos = omega arith

mark_lem : (n : ℕ) → n < 2 ^ 63 → mark_closed (word false n) ≡ word true n
unfolding mark_closed
mark_lem n h = ground arith

not-done : (c : Closer) → closing c ≡ false → is_done c ≡ false
not-done Closer.idle e = refl
not-done Closer.waiting e = true-ne-false e
not-done Closer.done e = true-ne-false e

-- The last producer has to signal the thread that waits.
last_signals :
    (c : Closer) (n k state : ℕ)
    → state ≡ word (closing c) n
    → n < 2 ^ 63
    → 0 < n
    → is_waiting c ≡ true
    → 0 < n - 1 + (k + (if (leave state).0 then 1 else 0))
unfolding leave
last_signals Closer.idle n k state e h pos w = true-ne-false (sym w)
last_signals Closer.done n k state e h pos w = true-ne-false (sym w)
last_signals Closer.waiting n k state e h pos w = ground (arith, e, h, pos)

-- A signal is not made while the thread has the mutex, and wakes it where it sleeps.
never_tested : {P : Type 0} (p : Phase) → p ≢ checked → has_tested (signalled p) ≡ true → P
never_tested testing free d = true-ne-false (sym d)
never_tested checked free d = absurd (free refl)
never_tested asleep free d = true-ne-false (sym d)

pub Step-Holds : {s t : System} → Holds s → Step s t → Holds t
Step-Holds {s} h (Step.enters w e) =
    let (running, counted, room) =
      enter_lem (closing s.closer) s.inside w h.room (ap enter (sym h.counts) ∙ e) in
    record {
      counts = counted ∙ ap (λ b. word b (s.inside + 1)) (sym running);
      room = room;
      attached = h.attached;
      empty = λ d. true-ne-false (sym d ∙ not-done s.closer running);
      awaited = λ e d. omega arith;
    }
Step-Holds {s} h (Step.leaves pos) = record {
  counts = ap (λ k. (leave k).1) h.counts ∙ leave_lem (closing s.closer) s.inside h.room pos;
  room = omega (arith, h.room);
  attached = h.attached;
  empty = λ d. omega (arith, h.empty d);
  awaited = λ e d. last_signals s.closer s.inside s.signalling s.state h.counts h.room pos e;
}
Step-Holds {s} h (Step.signals pos free) = record {
  counts = h.counts;
  room = h.room;
  attached = h.attached;
  empty = h.empty;
  awaited = λ e d. never_tested s.phase free d;
}
Step-Holds {s} h (Step.marks e) = record {
  counts =
      ap mark_closed (h.counts ∙ ap (λ c. word (closing c) s.inside) e) ∙ mark_lem s.inside h.room;
  room = h.room;
  attached = λ _. h.attached (ap is_done e);
  empty = λ d. true-ne-false (sym d);
  awaited = λ e d. true-ne-false (sym d);
}
Step-Holds {s} h (Step.checks e t some_in) = record {
  counts = h.counts;
  room = h.room;
  attached = h.attached;
  empty = h.empty;
  awaited = λ _ d.
      let counted = ap producers h.counts ∙ producers_lem (closing s.closer) s.inside h.room in
      ground (arith, some_in, counted);
}
Step-Holds {s} h (Step.sleeps e t) = record {
  counts = h.counts;
  room = h.room;
  attached = h.attached;
  empty = h.empty;
  awaited = λ w d. h.awaited w (ap has_tested t);
}
Step-Holds {s} h (Step.wakes e t) = record {
  counts = h.counts;
  room = h.room;
  attached = h.attached;
  empty = h.empty;
  awaited = λ w d. true-ne-false (sym d);
}
Step-Holds {s} h (Step.finishes e t none_in) = record {
  counts = h.counts ∙ ap (λ c. word (closing c) s.inside) e;
  room = h.room;
  attached = λ d. true-ne-false d;
  empty = λ _.
      sym (producers_lem (closing s.closer) s.inside h.room)
      ∙ ap producers (sym h.counts)
      ∙ none_in;
  awaited = λ w d. true-ne-false (sym w);
}

pub Reachable-Holds : {s : System} → Reachable s → Holds s
Reachable-Holds Reachable.start = record {
  counts = refl;
  room = omega arith;
  attached = λ _. refl;
  empty = λ d. true-ne-false (sym d);
  awaited = λ w d. true-ne-false (sym w);
}
Reachable-Holds (Reachable.then r st) = Step-Holds (Reachable-Holds r) st

-- In every interleaving, a producer that is inside finds the handle that it signals; once the close is
-- done nobody is inside, and nobody gets inside any more.
pub handle-safe :
    {s : System}
    → Reachable s
    → (0 < s.inside → s.attached ≡ true)
      × (s.closer ≡ Closer.done → (s.inside ≡ 0) × (enter s.state ≡ none))
unfolding enter
handle-safe {s} r =
    let h = Reachable-Holds r in
    (
      λ pos. elim (Bool-cases (is_done s.closer)) [
        | inl d ↦ absurd (omega (arith, h.empty d))
        | inr d ↦ h.attached d
      ],
      λ e.
          let none_in = h.empty (ap is_done e) in
          (
            none_in,
            ap enter (h.counts ∙ ap (λ c. word (closing c) s.inside) e ∙ ap (word true) none_in)
                ∙ refl,
          ),
    )

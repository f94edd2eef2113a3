-- ===== src/Stream/Invariant.antt =====
-- cbits/stream.c: the invariant of a stream, and what a step does to the bytes in it.
use mathlib.Core.Path.{ap₂}
use mathlib.Core.List.{append-nil, append_assoc}
use hcurl.Prelude.{
  ℕ, ◌≡◌, refl, sym, ap, ◌∙◌, true, false, List, [], ◌++◌, Bool-cases, inl, inr, true-ne-false,
}
use hcurl.Headers.Collector.Invariant.{CanWake}
use hcurl.Stream.State.{null_chunk, is_download, Stream}
use hcurl.Stream.Ring.{Holds, queued, unread_bytes}
use hcurl.Ring.{window}

-- What the flags promise: a closed stream is empty and not paused; a reader waits only where
-- there is nothing to read, no end, and no pause that it could lift; a writer waits only where
-- there is no room and no end.
pub record Flags (s : Stream) : Type 0 where
  pub closed_empty : s.closed ≡ true → s.count ≡ 0
  pub closed_running : s.closed ≡ true → s.paused ≡ false
  pub reader :
      s.read_waiter.present ≡ true
      → (is_download s.kind ≡ true)
        × (s.count ≡ 0)
        × (s.closed ≡ false)
        × (s.terminal_set ≡ false)
        × (s.paused ≡ false)
  pub writer :
      s.write_waiter.present ≡ true
      → (is_download s.kind ≡ false)
        × (s.count ≡ s.capacity)
        × (s.closed ≡ false)
        × (s.terminal_set ≡ false)
  pub reader_wakes : CanWake s.read_waiter
  pub writer_wakes : CanWake s.write_waiter
  pub ended : s.terminal_set ≡ true → s.attached ≡ false

pub record IsValid (s : Stream) : Type 0 where
  pub ring : Holds s
  pub flags : Flags s

-- A step that takes bytes in, hands bytes out and drops bytes, in the order of the queue. Nothing
-- is dropped unless the stream is closed; a closed stream stays closed and moves nothing; the
-- first terminal code stays.
pub record Moved (s : Stream) (accepted delivered dropped : List ℕ) (s' : Stream) : Type 0 where
  pub valid : IsValid s'
  pub bytes : queued s ++ accepted ≡ delivered ++ (dropped ++ queued s')
  pub quiet : s.closed ≡ true → (accepted ≡ []) × (delivered ≡ []) × (s'.closed ≡ true)
  pub lossless : s'.closed ≡ false → dropped ≡ []
  pub final :
      s.terminal_set ≡ true → (s'.terminal_set ≡ true) × (s'.terminal_code ≡ s.terminal_code)

-- A step that moves no bytes.
abbrev pub Still : Stream → Stream → Type 0
Still s s' = Moved s [] [] [] s'

-- A step that touches neither the ring nor the ends of the stream.
pub still :
    {s s' : Stream}
    → IsValid s'
    → queued s ≡ queued s'
    → (s.closed ≡ true → s'.closed ≡ true)
    → (s.terminal_set ≡ true → (s'.terminal_set ≡ true) × (s'.terminal_code ≡ s.terminal_code))
    → Still s s'
still {s} v e closed final = record {
  valid = v;
  bytes = append-nil (queued s) ∙ e;
  quiet = λ c. (refl, refl, closed c);
  lossless = λ c. refl;
  final = final;
}

pub Still-refl : {s : Stream} → IsValid s → Still s s
Still-refl {s} v = record {
  valid = v;
  bytes = append-nil (queued s);
  quiet = λ c. (refl, refl, c);
  lossless = λ c. refl;
  final = λ t. (t, refl);
}

queued-closed : {s : Stream} → IsValid s → s.closed ≡ true → queued s ≡ []
queued-closed {s} v c =
    ap (λ n. unread_bytes (window null_chunk s.capacity s.chunks s.head n)) (v.flags.closed_empty c)

-- A step that moves no bytes may follow another step.
pub Moved-Still : {s t u : Stream} {a d x : List ℕ} → Moved s a d x t → Still t u → Moved s a d x u
Moved-Still {s} {t} {u} {a} {d} {x} p q = record {
  valid = q.valid;
  bytes = p.bytes ∙ ap (λ k. d ++ (x ++ k)) (sym (append-nil (queued t)) ∙ q.bytes);
  quiet = λ c. let (a0, d0, c') = p.quiet c in (a0, d0, (q.quiet c').2);
  lossless = λ c. elim (Bool-cases t.closed) [
    | inr e ↦ p.lossless e
    | inl e ↦ true-ne-false (sym (q.quiet e).2 ∙ c)
  ];
  final = λ f. let (f', e) = p.final f in let (f'', e') = q.final f' in (f'', e' ∙ e);
}

join_open :
    (q a d qt b e rest : List ℕ)
    → q ++ a ≡ d ++ qt
    → qt ++ b ≡ e ++ rest
    → q ++ (a ++ b) ≡ (d ++ e) ++ rest
join_open q a d qt b e rest h k =
    sym (append_assoc q a b)
    ∙ ap (λ t. t ++ b) h
    ∙ append_assoc d qt b
    ∙ ap (λ t. d ++ t) k
    ∙ sym (append_assoc d e rest)

-- One step after another: what is dropped is dropped by one of them.
pub Moved-trans :
    {s t u : Stream} {a d x b e y : List ℕ}
    → Moved s a d x t
    → Moved t b e y u
    → (z : List ℕ) × Moved s (a ++ b) (d ++ e) z u
Moved-trans {s} {t} {u} {a} {d} {x} {b} {e} {y} p q = elim (Bool-cases t.closed) [
  | inr running ↦ (
    y,
    record {
      valid = q.valid;
      bytes =
          join_open (queued s) a d (queued t) b e (y ++ queued u)
            (p.bytes ∙ ap (λ k. d ++ (k ++ queued t)) (p.lossless running)) q.bytes;
      quiet = both_quiet;
      lossless = q.lossless;
      final = both_final;
    },
  )
  | inl shut ↦
      let (b0, e0, shut') = q.quiet shut in
      (
        x,
        record {
          valid = q.valid;
          bytes =
              ap (λ k. queued s ++ (a ++ k)) b0
              ∙ ap (λ k. queued s ++ k) (append-nil a)
              ∙ p.bytes
              ∙ ap (λ k. d ++ (x ++ k))
                  (queued-closed p.valid shut ∙ sym (queued-closed q.valid shut'))
              ∙ ap (λ k. k ++ (x ++ queued u)) (sym (append-nil d))
              ∙ ap (λ k. (d ++ k) ++ (x ++ queued u)) (sym e0);
          quiet = both_quiet;
          lossless = λ c. true-ne-false (sym shut' ∙ c);
          final = both_final;
        },
      )
]
  where
    both_quiet : s.closed ≡ true → (a ++ b ≡ []) × (d ++ e ≡ []) × (u.closed ≡ true)
    both_quiet c =
        let (a0, d0, c') = p.quiet c in
        let (b0, e0, c'') = q.quiet c' in (ap₂ ◌++◌ a0 b0, ap₂ ◌++◌ d0 e0, c'')

    both_final :
        s.terminal_set ≡ true → (u.terminal_set ≡ true) × (u.terminal_code ≡ s.terminal_code)
    both_final f = let (f', k) = p.final f in let (f'', k') = q.final f' in (f'', k' ∙ k)

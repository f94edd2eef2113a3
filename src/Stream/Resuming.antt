-- ===== src/Stream/Resuming.antt =====
-- cbits/stream.c: `hcurl_stream_flush_resume` as a run of sections.
use mathlib.Core.Path.{subst}
use hcurl.Prelude.{ℕ, ◌+◌, ◌-◌, ◌≡◌, refl, sym, inl, inr, arith, Bool-cases}
use hcurl.Sender.{Message}
use hcurl.Stream.State.{World, Answers, with_stream}
use hcurl.Stream.Control.{
  ControlResult, control_ok, retry, control_closed, enqueue_control, needs_resume, abort,
  restore_pause, lift_pause, after_resume, flush_resume,
}
use hcurl.Stream.Pauses.{Threads, answered, Section}

pub data Runs : Threads → Threads → Type 0 where
  here : {s : Threads} → Runs s s
  next : {s t u : Threads} → Section s t → Runs t u → Runs s u

abbrev lifted : Threads → Threads
lifted s = record s {
  world = with_stream s.world (lift_pause s.world.stream);
  flushing = s.flushing + 1;
}

same_counts :
    {s : Threads} (w : World) (n m k : ℕ)
    → n ≡ s.flushing
    → m ≡ s.restoring
    → k ≡ s.aborting
    → Runs s (record s { world = w; flushing = n; restoring = m; aborting = k })
    → Runs s (record s { world = w })
same_counts {s} w n m k e e' e'' run =
    subst (λ j. Runs s (record s { world = w; flushing = j })) e
      (subst (λ j. Runs s (record s { world = w; flushing = n; restoring = j })) e'
        (subst (λ j. Runs s (record s { world = w; flushing = n; restoring = m; aborting = j })) e''
          run))

pub then-Runs : {s t u : Threads} → Runs s t → Section t u → Runs s u
then-Runs Runs.here st = Runs.next st Runs.here
then-Runs (Runs.next first run) st = Runs.next first (then-Runs run st)

-- The end of a flush, as its answer tells.
ending :
    {s : Threads} (result : ControlResult) (w : World)
    → Runs s (answered result (record s { world = w; flushing = s.flushing + 1 - 1 }))
    → Runs s (record s { world = (after_resume result w).2 })
unfolding after_resume
ending {s} control_ok w run =
    same_counts w (s.flushing + 1 - 1) s.restoring s.aborting (omega arith) refl refl run
ending {s} retry w run =
    same_counts (with_stream w (restore_pause w.stream)) (s.flushing + 1 - 1) (s.restoring + 1 - 1)
      s.aborting (omega arith) (omega arith) refl (then-Runs run (Section.restores (omega arith)))
ending {s} control_closed w run =
    same_counts (abort w).2 (s.flushing + 1 - 1) s.restoring (s.aborting + 1 - 1) (omega arith) refl
      (omega arith) (then-Runs run (Section.aborts (omega arith)))

abbrev resumed : ControlResult × World → World
resumed r = (after_resume r.0 r.1).2

-- `hcurl_stream_flush_resume`, as `Stream.Control` has it, is one run of the sections that
-- `Stream.Pauses` interleaves, whatever the sender answers.
pub flush_resume-Runs :
    (a : Answers) (s : Threads) → Runs s (record s { world = (flush_resume a s.world).2 })
unfolding flush_resume
flush_resume-Runs a s = elim (Bool-cases (needs_resume s.world.stream)) [
  | inr e ↦ rw (flush_resume, e) Runs.here
  | inl e ↦
      let r =
        enqueue_control a (Message.resume_request s.world.stream.transfer_id) (lifted s).world in
      let opened : (flush_resume a s.world).2 ≡ resumed r = rw (flush_resume, e) refl in
      subst (λ w. Runs s (record s { world = w })) (sym opened)
        (ending r.0 r.1
          (Runs.next (Section.lifts e) (Runs.next (Section.sends a (omega arith)) Runs.here)))
]

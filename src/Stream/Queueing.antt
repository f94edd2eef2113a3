-- ===== src/Stream/Queueing.antt =====
-- cbits/stream.c: what the sections of threads on a stream do to the queue of messages.
use mathlib.Core.List.{append-nil}
use hcurl.Prelude.{
  ℕ, ◌-◌, ◌≡◌, refl, sym, ap, ◌∙◌, ◌⊎◌, inl, inr, ◌&&◌, not, List, [], ◌∷◌, ◌++◌, arith, if-elim,
}
use hcurl.Sender.{Message}
use hcurl.Stream.State.{Stream, Answers, drop_chunks}
use hcurl.Stream.Control.{
  ControlResult, control_ok, retry, control_closed, enqueue_control, restore_pause, forget_cancel,
  complete, complete_locked, close_locked,
}
use hcurl.Stream.Pauses.{Threads, send_resume, resumes, answered, Section}
use hcurl.Stream.Sections.{Posts, enqueue_control-Posts, write_locked-Wrote, read_callback-Read}

-- 1 for a round of the agent, 0 for another section.
abbrev pub is_round : {s t : Threads} → Section s t → ℕ
is_round (Section.writes a bytes total running outside) = 0
is_round (Section.reads size count running outside) = 0
is_round (Section.halts ok e) = 0
is_round (Section.lifts e) = 0
is_round (Section.sends a pos) = 0
is_round (Section.restores pos) = 0
is_round (Section.aborts pos) = 0
is_round (Section.completes code) = 0
is_round Section.closes = 0
is_round (Section.forgets e) = 0
is_round (Section.others w q) = 0
is_round (Section.handles m rest outside e) = 1

-- What every step but a round does to the queue: messages may come behind.
pub record Grows (s t : Threads) : Type 0 where
  pub transfer_id : t.world.stream.transfer_id ≡ s.world.stream.transfer_id
  pub more : List Message
  pub queue : t.world.sender.queue ≡ s.world.sender.queue ++ more

still_queued :
    {s t : Threads}
    → t.world.stream.transfer_id ≡ s.world.stream.transfer_id
    → t.world.sender.queue ≡ s.world.sender.queue
    → Grows s t
still_queued {s} id queue = record {
  transfer_id = id;
  more = [];
  queue = queue ∙ sym (append-nil s.world.sender.queue);
}

answered-Grows : {s u : Threads} (result : ControlResult) → Grows s u → Grows s (answered result u)
answered-Grows control_ok g = g
answered-Grows retry g = record { transfer_id = g.transfer_id; more = g.more; queue = g.queue }
answered-Grows control_closed g = record {
  transfer_id = g.transfer_id;
  more = g.more;
  queue = g.queue;
}

sends-Grows : (a : Answers) (s : Threads) → Grows s (send_resume a s)
unfolding enqueue_control
sends-Grows a s =
    let message = Message.resume_request s.world.stream.transfer_id in
    let r = enqueue_control a message s.world in
    let u : Threads = record s { world = r.1; flushing = s.flushing - 1 } in
    answered-Grows {s = s} {u = u} r.0 (grown (enqueue_control-Posts a message s.world))
  where
    grown :
        Posts
          (Message.resume_request s.world.stream.transfer_id)
          s.world
          (enqueue_control a (Message.resume_request s.world.stream.transfer_id) s.world)
        → Grows s (record s {
          world = (enqueue_control a (Message.resume_request s.world.stream.transfer_id) s.world).1;
          flushing = s.flushing - 1;
        })
    grown (inl (e, q)) = record { transfer_id = refl; more = _; queue = q }
    grown (inr (e, q)) = still_queued refl q

restore_id : (s : Stream) → (restore_pause s).transfer_id ≡ s.transfer_id
unfolding restore_pause
restore_id s =
    if-elim (λ (r : Stream). r.transfer_id ≡ s.transfer_id)
      (not s.closed && not s.terminal_set && not s.cancel_sent) (λ e. refl) (λ e. refl)

forget_id : (s : Stream) → (forget_cancel s).transfer_id ≡ s.transfer_id
unfolding forget_cancel
forget_id s =
    if-elim (λ (r : Stream). r.transfer_id ≡ s.transfer_id) (not s.terminal_set) (λ e. refl)
      (λ e. refl)

pub Section-Grows : {s t : Threads} (st : Section s t) → is_round st ≡ 0 → Grows s t
unfolding complete complete_locked close_locked drop_chunks
Section-Grows {s} (Section.writes a bytes total running outside) z =
    let w = write_locked-Wrote a bytes total s.world in
    still_queued w.transfer_id (ap (λ k. k.queue) w.sender)
Section-Grows {s} (Section.reads size count running outside) z =
    let r = read_callback-Read size count s.world in
    still_queued r.transfer_id (ap (λ k. k.queue) r.sender)
Section-Grows (Section.halts ok e) z = still_queued refl refl
Section-Grows (Section.lifts e) z = still_queued refl refl
Section-Grows {s} (Section.sends a pos) z = sends-Grows a s
Section-Grows {s} (Section.restores pos) z = still_queued (restore_id s.world.stream) refl
Section-Grows (Section.aborts pos) z = still_queued refl refl
Section-Grows (Section.completes code) z = still_queued refl refl
Section-Grows Section.closes z = still_queued refl refl
Section-Grows {s} (Section.forgets e) z = still_queued (forget_id s.world.stream) refl
Section-Grows (Section.others w q) z = record {
  transfer_id = q.transfer_id;
  more = q.more;
  queue = q.queue;
}
Section-Grows (Section.handles m rest outside e) z = absurd (omega (arith, z))

-- What a round does: the agent takes the first message.
pub record Takes (s t : Threads) : Type 0 where
  pub message : Message
  pub rest : List Message
  pub before : s.world.sender.queue ≡ message ∷ rest
  pub after : t.world.sender.queue ≡ rest
  pub halted : t.halted ≡ (s.halted && not (resumes s.world.stream.transfer_id message))
  pub transfer_id : t.world.stream.transfer_id ≡ s.world.stream.transfer_id

pub Section-cases :
    {s t : Threads} (st : Section s t) → (is_round st ≡ 0) ⊎ (Takes s t × (is_round st ≡ 1))
Section-cases (Section.writes a bytes total running outside) = inl refl
Section-cases (Section.reads size count running outside) = inl refl
Section-cases (Section.halts ok e) = inl refl
Section-cases (Section.lifts e) = inl refl
Section-cases (Section.sends a pos) = inl refl
Section-cases (Section.restores pos) = inl refl
Section-cases (Section.aborts pos) = inl refl
Section-cases (Section.completes code) = inl refl
Section-cases Section.closes = inl refl
Section-cases (Section.forgets e) = inl refl
Section-cases (Section.others w q) = inl refl
Section-cases (Section.handles m rest outside e) = inr (
  record { message = m; rest = rest; before = e; after = refl; halted = refl; transfer_id = refl },
  refl,
)

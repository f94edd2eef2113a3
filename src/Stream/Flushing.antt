-- ===== src/Stream/Flushing.antt =====
-- cbits/stream.c: why a paused transfer goes on, after each section.
use hcurl.Prelude.{
  only_right, ℕ, ◌-◌, ◌<◌, ◌≡◌, refl, sym, ap, ◌∙◌, ◌⊎◌, inl, inr, Bool, true, false, ◌&&◌, ◌||◌,
  not, List, [], ◌∷◌, ◌++◌, arith, if-elim, true-ne-false,
}
use hcurl.Sender.{Message, Sender}
use hcurl.Stream.State.{Stream, World, Answers, with_stream}
use hcurl.Stream.Control.{
  ControlResult, control_ok, retry, control_closed, enqueue_control, complete, complete_locked,
  restore_pause, forget_cancel,
}
use hcurl.Stream.Download.{write_locked}
use hcurl.Stream.Pauses.{
  Threads, halts_after, will_resume, answered, write_section, read_section, send_resume,
}
use hcurl.Stream.Sections.{write_locked-Wrote, read_callback-Read, Posts, enqueue_control-Posts}

-- Why a transfer that libcurl has paused goes on, or need not.
pub data Pending (s : Threads) : Type 0 where
  is_paused : s.world.stream.paused ≡ true → Pending s
  is_lifted : 0 < s.flushing → Pending s
  is_refused : 0 < s.restoring → Pending s
  is_aborted : 0 < s.aborting → Pending s
  is_queued : will_resume s.world.stream.transfer_id s.world.sender.queue ≡ true → Pending s
  was_closed : s.world.stream.closed ≡ true → Pending s
  has_ended : s.world.stream.terminal_set ≡ true → Pending s

pub record IsKept (s : Threads) : Type 0 where
  pub cancelled : s.world.stream.cancel_sent ≡ true → s.world.stream.closed ≡ true
  pub pending : (s.halted || s.halting) ≡ true → Pending s

-- A step that touches neither the flags nor the counts.
pub record Passes (s t : Threads) : Type 0 where
  pub paused : t.world.stream.paused ≡ s.world.stream.paused
  pub closed : t.world.stream.closed ≡ s.world.stream.closed
  pub ended : t.world.stream.terminal_set ≡ s.world.stream.terminal_set
  pub cancelled : t.world.stream.cancel_sent ≡ s.world.stream.cancel_sent
  pub flushing : t.flushing ≡ s.flushing
  pub restoring : t.restoring ≡ s.restoring
  pub aborting : t.aborting ≡ s.aborting

pub pass :
    {s t : Threads}
    → Passes s t
    → (will_resume s.world.stream.transfer_id s.world.sender.queue ≡ true
        → will_resume t.world.stream.transfer_id t.world.sender.queue ≡ true)
    → Pending s
    → Pending t
pass p q (Pending.is_paused e) = Pending.is_paused (p.paused ∙ e)
pass p q (Pending.is_lifted pos) = Pending.is_lifted (omega (arith, p.flushing, pos))
pass p q (Pending.is_refused pos) = Pending.is_refused (omega (arith, p.restoring, pos))
pass p q (Pending.is_aborted pos) = Pending.is_aborted (omega (arith, p.aborting, pos))
pass p q (Pending.is_queued e) = Pending.is_queued (q e)
pass p q (Pending.was_closed e) = Pending.was_closed (p.closed ∙ e)
pass p q (Pending.has_ended e) = Pending.has_ended (p.ended ∙ e)

pub write-IsKept :
    {s : Threads} (a : Answers) (bytes : List ℕ) (total : ℕ)
    → s.halted ≡ false
    → IsKept s
    → IsKept (write_section a bytes total s)
write-IsKept {s} a bytes total running k =
    let (r, puts, w) = write_locked a bytes total s.world in
    let wrote = write_locked-Wrote a bytes total s.world in
    record {
      cancelled = λ e. wrote.closed ∙ k.cancelled (sym wrote.cancel_sent ∙ e);
      pending = λ e.
          let told : halts_after r w.stream ≡ true = only_right running e in
          elim (wrote.told told) [
            | inl paused ↦ Pending.is_paused paused
            | inr (inl closed) ↦ Pending.was_closed closed
            | inr (inr ended) ↦ Pending.has_ended ended
          ];
    }

pub read-IsKept :
    {s : Threads} (size count : ℕ)
    → s.halted ≡ false
    → IsKept s
    → IsKept (read_section size count s)
read-IsKept {s} size count running k =
    let read = read_callback-Read size count s.world in
    record {
      cancelled = λ e. read.closed ∙ k.cancelled (sym read.cancel_sent ∙ e);
      pending = λ e. Pending.is_paused (read.told (only_right running e));
    }

-- Why a pause is not restored.
not_restored :
    (closed ended cancelled : Bool)
    → (not closed && not ended && not cancelled) ≡ false
    → (closed ≡ true) ⊎ ((ended ≡ true) ⊎ (cancelled ≡ true))
not_restored true ended cancelled e = inl refl
not_restored false true cancelled e = inr (inl refl)
not_restored false false true e = inr (inr refl)
not_restored false false false e = true-ne-false e

pub restore-IsKept :
    {s : Threads} (n : ℕ)
    → IsKept s
    → IsKept
        (record s { world = with_stream s.world (restore_pause s.world.stream); restoring = n })
unfolding restore_pause
restore-IsKept {s} n k =
    let v = s.world.stream in
    if-elim (λ (r : Stream). IsKept (record s { world = with_stream s.world r; restoring = n }))
      (not v.closed && not v.terminal_set && not v.cancel_sent)
      (λ e. record { cancelled = k.cancelled; pending = λ _. Pending.is_paused refl })
      (λ e. record {
        cancelled = k.cancelled;
        pending = λ _. elim (not_restored v.closed v.terminal_set v.cancel_sent e) [
          | inl closed ↦ Pending.was_closed closed
          | inr (inl ended) ↦ Pending.has_ended ended
          | inr (inr cancelled) ↦ Pending.was_closed (k.cancelled cancelled)
        ];
      })

ok-ne-refused : {P : Type 0} → (control_ok ≡ retry) ⊎ (control_ok ≡ control_closed) → P
ok-ne-refused (inl e) = cc e
ok-ne-refused (inr e) = cc e

pub will_resume-sent :
    (id : ℕ) (queue : List Message)
    → will_resume id (queue ++ (Message.resume_request id ∷ [])) ≡ true
will_resume-sent id [] = ground arith
will_resume-sent id (m ∷ queue) = ground (arith, will_resume-sent id queue)

-- The flusher goes on as the answer tells: the message is in the queue, or it has something to do.
answered-IsKept :
    {s : Threads} (result : ControlResult) (sender : Sender) (n : ℕ)
    → let w : World = record s.world { sender = sender } in
      Posts (Message.resume_request s.world.stream.transfer_id) s.world (result, w)
      → IsKept s
      → IsKept (answered result (record s { world = w; flushing = n }))
answered-IsKept {s} control_ok sender n (inl (e, queue)) k = record {
  cancelled = k.cancelled;
  pending = λ _.
      let id = s.world.stream.transfer_id in
      Pending.is_queued (ap (will_resume id) queue ∙ will_resume-sent id s.world.sender.queue);
}
answered-IsKept control_ok sender n (inr (e, queue)) k = ok-ne-refused e
answered-IsKept {s} retry sender n posts k = record {
  cancelled = k.cancelled;
  pending = λ _. Pending.is_refused (omega arith);
}
answered-IsKept {s} control_closed sender n posts k = record {
  cancelled = k.cancelled;
  pending = λ _. Pending.is_aborted (omega arith);
}

pub send-IsKept : {s : Threads} (a : Answers) → IsKept s → IsKept (send_resume a s)
unfolding enqueue_control
send-IsKept {s} a k =
    let message = Message.resume_request s.world.stream.transfer_id in
    let (result, w) = enqueue_control a message s.world in
    answered-IsKept result w.sender (s.flushing - 1) (enqueue_control-Posts a message s.world) k

pub complete-IsKept :
    {s : Threads} (code n : ℕ)
    → IsKept s
    → IsKept (record s { world = (complete code s.world).1; aborting = n })
unfolding complete complete_locked
complete-IsKept code n k = record { cancelled = k.cancelled; pending = λ _. Pending.has_ended refl }

pub forget-IsKept :
    {s : Threads}
    → s.world.stream.closed ≡ true
    → IsKept s
    → IsKept (record s { world = with_stream s.world (forget_cancel s.world.stream) })
unfolding forget_cancel
forget-IsKept {s} closed k =
    let v = s.world.stream in
    if-elim (λ (r : Stream). IsKept (record s { world = with_stream s.world r }))
      (not v.terminal_set)
      (λ e. record { cancelled = λ _. closed; pending = λ _. Pending.was_closed closed })
      (λ e. record { cancelled = λ _. closed; pending = λ _. Pending.was_closed closed })

-- ===== src/Stream/Quiet.antt =====
-- cbits/stream.c: sections that leave alone what a pause depends on.
use mathlib.Core.List.{append-nil}
use hcurl.Prelude.{
  ℕ, ◌≡◌, refl, sym, ◌∙◌, inl, inr, Bool, true, ◌&&◌, ◌||◌, not, List, [], ◌∷◌, ◌++◌, if-elim, ◌==◌,
  ltb,
}
use hcurl.Waker.{Slot, registered}
use hcurl.Sender.{Message}
use hcurl.Stream.State.{Stream, World, Answers, with_stream, is_download, pop_chunk, push_chunk}
use hcurl.Stream.Control.{enqueue_control}
use hcurl.Stream.Download.{WaitResult, wait_read, cancel_wait_read}
use hcurl.Stream.Upload.{wait_write, cancel_wait_write}
use hcurl.Stream.Pauses.{IsQuiet}
use hcurl.Stream.Sections.{Posts, enqueue_control-Posts}

-- A section that leaves the flags of the stream alone.
pub record SameFlags (s s' : Stream) : Type 0 where
  paused : s'.paused ≡ s.paused
  closed : s'.closed ≡ s.closed
  terminal_set : s'.terminal_set ≡ s.terminal_set
  cancel_sent : s'.cancel_sent ≡ s.cancel_sent
  transfer_id : s'.transfer_id ≡ s.transfer_id

pub same_flags : (s : Stream) → SameFlags s s
same_flags s = record {
  paused = refl;
  closed = refl;
  terminal_set = refl;
  cancel_sent = refl;
  transfer_id = refl;
}

pub flags-IsQuiet : {w : World} {s' : Stream} → SameFlags w.stream s' → IsQuiet w (with_stream w s')
flags-IsQuiet {w} f = record {
  paused = f.paused;
  closed = f.closed;
  terminal_set = f.terminal_set;
  cancel_sent = f.cancel_sent;
  transfer_id = f.transfer_id;
  more = [];
  queue = sym (append-nil w.sender.queue);
}

-- The waiters are no flags.
pub waiters_flags :
    (s : Stream) (reader writer : Slot)
    → SameFlags s (record s { read_waiter = reader; write_waiter = writer })
waiters_flags s reader writer = record {
  paused = refl;
  closed = refl;
  terminal_set = refl;
  cancel_sent = refl;
  transfer_id = refl;
}

pub wait_read_flags :
    (mvar capability : ℕ) (s : Stream) → SameFlags s (wait_read mvar capability s).1
unfolding wait_read
wait_read_flags mvar capability s =
    let P : WaitResult × Stream → Type 0 = λ r. SameFlags s r.1 in
    if-elim P (mvar == 0 || not (is_download s.kind)) (λ e. same_flags s)
      (λ e.
        if-elim P (not (s.count == 0) || s.closed || s.terminal_set) (λ e. same_flags s)
          (λ e.
            if-elim P s.paused (λ e. same_flags s)
              (λ e.
                if-elim P s.read_waiter.present (λ e. same_flags s)
                  (λ e. waiters_flags s (registered mvar capability) s.write_waiter))))

pub cancel_wait_read_flags : (mvar : ℕ) (s : Stream) → SameFlags s (cancel_wait_read mvar s).1
unfolding cancel_wait_read
cancel_wait_read_flags mvar s =
    if-elim (λ (r : Bool × Stream). SameFlags s r.1)
      (is_download s.kind
        && not (mvar == 0)
        && s.read_waiter.present
        && s.read_waiter.waker.mvar == mvar)
      (λ e. waiters_flags s _ s.write_waiter) (λ e. same_flags s)

pub wait_write_flags :
    (mvar capability : ℕ) (s : Stream) → SameFlags s (wait_write mvar capability s).1
unfolding wait_write
wait_write_flags mvar capability s =
    let P : WaitResult × Stream → Type 0 = λ r. SameFlags s r.1 in
    if-elim P (mvar == 0 || is_download s.kind) (λ e. same_flags s)
      (λ e.
        if-elim P (ltb s.count s.capacity || s.closed || s.terminal_set) (λ e. same_flags s)
          (λ e.
            if-elim P s.write_waiter.present (λ e. same_flags s)
              (λ e. waiters_flags s s.read_waiter (registered mvar capability))))

pub cancel_wait_write_flags : (mvar : ℕ) (s : Stream) → SameFlags s (cancel_wait_write mvar s).1
unfolding cancel_wait_write
cancel_wait_write_flags mvar s =
    if-elim (λ (r : Bool × Stream). SameFlags s r.1)
      (not (is_download s.kind)
        && not (mvar == 0)
        && s.write_waiter.present
        && s.write_waiter.waker.mvar == mvar)
      (λ e. waiters_flags s s.read_waiter _) (λ e. same_flags s)

pub pop_flags : (s : Stream) → SameFlags s (pop_chunk s)
unfolding pop_chunk
pop_flags s = record {
  paused = refl;
  closed = refl;
  terminal_set = refl;
  cancel_sent = refl;
  transfer_id = refl;
}

pub push_flags : (bytes : List ℕ) (n : ℕ) (s : Stream) → SameFlags s (push_chunk bytes n s)
unfolding push_chunk
push_flags bytes n s = record {
  paused = refl;
  closed = refl;
  terminal_set = refl;
  cancel_sent = refl;
  transfer_id = refl;
}

pub finish_flags : (s : Stream) → SameFlags s (record s { finished = true })
finish_flags s = record {
  paused = refl;
  closed = refl;
  terminal_set = refl;
  cancel_sent = refl;
  transfer_id = refl;
}

-- A message is added, or nothing has changed.
pub enqueue_control-IsQuiet :
    (a : Answers) (m : Message) (w : World) → IsQuiet w (enqueue_control a m w).1
unfolding enqueue_control
enqueue_control-IsQuiet a m w =
    let (more, q) = added (enqueue_control-Posts a m w) in
    record {
      paused = refl;
      closed = refl;
      terminal_set = refl;
      cancel_sent = refl;
      transfer_id = refl;
      more = more;
      queue = q;
    }
  where
    added :
        Posts m w (enqueue_control a m w)
        → (more : List Message) × ((enqueue_control a m w).1.sender.queue ≡ w.sender.queue ++ more)
    added (inl (e, q)) = (m ∷ [], q)
    added (inr (e, q)) = ([], q ∙ sym (append-nil w.sender.queue))

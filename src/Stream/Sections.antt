-- ===== src/Stream/Sections.antt =====
-- cbits/stream.c: what single sections and calls do to the flags and the queue.
use hcurl.Prelude.{
  either, ltb, add_size, mul_size, product_overflows, ℕ, ◌-◌, Option-cases, ◌≡◌, refl, sym, ◌∙◌,
  ◌⊎◌, inl, inr, Bool, true, false, ◌&&◌, ◌||◌, not, List, [], ◌∷◌, ◌++◌, arith, ◌==◌, if-elim,
  take, if◌then◌else◌, true-ne-false,
}
use hcurl.Waker.{Put}
use hcurl.Sender.{Message, Sender, EnqueueResult, enqueue_outer_message, enter, is_closed}
use hcurl.Stream.State.{head_chunk, pop_chunk, is_download, Stream, World, Answers}
use hcurl.Stream.Control.{ControlResult, control_ok, retry, control_closed, enqueue_control}
use hcurl.Stream.Download.{
  CallbackReturn, taken, abort_transfer, write_locked, deliver, accept_chunk,
}
use hcurl.Stream.Upload.{read_callback, send_bytes, consume}
use hcurl.Stream.Pauses.{halts_after, will_resume, is_pause}

-- What the write callback's section leaves.
pub record Wrote (w : World) (r : CallbackReturn) (w' : World) : Type 0 where
  pub sender : w'.sender ≡ w.sender
  pub closed : w'.stream.closed ≡ w.stream.closed
  pub cancel_sent : w'.stream.cancel_sent ≡ w.stream.cancel_sent
  pub transfer_id : w'.stream.transfer_id ≡ w.stream.transfer_id
  pub told :
      halts_after r w'.stream ≡ true
      → (w'.stream.paused ≡ true) ⊎ ((w'.stream.closed ≡ true) ⊎ (w'.stream.terminal_set ≡ true))

either_taken :
    (b : Bool) (m n : ℕ) (s : Stream)
    → halts_after (if b then taken m else taken n) s ≡ true
    → (s.count == s.capacity) ≡ true
either_taken true m n s e = ground (arith, e)
either_taken false m n s e = ground (arith, e)

deliver-Wrote :
    (a : Answers) (bytes : List ℕ) (total : ℕ) (w : World)
    → let (r, puts, w') = deliver a bytes total w in Wrote w r w'
unfolding deliver accept_chunk
deliver-Wrote a bytes total w =
    let accepted = accept_chunk bytes total w.stream in
    let stops = accepted.count == accepted.capacity && accepted.attached && not a.pause_ok in
    record {
      sender = refl;
      closed = refl;
      cancel_sent = refl;
      transfer_id = refl;
      told = λ k. inl (rw (either_taken stops 0 total accepted k) refl);
    }

pub write_locked-Wrote :
    (a : Answers) (bytes : List ℕ) (total : ℕ) (w : World)
    → let (r, puts, w') = write_locked a bytes total w in Wrote w r w'
unfolding write_locked
write_locked-Wrote a bytes total w =
    if-elim (λ (r : CallbackReturn × List Put × World). Wrote w r.0 r.2)
      (w.stream.closed || w.stream.terminal_set)
      (λ e. record {
        sender = refl;
        closed = refl;
        cancel_sent = refl;
        transfer_id = refl;
        told = λ k. inr (either w.stream.closed w.stream.terminal_set e);
      })
      (λ e.
        if-elim (λ (r : CallbackReturn × List Put × World). Wrote w r.0 r.2)
          (w.stream.count == w.stream.capacity)
          (λ full. record {
            sender = refl;
            closed = refl;
            cancel_sent = refl;
            transfer_id = refl;
            told = λ k. inl refl;
          })
          (λ free.
            if-elim (λ (r : CallbackReturn × List Put × World). Wrote w r.0 r.2) (not a.malloc_ok)
              (λ m. record {
                sender = refl;
                closed = refl;
                cancel_sent = refl;
                transfer_id = refl;
                told = λ k. absurd (ground (arith, free, k));
              })
              (λ m. deliver-Wrote a (take total bytes) total w)))

-- What `enqueue_control` does to the queue.
abbrev pub Posts : Message → World → ControlResult × World → Type 0
Posts m w r =
    ((r.0 ≡ control_ok) × (r.1.sender.queue ≡ w.sender.queue ++ (m ∷ [])))
    ⊎ (((r.0 ≡ retry) ⊎ (r.0 ≡ control_closed)) × (r.1.sender.queue ≡ w.sender.queue))

abbrev Queues : Message → Sender → EnqueueResult × Sender → Type 0
Queues m s r =
    ((r.0 ≡ EnqueueResult.enqueued) × (r.1.queue ≡ s.queue ++ (m ∷ [])))
    ⊎ (((r.0 ≡ EnqueueResult.full)
          ⊎ ((r.0 ≡ EnqueueResult.out_of_memory) ⊎ (r.0 ≡ EnqueueResult.closed)))
        × (r.1.queue ≡ s.queue))

enqueue_outer_message-Queues :
    (calloc_ok queue_ok : Bool) (m : Message) (s : Sender)
    → Queues m s (enqueue_outer_message calloc_ok queue_ok m s)
unfolding enqueue_outer_message
enqueue_outer_message-Queues calloc_ok queue_ok m s =
    if-elim (Queues m s) (is_closed s.state) (λ e. inr (inr (inr refl), refl))
      (λ e.
        if-elim (Queues m s) (not calloc_ok) (λ k. inr (inr (inl refl), refl))
          (λ k. elim (Option-cases (enter s.state)) [
            | inl none_in ↦ rw (none_in) (inr (inr (inr refl), refl))
            | inr (entered, e') ↦ rw (e') (
                if-elim (Queues m s) queue_ok (λ ok. inl (refl, refl)) (λ no. inr (inl refl, refl)))
          ]))

pub enqueue_control-Posts :
    (a : Answers) (m : Message) (w : World) → Posts m w (enqueue_control a m w)
unfolding enqueue_control
enqueue_control-Posts a m w =
    elim (enqueue_outer_message-Queues a.calloc_ok a.queue_ok m w.sender) [
      | inl (e, q) ↦ inl (rw (enqueue_control, e) refl, q)
      | inr (inl e, q) ↦ inr (inl (rw (enqueue_control, e) refl), q)
      | inr (inr (inl e), q) ↦ inr (inl (rw (enqueue_control, e) refl), q)
      | inr (inr (inr e), q) ↦ inr (inr (rw (enqueue_control, e) refl), q)
    ]

pub will_resume-append :
    (id : ℕ) (a b : List Message) → will_resume id (a ++ b) ≡ (will_resume id a || will_resume id b)
will_resume-append id [] b = refl
will_resume-append id (m ∷ a) b = ground (arith, will_resume-append id a b)

-- What the read callback's section leaves.
pub record Read (w : World) (r : CallbackReturn) (w' : World) : Type 0 where
  pub sender : w'.sender ≡ w.sender
  pub closed : w'.stream.closed ≡ w.stream.closed
  pub cancel_sent : w'.stream.cancel_sent ≡ w.stream.cancel_sent
  pub transfer_id : w'.stream.transfer_id ≡ w.stream.transfer_id
  pub told : is_pause r ≡ true → w'.stream.paused ≡ true

consume_keeps :
    (copied : ℕ) (s : Stream)
    → ((consume copied s).closed ≡ s.closed)
      × ((consume copied s).cancel_sent ≡ s.cancel_sent)
      × ((consume copied s).transfer_id ≡ s.transfer_id)
unfolding consume pop_chunk
consume_keeps copied s =
    let head = head_chunk s in
    if-elim
      (λ (r : Stream).
        (r.closed ≡ s.closed) × (r.cancel_sent ≡ s.cancel_sent) × (r.transfer_id ≡ s.transfer_id))
      (add_size head.offset copied == head.length) (λ e. (refl, refl, refl))
      (λ e. (refl, refl, refl))

send_bytes-Read :
    (capacity : ℕ) (w : World) → let (r, bytes, puts, w') = send_bytes capacity w in Read w r w'
unfolding send_bytes
send_bytes-Read capacity w =
    let s = w.stream in
    let head = head_chunk s in
    let remaining = head.length - head.offset in
    let copied : ℕ = if ltb remaining capacity then remaining else capacity in
    let rest = consume copied s in
    let (closed, cancel_sent, transfer_id) = consume_keeps copied s in
    if-elim (λ (r : CallbackReturn × List ℕ × List Put × World). Read w r.0 r.3)
      (s.count == s.capacity && ltb rest.count rest.capacity)
      (λ e. record {
        closed = closed;
        cancel_sent = cancel_sent;
        transfer_id = transfer_id;
        sender = refl;
        told = λ k. true-ne-false (sym k);
      })
      (λ e. record {
        closed = closed;
        cancel_sent = cancel_sent;
        transfer_id = transfer_id;
        sender = refl;
        told = λ k. true-ne-false (sym k);
      })

pub read_callback-Read :
    (size count : ℕ) (w : World)
    → let (r, bytes, puts, w') = read_callback size count w in Read w r w'
unfolding read_callback
read_callback-Read size count w =
    let P : CallbackReturn × List ℕ × List Put × World → Type 0 = λ r. Read w r.0 r.3 in
    let unchanged : (r : CallbackReturn) → is_pause r ≡ false → Read w r w = λ r e. record {
      sender = refl;
      transfer_id = refl;
      closed = refl;
      cancel_sent = refl;
      told = λ k. true-ne-false (sym k ∙ e);
    } in
    if-elim P (is_download w.stream.kind || product_overflows size count)
      (λ e. unchanged abort_transfer refl)
      (λ e.
        if-elim P (mul_size size count == 0) (λ e. unchanged (taken 0) refl)
          (λ e.
            if-elim P
              (w.stream.closed || (w.stream.terminal_set && not (w.stream.terminal_code == 0)))
              (λ e. unchanged abort_transfer refl)
              (λ e.
                if-elim P (w.stream.count == 0)
                  (λ e.
                    if-elim P w.stream.finished (λ e. unchanged (taken 0) refl)
                      (λ e. record {
                        sender = refl;
                        transfer_id = refl;
                        closed = refl;
                        cancel_sent = refl;
                        told = λ k. refl;
                      }))
                  (λ e. send_bytes-Read (mul_size size count) w))))

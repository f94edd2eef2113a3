-- ===== src/Stream/Outflow.antt =====
-- cbits/stream.c: the writer and libcurl's read callback, step by step.
use mathlib.Core.Path.{subst}
use hcurl.Prelude.{
  ℕ, ◌≤◌, ◌<◌, ◌≡◌, refl, sym, ◌∙◌, Bool, true, false, not, ◌&&◌, ◌||◌, List, [], ◌∷◌, Option, none,
  some, arith, size_max, length, ltb, ◌==◌, if-elim, ◌⊎◌, inl, inr, true-ne-false,
}
use hcurl.Waker.{Put}
use hcurl.Stream.State.{is_download, Stream, World, Answers, push_chunk, with_stream}
use hcurl.Stream.Ring.{push_chunk-contents}
use hcurl.Stream.Invariant.{IsValid, Moved, Still, still, Still-refl, Moved-Still}
use hcurl.Stream.Ends.{resume_if_paused-Still}
use hcurl.Stream.Inflow.{push-bytes}
use hcurl.Stream.Control.{ControlResult, resume_if_paused}
use hcurl.Stream.Download.{WaitResult}
use hcurl.Stream.Upload.{
  WriteResult, WriteOut, write_status, refuse_write, write_open, resume_if, try_write,
  finish_upload, wait_write, cancel_wait_write,
}

-- What a writer's call says was taken.
abbrev pub written_bytes : WriteResult → List ℕ → List ℕ
written_bytes WriteResult.write_ok bytes = bytes
written_bytes WriteResult.control_pending bytes = bytes
written_bytes _ bytes = []

written-status : (r : ControlResult) (bytes : List ℕ) → written_bytes (write_status r) bytes ≡ bytes
written-status ControlResult.control_ok bytes = refl
written-status ControlResult.retry bytes = refl
written-status ControlResult.control_closed bytes = refl

push_chunk-Moved :
    {s : Stream} (xs : List ℕ) (n : ℕ)
    → IsValid s
    → is_download s.kind ≡ false
    → s.closed ≡ false
    → s.count < s.capacity
    → length xs ≡ n
    → 0 < n
    → n ≤ size_max
    → Moved s xs [] [] (push_chunk xs n s)
unfolding push_chunk
push_chunk-Moved {s} xs n v kind alive free e pos fits =
    let (ring, _) = push_chunk-contents s xs n v.ring free e pos fits in
    record {
      valid = record { ring = ring; flags = ground arith };
      bytes = push-bytes s xs n v.ring free e pos fits;
      quiet = λ c. true-ne-false (sym c ∙ alive);
      lossless = λ c. refl;
      final = λ t. (t, refl);
    }

length-empty : (xs : List ℕ) → length xs ≡ 0 → xs ≡ []
length-empty [] e = refl
length-empty (x ∷ xs) e = absurd (omega arith)

write_open-Moved :
    (a : Answers) (bytes : List ℕ) (w : World)
    → IsValid w.stream
    → is_download w.stream.kind ≡ false
    → w.stream.closed ≡ false
    → length bytes ≤ size_max
    → let r = write_open a bytes w in Moved w.stream (written_bytes r.0.0 bytes) [] [] r.2.stream
unfolding write_open resume_if
write_open-Moved a bytes w v kind alive fits =
    if-elim P w.stream.finished (λ e. Still-refl v)
      (λ e.
        if-elim P (length bytes == 0)
          (λ f.
            subst (λ k. Moved w.stream k [] [] w.stream) (sym (length-empty bytes (ground arith)))
              (Still-refl v))
          (λ f.
            if-elim P (w.stream.count == w.stream.capacity) (λ g. Still-refl v)
              (λ g.
                if-elim P (not a.malloc_ok) (λ h. Still-refl v)
                  (λ h.
                    let pushed =
                      push_chunk-Moved bytes (length bytes) v kind alive
                        (ground (arith, v.ring.room)) refl (ground arith) fits in
                    let out = with_stream w (push_chunk bytes (length bytes) w.stream) in
                    subst
                      (λ k.
                        Moved w.stream k [] [] (resume_if_paused a w.stream.paused out).2.stream)
                      (sym (written-status (resume_if_paused a w.stream.paused out).0 bytes))
                      (Moved-Still pushed
                        (resume_if_paused-Still a w.stream.paused out pushed.valid))))))
  where
    P : WriteOut × List Put × World → Type 0
    P r = Moved w.stream (written_bytes r.0.0 bytes) [] [] r.2.stream

-- What `refuse_write` finds: an answer by which nothing is written, or a stream that is open.
abbrev Refusal : Stream → Option WriteOut → Type 0
Refusal s r =
    ((out : WriteOut) × (r ≡ some out) × ((bytes : List ℕ) → written_bytes out.0 bytes ≡ []))
    ⊎ ((r ≡ none) × (is_download s.kind ≡ false) × (s.closed ≡ false) × (s.terminal_set ≡ false))

refuse_write-Refusal : (s : Stream) → Refusal s (refuse_write s)
unfolding refuse_write
refuse_write-Refusal s =
    if-elim (Refusal s) (is_download s.kind) (λ e. inl (_, refl, λ bytes. refl))
      (λ e.
        if-elim (Refusal s) s.closed (λ f. inl (_, refl, λ bytes. refl))
          (λ f.
            if-elim (Refusal s) s.terminal_set (λ g. inl (_, refl, λ bytes. refl))
              (λ g. inr (refl, e, f, g))))

-- `hcurl_stream_try_write` puts the bytes that it takes behind those in the queue.
pub try_write-Moved :
    (a : Answers) (bytes : List ℕ) (w : World)
    → IsValid w.stream
    → length bytes ≤ size_max
    → let r = try_write a bytes w in Moved w.stream (written_bytes r.0.0 bytes) [] [] r.2.stream
unfolding try_write
try_write-Moved a bytes w v fits = elim (refuse_write-Refusal w.stream) [
  | inl (out, e, none_written) ↦
      rw (try_write, e)
        (subst (λ k. Moved w.stream k [] [] w.stream) (sym (none_written bytes)) (Still-refl v))
  | inr (e, kind, alive, _) ↦ rw (try_write, e) (write_open-Moved a bytes w v kind alive fits)
]

finished-Still : {s : Stream} → IsValid s → Still s (record s { finished = true })
finished-Still {s} v =
    still (record { ring = v.ring; flags = ground arith }) refl (λ c. c) (λ t. (t, refl))

pub finish_upload-Still :
    (a : Answers) (w : World) → IsValid w.stream → Still w.stream (finish_upload a w).2.stream
unfolding finish_upload resume_if
finish_upload-Still a w v = elim (refuse_write-Refusal w.stream) [
  | inl (out, e, _) ↦ rw (finish_upload, e) (Still-refl v)
  | inr (e, _, _, _) ↦
      rw (finish_upload, e)
        (Moved-Still (finished-Still v) (
          resume_if_paused-Still a w.stream.paused
            (with_stream w (record w.stream { finished = true })) (finished-Still v).valid))
]

pub wait_write-Still :
    (mvar capability : ℕ) {s : Stream} → IsValid s → Still s (wait_write mvar capability s).1
unfolding wait_write
wait_write-Still mvar capability {s} v =
    if-elim P (mvar == 0 || is_download s.kind) (λ e. Still-refl v)
      (λ e.
        if-elim P (ltb s.count s.capacity || s.closed || s.terminal_set) (λ f. Still-refl v)
          (λ f.
            if-elim P s.write_waiter.present (λ g. Still-refl v)
              (λ g.
                still (record { ring = v.ring; flags = ground (arith, v.ring.room) }) refl (λ c. c)
                  (λ t. (t, refl)))))
  where
    P : WaitResult × Stream → Type 0
    P r = Still s r.1

pub cancel_wait_write-Still :
    (mvar : ℕ) {s : Stream} → IsValid s → Still s (cancel_wait_write mvar s).1
unfolding cancel_wait_write
cancel_wait_write-Still mvar {s} v =
    if-elim (λ (r : Bool × Stream). Still s r.1)
      (not (is_download s.kind)
        && not (mvar == 0)
        && s.write_waiter.present
        && s.write_waiter.waker.mvar == mvar)
      (λ e. still (record { ring = v.ring; flags = ground arith }) refl (λ c. c) (λ t. (t, refl)))
      (λ e. Still-refl v)

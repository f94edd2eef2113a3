-- ===== src/Stream/Inflow.antt =====
-- cbits/stream.c: libcurl's write callback and the reader, step by step.
use mathlib.Core.List.{append-nil}
use hcurl.Prelude.{
  ℕ, ◌*◌, ◌≤◌, ◌<◌, ◌≡◌, refl, sym, ap, ◌∙◌, Bool, true, false, not, ◌&&◌, ◌||◌, List, [], ◌∷◌,
  ◌++◌, some, arith, size_max, length, ◌==◌, if-elim, mul_size, product_overflows,
  product_overflows_lem, take, drop, true-ne-false, length-take,
}
use hcurl.Waker.{Put}
use hcurl.Stream.State.{
  is_download, Stream, World, Answers, bytes_of, push_chunk, pop_chunk, head_chunk, with_stream,
  detached, detach_waiter,
}
use hcurl.Stream.Ring.{
  Holds, queued, contents, unread_bytes, unread_bytes-append, push_chunk-contents,
  pop_chunk-contents,
}
use hcurl.Stream.Invariant.{IsValid, Moved, Still, still, Still-refl, Moved-Still}
use hcurl.Stream.Ends.{resume_if_paused-Still}
use hcurl.Stream.Download.{
  CallbackReturn, taken, pause, abort_transfer, mark_headers_started, accept_chunk, deliver,
  write_locked, write_callback, ReadOut, read_chunk, try_read, WaitResult, wait_read,
  cancel_wait_read,
}

pub push-bytes :
    (s : Stream) (xs : List ℕ) (n : ℕ)
    → Holds s
    → s.count < s.capacity
    → length xs ≡ n
    → 0 < n
    → n ≤ size_max
    → queued s ++ xs ≡ queued (push_chunk xs n s)
push-bytes s xs n r free e pos fits =
    let (_, last) = push_chunk-contents s xs n r free e pos fits in
    ap (λ t. queued s ++ t) (sym (append-nil xs))
    ∙ sym (
        ap unread_bytes last
        ∙ unread_bytes-append (contents s)
            (record { bytes = some xs; length = n; offset = 0 } ∷ []))

accept_chunk-Moved :
    {s : Stream} (xs : List ℕ) (n : ℕ)
    → IsValid s
    → is_download s.kind ≡ true
    → s.closed ≡ false
    → s.count < s.capacity
    → length xs ≡ n
    → 0 < n
    → n ≤ size_max
    → Moved s xs [] [] (accept_chunk xs n s)
unfolding accept_chunk detached detach_waiter
accept_chunk-Moved {s} xs n v kind alive free e pos fits =
    let (ring, _) = push_chunk-contents s xs n v.ring free e pos fits in
    record {
      valid = record { ring = ring; flags = ground arith };
      bytes = push-bytes s xs n v.ring free e pos fits;
      quiet = λ c. true-ne-false (sym c ∙ alive);
      lossless = λ c. refl;
      final = λ t. (t, refl);
    }

pop_chunk-Moved :
    {s : Stream}
    → IsValid s
    → is_download s.kind ≡ true
    → 0 < s.count
    → Moved s [] (bytes_of (head_chunk s).bytes) [] (pop_chunk s)
unfolding pop_chunk
pop_chunk-Moved {s} v kind some_left =
    let (ring, l, first) = pop_chunk-contents s v.ring some_left in
    record {
      valid = record { ring = ring; flags = ground arith };
      bytes =
          append-nil (queued s)
          ∙ ap unread_bytes first
          ∙ ap (λ k. drop k (bytes_of (head_chunk s).bytes) ++ queued (pop_chunk s)) (l.whole kind);
      quiet = λ c. ground arith;
      lossless = λ c. refl;
      final = λ t. (t, refl);
    }

-- What a write callback's answer says was taken.
abbrev pub taken_bytes : CallbackReturn → List ℕ → List ℕ
taken_bytes (taken n) bytes = take n bytes
taken_bytes pause bytes = []
taken_bytes abort_transfer bytes = []

deliver-Moved :
    (a : Answers) (bytes : List ℕ) (total : ℕ) (w : World)
    → IsValid w.stream
    → a.pause_ok ≡ true
    → is_download w.stream.kind ≡ true
    → w.stream.closed ≡ false
    → w.stream.count < w.stream.capacity
    → total ≤ length bytes
    → 0 < total
    → total ≤ size_max
    → let r = deliver a (take total bytes) total w in
      Moved w.stream (taken_bytes r.0 bytes) [] [] r.2.stream
unfolding deliver
deliver-Moved a bytes total w v paused kind alive free enough pos fits =
    if-elim
      (λ r.
        Moved w.stream (taken_bytes r bytes) [] [] (accept_chunk (take total bytes) total w.stream))
      ((accept_chunk (take total bytes) total w.stream).count
          == (accept_chunk (take total bytes) total w.stream).capacity
        && (accept_chunk (take total bytes) total w.stream).attached
        && not a.pause_ok)
      (λ e. ground arith)
      (λ e.
        accept_chunk-Moved (take total bytes) total v kind alive free
          (omega (arith, length-take total bytes)) pos fits)

paused-Moved :
    {s : Stream}
    → IsValid s
    → s.closed ≡ false
    → s.count ≡ s.capacity
    → Still s (record s { paused = true })
paused-Moved {s} v alive full =
    still (record { ring = v.ring; flags = ground (arith, v.ring.pos) }) refl (λ c. c)
      (λ t. (t, refl))

write_locked-Moved :
    (a : Answers) (bytes : List ℕ) (total : ℕ) (w : World)
    → IsValid w.stream
    → a.pause_ok ≡ true
    → is_download w.stream.kind ≡ true
    → total ≤ length bytes
    → 0 < total
    → total ≤ size_max
    → let r = write_locked a bytes total w in
      Moved w.stream (taken_bytes r.0 bytes) [] [] r.2.stream
unfolding write_locked
write_locked-Moved a bytes total w v paused kind enough pos fits =
    if-elim P (w.stream.closed || w.stream.terminal_set) (λ e. Still-refl v)
      (λ e.
        if-elim P (w.stream.count == w.stream.capacity)
          (λ f. paused-Moved v (ground arith) (ground arith))
          (λ f.
            if-elim P (not a.malloc_ok) (λ g. Still-refl v)
              (λ g.
                deliver-Moved a bytes total w v paused kind (ground arith)
                  (ground (arith, v.ring.room)) enough pos fits)))
  where
    P : CallbackReturn × List Put × World → Type 0
    P r = Moved w.stream (taken_bytes r.0 bytes) [] [] r.2.stream

-- `hcurl_download_write_callback` puts exactly the bytes that it takes behind those in the queue.
pub write_callback-Moved :
    (a : Answers) (bytes : List ℕ) (size count : ℕ) (w : World)
    → IsValid w.stream
    → a.pause_ok ≡ true
    → size * count ≤ length bytes
    → let r = write_callback a bytes size count w in
      Moved w.stream (taken_bytes r.0 bytes) [] [] r.2.stream
unfolding write_callback
write_callback-Moved a bytes size count w v paused enough =
    if-elim P (not (is_download w.stream.kind) || product_overflows size count) (λ e. Still-refl v)
      (λ e.
        let fits : size * count ≤ size_max = ground (arith, product_overflows_lem size count) in
        let exact : mul_size size count ≡ size * count = omega arith in
        if-elim P (mul_size size count == 0) (λ f. Still-refl v)
          (λ f.
            write_locked-Moved a bytes (mul_size size count)
              (record w { headers = (mark_headers_started w.headers).1 }) v paused (ground arith)
              (omega arith) (ground arith) (omega arith)))
  where
    P : CallbackReturn × List Put × World → Type 0
    P r = Moved w.stream (taken_bytes r.0 bytes) [] [] r.2.stream

read_chunk-Moved :
    (a : Answers) (w : World)
    → IsValid w.stream
    → is_download w.stream.kind ≡ true
    → 0 < w.stream.count
    → let r = read_chunk a w in Moved w.stream [] (bytes_of r.0.bytes) [] r.2.stream
unfolding read_chunk
read_chunk-Moved a w v kind some_left = Moved-Still (pop_chunk-Moved v kind some_left) (
    resume_if_paused-Still a w.stream.paused (with_stream w (pop_chunk w.stream))
      (pop_chunk-Moved v kind some_left).valid)

-- `hcurl_stream_try_read` hands out the bytes at the front of the queue.
pub try_read-Moved :
    (a : Answers) (w : World)
    → IsValid w.stream
    → let r = try_read a w in Moved w.stream [] (bytes_of r.0.bytes) [] r.2.stream
unfolding try_read
try_read-Moved a w v =
    if-elim P (not (is_download w.stream.kind)) (λ e. Still-refl v)
      (λ e.
        if-elim P (not (w.stream.count == 0))
          (λ f. read_chunk-Moved a w v (ground arith) (ground arith))
          (λ f.
            if-elim P w.stream.closed (λ g. Still-refl v)
              (λ g. if-elim P w.stream.terminal_set (λ h. Still-refl v) (λ h. Still-refl v))))
  where
    P : ReadOut × List Put × World → Type 0
    P r = Moved w.stream [] (bytes_of r.0.bytes) [] r.2.stream

-- `hcurl_stream_wait_read` and its cancellation move no bytes.
pub wait_read-Still :
    (mvar capability : ℕ) {s : Stream} → IsValid s → Still s (wait_read mvar capability s).1
unfolding wait_read
wait_read-Still mvar capability {s} v =
    if-elim P (mvar == 0 || not (is_download s.kind)) (λ e. Still-refl v)
      (λ e.
        if-elim P (not (s.count == 0) || s.closed || s.terminal_set) (λ f. Still-refl v)
          (λ f.
            if-elim P s.paused (λ g. Still-refl v)
              (λ g.
                if-elim P s.read_waiter.present (λ h. Still-refl v)
                  (λ h.
                    still (record { ring = v.ring; flags = ground arith }) refl (λ c. c)
                      (λ t. (t, refl))))))
  where
    P : WaitResult × Stream → Type 0
    P r = Still s r.1

pub cancel_wait_read-Still :
    (mvar : ℕ) {s : Stream} → IsValid s → Still s (cancel_wait_read mvar s).1
unfolding cancel_wait_read
cancel_wait_read-Still mvar {s} v =
    if-elim (λ (r : Bool × Stream). Still s r.1)
      (is_download s.kind
        && not (mvar == 0)
        && s.read_waiter.present
        && s.read_waiter.waker.mvar == mvar)
      (λ e. still (record { ring = v.ring; flags = ground arith }) refl (λ c. c) (λ t. (t, refl)))
      (λ e. Still-refl v)

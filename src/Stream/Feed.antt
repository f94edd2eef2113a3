-- ===== src/Stream/Feed.antt =====
-- cbits/stream.c: libcurl's read callback hands out the bytes at the front of the queue.
use mathlib.Core.Path.{subst}
use mathlib.Core.List.{append-nil}
use hcurl.Prelude.{
  ℕ, ◌-◌, ◌<◌, ◌≡◌, refl, sym, ap, ◌∙◌, true, false, not, ◌&&◌, ◌||◌, List, [], ◌++◌, arith, ltb,
  ◌==◌, if◌then◌else◌, if-elim, mul_size, product_overflows, take, drop, ◌⊎◌, inl, inr,
}
use hcurl.Waker.{Put}
use hcurl.Stream.State.{
  Chunk, is_download, Stream, World, bytes_of, pop_chunk, head_chunk, detached, detach_waiter,
  curle_ok,
}
use hcurl.Stream.Ring.{Holds, queued}
use hcurl.Stream.Drain.{Consumed, consume-Consumed}
use hcurl.Stream.Invariant.{IsValid, Flags, Moved, Still, still, Still-refl}
use hcurl.Stream.Download.{CallbackReturn}
use hcurl.Stream.Upload.{consume, send_bytes, read_callback}

-- What the flags of a stream become when a chunk is read.
record Read (s t : Stream) : Type 0 where
  flags : Flags t
  closed : t.closed ≡ s.closed
  ended : (t.terminal_set ≡ s.terminal_set) × (t.terminal_code ≡ s.terminal_code)

abbrev Shape : Stream → Stream → Type 0
Shape s t = (t ≡ pop_chunk s) ⊎ ((chunks : List Chunk) × (t ≡ record s { chunks = chunks }))

-- The writer is woken, or keeps waiting.
room-Read :
    {s t : Stream}
    → IsValid s
    → is_download s.kind ≡ false
    → 0 < s.count
    → Shape s t
    → Read s (record t { write_waiter = detached s.write_waiter })
unfolding pop_chunk detached detach_waiter
room-Read {s} v kind some_left (inl e) =
    subst (λ t. Read s (record t { write_waiter = detached s.write_waiter })) (sym e) (ground arith)
room-Read {s} v kind some_left (inr (chunks, e)) =
    subst (λ t. Read s (record t { write_waiter = detached s.write_waiter })) (sym e) (ground arith)

full-Read :
    {s t : Stream}
    → IsValid s
    → is_download s.kind ≡ false
    → 0 < s.count
    → Shape s t
    → (s.count == s.capacity && ltb t.count t.capacity) ≡ false
    → Read s t
unfolding pop_chunk
full-Read {s} v kind some_left (inl e) =
    subst (λ t. (s.count == s.capacity && ltb t.count t.capacity) ≡ false → Read s t) (sym e)
      (λ h. ground (arith, v.ring.room))
full-Read {s} v kind some_left (inr (chunks, e)) =
    subst (λ t. (s.count == s.capacity && ltb t.count t.capacity) ≡ false → Read s t) (sym e)
      (λ h. ground arith)

Read-Moved :
    {k : ℕ} {s t u : Stream}
    → IsValid s
    → 0 < s.count
    → Consumed k s t
    → Read s u
    → Holds u
    → queued u ≡ queued t
    → Moved s [] (take k (drop (head_chunk s).offset (bytes_of (head_chunk s).bytes))) [] u
Read-Moved {k} {s} {t} {u} v some_left c r ring e = record {
  valid = record { ring = ring; flags = r.flags };
  bytes =
      append-nil (queued s)
      ∙ c.bytes
      ∙ ap (λ q. take k (drop (head_chunk s).offset (bytes_of (head_chunk s).bytes)) ++ q) (sym e);
  quiet = λ shut. ground arith;
  lossless = λ _. refl;
  final = λ f. (r.ended.0 ∙ f, r.ended.1);
}

send_bytes-Moved :
    (capacity : ℕ) (w : World)
    → IsValid w.stream
    → is_download w.stream.kind ≡ false
    → 0 < w.stream.count
    → let r = send_bytes capacity w in Moved w.stream [] r.1 [] r.3.stream
unfolding send_bytes
send_bytes-Moved capacity w v kind some_left =
    let s = w.stream in
    let remaining = (head_chunk s).length - (head_chunk s).offset in
    let copied : ℕ = if ltb remaining capacity then remaining else capacity in
    let c = consume-Consumed copied s v.ring some_left kind (ground arith) in
    if-elim
      (λ (r : CallbackReturn × List ℕ × List Put × World). Moved w.stream [] r.1 [] r.3.stream)
      (s.count == s.capacity && ltb (consume copied s).count (consume copied s).capacity)
      (λ e. Read-Moved v some_left c (room-Read v kind some_left c.shape) c.ring refl)
      (λ e. Read-Moved v some_left c (full-Read v kind some_left c.shape e) c.ring refl)

starved-Still :
    {s : Stream}
    → IsValid s
    → is_download s.kind ≡ false
    → s.closed ≡ false
    → Still s (record s { paused = true })
starved-Still {s} v kind alive =
    still (record { ring = v.ring; flags = ground arith }) refl (λ c. c) (λ t. (t, refl))

-- `hcurl_upload_read_callback` hands out the bytes at the front of the queue.
pub read_callback-Moved :
    (size count : ℕ) (w : World)
    → IsValid w.stream
    → let r = read_callback size count w in Moved w.stream [] r.1 [] r.3.stream
unfolding read_callback
read_callback-Moved size count w v =
    if-elim P (is_download w.stream.kind || product_overflows size count) (λ e. Still-refl v)
      (λ e.
        if-elim P (mul_size size count == 0) (λ f. Still-refl v)
          (λ f.
            if-elim P
              (w.stream.closed
                || (w.stream.terminal_set && not (w.stream.terminal_code == curle_ok)))
              (λ g. Still-refl v)
              (λ g.
                if-elim P (w.stream.count == 0)
                  (λ h.
                    if-elim P w.stream.finished (λ i. Still-refl v)
                      (λ i. starved-Still v (ground arith) (ground arith)))
                  (λ h. send_bytes-Moved (mul_size size count) w v (ground arith) (ground arith)))))
  where
    P : CallbackReturn × List ℕ × List Put × World → Type 0
    P r = Moved w.stream [] r.1 [] r.3.stream

-- ===== src/Stream/Wakes.antt =====
-- cbits/stream.c: a reader that waits is woken by the next data.
use hcurl.Prelude.{
  ℕ, ◌*◌, ◌≤◌, ◌≡◌, ◌≢◌, ap, true, false, not, ◌||◌, List, [], ◌∷◌, ◌++◌, arith, size_max, ◌==◌,
  mul_size, product_overflows, product_overflows_lem, take,
}
use hcurl.Waker.{Slot, Put, wake_detached, wake_up_waker}
use hcurl.Headers.Collector.Invariant.{CanWake}
use hcurl.Stream.State.{is_download, Stream, World, Answers, wake, detach_waiter, detached}
use hcurl.Stream.Invariant.{IsValid}
use hcurl.Stream.Download.{
  accept_chunk, deliver, write_locked, mark_headers_started, write_callback,
}

abbrev pub wake_of : Slot → List Put
wake_of slot = (slot.waker.capability, slot.waker.mvar) ∷ []

wake-present : (s : Slot) → CanWake s → s.present ≡ true → wake s ≡ wake_of s
unfolding wake detach_waiter wake_detached wake_up_waker
wake-present s can e = ground arith

accepted-absent :
    (bytes : List ℕ) (n : ℕ) (s : Stream) → (accept_chunk bytes n s).read_waiter.present ≡ false
unfolding accept_chunk detached detach_waiter
accepted-absent bytes n s = ground arith

locked-wakes :
    (a : Answers) (bytes : List ℕ) (total : ℕ) (w : World)
    → IsValid w.stream
    → w.stream.read_waiter.present ≡ true
    → a.malloc_ok ≡ true
    → ((write_locked a bytes total w).1 ≡ wake_of w.stream.read_waiter)
      × ((write_locked a bytes total w).2.stream.read_waiter.present ≡ false)
unfolding write_locked deliver
locked-wakes a bytes total w v waits granted =
    let running : (w.stream.closed || w.stream.terminal_set) ≡ false = ground arith in
    let free : (w.stream.count == w.stream.capacity) ≡ false = ground (arith, v.ring.pos) in
    let memory : (not a.malloc_ok) ≡ false = ap not granted in
    rw (write_locked, running, free, memory)
      (
        wake-present w.stream.read_waiter v.flags.reader_wakes waits,
        accepted-absent (take total bytes) total w.stream,
      )

-- A reader that is registered at a valid stream is woken, by one call with its `StablePtr`, when
-- `hcurl_download_write_callback` brings some bytes and gets memory for them; it is then no longer
-- registered.
pub write_callback-wakes :
    (a : Answers) (bytes : List ℕ) (size count : ℕ) (w : World)
    → IsValid w.stream
    → w.stream.read_waiter.present ≡ true
    → a.malloc_ok ≡ true
    → size * count ≤ size_max
    → size * count ≢ 0
    → ((write_callback a bytes size count w).1
        ≡ (mark_headers_started w.headers).0 ++ wake_of w.stream.read_waiter)
      × ((write_callback a bytes size count w).2.stream.read_waiter.present ≡ false)
unfolding write_callback
write_callback-wakes a bytes size count w v waits granted fits some_bytes =
    let exact : mul_size size count ≡ size * count = omega arith in
    let kind : (not (is_download w.stream.kind) || product_overflows size count) ≡ false =
      ground (arith, product_overflows_lem size count) in
    let more : (mul_size size count == 0) ≡ false = ground arith in
    let started : World = record w { headers = (mark_headers_started w.headers).1 } in
    let (woken, gone) = locked-wakes a bytes (mul_size size count) started v waits granted in
    rw (write_callback, kind, more) (ap (λ k. (mark_headers_started w.headers).0 ++ k) woken, gone)

-- ===== src/Stream/Upload.antt =====
-- cbits/stream.c: the writer, which produces, and libcurl's read callback, which consumes.
use hcurl.Prelude.{
  ℕ, ◌-◌, Bool, true, false, ◌&&◌, ◌||◌, not, List, [], Option, none, some, ltb, ◌==◌,
  if◌then◌else◌, mul_size, add_size, product_overflows, take, drop, set, length,
}
use hcurl.Waker.{Put, registered}
use hcurl.Metrics.{Metrics, add_uploaded}
use hcurl.Stream.State.{
  is_download, Stream, World, Answers, bytes_of, curle_ok, aborted_by_callback, wake, detached,
  push_chunk, head_chunk, pop_chunk, with_stream,
}
use hcurl.Stream.Control.{ControlResult, control_ok, retry, control_closed, resume_if_paused}
use hcurl.Stream.Download.{
  CallbackReturn, taken, pause, abort_transfer, WaitResult, wait_registered, wait_ready,
  wait_invalid,
}

-- `curl_metrics_add_uploaded(stream->metrics, bytes)`
unfoldable pub count_uploaded : ℕ → Option Metrics → Option Metrics
count_uploaded n none = none
count_uploaded n (some m) = some (add_uploaded n m)

-- The lines that take `copied` bytes from the chunk at the head.
unfoldable pub consume : ℕ → Stream → Stream
unfolding pop_chunk
consume copied s =
    let head = head_chunk s in
    let offset = add_size head.offset copied in
    if offset == head.length
    then pop_chunk s
    else record s { chunks = set s.chunks s.head (record head { offset = offset }) }

-- The copy of as many bytes as libcurl's buffer takes; the option is what is written to it.
unfoldable pub send_bytes : ℕ → World → CallbackReturn × List ℕ × List Put × World
unfolding consume count_uploaded wake detached
send_bytes capacity w =
    let s = w.stream in
    let head = head_chunk s in
    let remaining = head.length - head.offset in
    let copied : ℕ = if ltb remaining capacity then remaining else capacity in
    let rest = consume copied s in
    let made_room = s.count == s.capacity && ltb rest.count rest.capacity in
    let sent = take copied (drop head.offset (bytes_of head.bytes)) in
    let counted = count_uploaded copied w.metrics in
    if made_room
    then (
      taken copied,
      sent,
      wake s.write_waiter,
      record w {
        stream = record rest { write_waiter = detached s.write_waiter };
        metrics = counted;
      },
    )
    else (taken copied, sent, [], record w { stream = rest; metrics = counted })

-- `hcurl_upload_read_callback`: what it returns, and what it writes to `buffer`.
unfoldable pub read_callback : ℕ → ℕ → World → CallbackReturn × List ℕ × List Put × World
unfolding send_bytes
read_callback size count w =
    if is_download w.stream.kind || product_overflows size count
    then (abort_transfer, [], [], w)
    else let capacity = mul_size size count in
      if capacity == 0
      then (taken 0, [], [], w)
      else if w.stream.closed || (w.stream.terminal_set && not (w.stream.terminal_code == curle_ok))
      then (abort_transfer, [], [], w)
      else if w.stream.count == 0
      then (if w.stream.finished
          then (taken 0, [], [], w)
          else (pause, [], [], with_stream w (record w.stream { paused = true })))
      else send_bytes capacity w

-- `enum hcurl_stream_write_result`
pub data WriteResult : Type 0 where
  write_ok would_block terminal write_closed control_pending out_of_memory : WriteResult

-- What a writer's call returns, and what it writes through `terminal_code`.
abbrev pub WriteOut : Type 0
WriteOut = WriteResult × ℕ

abbrev pub write_status : ControlResult → WriteResult
write_status control_ok = write_ok
write_status retry = control_pending
write_status control_closed = control_pending

-- The end of both writer's calls: a paused transfer is resumed.
unfoldable pub resume_if : Answers → Bool → World → WriteOut × List Put × World
unfolding resume_if_paused
resume_if a paused w =
    let (control, puts, w') = resume_if_paused a paused w in
    ((write_status control, curle_ok), puts, w')

-- The tests with which both writer's calls begin: the refusal, if there is one.
unfoldable pub refuse_write : Stream → Option WriteOut
refuse_write s =
    if is_download s.kind
    then some (write_closed, curle_ok)
    else if s.closed
    then some (write_closed, aborted_by_callback)
    else if s.terminal_set
    then some (terminal, s.terminal_code)
    else none

-- `hcurl_stream_try_write` behind those tests.
unfoldable pub write_open : Answers → List ℕ → World → WriteOut × List Put × World
unfolding resume_if push_chunk
write_open a bytes w =
    if w.stream.finished
    then ((write_closed, aborted_by_callback), [], w)
    else if length bytes == 0
    then ((write_ok, curle_ok), [], w)
    else if w.stream.count == w.stream.capacity
    then ((would_block, curle_ok), [], w)
    else if not a.malloc_ok
    then ((out_of_memory, curle_ok), [], w)
    else resume_if a w.stream.paused (with_stream w (push_chunk bytes (length bytes) w.stream))

-- `hcurl_stream_try_write` of the bytes at `data`, with a place for the terminal code.
unfoldable pub try_write : Answers → List ℕ → World → WriteOut × List Put × World
unfolding refuse_write write_open
try_write a bytes w = elim (refuse_write w.stream) [
  | some out ↦ (out, [], w)
  | none ↦ write_open a bytes w
]

-- `hcurl_stream_finish_upload`
unfoldable pub finish_upload : Answers → World → WriteOut × List Put × World
unfolding refuse_write resume_if
finish_upload a w = elim (refuse_write w.stream) [
  | some out ↦ (out, [], w)
  | none ↦ resume_if a w.stream.paused (with_stream w (record w.stream { finished = true }))
]

-- `hcurl_stream_wait_write`
unfoldable pub wait_write : ℕ → ℕ → Stream → WaitResult × Stream
wait_write mvar capability s =
    if mvar == 0 || is_download s.kind
    then (wait_invalid, s)
    else if ltb s.count s.capacity || s.closed || s.terminal_set
    then (wait_ready, s)
    else if s.write_waiter.present
    then (wait_invalid, s)
    else (wait_registered, record s { write_waiter = registered mvar capability })

-- `hcurl_stream_cancel_wait_write`
unfoldable pub cancel_wait_write : ℕ → Stream → Bool × Stream
cancel_wait_write mvar s =
    if not (is_download s.kind)
      && not (mvar == 0)
      && s.write_waiter.present
      && s.write_waiter.waker.mvar == mvar
    then (
      true,
      record s {
        write_waiter = record { present = false; waker = record s.write_waiter.waker { mvar = 0 } };
      },
    )
    else (false, s)

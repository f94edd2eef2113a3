-- ===== src/Stream/Download.antt =====
-- cbits/stream.c: libcurl's write callback, which produces, and the reader, which consumes.
use hcurl.Prelude.{
  ℕ, Bool, true, false, ◌&&◌, ◌||◌, not, List, [], ◌++◌, Option, none, some, ◌==◌, if◌then◌else◌,
  mul_size, product_overflows, take,
}
use hcurl.Waker.{Put, registered}
use hcurl.Metrics.{Metrics, add_downloaded}
use hcurl.Headers.Collector
use hcurl.Headers.Collector.{HeaderData}
use hcurl.Stream.State.{
  is_download, Stream, World, Answers, curle_ok, aborted_by_callback, wake, detached, push_chunk,
  head_chunk, pop_chunk, with_stream,
}
use hcurl.Stream.Control.{ControlResult, control_ok, retry, control_closed, resume_if_paused}

-- What a callback returns to libcurl: a number of bytes, `CURL_WRITEFUNC_PAUSE` or
-- `CURL_READFUNC_PAUSE`, or `CURL_READFUNC_ABORT`.
pub data CallbackReturn : Type 0 where
  taken : ℕ → CallbackReturn
  pause abort_transfer : CallbackReturn

-- `header_data_mark_body_started(stream->headers)`
unfoldable pub mark_headers_started : Option HeaderData → List Put × Option HeaderData
mark_headers_started none = ([], none)
mark_headers_started (some h) = let (puts, h') = Collector.mark_body_started h in (puts, some h')

-- `curl_metrics_add_downloaded(stream->metrics, bytes)`
unfoldable pub count_downloaded : ℕ → Option Metrics → Option Metrics
count_downloaded n none = none
count_downloaded n (some m) = some (add_downloaded n m)

-- The section under the mutex once the chunk is copied; a stream that is full now is paused.
unfoldable pub accept_chunk : List ℕ → ℕ → Stream → Stream
unfolding push_chunk detached
accept_chunk bytes total s =
    let pushed = push_chunk bytes total s in
    record pushed {
      paused = if pushed.count == pushed.capacity then true else pushed.paused;
      read_waiter = detached s.read_waiter;
    }

-- What follows: the reader is woken, and libcurl is told to pause if the stream is full now.
unfoldable pub deliver : Answers → List ℕ → ℕ → World → CallbackReturn × List Put × World
unfolding accept_chunk count_downloaded wake
deliver a bytes total w =
    let accepted = accept_chunk bytes total w.stream in
    let woken = wake w.stream.read_waiter in
    let w' : World = record w { stream = accepted; metrics = count_downloaded total w.metrics } in
    let answer : CallbackReturn =
      if accepted.count == accepted.capacity && accepted.attached && not a.pause_ok
      then taken 0
      else taken total in
    (answer, woken, w')

-- The section of `hcurl_download_write_callback` under the mutex, and what follows it.
unfoldable pub write_locked : Answers → List ℕ → ℕ → World → CallbackReturn × List Put × World
unfolding deliver
write_locked a bytes total w =
    if w.stream.closed || w.stream.terminal_set
    then (taken 0, [], w)
    else if w.stream.count == w.stream.capacity
    then (pause, [], with_stream w (record w.stream { paused = true }))
    else if not a.malloc_ok
    then (taken 0, [], w)
    else deliver a (take total bytes) total w

-- `hcurl_download_write_callback`; `bytes` is what `data` points to.
unfoldable pub write_callback : Answers → List ℕ → ℕ → ℕ → World → CallbackReturn × List Put × World
unfolding mark_headers_started write_locked
write_callback a bytes size count w =
    if not (is_download w.stream.kind) || product_overflows size count
    then (taken 0, [], w)
    else let total = mul_size size count in
      if total == 0
      then (taken 0, [], w)
      else let (started, headers) = mark_headers_started w.headers in
        let (result, puts, w') = write_locked a bytes total (record w { headers = headers }) in
        (result, started ++ puts, w')

-- `enum hcurl_stream_read_result`
pub data ReadResult : Type 0 where
  chunk would_block eof read_error read_closed chunk_control_pending : ReadResult

-- What `hcurl_stream_try_read` returns, and what it writes through `data`, `length` and
-- `terminal_code`.
pub record ReadOut : Type 0 where
  pub result : ReadResult
  pub bytes : Option (List ℕ)
  pub length : ℕ
  pub terminal_code : ℕ

abbrev pub no_chunk : ReadResult → ℕ → ReadOut
no_chunk result code = record { result = result; bytes = none; length = 0; terminal_code = code }

abbrev pub read_status : ControlResult → ReadResult
read_status control_ok = chunk
read_status retry = chunk_control_pending
read_status control_closed = chunk_control_pending

-- The chunk at the head goes to the reader; a paused transfer is resumed.
unfoldable pub read_chunk : Answers → World → ReadOut × List Put × World
unfolding pop_chunk resume_if_paused
read_chunk a w =
    let head = head_chunk w.stream in
    let popped = with_stream w (pop_chunk w.stream) in
    let (control, puts, w') = resume_if_paused a w.stream.paused popped in
    (
      record {
        result = read_status control;
        bytes = head.bytes;
        length = head.length;
        terminal_code = curle_ok;
      },
      puts,
      w',
    )

-- `hcurl_stream_try_read`, with places for its results. On a stream of the other kind it writes
-- nothing through them.
unfoldable pub try_read : Answers → World → ReadOut × List Put × World
unfolding read_chunk
try_read a w =
    if not (is_download w.stream.kind)
    then (no_chunk read_closed curle_ok, [], w)
    else if not (w.stream.count == 0)
    then read_chunk a w
    else if w.stream.closed
    then (no_chunk read_closed aborted_by_callback, [], w)
    else if w.stream.terminal_set
    then (
      no_chunk (if w.stream.terminal_code == curle_ok then eof else read_error)
          w.stream.terminal_code,
      [],
      w,
    )
    else (no_chunk would_block curle_ok, [], w)

-- `enum hcurl_stream_wait_result`
pub data WaitResult : Type 0 where
  wait_registered wait_ready wait_control_pending wait_invalid : WaitResult

-- `hcurl_stream_wait_read`
unfoldable pub wait_read : ℕ → ℕ → Stream → WaitResult × Stream
wait_read mvar capability s =
    if mvar == 0 || not (is_download s.kind)
    then (wait_invalid, s)
    else if not (s.count == 0) || s.closed || s.terminal_set
    then (wait_ready, s)
    else if s.paused
    then (wait_control_pending, s)
    else if s.read_waiter.present
    then (wait_invalid, s)
    else (wait_registered, record s { read_waiter = registered mvar capability })

-- `hcurl_stream_cancel_wait_read`
unfoldable pub cancel_wait_read : ℕ → Stream → Bool × Stream
cancel_wait_read mvar s =
    if is_download s.kind
      && not (mvar == 0)
      && s.read_waiter.present
      && s.read_waiter.waker.mvar == mvar
    then (
      true,
      record s {
        read_waiter = record { present = false; waker = record s.read_waiter.waker { mvar = 0 } };
      },
    )
    else (false, s)

-- ===== src/Stream/Control.antt =====
-- cbits/stream.c: the operations that send control messages or end a stream.
use hcurl.Prelude.{
  ℕ, Bool, true, false, ◌&&◌, ◌||◌, not, List, [], ◌++◌, Option, none, some, if◌then◌else◌,
}
use hcurl.Waker.{Put}
use hcurl.Sender
use hcurl.Sender.{Sender, Message, EnqueueResult, enqueue_outer_message}
use hcurl.Headers.Collector
use hcurl.Headers.Collector.{HeaderData}
use hcurl.Stream.State.{
  Stream, World, Answers, aborted_by_callback, wake, detached, drop_chunks, with_stream,
}

-- `enum hcurl_stream_control_result`
pub data ControlResult : Type 0 where
  control_ok retry control_closed : ControlResult

-- `enqueue_control`
unfoldable pub enqueue_control : Answers → Message → World → ControlResult × World
enqueue_control a message w =
    let (result, sender) = enqueue_outer_message a.calloc_ok a.queue_ok message w.sender in
    (
      elim result [
        | EnqueueResult.enqueued ↦ control_ok
        | EnqueueResult.closed ↦ control_closed
        | EnqueueResult.full ↦ retry
        | EnqueueResult.out_of_memory ↦ retry
      ],
      record w { sender = sender },
    )

-- `header_data_mark_complete(stream->headers, ...)`, whose pointer may be null.
unfoldable pub mark_headers_complete : ℕ → Option HeaderData → List Put × Option HeaderData
mark_headers_complete code none = ([], none)
mark_headers_complete code (some h) =
    let (puts, h') = Collector.mark_complete code h in (puts, some h')

-- The section of `hcurl_stream_complete` under the mutex; the first terminal code stays.
unfoldable pub complete_locked : ℕ → Stream → Stream
unfolding detached
complete_locked code s = record s {
  terminal_set = true;
  terminal_code = if s.terminal_set then s.terminal_code else code;
  attached = false;
  paused = false;
  read_waiter = detached s.read_waiter;
  write_waiter = detached s.write_waiter;
}

-- `hcurl_stream_complete`
unfoldable pub complete : ℕ → World → List Put × World
unfolding complete_locked mark_headers_complete wake
complete code w =
    let (puts, headers) = mark_headers_complete code w.headers in
    (
      puts ++ (wake w.stream.read_waiter ++ wake w.stream.write_waiter),
      record w { stream = complete_locked code w.stream; headers = headers },
    )

-- `needs_resume`
abbrev pub needs_resume : Stream → Bool
needs_resume s = s.paused && not s.closed && not s.terminal_set && not s.cancel_sent

-- What `hcurl_stream_flush_resume` and `hcurl_stream_close` do when the sender is closed.
abbrev pub abort : World → ControlResult × List Put × World
abort w = let (puts, w') = complete aborted_by_callback w in (control_ok, puts, w')

-- The first section of `hcurl_stream_flush_resume`, where there is a pause to lift.
abbrev pub lift_pause : Stream → Stream
lift_pause s = record s { paused = false }

-- The second section of `hcurl_stream_flush_resume`: a message that was not accepted leaves the
-- stream paused.
unfoldable pub restore_pause : Stream → Stream
restore_pause s =
    if not s.closed && not s.terminal_set && not s.cancel_sent
    then record s { paused = true }
    else s

-- The end of `hcurl_stream_flush_resume`, on what the sender answered.
unfoldable pub after_resume : ControlResult → World → ControlResult × List Put × World
unfolding restore_pause complete
after_resume control_ok w = (control_ok, [], w)
after_resume control_closed w = abort w
after_resume retry w = (retry, [], with_stream w (restore_pause w.stream))

-- `hcurl_stream_flush_resume`
unfoldable pub flush_resume : Answers → World → ControlResult × List Put × World
unfolding after_resume enqueue_control
flush_resume a w =
    if not (needs_resume w.stream)
    then (control_ok, [], w)
    else let (result, sent) =
        enqueue_control a (Message.resume_request w.stream.transfer_id)
          (with_stream w (lift_pause w.stream)) in
      after_resume result sent

-- `if (needs_resume && hcurl_stream_flush_resume(stream) ...)`, where the pause was read before.
unfoldable pub resume_if_paused : Answers → Bool → World → ControlResult × List Put × World
resume_if_paused a true w = flush_resume a w
resume_if_paused a false w = (control_ok, [], w)

-- The section of `hcurl_stream_close` under the mutex.
unfoldable pub close_locked : Stream → Stream
unfolding detached drop_chunks
close_locked s =
    let dropped = drop_chunks (record s { closed = true; paused = false }) in
    record dropped {
      read_waiter = detached s.read_waiter;
      write_waiter = detached s.write_waiter;
      cancel_sent = s.cancel_sent || not s.terminal_set;
    }

-- `needs_cancel`
abbrev pub needs_cancel : Stream → Bool
needs_cancel s = not s.terminal_set && not s.cancel_sent

-- A cancellation that was not accepted may be sent again.
unfoldable pub forget_cancel : Stream → Stream
forget_cancel s = if not s.terminal_set then record s { cancel_sent = false } else s

-- The end of `hcurl_stream_close`, on what the sender answered.
unfoldable pub after_cancel : ControlResult → World → ControlResult × List Put × World
unfolding forget_cancel complete
after_cancel control_ok w = (control_ok, [], w)
after_cancel control_closed w = abort w
after_cancel retry w = (retry, [], with_stream w (forget_cancel w.stream))

-- `hcurl_stream_close`
unfoldable pub close : Answers → World → ControlResult × List Put × World
unfolding close_locked after_cancel enqueue_control
close a w =
    let woken = wake w.stream.read_waiter ++ wake w.stream.write_waiter in
    let shut = with_stream w (close_locked w.stream) in
    if not (needs_cancel w.stream)
    then (control_ok, woken, shut)
    else let (result, sent) =
        enqueue_control a (Message.cancel_request w.stream.transfer_id) shut in
      let (answer, puts, ended) = after_cancel result sent in (answer, woken ++ puts, ended)

-- `hcurl_stream_normalize_completion`
unfoldable pub normalize_completion : Stream → ℕ → ℕ
normalize_completion s code = if s.closed || s.cancel_sent then aborted_by_callback else code

-- `hcurl_stream_destroy`: the wake-ups, and whether the sender is freed with it.
unfoldable pub destroy : World → List Put × Bool × Sender
unfolding wake Sender.release
destroy w = (
  wake w.stream.read_waiter ++ wake w.stream.write_waiter,
  (Sender.release w.sender).0,
  (Sender.release w.sender).1,
)

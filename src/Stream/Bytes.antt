-- ===== src/Stream/Bytes.antt =====
-- cbits/stream.c: any sequence of calls on one stream, by libcurl's callbacks, by a reader or a
-- writer, and by the agent. One call runs after another.
use hcurl.Prelude.{ℕ, ◌*◌, ◌≤◌, ◌≡◌, true, List, [], ◌∷◌, ◌++◌, length, size_max}
use hcurl.Stream.State.{World, Answers, bytes_of, with_stream}
use hcurl.Stream.Ring.{queued}
use hcurl.Stream.Invariant.{IsValid, Moved, Still-refl, Moved-trans}
use hcurl.Stream.Control.{complete, flush_resume, close}
use hcurl.Stream.Ends.{complete_locked-Still, flush_resume-Still, close-Moved}
use hcurl.Stream.Download.{write_callback, try_read, wait_read, cancel_wait_read}
use hcurl.Stream.Inflow.{
  taken_bytes, write_callback-Moved, try_read-Moved, wait_read-Still, cancel_wait_read-Still,
}
use hcurl.Stream.Upload.{read_callback, try_write, finish_upload, wait_write, cancel_wait_write}
use hcurl.Stream.Outflow.{
  written_bytes, try_write-Moved, finish_upload-Still, wait_write-Still, cancel_wait_write-Still,
}
use hcurl.Stream.Feed.{read_callback-Moved}

-- A call, with its arguments and with what the code outside answers during it.
pub data Call : Type 0 where
  write_data : Answers → (bytes : List ℕ) → (size count : ℕ) → Call
  read : Answers → Call
  await_read : (mvar capability : ℕ) → Call
  cancel_await_read : (mvar : ℕ) → Call
  read_data : (size count : ℕ) → Call
  send : Answers → (bytes : List ℕ) → Call
  finish : Answers → Call
  await_write : (mvar capability : ℕ) → Call
  cancel_await_write : (mvar : ℕ) → Call
  resume : Answers → Call
  shut : Answers → Call
  end : (code : ℕ) → Call

-- The bytes that a call took in and handed out, as its results tell, and the state it left.
pub record Transfer : Type 0 where
  pub accepted : List ℕ
  pub delivered : List ℕ
  pub world : World

abbrev quiet_transfer : World → Transfer
quiet_transfer w = record { accepted = []; delivered = []; world = w }

unfoldable pub step : Call → World → Transfer
step (write_data a bytes size count) w =
    let r = write_callback a bytes size count w in
    record { accepted = taken_bytes r.0 bytes; delivered = []; world = r.2 }
step (read a) w =
    let r = try_read a w in record { accepted = []; delivered = bytes_of r.0.bytes; world = r.2 }
step (await_read mvar capability) w =
    quiet_transfer (with_stream w (wait_read mvar capability w.stream).1)
step (cancel_await_read mvar) w = quiet_transfer (with_stream w (cancel_wait_read mvar w.stream).1)
step (read_data size count) w =
    let r = read_callback size count w in record { accepted = []; delivered = r.1; world = r.3 }
step (send a bytes) w =
    let r = try_write a bytes w in
    record { accepted = written_bytes r.0.0 bytes; delivered = []; world = r.2 }
step (finish a) w = quiet_transfer (finish_upload a w).2
step (await_write mvar capability) w =
    quiet_transfer (with_stream w (wait_write mvar capability w.stream).1)
step (cancel_await_write mvar) w =
    quiet_transfer (with_stream w (cancel_wait_write mvar w.stream).1)
step (resume a) w = quiet_transfer (flush_resume a w).2
step (shut a) w = quiet_transfer (close a w).2
step (end code) w = quiet_transfer (complete code w).1

-- All calls of a list, with the bytes taken in and handed out in order.
unfoldable pub run : List Call → World → Transfer
unfolding step
run [] w = quiet_transfer w
run (c ∷ cs) w =
    let first = step c w in
    let later = run cs first.world in
    record {
      accepted = first.accepted ++ later.accepted;
      delivered = first.delivered ++ later.delivered;
      world = later.world;
    }

-- What a call relies on: libcurl's callback points to the bytes that it announces, an explicit
-- pause of a transfer that is attached succeeds, and a writer's bytes have a `size_t` length.
abbrev pub IsFair : Call → Type 0
IsFair (write_data a bytes size count) = (size * count ≤ length bytes) × (a.pause_ok ≡ true)
IsFair (send a bytes) = length bytes ≤ size_max
IsFair _ = Unit

abbrev pub AllFair : List Call → Type 0
AllFair [] = Unit
AllFair (c ∷ cs) = IsFair c × AllFair cs

step-Moved :
    (c : Call) (w : World)
    → IsValid w.stream
    → IsFair c
    → (dropped : List ℕ) × Moved w.stream
        (step c w).accepted
        (step c w).delivered
        dropped
        (step c w).world.stream
unfolding step complete
step-Moved (write_data a bytes size count) w v fair =
    ([], write_callback-Moved a bytes size count w v fair.1 fair.0)
step-Moved (read a) w v fair = ([], try_read-Moved a w v)
step-Moved (await_read mvar capability) w v fair = ([], wait_read-Still mvar capability v)
step-Moved (cancel_await_read mvar) w v fair = ([], cancel_wait_read-Still mvar v)
step-Moved (read_data size count) w v fair = ([], read_callback-Moved size count w v)
step-Moved (send a bytes) w v fair = ([], try_write-Moved a bytes w v fair)
step-Moved (finish a) w v fair = ([], finish_upload-Still a w v)
step-Moved (await_write mvar capability) w v fair = ([], wait_write-Still mvar capability v)
step-Moved (cancel_await_write mvar) w v fair = ([], cancel_wait_write-Still mvar v)
step-Moved (resume a) w v fair = ([], flush_resume-Still a w v)
step-Moved (shut a) w v fair = (queued w.stream, close-Moved a w v)
step-Moved (end code) w v fair = ([], complete_locked-Still code v)

-- Any sequence of fair calls on a valid stream leaves it valid, and loses, repeats and reorders no
-- byte: what was queued, with what the calls accepted behind it, is what they delivered, then what
-- a close dropped, then what is queued at the end. Nothing is dropped unless the stream is closed at
-- the end; a stream that is closed accepts and delivers nothing; the first terminal code stays.
pub run-Moved :
    (cs : List Call) (w : World)
    → IsValid w.stream
    → AllFair cs
    → (dropped : List ℕ) × Moved w.stream
        (run cs w).accepted
        (run cs w).delivered
        dropped
        (run cs w).world.stream
unfolding run
run-Moved [] w v fair = ([], Still-refl v)
run-Moved (c ∷ cs) w v (fair, rest) =
    let (_, first) = step-Moved c w v fair in
    let (_, later) = run-Moved cs (step c w).world first.valid rest in Moved-trans first later

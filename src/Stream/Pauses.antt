-- ===== src/Stream/Pauses.antt =====
-- cbits/stream.c: a stream and the threads that use it, in any interleaving of their sections under
-- the mutex, of their calls of `enqueue_outer_message` and of the agent's rounds. The agent's thread
-- runs libcurl and its callbacks; other threads read, write, flush and close.
use hcurl.Prelude.{
  ℕ, ◌+◌, ◌-◌, ◌<◌, ◌≡◌, Bool, true, false, ◌&&◌, ◌||◌, not, List, [], ◌∷◌, ◌++◌, ◌==◌,
}
use hcurl.Sender.{Message}
use hcurl.Stream.State.{Stream, World, Answers, with_stream}
use hcurl.Stream.Control.{
  ControlResult, control_ok, retry, control_closed, enqueue_control, complete, needs_resume,
  lift_pause, restore_pause, close_locked, forget_cancel, abort,
}
use hcurl.Stream.Download.{CallbackReturn, taken, pause, abort_transfer, write_locked}
use hcurl.Stream.Upload.{read_callback}

-- The stream and what it points to; whether libcurl has paused the transfer, and whether a callback
-- has told it to and has not returned; how many threads in `hcurl_stream_flush_resume` are to send
-- the message, to restore the pause, or to end the stream.
pub record Threads : Type 0 where
  pub world : World
  pub halted : Bool
  pub halting : Bool
  pub flushing : ℕ
  pub restoring : ℕ
  pub aborting : ℕ

abbrev pub is_pause : CallbackReturn → Bool
is_pause pause = true
is_pause (taken n) = false
is_pause abort_transfer = false

-- Whether `hcurl_download_write_callback` has libcurl paused: it says so, or it calls
-- `curl_easy_pause` since the stream is full and attached.
abbrev pub halts_after : CallbackReturn → Stream → Bool
halts_after r s = is_pause r || (s.count == s.capacity && s.attached)

-- A message by which the agent resumes a transfer.
abbrev pub resumes : ℕ → Message → Bool
resumes id (Message.resume_request n) = n == id
resumes id (Message.execute p) = false
resumes id (Message.cancel_request n) = false
resumes id Message.stop_agent = false

abbrev pub will_resume : ℕ → List Message → Bool
will_resume id [] = false
will_resume id (m ∷ messages) = resumes id m || will_resume id messages

-- The thread that has sent its message goes on as the answer tells.
abbrev pub answered : ControlResult → Threads → Threads
answered control_ok s = s
answered retry s = record s { restoring = s.restoring + 1 }
answered control_closed s = record s { aborting = s.aborting + 1 }

-- A section that leaves the flags of the stream alone and drops no message.
pub record IsQuiet (w w' : World) : Type 0 where
  pub paused : w'.stream.paused ≡ w.stream.paused
  pub closed : w'.stream.closed ≡ w.stream.closed
  pub terminal_set : w'.stream.terminal_set ≡ w.stream.terminal_set
  pub cancel_sent : w'.stream.cancel_sent ≡ w.stream.cancel_sent
  pub transfer_id : w'.stream.transfer_id ≡ w.stream.transfer_id
  pub more : List Message
  pub queue : w'.sender.queue ≡ w.sender.queue ++ more

abbrev pub take_message : List Message → World → World
take_message rest w = record w { sender = record w.sender { queue = rest } }

-- A callback's section, and a flusher's call.
abbrev pub write_section : Answers → List ℕ → ℕ → Threads → Threads
write_section a bytes total s =
    let (r, puts, w) = write_locked a bytes total s.world in
    record s { world = w; halting = halts_after r w.stream }

abbrev pub read_section : ℕ → ℕ → Threads → Threads
read_section size count s =
    let (r, bytes, puts, w) = read_callback size count s.world in
    record s { world = w; halting = is_pause r }

abbrev pub send_resume : Answers → Threads → Threads
send_resume a s =
    let (result, w) =
      enqueue_control a (Message.resume_request s.world.stream.transfer_id) s.world in
    answered result (record s { world = w; flushing = s.flushing - 1 })

-- One section, one call or one round. In `others` a thread works on another stream or on the sender,
-- or reads this stream: what it sends comes behind, a RESUME of this transfer included, since the
-- other stream of the transfer has the same id.
pub data Section (s : Threads) : Threads → Type 0 where
  writes :
      (a : Answers) (bytes : List ℕ) (total : ℕ)
      → s.halted ≡ false
      → s.halting ≡ false
      → Section s (write_section a bytes total s)
  reads :
      (size count : ℕ)
      → s.halted ≡ false
      → s.halting ≡ false
      → Section s (read_section size count s)
  halts : (ok : Bool) → s.halting ≡ true → Section s (record s { halted = ok; halting = false })
  lifts :
      needs_resume s.world.stream ≡ true
      → Section s (record s {
        world = with_stream s.world (lift_pause s.world.stream);
        flushing = s.flushing + 1;
      })
  sends : (a : Answers) → 0 < s.flushing → Section s (send_resume a s)
  restores :
      0 < s.restoring
      → Section s (record s {
        world = with_stream s.world (restore_pause s.world.stream);
        restoring = s.restoring - 1;
      })
  aborts :
      0 < s.aborting → Section s (record s { world = (abort s.world).2; aborting = s.aborting - 1 })
  completes : (code : ℕ) → Section s (record s { world = (complete code s.world).1 })
  closes : Section s (record s { world = with_stream s.world (close_locked s.world.stream) })
  forgets :
      s.world.stream.closed ≡ true
      → Section s (record s { world = with_stream s.world (forget_cancel s.world.stream) })
  others : (w : World) → IsQuiet s.world w → Section s (record s { world = w })
  handles :
      (m : Message) (rest : List Message)
      → s.halting ≡ false
      → s.world.sender.queue ≡ m ∷ rest
      → Section s (record s {
        world = take_message rest s.world;
        halted = s.halted && not (resumes s.world.stream.transfer_id m);
      })

-- Threads that no call has reached yet, on a stream that `hcurl_stream_create` made.
pub record IsStart (s : Threads) : Type 0 where
  pub fresh : s.world.stream.cancel_sent ≡ false
  pub running : s.halted ≡ false
  pub outside : s.halting ≡ false

pub data Interleaved : Threads → Type 0 where
  start : {s : Threads} → IsStart s → Interleaved s
  then : {s t : Threads} → Interleaved s → Section s t → Interleaved t

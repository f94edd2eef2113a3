-- ===== src/Stream/Schedules.antt =====
-- Threads on one stream, in a concrete order.
use hcurl.Prelude.{arith, Bool, ◌≡◌, refl, true, false, none, [], ◌∷◌}
use hcurl.Waker.{empty_slot}
use hcurl.Sender
use hcurl.Sender.{Message, enter, leave, enqueue_outer_message}
use hcurl.Stream.State.{
  Stream, Answers, download, null_chunk, push_chunk, pop_chunk, detached, detach_waiter,
  with_stream,
}
use hcurl.Stream.Control.{enqueue_control, flush_resume, after_resume, lift_pause}
use hcurl.Stream.Download.{write_locked, deliver, accept_chunk, count_downloaded}
use hcurl.Stream.Bytes.{Call, step}
use hcurl.Stream.Pauses.{Threads, Section, Interleaved, write_section, take_message}
use hcurl.Stream.Flushing.{Pending}
use hcurl.Stream.Pausing.{pause-kept}
use hcurl.Stream.Resuming.{Runs}
use hcurl.Stream.Rounds.{GoesOn, pause-resumes}
use hcurl.Stream.Refining.{is_callback}
use hcurl.Stream.Callbacks.{call-Runs}

program : Unit {0}
unfolding enter leave enqueue_outer_message push_chunk pop_chunk detached detach_waiter
    enqueue_control flush_resume after_resume write_locked deliver accept_chunk count_downloaded
    step
program = tt

abbrev good : Answers
good = record { malloc_ok = true; calloc_ok = true; queue_ok = true; pause_ok = true }

-- A stream with one slot.
abbrev stream : Stream
stream = record {
  kind = download;
  chunks = null_chunk ∷ [];
  capacity = 1;
  head = 0;
  tail = 0;
  count = 0;
  finished = false;
  closed = false;
  paused = false;
  terminal_set = false;
  cancel_sent = false;
  terminal_code = 0;
  read_waiter = empty_slot;
  write_waiter = empty_slot;
  transfer_id = 9;
  attached = true;
}

abbrev idle : Threads
idle = record {
  world = record { stream = stream; headers = none; metrics = none; sender = Sender.create };
  halted = false;
  halting = false;
  flushing = 0;
  restoring = 0;
  aborting = 0;
}

-- One chunk fills the stream, and libcurl is paused.
abbrev filled : Threads
filled = write_section good (1 ∷ 2 ∷ []) 2 idle

abbrev halted : Threads
halted = record filled { halted = true; halting = false }

halted-Interleaved : Interleaved halted
unfolding program
halted-Interleaved =
    Interleaved.then {s = filled}
      (Interleaved.then {s = idle}
        (Interleaved.start (record { fresh = refl; running = refl; outside = refl }))
        (Section.writes good (1 ∷ 2 ∷ []) 2 refl refl))
      (Section.halts true refl)

-- A reader has lifted the pause and has not yet sent its message.
abbrev lifting : Threads
lifting = record halted {
  world = with_stream halted.world (lift_pause halted.world.stream);
  flushing = 1;
}

lifting-Interleaved : Interleaved lifting
unfolding program
lifting-Interleaved = Interleaved.then {s = halted} halted-Interleaved (Section.lifts refl)

pause-kept_example : Pending lifting
pause-kept_example = pause-kept lifting-Interleaved refl

-- A reader has flushed the stream; the agent then takes the message.
abbrev flushed : Threads
flushed = record halted { world = (flush_resume good halted.world).2 }

abbrev first_message : Message
first_message = Message.resume_request 9

abbrev one_round :
    Runs flushed (record flushed { world = take_message [] flushed.world; halted = false })
unfolding program
one_round = Runs.next {s = flushed} (Section.handles first_message [] refl refl) Runs.here

pause-resumes_example : GoesOn one_round
unfolding program
pause-resumes_example =
    pause-resumes good halted-Interleaved refl refl refl refl one_round (omega arith)

call-Runs_example :
    let c = Call.write_data good (1 ∷ 2 ∷ []) 1 2 in
    (stops : Bool) × Runs idle (record idle { world = (step c idle.world).world; halting = stops })
    × (is_callback c ≡ false → stops ≡ false)
call-Runs_example = call-Runs (Call.write_data good (1 ∷ 2 ∷ []) 1 2) idle (λ e. (refl, refl))

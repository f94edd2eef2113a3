-- ===== src/Stream/Tests.antt =====
-- Runs of streams, and the theorems at concrete calls.
use hcurl.Prelude.{◌++◌, ℕ, ◌≡◌, refl, true, false, none, List, [], ◌∷◌, arith, ◌+◌, min}
use hcurl.Metrics.{add_all, add_all-eq-min, total, int64_max}
use hcurl.Sender
use hcurl.Waker.{empty_slot, registered}
use hcurl.Stream.State.{Stream, World, Answers, Kind, null_chunk, create}
use hcurl.Stream.Invariant.{IsValid, Moved}
use hcurl.Stream.Control.{control_ok, flush_resume, close, complete}
use hcurl.Stream.Download.{
  mark_headers_started, eof, try_read, write_callback, wait_read, cancel_wait_read,
}
use hcurl.Stream.Upload.{read_callback, try_write, finish_upload, wait_write, cancel_wait_write}
use hcurl.Stream.Bytes.{Call, AllFair, step, run, run-Moved}
use hcurl.Stream.Contract.{run-eof}
use hcurl.Stream.Wakes.{wake_of, write_callback-wakes}
use hcurl.Stream.Signals.{close-twice}

-- The counter stops at its largest value.
add_all-eq-min_example :
    add_all 5 (7 ∷ int64_max ∷ []) ≡ min (5 + total (7 ∷ int64_max ∷ [])) int64_max
add_all-eq-min_example = add_all-eq-min 5 (7 ∷ int64_max ∷ []) (omega arith)

abbrev good : Answers
good = record { malloc_ok = true; calloc_ok = true; queue_ok = true; pause_ok = true }

abbrev queue_full : Answers
queue_full = record { malloc_ok = true; calloc_ok = true; queue_ok = false; pause_ok = true }

-- A stream of two slots that is attached to its transfer.
abbrev two_slots : Kind → Stream
two_slots kind = record {
  kind = kind;
  chunks = null_chunk ∷ null_chunk ∷ [];
  capacity = 2;
  head = 0;
  tail = 0;
  count = 0;
  finished = false;
  closed = false;
  paused = false;
  terminal_set = false;
  cancel_sent = false;
  terminal_code = 0;
  read_waiter = empty_slot;
  write_waiter = empty_slot;
  transfer_id = 9;
  attached = true;
}

abbrev world : Stream → World
world s = record { stream = s; headers = none; metrics = none; sender = Sender.create }

two_slots-IsValid : (kind : Kind) → IsValid (two_slots kind)
two_slots-IsValid kind = record {
  ring = record {
    size = refl;
    pos = omega arith;
    small = omega arith;
    at_head = omega arith;
    room = omega arith;
    at_tail = refl;
    live = tt;
  };
  flags = ground arith;
}

-- Three chunks, of which the first two fill the ring; the reader makes room and lifts the pause.
abbrev calls : List Call
calls =
    Call.write_data good (1 ∷ 2 ∷ []) 1 2
    ∷ Call.write_data good (3 ∷ []) 1 1
    ∷ Call.read good
    ∷ Call.write_data good (4 ∷ 5 ∷ []) 2 1
    ∷ Call.read good
    ∷ Call.end 0
    ∷ Call.read good
    ∷ []

calls-AllFair : AllFair calls
calls-AllFair = ground arith

program : Unit {0}
unfolding run step create write_callback try_read wait_read cancel_wait_read read_callback try_write
    finish_upload wait_write cancel_wait_write flush_resume close complete
    Sender.enqueue_outer_message
program = tt

run_delivers : (run calls (world (two_slots Kind.download))).delivered ≡ 1 ∷ 2 ∷ 3 ∷ 4 ∷ 5 ∷ []
unfolding program
run_delivers = refl

at_eof : (try_read good (run calls (world (two_slots Kind.download))).world).0.result ≡ eof
unfolding program
at_eof = refl

-- An upload's chunk is read in two parts.
upload_delivers :
    (run
      (Call.send good (1 ∷ 2 ∷ 3 ∷ []) ∷ Call.read_data 1 2 ∷ Call.read_data 1 2 ∷ [])
      (world (two_slots Kind.upload))).delivered
    ≡ 1 ∷ 2 ∷ 3 ∷ []
unfolding program
upload_delivers = refl

run-Moved_example :
    (dropped : List ℕ) × Moved
      (two_slots Kind.download)
      (run calls (world (two_slots Kind.download))).accepted
      (run calls (world (two_slots Kind.download))).delivered
      dropped
      (run calls (world (two_slots Kind.download))).world.stream
run-Moved_example =
    run-Moved calls (world (two_slots Kind.download)) (two_slots-IsValid Kind.download)
      calls-AllFair

run-eof_example :
    (run calls (world (two_slots Kind.download))).delivered
    ≡ (run calls (world (two_slots Kind.download))).accepted
run-eof_example =
    run-eof calls good (world (two_slots Kind.download)) (two_slots-IsValid Kind.download) refl
      calls-AllFair at_eof

-- A paused stream, and a queue of messages that is full.
abbrev paused : World
paused = world (record (two_slots Kind.upload) { paused = true })

closes_well : (close good paused).0 ≡ control_ok
unfolding program
closes_well = refl

close-twice_example :
    let again = close queue_full (close good paused).2 in
    (again.0 ≡ control_ok) × (again.1 ≡ []) × (again.2.sender ≡ (close good paused).2.sender)
close-twice_example = close-twice good queue_full paused (omega arith) closes_well

-- A reader that waits at an empty stream.
abbrev waiting_reader : World
waiting_reader = world (record (two_slots Kind.download) { read_waiter = registered 70 1 })

waiting_reader-IsValid : IsValid waiting_reader.stream
waiting_reader-IsValid = record {
  ring = (two_slots-IsValid Kind.download).ring;
  flags = ground arith;
}

write_callback-wakes_example :
    ((write_callback good (5 ∷ []) 1 1 waiting_reader).1
      ≡ (mark_headers_started none).0 ++ wake_of (registered 70 1))
    × ((write_callback good (5 ∷ []) 1 1 waiting_reader).2.stream.read_waiter.present ≡ false)
write_callback-wakes_example =
    write_callback-wakes good (5 ∷ []) 1 1 waiting_reader waiting_reader-IsValid refl refl
      (omega arith) (omega arith)

-- ===== src/Headers/Collector/Tests.antt =====
-- Runs of the collector of header blocks, and the theorems at concrete calls.
use mathlib.Core.Option
use hcurl.Prelude.{
  ℕ, ◌+◌, ◌*◌, ◌≡◌, ◌↔◌, ◌⊎◌, refl, true, not, ◌&&◌, List, [], ◌∷◌, ◌++◌, none, some, arith, length,
  concat,
}
use hcurl.Memory.{store, load, grow}
use hcurl.Memory.Examples.{granting, granting_grants, refusing}
use hcurl.Waker.{Put, wake_detached}
use hcurl.Headers.Lines.{
  is_status_line, is_blank_line, parse_status, status_line, parse_status-status_line,
}
use hcurl.Headers.Search.{contains, contains_iff, Occurs}
use hcurl.Headers.Buffer
use hcurl.Headers.Buffer.{Buffer}
use hcurl.Headers.Collector.{
  HeaderData, fresh, create, initial, notify, publish, publish_early, finish_block, start_block,
  block_line, trailer_line, accept_line, callback, Snapshot, copy_text, snapshot, wait, cancel_wait,
  mark_ready, mark_complete, mark_body_started, free_header_data,
}
use hcurl.Headers.Collector.Invariant.{IsValid, consumed}
use hcurl.Headers.Collector.Blocks.{feed, Completed, feed-Completed}
use hcurl.Headers.Collector.Waiters.{
  Call, header_line, wait_ready, complete, Effect, run, Balanced, run-Balanced, run-free,
}
use hcurl.Headers.Collector.Create.{snapshot_lem}

-- What a test computes with.
program : Unit {0}
unfolding fresh create notify publish publish_early finish_block start_block block_line trailer_line
    accept_line callback copy_text snapshot wait cancel_wait mark_ready mark_complete
    mark_body_started free_header_data is_status_line is_blank_line parse_status contains
    Buffer.reserve Buffer.fill Buffer.append_at Buffer.append Buffer.clear store load grow
    wake_detached feed run
program = tt

abbrev empty_buffer : Buffer
empty_buffer = record { block = 0 ∷ 0 ∷ []; size = 0; capacity = 2 }

abbrev start : HeaderData
start = initial empty_buffer empty_buffer

empty_buffer-IsValid : Buffer.IsValid empty_buffer
empty_buffer-IsValid = record {
  extent = refl;
  room = omega arith;
  fits = omega arith;
  ended = refl;
}

start-IsValid : IsValid start
start-IsValid = record {
  current = empty_buffer-IsValid;
  completed = empty_buffer-IsValid;
  flags = record { no_waiter = λ r. cc; wakes = λ p. cc; published = λ p. cc; finished = λ p. cc };
}

-- "HTTP/1.1 "
abbrev version : List ℕ
version = b'H' ∷ b'T' ∷ b'T' ∷ b'P' ∷ b'/' ∷ b'1' ∷ b'.' ∷ b'1' ∷ []

-- "HTTP/1.1 200\n", "A: b\n", and the blank line
abbrev ok_line : List ℕ
ok_line = status_line version 0 2 0 0 (10 ∷ [])

abbrev found_line : List ℕ
found_line = status_line version 0 3 0 2 (10 ∷ [])

abbrev field_line : List ℕ
field_line = b'A' ∷ b':' ∷ b' ' ∷ b'b' ∷ 10 ∷ []

abbrev blank : List ℕ
blank = 13 ∷ 10 ∷ []

abbrev waiting : List Call
waiting =
    wait_ready 70 1
    ∷ header_line granting found_line 1 13
    ∷ header_line granting blank 1 2
    ∷ header_line granting ok_line 1 13
    ∷ header_line granting field_line 1 5
    ∷ header_line granting blank 1 2
    ∷ wait_ready 71 1
    ∷ complete 0
    ∷ []

abbrev summary : Effect → List ℕ × List ℕ × ℕ × List ℕ
summary e = (e.taken, e.given, e.state.completed_status, Buffer.text e.state.completed)

-- The redirect wakes nobody, the final block does, and a later wait is not registered.
run_wakes :
    Option.map summary (run waiting start)
    ≡ some (70 ∷ [], 70 ∷ [], 200, ok_line ++ (field_line ++ blank))
unfolding program
run_wakes = refl

-- Without memory for the longer line the callback takes nothing.
callback_refused : Option.map (λ r. r.0) (callback refusing ok_line 1 13 start) ≡ some 0
unfolding program
callback_refused = refl

parse_status-status_line_example :
    parse_status (status_line version 2 4 0 7 (b'9' ∷ [])) ≡ 4 * 100 + 0 * 10 + 7
parse_status-status_line_example =
    parse_status-status_line version (b'9' ∷ []) 2 4 0 7 (ground arith) (omega arith) (omega arith)
      (omega arith)

contains_iff_example :
    (contains (b'x' ∷ b'A' ∷ b'b' ∷ []) (b'a' ∷ b'B' ∷ []) ≡ true)
    ↔ Occurs (b'a' ∷ b'B' ∷ []) (b'x' ∷ b'A' ∷ b'b' ∷ [])
contains_iff_example = contains_iff (b'x' ∷ b'A' ∷ b'b' ∷ []) (b'a' ∷ b'B' ∷ []) (omega arith)

feed-Completed_example :
    (puts : List Put) × (g : HeaderData) × (feed granting
        (ok_line ∷ (field_line ∷ []) ++ (blank ∷ []))
        start
      ≡ some (puts, g))
    × Completed start
        (concat (ok_line ∷ (field_line ∷ []) ++ (blank ∷ [])))
        (parse_status ok_line)
        puts
        g
unfolding is_status_line is_blank_line
feed-Completed_example =
    feed-Completed granting ok_line (field_line ∷ []) blank granting_grants start-IsValid refl
      ((omega arith, refl, refl), tt) refl (omega arith)

run-Balanced_example : Balanced start (run waiting start)
run-Balanced_example = run-Balanced waiting start-IsValid (omega arith)

run-free_example :
    (e : Effect) × (run waiting start ≡ some e)
    × (e.taken ≡ e.given ++ consumed (free_header_data e.state))
run-free_example = run-free waiting start-IsValid refl (omega arith)

snapshot_lem_example :
    ((snapshot granting start ≡ some none) × (granting.malloc 1 ≡ none))
    ⊎ ((s : Snapshot) × (snapshot granting start ≡ some (some s))
        × (s.buffer ≡ Buffer.text start.completed ++ (0 ∷ []))
        × (s.length ≡ length (Buffer.text start.completed))
        × (s.status_code ≡ start.completed_status)
        × (s.terminal_before_response ≡ start.transfer_completed && not start.response_available)
        × (s.terminal_code ≡ start.terminal_code))
snapshot_lem_example = snapshot_lem granting start-IsValid

-- ===== src/Installs/Tests.antt =====
-- Installations at a handle that refuses one option.
use hcurl.Prelude.{ℕ, ◌≡◌, ◌≢◌, refl, true, false, none, [], ◌∷◌, arith, ◌==◌, if◌then◌else◌}
use hcurl.Easy.Once.{global_init_once}
use hcurl.Metrics
use hcurl.Metrics.{Metrics, set_streamed_download}
use hcurl.Sender
use hcurl.Waker.{empty_slot}
use hcurl.Headers.Collector.{HeaderData}
use hcurl.Headers.Collector
use hcurl.Headers.Buffer.{Buffer}
use hcurl.Stream.State.{Stream, World, Kind}
use hcurl.Installs.{
  Value, default, Libcurl, header_data_install, install_download, upload_supported, install_upload,
  header_data, header_function,
}

-- A handle is the table of its options, and one option is unknown.
abbrev set : ℕ → Value → (ℕ → Value) → ℕ → Value
set name value h other = if other == name then value else h other

abbrev set_known : ℕ → ℕ → Value → (ℕ → Value) → ℕ × (ℕ → Value)
set_known unknown name value h = if name == unknown then (48, h) else (0, set name value h)

known_sets :
    (unknown name : ℕ) (value : Value) (h : ℕ → Value)
    → (set_known unknown name value h).0 ≡ 0
    → (set_known unknown name value h).1 name ≡ value
known_sets unknown name value h ok = ground arith

known_keeps :
    (unknown name other : ℕ) (value : Value) (h : ℕ → Value)
    → other ≢ name
    → (set_known unknown name value h).1 other ≡ h other
known_keeps unknown name other value h apart = ground arith

known_fails :
    (unknown name other : ℕ) (value : Value) (h : ℕ → Value)
    → (set_known unknown name value h).0 ≢ 0
    → (set_known unknown name value h).1 other ≡ h other
known_fails unknown name other value h bad = ground arith

abbrev knows_all_but : ℕ → Libcurl (ℕ → Value)
knows_all_but unknown = record {
  setopt = set_known unknown;
  option = λ h name. h name;
  sets = known_sets unknown;
  keeps = known_keeps unknown;
  fails = known_fails unknown;
}

abbrev new_handle : ℕ → Value
new_handle name = default

abbrev stream : Kind → Stream
stream kind = record {
  kind = kind;
  chunks = [];
  capacity = 0;
  head = 0;
  tail = 0;
  count = 0;
  finished = false;
  closed = false;
  paused = false;
  terminal_set = false;
  cancel_sent = false;
  terminal_code = 0;
  read_waiter = empty_slot;
  write_waiter = empty_slot;
  transfer_id = 9;
  attached = false;
}

abbrev world : Kind → World
world kind = record { stream = stream kind; headers = none; metrics = none; sender = Sender.create }

abbrev collector : HeaderData
collector =
    let empty : Buffer = record { block = 0 ∷ []; size = 0; capacity = 1 } in
    Collector.initial empty empty

program : Unit {0}
unfolding header_data_install install_download install_upload upload_supported global_init_once
program = tt

-- An option that is unknown is an error, and then the callback is not there.
test_refused :
    let (code, h) = header_data_install (knows_all_but header_data) true 5 6 new_handle in
    (code ≡ 48) × (h header_function ≡ default)
unfolding program
test_refused = (refl, refl)

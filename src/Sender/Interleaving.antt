-- ===== src/Sender/Interleaving.antt =====
-- cbits/message_chan.c: the threads that enter and leave a sender and the one that closes it, in any
-- interleaving of their atomic operations. The closing thread has the mutex from its test to its
-- sleep, and a producer takes the mutex to signal; a signal wakes the thread only if that sleeps.
use hcurl.Prelude.{ℕ, ◌+◌, ◌-◌, ◌^◌, ◌<◌, ◌≡◌, ◌≢◌, Bool, true, false, some, if◌then◌else◌}
use hcurl.Sender.{producers, enter, leave, mark_closed}

-- Where `message_sender_close` is.
pub data Closer : Type 0 where
  idle waiting done : Closer

-- Where it is in its loop: about to test, behind a test that found a producer, or in `uv_cond_wait`.
pub data Phase : Type 0 where
  testing checked asleep : Phase

-- The state word and the handle, the closing thread, how many producers are between their
-- `message_sender_enter` and the subtraction of their `message_sender_leave`, and how many have still
-- to signal.
pub record System : Type 0 where
  pub state : ℕ
  pub attached : Bool
  pub closer : Closer
  pub phase : Phase
  pub inside : ℕ
  pub signalling : ℕ

abbrev pub initial : System
initial = record {
  state = 0;
  attached = true;
  closer = Closer.idle;
  phase = testing;
  inside = 0;
  signalling = 0;
}

-- What `uv_cond_signal` does to the closing thread.
abbrev pub signalled : Phase → Phase
signalled testing = testing
signalled checked = checked
signalled asleep = testing

abbrev pub has_tested : Phase → Bool
has_tested testing = false
has_tested checked = true
has_tested asleep = true

-- One atomic operation of one thread; `wakes` is a wake-up that no signal caused, which
-- `uv_cond_wait` allows.
pub data Step (s : System) : System → Type 0 where
  enters :
      (word : ℕ)
      → enter s.state ≡ some word
      → Step s (record s { state = word; inside = s.inside + 1 })
  leaves :
      0 < s.inside
      → Step s (record s {
        state = (leave s.state).1;
        inside = s.inside - 1;
        signalling = s.signalling + (if (leave s.state).0 then 1 else 0);
      })
  signals :
      0 < s.signalling
      → s.phase ≢ checked
      → Step s (record s { phase = signalled s.phase; signalling = s.signalling - 1 })
  marks :
      s.closer ≡ Closer.idle
      → Step s (record s { state = mark_closed s.state; closer = Closer.waiting; phase = testing })
  checks :
      s.closer ≡ Closer.waiting
      → s.phase ≡ testing
      → producers s.state ≢ 0
      → Step s (record s { phase = checked })
  sleeps : s.closer ≡ Closer.waiting → s.phase ≡ checked → Step s (record s { phase = asleep })
  wakes : s.closer ≡ Closer.waiting → s.phase ≡ asleep → Step s (record s { phase = testing })
  finishes :
      s.closer ≡ Closer.waiting
      → s.phase ≡ testing
      → producers s.state ≡ 0
      → Step s (record s { attached = false; closer = Closer.done })

pub data Reachable : System → Type 0 where
  start : Reachable initial
  then : {s t : System} → Reachable s → Step s t → Reachable t

-- The state word of a sender with `inside` producers.
abbrev pub word : Bool → ℕ → ℕ
word false inside = inside
word true inside = 2 ^ 63 + inside

abbrev pub closing : Closer → Bool
closing Closer.idle = false
closing Closer.waiting = true
closing Closer.done = true

abbrev pub is_done : Closer → Bool
is_done Closer.idle = false
is_done Closer.waiting = false
is_done Closer.done = true

abbrev pub is_waiting : Closer → Bool
is_waiting Closer.idle = false
is_waiting Closer.waiting = true
is_waiting Closer.done = false

-- The state word counts the producers inside; the handle is there until the close is done, when
-- nobody is inside; and while the closing thread sleeps, or is about to, somebody is there to wake it.
pub record Holds (s : System) : Type 0 where
  pub counts : s.state ≡ word (closing s.closer) s.inside
  pub room : s.inside < 2 ^ 63
  pub attached : is_done s.closer ≡ false → s.attached ≡ true
  pub empty : is_done s.closer ≡ true → s.inside ≡ 0
  pub awaited : is_waiting s.closer ≡ true → has_tested s.phase ≡ true → 0 < s.inside + s.signalling

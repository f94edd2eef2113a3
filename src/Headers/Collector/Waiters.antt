-- ===== src/Headers/Collector/Waiters.antt =====
-- cbits/headers.c: any sequence of calls on one collector, by libcurl's thread and by the threads
-- that wait. The mutex orders the calls; a call that faulted would end the sequence.
use mathlib.Core.List.{append-nil, append_assoc}
use hcurl.Prelude.{
  ℕ, ◌*◌, ◌≤◌, ◌≡◌, refl, sym, ap, ◌∙◌, Bool, true, false, List, [], ◌∷◌, ◌++◌, Option, some, arith,
  length, if◌then◌else◌,
}
use hcurl.Memory.{Allocator, ◌>>=◌}
use hcurl.Waker.{Put}
use hcurl.Headers.Collector.{
  HeaderData, WaitResult, registered_wait, ready_wait, invalid_wait, callback, wait, cancel_wait,
  mark_body_started, mark_complete, free_header_data, mark_ready,
}
use hcurl.Headers.Collector.Invariant.{
  IsValid, Kept, pending, consumed, callback-Handled, wait-IsValid, cancel_wait-IsValid,
  mark_ready-Kept, mark_complete-Kept,
}

-- A call, with its arguments.
pub data Call : Type 0 where
  header_line : Allocator → (bytes : List ℕ) → (size nitems : ℕ) → Call
  wait_ready : (mvar capability : ℕ) → Call
  cancel : (mvar : ℕ) → Call
  body_started : Call
  complete : (code : ℕ) → Call

-- What a call does with waiters: the pointers that it takes over, and those that it gives up, by
-- a wake-up or by handing one back.
pub record Effect : Type 0 where
  pub taken : List ℕ
  pub given : List ℕ
  pub state : HeaderData

abbrev taken_by : ℕ → WaitResult → List ℕ
taken_by mvar registered_wait = mvar ∷ []
taken_by mvar ready_wait = []
taken_by mvar invalid_wait = []

abbrev wait_effect : ℕ → WaitResult × HeaderData → Effect
wait_effect mvar r = record { taken = taken_by mvar r.0; given = []; state = r.1 }

abbrev cancel_effect : ℕ → Bool × HeaderData → Effect
cancel_effect mvar r = record { taken = []; given = if r.0 then mvar ∷ [] else []; state = r.1 }

abbrev wake_effect : List Put × HeaderData → Effect
wake_effect r = record { taken = []; given = consumed r.0; state = r.1 }

step : Call → HeaderData → Option Effect
step (header_line alloc bytes size nitems) h =
    callback alloc bytes size nitems h >>= λ r. some (wake_effect (r.1, r.2))
step (wait_ready mvar capability) h = some (wait_effect mvar (wait mvar capability h))
step (cancel mvar) h = some (cancel_effect mvar (cancel_wait mvar h))
step body_started h = some (wake_effect (mark_body_started h))
step (complete code) h = some (wake_effect (mark_complete code h))

-- All calls of a list, with the pointers taken and given up in order.
unfoldable pub run : List Call → HeaderData → Option Effect
unfolding step
run [] h = some (record { taken = []; given = []; state = h })
run (c ∷ cs) h = step c h >>= λ e. run cs e.state >>= λ later.
    some (record {
      taken = e.taken ++ later.taken;
      given = e.given ++ later.given;
      state = later.state;
    })

-- Each line that libcurl announces is there to be read.
abbrev pub PointsToEnough : List Call → Type 0
PointsToEnough [] = Unit
PointsToEnough (header_line alloc bytes size nitems ∷ cs) =
    (size * nitems ≤ length bytes) × PointsToEnough cs
PointsToEnough (_ ∷ cs) = PointsToEnough cs

-- The calls end, in a valid state, and every pointer that they took over or found was given up
-- once, in order, or is the one that is still registered.
pub record Balanced (h : HeaderData) (r : Option Effect) : Type 0 where
  pub effect : Effect
  pub ends : r ≡ some effect
  pub valid : IsValid effect.state
  pub balance : pending h ++ effect.taken ≡ effect.given ++ pending effect.state

wake-Balanced :
    {h : HeaderData} (puts : List Put) (h' : HeaderData)
    → Kept h puts h'
    → Balanced h (some (wake_effect (puts, h')))
wake-Balanced {h} puts h' k = record {
  effect = wake_effect (puts, h');
  ends = refl;
  valid = k.valid;
  balance = append-nil (pending h) ∙ k.conserved;
}

wait-Balanced :
    (mvar capability : ℕ) {h : HeaderData}
    → IsValid h
    → Balanced h (some (wait_effect mvar (wait mvar capability h)))
unfolding wait
wait-Balanced mvar capability {h} v = record {
  effect = wait_effect mvar (wait mvar capability h);
  ends = refl;
  valid = wait-IsValid mvar capability v;
  balance = ground arith;
}

cancel-Balanced :
    (mvar : ℕ) {h : HeaderData}
    → IsValid h
    → Balanced h (some (cancel_effect mvar (cancel_wait mvar h)))
unfolding cancel_wait
cancel-Balanced mvar {h} v = record {
  effect = cancel_effect mvar (cancel_wait mvar h);
  ends = refl;
  valid = cancel_wait-IsValid mvar v;
  balance = ground arith;
}

-- The premise about one call.
abbrev Readable : Call → Type 0
Readable (header_line alloc bytes size nitems) = size * nitems ≤ length bytes
Readable _ = Unit

step-Balanced : (c : Call) {h : HeaderData} → IsValid h → Readable c → Balanced h (step c h)
unfolding step mark_body_started
step-Balanced (header_line alloc bytes size nitems) {h} v readable =
    let (n, puts, h', ran, k, _) = callback-Handled alloc bytes size nitems v readable in
    rw ran (wake-Balanced puts h' k)
step-Balanced (wait_ready mvar capability) v readable = wait-Balanced mvar capability v
step-Balanced (cancel mvar) v readable = cancel-Balanced mvar v
step-Balanced body_started {h} v readable =
    wake-Balanced (mark_ready true h).0 (mark_ready true h).1 (mark_ready-Kept true v)
step-Balanced (complete code) {h} v readable =
    wake-Balanced (mark_complete code h).0 (mark_complete code h).1 (mark_complete-Kept code v)

PointsToEnough-head :
    (c : Call) (cs : List Call) → PointsToEnough (c ∷ cs) → Readable c × PointsToEnough cs
PointsToEnough-head (header_line alloc bytes size nitems) cs p = p
PointsToEnough-head (wait_ready mvar capability) cs p = (tt, p)
PointsToEnough-head (cancel mvar) cs p = (tt, p)
PointsToEnough-head body_started cs p = (tt, p)
PointsToEnough-head (complete code) cs p = (tt, p)

join :
    (p taken given q later_taken later_given r : List ℕ)
    → p ++ taken ≡ given ++ q
    → q ++ later_taken ≡ later_given ++ r
    → p ++ (taken ++ later_taken) ≡ (given ++ later_given) ++ r
join p taken given q later_taken later_given r e f =
    sym (append_assoc p taken later_taken)
    ∙ ap (λ t. t ++ later_taken) e
    ∙ append_assoc given q later_taken
    ∙ ap (λ t. given ++ t) f
    ∙ sym (append_assoc given later_given r)

-- Any sequence of calls on a collector touches no byte outside its buffers and keeps its
-- invariant; and every `StablePtr` that a wait registered was consumed by one wake-up or handed
-- back by one cancellation, in order, or is the one that is still registered.
pub run-Balanced :
    (cs : List Call) {h : HeaderData} → IsValid h → PointsToEnough cs → Balanced h (run cs h)
unfolding run
run-Balanced [] {h} v p = record {
  effect = record { taken = []; given = []; state = h };
  ends = refl;
  valid = v;
  balance = append-nil (pending h);
}
run-Balanced (c ∷ cs) {h} v p =
    let (readable, rest) = PointsToEnough-head c cs p in
    let first = step-Balanced c v readable in
    let later = run-Balanced cs first.valid rest in
    record {
      effect = record {
        taken = first.effect.taken ++ later.effect.taken;
        given = first.effect.given ++ later.effect.given;
        state = later.effect.state;
      };
      ends = rw (first.ends, ◌>>=◌, later.ends) refl;
      valid = later.valid;
      balance =
          join (pending h) first.effect.taken first.effect.given (pending first.effect.state)
            later.effect.taken later.effect.given (pending later.effect.state) first.balance
            later.balance;
    }

free-pending : {h : HeaderData} → IsValid h → consumed (free_header_data h) ≡ pending h
unfolding free_header_data
free-pending v = ground arith

-- From a valid collector without a waiter on, given readable lines, and up to `free_header_data`, every
-- registered `StablePtr` is released exactly once, in order; none is left, and none is released twice.
pub run-free :
    (cs : List Call) {h : HeaderData}
    → IsValid h
    → h.waiter.present ≡ false
    → PointsToEnough cs
    → (e : Effect) × (run cs h ≡ some e)
      × (e.taken ≡ e.given ++ consumed (free_header_data e.state))
run-free cs {h} v quiet p =
    let b = run-Balanced cs v p in
    (
      b.effect,
      b.ends,
      ap (λ q. (if q then h.waiter.waker.mvar ∷ [] else []) ++ b.effect.taken) (sym quiet)
          ∙ b.balance
          ∙ ap (λ t. b.effect.given ++ t) (sym (free-pending b.valid)),
    )

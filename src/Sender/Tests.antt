-- ===== src/Sender/Tests.antt =====
-- Runs of the sender, and the theorem at a concrete call.
use hcurl.Prelude.{◌+◌, ◌<◌, ◌≤◌, ◌⊎◌, ◌↔◌, ◌≡◌, refl, true, false, [], ◌∷◌, ◌^◌, none, arith}
use hcurl.Sender.{
  Sender, Message, create, retain, release, enter, leave, mark_closed, closed,
  enqueue_outer_message,
}
use hcurl.Sender.Interleaving.{testing, checked, asleep, Closer, System, Step, Reachable, initial}
use hcurl.Sender.Protocol.{handle-safe}
use hcurl.Sender.References.{acquire, Shared, inner, set_inner, Uses, Shares, shared}
use hcurl.Sender.Counting.{Uses-live}
use hcurl.Sender.Closing.{is_spurious, Reaches, close-ends, leave-signals}
use hcurl.Sender.Outcomes.{Outcome, enqueue_outer_message-Outcome}

program : Unit {0}
unfolding retain release enter leave mark_closed acquire enqueue_outer_message
program = tt

-- The closing thread is signalled by the last producer.
last_producer_signals : leave (mark_closed 1) ≡ (true, 2 ^ 63)
unfolding program
last_producer_signals = refl

none_enters_closed : enter (mark_closed 1) ≡ none
unfolding program
none_enters_closed = refl

last_release : (release create).0 ≡ true
unfolding program
last_release = refl

refused_when_closed :
    (enqueue_outer_message true true Message.stop_agent (record create { state = mark_closed 0 })).0
    ≡ closed
unfolding program
refused_when_closed = refl

-- A message behind another one.
abbrev busy : Sender
busy = record create { queue = Message.cancel_request 4 ∷ [] }

enqueue_outer_message-Outcome_example :
    Outcome true true
      (Message.resume_request 7)
      busy
      (enqueue_outer_message true true (Message.resume_request 7) busy)
enqueue_outer_message-Outcome_example =
    enqueue_outer_message-Outcome true true (Message.resume_request 7) busy (omega arith)

-- A producer entered, and then the close began.
abbrev one_inside : System
one_inside = record initial { state = 1; inside = 1 }

abbrev one_waited_for : System
one_waited_for = record initial { state = 2 ^ 63 + 1; closer = Closer.waiting; inside = 1 }

one_waited_for-Reachable : Reachable one_waited_for
unfolding program
one_waited_for-Reachable =
    Reachable.then {s = one_inside}
      (Reachable.then {s = initial} Reachable.start (Step.enters 1 refl)) (Step.marks refl)

handle-safe_example :
    (0 < 1 → one_waited_for.attached ≡ true)
    × (one_waited_for.closer ≡ Closer.done
        → (one_waited_for.inside ≡ 0) × (enter one_waited_for.state ≡ none))
handle-safe_example = handle-safe one_waited_for-Reachable

-- The closing thread sleeps, and the producer leaves and signals.
abbrev slept : System
slept = record one_waited_for { phase = asleep }

abbrev signalling : System
signalling = record slept { state = (leave (2 ^ 63 + 1)).1; inside = 0; signalling = 1 }

woken_run : Reaches 4 one_waited_for (record signalling { phase = testing; signalling = 0 })
unfolding program
woken_run =
    Reaches.next {t = record one_waited_for { phase = checked }}
      (Step.checks refl refl (omega arith)) refl
      (Reaches.next {t = slept} (Step.sleeps refl refl) refl (
        Reaches.next {t = signalling} (Step.leaves (omega arith)) refl
          (Reaches.next (Step.signals (omega arith) (λ e. cc e)) refl Reaches.here)))

close-ends_example :
    let t : System = record signalling { phase = testing; signalling = 0 } in
    (4 ≤ 7)
    × ((t.closer ≡ Closer.done) ⊎ ((u : System) × (st : Step t u) × (is_spurious st ≡ false)))
close-ends_example = close-ends one_waited_for-Reachable refl woken_run

leave-signals_example :
    ((leave (2 ^ 63 + 1)).0 ≡ true)
    ↔ ((one_waited_for.closer ≡ Closer.waiting) × (one_waited_for.inside ≡ 1))
leave-signals_example = leave-signals one_waited_for-Reachable (omega arith)

-- A thread acquires the sender and enters it, and then the agent begins to close it.
abbrev acquired : Shared
acquired = record shared { sender = record shared.sender { references = 2 }; clients = 1 }

abbrev sending : Shared
sending = set_inner (record initial { state = 1; inside = 1 }) acquired

abbrev waited_for : Shared
waited_for = set_inner one_waited_for sending

waited_for-Shares : Shares waited_for
unfolding program
waited_for-Shares =
    Shares.then {s = sending}
      (Shares.then {s = acquired}
        (Shares.then {s = shared} Shares.start (Uses.acquires acquired.sender refl refl))
        (Uses.produces (inner sending) (Step.enters 1 refl) refl (omega arith)))
      (Uses.closes one_waited_for (Step.marks refl) refl refl)

-- The producer leaves, and has to signal.
abbrev left : System
left = record one_waited_for { state = (leave (2 ^ 63 + 1)).1; inside = 0; signalling = 1 }

Uses-live_example : (waited_for.frees ≡ 0) × ((set_inner left waited_for).frees ≡ 0)
unfolding program
Uses-live_example =
    Uses-live {t = set_inner left waited_for} waited_for-Shares
      (Uses.produces left (Step.leaves (omega arith)) refl (omega arith))

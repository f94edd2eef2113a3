-- ===== src/Agent/Ledger.antt =====
-- cbits/message_chan.c: what the agent owes to those that it was given, and the calls that pay for it.
use hcurl.Prelude.{ℕ, ◌+◌, ◌≡◌, ◌≢◌, List, [], ◌∷◌, ◌++◌, arith, ◌==◌, if◌then◌else◌}
use hcurl.Sender.{Payload, Message, execute, cancel_request, resume_request, stop_agent}
use hcurl.Registry.{Transfer}
use hcurl.Registry.Chains.{total}
use hcurl.Agent.{Effect, set_result, complete_stream, cleanup, wake_result, Agent, finish_effects}
use hcurl.Agent.Loop.{fail_effects}

-- Something that a message hands to the agent: an easy handle to clean up, a result to set, a result
-- whose waiter to wake, a stream to complete.
pub data Debt : Type 0 where
  easy_handle : ℕ → Debt
  result_at : ℕ → Debt
  waiter_of : ℕ → Debt
  stream_at : ℕ → Debt

abbrev pub pointer : Debt → ℕ
pointer (easy_handle p) = p
pointer (result_at p) = p
pointer (waiter_of p) = p
pointer (stream_at p) = p

abbrev pub one : ℕ → ℕ → ℕ
one a b = if a == b then 1 else 0

-- How often a call pays for it.
abbrev pub pays : Debt → Effect → ℕ
pays (easy_handle p) (cleanup easy) = one easy p
pays (result_at p) (set_result result easy code) = one result p
pays (waiter_of p) (wake_result result) = one result p
pays (stream_at p) (complete_stream stream code) = one stream p
pays d effect = 0

abbrev pub paid : Debt → List Effect → ℕ
paid d [] = 0
paid d (effect ∷ log) = pays d effect + paid d log

-- How often a message has it.
abbrev pub owed : Debt → Payload → ℕ
owed (easy_handle q) p = one p.easy q
owed (result_at q) p = one p.result q
owed (waiter_of q) p = one p.result q
owed (stream_at q) p = one p.download_stream q + one p.upload_stream q

abbrev pub payload_of : Transfer → Payload
payload_of t = record {
  transfer_id = t.id;
  easy = t.easy;
  result = t.result;
  metrics = t.metrics;
  download_stream = t.download_stream;
  upload_stream = t.upload_stream;
}

abbrev pub load : Debt → Transfer → ℕ
load d t = owed d (payload_of t)

abbrev pub demand : Debt → Message → ℕ
demand d (execute p) = owed d p
demand d (cancel_request id) = 0
demand d (resume_request id) = 0
demand d stop_agent = 0

abbrev pub queued : Debt → List Message → ℕ
queued d [] = 0
queued d (m ∷ messages) = demand d m + queued d messages

pub paid-append : (d : Debt) (a b : List Effect) → paid d (a ++ b) ≡ paid d a + paid d b
paid-append d [] b = omega arith
paid-append d (effect ∷ a) b = omega (arith, paid-append d a b)

pub queued-append : (d : Debt) (a b : List Message) → queued d (a ++ b) ≡ queued d a + queued d b
queued-append d [] b = omega arith
queued-append d (m ∷ a) b = omega (arith, queued-append d a b)

-- Each end of a transfer pays for all that it had, once.
pub paid-finish : (d : Debt) (t : Transfer) (code : ℕ) → paid d (finish_effects t code) ≡ load d t
paid-finish (easy_handle q) t code = ground arith
paid-finish (result_at q) t code = ground arith
paid-finish (waiter_of q) t code = ground arith
paid-finish (stream_at q) t code = ground arith

pub paid-fail :
    (d : Debt) (p : Payload) (code : ℕ) → pointer d ≢ 0 → paid d (fail_effects p code) ≡ owed d p
paid-fail (easy_handle q) p code h = ground arith
paid-fail (result_at q) p code h = ground arith
paid-fail (waiter_of q) p code h = ground arith
paid-fail (stream_at q) p code h = ground arith

-- What is paid, and what is still owed to the registered transfers.
abbrev pub account : Debt → Agent → ℕ
account d a = paid d a.log + total (load d) a.registry.buckets

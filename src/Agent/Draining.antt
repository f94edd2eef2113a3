-- ===== src/Agent/Draining.antt =====
-- cbits/message_chan.c: the loops of `shutdown_message_context`.
use hcurl.Prelude.{
  ℕ, ◌+◌, ◌<◌, ◌≡◌, ◌≢◌, refl, ◌∙◌, ◌⊎◌, List, [], ◌∷◌, ◌++◌, arith, ◌==◌, if◌then◌else◌, concat,
}
use hcurl.Sender.{Message, execute, cancel_request, resume_request, stop_agent}
use hcurl.Stream.State.{Stream}
use hcurl.Registry.{Transfer}
use hcurl.Registry.Chains.{weigh}
use hcurl.Agent.{Agent, set_private, final_code, finish_effects, finish_detached_transfer}
use hcurl.Agent.Loop.{
  finish_chain, finish_buckets, fail_messages, fail_effects, fail_unregistered_transfer,
}
use hcurl.Agent.Ledger.{
  Debt, pointer, load, demand, queued, paid, paid-append, paid-finish, paid-fail,
}
use hcurl.Agent.Chunks.{Chunks, more, finished, failed}

-- 1 at the transfers of an easy handle.
abbrev pub runs_on : ℕ → Transfer → ℕ
runs_on easy t = if t.easy == easy then 1 else 0

-- What the loop over a chain does.
pub record Finished (chain : List Transfer) (a a' : Agent) : Type 0 where
  pub registry : a'.registry ≡ a.registry
  pub sender : a'.sender ≡ a.sender
  pub chunks : Chunks a.log → Chunks a'.log
  pub pays : (d : Debt) → paid d a'.log ≡ paid d a.log + weigh (load d) chain
  pub clears :
      (easy : ℕ)
      → (a.private_of easy ≡ 0) ⊎ (0 < weigh (runs_on easy) chain)
      → a'.private_of easy ≡ 0

clear_one :
    (easy own w : ℕ) (private_of : ℕ → ℕ)
    → (private_of easy ≡ 0) ⊎ (0 < (if own == easy then 1 else 0) + w)
    → (set_private own 0 private_of easy ≡ 0) ⊎ (0 < w)
clear_one easy own w private_of h = ground arith

pub finish_chain-Finished :
    (streams : ℕ → Stream) (code : ℕ) (chain : List Transfer) (a : Agent)
    → Finished chain a (finish_chain streams code chain a)
unfolding finish_chain finish_detached_transfer
finish_chain-Finished streams code [] a = record {
  registry = refl;
  sender = refl;
  chunks = λ k. k;
  pays = λ d. omega arith;
  clears = λ easy h. ground arith;
}
finish_chain-Finished streams code (t ∷ chain) a =
    let later =
      finish_chain-Finished streams code chain (finish_detached_transfer streams t code a) in
    record {
      registry = later.registry;
      sender = later.sender;
      chunks = λ k. later.chunks (more k (finished t (final_code streams t code)));
      pays = λ d. omega (
        arith,
        later.pays d,
        paid-append d a.log (finish_effects t (final_code streams t code)),
        paid-finish d t (final_code streams t code),
      );
      clears = λ easy h.
          later.clears easy (clear_one easy t.easy (weigh (runs_on easy) chain) a.private_of h);
    }

finish_chain-append :
    (streams : ℕ → Stream) (code : ℕ) (b c : List Transfer) (a : Agent)
    → finish_chain streams code (b ++ c) a
      ≡ finish_chain streams code c (finish_chain streams code b a)
unfolding finish_chain
finish_chain-append streams code [] c a = refl
finish_chain-append streams code (t ∷ b) c a =
    finish_chain-append streams code b c (finish_detached_transfer streams t code a)

pub finish_buckets-concat :
    (streams : ℕ → Stream) (code : ℕ) (bs : List (List Transfer)) (a : Agent)
    → finish_chain streams code (concat bs) a ≡ finish_buckets streams code bs a
unfolding finish_buckets finish_chain
finish_buckets-concat streams code [] a = refl
finish_buckets-concat streams code (b ∷ bs) a =
    finish_chain-append streams code b (concat bs) a
    ∙ finish_buckets-concat streams code bs (finish_chain streams code b a)

-- What the loop over the messages that are left does.
pub record Failed (messages : List Message) (a a' : Agent) : Type 0 where
  pub sender : a'.sender ≡ a.sender
  pub private_of : a'.private_of ≡ a.private_of
  pub chunks : Chunks a.log → Chunks a'.log
  pub pays : (d : Debt) → pointer d ≢ 0 → paid d a'.log ≡ paid d a.log + queued d messages

skip_Failed :
    {messages : List Message} {a a' : Agent} (m : Message)
    → ((d : Debt) → demand d m ≡ 0)
    → Failed messages a a'
    → Failed (m ∷ messages) a a'
skip_Failed m free later = record {
  sender = later.sender;
  private_of = later.private_of;
  chunks = later.chunks;
  pays = λ d h. omega (arith, later.pays d h, free d);
}

pub fail_messages-Failed :
    (code : ℕ) (messages : List Message) (a : Agent)
    → Failed messages a (fail_messages code messages a)
unfolding fail_messages fail_unregistered_transfer
fail_messages-Failed code [] a = record {
  sender = refl;
  private_of = refl;
  chunks = λ k. k;
  pays = λ d h. omega arith;
}
fail_messages-Failed code (execute p ∷ messages) a =
    let later = fail_messages-Failed code messages (fail_unregistered_transfer p code a) in
    record {
      sender = later.sender;
      private_of = later.private_of;
      chunks = λ k. later.chunks (more k (failed p code));
      pays = λ d h.
          omega (
            arith,
            later.pays d h,
            paid-append d a.log (fail_effects p code),
            paid-fail d p code h,
          );
    }
fail_messages-Failed code (cancel_request id ∷ messages) a =
    skip_Failed (cancel_request id) (λ d. refl) (fail_messages-Failed code messages a)
fail_messages-Failed code (resume_request id ∷ messages) a =
    skip_Failed (resume_request id) (λ d. refl) (fail_messages-Failed code messages a)
fail_messages-Failed code (stop_agent ∷ messages) a =
    skip_Failed stop_agent (λ d. refl) (fail_messages-Failed code messages a)

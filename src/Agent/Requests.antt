-- ===== src/Agent/Requests.antt =====
-- cbits/message_chan.c: `execute_transfer`.
use hcurl.Prelude.{
  ℕ, ◌<◌, ◌≡◌, ◌≢◌, refl, inl, inr, false, not, ◌||◌, [], ◌∷◌, some, arith, ◌==◌, Option-cases,
  size_max, if-elim,
}
use hcurl.Sender.{Payload}
use hcurl.Easy.{failed_init}
use hcurl.Registry.{Transfer}
use hcurl.Registry.Chains.{total}
use hcurl.Agent.{Agent, Answers, free_transfer, emit}
use hcurl.Agent.Heap.{lies_at}
use hcurl.Agent.Table.{insert-Inserted}
use hcurl.Agent.Ledger.{Debt, easy_handle, result_at, waiter_of, stream_at, pointer, owed, paid}
use hcurl.Agent.Chunks.{freed}
use hcurl.Agent.Invariant.{
  IsValid, Handled, nothing, unchanged, then_Handled, emit-Handled, fail-Handled, finish-Handled,
}
use hcurl.Agent.Completion.{IsValid-Removed}
use hcurl.Agent.Execution.{Handled-more, activate-Handled, registered-Handled, undone-Handled}
use hcurl.Agent.Loop.{
  transfer_of, start_transfer, execute_allocated, execute_transfer, fail_unregistered_transfer,
  curle_out_of_memory,
}

-- The memory for a transfer is no registered transfer's, and fewer than `SIZE_MAX` are registered.
pub record IsFair (answers : Answers) (a : Agent) : Type 0 where
  pub fresh :
      (address : ℕ)
      → answers.transfer ≡ some address
      → total (lies_at address) a.registry.buckets ≡ 0
  pub small : a.registry.count < size_max

paid-free : (d : Debt) (address : ℕ) → paid d (free_transfer address ∷ []) ≡ 0
paid-free (easy_handle p) address = refl
paid-free (result_at p) address = refl
paid-free (waiter_of p) address = refl
paid-free (stream_at p) address = refl

-- A submission that fails pays its debts.
give_up-Handled :
    {a b : Agent} (p : Payload) (code address : ℕ)
    → Handled nothing a b
    → Handled
        (λ d. owed d p)
        a
        (emit (free_transfer address ∷ []) (fail_unregistered_transfer p code b))
give_up-Handled p code address h =
    let failed = fail-Handled p code h.valid in
    let freed =
      emit-Handled {extra = nothing} (free_transfer address ∷ []) failed.valid (freed address)
        (λ d q. paid-free d address) in
    Handled-more (λ d. omega arith) (then_Handled h (then_Handled failed freed))

start_transfer-Handled :
    (answers : Answers) {a : Agent} (v : IsValid a) (t : Transfer)
    → v.held t.id ≡ some t
    → Handled nothing a (start_transfer answers t a)
unfolding start_transfer
start_transfer-Handled answers {a} v t found =
    if-elim (Handled nothing a) (not answers.add_handle_ok)
      (λ e.
        let (r, out) = IsValid-Removed v found in
        rw out.ran (finish-Handled answers.streams failed_init t.id v out))
      (λ e. activate-Handled t.address v)

execute_allocated-Handled :
    (answers : Answers) (p : Payload) (address : ℕ) {a : Agent}
    → IsValid a
    → answers.transfer ≡ some address
    → IsFair answers a
    → Handled (λ d. owed d p) a (execute_allocated answers p address a)
unfolding execute_allocated
execute_allocated-Handled answers p address {a} v granted fair =
    let fresh = fair.fresh address granted in
    let ok = answers.buckets_ok in
    elim (insert-Inserted ok (transfer_of address p) v.kept fair.small) [
      | inl ran ↦ rw ran (give_up-Handled p failed_init address (unchanged v))
      | inr (r, i) ↦ rw i.ran (
          if-elim (Handled (λ d. owed d p) a) (not answers.setopt_ok)
            (λ e. give_up-Handled p failed_init address (undone-Handled v ok address p fresh i))
            (λ e.
              let (h, found) = registered-Handled v ok address p fresh i in
              Handled-more (λ d. omega arith)
                (then_Handled h
                  (start_transfer-Handled answers h.valid (transfer_of address p) found))))
    ]

owes_nothing :
    (p : Payload) (d : Debt)
    → (not (p.easy == 0)
        || not (p.result == 0)
        || not (p.download_stream == 0)
        || not (p.upload_stream == 0))
      ≡ false
    → pointer d ≢ 0
    → owed d p ≡ 0
owes_nothing p (easy_handle q) e h = ground arith
owes_nothing p (result_at q) e h = ground arith
owes_nothing p (waiter_of q) e h = ground arith
owes_nothing p (stream_at q) e h = ground arith

pub execute_transfer-Handled :
    (answers : Answers) (p : Payload) {a : Agent}
    → IsValid a
    → IsFair answers a
    → Handled (λ d. owed d p) a (execute_transfer answers p a)
unfolding execute_transfer
execute_transfer-Handled answers p {a} v fair =
    if-elim (Handled (λ d. owed d p) a) (p.easy == 0 || p.result == 0 || p.transfer_id == 0)
      (λ e.
        if-elim (Handled (λ d. owed d p) a)
          (not (p.easy == 0)
            || not (p.result == 0)
            || not (p.download_stream == 0)
            || not (p.upload_stream == 0))
          (λ f. fail-Handled p failed_init v)
          (λ f. record {
            valid = v;
            balance = λ d h. omega (arith, owes_nothing p d f h);
            sender = refl;
          }))
      (λ e. elim (Option-cases answers.transfer) [
        | inl none_left ↦ rw none_left (fail-Handled p curle_out_of_memory v)
        | inr (address, granted) ↦
            rw granted (execute_allocated-Handled answers p address v granted fair)
      ])

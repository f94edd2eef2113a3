-- ===== src/Easy/Release.antt =====
-- cbits/extras.c: the `StablePtr` of a transfer's result is released exactly once, and the first
-- result is the one that stays.
use hcurl.Prelude.{
  ℕ, ◌≡◌, ◌≢◌, refl, sym, ap, ◌∙◌, true, false, List, [], ◌∷◌, ◌++◌, Option, none, some, arith,
  ◌==◌, if◌then◌else◌, true-ne-false,
}
use mathlib.Core.Path.{subst}
use mathlib.Core.List.{append_assoc}
use hcurl.Waker.{Put}
use hcurl.Headers.Collector.Invariant.{consumed}
use hcurl.Easy.{
  EasyData, fresh, with_response, create, destroy, set_result, wake, result_code, response_code,
}

-- A call by the agent.
pub data Call : Type 0 where
  finish : (easy : ℕ) → (info : Option ℕ) → (code : ℕ) → Call
  notify : Call

-- The wake-ups of all calls of a list, and the state that they leave.
unfoldable pub run : List Call → EasyData → List Put × EasyData
run [] d = ([], d)
run (finish easy info code ∷ calls) d = run calls (set_result easy info code d)
run (notify ∷ calls) d =
    let (puts, d') = wake d in let (later, end) = run calls d' in (puts ++ later, end)

-- The waker of a fresh result, and of one that has been woken.
pub record IsValid (d : EasyData) : Type 0 where
  pub unfired : d.waker_fired ≡ false → d.waker.waked ≡ false
  pub fired : d.waker_fired ≡ true → d.completed ≡ true

set_result-IsValid :
    (easy : ℕ) (info : Option ℕ) (code : ℕ) {d : EasyData}
    → IsValid d
    → IsValid (set_result easy info code d)
unfolding set_result
set_result-IsValid easy info code v = ground arith

-- One wake-up takes the pointer that a later `hs_easy_data_destroy` would free.
wake_lem :
    {d : EasyData}
    → IsValid d
    → IsValid (wake d).1 × (destroy d ≡ consumed (wake d).0 ++ destroy (wake d).1)
unfolding wake destroy
wake_lem v = ground arith

set_result-destroy :
    (easy : ℕ) (info : Option ℕ) (code : ℕ) (d : EasyData)
    → destroy (set_result easy info code d) ≡ destroy d
unfolding set_result destroy
set_result-destroy easy info code d = ground arith

consumed-append : (a b : List Put) → consumed (a ++ b) ≡ consumed a ++ consumed b
consumed-append [] b = refl
consumed-append ((capability, mvar) ∷ a) b = ap (λ t. mvar ∷ t) (consumed-append a b)

pub run-destroy :
    (calls : List Call) {d : EasyData}
    → IsValid d
    → destroy d ≡ consumed (run calls d).0 ++ destroy (run calls d).1
unfolding run
run-destroy [] v = refl
run-destroy (finish easy info code ∷ calls) {d} v =
    sym (set_result-destroy easy info code d)
    ∙ run-destroy calls (set_result-IsValid easy info code v)
run-destroy (notify ∷ calls) {d} v =
    let (v', e) = wake_lem v in
    let later = run calls (wake d).1 in
    e
    ∙ ap (λ t. consumed (wake d).0 ++ t) (run-destroy calls v')
    ∙ sym (append_assoc (consumed (wake d).0) (consumed later.0) (destroy later.1))
    ∙ ap (λ t. t ++ destroy later.1) (sym (consumed-append (wake d).0 later.0))

-- The state that some calls leave.
abbrev pub after : List Call → EasyData → EasyData
after calls d = (run calls d).1

pub after-append :
    (calls later : List Call) (d : EasyData)
    → after (calls ++ later) d ≡ after later (after calls d)
unfolding run
after-append [] later d = refl
after-append (finish easy info code ∷ calls) later d =
    after-append calls later (set_result easy info code d)
after-append (notify ∷ calls) later d = after-append calls later (wake d).1

-- A transfer's end on a result whose waiter has been woken just if it is complete.
pub ended_lem :
    (easy : ℕ) (info : Option ℕ) (code : ℕ) (d : EasyData)
    → d.waker_fired ≡ d.completed
    → let d' = after (finish easy info code ∷ notify ∷ []) d in
      (d'.completed ≡ true) × (d'.waker_fired ≡ true)
unfolding run set_result wake
ended_lem easy none code d level = ground arith
ended_lem easy (some status) code d level = ground arith

pub fired-destroy : (d : EasyData) → d.waker_fired ≡ true → destroy d ≡ []
unfolding destroy
fired-destroy d e = ground arith

pub fresh-IsValid : (mvar capability : ℕ) → IsValid (fresh mvar capability)
fresh-IsValid mvar capability = record { unfired = λ e. refl; fired = λ e. true-ne-false (sym e) }

pub fresh-destroy : (mvar capability : ℕ) → mvar ≢ 0 → destroy (fresh mvar capability) ≡ mvar ∷ []
unfolding destroy
fresh-destroy mvar capability present = ground arith

pub create-fresh :
    (mvar capability : ℕ) → create true mvar capability ≡ some (fresh mvar capability)
unfolding create
create-fresh mvar capability = refl

-- From `hs_easy_data_create`, where it gets memory, through any calls of `hs_easy_data_set_result`
-- and `hs_easy_data_wake`, to `hs_easy_data_destroy`: a `StablePtr` that is not null is released
-- exactly once, by one wake-up or by the end.
pub run-released :
    (calls : List Call) (mvar capability : ℕ)
    → mvar ≢ 0
    → (d : EasyData) × (create true mvar capability ≡ some d)
      × (consumed (run calls d).0 ++ destroy (run calls d).1 ≡ mvar ∷ [])
run-released calls mvar capability present = (
  fresh mvar capability,
  create-fresh mvar capability,
  sym (run-destroy calls (fresh-IsValid mvar capability)) ∙ fresh-destroy mvar capability present,
)

set_result_done :
    (easy : ℕ) (info : Option ℕ) (code : ℕ) (d : EasyData)
    → d.completed ≡ true
    → set_result easy info code d ≡ d
unfolding set_result
set_result_done easy info code d done = ground arith

wake_keeps :
    (d : EasyData)
    → ((wake d).1.completed ≡ d.completed)
      × ((wake d).1.curl_code ≡ d.curl_code)
      × ((wake d).1.response_code ≡ d.response_code)
unfolding wake
wake_keeps d = ground arith

first_result :
    (easy : ℕ) (info : Option ℕ) (code : ℕ) (d : EasyData)
    → d.completed ≡ false
    → ((set_result easy info code d).completed ≡ true)
      × ((set_result easy info code d).curl_code ≡ code)
      × ((set_result easy info code d).response_code
          ≡ (if easy == 0 then d.response_code else (with_response info d).response_code))
unfolding set_result
first_result easy none code d e = ground arith
first_result easy (some status) code d e = ground arith

kept :
    (calls : List Call) (d : EasyData)
    → d.completed ≡ true
    → ((run calls d).1.curl_code ≡ d.curl_code) × ((run calls d).1.response_code ≡ d.response_code)
unfolding run
kept [] d done = (refl, refl)
kept (finish easy info code ∷ calls) d done =
    subst
      (λ k.
        ((run calls k).1.curl_code ≡ d.curl_code)
        × ((run calls k).1.response_code ≡ d.response_code))
      (sym (set_result_done easy info code d done)) (kept calls d done)
kept (notify ∷ calls) d done =
    let (still_done, code, response) = wake_keeps d in
    let (p, q) = kept calls (wake d).1 (still_done ∙ done) in (p ∙ code, q ∙ response)

-- The result that a reader sees, once a first `hs_easy_data_set_result` was made on a result that
-- was not complete, is that of this call, whatever the agent calls afterwards.
pub run-first :
    (easy : ℕ) (info : Option ℕ) (code : ℕ) (calls : List Call) (d : EasyData)
    → d.completed ≡ false
    → let end = (run (finish easy info code ∷ calls) d).1 in
      (result_code (some end) ≡ code)
      × (response_code (some end)
          ≡ (if easy == 0 then d.response_code else (with_response info d).response_code))
unfolding run result_code response_code
run-first easy info code calls d open_result =
    let (done, coded, responded) = first_result easy info code d open_result in
    let (p, q) = kept calls (set_result easy info code d) done in (p ∙ coded, q ∙ responded)

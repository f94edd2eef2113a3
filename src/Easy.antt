-- ===== src/Easy.antt =====
-- cbits/extras.c and cbits/extras.h: the result of a transfer that the agent writes and a Haskell
-- thread waits for. A null `data`, at which every function returns at once, is the `none` of the
-- two readers.
pub mod Release
pub mod Overlay
pub mod Once
mod Tests
use hcurl.Prelude.{
  ℕ, Bool, true, false, ◌&&◌, ◌||◌, not, List, [], ◌∷◌, Option, none, some, ◌==◌, if◌then◌else◌,
}
use hcurl.Waker.{Waker, Put, wake_up_waker}

-- `hs_easy_data_s`. A `CURLcode` and an HTTP status are numbers.
pub record EasyData : Type 0 where
  pub curl_code : ℕ
  pub response_code : ℕ
  pub waker : Waker
  pub waker_fired : Bool
  pub completed : Bool

-- What `hs_easy_data_create` puts into its block.
abbrev pub fresh : ℕ → ℕ → EasyData
fresh mvar capability = record {
  curl_code = 0;
  response_code = 0;
  waker = record { mvar = mvar; capability = capability; waked = false };
  waker_fired = false;
  completed = false;
}

-- `hs_easy_data_create`; the Boolean is what `calloc` answers.
unfoldable pub create : Bool → ℕ → ℕ → Option EasyData
create calloc_ok mvar capability = if calloc_ok then some (fresh mvar capability) else none

-- `hs_easy_data_destroy`: the `StablePtr` that it frees, if any.
unfoldable pub destroy : EasyData → List ℕ
destroy d = if not (d.waker.mvar == 0) && not d.waker_fired then d.waker.mvar ∷ [] else []

-- What `curl_easy_getinfo` says of the response is kept; `none` is an error.
abbrev pub with_response : Option ℕ → EasyData → EasyData
with_response none d = d
with_response (some status) d = record d { response_code = status }

-- `hs_easy_data_set_result`; `easy` is 0 for null, and `info` what `curl_easy_getinfo` answers.
unfoldable pub set_result : ℕ → Option ℕ → ℕ → EasyData → EasyData
set_result easy info code d =
    if d.completed
    then d
    else let coded : EasyData = record d { curl_code = code } in
      let responded : EasyData = if not (easy == 0) then with_response info coded else coded in
      record responded { completed = true }

-- `hs_easy_data_wake`
unfoldable pub wake : EasyData → List Put × EasyData
unfolding wake_up_waker
wake d =
    if not d.completed || d.waker_fired
    then ([], d)
    else let (puts, waker) = wake_up_waker d.waker in
      (puts, record d { waker_fired = true; waker = waker })

-- `CURLE_FAILED_INIT` of libcurl's numbering.
abbrev pub failed_init : ℕ
failed_init = 2

-- `hs_easy_data_code`
unfoldable pub result_code : Option EasyData → ℕ
result_code none = failed_init
result_code (some d) = d.curl_code

-- `hs_easy_data_response_code`
unfoldable pub response_code : Option EasyData → ℕ
response_code none = 0
response_code (some d) = d.response_code

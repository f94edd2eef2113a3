-- ===== src/Options.antt =====
-- cbits/options.c: the typed wrappers of `curl_easy_setopt`, built against libcurl 7.49.0 or later. A
-- pointer is a number, and 0 is null; an option of libcurl is the number that it documents.
mod Tests
use mathlib.Core.Path.{subst}
use hcurl.Prelude.{
  ℕ, ◌≡◌, ◌≢◌, refl, sym, ap, ◌∙◌, Bool, true, false, ◌||◌, inl, inr, Option, none, some, arith,
  ◌==◌, if◌then◌else◌, Bool-cases, Option-cases,
}

-- `enum hcurl_easy_option`, and any other number in its place.
pub data EasyOption : Type 0 where
  http_version pipe_wait follow_location no_signal ssl_verify_peer tcp_fast_open : EasyOption
  tcp_keep_alive timeout_ms connect_timeout_ms low_speed_time low_speed_limit : EasyOption
  accept_encoding ip_resolve ssl_verify_host : EasyOption
  other : ℕ → EasyOption

-- What a wrapper does: it returns a code, or what `curl_easy_setopt` answers to this call.
pub data Outcome : Type 0 where
  returns : ℕ → Outcome
  calls : (easy option value : ℕ) → Outcome

-- `CURLE_BAD_FUNCTION_ARGUMENT`
abbrev pub bad_function_argument : ℕ
bad_function_argument = 43

-- The `switch` of `hcurl_easy_setopt_long`: libcurl's option.
abbrev pub curl_option : EasyOption → Option ℕ
curl_option http_version = some 84
curl_option pipe_wait = some 237
curl_option follow_location = some 52
curl_option no_signal = some 99
curl_option ssl_verify_peer = some 64
curl_option tcp_fast_open = some 244
curl_option tcp_keep_alive = some 213
curl_option timeout_ms = some 155
curl_option connect_timeout_ms = some 156
curl_option low_speed_time = some 20
curl_option low_speed_limit = some 19
curl_option ip_resolve = some 113
curl_option ssl_verify_host = some 81
curl_option accept_encoding = none
curl_option (other n) = none

-- That of `hcurl_easy_setopt_string`.
abbrev pub curl_string_option : EasyOption → Option ℕ
curl_string_option accept_encoding = some 10102
curl_string_option http_version = none
curl_string_option pipe_wait = none
curl_string_option follow_location = none
curl_string_option no_signal = none
curl_string_option ssl_verify_peer = none
curl_string_option tcp_fast_open = none
curl_string_option tcp_keep_alive = none
curl_string_option timeout_ms = none
curl_string_option connect_timeout_ms = none
curl_string_option low_speed_time = none
curl_string_option low_speed_limit = none
curl_string_option ip_resolve = none
curl_string_option ssl_verify_host = none
curl_string_option (other n) = none

abbrev pub call_option : ℕ → ℕ → Option ℕ → Outcome
call_option easy value none = returns bad_function_argument
call_option easy value (some option) = calls easy option value

-- `hcurl_easy_setopt_long`
unfoldable pub easy_setopt_long : ℕ → EasyOption → ℕ → Outcome
easy_setopt_long easy option value =
    if easy == 0 then returns bad_function_argument else call_option easy value (curl_option option)

-- `hcurl_easy_setopt_string`
unfoldable pub easy_setopt_string : ℕ → EasyOption → ℕ → Outcome
easy_setopt_string easy option value =
    if easy == 0 || value == 0
    then returns bad_function_argument
    else call_option easy value (curl_string_option option)

-- `hcurl_raw_easy_setopt_long`
unfoldable pub raw_easy_setopt_long : ℕ → ℕ → ℕ → Outcome
raw_easy_setopt_long easy option value =
    if easy == 0 then returns bad_function_argument else calls easy option value

-- `hcurl_raw_easy_setopt_string`
unfoldable pub raw_easy_setopt_string : ℕ → ℕ → ℕ → Outcome
raw_easy_setopt_string easy option value =
    if easy == 0 || value == 0 then returns bad_function_argument else calls easy option value

-- The option that a number of libcurl stands for.
option_of : ℕ → EasyOption
option_of c =
    if c == 84
    then http_version
    else if c == 237
    then pipe_wait
    else if c == 52
    then follow_location
    else if c == 99
    then no_signal
    else if c == 64
    then ssl_verify_peer
    else if c == 244
    then tcp_fast_open
    else if c == 213
    then tcp_keep_alive
    else if c == 155
    then timeout_ms
    else if c == 156
    then connect_timeout_ms
    else if c == 20
    then low_speed_time
    else if c == 19
    then low_speed_limit
    else if c == 113
    then ip_resolve
    else if c == 81
    then ssl_verify_host
    else accept_encoding

abbrev ReadsBack : EasyOption → Option ℕ → Type 0
ReadsBack option none = Unit
ReadsBack option (some c) = option_of c ≡ option

option_of-curl_option : (option : EasyOption) → ReadsBack option (curl_option option)
unfolding option_of
option_of-curl_option http_version = refl
option_of-curl_option pipe_wait = refl
option_of-curl_option follow_location = refl
option_of-curl_option no_signal = refl
option_of-curl_option ssl_verify_peer = refl
option_of-curl_option tcp_fast_open = refl
option_of-curl_option tcp_keep_alive = refl
option_of-curl_option timeout_ms = refl
option_of-curl_option connect_timeout_ms = refl
option_of-curl_option low_speed_time = refl
option_of-curl_option low_speed_limit = refl
option_of-curl_option ip_resolve = refl
option_of-curl_option ssl_verify_host = refl
option_of-curl_option accept_encoding = tt
option_of-curl_option (other n) = tt

-- `hcurl_easy_setopt_long` calls libcurl with the handle and the value that it was given, and two
-- options for which it makes the same call are the same.
pub easy_setopt_long-calls :
    (easy : ℕ) (option option' : EasyOption) (value value' handle c v : ℕ)
    → easy_setopt_long easy option value ≡ calls handle c v
    → easy_setopt_long easy option' value' ≡ calls handle c v
    → (handle ≡ easy) × (v ≡ value) × (option ≡ option')
unfolding easy_setopt_long
easy_setopt_long-calls easy option option' value value' handle c v e e' =
    let (h, k, same) = called easy option value e in
    let (h', k', same') = called easy option' value' e' in
    let back : option_of c ≡ option =
      subst (ReadsBack option) same (option_of-curl_option option) in
    let back' : option_of c ≡ option' =
      subst (ReadsBack option') same' (option_of-curl_option option') in
    (h, k, sym back ∙ back')
  where
    called :
        (easy : ℕ) (option : EasyOption) (value : ℕ)
        → easy_setopt_long easy option value ≡ calls handle c v
        → (handle ≡ easy) × (v ≡ value) × (curl_option option ≡ some c)
    called easy option value e = elim (Bool-cases (easy == 0)) [
      | inl null ↦ absurd (ground (arith, e, null))
      | inr there ↦ elim (Option-cases (curl_option option)) [
        | inl k ↦ absurd (ground (arith, e, there, k))
        | inr (d, k) ↦ ground (arith, e, there, k)
      ]
    ]

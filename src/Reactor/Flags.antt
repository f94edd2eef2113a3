-- ===== src/Reactor/Flags.antt =====
-- cbits/curl_uv.c: what `socket_callback` tells libcurl of a socket.
use hcurl.Prelude.{ℕ, ◌+◌, ◌/◌, ◌%◌, ◌≡◌, Bool, false, ◌==◌, if◌then◌else◌, arith}

-- The flags of a call with a `status` that may be negative. `UV_READABLE` and `CURL_CSELECT_IN` are 1,
-- `UV_WRITABLE` and `CURL_CSELECT_OUT` 2, and `CURL_CSELECT_ERR` 4.
unfoldable pub select_flags : Bool → ℕ → ℕ
select_flags is_negative events =
    if is_negative
    then 4
    else (if events % 2 == 1 then 1 else 0) + (if events / 2 % 2 == 1 then 2 else 0)

-- The directions that libcurl hears of are those that libuv reports.
select_flags_lem : (events : ℕ) → select_flags false events ≡ events % 4
unfolding select_flags
select_flags_lem events = ground arith

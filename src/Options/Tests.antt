-- ===== src/Options/Tests.antt =====
-- The wrappers at concrete options.
use hcurl.Prelude.{◌≡◌, refl}
use hcurl.Options.{
  timeout_ms, accept_encoding, calls, returns, easy_setopt_long, easy_setopt_string,
}

long_call : easy_setopt_long 5 timeout_ms 1000 ≡ calls 5 155 1000
unfolding easy_setopt_long
long_call = refl

test_string : easy_setopt_string 5 accept_encoding 0 ≡ returns 43
unfolding easy_setopt_string
test_string = refl

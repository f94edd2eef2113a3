-- ===== src/Easy/Tests.antt =====
-- A transfer's result at concrete calls.

use hcurl.Prelude.{
  ℕ, ◌≡◌, refl, true, List, [], ◌∷◌, ◌++◌, Option, none, some, arith, ◌==◌, if◌then◌else◌,
}
use hcurl.Headers.Collector.Invariant.{consumed}
use hcurl.Headers.Search.{ascii_lower}
use hcurl.Easy.Overlay.{
  overlay_header, overlay_at, any_equal, header_name_equal, equal_prefix, find_colon, free_overlay,
  borrowed,
}
use hcurl.Easy.Overlay.Outcomes.{NoColon, Outcome, overlay_header-Outcome}
use hcurl.Easy.{EasyData, fresh, with_response, create, destroy, result_code, response_code}
use hcurl.Easy.Release.{Call, finish, notify, run, run-released, run-first}

abbrev calls : List Call
calls = notify ∷ finish 5 (some 200) 0 ∷ notify ∷ finish 0 none 42 ∷ notify ∷ []

run-released_example :
    (d : EasyData) × (create true 9 1 ≡ some d)
    × (consumed (run calls d).0 ++ destroy (run calls d).1 ≡ 9 ∷ [])
run-released_example = run-released calls 9 1 (ground arith)

run-first_example :
    let end = (run (finish 5 (some 200) 0 ∷ calls) (fresh 9 1)).1 in
    (result_code (some end) ≡ 0)
    × (response_code (some end)
        ≡ (if 5 == 0 then 0 else (with_response (some 200) (fresh 9 1)).response_code))
run-first_example = run-first 5 (some 200) 0 calls (fresh 9 1) refl

-- "Accept" and its value, over a list with "ACCEPT:" after a node that is null.
abbrev name : List ℕ
name = b'A' ∷ b'c' ∷ b'c' ∷ b'e' ∷ b'p' ∷ b't' ∷ []

abbrev value : List ℕ
value = b' ' ∷ b'*' ∷ []

abbrev nodes : List (Option (List ℕ))
nodes = none ∷ some (b'A' ∷ b'C' ∷ b'C' ∷ b'E' ∷ b'P' ∷ b'T' ∷ b':' ∷ b'x' ∷ []) ∷ []

name-NoColon : NoColon name
name-NoColon = (
  ground arith,
  (ground arith, (ground arith, (ground arith, (ground arith, (ground arith, tt))))),
)

overlay_header-Outcome_example :
    let key = name ++ (b':' ∷ []) in
    Outcome key (key ++ value) nodes true (overlay_header true nodes (key ++ value))
overlay_header-Outcome_example = overlay_header-Outcome true nodes name value name-NoColon

overlays : Unit {0}
unfolding overlay_header overlay_at any_equal header_name_equal equal_prefix find_colon ascii_lower
    free_overlay
overlays = tt

test_borrowed : overlay_header true nodes (name ++ (b':' ∷ value)) ≡ borrowed
unfolding overlays
test_borrowed = refl

test_prefixed :
    free_overlay (overlay_header true (none ∷ []) (name ++ (b':' ∷ value)))
    ≡ (name ++ (b':' ∷ value)) ∷ []
unfolding overlays
test_prefixed = refl

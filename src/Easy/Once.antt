-- ===== src/Easy/Once.antt =====
-- cbits/extras.c: libcurl's global initialisation, made once.
use hcurl.Prelude.{ℕ, ◌≡◌, refl, ap, Bool, true, false, List, [], ◌∷◌, if◌then◌else◌}
use hcurl.Easy.{failed_init}

-- `global_init_once` and `global_init_result`.
pub record Global : Type 0 where
  pub done : Bool
  pub result : ℕ

abbrev pub uninitialized : Global
uninitialized = record { done = false; result = failed_init }

-- `initialize_curl_global`, with what `curl_global_init` answers.
abbrev pub initialize : ℕ → Global → Global
initialize answer g = record g { result = answer }

-- `hcurl_global_init_once`; `uv_once` runs its function in the first call.
unfoldable pub global_init_once : ℕ → Global → ℕ × Global
global_init_once answer g =
    let g' : Global = if g.done then g else record (initialize answer g) { done = true } in
    (g'.result, g')

-- The results of one call after another, with what `curl_global_init` would answer in each.
unfoldable pub results : List ℕ → Global → List ℕ
unfolding global_init_once
results [] g = []
results (answer ∷ answers) g =
    let (result, g') = global_init_once answer g in (result ∷ results answers g')

abbrev pub repeated : ℕ → List ℕ → List ℕ
repeated code [] = []
repeated code (answer ∷ answers) = code ∷ repeated code answers

results_done :
    (answers : List ℕ) (code : ℕ)
    → results answers (record { done = true; result = code }) ≡ repeated code answers
unfolding results global_init_once
results_done [] code = refl
results_done (answer ∷ answers) code = ap (λ t. code ∷ t) (results_done answers code)

-- However often `hcurl_global_init_once` is called, each call returns what `curl_global_init`
-- answered in the first.
pub results-first :
    (answer : ℕ) (answers : List ℕ)
    → results (answer ∷ answers) uninitialized ≡ repeated answer (answer ∷ answers)
unfolding results global_init_once
results-first answer answers = ap (λ t. answer ∷ t) (results_done answers answer)

-- ===== src/Metrics/Rounding.antt =====
-- cbits/curl_metrics.c: how far a rounded product is from the limit of `int64_t`.
use hcurl.Prelude.{
  ℕ, zero, suc, ◌+◌, ◌-◌, ◌*◌, ◌/◌, ◌%◌, ◌^◌, ◌<◌, ◌≤◌, ◌≡◌, refl, sym, ap, ◌∙◌, Bool, false, ◌||◌,
  Option, none, some, arith, ltb, leb, ◌==◌, Bool-cases, ◌⊎◌, inl, inr, if-elim,
}
use hcurl.Metrics.{int64_max}
use hcurl.Metrics.Doubles.{
  nearest, round, unit, Double, nan, infinite, minus, finite, threshold, cast, to_int64,
  threshold_one, threshold_million, IsDouble, AnswersDouble, get_double_info,
}

-- Bounds of a number and of its rounding, after some halvings.
abbrev limit : ℕ → ℕ
limit zero = 2 ^ 54 - 4
limit (suc j) = 2 * limit j + 1

abbrev bound : ℕ → ℕ
bound zero = 2 ^ 54 - 2
bound (suc j) = 2 * bound j

limit_lt : (j : ℕ) → (limit j < bound j) × (2 ^ 54 - 2 ≤ bound j)
limit_lt zero = (omega arith, omega arith)
limit_lt (suc j) = let (p, q) = limit_lt j in (omega (arith, p), omega (arith, q))

nearest_le : (fuel j : ℕ) (more : Bool) (n : ℕ) → n ≤ limit j → nearest fuel more n ≤ bound j
unfolding nearest
nearest_le zero j more n h = omega (arith, h, (limit_lt j).0)
nearest_le (suc fuel) zero more n h =
    if-elim (λ r. r ≤ bound zero) (ltb n (2 ^ 54)) (λ e. ground (arith, h))
      (λ e. absurd (ground (arith, h, e)))
nearest_le (suc fuel) (suc j) more n h =
    if-elim (λ r. r ≤ bound (suc j)) (ltb n (2 ^ 54)) (λ e. ground (arith, h, (limit_lt j).1, e))
      (λ e. omega (arith, nearest_le fuel j (more || n % 2 == 1) (n / 2) (omega (arith, h))))

-- The place of the last bit, after some halvings.
abbrev place : ℕ → ℕ
place zero = 2
place (suc j) = 2 * place j

place_ge : (j : ℕ) → 2 ≤ place j
place_ge zero = omega arith
place_ge (suc j) = omega (arith, place_ge j)

nearest_multiple :
    (fuel j : ℕ) (more : Bool) (n : ℕ)
    → j < fuel
    → 2 ^ 52 * place j ≤ n
    → (m : ℕ) × (nearest fuel more n ≡ place j * m)
unfolding nearest
nearest_multiple zero j more n enough h = absurd (omega (arith, enough))
nearest_multiple (suc fuel) zero more n enough h =
    if-elim (λ r. (m : ℕ) × (r ≡ 2 * m)) (ltb n (2 ^ 54)) (λ e. (_, refl)) (λ e. (_, refl))
nearest_multiple (suc fuel) (suc j) more n enough h =
    let (m, e) =
      nearest_multiple fuel j (more || n % 2 == 1) (n / 2) (omega (arith, enough))
        (omega (arith, h)) in
    if-elim (λ r. (m : ℕ) × (r ≡ place (suc j) * m)) (ltb n (2 ^ 54))
      (λ k. absurd (ground (arith, k, h, place_ge j))) (λ k. (m, omega (arith, e)))

limit_value : limit 1083 ≡ 2 ^ 1137 - 3 * 2 ^ 1083 - 1
limit_value = refl

bound_value : bound 1083 ≡ 2 ^ 1137 - 2 ^ 1084
bound_value = refl

place_value : place 1064 ≡ 2 ^ 1065
place_value = refl

-- Between 2 ^ 43 and 2 ^ 44 a double is a multiple of 2 ^ -9.
double_multiple : (n : ℕ) → round false n ≡ n → 2 ^ 1117 ≤ n → (m : ℕ) × (n ≡ 2 ^ 1065 * m)
unfolding round
double_multiple n =
    if-elim (λ (r : ℕ). r ≡ n → 2 ^ 1117 ≤ n → (m : ℕ) × (n ≡ 2 ^ 1065 * m)) (ltb n (2 ^ 53))
      (λ e k h. absurd (ground (arith, e, h)))
      (λ e k h.
        let (m, multiple) =
          nearest_multiple 2200 1064 false n (omega arith) (omega (arith, h, place_value)) in
        (m, sym k ∙ multiple ∙ ap (λ p. p * m) place_value))

-- A number that is below 2 ^ 63 by at least 1536 and a bit is rounded to one below it.
round_lt : (n : ℕ) → n ≤ limit 1083 → round false n < 2 ^ 1137
unfolding round
round_lt n h =
    if-elim (λ (r : ℕ). r < 2 ^ 1137) (ltb n (2 ^ 53)) (λ e. ground (arith, e))
      (λ e. omega (arith, nearest_le 2200 1083 false n h, bound_value))

-- A product that is converted is in range.
product_lt :
    (scale n : ℕ)
    → (scale ≡ 1) ⊎ (scale ≡ 1000000)
    → round false n ≡ n
    → n < threshold scale
    → round false (n * scale) < 2 ^ 1137
product_lt scale n (inl one) e h =
    let below : n < 2 ^ 1137 = omega (arith, h, ap threshold one, threshold_one) in
    let same : n * scale ≡ n = omega (arith, ap (λ k. n * k) one) in
    omega (arith, ap (round false) same, e, below)
product_lt scale n (inr million) e h =
    let below : n < 2 ^ 1065 * 4722366482869645 =
      omega (arith, h, ap threshold million, threshold_million) in
    let product : n * scale ≡ 1000000 * n = omega (arith, ap (λ k. n * k) million) in
    let small : 1000000 * n ≤ limit 1083 = elim (Bool-cases (leb (2 ^ 1117) n)) [
      | inl large ↦
          let (m, multiple) = double_multiple n e (ground (arith, large)) in
          omega (arith, multiple, below, limit_value)
      | inr less ↦
          let less' : n < 2 ^ 1117 = ground (arith, less) in omega (arith, less', limit_value)
    ] in
    round_lt (n * scale) (omega (arith, product, small))

in_range : (n : ℕ) → n < 2 ^ 1137 → (cast n ≡ some (n / unit)) × (n / unit ≤ int64_max)
in_range n h = let le : n / unit ≤ int64_max = omega (arith, h) in (ground (arith, le), le)

to_int64_lem :
    (scale : ℕ) (value : Double)
    → (scale ≡ 1) ⊎ (scale ≡ 1000000)
    → IsDouble value
    → (v : ℕ) × (to_int64 scale value ≡ some v) × (v ≤ int64_max)
unfolding to_int64
to_int64_lem scale nan s e = (0, refl, omega arith)
to_int64_lem scale minus s e = (0, refl, omega arith)
to_int64_lem scale infinite s e = (int64_max, refl, omega arith)
to_int64_lem scale (finite n) s e =
    let P : Option ℕ → Type 0 = λ r. (v : ℕ) × (r ≡ some v) × (v ≤ int64_max) in
    if-elim P (n == 0) (λ k. (0, refl, omega arith))
      (λ k.
        if-elim P (leb (threshold scale) n) (λ k. (int64_max, refl, omega arith))
          (λ k.
            let below : n < threshold scale = less (threshold scale) n k in
            let (done, le) = in_range (round false (n * scale)) (product_lt scale n s e below) in
            (round false (n * scale) / unit, done, le)))
  where
    less : (t n : ℕ) → leb t n ≡ false → n < t
    less t n k = ground (arith, k)

-- `get_double_info` of a double, with either of the scales of `curl_metrics_finish`, never converts a
-- number that is out of range, and returns at most INT64_MAX.
pub get_double_info_lem :
    (scale : ℕ) (answer : Option Double)
    → (scale ≡ 1) ⊎ (scale ≡ 1000000)
    → AnswersDouble answer
    → (v : ℕ) × (get_double_info scale answer ≡ some v) × (v ≤ int64_max)
unfolding get_double_info
get_double_info_lem scale none s e = (0, refl, omega arith)
get_double_info_lem scale (some value) s e = to_int64_lem scale value s e

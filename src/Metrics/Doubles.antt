-- ===== src/Metrics/Doubles.antt =====
-- cbits/curl_metrics.c: `get_double_info`, with a `double` of IEEE 754 that is rounded to the nearest. A
-- double that is not negative is a number of units of 2 ^ -1074, with 53 significant bits.
use hcurl.Prelude.{
  ℕ, zero, suc, ◌+◌, ◌*◌, ◌/◌, ◌%◌, ◌^◌, ◌≡◌, refl, Bool, false, ◌&&◌, ◌||◌, Option, none, some,
  ltb, leb, not, ◌==◌, if◌then◌else◌,
}
use hcurl.Metrics.{int64_max}

-- Any `double`; `minus` is one that is less than 0.
pub data Double : Type 0 where
  nan infinite minus : Double
  finite : ℕ → Double

abbrev pub unit : ℕ
unit = 2 ^ 1074

-- The nearest number with 53 bits, and the even one of two, to one of 54 bits or more; the Boolean
-- says that there is more behind the last bit.
unfoldable pub nearest : ℕ → Bool → ℕ → ℕ
nearest zero more n = n
nearest (suc fuel) more n =
    let half : ℕ = n / 2 in
    let above = nearest fuel (more || n % 2 == 1) half in
    if ltb n (2 ^ 54)
    then 2 * (half + (if n % 2 == 1 && (more || half % 2 == 1) then 1 else 0))
    else 2 * above

-- A number of units, rounded to a double.
unfoldable pub round : Bool → ℕ → ℕ
unfolding nearest
round more n = if ltb n (2 ^ 53) then n else nearest 2200 more n

-- `(double)INT64_MAX / scale`, of a scale that is a whole number.
abbrev pub threshold : ℕ → ℕ
threshold scale =
    let most = round false (int64_max * unit) in round (not (most % scale == 0)) (most / scale)

-- A conversion to `int64_t` of a number that is too large is undefined.
abbrev pub cast : ℕ → Option ℕ
cast n = if leb (n / unit) int64_max then some (n / unit) else none

-- `nonnegative_double_to_int64`, of a scale that is a whole number.
unfoldable pub to_int64 : ℕ → Double → Option ℕ
to_int64 scale nan = some 0
to_int64 scale minus = some 0
to_int64 scale infinite = some int64_max
to_int64 scale (finite n) =
    if n == 0
    then some 0
    else if leb (threshold scale) n
    then some int64_max
    else cast (round false (n * scale))

-- `get_double_info`, with what `curl_easy_getinfo` answers; the inner `none` is an error.
unfoldable pub get_double_info : ℕ → Option Double → Option ℕ
unfolding to_int64
get_double_info scale none = some 0
get_double_info scale (some value) = to_int64 scale value

-- A double that is a number has the bits of one.
abbrev pub IsDouble : Double → Type 0
IsDouble nan = Unit
IsDouble infinite = Unit
IsDouble minus = Unit
IsDouble (finite n) = round false n ≡ n

abbrev pub AnswersDouble : Option Double → Type 0
AnswersDouble none = Unit
AnswersDouble (some value) = IsDouble value

pub threshold_one : threshold 1 ≡ 2 ^ 1137
unfolding round
threshold_one = refl

pub threshold_million : threshold 1000000 ≡ 2 ^ 1065 * 4722366482869645
unfolding round
threshold_million = refl

-- ===== src/Headers/Lines.antt =====
-- cbits/headers.c: what a header line is (`is_status_line`, `parse_status`, `is_blank_line`).
-- A line is the list of its bytes.
use hcurl.Prelude.{
  ℕ, zero, suc, ap, ◌∙◌, ◌+◌, ◌*◌, ◌-◌, ◌<◌, ◌≤◌, ◌≡◌, refl, Bool, false, ◌&&◌, List, [], ◌∷◌, ◌++◌,
  arith, ltb, leb, ◌==◌, if◌then◌else◌, replicate,
}

-- `length >= 5 && memcmp(line, "HTTP/", 5) == 0`
unfoldable pub is_status_line : List ℕ → Bool
is_status_line (a ∷ b ∷ c ∷ d ∷ e ∷ _) =
    a == b'H' && (b == b'T' && (c == b'T' && (d == b'P' && e == b'/')))
is_status_line _ = false

unfoldable pub is_blank_line : List ℕ → Bool
is_blank_line (a ∷ []) = a == 10
is_blank_line (a ∷ b ∷ []) = a == 13 && b == 10
is_blank_line _ = false

-- `memchr(line, ' ', length)`: the rest of the line from its first space on; empty if it has none.
pub from_space : List ℕ → List ℕ
from_space [] = []
from_space (c ∷ cs) = if c == b' ' then c ∷ cs else from_space cs

-- `while (space < end && *space == ' ') ++space;`
pub skip_spaces : List ℕ → List ℕ
skip_spaces [] = []
skip_spaces (c ∷ cs) = if c == b' ' then skip_spaces cs else c ∷ cs

abbrev pub is_digit : ℕ → Bool
is_digit c = leb b'0' c && leb c b'9'

-- The loop over the digits, with its variables `status` and `digits`.
pub read_digits : ℕ → ℕ → List ℕ → ℕ × ℕ
read_digits status digits [] = (status, digits)
read_digits status digits (c ∷ cs) =
    let rest = read_digits (status * 10 + (c - b'0')) (digits + 1) cs in
    if is_digit c && ltb digits 3 then rest else (status, digits)

-- `digits == 3 ? status : 0`
abbrev status_of : ℕ × ℕ → ℕ
status_of (status, digits) = if digits == 3 then status else 0

-- `parse_status`: without a space the loop reads nothing, and the result is 0 as well.
unfoldable pub parse_status : List ℕ → ℕ
unfolding from_space skip_spaces read_digits
parse_status line = status_of (read_digits 0 0 (skip_spaces (from_space line)))

-- No byte of the list is a space.
abbrev pub HasNoSpace : List ℕ → Type 0
HasNoSpace [] = Unit
HasNoSpace (c ∷ cs) = ((c == b' ') ≡ false) × HasNoSpace cs

from_space-append :
    (version rest : List ℕ)
    → HasNoSpace version
    → from_space (version ++ (b' ' ∷ rest)) ≡ b' ' ∷ rest
unfolding from_space
from_space-append [] rest h = refl
from_space-append (c ∷ cs) rest h = ground (arith, from_space-append cs rest)

skip_spaces-replicate :
    (n c : ℕ) (rest : List ℕ)
    → (c == b' ') ≡ false
    → skip_spaces (replicate n b' ' ++ (c ∷ rest)) ≡ c ∷ rest
unfolding skip_spaces
skip_spaces-replicate zero c rest h = ground arith
skip_spaces-replicate (suc n) c rest h = skip_spaces-replicate n c rest h

read_digits-stop : (status : ℕ) (rest : List ℕ) → read_digits status 3 rest ≡ (status, 3)
unfolding read_digits
read_digits-stop status [] = refl
read_digits-stop status (c ∷ cs) = ground arith

read_digits-three :
    (x y z : ℕ) (rest : List ℕ)
    → x < 10
    → y < 10
    → z < 10
    → read_digits 0 0 ((b'0' + x) ∷ (b'0' + y) ∷ (b'0' + z) ∷ rest) ≡ (x * 100 + y * 10 + z, 3)
unfolding read_digits
read_digits-three x y z rest hx hy hz =
    ground (arith, read_digits-stop (((0 * 10 + x) * 10 + y) * 10 + z) rest)

-- A status line as a server prints it: a version, spaces, the three digits of a status, a rest.
abbrev pub status_line : List ℕ → ℕ → ℕ → ℕ → ℕ → List ℕ → List ℕ
status_line version spaces x y z rest =
    version ++ (b' ' ∷ (replicate spaces b' ' ++ ((b'0' + x) ∷ (b'0' + y) ∷ (b'0' + z) ∷ rest)))

-- `parse_status` reads back the three digits that follow the version and at least one space,
-- whatever stands behind them.
pub parse_status-status_line :
    (version rest : List ℕ) (spaces x y z : ℕ)
    → HasNoSpace version
    → x < 10
    → y < 10
    → z < 10
    → parse_status (status_line version spaces x y z rest) ≡ x * 100 + y * 10 + z
unfolding parse_status
parse_status-status_line version rest spaces x y z h hx hy hz =
    let digits = (b'0' + x) ∷ (b'0' + y) ∷ (b'0' + z) ∷ rest in
    let no_space : ((b'0' + x) == b' ') ≡ false = ground arith in
    ap (λ t. status_of (read_digits 0 0 t))
      (ap skip_spaces (from_space-append version (replicate spaces b' ' ++ digits) h)
        ∙ skip_spaces-replicate (suc spaces) (b'0' + x) ((b'0' + y) ∷ (b'0' + z) ∷ rest) no_space)
    ∙ ap status_of (read_digits-three x y z rest hx hy hz)

-- The least number above every one of so many digits.
abbrev limit_of : ℕ → ℕ
limit_of zero = 1
limit_of (suc zero) = 10
limit_of (suc (suc zero)) = 100
limit_of _ = 1000

read_digits_bound :
    (status digits : ℕ) (cs : List ℕ)
    → digits ≤ 3
    → status < limit_of digits
    → (read_digits status digits cs).0 < 1000
unfolding read_digits
read_digits_bound status digits [] h k = ground arith
read_digits_bound status zero (c ∷ cs) h k =
    ground (arith, read_digits_bound (status * 10 + (c - b'0')) 1 cs)
read_digits_bound status (suc zero) (c ∷ cs) h k =
    ground (arith, read_digits_bound (status * 10 + (c - b'0')) 2 cs)
read_digits_bound status (suc (suc zero)) (c ∷ cs) h k =
    ground (arith, read_digits_bound (status * 10 + (c - b'0')) 3 cs)
read_digits_bound status (suc (suc (suc d))) (c ∷ cs) h k = ground arith

-- A parsed status has at most three digits.
pub parse_status-lt : (line : List ℕ) → parse_status line < 1000
unfolding parse_status
parse_status-lt line =
    ground
      (arith, read_digits_bound 0 0 (skip_spaces (from_space line)) (omega arith) (omega arith))

-- ===== src/Headers/Search.antt =====
-- cbits/headers.c: the search of a header block for a text, whatever its case.
use hcurl.Prelude.{
  ℕ, zero, suc, ◌+◌, ◌-◌, ◌<◌, ◌≡◌, ◌↔◌, inl, inr, refl, ap, ◌∙◌, Bool, true, false, ◌&&◌, ◌||◌,
  List, [], ◌∷◌, ◌++◌, map, arith, ltb, leb, ◌==◌, if◌then◌else◌, length, length-append, Bool-cases,
}

unfoldable pub ascii_lower : ℕ → ℕ
ascii_lower value = if leb b'A' value && leb value b'Z' then value + (b'a' - b'A') else value

-- The inner loop, from an offset on: all bytes of the needle are met, up to case.
pub matches_at : List ℕ → List ℕ → Bool
matches_at [] cs = true
matches_at (n ∷ ns) [] = false
matches_at (n ∷ ns) (c ∷ cs) = ascii_lower c == ascii_lower n && matches_at ns cs

-- The outer loop, with the number of offsets that are left.
pub search_from : ℕ → List ℕ → List ℕ → Bool
search_from zero needle bytes = false
search_from (suc rounds) needle [] = matches_at needle []
search_from (suc rounds) needle (c ∷ cs) =
    let rest = search_from rounds needle cs in if matches_at needle (c ∷ cs) then true else rest

-- `contains_ascii_case_insensitive` of data that is not null.
unfoldable pub contains : List ℕ → List ℕ → Bool
unfolding search_from matches_at ascii_lower
contains bytes needle =
    if length needle == 0 || ltb (length bytes) (length needle)
    then false
    else search_from (length bytes - length needle + 1) needle bytes

-- The needle stands in the bytes, up to the case of ASCII letters.
pub record Occurs (needle bytes : List ℕ) : Type 0 where
  pub before : List ℕ
  pub found : List ℕ
  pub behind : List ℕ
  pub split : bytes ≡ before ++ (found ++ behind)
  pub same : map ascii_lower found ≡ map ascii_lower needle

matches_at-Occurs :
    (needle bytes : List ℕ)
    → matches_at needle bytes ≡ true
    → (found : List ℕ) × (behind : List ℕ) × (bytes ≡ found ++ behind)
      × (map ascii_lower found ≡ map ascii_lower needle)
unfolding matches_at
matches_at-Occurs [] bytes h = ([], bytes, refl, refl)
matches_at-Occurs (n ∷ ns) [] h = cc
matches_at-Occurs (n ∷ ns) (c ∷ cs) h =
    let (found, behind, split, same) = matches_at-Occurs ns cs (ground arith) in
    (c ∷ found, behind, ap (λ t. c ∷ t) split, ground arith)

Occurs-matches_at :
    (needle found behind : List ℕ)
    → map ascii_lower found ≡ map ascii_lower needle
    → matches_at needle (found ++ behind) ≡ true
unfolding matches_at
Occurs-matches_at [] found behind h = refl
Occurs-matches_at (n ∷ ns) [] behind h = cc
Occurs-matches_at (n ∷ ns) (c ∷ cs) behind h = ground (arith, Occurs-matches_at ns cs behind)

search_from-Occurs :
    (rounds : ℕ) (needle bytes : List ℕ)
    → search_from rounds needle bytes ≡ true
    → Occurs needle bytes
unfolding search_from
search_from-Occurs zero needle bytes h = cc
search_from-Occurs (suc rounds) needle [] h =
    let (found, behind, split, same) = matches_at-Occurs needle [] h in
    record { before = []; found = found; behind = behind; split = split; same = same }
search_from-Occurs (suc rounds) needle (c ∷ cs) h = elim (Bool-cases (matches_at needle (c ∷ cs))) [
  | inl e ↦
      let (found, behind, split, same) = matches_at-Occurs needle (c ∷ cs) e in
      record { before = []; found = found; behind = behind; split = split; same = same }
  | inr e ↦
      let later = search_from-Occurs rounds needle cs (ground arith) in
      record {
        before = c ∷ later.before;
        found = later.found;
        behind = later.behind;
        split = ap (λ t. c ∷ t) later.split;
        same = later.same;
      }
]

Occurs-search_from :
    (rounds : ℕ) (needle before found behind : List ℕ)
    → map ascii_lower found ≡ map ascii_lower needle
    → length before < rounds
    → search_from rounds needle (before ++ (found ++ behind)) ≡ true
unfolding search_from
Occurs-search_from zero needle before found behind same h = absurd (omega arith)
Occurs-search_from (suc rounds) needle [] [] [] same h = Occurs-matches_at needle [] [] same
Occurs-search_from (suc rounds) needle [] [] (c ∷ behind) same h =
    rw (Occurs-matches_at needle [] (c ∷ behind) same) refl
Occurs-search_from (suc rounds) needle [] (c ∷ found) behind same h =
    rw (Occurs-matches_at needle (c ∷ found) behind same) refl
Occurs-search_from (suc rounds) needle (c ∷ before) found behind same h =
    ground (arith, Occurs-search_from rounds needle before found behind same (omega arith))

length-same :
    (found needle : List ℕ)
    → map ascii_lower found ≡ map ascii_lower needle
    → length found ≡ length needle
length-same [] [] h = refl
length-same [] (n ∷ ns) h = cc
length-same (c ∷ cs) [] h = cc
length-same (c ∷ cs) (n ∷ ns) h = ap suc (length-same cs ns (ground arith))

length-pieces :
    (before found behind : List ℕ)
    → length (before ++ (found ++ behind)) ≡ length before + (length found + length behind)
length-pieces before found behind =
    omega (arith, length-append before (found ++ behind), length-append found behind)

-- `contains_ascii_case_insensitive` decides, for a needle that is not empty, whether the needle
-- occurs in the data up to the case of ASCII letters: its loop runs over enough offsets.
pub contains_iff :
    (bytes needle : List ℕ)
    → 0 < length needle
    → (contains bytes needle ≡ true) ↔ Occurs needle bytes
unfolding contains
contains_iff bytes needle pos = (
  λ h. search_from-Occurs (length bytes - length needle + 1) needle bytes (ground arith),
  λ o.
      let total = ap length o.split ∙ length-pieces o.before o.found o.behind in
      let same = length-same o.found needle o.same in
      let hit : search_from (length bytes - length needle + 1) needle bytes ≡ true =
        ap (search_from (length bytes - length needle + 1) needle) o.split
        ∙ Occurs-search_from (length bytes - length needle + 1) needle o.before o.found o.behind
            o.same (omega arith) in
      ground arith,
)

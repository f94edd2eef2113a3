-- ===== src/Easy/Overlay/Outcomes.antt =====
-- cbits/extras.c: which list a caller of `hcurl_slist_overlay_header` gets.
use hcurl.Prelude.{
  ℕ, ◌+◌, ◌≡◌, ◌≢◌, refl, sym, ap, ◌∙◌, inl, inr, ◌↔◌, Bool, true, false, List, [], ◌∷◌, ◌++◌,
  Option, none, some, map, arith, ◌==◌, if◌then◌else◌, Bool-cases, length, length-append,
  true-ne-false,
}
use mathlib.Core.Path.{ap₂}
use hcurl.Headers.Search.{ascii_lower}
use hcurl.Easy.Overlay.{
  equal_prefix, header_name_equal, find_colon, any_equal, Overlay, null, borrowed, prefixed,
  overlay_at, overlay_header,
}

-- Bytes that begin with a key, up to the case of ASCII letters.
pub record Carries (key candidate : List ℕ) : Type 0 where
  pub found : List ℕ
  pub behind : List ℕ
  pub split : candidate ≡ found ++ behind
  pub same : map ascii_lower found ≡ map ascii_lower key

-- A node with such bytes, in a list.
pub record HasNode (key : List ℕ) (list : List (Option (List ℕ))) : Type 0 where
  pub before : List (Option (List ℕ))
  pub candidate : List ℕ
  pub after : List (Option (List ℕ))
  pub nodes : list ≡ before ++ (some candidate ∷ after)
  pub carries : Carries key candidate

equal_prefix-Carries :
    (candidate key value : List ℕ)
    → equal_prefix candidate (key ++ value) (length key) ≡ true
    → Carries key candidate
unfolding equal_prefix
equal_prefix-Carries candidate [] value h = record {
  found = [];
  behind = candidate;
  split = refl;
  same = refl;
}
equal_prefix-Carries [] (k ∷ key) value h = cc
equal_prefix-Carries (c ∷ candidate) (k ∷ key) value h =
    let later = equal_prefix-Carries candidate key value (ground arith) in
    record {
      found = c ∷ later.found;
      behind = later.behind;
      split = ap (λ t. c ∷ t) later.split;
      same = ap₂ (λ a b. a ∷ b) (ground arith) later.same;
    }

Carries-equal_prefix :
    (found behind key value : List ℕ)
    → map ascii_lower found ≡ map ascii_lower key
    → equal_prefix (found ++ behind) (key ++ value) (length key) ≡ true
unfolding equal_prefix
Carries-equal_prefix [] behind [] value h = refl
Carries-equal_prefix [] behind (k ∷ key) value h = cc
Carries-equal_prefix (c ∷ found) behind [] value h = cc
Carries-equal_prefix (c ∷ found) behind (k ∷ key) value h =
    ground (arith, Carries-equal_prefix found behind key value)

any_equal-HasNode :
    (list : List (Option (List ℕ))) (key value : List ℕ)
    → any_equal list (key ++ value) (length key) ≡ true
    → HasNode key list
unfolding any_equal header_name_equal
any_equal-HasNode [] key value h = cc
any_equal-HasNode (none ∷ list) key value h =
    let later = any_equal-HasNode list key value h in
    record {
      before = none ∷ later.before;
      candidate = later.candidate;
      after = later.after;
      nodes = ap (λ t. none ∷ t) later.nodes;
      carries = later.carries;
    }
any_equal-HasNode (some c ∷ list) key value h =
    elim (Bool-cases (equal_prefix c (key ++ value) (length key))) [
      | inl e ↦ record {
        before = [];
        candidate = c;
        after = list;
        nodes = refl;
        carries = equal_prefix-Carries c key value e;
      }
      | inr e ↦
          let later = any_equal-HasNode list key value (ground arith) in
          record {
            before = some c ∷ later.before;
            candidate = later.candidate;
            after = later.after;
            nodes = ap (λ t. some c ∷ t) later.nodes;
            carries = later.carries;
          }
    ]

HasNode-any_equal :
    (before : List (Option (List ℕ))) (candidate : List ℕ) (after : List (Option (List ℕ)))
    (key value : List ℕ)
    → equal_prefix candidate (key ++ value) (length key) ≡ true
    → any_equal (before ++ (some candidate ∷ after)) (key ++ value) (length key) ≡ true
unfolding any_equal header_name_equal
HasNode-any_equal [] candidate after key value e = rw e refl
HasNode-any_equal (none ∷ before) candidate after key value e =
    HasNode-any_equal before candidate after key value e
HasNode-any_equal (some c ∷ before) candidate after key value e =
    ground (arith, HasNode-any_equal before candidate after key value e)

-- Bytes without a colon.
abbrev pub NoColon : List ℕ → Type 0
NoColon [] = Unit
NoColon (c ∷ cs) = (c ≢ b':') × NoColon cs

find_colon_lem :
    (name value : List ℕ)
    → NoColon name
    → find_colon ((name ++ (b':' ∷ [])) ++ value) ≡ some (length name)
unfolding find_colon
find_colon_lem [] value h = refl
find_colon_lem (c ∷ name) value h =
    let rest = find_colon_lem name value h.1 in
    let other : (c == b':') ≡ false = ground (arith, h.0) in rw (other, rest) refl

find_colon_absent : (header : List ℕ) → NoColon header → find_colon header ≡ none
unfolding find_colon
find_colon_absent [] h = refl
find_colon_absent (c ∷ header) h =
    let rest = find_colon_absent header h.1 in
    let other : (c == b':') ≡ false = ground (arith, h.0) in rw (other, rest) refl

-- What the caller gets for a header that begins with the key `key`, a name and its colon.
pub data Outcome (key header : List ℕ) (list : List (Option (List ℕ)))
    : Bool → Overlay → Type 0 where
  kept : {append_ok : Bool} → HasNode key list → Outcome key header list append_ok borrowed
  put_in_front : ¬ HasNode key list → Outcome key header list true (prefixed header)
  no_memory : ¬ HasNode key list → Outcome key header list false null

any_equal_iff :
    (list : List (Option (List ℕ))) (key value : List ℕ)
    → (any_equal list (key ++ value) (length key) ≡ true) ↔ HasNode key list
any_equal_iff list key value = (
  any_equal-HasNode list key value,
  λ o.
      let c = o.carries in
      let e : equal_prefix o.candidate (key ++ value) (length key) ≡ true =
        ap (λ t. equal_prefix t (key ++ value) (length key)) c.split
        ∙ Carries-equal_prefix c.found c.behind key value c.same in
      ap (λ t. any_equal t (key ++ value) (length key)) o.nodes
      ∙ HasNode-any_equal o.before o.candidate o.after key value e,
)

-- `hcurl_slist_overlay_header` of a header with a colon returns the borrowed list exactly if one of
-- its nodes begins, up to the case of ASCII letters, with the header's name and a colon; else a node
-- with the header before it, or null where it gets no memory.
pub overlay_header-Outcome :
    (append_ok : Bool) (list : List (Option (List ℕ))) (name value : List ℕ)
    → NoColon name
    → let key = name ++ (b':' ∷ []) in
      Outcome key (key ++ value) list append_ok (overlay_header append_ok list (key ++ value))
unfolding overlay_header overlay_at
overlay_header-Outcome append_ok list name value h =
    let key = name ++ (b':' ∷ []) in
    let width : length name + 1 ≡ length key = omega (arith, length-append name (b':' ∷ [])) in
    let test = any_equal_iff list key value in
    rw (overlay_header, find_colon_lem name value h, width)
      (elim (Bool-cases (any_equal list (key ++ value) (length key))) [
        | inl e ↦ rw e (kept (test.0 e))
        | inr e ↦ rw e (own append_ok (λ o. true-ne-false (sym (test.1 o) ∙ e)))
      ])
  where
    own :
        (append_ok : Bool) {key header : List ℕ} {list : List (Option (List ℕ))}
        → ¬ HasNode key list
        → Outcome key header list append_ok (if append_ok then prefixed header else null)
    own true absent = put_in_front absent
    own false absent = no_memory absent

-- A header without a colon is no header: null.
pub overlay_header_absent :
    (append_ok : Bool) (list : List (Option (List ℕ))) (header : List ℕ)
    → NoColon header
    → overlay_header append_ok list header ≡ null
unfolding overlay_header overlay_at
overlay_header_absent append_ok list header h = rw (find_colon_absent header h) refl

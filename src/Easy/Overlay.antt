-- ===== src/Easy/Overlay.antt =====
-- cbits/extras.c: a header put in front of a borrowed list, unless the list has one of that name. A C
-- string is the list of its bytes without the zero at its end; a node's `data` may be null.
pub mod Outcomes
use hcurl.Prelude.{
  ℕ, zero, suc, ◌+◌, ◌≡◌, ◌≢◌, refl, sym, ap, ◌∙◌, ◌⊎◌, inl, inr, ◌↔◌, Bool, true, false, ◌&&◌,
  List, [], ◌∷◌, ◌++◌, Option, none, some, map, arith, ◌==◌, ==_iff, if◌then◌else◌, if-elim,
  Bool-cases, length, length-append, true-ne-false,
}
use mathlib.Core.Option
use mathlib.Core.Path.{ap₂, subst}
use hcurl.Headers.Search.{ascii_lower}

-- The loop of `header_name_equal`; the name ends within `header`.
unfoldable pub equal_prefix : List ℕ → List ℕ → ℕ → Bool
unfolding ascii_lower
equal_prefix candidate header zero = true
equal_prefix [] header (suc n) = false
equal_prefix (c ∷ candidate) [] (suc n) = false
equal_prefix (c ∷ candidate) (h ∷ header) (suc n) =
    ascii_lower c == ascii_lower h && equal_prefix candidate header n

-- `header_name_equal` of a header that is not null.
unfoldable pub header_name_equal : Option (List ℕ) → List ℕ → ℕ → Bool
unfolding equal_prefix
header_name_equal none header n = false
header_name_equal (some candidate) header n = equal_prefix candidate header n

-- `strchr(header, ':')`, as an index.
unfoldable pub find_colon : List ℕ → Option ℕ
find_colon [] = none
find_colon (c ∷ cs) = if c == b':' then some 0 else Option.map suc (find_colon cs)

-- The loop over the borrowed list.
unfoldable pub any_equal : List (Option (List ℕ)) → List ℕ → ℕ → Bool
unfolding header_name_equal
any_equal [] header n = false
any_equal (node ∷ nodes) header n =
    if header_name_equal node header n then true else any_equal nodes header n

-- The list that is returned: null, the borrowed one, or a node of its own before the borrowed one.
pub data Overlay : Type 0 where
  null borrowed : Overlay
  prefixed : List ℕ → Overlay

-- The end of `hcurl_slist_overlay_header`, at the index of the colon.
unfoldable pub overlay_at : Bool → List (Option (List ℕ)) → List ℕ → Option ℕ → Overlay
unfolding any_equal
overlay_at append_ok list header none = null
overlay_at append_ok list header (some colon) =
    if any_equal list header (colon + 1)
    then borrowed
    else if append_ok
    then prefixed header
    else null

-- `hcurl_slist_overlay_header` of a header that is not null; the Boolean says whether
-- `curl_slist_append` gets its memory.
unfoldable pub overlay_header : Bool → List (Option (List ℕ)) → List ℕ → Overlay
unfolding find_colon overlay_at
overlay_header append_ok list header = overlay_at append_ok list header (find_colon header)

-- `hcurl_slist_free_overlay`: the nodes that it frees.
unfoldable pub free_overlay : Overlay → List (List ℕ)
free_overlay null = []
free_overlay borrowed = []
free_overlay (prefixed header) = header ∷ []

-- ===== src/Ring.antt =====
-- An array of `cap` slots read round and round: the slots from one index on, as a list. This is
-- how cbits/stream.c uses its array of chunks.
use native.Mathlib.Nat.{mod-add-mod}
use mathlib.Core.Path.{ap₂}
use hcurl.Prelude.{
  ℕ, zero, suc, ◌+◌, ◌%◌, ◌≤◌, ◌<◌, ◌≡◌, ◌≢◌, refl, sym, ap, ◌∙◌, List, [], ◌∷◌, ◌++◌, arith,
  length, get_or, set, get_or-set_self, get_or-set_ne,
}

-- Two indices that are less than `cap` apart name different slots.
pub mod_apart : (cap a b : ℕ) → a < b → b < a + cap → a % cap ≢ b % cap
mod_apart cap a b h k e = grind arith

module _ {ℓ} {A : Type ℓ} (d : A) (cap : ℕ) where
  -- The `n` slots from index `i` on, modulo `cap`.
  abbrev pub window : List A → ℕ → ℕ → List A
  window slots i zero = []
  window slots i (suc n) = get_or slots (i % cap) d ∷ window slots (i + 1) n

  pub length-window : (slots : List A) (i n : ℕ) → length (window slots i n) ≡ n
  length-window slots i zero = refl
  length-window slots i (suc n) = ap suc (length-window slots (i + 1) n)

  -- Only the index modulo `cap` matters.
  pub window_congr :
      (slots : List A) (i j n : ℕ) → i % cap ≡ j % cap → window slots i n ≡ window slots j n
  window_congr slots i j zero e = refl
  window_congr slots i j (suc n) e =
      ap₂ (λ k r. get_or slots k d ∷ r) e
        (window_congr slots (i + 1) (j + 1) n
          (sym (mod-add-mod i cap 1) ∙ ap (λ t. (t + 1) % cap) e ∙ mod-add-mod j cap 1))

  -- A slot past the window may be written.
  pub window-set_behind :
      (slots : List A) (v : A) (i j n : ℕ)
      → i + n ≤ j
      → j < i + cap
      → window (set slots (j % cap) v) i n ≡ window slots i n
  window-set_behind slots v i j zero h lt = refl
  window-set_behind slots v i j (suc n) h lt =
      ap₂ ◌∷◌ (get_or-set_ne slots v d (λ e. mod_apart cap i j (omega arith) lt (sym e)))
        (window-set_behind slots v (i + 1) j n (omega arith) (omega arith))

  -- A write just behind the window extends it.
  pub window-set_end :
      (slots : List A) (v : A) (i j n : ℕ)
      → 0 < cap
      → length slots ≡ cap
      → j ≡ i + n
      → n < cap
      → window (set slots (j % cap) v) i (suc n) ≡ window slots i n ++ (v ∷ [])
  window-set_end slots v i j zero pos size e lt =
      let at_start : j % cap ≡ i % cap = ap (λ k. k % cap) (omega arith) in
      rw at_start (ap (λ k. k ∷ []) (get_or-set_self slots (i % cap) v d (omega arith)))
  window-set_end slots v i j (suc n) pos size e lt =
      ap₂ ◌∷◌ (get_or-set_ne slots v d (λ q. mod_apart cap i j (omega arith) (omega arith) (sym q)))
        (window-set_end slots v (i + 1) j n pos size (omega arith) (omega arith))

  -- A slot before the window may be written.
  pub window-set_before :
      (slots : List A) (v : A) (j i n : ℕ)
      → j < i
      → i + n ≤ j + cap
      → window (set slots (j % cap) v) i n ≡ window slots i n
  window-set_before slots v j i zero h lt = refl
  window-set_before slots v j i (suc n) h lt =
      ap₂ ◌∷◌ (get_or-set_ne slots v d (mod_apart cap j i h (omega arith)))
        (window-set_before slots v j (i + 1) n (omega arith) (omega arith))

  -- A write at the start of the window changes its first element alone.
  pub window-set_start :
      (slots : List A) (v : A) (i n : ℕ)
      → 0 < cap
      → length slots ≡ cap
      → n < cap
      → window (set slots (i % cap) v) i (suc n) ≡ v ∷ window slots (i + 1) n
  window-set_start slots v i n pos size lt =
      ap₂ ◌∷◌ (get_or-set_self slots (i % cap) v d (omega arith))
        (window-set_before slots v i (i + 1) n (omega arith) (omega arith))

-- ===== src/Prelude/Tests.antt =====
-- Boolean tests on the native numbers, the conditional, and the range of `size_t`.
use Prim.Native.Nat.{ℕ, ◌^◌, ◌-◌, ◌+◌, ◌*◌, ◌/◌, ◌%◌, suc, zero, ◌<◌, compare, Ordering}
use mathlib.Core.Path.{◌≡◌, refl, sym, ◌∙◌}
use mathlib.Core.Logic.{◌↔◌, ◌⊎◌, inl, inr}
use mathlib.Core.Bool.{Bool, true, false, not, ◌&&◌, ◌||◌}
use mathlib.Core.Option.{Option, none, some}
use native.Mathlib.Nat.{div-lt_iff_lt-mul}
use native.Mathlib.Omega.{arith}

abbrev pub ltb : ℕ → ℕ → Bool
ltb a b = elim (compare a b) [ Ordering.lt ↦ true | _ ↦ false ]

abbrev pub leb : ℕ → ℕ → Bool
leb a b = elim (compare a b) [ Ordering.gt ↦ false | _ ↦ true ]

infix 50 ◌==◌
abbrev pub ◌==◌ : ℕ → ℕ → Bool
a == b = elim (compare a b) [ Ordering.eq ↦ true | _ ↦ false ]

infix 1 if◌then◌else◌
abbrev pub if◌then◌else◌ {ℓ} : {A : Type ℓ} → Bool → A → A → A
if true then x else y = x
if false then x else y = y

pub ltb→lt : (a b : ℕ) → ltb a b ≡ true → a < b
ltb→lt a b h = ground arith

pub lt→ltb : (a b : ℕ) → a < b → ltb a b ≡ true
lt→ltb a b h = ground arith

pub ==_iff : (a b : ℕ) → ((a == b) ≡ true) ↔ (a ≡ b)
==_iff a b = ground arith

pub Bool-cases : (b : Bool) → (b ≡ true) ⊎ (b ≡ false)
Bool-cases true = inl refl
Bool-cases false = inr refl

pub Option-cases {ℓ} : {A : Type ℓ} (o : Option A) → (o ≡ none) ⊎ ((a : A) × (o ≡ some a))
Option-cases none = inl refl
Option-cases (some a) = inr (a, refl)

-- `SIZE_MAX` of a 64-bit `size_t`.
abbrev pub size_max : ℕ
size_max = 2 ^ 64 - 1

-- `size_t` arithmetic, with its wrap-around.
abbrev pub add_size : ℕ → ℕ → ℕ
add_size a b = (a + b) % 2 ^ 64

abbrev pub mul_size : ℕ → ℕ → ℕ
mul_size a b = (a * b) % 2 ^ 64

abbrev pub is_none {ℓ} : {A : Type ℓ} → Option A → Bool
is_none none = true
is_none (some a) = false

-- `size != 0 && count > SIZE_MAX / size`, the guard of every callback of libcurl.
abbrev pub product_overflows : ℕ → ℕ → Bool
product_overflows size count = not (size == 0) && ltb (size_max / size) count

-- The guard passes exactly when the product fits a `size_t`.
pub product_overflows_lem :
    (size count : ℕ) → product_overflows size count ≡ ltb size_max (size * count)
product_overflows_lem zero count = ground arith
product_overflows_lem (suc k) count =
    let fits = div-lt_iff_lt-mul {k = suc k} {x = size_max} {y = count} (omega arith) in
    elim (Bool-cases (ltb (size_max / suc k) count)) [
      | inl e ↦ let big = fits.0 (ltb→lt _ _ e) in ground arith
      | inr e ↦
          let small : ¬ (size_max < count * suc k) = λ h. cc (lt→ltb _ _ (fits.1 h)) in ground arith
    ]

pub true-ne-false : {P : Type 0} → true ≡ false → P
true-ne-false e = cc

-- What holds of both branches holds of the test.
pub if-elim {ℓ κ} :
    {A : Type ℓ} (P : A → Type κ) (b : Bool) {x y : A}
    → (b ≡ true → P x)
    → (b ≡ false → P y)
    → P (if b then x else y)
if-elim P true t f = t refl
if-elim P false t f = f refl

-- One of two tests holds.
pub either : (a b : Bool) → (a || b) ≡ true → (a ≡ true) ⊎ (b ≡ true)
either true b e = inl refl
either false b e = inr e

pub or_left : {a : Bool} (b : Bool) → a ≡ true → (a || b) ≡ true
or_left b e = rw e refl

pub or_right : (a : Bool) {b : Bool} → b ≡ true → (a || b) ≡ true
or_right true e = refl
or_right false e = e

pub only_right : {a b : Bool} → a ≡ false → (a || b) ≡ true → b ≡ true
only_right {a} {b} off e = elim (either a b e) [ inl on ↦ true-ne-false (sym on ∙ off) | inr h ↦ h ]

pub not-true : (b : Bool) → not b ≡ true → b ≡ false
not-true false e = refl
not-true true e = sym e

pub not-false : (b : Bool) → not b ≡ false → b ≡ true
not-false true e = refl
not-false false e = sym e

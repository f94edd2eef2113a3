-- ===== src/Registry/Mask.antt =====
-- A mask keeps a number below its own: the index of a bucket is in range.
use Prim.Native.Nat.{min, bit_and, digits, bit_and-bitwise}
use hcurl.Prelude.{ℕ, zero, suc, ◌-◌, ◌/◌, ◌≤◌, ◌<◌, arith}

masked_digits-le : (n a b : ℕ) → digits (λ b. zero) min n a b ≤ b
masked_digits-le zero a b = omega arith
masked_digits-le (suc n) zero b = omega arith
masked_digits-le (suc n) (suc a) b = omega (arith, masked_digits-le n (suc a / 2) (b / 2))

bit_and-le : (a b : ℕ) → bit_and a b ≤ b
bit_and-le a b = omega (arith, bit_and-bitwise a b, masked_digits-le a a b)

pub bit_and-lt : (a n : ℕ) → 0 < n → bit_and a (n - 1) < n
bit_and-lt a n h = omega (arith, bit_and-le a (n - 1))

-- ===== src/Prelude/Bits/Step.antt =====
-- The native bit operations are given by a recursion on digits that counts its fuel down from the
-- first operand. Any fuel that is large enough gives the same number, so one digit can be split off.
use Prim.Native.Nat.{
  ℕ, zero, suc, ◌+◌, ◌*◌, ◌/◌, ◌%◌, ◌≤◌, min, max, bit_and, bit_or, digits, bit_and-bitwise,
  bit_or-bitwise,
}
use mathlib.Core.Path.{◌≡◌, refl}
use native.Mathlib.Omega.{arith}

-- `last` is the value on an exhausted first operand, `op` the operation on two digits.
module _ (last : ℕ → ℕ) (op : ℕ → ℕ → ℕ) where
  pub enough_fuel : (m n x y : ℕ) → x ≤ m → x ≤ n → digits last op m x y ≡ digits last op n x y
  enough_fuel zero zero x y h k = refl
  enough_fuel zero (suc n) zero y h k = refl
  enough_fuel zero (suc n) (suc x) y h k = absurd (omega arith)
  enough_fuel (suc m) zero zero y h k = refl
  enough_fuel (suc m) zero (suc x) y h k = absurd (omega arith)
  enough_fuel (suc m) (suc n) zero y h k = refl
  enough_fuel (suc m) (suc n) (suc x) y h k =
      omega (arith, enough_fuel m n (suc x / 2) (y / 2) (omega arith) (omega arith))

pub bit_or_step : (a b : ℕ) → bit_or a b ≡ bit_or (a / 2) (b / 2) * 2 + max (a % 2) (b % 2)
bit_or_step zero b = omega (arith, bit_or-bitwise 0 b, bit_or-bitwise (0 / 2) (b / 2))
bit_or_step (suc a) b = omega (
  arith,
  bit_or-bitwise (suc a) b,
  bit_or-bitwise (suc a / 2) (b / 2),
  enough_fuel (λ y. y) max a (suc a / 2) (suc a / 2) (b / 2) (omega arith) (omega arith),
)

pub bit_and_step : (a b : ℕ) → bit_and a b ≡ bit_and (a / 2) (b / 2) * 2 + min (a % 2) (b % 2)
bit_and_step zero b = omega (arith, bit_and-bitwise 0 b, bit_and-bitwise (0 / 2) (b / 2))
bit_and_step (suc a) b = omega (
  arith,
  bit_and-bitwise (suc a) b,
  bit_and-bitwise (suc a / 2) (b / 2),
  enough_fuel (λ y. 0) min a (suc a / 2) (suc a / 2) (b / 2) (omega arith) (omega arith),
)

pub bit_and_zero_left : (b : ℕ) → bit_and 0 b ≡ 0
bit_and_zero_left b = bit_and-bitwise 0 b

below : (n a : ℕ) → a ≤ n → (bit_and a 0 ≡ 0) × (bit_or a 0 ≡ a)
below n zero h = (bit_and-bitwise 0 0, bit_or-bitwise 0 0)
below zero (suc a) h = absurd (omega arith)
below (suc n) (suc a) h =
    let half = below n (suc a / 2) (omega arith) in
    (omega (arith, bit_and_step (suc a) 0, half.0), omega (arith, bit_or_step (suc a) 0, half.1))

pub bit_and_zero_right : (a : ℕ) → bit_and a 0 ≡ 0
bit_and_zero_right a = (below a a (omega arith)).0

pub bit_or_zero_right : (a : ℕ) → bit_or a 0 ≡ a
bit_or_zero_right a = (below a a (omega arith)).1

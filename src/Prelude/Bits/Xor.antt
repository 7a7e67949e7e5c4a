-- ===== src/Prelude/Bits/Xor.antt =====
-- Exclusive or by digits, and that each operand can be told from the other and the result.
use Prim.Native.Nat.{differ, bit_xor-bitwise}
use htools.Prelude.{ℕ, zero, suc, ◌+◌, ◌-◌, ◌*◌, ◌/◌, ◌%◌, ◌^◌, ◌<◌, bit_xor, ◌≡◌, ap₂, arith}
use htools.Prelude.Bits.Step.{enough_fuel}
use native.Mathlib.Nat.{pow-suc}

differ-eq : (x y : ℕ) → differ x y ≡ x - y + (y - x)
differ-eq zero y = omega arith
differ-eq (suc x) zero = omega arith
differ-eq (suc x) (suc y) = omega (arith, differ-eq x y)

bit_xor_step :
    (a b : ℕ) → bit_xor a b ≡ bit_xor (a / 2) (b / 2) * 2 + (a % 2 - b % 2 + (b % 2 - a % 2))
bit_xor_step zero b = omega (arith, bit_xor-bitwise 0 b, bit_xor-bitwise (0 / 2) (b / 2))
bit_xor_step (suc a) b = omega (
  arith,
  bit_xor-bitwise (suc a) b,
  bit_xor-bitwise (suc a / 2) (b / 2),
  enough_fuel (λ y. y) differ a (suc a / 2) (suc a / 2) (b / 2) (omega arith) (omega arith),
  differ-eq (suc a % 2) (b % 2),
)

pub bit_xor-lt : (n a b : ℕ) → a < 2 ^ n → b < 2 ^ n → bit_xor a b < 2 ^ n
bit_xor-lt zero a b ha hb =
    let a0 : a ≡ 0 = omega arith in
    let b0 : b ≡ 0 = omega arith in let e : bit_xor a b ≡ 0 = ap₂ bit_xor a0 b0 in omega arith
bit_xor-lt (suc n) a b ha hb = omega (
  arith,
  bit_xor_step a b,
  pow-suc 2 n,
  bit_xor-lt n (a / 2) (b / 2) (omega (arith, pow-suc 2 n)) (omega (arith, pow-suc 2 n)),
)

pub bit_xor-injective_left :
    (n a b c : ℕ) → a < 2 ^ n → b < 2 ^ n → bit_xor a c ≡ bit_xor b c → a ≡ b
bit_xor-injective_left zero a b c ha hb e = omega arith
bit_xor-injective_left (suc n) a b c ha hb e = omega (
  arith,
  bit_xor_step a c,
  bit_xor_step b c,
  bit_xor-injective_left n (a / 2) (b / 2) (c / 2) (omega (arith, pow-suc 2 n))
      (omega (arith, pow-suc 2 n)) (omega (arith, bit_xor_step a c, bit_xor_step b c)),
)

pub bit_xor-injective_right :
    (n c a b : ℕ) → a < 2 ^ n → b < 2 ^ n → bit_xor c a ≡ bit_xor c b → a ≡ b
bit_xor-injective_right zero c a b ha hb e = omega arith
bit_xor-injective_right (suc n) c a b ha hb e = omega (
  arith,
  bit_xor_step c a,
  bit_xor_step c b,
  bit_xor-injective_right n (c / 2) (a / 2) (b / 2) (omega (arith, pow-suc 2 n))
      (omega (arith, pow-suc 2 n)) (omega (arith, bit_xor_step c a, bit_xor_step c b)),
)

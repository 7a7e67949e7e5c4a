-- ===== src/Prelude/Bits.antt =====
-- Numbers as strings of binary digits: what `&`, `|`, `^`, shifts and masks do to each digit, at
-- variables of any size.
mod Step
pub mod Xor
use native.Mathlib.Nat.{
  pow-suc, pow-succ', one-le-pow, div-div-eq-div-mul, div-add-mod, mod-lt, mod-eq_of_lt,
  add-mul-mod_self_left, div-eq_of_lt, mul-add-div_right,
}
use Prim.Native.Nat.{
  ℕ, zero, suc, ◌+◌, ◌-◌, ◌*◌, ◌/◌, ◌%◌, ◌^◌, ◌≤◌, ◌<◌, min, max, bit_and, bit_or,
}
use mathlib.Core.Path.{◌≡◌, refl, sym, ap, ap₂, ◌∙◌}
use native.Mathlib.Omega.{arith}
use htools.Prelude.Tests.{ltb, if◌then◌else◌}
use Step.{bit_or_step, bit_and_step, bit_and_zero_left, bit_and_zero_right, bit_or_zero_right}

-- Digit `k` of `x`.
abbrev pub bit : ℕ → ℕ → ℕ
bit x zero = x % 2
bit x (suc k) = bit (x / 2) k

pub bit-lt : (x k : ℕ) → bit x k < 2
bit-lt x zero = omega arith
bit-lt x (suc k) = bit-lt (x / 2) k

pub bit-zero : (k : ℕ) → bit 0 k ≡ 0
bit-zero zero = refl
bit-zero (suc k) = bit-zero k

pub bit-bit_or : (k a b : ℕ) → bit (bit_or a b) k ≡ max (bit a k) (bit b k)
bit-bit_or zero a b = omega (arith, bit_or_step a b)
bit-bit_or (suc k) a b =
    let e : bit_or a b / 2 ≡ bit_or (a / 2) (b / 2) = omega (arith, bit_or_step a b) in
    ap (λ (x : ℕ). bit x k) e ∙ bit-bit_or k (a / 2) (b / 2)

pub bit-bit_and : (k a b : ℕ) → bit (bit_and a b) k ≡ min (bit a k) (bit b k)
bit-bit_and zero a b = omega (arith, bit_and_step a b)
bit-bit_and (suc k) a b =
    let e : bit_and a b / 2 ≡ bit_and (a / 2) (b / 2) = omega (arith, bit_and_step a b) in
    ap (λ (x : ℕ). bit x k) e ∙ bit-bit_and k (a / 2) (b / 2)

halve_shift : (x s : ℕ) → x * 2 ^ suc s / 2 ≡ x * 2 ^ s
halve_shift x s = omega (arith, ap (λ (t : ℕ). x * t) (pow-suc 2 s))

-- `x << s`
pub bit-shift_left : (s k x : ℕ) → bit (x * 2 ^ s) k ≡ (if ltb k s then 0 else bit x (k - s))
bit-shift_left zero k x =
    let e : x * 2 ^ 0 ≡ x = omega arith in
    let e' : k - 0 ≡ k = omega arith in ground (arith, ap (λ (y : ℕ). bit y k) e, ap (bit x) e')
bit-shift_left (suc s) zero x = ground (arith, ap (λ (t : ℕ). x * t) (pow-suc 2 s))
bit-shift_left (suc s) (suc k) x =
    let e : suc k - suc s ≡ k - s = omega arith in
    ground (arith, ap (λ (y : ℕ). bit y k) (halve_shift x s), bit-shift_left s k x, ap (bit x) e)

-- `x >> s`
pub bit-shift_right : (s k x : ℕ) → bit (x / 2 ^ s) k ≡ bit x (k + s)
bit-shift_right zero k x =
    let e : x / 2 ^ 0 ≡ x = omega arith in
    let e' : k ≡ k + 0 = omega arith in ap (λ (y : ℕ). bit y k) e ∙ ap (bit x) e'
bit-shift_right (suc s) k x =
    let e : suc (k + s) ≡ k + suc s = omega arith in
    ap (λ (y : ℕ). bit (x / y) k) (pow-succ' 2 s)
    ∙ ap (λ (y : ℕ). bit y k) (sym (div-div-eq-div-mul x 2 (2 ^ s)))
    ∙ bit-shift_right s k (x / 2)
    ∙ ap (bit x) e

mod-split : (x n : ℕ) → x % 2 ^ suc n ≡ 2 * (x / 2 % 2 ^ n) + x % 2
mod-split x n =
    let p = 2 ^ n in
    let low = 2 * (x / 2 % p) + x % 2 in
    let pos : 0 < p = one-le-pow n 2 (omega arith) in
    let parts : p * (x / 2 / p) + x / 2 % p ≡ x / 2 = div-add-mod (x / 2) p in
    let small : low < p * 2 = omega (arith, mod-lt (x / 2) pos) in
    let whole : x ≡ low + p * 2 * (x / 2 / p) = omega (arith, parts) in
    ap (λ (m : ℕ). x % m) (pow-suc 2 n)
    ∙ ap (λ (y : ℕ). y % (p * 2)) whole
    ∙ add-mul-mod_self_left low (p * 2) (x / 2 / p)
    ∙ mod-eq_of_lt small

-- `x & ((1 << n) - 1)`, or a cast
pub bit-mod : (n k x : ℕ) → bit (x % 2 ^ n) k ≡ (if ltb k n then bit x k else 0)
bit-mod zero k x =
    let e : x % 2 ^ 0 ≡ 0 = omega arith in ground (arith, ap (λ (y : ℕ). bit y k) e, bit-zero k)
bit-mod (suc n) zero x = ground (arith, mod-split x n)
bit-mod (suc n) (suc k) x =
    let e : x % 2 ^ suc n / 2 ≡ x / 2 % 2 ^ n = omega (arith, mod-split x n) in
    ground (arith, ap (λ (y : ℕ). bit y k) e, bit-mod n k (x / 2))

pub bit_of_lt : (n k x : ℕ) → x < 2 ^ n → n ≤ k → bit x k ≡ 0
bit_of_lt n k x h le =
    ap (λ (y : ℕ). bit y k) (sym (mod-eq_of_lt h)) ∙ ground (arith, bit-mod n k x)

-- Numbers of `n` digits that agree in each are equal.
pub bit_ext : (n x y : ℕ) → x < 2 ^ n → y < 2 ^ n → ((k : ℕ) → k < n → bit x k ≡ bit y k) → x ≡ y
bit_ext zero x y hx hy h = omega arith
bit_ext (suc n) x y hx hy h = omega (
  arith,
  h 0 (omega arith),
  bit_ext n (x / 2) (y / 2) (omega (arith, pow-suc 2 n)) (omega (arith, pow-suc 2 n))
      (λ k lt. h (suc k) (omega arith)),
)

-- A mask of ones is a remainder.
pub bit_and-mask : (n x : ℕ) → bit_and (2 ^ n - 1) x ≡ x % 2 ^ n
bit_and-mask zero x = omega (arith, bit_and_zero_left x)
bit_and-mask (suc n) x =
    let half : (2 ^ suc n - 1) / 2 ≡ 2 ^ n - 1 =
      omega (arith, pow-suc 2 n, one-le-pow n 2 (omega arith)) in
    let odd : (2 ^ suc n - 1) % 2 ≡ 1 = omega (arith, pow-suc 2 n, one-le-pow n 2 (omega arith)) in
    bit_and_step (2 ^ suc n - 1) x
    ∙ ap (λ (y : ℕ). bit_and y (x / 2) * 2 + min ((2 ^ suc n - 1) % 2) (x % 2)) half
    ∙ omega (arith, mod-split x n, bit_and-mask n (x / 2))

-- Results of `|` fit where both operands do.
pub bit_or-lt : (n a b : ℕ) → a < 2 ^ n → b < 2 ^ n → bit_or a b < 2 ^ n
bit_or-lt zero a b ha hb =
    let a0 : a ≡ 0 = omega arith in
    let b0 : b ≡ 0 = omega arith in let e : bit_or a b ≡ 0 = ap₂ bit_or a0 b0 in omega arith
bit_or-lt (suc n) a b ha hb = omega (
  arith,
  bit_or_step a b,
  pow-suc 2 n,
  bit_or-lt n (a / 2) (b / 2) (omega (arith, pow-suc 2 n)) (omega (arith, pow-suc 2 n)),
)

pub bit_and-mask_right : (n x : ℕ) → bit_and x (2 ^ n - 1) ≡ x % 2 ^ n
bit_and-mask_right zero x = bit_and_zero_right x ∙ omega arith
bit_and-mask_right (suc n) x =
    let half : (2 ^ suc n - 1) / 2 ≡ 2 ^ n - 1 =
      omega (arith, pow-suc 2 n, one-le-pow n 2 (omega arith)) in
    let odd : (2 ^ suc n - 1) % 2 ≡ 1 = omega (arith, pow-suc 2 n, one-le-pow n 2 (omega arith)) in
    bit_and_step x (2 ^ suc n - 1)
    ∙ ap (λ (y : ℕ). bit_and (x / 2) y * 2 + min (x % 2) ((2 ^ suc n - 1) % 2)) half
    ∙ omega (arith, mod-split x n, bit_and-mask_right n (x / 2))

-- Fields that do not overlap: `|` is a sum.
pub bit_or-sum : (k q r : ℕ) → r < 2 ^ k → bit_or (q * 2 ^ k) r ≡ q * 2 ^ k + r
bit_or-sum zero q r h =
    let r0 : r ≡ 0 = omega arith in
    let e : bit_or (q * 2 ^ 0) r ≡ bit_or (q * 2 ^ 0) 0 = ap (bit_or (q * 2 ^ 0)) r0 in
    e ∙ bit_or_zero_right (q * 2 ^ 0) ∙ omega arith
bit_or-sum (suc k) q r h =
    let half : q * 2 ^ suc k / 2 ≡ q * 2 ^ k = halve_shift q k in
    let even : q * 2 ^ suc k ≡ 2 * (q * 2 ^ k) =
      omega (arith, ap (λ (t : ℕ). q * t) (pow-suc 2 k)) in
    bit_or_step (q * 2 ^ suc k) r
    ∙ ap (λ (y : ℕ). bit_or y (r / 2) * 2 + max (q * 2 ^ suc k % 2) (r % 2)) half
    ∙ omega (arith, even, bit_or-sum k q (r / 2) (omega (arith, pow-suc 2 k)))

pub pow-add : (a b : ℕ) → 2 ^ (a + b) ≡ 2 ^ a * 2 ^ b
pow-add zero b = let e : 0 + b ≡ b = omega arith in ap (λ (n : ℕ). 2 ^ n) e ∙ omega arith
pow-add (suc a) b =
    let e : suc a + b ≡ suc (a + b) = omega arith in
    ap (λ (n : ℕ). 2 ^ n) e
    ∙ pow-suc 2 (a + b)
    ∙ omega (arith, pow-add a b, ap (λ (t : ℕ). t * 2 ^ b) (pow-suc 2 a))

-- A field beside a lower one of `p` values.
pub field_parts : (p q r : ℕ) → r < p → ((q * p + r) / p ≡ q) × ((q * p + r) % p ≡ r)
field_parts p q r h =
    let pos : 0 < p = omega arith in
    let low : r / p ≡ 0 = div-eq_of_lt h in
    let quotient : (q * p + r) / p ≡ q = mul-add-div_right pos q r ∙ omega arith in
    let swap : q * p + r ≡ r + p * q = omega arith in
    (quotient, ap (λ (x : ℕ). x % p) swap ∙ add-mul-mod_self_left r p q ∙ mod-eq_of_lt h)

-- `~x` on `n` bits
pub bit-complement :
    (n k x : ℕ) → x < 2 ^ n → bit (2 ^ n - 1 - x) k ≡ (if ltb k n then 1 - bit x k else 0)
bit-complement zero k x h =
    let e : 2 ^ 0 - 1 - x ≡ 0 = omega arith in ground (arith, ap (λ (y : ℕ). bit y k) e, bit-zero k)
bit-complement (suc n) zero x h = ground (arith, pow-suc 2 n)
bit-complement (suc n) (suc k) x h =
    let e : (2 ^ suc n - 1 - x) / 2 ≡ 2 ^ n - 1 - x / 2 = omega (arith, pow-suc 2 n) in
    ground
      (arith, ap (λ (y : ℕ). bit y k) e, bit-complement n k (x / 2) (omega (arith, pow-suc 2 n)))

one-bit : (k : ℕ) → bit 1 k ≡ (if ltb k 1 then 1 else 0)
one-bit zero = refl
one-bit (suc k) = bit-zero k ∙ ground arith

-- `1 << s`
pub bit-power : (s k : ℕ) → bit (2 ^ s) k ≡ (if ltb k s then 0 else if ltb s k then 0 else 1)
bit-power s k =
    let e : 2 ^ s ≡ 1 * 2 ^ s = omega arith in
    ap (λ (x : ℕ). bit x k) e ∙ bit-shift_left s k 1 ∙ ground (arith, one-bit (k - s))

-- A number none of whose digits is 1 is 0.
pub zero_of_digits : (n x : ℕ) → x < 2 ^ n → ((k : ℕ) → k < n → bit x k ≡ 0) → x ≡ 0
zero_of_digits n x h d =
    bit_ext n x 0 h (one-le-pow n 2 (omega arith)) (λ k lt. d k lt ∙ sym (bit-zero k))

pub bit_and-lt : (n a b : ℕ) → a < 2 ^ n → bit_and a b < 2 ^ n
bit_and-lt zero a b ha =
    let a0 : a ≡ 0 = omega arith in
    let e : bit_and a b ≡ 0 = ap (λ (x : ℕ). bit_and x b) a0 ∙ bit_and_zero_left b in omega arith
bit_and-lt (suc n) a b ha = omega (
  arith,
  bit_and_step a b,
  pow-suc 2 n,
  bit_and-lt n (a / 2) (b / 2) (omega (arith, pow-suc 2 n)),
)

-- ===== src/Utf8/Masks.antt =====
-- The masks of utf8.c on a byte as comparisons, each checked on all 256 bytes.
use htools.Prelude.{
  ℕ, zero, suc, ◌%◌, ◌<◌, bit_and, Bool, true, false, ltb, leb, ◌==◌, ◌&&◌, not, ◌≡◌, refl, arith,
}

same : Bool → Bool → Bool
same true b = b
same false b = not b

module _ (f g : ℕ → Bool) where
  agree_below : ℕ → Bool
  unfolding same
  agree_below zero = true
  agree_below (suc n) = same (f n) (g n) && agree_below n

  agree : (n : ℕ) → agree_below n ≡ true → (b : ℕ) → b < n → f b ≡ g b
  unfolding agree_below
  agree zero e b h = absurd (omega arith)
  agree (suc n) e b h = ground (arith, agree n (ground arith) b)

pub lead_two : (b : ℕ) → b < 256 → (bit_and 0xe0 b == 0xc0) ≡ (leb 0xc0 b && ltb b 0xe0)
unfolding agree_below
lead_two = agree _ _ 256 refl

pub lead_three : (b : ℕ) → b < 256 → (bit_and 0xf0 b == 0xe0) ≡ (leb 0xe0 b && ltb b 0xf0)
unfolding agree_below
lead_three = agree _ _ 256 refl

pub lead_four : (b : ℕ) → b < 256 → (bit_and 0xf8 b == 0xf0) ≡ (leb 0xf0 b && ltb b 0xf8)
unfolding agree_below
lead_four = agree _ _ 256 refl

pub continuation : (b : ℕ) → b < 256 → (bit_and 0xc0 b == 0x80) ≡ (leb 0x80 b && ltb b 0xc0)
unfolding agree_below
continuation = agree _ _ 256 refl

pub overlong_two : (b : ℕ) → b < 256 → (bit_and 0x1e b == 0) ≡ ltb (b % 32) 2
unfolding agree_below
overlong_two = agree _ _ 256 refl

pub bit_five : (b : ℕ) → b < 256 → (bit_and 0x20 b == 0) ≡ ltb (b % 64) 32
unfolding agree_below
bit_five = agree _ _ 256 refl

pub bits_four_five : (b : ℕ) → b < 256 → (bit_and 0x30 b == 0) ≡ ltb (b % 64) 16
unfolding agree_below
bits_four_five = agree _ _ 256 refl

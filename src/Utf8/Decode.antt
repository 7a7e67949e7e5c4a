-- ===== src/Utf8/Decode.antt =====
-- `get_code` against the definition of UTF-8.
use htools.Prelude.{
  ℕ, zero, suc, ◌+◌, ◌*◌, ◌/◌, ◌%◌, ◌^◌, ◌<◌, bit_and, bit_or, ltb, ◌≡◌, ap, ap₂, ◌∙◌, arith,
  if◌then◌else◌, ◌⊎◌, List, [], ◌∷◌, get_or,
}
use htools.Prelude.Bits.{bit_and-mask, bit_or-sum}

-- The encoding of a code point, up to the 21 bits that four bytes hold.
unfoldable pub encode : ℕ → List ℕ
encode c =
    if ltb c 0x80
    then c ∷ []
    else if ltb c 0x800
    then (0xc0 + c / 0x40) ∷ (0x80 + c % 0x40) ∷ []
    else if ltb c 0x10000
    then (0xe0 + c / 0x1000) ∷ (0x80 + c / 0x40 % 0x40) ∷ (0x80 + c % 0x40) ∷ []
    else (0xf0 + c / 0x40000)
      ∷ (0x80 + c / 0x1000 % 0x40)
      ∷ (0x80 + c / 0x40 % 0x40)
      ∷ (0x80 + c % 0x40)
      ∷ []

-- What `get_code` takes for a code point: no surrogate, and at most 21 bits.
pub record IsCode (c : ℕ) : Type 0 where
  pub small : c < 0x200000
  pub no_surrogate : (c < 0xd800) ⊎ (0xdfff < c)

abbrev pub IsBytes : List ℕ → Type 0
IsBytes [] = Unit
IsBytes (b ∷ s) = (b < 256) × IsBytes s

pub byte_at : (s : List ℕ) (i : ℕ) → IsBytes s → get_or s i 0 < 256
byte_at [] i h = omega arith
byte_at (b ∷ s) zero h = h.0
byte_at (b ∷ s) (suc i) h = byte_at s i h.1

-- `|` of disjoint fields, and of two parts that are both 0.
pub two-sum : (x y : ℕ) → bit_or (bit_and 0x1f x * 2 ^ 6) (bit_and 0x3f y) ≡ x % 32 * 64 + y % 64
two-sum x y =
    ap₂ (λ (a b : ℕ). bit_or (a * 2 ^ 6) b) (bit_and-mask 5 x) (bit_and-mask 6 y)
    ∙ bit_or-sum 6 (x % 32) (y % 64) (omega arith)

pub three-sum :
    (x y z : ℕ)
    → bit_or (bit_or (bit_and 0x0f x * 2 ^ 12) (bit_and 0x3f y * 2 ^ 6)) (bit_and 0x3f z)
      ≡ x % 16 * 4096 + y % 64 * 64 + z % 64
three-sum x y z =
    ap₂ bit_or
      (ap₂ (λ (a b : ℕ). bit_or (a * 2 ^ 12) (b * 2 ^ 6)) (bit_and-mask 4 x) (bit_and-mask 6 y)
        ∙ bit_or-sum 12 (x % 16) (y % 64 * 64) (omega arith)
        ∙ omega arith)
      (bit_and-mask 6 z)
    ∙ bit_or-sum 6 (x % 16 * 64 + y % 64) (z % 64) (omega arith)
    ∙ omega arith

pub four-sum :
    (x y z w : ℕ)
    → bit_or
        (bit_or
          (bit_or (bit_and 0x07 x * 2 ^ 18) (bit_and 0x3f y * 2 ^ 12))
          (bit_and 0x3f z * 2 ^ 6))
        (bit_and 0x3f w)
      ≡ x % 8 * 262144 + y % 64 * 4096 + z % 64 * 64 + w % 64
four-sum x y z w =
    ap₂ bit_or
      (ap₂ bit_or
          (ap₂ (λ (a b : ℕ). bit_or (a * 2 ^ 18) (b * 2 ^ 12)) (bit_and-mask 3 x) (bit_and-mask 6 y)
            ∙ bit_or-sum 18 (x % 8) (y % 64 * 4096) (omega arith)
            ∙ omega arith)
          (ap (λ (a : ℕ). a * 2 ^ 6) (bit_and-mask 6 z))
        ∙ bit_or-sum 12 (x % 8 * 64 + y % 64) (z % 64 * 64) (omega arith)
        ∙ omega arith)
      (bit_and-mask 6 w)
    ∙ bit_or-sum 6 (x % 8 * 4096 + y % 64 * 64 + z % 64) (w % 64) (omega arith)
    ∙ omega arith

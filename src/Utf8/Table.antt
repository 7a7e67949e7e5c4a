-- ===== src/Utf8/Table.antt =====
-- The branches of `get_code` in plain arithmetic on the four bytes.
use htools.Prelude.{
  ℕ, ◌+◌, ◌*◌, ◌%◌, ◌<◌, bit_and, bit_or, Option, none, some, Bool, ltb, leb, ◌==◌, ◌&&◌, ◌||◌, not,
  ◌≡◌, refl, ap, ap₂, ◌∙◌, arith, if◌then◌else◌, List, length, get_or,
}
use htools.Prelude.Bits.{bit, bit-zero, bit-bit_or, zero_of_digits, bit_and-mask, bit_and-lt}
use htools.Utf8.Ops.{Code, decode}
use htools.Utf8.Masks.{
  lead_two, lead_three, lead_four, continuation, overlong_two, bit_five, bits_four_five,
}
use htools.Utf8.Decode.{IsBytes, byte_at, two-sum, three-sum, four-sum}

left_zero : (x y : ℕ) → x < 256 → bit_or x y ≡ 0 → x ≡ 0
left_zero x y h e =
    zero_of_digits 8 x h
      (λ k lt. omega (arith, bit-bit_or k x y, ap (λ (z : ℕ). bit z k) e, bit-zero k))

right_zero : (x y : ℕ) → y < 256 → bit_or x y ≡ 0 → y ≡ 0
right_zero x y h e =
    zero_of_digits 8 y h
      (λ k lt. omega (arith, bit-bit_or k x y, ap (λ (z : ℕ). bit z k) e, bit-zero k))

or_zero : (x y : ℕ) → x < 256 → y < 256 → (bit_or x y == 0) ≡ (x == 0 && y == 0)
or_zero x y hx hy =
    let both : x ≡ 0 → y ≡ 0 → bit_or x y ≡ 0 = λ a b. ap₂ bit_or a b in
    ground (arith, left_zero x y hx, right_zero x y hy, both)

tail_byte : ℕ → Bool
tail_byte b = leb 0x80 b && ltb b 0xc0

-- The well-formed sequences, without a mask.
unfoldable pub table : ℕ → ℕ → ℕ → ℕ → ℕ → Option Code
unfolding tail_byte
table avail b0 b1 b2 b3 =
    if ltb b0 0x80
    then some (b0, 1)
    else if leb 0xc0 b0 && ltb b0 0xe0
    then (if ltb avail 2 || not (tail_byte b1) || ltb (b0 % 32) 2
        then none
        else some (b0 % 32 * 64 + b1 % 64, 2))
    else if leb 0xe0 b0 && ltb b0 0xf0
    then (if ltb avail 3
          || not (tail_byte b1)
          || not (tail_byte b2)
          || (b0 % 16 == 0 && ltb (b1 % 64) 32)
        then none
        else (let code = b0 % 16 * 4096 + b1 % 64 * 64 + b2 % 64 in
            if leb 0xd800 code && leb code 0xdfff then none else some (code, 3)))
    else if leb 0xf0 b0 && ltb b0 0xf8
    then (if ltb avail 4
          || not (tail_byte b1)
          || not (tail_byte b2)
          || not (tail_byte b3)
          || (b0 % 8 == 0 && ltb (b1 % 64) 16)
        then none
        else some (b0 % 8 * 262144 + b1 % 64 * 4096 + b2 % 64 * 64 + b3 % 64, 4))
    else none

pub decode-table :
    (p : List ℕ)
    → IsBytes p
    → decode p ≡ table (length p) (get_or p 0 0) (get_or p 1 0) (get_or p 2 0) (get_or p 3 0)
unfolding decode table tail_byte
decode-table p h =
    let b0 = get_or p 0 0 in
    let b1 = get_or p 1 0 in
    let h0 = byte_at p 0 h in
    let h1 = byte_at p 1 h in
    let h2 = byte_at p 2 h in
    let h3 = byte_at p 3 h in
    let three : (bit_or (bit_and 0x0f b0) (bit_and 0x20 b1) == 0)
        ≡ (b0 % 16 == 0 && ltb (b1 % 64) 32) =
      or_zero _ _ (omega (arith, bit_and-mask 4 b0)) (bit_and-lt 8 0x20 b1 (omega arith))
      ∙ ap₂ (λ (x y : Bool). x && y) (ap (λ (x : ℕ). x == 0) (bit_and-mask 4 b0))
          (bit_five b1 h1) in
    let four : (bit_or (bit_and 0x07 b0) (bit_and 0x30 b1) == 0)
        ≡ (b0 % 8 == 0 && ltb (b1 % 64) 16) =
      or_zero _ _ (omega (arith, bit_and-mask 3 b0)) (bit_and-lt 8 0x30 b1 (omega arith))
      ∙ ap₂ (λ (x y : Bool). x && y) (ap (λ (x : ℕ). x == 0) (bit_and-mask 3 b0))
          (bits_four_five b1 h1) in
    rw
      (
        lead_two b0 h0,
        lead_three b0 h0,
        lead_four b0 h0,
        continuation b1 h1,
        continuation (get_or p 2 0) h2,
        continuation (get_or p 3 0) h3,
        overlong_two b0 h0,
        three,
        four,
        two-sum b0 b1,
        three-sum b0 b1 (get_or p 2 0),
        four-sum b0 b1 (get_or p 2 0) (get_or p 3 0),
      )
      refl

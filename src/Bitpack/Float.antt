-- ===== src/Bitpack/Float.antt =====
-- `bitpack_float` and `bitunpack_float` on the 32 bits of an IEEE 754 float.
use htools.Prelude.{
  ℕ, suc, ◌+◌, ◌-◌, ◌*◌, ◌/◌, ◌%◌, ◌^◌, ◌≤◌, ◌<◌, some, true, ◌≡◌, refl, sym, ap, ap₂, ◌∙◌, arith,
  Returns, Returns-value, Returns-map, u32, bit_or, bit_and,
}
use native.Mathlib.Nat.{
  mod-eq_of_lt, add-mul-mod_self_left, one-le-pow, pow-succ', pow-le-pow_right, div-lt_iff_lt-mul,
  div-div-eq-div-mul, div-add-mod',
}
use htools.Prelude.Bits.{bit_or-sum, bit_and-mask, bit_and-mask_right, pow-add, field_parts, bit}
use htools.Bitpack.Ops.{
  BitPacker, float_field, float_of_field, pack_float, unpack_float, pack_uint32, unpack_uint32,
  check_float,
}
use htools.Bitpack.Pack.{IsClean, Packs, Fits, pack_uint32-Packs}
use htools.Bitpack.Unpack.{Unpacks, unpack_uint32-Unpacks}
use htools.Bitpack.RoundTrip.{at_bit, digits-mod}

abbrev pub exponent_of : ℕ → ℕ
exponent_of w = w / 2 ^ 23 % 2 ^ 8

-- The widths that both functions accept, and an exponent that the narrow field can hold.
pub record IsNarrow (w exponent_bits mantissa_bits : ℕ) : Type 0 where
  pub bits32 : w < 2 ^ 32
  pub exponent_min : 2 ≤ exponent_bits
  pub exponent_max : exponent_bits ≤ 8
  pub mantissa_min : 1 ≤ mantissa_bits
  pub mantissa_max : mantissa_bits ≤ 23
  pub above : 128 ≤ exponent_of w + 2 ^ (exponent_bits - 1)
  pub under : exponent_of w < 128 + 2 ^ (exponent_bits - 1)

-- A digit `x` below `a` beside a digit `r` below `p`.
pair-lt : (x a p r : ℕ) → x < a → r < p → x * p + r < a * p
pair-lt x a p r h k = grind arith

module _ (w e m : ℕ) (n : IsNarrow w e m) where
  abbrev narrow : ℕ
  narrow = exponent_of w + 2 ^ (e - 1) - 128

  twice : 2 ^ e ≡ 2 * 2 ^ (e - 1)
  twice = let s : e ≡ suc (e - 1) = omega arith in ap (λ (k : ℕ). 2 ^ k) s ∙ pow-succ' 2 (e - 1)

  exponent_fits : narrow < 2 ^ e
  exponent_fits = omega (arith, twice)

  half_small : 2 ^ (e - 1) ≤ 128
  half_small = pow-le-pow_right {n = 2} (omega arith) {i = e - 1} {j = 7} (omega arith)

  mantissa_whole : 2 ^ m * 2 ^ (23 - m) ≡ 2 ^ 23
  mantissa_whole =
      let s : m + (23 - m) ≡ 23 = omega arith in sym (pow-add m (23 - m)) ∙ ap (λ (k : ℕ). 2 ^ k) s

  abbrev mantissa : ℕ
  mantissa = w % 2 ^ 23 / 2 ^ (23 - m)

  mantissa_fits : mantissa < 2 ^ m
  mantissa_fits =
      (div-lt_iff_lt-mul {k = 2 ^ (23 - m)} {x = w % 2 ^ 23} {y = 2 ^ m}
          (one-le-pow (23 - m) 2 (omega arith))).1
        (omega (arith, mantissa_whole))

  -- The field is the sign, the exponent and the upper digits of the mantissa, side by side.
  abbrev packed : ℕ
  packed = (w / 2 ^ 31 * 2 ^ e + narrow) * 2 ^ m + mantissa

  sign_exponent-lt : w / 2 ^ 31 * 2 ^ e + narrow < 2 * 2 ^ e
  sign_exponent-lt = pair-lt (w / 2 ^ 31) 2 (2 ^ e) narrow (omega arith) exponent_fits

  packed-lt : packed < 2 ^ (1 + e + m)
  packed-lt = omega (
    arith,
    pair-lt (w / 2 ^ 31 * 2 ^ e + narrow) (2 * 2 ^ e) (2 ^ m) mantissa sign_exponent-lt
        mantissa_fits,
    pow-add (1 + e) m,
    ap (λ (t : ℕ). t * 2 ^ m) (pow-add 1 e),
  )

  width : 2 ^ (1 + e + m) ≤ 2 ^ 32
  width = pow-le-pow_right {n = 2} (omega arith) {i = 1 + e + m} {j = 32} (omega arith)

  float_field-eq : float_field w e m ≡ packed
  unfolding float_field
  float_field-eq =
      let s = w / 2 ^ 31 in
      let shifted : s * 2 ^ (e + m) ≡ s * 2 ^ e * 2 ^ m =
        ap (λ (t : ℕ). s * t) (pow-add e m) ∙ omega arith in
      let low : bit_and 0xff (w / 2 ^ 23) ≡ exponent_of w = bit_and-mask 8 (w / 2 ^ 23) in
      let exponent : u32 (bit_and 0xff (w / 2 ^ 23) + 2 ^ 32 - 128 + 2 ^ (e - 1)) ≡ narrow =
        omega (arith, low, half_small) in
      let widest : 2 ^ (e + m) ≤ 2 ^ 32 =
        pow-le-pow_right {n = 2} (omega arith) {i = e + m} {j = 32} (omega arith) in
      let sign_small : s * 2 ^ (e + m) < 2 ^ 32 = omega (arith, shifted, packed-lt, width) in
      let exponent_small : narrow * 2 ^ m < 2 ^ (e + m) = omega (
        arith,
        pair-lt narrow (2 ^ e) (2 ^ m) 0 exponent_fits (one-le-pow m 2 (omega arith)),
        pow-add e m,
      ) in
      let left : u32 (s * 2 ^ (e + m)) ≡ s * 2 ^ (e + m) = omega (arith, sign_small) in
      let middle : u32 (u32 (bit_and 0xff (w / 2 ^ 23) + 2 ^ 32 - 128 + 2 ^ (e - 1)) * 2 ^ m)
          ≡ narrow * 2 ^ m =
        ap (λ (x : ℕ). u32 (x * 2 ^ m)) exponent
        ∙ mod-eq_of_lt (omega (arith, exponent_small, widest)) in
      let right : bit_and 0x7fffff w / 2 ^ (23 - m) ≡ mantissa =
        ap (λ (x : ℕ). x / 2 ^ (23 - m)) (bit_and-mask 23 w) in
      ap₂ bit_or
        (ap₂ bit_or left middle
          ∙ bit_or-sum (e + m) s (narrow * 2 ^ m) exponent_small
          ∙ omega (arith, shifted))
        right
      ∙ bit_or-sum m (s * 2 ^ e + narrow) mantissa mantissa_fits

  -- What the wide float has of the narrow one: the lower digits of the mantissa are cleared.
  abbrev pub cut : ℕ
  cut = w - w % 2 ^ (23 - m)

  float_of_field-eq : float_of_field packed e m ≡ cut
  unfolding float_of_field
  float_of_field-eq =
      let s = w / 2 ^ 31 in
      let outer = field_parts (2 ^ m) (s * 2 ^ e + narrow) mantissa mantissa_fits in
      let inner = field_parts (2 ^ e) s narrow exponent_fits in
      let swap : 2 ^ (e + m) ≡ 2 ^ m * 2 ^ e = pow-add e m ∙ omega arith in
      let sign : packed / 2 ^ (e + m) ≡ s =
        ap (λ (x : ℕ). packed / x) swap
        ∙ sym (div-div-eq-div-mul packed (2 ^ m) (2 ^ e))
        ∙ ap (λ (x : ℕ). x / 2 ^ e) outer.0
        ∙ inner.0 in
      let exponent_digits : bit_and (packed / 2 ^ m) (2 ^ e - 1) ≡ narrow =
        bit_and-mask_right e (packed / 2 ^ m) ∙ ap (λ (x : ℕ). x % 2 ^ e) outer.0 ∙ inner.1 in
      let exponent : u32 (bit_and (packed / 2 ^ m) (2 ^ e - 1) + 2 ^ 32 - 2 ^ (e - 1) + 128)
          ≡ exponent_of w =
        omega (arith, exponent_digits, half_small) in
      let mantissa_digits : bit_and packed (2 ^ m - 1) ≡ mantissa =
        bit_and-mask_right m packed ∙ outer.1 in
      let r = 2 ^ (23 - m) in
      let split : mantissa * r + w % 2 ^ 23 % r ≡ w % 2 ^ 23 = div-add-mod' (w % 2 ^ 23) r in
      let low : w % 2 ^ 23 % r ≡ w % r = sym (
        ap (λ (x : ℕ). x % r)
          (let whole : w ≡ w % 2 ^ 23 + r * (2 ^ m * (w / 2 ^ 23)) =
              omega (arith, ap (λ (t : ℕ). t * (w / 2 ^ 23)) mantissa_whole) in
            whole)
        ∙ add-mul-mod_self_left (w % 2 ^ 23) r (2 ^ m * (w / 2 ^ 23))) in
      let small : mantissa * r < 2 ^ 23 = omega (arith, split) in
      let a : u32 (packed / 2 ^ (e + m) * 2 ^ 31) ≡ s * 2 ^ 31 = omega (arith, sign) in
      let b : u32 (u32 (bit_and (packed / 2 ^ m) (2 ^ e - 1) + 2 ^ 32 - 2 ^ (e - 1) + 128) * 2 ^ 23)
          ≡ exponent_of w * 2 ^ 23 =
        omega (arith, exponent) in
      let c : u32 (bit_and packed (2 ^ m - 1) * r) ≡ mantissa * r =
        ap (λ (x : ℕ). u32 (x * r)) mantissa_digits ∙ omega (arith, small) in
      ap₂ bit_or
        (ap₂ bit_or a b ∙ bit_or-sum 31 s (exponent_of w * 2 ^ 23) (omega arith) ∙ omega arith) c
      ∙ bit_or-sum 23 (s * 2 ^ 8 + exponent_of w) (mantissa * r) small
      ∙ omega (arith, split, low)

-- A float whose exponent the narrow field can hold, packed with 2 to 8 exponent bits and 1 to 23
-- mantissa bits into a buffer with room for it, is unpacked with the same sign and exponent, and
-- with the mantissa digits that did not fit cleared.
pub pack_float-unpack_float :
    (p : BitPacker) (w e m : ℕ)
    → IsNarrow w e m
    → Fits (1 + e + m) p
    → IsClean p
    → Returns (pack_float p w e m) (λ r.
      (r.1 ≡ true)
      × Returns
          (unpack_float (at_bit r.0 p.bit_i) e m)
          (λ u. (u.1 ≡ w - w % 2 ^ (23 - m)) × (u.2 ≡ true) × (u.0.bit_i ≡ p.bit_i + (1 + e + m))))
unfolding pack_float unpack_float
pack_float-unpack_float p w e m n f c =
    let pass : check_float e m ≡ some tt = ground arith in
    rw (pass, float_field-eq w e m n)
      (Returns-map (λ r. Packs (1 + e + m) (packed w e m n) p r.0 × (r.1 ≡ true)) _
        (pack_uint32 p (packed w e m n) (1 + e + m))
        (pack_uint32-Packs p (packed w e m n) (1 + e + m) (omega arith) (omega arith) f c)
        (λ r x.
          let q = at_bit r.0 p.bit_i in
          let fits : Fits (1 + e + m) q = record {
            inside = omega (arith, x.0.size);
            small = omega (arith, x.0.size);
          } in
          let ((u, v, t), g, (y, z)) =
            Returns-value (λ z. Unpacks (1 + e + m) 0 0 q (z.0, z.1) × (z.2 ≡ true))
              (unpack_uint32 q (1 + e + m))
              (unpack_uint32-Unpacks q (1 + e + m) (omega arith) (omega arith) fits) in
          let value : v ≡ packed w e m n =
            digits-mod (1 + e + m) (packed w e m n) v (omega arith) y.small
              (λ k lt. ap (bit v) (zero-add k) ∙ y.field k lt ∙ x.0.field k lt)
              (λ k le. y.clear k (omega arith))
            ∙ mod-eq_of_lt (packed-lt w e m n) in
          (
            x.1,
            rw (g, z)
                (
                  ap (λ (a : ℕ). float_of_field a e m) value ∙ float_of_field-eq w e m n,
                  refl,
                  y.bit_i,
                ),
          )))
  where
    zero-add : (k : ℕ) → k ≡ 0 + k
    zero-add k = omega arith

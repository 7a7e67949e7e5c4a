-- ===== src/Bitpack/Tests.antt =====
-- Runs of bitpack.c on a small buffer, and the theorems at it.
use htools.Prelude.{
  ℕ, zero, suc, ◌+◌, ◌*◌, ◌%◌, ◌≡◌, refl, arith, some, List, [], ◌∷◌, Returns, true,
}
use mathlib.Core.Option
use htools.Prelude.{◌≢◌, ◌≤◌}
use htools.Prelude.Bits.{bit, bit-zero}
use htools.Bitpack.Ops.{
  BitPacker, pack_uint32, unpack_uint32, pack_string, unpack_string, pack_float, unpack_float,
}
use htools.Bitpack.Pack.{IsClean, Packs, pack_uint32-Packs}
use htools.Bitpack.Unpack.{Unpacks, unpack_uint32-Unpacks}
use htools.Bitpack.RoundTrip.{at_bit, Field, pack_fields, unpack_fields, pack_fields-unpack_fields}
use htools.Bitpack.Strings.{pack_string-unpack_string}
use htools.Bitpack.Float.{pack_float-unpack_float}

-- Twelve dirty bytes.
abbrev fresh : BitPacker
fresh = record { size = 12; buf = λ i. 0xff; bit_i = 0 }

-- Three digits are in: 1, 0, 1.
abbrev begun : BitPacker
begun = record { size = 12; buf = λ i. 5; bit_i = 3 }

abbrev fields : List Field
fields = (0xabcd, 11) ∷ (1, 1) ∷ (0x1234_5678, 32) ∷ []

fresh-IsClean : IsClean fresh
fresh-IsClean = record { clear = λ j ne le. absurd (ne refl) }

begun-IsClean : IsClean begun
begun-IsClean = record { clear = clear }
  where
    clear : (j : ℕ) → 3 % 8 ≢ 0 → 3 ≤ j → bit 5 j ≡ 0
    clear zero ne le = absurd (omega arith)
    clear (suc zero) ne le = absurd (omega arith)
    clear (suc (suc zero)) ne le = absurd (omega arith)
    clear (suc (suc (suc j))) ne le = bit-zero j

fields_come_back :
    Option.map (λ q. unpack_fields (at_bit q 0) (11 ∷ 1 ∷ 32 ∷ [])) (pack_fields fresh fields)
    ≡ some (some (0x3cd ∷ 1 ∷ 0x1234_5678 ∷ []))
unfolding pack_fields unpack_fields pack_uint32 unpack_uint32
fields_come_back = refl

string_comes_back :
    Option.map
      (λ r. Option.map (λ u. u.1) (unpack_string (at_bit r.0 3)))
      (pack_string begun (b'h' ∷ b'i' ∷ []))
    ≡ some (some (b'h' ∷ b'i' ∷ []))
unfolding pack_string unpack_string
string_comes_back = refl

pack_uint32-Packs_example :
    Returns (pack_uint32 begun 0x1ff 9) (λ r. Packs 9 0x1ff begun r.0 × (r.1 ≡ true))
pack_uint32-Packs_example =
    pack_uint32-Packs begun 0x1ff 9 (omega arith) (omega arith) (omega arith) begun-IsClean

unpack_uint32-Unpacks_example :
    Returns (unpack_uint32 begun 20) (λ r. Unpacks 20 0 0 begun (r.0, r.1) × (r.2 ≡ true))
unpack_uint32-Unpacks_example =
    unpack_uint32-Unpacks begun 20 (omega arith) (omega arith) (omega arith)

pack_fields-unpack_fields_example :
    Returns
      (pack_fields fresh fields)
      (λ q. unpack_fields (at_bit q 0) (11 ∷ 1 ∷ 32 ∷ []) ≡ some (0x3cd ∷ 1 ∷ 0x1234_5678 ∷ []))
pack_fields-unpack_fields_example =
    pack_fields-unpack_fields fresh fields (omega arith) (omega arith) fresh-IsClean

pack_string-unpack_string_example : Returns (pack_string begun (b'h' ∷ b'i' ∷ [])) (λ r.
    (r.1 ≡ true)
    × Returns
        (unpack_string (at_bit r.0 3))
        (λ u. (u.1 ≡ b'h' ∷ b'i' ∷ []) × (u.2 ≡ true) × (u.0.bit_i ≡ 3 + 8 * (2 + 1))))
pack_string-unpack_string_example =
    pack_string-unpack_string begun (b'h' ∷ b'i' ∷ []) (omega arith) (omega arith) begun-IsClean

-- 1.5 with 5 exponent bits and 2 mantissa bits.
pack_float-unpack_float_example : Returns (pack_float begun 0x3fc0_0000 5 2) (λ r.
    (r.1 ≡ true)
    × Returns
        (unpack_float (at_bit r.0 3) 5 2)
        (λ u. (u.1 ≡ 0x3fc0_0000) × (u.2 ≡ true) × (u.0.bit_i ≡ 3 + (1 + 5 + 2))))
pack_float-unpack_float_example =
    pack_float-unpack_float begun 0x3fc0_0000 5 2 (omega arith) (omega arith) begun-IsClean

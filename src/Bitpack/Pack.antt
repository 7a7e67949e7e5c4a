-- ===== src/Bitpack/Pack.antt =====
-- `bitpack_uint32` writes each digit of the field to its place, and no other digit.
use htools.Prelude.{
  ℕ, zero, suc, ◌+◌, ◌-◌, ◌*◌, ◌/◌, ◌%◌, ◌^◌, ◌≤◌, ◌<◌, bit_and, bit_or, min, none, some, true, ltb,
  ◌==◌, if◌then◌else◌, Bool-cases, inl, inr, ◌≡◌, ◌≢◌, refl, ap, ◌∙◌, arith, Returns, Returns-bind,
  Returns-map, ltb→lt, ◌⊎◌, u8, u32, add_size,
}
use mathlib.Core.Path.{subst}
use htools.Prelude.Bits.{
  bit, bit-zero, bit-bit_or, bit-shift_left, bit-shift_right, bit-mod, bit_and-mask,
}
use htools.Bitpack.Ops.{
  BitPacker, write_byte, shift_of, ofs_of, pack_round, pack_loop, pack_uint32, check_field,
}

-- Digit `k` of the buffer.
abbrev pub stream : BitPacker → ℕ → ℕ
stream p k = bit (p.buf (k / 8)) (k % 8)

-- Digits of the current byte from `bit_i` on are clear; a whole new byte is cleared by the code.
pub record IsClean (p : BitPacker) : Type 0 where
  pub clear : (j : ℕ) → p.bit_i % 8 ≢ 0 → p.bit_i % 8 ≤ j → bit (p.buf (p.bit_i / 8)) j ≡ 0

-- Everything that packing `bits` digits of `v` changes, and what it does not.
pub record Packs (bits v : ℕ) (p p' : BitPacker) : Type 0 where
  pub bit_i : p'.bit_i ≡ p.bit_i + bits
  pub size : p'.size ≡ p.size
  pub field : (k : ℕ) → k < bits → stream p' (p.bit_i + k) ≡ bit v k
  pub before : (k : ℕ) → k < p.bit_i → stream p' k ≡ stream p k
  pub beyond : (i : ℕ) → p.bit_i + bits ≤ 8 * i → p'.buf i ≡ p.buf i
  pub clean : IsClean p'

pub shift-eq : (p : BitPacker) → shift_of p ≡ p.bit_i % 8
shift-eq p = bit_and-mask 3 p.bit_i

-- The digits of the byte that a round writes: those below `s` stay, `a` are those of `v`.
byte-digits :
    (old v s a j : ℕ)
    → s + a ≤ 8
    → ((i : ℕ) → s ≤ i → bit old i ≡ 0)
    → bit (u8 (bit_or old (u32 (bit_and (2 ^ a - 1) v * 2 ^ s)))) j
      ≡ (if ltb j s then bit old j else if ltb j (s + a) then bit v (j - s) else 0)
byte-digits old v s a j fits clear =
    rw
      (
        bit_and-mask a v,
        bit-mod 8 j (bit_or old (u32 (v % 2 ^ a * 2 ^ s))),
        bit-bit_or j old (u32 (v % 2 ^ a * 2 ^ s)),
        bit-mod 32 j (v % 2 ^ a * 2 ^ s),
        bit-shift_left s j (v % 2 ^ a),
        bit-mod a (j - s) v,
      )
      (ground (arith, clear j))

-- `bit_i` points into the buffer, whose size an `unsigned` can count.
pub record Fits (bits : ℕ) (p : BitPacker) : Type 0 where
  pub inside : p.bit_i + bits ≤ 8 * p.size
  pub small : p.size < 2 ^ 32

-- The digit `k` of the stream after a byte has been written.
stream-write :
    (p : BitPacker) (ofs b bit_i k : ℕ)
    → stream (record p { buf = write_byte p.buf ofs b; bit_i = bit_i }) k
      ≡ (if k / 8 == ofs then bit b (k % 8) else stream p k)
stream-write p ofs b bit_i k = ground arith

-- The byte that a round writes, in terms of the one that it finds.
round_byte : BitPacker → ℕ → ℕ → ℕ
round_byte p v bits =
    let s = p.bit_i % 8 in
    let a = min (8 - s) bits in
    u8 (bit_or (if s == 0 then 0 else p.buf (p.bit_i / 8)) (u32 (bit_and (2 ^ a - 1) v * 2 ^ s)))

round_byte-digits :
    (p : BitPacker) (v bits j : ℕ)
    → IsClean p
    → let s = p.bit_i % 8 in
      let a = min (8 - s) bits in
      bit (round_byte p v bits) j ≡ (
        if ltb j s then bit (p.buf (p.bit_i / 8)) j else if ltb j (s + a) then bit v (j - s) else 0)
unfolding round_byte
round_byte-digits p v bits j c = elim (Bool-cases (p.bit_i % 8 == 0)) [
  | inl aligned ↦
      let s0 : p.bit_i % 8 ≡ 0 = ground arith in
      rw aligned (
        byte-digits 0 v (p.bit_i % 8) (min (8 - p.bit_i % 8) bits) j (omega arith)
          (λ i h. bit-zero i)
        ∙ ground arith)
  | inr inside ↦ rw inside (
      byte-digits (p.buf (p.bit_i / 8)) v (p.bit_i % 8) (min (8 - p.bit_i % 8) bits) j (omega arith)
        (λ i h. c.clear i (ground arith) h))
]

pack_round-eq :
    (p : BitPacker) (v bits : ℕ)
    → Fits bits p
    → pack_round p v bits ≡ record p {
      buf = write_byte p.buf (p.bit_i / 8) (round_byte p v bits);
      bit_i = p.bit_i + min (8 - p.bit_i % 8) bits;
    }
unfolding pack_round round_byte
pack_round-eq p v bits f =
    let ofs : ofs_of p ≡ p.bit_i / 8 = omega arith in
    let next : add_size p.bit_i (min (8 - p.bit_i % 8) bits)
        ≡ p.bit_i + min (8 - p.bit_i % 8) bits =
      omega arith in
    rw (shift-eq p, ofs, next)

pack_round-Packs :
    (p : BitPacker) (v bits : ℕ)
    → 0 < bits
    → Fits bits p
    → IsClean p
    → Packs (min (8 - p.bit_i % 8) bits) v p (pack_round p v bits)
pack_round-Packs p v bits pos f c = rw (pack_round-eq p v bits f) (record {
  bit_i = refl;
  size = refl;
  field = λ k lt.
      let here : (p.bit_i + k) / 8 ≡ p.bit_i / 8 = omega arith in
      let at : (p.bit_i + k) % 8 ≡ p.bit_i % 8 + k = omega arith in
      let back : p.bit_i % 8 + k - p.bit_i % 8 ≡ k = omega arith in
      rw (here, at)
        (ground (arith, round_byte-digits p v bits (p.bit_i % 8 + k) c, ap (bit v) back));
  before = λ k lt. ground (arith, round_byte-digits p v bits (k % 8) c, ap p.buf);
  beyond = λ i h. ground arith;
  clean = record {
    clear = λ j ne h.
        let same : (p.bit_i + min (8 - p.bit_i % 8) bits) / 8 ≡ p.bit_i / 8 = omega arith in
        let at : (p.bit_i + min (8 - p.bit_i % 8) bits) % 8
            ≡ p.bit_i % 8 + min (8 - p.bit_i % 8) bits =
          omega arith in
        rw same (ground (arith, round_byte-digits p v bits j c));
  };
})

-- Packing the low digits of a number and then the others is packing all of them.
Packs-trans :
    (a b v : ℕ) (p q r : BitPacker) → Packs a v p q → Packs b (v / 2 ^ a) q r → Packs (a + b) v p r
Packs-trans a b v p q r x y = record {
  bit_i = omega (arith, x.bit_i, y.bit_i);
  size = y.size ∙ x.size;
  field = λ k lt. elim (Bool-cases (ltb k a)) [
    | inl low ↦
        y.before (p.bit_i + k) (omega (arith, x.bit_i, ltb→lt k a low)) ∙ x.field k (ltb→lt k a low)
    | inr high ↦
        let le : a ≤ k = ground arith in
        let at : p.bit_i + k ≡ q.bit_i + (k - a) = omega (arith, x.bit_i) in
        let back : k - a + a ≡ k = omega arith in
        ap (stream r) at
        ∙ y.field (k - a) (omega arith)
        ∙ bit-shift_right a (k - a) v
        ∙ ap (bit v) back
  ];
  before = λ k lt. y.before k (omega (arith, x.bit_i)) ∙ x.before k lt;
  beyond = λ i h. y.beyond i (omega (arith, x.bit_i)) ∙ x.beyond i (omega arith);
  clean = y.clean;
}

pack_loop-Packs :
    (fuel : ℕ) (p : BitPacker) (v bits : ℕ)
    → 0 < bits
    → bits ≤ fuel
    → Fits bits p
    → IsClean p
    → Returns (pack_loop fuel p v bits) (Packs bits v p)
unfolding pack_loop
pack_loop-Packs zero p v bits pos enough f c = absurd (omega arith)
pack_loop-Packs (suc fuel) p v bits pos enough f c =
    let a = min (8 - p.bit_i % 8) bits in
    let q = pack_round p v bits in
    let done = pack_round-Packs p v bits pos f c in
    let fits : Fits (bits - a) q = record {
      inside = omega (arith, done.bit_i, done.size);
      small = omega (arith, done.size);
    } in
    rw (shift-eq p) (elim (Bool-cases (ltb 0 (bits - min (8 - p.bit_i % 8) bits))) [
      | inl more ↦ rw more (
          Returns-map (Packs (bits - a) (v / 2 ^ a) q) (Packs bits v p)
            (pack_loop fuel q (v / 2 ^ a) (bits - a))
            (pack_loop-Packs fuel q (v / 2 ^ a) (bits - a) (ltb→lt 0 (bits - a) more) (omega arith)
              fits done.clean)
            (λ r y.
              let total : a + (bits - a) ≡ bits = omega arith in
              rw total at (Packs-trans a (bits - a) v p q r done y)))
      | inr last ↦
          let total : a ≡ bits = ground arith in
          rw last (subst (λ (n : ℕ). Packs n v p q) total done)
    ])

pub check_field-passes :
    (p : BitPacker) (bits : ℕ) → 0 < bits → bits ≤ 32 → Fits bits p → check_field p bits ≡ some tt
check_field-passes p bits pos h f = ground arith

pub check_field-fails :
    (p : BitPacker) (bits : ℕ)
    → p.size < 2 ^ 32
    → p.bit_i ≤ 8 * p.size
    → (bits ≡ 0) ⊎ ((32 < bits) × (bits < 2 ^ 32)) ⊎ ((bits ≤ 32) × (8 * p.size < p.bit_i + bits))
    → check_field p bits ≡ none
check_field-fails p bits small inside h = ground arith

-- `bitpack_uint32` of 1 to 32 bits that fit the rest of the buffer returns 1: it writes the low
-- digits of the number at `bit_i` in order, changes no digit before them and no byte after them,
-- and leaves `bit_i` behind them. The digits of the current byte from `bit_i` on must be clear,
-- as they are again afterwards.
pub pack_uint32-Packs :
    (p : BitPacker) (v bits : ℕ)
    → 0 < bits
    → bits ≤ 32
    → Fits bits p
    → IsClean p
    → Returns (pack_uint32 p v bits) (λ r. Packs bits v p r.0 × (r.1 ≡ true))
unfolding pack_uint32
pack_uint32-Packs p v bits pos h f c = rw (check_field-passes p bits pos h f) (
    Returns-bind (Packs bits v p) (λ r. Packs bits v p r.0 × (r.1 ≡ true)) (pack_loop bits p v bits)
      _ (pack_loop-Packs bits p v bits pos (omega arith) f c) (λ q x. (x, refl)))

-- It ends the process exactly where the number of bits is not 1 to 32, or the buffer is too short.
pack_uint32-none :
    (p : BitPacker) (v bits : ℕ)
    → p.size < 2 ^ 32
    → p.bit_i ≤ 8 * p.size
    → (bits ≡ 0) ⊎ ((32 < bits) × (bits < 2 ^ 32)) ⊎ ((bits ≤ 32) × (8 * p.size < p.bit_i + bits))
    → pack_uint32 p v bits ≡ none
unfolding pack_uint32
pack_uint32-none p v bits small inside h = rw (check_field-fails p bits small inside h)

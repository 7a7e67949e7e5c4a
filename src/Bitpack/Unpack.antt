-- ===== src/Bitpack/Unpack.antt =====
-- `bitunpack_uint32` reads the digits of the buffer from `bit_i` on into a number.
use htools.Prelude.{
  ℕ, zero, suc, ◌+◌, ◌-◌, ◌*◌, ◌/◌, ◌%◌, ◌^◌, ◌≤◌, ◌<◌, bit_or, min, true, ltb, if◌then◌else◌,
  Bool-cases, inl, inr, ◌≡◌, refl, sym, ap, ◌∙◌, arith, Returns, Returns-map, Returns-bind, ltb→lt,
  u32, add_size,
}
use mathlib.Core.Path.{subst}
use htools.Prelude.Bits.{
  bit, bit-zero, bit-bit_or, bit-shift_left, bit-shift_right, bit-mod, bit_and-mask,
}
use htools.Bitpack.Ops.{BitPacker, ofs_of, avail_of, unpack_round, unpack_loop, unpack_uint32}
use htools.Bitpack.Pack.{stream, shift-eq, Fits, check_field-passes}

-- `i` digits stand in `v` already, and reading makes them `i + bits`.
pub record Unpacks (bits i v : ℕ) (p : BitPacker) (r : BitPacker × ℕ) : Type 0 where
  pub bit_i : r.0.bit_i ≡ p.bit_i + bits
  pub buf : r.0.buf ≡ p.buf
  pub size : r.0.size ≡ p.size
  pub small : r.1 < 2 ^ 32
  pub before : (k : ℕ) → k < i → bit r.1 k ≡ bit v k
  pub field : (k : ℕ) → k < bits → bit r.1 (i + k) ≡ stream p (p.bit_i + k)
  pub clear : (k : ℕ) → i + bits ≤ k → bit r.1 k ≡ 0

-- The digits that a round takes from the current byte.
unpack_round-digits :
    (p : BitPacker) (bits j : ℕ)
    → p.bit_i < 2 ^ 35
    → bit (unpack_round p bits) j ≡ (
        if ltb j (min (8 - p.bit_i % 8) bits)
        then bit (p.buf (p.bit_i / 8)) (j + p.bit_i % 8)
        else 0)
unfolding unpack_round
unpack_round-digits p bits j small =
    let s = p.bit_i % 8 in
    let a = min (8 - s) bits in
    let b = p.buf (p.bit_i / 8) in
    let ofs : ofs_of p ≡ p.bit_i / 8 = omega arith in
    rw
      (
        shift-eq p,
        ofs,
        bit_and-mask (min (8 - p.bit_i % 8) bits) (b / 2 ^ s),
        bit-mod 8 j (b / 2 ^ s % 2 ^ a),
        bit-mod a j (b / 2 ^ s),
        bit-shift_right s j b,
      )
      (ground arith)

-- The number after a round.
round-digits :
    (p : BitPacker) (v i bits k : ℕ)
    → p.bit_i < 2 ^ 35
    → i + bits ≤ 32
    → ((j : ℕ) → i ≤ j → bit v j ≡ 0)
    → let a = min (8 - p.bit_i % 8) bits in
      bit (u32 (bit_or v (unpack_round p bits * 2 ^ i))) k ≡ (
        if ltb k i
        then bit v k
        else if ltb k (i + a)
        then bit (p.buf (p.bit_i / 8)) (k - i + p.bit_i % 8)
        else 0)
round-digits p v i bits k small fits clear =
    rw
      (
        bit-mod 32 k (bit_or v (unpack_round p bits * 2 ^ i)),
        bit-bit_or k v (unpack_round p bits * 2 ^ i),
        bit-shift_left i k (unpack_round p bits),
        unpack_round-digits p bits (k - i) small,
      )
      (ground (arith, clear k))

abbrev next_packer : BitPacker → ℕ → BitPacker
next_packer p bits = record p { bit_i = add_size p.bit_i (avail_of p bits) }

abbrev next_value : BitPacker → ℕ → ℕ → ℕ → ℕ
next_value p v i bits = u32 (bit_or v (unpack_round p bits * 2 ^ i))

round-Unpacks :
    (p : BitPacker) (v i bits : ℕ)
    → Fits bits p
    → i + bits ≤ 32
    → ((j : ℕ) → i ≤ j → bit v j ≡ 0)
    → Unpacks (min (8 - p.bit_i % 8) bits) i v p (next_packer p bits, next_value p v i bits)
round-Unpacks p v i bits f h clear =
    let small : p.bit_i < 2 ^ 35 = omega arith in
    let a = min (8 - p.bit_i % 8) bits in
    record {
      bit_i = omega (arith, shift-eq p);
      buf = refl;
      size = refl;
      small = omega arith;
      before = λ k lt. ground (arith, round-digits p v i bits k small h clear);
      field = λ k lt.
          let here : (p.bit_i + k) / 8 ≡ p.bit_i / 8 = omega arith in
          let at : (p.bit_i + k) % 8 ≡ i + k - i + p.bit_i % 8 = omega arith in
          rw (here, at) (ground (arith, round-digits p v i bits (i + k) small h clear));
      clear = λ k le. ground (arith, round-digits p v i bits k small h clear);
    }

Unpacks-trans :
    (a b i v : ℕ) (p : BitPacker) (q r : BitPacker × ℕ)
    → Unpacks a i v p q
    → Unpacks b (i + a) q.1 q.0 r
    → Unpacks (a + b) i v p r
Unpacks-trans a b i v p q r x y = record {
  bit_i = omega (arith, x.bit_i, y.bit_i);
  buf = y.buf ∙ x.buf;
  size = y.size ∙ x.size;
  small = y.small;
  before = λ k lt. y.before k (omega arith) ∙ x.before k lt;
  field = λ k lt. elim (Bool-cases (ltb k a)) [
    | inl low ↦ let lt' : k < a = ltb→lt k a low in y.before (i + k) (omega arith) ∙ x.field k lt'
    | inr high ↦
        let le : a ≤ k = ground arith in
        let at : i + k ≡ i + a + (k - a) = omega arith in
        let from : q.0.bit_i + (k - a) ≡ p.bit_i + k = omega (arith, x.bit_i) in
        ap (bit r.1) at
        ∙ y.field (k - a) (omega arith)
        ∙ ap (stream q.0) from
        ∙ ap (λ (d : ℕ → ℕ). bit (d ((p.bit_i + k) / 8)) ((p.bit_i + k) % 8)) x.buf
  ];
  clear = λ k le. y.clear k (omega arith);
}

unpack_loop-Unpacks :
    (fuel : ℕ) (p : BitPacker) (v i bits : ℕ)
    → 0 < bits
    → bits ≤ fuel
    → Fits bits p
    → i + bits ≤ 32
    → ((j : ℕ) → i ≤ j → bit v j ≡ 0)
    → Returns (unpack_loop fuel p v i bits) (Unpacks bits i v p)
unfolding unpack_loop
unpack_loop-Unpacks zero p v i bits pos enough f h clear = absurd (omega arith)
unpack_loop-Unpacks (suc fuel) p v i bits pos enough f h clear =
    let a = min (8 - p.bit_i % 8) bits in
    let q = next_packer p bits in
    let w = next_value p v i bits in
    let done = round-Unpacks p v i bits f h clear in
    let taken : avail_of p bits ≡ a = ap (λ (s : ℕ). min (8 - s) bits) (shift-eq p) in
    let fits : Fits (bits - avail_of p bits) q = record {
      inside = omega (arith, taken, done.bit_i);
      small = f.small;
    } in
    elim (Bool-cases (ltb 0 (bits - avail_of p bits))) [
      | inl more ↦ rw more (
          Returns-map (Unpacks (bits - avail_of p bits) (i + avail_of p bits) w q)
            (Unpacks bits i v p)
            (unpack_loop fuel q w (i + avail_of p bits) (bits - avail_of p bits))
            (unpack_loop-Unpacks fuel q w (i + avail_of p bits) (bits - avail_of p bits)
              (ltb→lt 0 (bits - avail_of p bits) more) (omega (arith, taken)) fits
              (omega (arith, taken)) (λ j le. done.clear j (omega (arith, taken))))
            (λ r y.
              let total : avail_of p bits + (bits - avail_of p bits) ≡ bits =
                omega (arith, taken) in
              subst (λ (n : ℕ). Unpacks n i v p r) total
                (Unpacks-trans (avail_of p bits) (bits - avail_of p bits) i v p (q, w) r
                  (subst (λ (n : ℕ). Unpacks n i v p (q, w)) (sym taken) done) y)))
      | inr last ↦
          let total : a ≡ bits = ground (arith, taken) in
          rw last (subst (λ (n : ℕ). Unpacks n i v p (q, w)) total done)
    ]

-- `bitunpack_uint32` of 1 to 32 bits that the rest of the buffer holds returns 1: the number that
-- it stores has exactly these digits and no others, the buffer stays as it is, and `bit_i` moves
-- behind them.
pub unpack_uint32-Unpacks :
    (p : BitPacker) (bits : ℕ)
    → 0 < bits
    → bits ≤ 32
    → Fits bits p
    → Returns (unpack_uint32 p bits) (λ r. Unpacks bits 0 0 p (r.0, r.1) × (r.2 ≡ true))
unfolding unpack_uint32
unpack_uint32-Unpacks p bits pos h f = rw (check_field-passes p bits pos h f) (
    Returns-bind (Unpacks bits 0 0 p) (λ r. Unpacks bits 0 0 p (r.0, r.1) × (r.2 ≡ true))
      (unpack_loop bits p 0 0 bits) _
      (unpack_loop-Unpacks bits p 0 0 bits pos (omega arith) f (omega arith) (λ j le. bit-zero j))
      (λ q x. (x, refl)))

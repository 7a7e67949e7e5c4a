-- ===== src/Bitpack/Strings.antt =====
-- `bitpack_string` and `bitunpack_string`: a C string is packed with its terminator.
use htools.Prelude.{
  ℕ, zero, suc, ◌+◌, ◌*◌, ◌/◌, ◌%◌, ◌<◌, some, Bool, true, false, ◌≡◌, refl, ap, ap₂, ◌∙◌, arith,
  Returns, Returns-value, Returns-map, Returns-bind, List, [], ◌∷◌, ◌==◌, length, u8,
}
use mathlib.Core.Path.{subst}
use htools.Prelude.Bits.{bit}
use htools.Bitpack.Ops.{
  BitPacker, pack_uint32, unpack_uint32, pack_string, count_loop, store_loop, unpack_string,
}
use htools.Bitpack.Pack.{stream, IsClean, Packs, Fits, pack_uint32-Packs}
use htools.Bitpack.Unpack.{Unpacks, unpack_uint32-Unpacks}
use htools.Bitpack.RoundTrip.{at_bit, Stored, PacksAll, Field, digits-mod}

-- The characters of a C string: bytes, and no terminator among them.
abbrev pub IsText : List ℕ → Type 0
IsText [] = Unit
IsText (c ∷ s) = (0 < c) × (c < 256) × IsText s

abbrev string_fields : List ℕ → List Field
string_fields [] = (0, 8) ∷ []
string_fields (c ∷ s) = (c, 8) ∷ string_fields s

pack_string-PacksAll :
    (s : List ℕ) (p : BitPacker)
    → Fits (8 * (length s + 1)) p
    → IsClean p
    → Returns (pack_string p s) (λ r. PacksAll (string_fields s) p r.0 × (r.1 ≡ true))
unfolding pack_string Stored
pack_string-PacksAll [] p f c =
    Returns-map (λ r. Packs 8 0 p r.0 × (r.1 ≡ true)) _ (pack_uint32 p 0 8)
      (pack_uint32-Packs p 0 8 (omega arith) (omega arith)
        (record { inside = f.inside; small = f.small }) c)
      (λ r x. (record { size = x.0.size; before = x.0.before; stored = (x.0.field, tt) }, x.1))
pack_string-PacksAll (a ∷ s) p f c =
    Returns-bind (λ r. Packs 8 a p r.0 × (r.1 ≡ true)) _ (pack_uint32 p a 8) _
      (pack_uint32-Packs p a 8 (omega arith) (omega arith)
        (record { inside = omega arith; small = f.small }) c)
      (λ r x. rw x.1 (
        Returns-map (λ q. PacksAll (string_fields s) r.0 q.0 × (q.1 ≡ true)) _ (pack_string r.0 s)
          (pack_string-PacksAll s r.0
            (record {
              inside = omega (arith, x.0.bit_i, x.0.size);
              small = omega (arith, x.0.size);
            })
            x.0.clean)
          (λ q y. (
            record {
              size = y.0.size ∙ x.0.size;
              before = λ k lt. y.0.before k (omega (arith, x.0.bit_i)) ∙ x.0.before k lt;
              stored = (
                λ k lt. y.0.before (p.bit_i + k) (omega (arith, x.0.bit_i)) ∙ x.0.field k lt,
                subst (Stored (string_fields s) q.0) x.0.bit_i y.0.stored,
              );
            },
            y.1,
          ))))

-- Reading one stored character.
read_char :
    (p q : BitPacker) (c : ℕ)
    → c < 256
    → q.buf ≡ p.buf
    → Fits 8 q
    → ((k : ℕ) → k < 8 → stream p (q.bit_i + k) ≡ bit c k)
    → (r : BitPacker) × (unpack_uint32 q 8 ≡ some (r, c, true))
      × (r.bit_i ≡ q.bit_i + 8)
      × (r.buf ≡ q.buf)
      × (r.size ≡ q.size)
read_char p q c lt b f stored =
    let ((r, x, ret), e, (u, t)) =
      Returns-value (λ r. Unpacks 8 0 0 q (r.0, r.1) × (r.2 ≡ true)) (unpack_uint32 q 8)
        (unpack_uint32-Unpacks q 8 (omega arith) (omega arith) f) in
    let digit : (k : ℕ) → k < 8 → bit x k ≡ bit c k =
      λ k h. ap (bit x) (zero-add k) ∙ u.field k h ∙ same (q.bit_i + k) ∙ stored k h in
    let value : x ≡ c =
      digits-mod 8 c x (omega arith) u.small digit (λ k le. u.clear k (omega arith))
      ∙ omega arith in
    (r, e ∙ ap₂ (λ (y : ℕ) (z : Bool). some (r, y, z)) value t, u.bit_i, u.buf, u.size)
  where
    zero-add : (k : ℕ) → k ≡ 0 + k
    zero-add k = omega arith

    same : (k : ℕ) → stream q k ≡ stream p k
    same k = ap (λ (d : ℕ → ℕ). bit (d (k / 8)) (k % 8)) b

module _ (p : BitPacker) where
  count_loop-Stored :
      (s : List ℕ) (q : BitPacker) (fuel len : ℕ)
      → length s < fuel
      → IsText s
      → q.buf ≡ p.buf
      → Fits (8 * (length s + 1)) q
      → Stored (string_fields s) p q.bit_i
      → Returns
          (count_loop fuel q len)
          (λ r. (r.1 ≡ len + length s) × (r.2 ≡ true) × (r.0.buf ≡ q.buf) × (r.0.size ≡ q.size))
  unfolding count_loop Stored
  count_loop-Stored s q zero len h t b f st = absurd (omega arith)
  count_loop-Stored [] q (suc fuel) len h t b f st =
      let (r, e, _, same_buf, same_size) =
        read_char p q 0 (omega arith) b (record { inside = f.inside; small = f.small }) st.0 in
      rw e (omega arith, refl, same_buf, same_size)
  count_loop-Stored (c ∷ s) q (suc fuel) len h t b f st =
      let (r, e, i, same_buf, same_size) =
        read_char p q c t.1 b (record { inside = omega arith; small = f.small }) st.0 in
      let more : (c == 0) ≡ false = ground arith in
      rw (e, more)
        (Returns-map _ _ (count_loop fuel r (len + 1))
          (count_loop-Stored s r fuel (len + 1) (omega arith) t.2 (same_buf ∙ b)
            (record { inside = omega arith; small = omega arith }) (rw i st.1))
          (λ z y. (omega (arith, y.0), y.1, y.2 ∙ same_buf, y.3 ∙ same_size)))

  store_loop-Stored :
      (s : List ℕ) (q : BitPacker) (fuel : ℕ)
      → length s < fuel
      → IsText s
      → q.buf ≡ p.buf
      → Fits (8 * (length s + 1)) q
      → Stored (string_fields s) p q.bit_i
      → Returns (store_loop fuel q) (λ r. (r.1 ≡ s) × (r.0.bit_i ≡ q.bit_i + 8 * (length s + 1)))
  unfolding store_loop Stored
  store_loop-Stored s q zero h t b f st = absurd (omega arith)
  store_loop-Stored [] q (suc fuel) h t b f st =
      let (r, e, i, same_buf, same_size) =
        read_char p q 0 (omega arith) b (record { inside = f.inside; small = f.small }) st.0 in
      rw e (refl, omega (arith, i))
  store_loop-Stored (c ∷ s) q (suc fuel) h t b f st =
      let (r, e, i, same_buf, same_size) =
        read_char p q c t.1 b (record { inside = omega arith; small = f.small }) st.0 in
      let more : (c == 0) ≡ false = ground arith in
      let byte : u8 c ≡ c = omega arith in
      rw (e, more)
        (Returns-bind (λ z. (z.1 ≡ s) × (z.0.bit_i ≡ r.bit_i + 8 * (length s + 1))) _
          (store_loop fuel r) _
          (store_loop-Stored s r fuel (omega arith) t.2 (same_buf ∙ b)
            (record { inside = omega arith; small = omega arith }) (rw i st.1))
          (λ z y. (ap₂ ◌∷◌ byte y.0, omega (arith, y.1, i))))

-- A C string that fits the rest of the buffer with its terminator is packed whole, and a packer
-- set back to the start unpacks the same string and stops behind it.
pub pack_string-unpack_string :
    (p : BitPacker) (s : List ℕ)
    → IsText s
    → Fits (8 * (length s + 1)) p
    → IsClean p
    → Returns (pack_string p s) (λ r.
      (r.1 ≡ true)
      × Returns
          (unpack_string (at_bit r.0 p.bit_i))
          (λ u. (u.1 ≡ s) × (u.2 ≡ true) × (u.0.bit_i ≡ p.bit_i + 8 * (length s + 1))))
unfolding unpack_string
pack_string-unpack_string p s t f c =
    Returns-map (λ r. PacksAll (string_fields s) p r.0 × (r.1 ≡ true)) _ (pack_string p s)
      (pack_string-PacksAll s p f c)
      (λ r x.
        let q = at_bit r.0 p.bit_i in
        let fits : Fits (8 * (length s + 1)) q = record {
          inside = omega (arith, x.0.size);
          small = omega (arith, x.0.size);
        } in
        let ((q1, len, ret), e, (n, t1, b1, s1)) = Returns-value _ (count_loop (q.size + 1) q 0) (
          count_loop-Stored r.0 s q (q.size + 1) 0 (omega (arith, x.0.size)) t refl fits
            x.0.stored) in
        (
          x.1,
          rw (e, t1)
              (Returns-bind (λ z. (z.1 ≡ s) × (z.0.bit_i ≡ p.bit_i + 8 * (length s + 1))) _
                (store_loop (q.size + 1) (at_bit q1 p.bit_i)) _
                (store_loop-Stored r.0 s (at_bit q1 p.bit_i) (q.size + 1) (omega (arith, x.0.size))
                  t b1
                  (record {
                    inside = omega (arith, x.0.size, s1);
                    small = omega (arith, x.0.size, s1);
                  })
                  x.0.stored)
                (λ z y. (y.0, refl, y.1))),
        ))

-- ===== src/Bitpack/RoundTrip.antt =====
-- What has been packed, field after field, is unpacked again by a packer set back to the start.
use htools.Prelude.{
  ℕ, ◌+◌, ◌/◌, ◌%◌, ◌^◌, ◌≤◌, ◌<◌, Option, some, true, ◌≡◌, refl, ap, ◌∙◌, arith, Returns,
  Returns-value, Returns-map, Returns-bind, ◌>>=◌, List, [], ◌∷◌,
}
use mathlib.Core.Path.{subst}
use htools.Prelude.Bits.{bit, bit-mod, bit_ext}
use native.Mathlib.Nat.{mod-lt, one-le-pow, pow-le-pow_right}
use htools.Bitpack.Ops.{BitPacker, pack_uint32, unpack_uint32}
use htools.Bitpack.Pack.{stream, IsClean, Packs, Fits, pack_uint32-Packs}
use htools.Bitpack.Unpack.{Unpacks, unpack_uint32-Unpacks}

-- A field is a number and its width.
abbrev pub Field : Type 0
Field = ℕ × ℕ

abbrev pub at_bit : BitPacker → ℕ → BitPacker
at_bit p i = record p { bit_i = i }

-- A client's calls in order.
unfoldable pub pack_fields : BitPacker → List Field → Option BitPacker
pack_fields p [] = some p
pack_fields p ((v, n) ∷ fs) = pack_uint32 p v n >>= λ r. pack_fields r.0 fs

unfoldable pub unpack_fields : BitPacker → List ℕ → Option (List ℕ)
unpack_fields p [] = some []
unpack_fields p (n ∷ ns) = unpack_uint32 p n >>= λ r. unpack_fields r.0 ns >>= λ vs. some (r.1 ∷ vs)

abbrev pub total : List Field → ℕ
total [] = 0
total ((v, n) ∷ fs) = n + total fs

abbrev pub HasWidths : List Field → Type 0
HasWidths [] = Unit
HasWidths ((v, n) ∷ fs) = (0 < n) × (n ≤ 32) × HasWidths fs

abbrev pub widths : List Field → List ℕ
widths [] = []
widths ((v, n) ∷ fs) = n ∷ widths fs

-- What a field of `n` bits keeps of its number.
abbrev pub kept : List Field → List ℕ
kept [] = []
kept ((v, n) ∷ fs) = (v % 2 ^ n) ∷ kept fs

-- The buffer holds the fields one behind the other from `i` on.
unfoldable pub Stored : List Field → BitPacker → ℕ → Type 0
Stored [] p i = Unit
Stored ((v, n) ∷ fs) p i = ((k : ℕ) → k < n → stream p (i + k) ≡ bit v k) × Stored fs p (i + n)

-- A number with the digits of `v` below `n` and no others is `v % 2 ^ n`.
pub digits-mod :
    (n v x : ℕ)
    → n ≤ 32
    → x < 2 ^ 32
    → ((k : ℕ) → k < n → bit x k ≡ bit v k)
    → ((k : ℕ) → n ≤ k → bit x k ≡ 0)
    → x ≡ v % 2 ^ n
digits-mod n v x h small low high =
    bit_ext 32 x (v % 2 ^ n) small
      (omega
        (arith, mod-lt v (one-le-pow n 2 (omega arith)), pow-le-pow_right {n = 2} (omega arith) h))
      (λ k lt. ground (arith, bit-mod n k v, low k, high k))

module _ (p : BitPacker) where
  -- Reading back what is stored.
  unpack_fields-Stored :
      (fs : List Field) (q : BitPacker)
      → q.buf ≡ p.buf
      → q.size ≡ p.size
      → HasWidths fs
      → Fits (total fs) q
      → Stored fs p q.bit_i
      → unpack_fields q (widths fs) ≡ some (kept fs)
  unfolding unpack_fields Stored
  unpack_fields-Stored [] q b s w f h = refl
  unpack_fields-Stored ((v, n) ∷ fs) q b s w f h =
      let ((r, x, ret), e, (u, _)) =
        Returns-value (λ r. Unpacks n 0 0 q (r.0, r.1) × (r.2 ≡ true)) (unpack_uint32 q n)
          (unpack_uint32-Unpacks q n w.0 w.1 (record { inside = omega arith; small = f.small })) in
      let rest =
        unpack_fields-Stored fs r (u.buf ∙ b) (u.size ∙ s) w.2
          (record { inside = omega (arith, u.bit_i, u.size); small = omega (arith, u.size) })
          (rw u.bit_i h.1) in
      let digit : (k : ℕ) → k < n → bit x k ≡ bit v k =
        λ k lt. ap (bit x) (zero-add k) ∙ u.field k lt ∙ same (q.bit_i + k) b ∙ h.0 k lt in
      rw (e, rest, digits-mod n v x w.1 u.small digit (λ k le. u.clear k (omega arith)))
    where
      zero-add : (k : ℕ) → k ≡ 0 + k
      zero-add k = omega arith

      same : (k : ℕ) → q.buf ≡ p.buf → stream q k ≡ stream p k
      same k e = ap (λ (d : ℕ → ℕ). bit (d (k / 8)) (k % 8)) e

Stored-ext :
    (fs : List Field) (q r : BitPacker) (i lo : ℕ)
    → lo ≤ i
    → ((k : ℕ) → lo ≤ k → stream r k ≡ stream q k)
    → Stored fs q i
    → Stored fs r i
unfolding Stored
Stored-ext [] q r i lo le h s = tt
Stored-ext ((v, n) ∷ fs) q r i lo le h s =
    (λ k lt. h (i + k) (omega arith) ∙ s.0 k lt, Stored-ext fs q r (i + n) lo (omega arith) h s.1)

-- What packing several fields leaves.
pub record PacksAll (fs : List Field) (p q : BitPacker) : Type 0 where
  pub size : q.size ≡ p.size
  pub before : (k : ℕ) → k < p.bit_i → stream q k ≡ stream p k
  pub stored : Stored fs q p.bit_i

pack_fields-PacksAll :
    (fs : List Field) (p : BitPacker)
    → HasWidths fs
    → Fits (total fs) p
    → IsClean p
    → Returns (pack_fields p fs) (PacksAll fs p)
unfolding pack_fields Stored
pack_fields-PacksAll [] p w f c = record { size = refl; before = λ k lt. refl; stored = tt }
pack_fields-PacksAll ((v, n) ∷ fs) p w f c =
    Returns-bind (λ r. Packs n v p r.0 × (r.1 ≡ true)) (PacksAll ((v, n) ∷ fs) p)
      (pack_uint32 p v n) _
      (pack_uint32-Packs p v n w.0 w.1 (record { inside = omega arith; small = f.small }) c)
      (λ r x.
        Returns-map (PacksAll fs r.0) (PacksAll ((v, n) ∷ fs) p) (pack_fields r.0 fs)
          (pack_fields-PacksAll fs r.0 w.2
            (record {
              inside = omega (arith, x.0.bit_i, x.0.size);
              small = omega (arith, x.0.size);
            })
            x.0.clean)
          (λ q y. record {
            size = y.size ∙ x.0.size;
            before = λ k lt. y.before k (omega (arith, x.0.bit_i)) ∙ x.0.before k lt;
            stored = (
              λ k lt. y.before (p.bit_i + k) (omega (arith, x.0.bit_i)) ∙ x.0.field k lt,
              subst (Stored fs q) x.0.bit_i y.stored,
            );
          }))

-- Fields of 1 to 32 bits that fit the rest of a buffer whose current byte is clear are all packed,
-- and a packer set back to the start unpacks them: each number comes back, cut to its width.
pub pack_fields-unpack_fields :
    (p : BitPacker) (fs : List Field)
    → HasWidths fs
    → Fits (total fs) p
    → IsClean p
    → Returns
        (pack_fields p fs)
        (λ q. unpack_fields (at_bit q p.bit_i) (widths fs) ≡ some (kept fs))
pack_fields-unpack_fields p fs w f c =
    Returns-map (PacksAll fs p) _ (pack_fields p fs) (pack_fields-PacksAll fs p w f c) (λ q x.
      unpack_fields-Stored q fs (at_bit q p.bit_i) refl refl w
        (record { inside = omega (arith, x.size); small = omega (arith, x.size) }) x.stored)

-- ===== src/Bitmask/Laws.antt =====
-- A bitmask as the set of its members.
use htools.Prelude.{
  ℕ, ◌+◌, ◌-◌, ◌/◌, ◌%◌, ◌^◌, ◌≤◌, ◌<◌, bit_and, bit_or, min, none, some, ◌==◌, if◌then◌else◌, ◌≡◌,
  ◌≢◌, ◌↔◌, refl, ap, ◌∙◌, arith, Returns, true, false,
}
use native.Mathlib.Nat.{pow-le-pow_right}
use htools.Prelude.Bits.{
  bit, bit-lt, bit-zero, bit-bit_or, bit-bit_and, bit-complement, bit-power, bit_and-mask,
  zero_of_digits, bit_or-lt, bit_and-lt,
}
use htools.Bitmask.Ops.{
  Bitmask, num_uint32, write_word, create, copy, copy_mask, selector, check_index, get, one, set,
  unset, zero_all,
}

-- 1 if index `i` is in the set, else 0.
abbrev pub member : Bitmask → ℕ → ℕ
member bm i = bit (bm.words (i / 32)) (i % 32)

-- The number of words that are allocated for `bit_num` bits does not wrap round, and each word has
-- 32 bits.
pub record IsValid (bm : Bitmask) : Type 0 where
  pub nonempty : 0 < bm.bit_num
  pub countable : bm.bit_num + 31 < 2 ^ 32
  pub words_small : (i : ℕ) → bm.words i < 2 ^ 32

-- Every index of the set lies in an allocated word.
pub word-allocated :
    (bm : Bitmask) (i : ℕ) → IsValid bm → i < bm.bit_num → i / 32 < num_uint32 bm.bit_num
word-allocated bm i v h = omega arith

selector-eq : (i : ℕ) → selector i ≡ 2 ^ (i % 32)
selector-eq i = ap (λ (k : ℕ). 2 ^ k) (bit_and-mask 5 i)

selector-digit : (i k : ℕ) → bit (selector i) k ≡ (if k == i % 32 then 1 else 0)
selector-digit i k = ap (λ (x : ℕ). bit x k) (selector-eq i) ∙ bit-power (i % 32) k ∙ ground arith

in_range : (bm : Bitmask) (i : ℕ) → i < bm.bit_num → check_index bm i ≡ some tt
in_range bm i h = ground arith

out_of_range : (bm : Bitmask) (i : ℕ) → bm.bit_num ≤ i → check_index bm i ≡ none
out_of_range bm i h = ground arith

selector-lt : (i : ℕ) → selector i < 2 ^ 32
selector-lt i = omega (
  arith,
  selector-eq i,
  pow-le-pow_right {n = 2} (omega arith) {i = i % 32} {j = 31} (omega arith),
)

write_word-IsValid :
    (bm : Bitmask) (i w : ℕ) → IsValid bm → w < 2 ^ 32 → IsValid (write_word bm i w)
write_word-IsValid bm i w v h = record {
  nonempty = v.nonempty;
  countable = v.countable;
  words_small = λ k. ground (arith, v.words_small k);
}

-- `bitmask_set` of an index in range puts it into the set, moves no other in or out, and keeps the
-- bitmask valid.
pub set-member :
    (bm : Bitmask) (i : ℕ)
    → IsValid bm
    → i < bm.bit_num
    → Returns
        (set bm i)
        (λ r. IsValid r × ((j : ℕ) → member r j ≡ (if j == i then 1 else member bm j)))
unfolding set
set-member bm i v h = rw (in_range bm i h) (
  write_word-IsValid bm (i / 32) (bit_or (bm.words (i / 32)) (selector i)) v
      (bit_or-lt 32 (bm.words (i / 32)) (selector i) (v.words_small (i / 32)) (selector-lt i)),
  λ j. ground (
    arith,
    bit-bit_or (j % 32) (bm.words (i / 32)) (selector i),
    selector-digit i (j % 32),
    bit-lt (bm.words (i / 32)) (j % 32),
    ap bm.words,
  ),
)

-- `bitmask_unset` of an index in range takes it out of the set, moves no other in or out, and
-- keeps the bitmask valid.
unset-member :
    (bm : Bitmask) (i : ℕ)
    → IsValid bm
    → i < bm.bit_num
    → Returns
        (unset bm i)
        (λ r. IsValid r × ((j : ℕ) → member r j ≡ (if j == i then 0 else member bm j)))
unfolding unset
unset-member bm i v h = rw (in_range bm i h) (
  write_word-IsValid bm (i / 32) (bit_and (bm.words (i / 32)) (2 ^ 32 - 1 - selector i)) v
      (bit_and-lt 32 (bm.words (i / 32)) (2 ^ 32 - 1 - selector i) (v.words_small (i / 32))),
  λ j. ground (
    arith,
    bit-bit_and (j % 32) (bm.words (i / 32)) (2 ^ 32 - 1 - selector i),
    bit-complement 32 (j % 32) (selector i) (selector-lt i),
    selector-digit i (j % 32),
    bit-lt (bm.words (i / 32)) (j % 32),
    ap bm.words,
  ),
)

-- Out of range, `bitmask_get`, `bitmask_set` and `bitmask_unset` end the process.
index-out_of_range :
    (bm : Bitmask) (i : ℕ)
    → bm.bit_num ≤ i
    → (get bm i ≡ none) × (set bm i ≡ none) × (unset bm i ≡ none)
unfolding get set unset
index-out_of_range bm i h = rw (out_of_range bm i h) (refl, refl, refl)

-- `bitmask_get` of an index in range is 0 exactly where the index is not in the set.
get-member :
    (bm : Bitmask) (i : ℕ) → i < bm.bit_num → Returns (get bm i) (λ x. (x ≡ 0) ↔ (member bm i ≡ 0))
unfolding get
get-member bm i h = rw (in_range bm i h) (to, from)
  where
    digit :
        (k : ℕ)
        → bit (bit_and (selector i) (bm.words (i / 32))) k
          ≡ min (if k == i % 32 then 1 else 0) (bit (bm.words (i / 32)) k)
    digit k =
        bit-bit_and k (selector i) (bm.words (i / 32))
        ∙ ap (λ (x : ℕ). min x (bit (bm.words (i / 32)) k)) (selector-digit i k)

    to : bit_and (selector i) (bm.words (i / 32)) ≡ 0 → member bm i ≡ 0
    to e =
        let d : bit (bit_and (selector i) (bm.words (i / 32))) (i % 32) ≡ 0 =
          ap (λ (x : ℕ). bit x (i % 32)) e ∙ bit-zero (i % 32) in
        ground (arith, d, digit (i % 32), bit-lt (bm.words (i / 32)) (i % 32))

    from : member bm i ≡ 0 → bit_and (selector i) (bm.words (i / 32)) ≡ 0
    from e =
        zero_of_digits 32 (bit_and (selector i) (bm.words (i / 32)))
          (bit_and-lt 32 (selector i) (bm.words (i / 32)) (selector-lt i))
          (λ k lt. ground (arith, digit k))

ones-digit : (k : ℕ) → k < 32 → bit 0xffff_ffff k ≡ 1
ones-digit k h = ground (arith, bit-complement 32 k 0, bit-zero k)

-- `bitmask_one` puts each index below `bit_num` into the set, `bitmask_zero` takes it out, and both
-- keep the bitmask valid.
one_zero-member :
    (bm : Bitmask) (j : ℕ)
    → IsValid bm
    → j < bm.bit_num
    → IsValid (one bm)
      × IsValid (zero_all bm)
      × (member (one bm) j ≡ 1)
      × (member (zero_all bm) j ≡ 0)
unfolding one zero_all
one_zero-member bm j v h = (
  record {
    nonempty = v.nonempty;
    countable = v.countable;
    words_small = λ k. ground (arith, v.words_small k);
  },
  record {
    nonempty = v.nonempty;
    countable = v.countable;
    words_small = λ k. ground (arith, v.words_small k);
  },
  ground (arith, ones-digit (j % 32), word-allocated bm j v h),
  ground (arith, bit-zero (j % 32), word-allocated bm j v h),
)

-- A new bitmask of a valid size is empty and valid.
pub create-member :
    (n : ℕ)
    → 0 < n
    → n + 31 < 2 ^ 32
    → Returns (create n) (λ bm. IsValid bm × (bm.bit_num ≡ n) × ((j : ℕ) → member bm j ≡ 0))
unfolding create
create-member n pos small =
    let pass : (0 == n) ≡ false = ground arith in
    rw pass (
      record { nonempty = pos; countable = small; words_small = λ i. omega arith },
      refl,
      λ j. bit-zero (j % 32),
    )

-- `bitmask_copy` of a valid bitmask is valid and has the same size and members.
pub copy-member :
    (src : Bitmask) (j : ℕ)
    → IsValid src
    → j < src.bit_num
    → Returns (copy src) (λ r. IsValid r × (r.bit_num ≡ src.bit_num) × (member r j ≡ member src j))
unfolding copy create
copy-member src j v h =
    let pass : (0 == src.bit_num) ≡ false = ground (arith, v.nonempty) in
    rw pass (
      record {
        nonempty = v.nonempty;
        countable = v.countable;
        words_small = λ k. ground (arith, v.words_small k);
      },
      refl,
      ground (arith, word-allocated src j v h),
    )

-- `bitmask_copy_mask` between bitmasks of one size gives the target the members of the source and
-- keeps it valid.
copy_mask-member :
    (dst src : Bitmask) (j : ℕ)
    → IsValid dst
    → IsValid src
    → dst.bit_num ≡ src.bit_num
    → j < src.bit_num
    → Returns (copy_mask dst src) (λ r. IsValid r × (member r j ≡ member src j))
unfolding copy_mask
copy_mask-member dst src j vd vs e h =
    let pass : (dst.bit_num == src.bit_num) ≡ true = ground arith in
    rw pass (
      record {
        nonempty = vd.nonempty;
        countable = vd.countable;
        words_small = λ k. ground (arith, vs.words_small k, vd.words_small k);
      },
      ground (arith, word-allocated src j vs h),
    )

-- Between bitmasks of different sizes `bitmask_copy_mask` ends the process, as does
-- `bitmask_create` of no bits.
pub size-refused :
    (dst src : Bitmask) → dst.bit_num ≢ src.bit_num → (copy_mask dst src ≡ none) × (create 0 ≡ none)
unfolding copy_mask create
size-refused dst src ne =
    let fail : (dst.bit_num == src.bit_num) ≡ false = ground arith in rw fail (refl, refl)

-- ===== src/Vector/Reads.antt =====
-- Access, `name_init` and `name_resize` of vector.h.
use htools.Prelude.{
  ℕ, zero, suc, ◌+◌, ◌-◌, ◌≤◌, ◌<◌, ◌^◌, ◌≡◌, refl, sym, ap, ◌∙◌, arith, some, none, Returns,
  add_size, sub_size, ltb, leb, min, if◌then◌else◌, get_elem?, ◌==◌, List, ◌∷◌, take, replicate,
  Bool-cases, inl, inr,
}
use mathlib.Core.Option
use htools.Prelude.Range.{range_of, get_elem?-range_of, take-range_of, range_of_ext}
use htools.Vector.Ops.{Vector, Setup, at, front, back, init, resize, assert_invariant}
use htools.Vector.Invariant.{IsValid, Fits}
use htools.Vector.Contents.{contents}

module _ {A : Type 0} (s : Setup A) where
  -- The three pointers that a valid vector hands out: `name_at` to the element of that index, or
  -- the process stops where there is none; `name_front` to the first, `name_back` to the last.
  reads_lem :
      (v : Vector A) (i : ℕ)
      → IsValid s v
      → Fits s v
      → (Option.map v.cells (at s v i) ≡ get_elem? (contents v) i)
        × (Option.map v.cells (front s v) ≡ get_elem? (contents v) 0)
        × (Option.map v.cells (back s v) ≡ get_elem? (contents v) (v.size - 1))
  unfolding at front back
  reads_lem v i w f = (
    ground (arith, get_elem?-range_of v.cells v.ofs v.size i),
    ground (arith, get_elem?-range_of v.cells v.ofs v.size 0, ap v.cells start),
    elim (Bool-cases (v.size == 0)) [
      | inl empty ↦ ground (arith, get_elem?-range_of v.cells v.ofs v.size (v.size - 1))
      | inr some_in ↦
          let last : sub_size (add_size v.ofs v.size) 1 ≡ v.ofs + (v.size - 1) = ground arith in
          ground (arith, get_elem?-range_of v.cells v.ofs v.size (v.size - 1), ap v.cells last)
    ],
  )
    where
      start : v.ofs + 0 ≡ v.ofs
      start = omega arith

  take-all : (d : ℕ → A) (i m n : ℕ) → n ≤ m → take m (range_of d i n) ≡ range_of d i n
  take-all d i zero zero h = refl
  take-all d i (suc m) zero h = refl
  take-all d i zero (suc n) h = absurd (omega arith)
  take-all d i (suc m) (suc n) h =
      ap (λ (ys : List A). d i ∷ ys) (take-all d (suc i) m n (omega arith))

  abbrev resized : Vector A → ℕ → Vector A
  resized v n = record v {
    size = min n v.size;
    capacity = v.ofs + n;
    cells = λ i. if ltb i (min v.capacity (v.ofs + n)) then v.cells i else s.fresh i;
  }

  resize-eq :
      (v : Vector A) (n : ℕ)
      → IsValid s v
      → Fits s v
      → n ≤ v.size + s.chunk
      → resize s v n ≡ some (resized v n)
  unfolding resize
  resize-eq v n w f h = ground arith

  -- `name_resize` to at most `chunk` more elements than there are keeps the vector valid and holds
  -- its first `n` elements: it cuts a vector short, and never makes one longer.
  resize-take :
      (v : Vector A) (n : ℕ)
      → IsValid s v
      → Fits s v
      → n ≤ v.size + s.chunk
      → Returns (resize s v n) (λ v'. IsValid s v' × (contents v' ≡ take n (contents v)))
  resize-take v n w f h = rw (resize-eq v n w f h) (
    record { allocated = omega arith; margin = omega arith; tight = omega arith },
    range_of_ext (resized v n).cells v.cells v.ofs v.ofs (min n v.size) (λ k lt. ground arith)
        ∙ elim (Bool-cases (leb n v.size)) [
          | inl shorter ↦
              let e : min n v.size ≡ n = ground arith in
              ap (range_of v.cells v.ofs) e
              ∙ sym (take-range_of v.cells v.ofs n v.size (ground arith))
          | inr longer ↦
              let e : min n v.size ≡ v.size = ground arith in
              ap (range_of v.cells v.ofs) e ∙ sym (take-all v.cells v.ofs n v.size (ground arith))
        ],
  )

  -- Past that, its own check of the invariant stops the process.
  pub resize-too_long :
      (v : Vector A) (n : ℕ)
      → IsValid s v
      → Fits s v
      → v.size + s.chunk < n
      → n < 2 ^ 31
      → resize s v n ≡ none
  unfolding resize
  resize-too_long v n w f h small = ground arith

  -- A vector from `name_init` is valid and holds `n` zeroed elements.
  pub init-IsValid :
      (n : ℕ)
      → n < 2 ^ 31
      → s.chunk < 2 ^ 30
      → Returns (init s n) (λ v. IsValid s v × (contents v ≡ replicate n s.zeroed))
  unfolding init
  init-IsValid n h c =
      let v : Vector A = record { ofs = 0; size = n; capacity = n; cells = λ _. s.zeroed } in
      let checked : assert_invariant s v ≡ some tt = ground arith in
      rw checked (
        record { allocated = omega arith; margin = omega arith; tight = omega arith },
        all_zero 0 n,
      )
    where
      all_zero : (i m : ℕ) → range_of (λ _. s.zeroed) i m ≡ replicate m s.zeroed
      all_zero i zero = refl
      all_zero i (suc m) = ap (λ (ys : List A). s.zeroed ∷ ys) (all_zero (suc i) m)

-- ===== src/Prelude/Range.antt =====
-- A stretch of an array, read as a list. An array is a function from indices, since the code
-- moves blocks of it about and every cell keeps its place.
use Prim.Native.Nat.{ℕ, zero, suc, ◌+◌, ◌-◌, ◌<◌, ◌≤◌}
use mathlib.Core.Path.{◌≡◌, refl, ap, ap₂, ◌∙◌}
use mathlib.Core.List.{List, [], ◌∷◌, ◌++◌}
use mathlib.Core.Option.{none, some}
use native.Mathlib.Omega.{arith}
use htools.Prelude.Lists.{length, get_elem?, take, drop}
use htools.Prelude.Tests.{ltb, if◌then◌else◌}

module _ {ℓ} {A : Type ℓ} where
  -- `d[i], d[i + 1], ..., d[i + n - 1]`
  abbrev pub range_of : (ℕ → A) → ℕ → ℕ → List A
  range_of d i zero = []
  range_of d i (suc n) = d i ∷ range_of d (suc i) n

  pub length-range_of : (d : ℕ → A) (i n : ℕ) → length (range_of d i n) ≡ n
  length-range_of d i zero = refl
  length-range_of d i (suc n) = ap suc (length-range_of d (suc i) n)

  pub get_elem?-range_of :
      (d : ℕ → A) (i n k : ℕ)
      → get_elem? (range_of d i n) k ≡ (if ltb k n then some (d (i + k)) else none)
  get_elem?-range_of d i zero k = ground arith
  get_elem?-range_of d i (suc n) zero = ground (arith, ap d (add-zero i))
    where
      add-zero : (m : ℕ) → m + 0 ≡ m
      add-zero m = omega arith
  get_elem?-range_of d i (suc n) (suc k) =
      let e : suc i + k ≡ i + suc k = omega arith in
      ground (arith, get_elem?-range_of d (suc i) n k, ap d e)

  -- Two stretches agree when their cells do, one by one.
  pub range_of_ext :
      (d e : ℕ → A) (i j n : ℕ)
      → ((k : ℕ) → k < n → d (i + k) ≡ e (j + k))
      → range_of d i n ≡ range_of e j n
  range_of_ext d e i j zero h = refl
  range_of_ext d e i j (suc n) h = ap₂ ◌∷◌ here (
      range_of_ext d e (suc i) (suc j) n
        (λ k lt. ap d (shift i k) ∙ h (suc k) (omega arith) ∙ ap e (back j k)))
    where
      shift : (m k : ℕ) → suc m + k ≡ m + suc k
      shift m k = omega arith

      back : (m k : ℕ) → m + suc k ≡ suc m + k
      back m k = omega arith

      zero_left : (m : ℕ) → m ≡ m + 0
      zero_left m = omega arith

      zero_right : (m : ℕ) → m + 0 ≡ m
      zero_right m = omega arith

      here : d i ≡ e j
      here = ap d (zero_left i) ∙ h 0 (omega arith) ∙ ap e (zero_right j)

  pub range_of-append :
      (d : ℕ → A) (i m n : ℕ) → range_of d i (m + n) ≡ range_of d i m ++ range_of d (i + m) n
  range_of-append d i zero n = ap₂ (λ (x y : ℕ). range_of d x y) (omega arith) (omega arith)
  range_of-append d i (suc m) n =
      let e : suc m + n ≡ suc (m + n) = omega arith in
      let s : suc i + m ≡ i + suc m = omega arith in
      ap (range_of d i) e
      ∙ ap (λ (ys : List A). d i ∷ ys)
          (range_of-append d (suc i) m n ∙ ap (λ (x : ℕ). range_of d (suc i) m ++ range_of d x n) s)

  pub take-range_of : (d : ℕ → A) (i m n : ℕ) → m ≤ n → take m (range_of d i n) ≡ range_of d i m
  take-range_of d i zero n h = refl
  take-range_of d i (suc m) zero h = absurd (omega arith)
  take-range_of d i (suc m) (suc n) h =
      ap (λ (ys : List A). d i ∷ ys) (take-range_of d (suc i) m n (omega arith))

  pub drop-range_of :
      (d : ℕ → A) (i m n : ℕ) → m ≤ n → drop m (range_of d i n) ≡ range_of d (i + m) (n - m)
  drop-range_of d i zero n h = ap₂ (λ (x y : ℕ). range_of d x y) (omega arith) (omega arith)
  drop-range_of d i (suc m) zero h = absurd (omega arith)
  drop-range_of d i (suc m) (suc n) h =
      drop-range_of d (suc i) m n (omega arith)
      ∙ ap₂ (λ (x y : ℕ). range_of d x y) (omega arith) (omega arith)

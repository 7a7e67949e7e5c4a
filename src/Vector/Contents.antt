-- ===== src/Vector/Contents.antt =====
-- What a vector holds, as a list, and how moved blocks of cells read as insertion and removal.
use htools.Prelude.{
  ℕ, zero, suc, ◌+◌, ◌≤◌, ◌<◌, ◌≡◌, refl, ap, ap₂, ◌∙◌, arith, List, [], ◌∷◌, ◌++◌, length,
}
use htools.Prelude.Range.{range_of, range_of_ext}
use htools.Vector.Ops.{Vector}

module _ {ℓ} {A : Type ℓ} where
  -- The elements in the order of VECTOR_FOREACH.
  abbrev pub contents : Vector A → List A
  contents v = range_of v.cells v.ofs v.size

  -- The list operations that insertion and removal stand for.
  abbrev pub insert_at : ℕ → A → List A → List A
  insert_at zero x ys = x ∷ ys
  insert_at (suc i) x [] = x ∷ []
  insert_at (suc i) x (y ∷ ys) = y ∷ insert_at i x ys

  abbrev pub erase_at : ℕ → List A → List A
  erase_at i [] = []
  erase_at zero (y ∷ ys) = ys
  erase_at (suc i) (y ∷ ys) = y ∷ erase_at i ys

  pub insert_at-length : (x : A) (ys : List A) → insert_at (length ys) x ys ≡ ys ++ (x ∷ [])
  insert_at-length x [] = refl
  insert_at-length x (y ∷ ys) = ap (λ (zs : List A). y ∷ zs) (insert_at-length x ys)

  cell : (d : ℕ → A) {i j : ℕ} → i ≡ j → d i ≡ d j
  cell d e = ap d e

  pub range_of-insert_at :
      (d e : ℕ → A) (o p n i : ℕ) (x : A)
      → i ≤ n
      → ((k : ℕ) → k < i → d (o + k) ≡ e (p + k))
      → d (o + i) ≡ x
      → ((k : ℕ) → i ≤ k → k < n → d (o + suc k) ≡ e (p + k))
      → range_of d o (suc n) ≡ insert_at i x (range_of e p n)
  range_of-insert_at d e o p n zero x h before here after =
      ap₂ ◌∷◌ (cell d (omega arith) ∙ here)
        (range_of_ext d e (suc o) p n (λ k lt. cell d (omega arith) ∙ after k (omega arith) lt))
  range_of-insert_at d e o p zero (suc i) x h before here after = absurd (omega arith)
  range_of-insert_at d e o p (suc n) (suc i) x h before here after =
      ap₂ ◌∷◌ (cell d (omega arith) ∙ before 0 (omega arith) ∙ cell e (omega arith)) (
        range_of-insert_at d e (suc o) (suc p) n i x (omega arith)
          (λ k lt. cell d (omega arith) ∙ before (suc k) (omega arith) ∙ cell e (omega arith))
          (cell d (omega arith) ∙ here)
          (λ k le lt.
            cell d (omega arith)
            ∙ after (suc k) (omega arith) (omega arith)
            ∙ cell e (omega arith)))

  pub range_of-erase_at :
      (d e : ℕ → A) (o p n i : ℕ)
      → i ≤ n
      → ((k : ℕ) → k < i → d (o + k) ≡ e (p + k))
      → ((k : ℕ) → i ≤ k → k < n → d (o + k) ≡ e (p + suc k))
      → range_of d o n ≡ erase_at i (range_of e p (suc n))
  range_of-erase_at d e o p n zero h before after =
      range_of_ext d e o (suc p) n (λ k lt. after k (omega arith) lt ∙ cell e (omega arith))
  range_of-erase_at d e o p zero (suc i) h before after = absurd (omega arith)
  range_of-erase_at d e o p (suc n) (suc i) h before after =
      ap₂ ◌∷◌ (cell d (omega arith) ∙ before 0 (omega arith) ∙ cell e (omega arith)) (
        range_of-erase_at d e (suc o) (suc p) n i (omega arith)
          (λ k lt. cell d (omega arith) ∙ before (suc k) (omega arith) ∙ cell e (omega arith))
          (λ k le lt.
            cell d (omega arith)
            ∙ after (suc k) (omega arith) (omega arith)
            ∙ cell e (omega arith)))

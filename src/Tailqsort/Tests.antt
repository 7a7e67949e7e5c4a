-- ===== src/Tailqsort/Tests.antt =====
-- A run of the sort on pairs that are compared by their first number, and the theorem there.
use htools.Prelude.{ℕ, some, Bool, ltb, ◌≡◌, refl, arith, List, [], ◌∷◌, Returns}
use htools.Tailqsort.Ops.{sort}
use htools.Tailqsort.Order.{IsOrder, Sorts, sort-Sorts}

abbrev greater : ℕ × ℕ → ℕ × ℕ → Bool
greater x y = ltb y.0 x.0

abbrev nodes : List (ℕ × ℕ)
nodes = (2, 0) ∷ (1, 1) ∷ (2, 2) ∷ (1, 3) ∷ (0, 4) ∷ []

greater-IsOrder : IsOrder (ℕ × ℕ) greater
greater-IsOrder = record {
  asymmetric = λ x y h. ground arith;
  transitive = λ x y z h k. ground arith;
}

sort-nodes : sort greater 6 nodes 5 ≡ some ((0, 4) ∷ (1, 1) ∷ (1, 3) ∷ (2, 0) ∷ (2, 2) ∷ [])
unfolding sort
sort-nodes = refl

sort-Sorts_example : Returns (sort greater 6 nodes 5) (Sorts greater nodes)
sort-Sorts_example = sort-Sorts greater greater-IsOrder 6 5 nodes (omega arith) refl

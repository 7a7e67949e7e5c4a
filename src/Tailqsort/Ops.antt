-- ===== src/Tailqsort/Ops.antt =====
-- hutils/include/hutils/tailqsort.h. A tail queue is the list of its nodes; taking its first node
-- and adding a node at its end is all that the source does with one, besides cutting it in two.
use htools.Prelude.{
  ℕ, zero, suc, ◌+◌, ◌-◌, ◌/◌, Option, none, some, Bool, leb, if◌then◌else◌, ◌>>=◌, ◌>>◌, guard,
  not, List, [], ◌∷◌, ◌++◌, length, take, drop,
}

-- `greater l r` is `cmp(l, r) > 0`.
module _ {A : Type 0} (greater : A → A → Bool) where
  -- The loops that merge; `done` is the list so far. Every round takes a node from one of the two,
  -- so that one round for each and one more are enough.
  unfoldable pub merge_loop : ℕ → List A → List A → List A → Option (List A)
  merge_loop zero left right done = none
  merge_loop (suc fuel) [] right done = some (done ++ right)
  merge_loop (suc fuel) (x ∷ left) [] done = some (done ++ (x ∷ left))
  merge_loop (suc fuel) (x ∷ left) (y ∷ right) done =
      let take_right = merge_loop fuel (x ∷ left) right (done ++ (y ∷ [])) in
      let take_left = merge_loop fuel left (y ∷ right) (done ++ (x ∷ [])) in
      if greater x y then take_right else take_left

  -- The sort, with fuel; `none` is the assertion or a null pointer in a list that is shorter than
  -- the size given. The source follows `cur` behind the middle, so it must not be the end.
  unfoldable pub sort : ℕ → List A → ℕ → Option (List A)
  unfolding merge_loop
  sort zero list size = none
  sort (suc fuel) list size =
      let middle = size / 2 in
      let halves = (do
        guard (not (leb (length list) middle))
        left ← sort fuel (take middle list) middle
        right ← sort fuel (drop middle list) (size - middle)
        merge_loop (length left + length right + 1) left right []) in
      if leb size 1 then some list else halves

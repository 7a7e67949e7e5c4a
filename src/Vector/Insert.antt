-- ===== src/Vector/Insert.antt =====
-- `name_insert` of vector.h.
use htools.Prelude.{
  ℕ, suc, ◌+◌, ◌-◌, ◌/◌, ◌≤◌, ◌<◌, ◌≡◌, ap, arith, some, none, ltb→lt, ◌>>=◌, Returns, Returns-bind,
  add_size, sub_size, ltb, Bool-cases, inl, inr, if◌then◌else◌,
}
use htools.Vector.Ops.{Vector, Setup, move, move_cells, try_grow, assert_bounds, insert}
use htools.Vector.Invariant.{IsValid, Fits, try_grow-Resized}
use htools.Vector.Push.{
  Inserts, Opened, Opened-Inserts, move-eq, Fits-ofs-size, widened, Grown, grow_front,
}

module _ {A : Type 0} (s : Setup A) where
  abbrev counted : Vector A → Vector A
  counted v = record v { size = add_size v.size 1 }

  -- A margin is there: the elements before `i` move down by one cell.
  insert-front_room :
      (v : Vector A) (i : ℕ)
      → IsValid s v
      → Fits s v
      → i ≤ v.size
      → 0 < v.ofs
      → Returns
          (move
            (record v { ofs = v.ofs - 1; size = add_size v.size 1 })
            (v.ofs - 1)
            (add_size (v.ofs - 1) 1)
            i)
          (Opened s i v)
  insert-front_room v i w f h pos =
      rw
        (move-eq s (record v { ofs = v.ofs - 1; size = add_size v.size 1 }) (v.ofs - 1)
          (add_size (v.ofs - 1) 1) i (omega arith) (omega arith) (omega arith))
        (record {
          valid = omega arith;
          small = omega arith;
          one_more = omega arith;
          before = λ k lt.
              let at : add_size (v.ofs - 1) 1 + (v.ofs - 1 + k - (v.ofs - 1)) ≡ v.ofs + k =
                omega arith in
              ground (arith, ap v.cells at);
          after = λ k le lt.
              let at : v.ofs - 1 + suc k ≡ v.ofs + k = omega arith in ground (arith, ap v.cells at);
        })

  -- No margin: the elements from `i` on move up past the new cell, then those before it.
  insert-front_moved :
      (v v' : Vector A) (i : ℕ)
      → IsValid s v
      → Fits s v
      → i ≤ v.size
      → v.ofs ≡ 0
      → Grown s (widened s v) v'
      → Returns
          (move v' (add_size (add_size v'.ofs i) 1) i (sub_size v'.size i) >>= λ v''.
            move v'' v''.ofs 0 i)
          (Opened s i v)
  insert-front_moved v v' i w f h e g =
      let dst = add_size (add_size v'.ofs i) 1 in
      let num = sub_size v'.size i in
      let mid : Vector A = record v' { cells = move_cells v'.cells dst i num } in
      rw
        (
          move-eq s v' (add_size (add_size v'.ofs i) 1) i (sub_size v'.size i) (omega arith)
              (omega arith) (omega arith),
          move-eq s mid v'.ofs 0 i (omega arith) (omega arith) (omega arith),
        )
        (record {
          valid = omega arith;
          small = omega arith;
          one_more = omega arith;
          before = λ k lt.
              let at : 0 + (v'.ofs + k - v'.ofs) ≡ k = omega arith in
              let here : v.ofs + k ≡ k = omega arith in
              ground (arith, ap mid.cells at, ap v.cells here, g.0.same_cells k);
          after = λ k le lt.
              let at : i + (v'.ofs + suc k - add_size (add_size v'.ofs i) 1) ≡ k = omega arith in
              let here : v.ofs + k ≡ k = omega arith in
              ground (arith, ap v'.cells at, ap v.cells here, g.0.same_cells k);
        })

  insert-back_moved :
      (v v' : Vector A) (i : ℕ)
      → IsValid s v
      → Fits s v
      → i ≤ v.size
      → Grown s (counted v) v'
      → Returns
          (move v' (add_size (add_size v'.ofs i) 1) (add_size v'.ofs i) (sub_size v'.size i))
          (Opened s i v)
  insert-back_moved v v' i w f h g =
      rw
        (move-eq s v' (add_size (add_size v'.ofs i) 1) (add_size v'.ofs i) (sub_size v'.size i)
          (omega arith) (omega arith) (omega arith))
        (record {
          valid = omega arith;
          small = omega arith;
          one_more = omega arith;
          before = λ k lt.
              let at : v'.ofs + k ≡ v.ofs + k = omega arith in
              ground (arith, ap v'.cells at, g.0.same_cells (v.ofs + k));
          after = λ k le lt.
              let at : add_size v'.ofs i + (v'.ofs + suc k - add_size (add_size v'.ofs i) 1)
                  ≡ v.ofs + k =
                omega arith in
              ground (arith, ap v'.cells at, g.0.same_cells (v.ofs + k));
        })

  insert-Opened :
      (v : Vector A) (i : ℕ)
      → IsValid s v
      → Fits s v
      → i ≤ v.size
      → Returns
          (if ltb i (add_size v.size 1 / 2)
            then (if ltb 0 v.ofs
                then move
                    (record v { ofs = v.ofs - 1; size = add_size v.size 1 })
                    (v.ofs - 1)
                    (add_size (v.ofs - 1) 1)
                    i
                else (try_grow s (widened s v) >>= λ v'.
                    move v' (add_size (add_size v'.ofs i) 1) i (sub_size v'.size i) >>= λ v''.
                    move v'' v''.ofs 0 i))
            else (try_grow s (counted v) >>= λ v'.
                move v' (add_size (add_size v'.ofs i) 1) (add_size v'.ofs i) (sub_size v'.size i)))
          (Opened s i v)
  insert-Opened v i w f h = elim (Bool-cases (ltb i (add_size v.size 1 / 2))) [
    | inl low ↦ rw low (elim (Bool-cases (ltb 0 v.ofs)) [
      | inl room ↦ rw room (insert-front_room v i w f h (ltb→lt 0 v.ofs room))
      | inr full ↦
          let none_before : v.ofs ≡ 0 = ground arith in
          rw full (
            Returns-bind (Grown s (widened s v)) (Opened s i v) (try_grow s (widened s v)) _
              (grow_front s v w f none_before)
              (λ v' g. insert-front_moved v v' i w f h none_before g))
    ])
    | inr high ↦ rw high (
        Returns-bind (Grown s (counted v)) (Opened s i v) (try_grow s (counted v)) _
          (try_grow-Resized s (counted v) (Fits-ofs-size s v.ofs (add_size v.size 1) f) w.margin
            (omega arith) (omega arith))
          (λ v' g. insert-back_moved v v' i w f h g))
  ]

  -- `name_insert` on a valid vector, at an index up to its size, returns a valid vector and a
  -- pointer to a cell; a store through it inserts the element at that index.
  pub insert-Inserts :
      (v : Vector A) (i : ℕ)
      → IsValid s v
      → Fits s v
      → i ≤ v.size
      → Returns (insert s v i) (Inserts s i v)
  unfolding insert
  insert-Inserts v i w f h = rw in_bounds (
      Returns-bind (Opened s i v) (Inserts s i v) _ _ (insert-Opened v i w f h)
        (λ v' o. Opened-Inserts s i v v' (add_size v'.ofs i) f o h (omega arith)))
    where
      in_bounds : assert_bounds v 1 i ≡ some tt
      in_bounds = ground arith

  -- Past that, `name_insert` stops the process.
  pub insert-out_of_bounds :
      (v : Vector A) (i : ℕ) → Fits s v → IsValid s v → v.size < i → insert s v i ≡ none
  unfolding insert
  insert-out_of_bounds v i f w h = rw out
    where
      out : assert_bounds v 1 i ≡ none
      out = ground arith

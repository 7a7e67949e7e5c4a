-- ===== src/Vector/Erase.antt =====
-- `name_erase`, `name_pop_back` and `name_pop_front` of vector.h.
use htools.Prelude.{
  ℕ, suc, ◌+◌, ◌-◌, ◌/◌, ◌≤◌, ◌<◌, ◌≡◌, refl, sym, ap, ap₂, ◌∙◌, arith, some, ◌>>◌, ◌>>=◌, Returns,
  Returns-map, add_size, sub_size, ltb, leb, Bool-cases, inl, inr,
}
use htools.Prelude.Range.{range_of, range_of_ext}
use htools.Vector.Ops.{
  Vector, Setup, move, move_cells, try_shrink, assert_invariant, assert_bounds, assert_notempty,
  erase, pop_back,
}
use htools.Vector.Invariant.{IsValid, Fits, Resized, try_shrink-Resized}
use htools.Vector.Contents.{contents, erase_at, range_of-erase_at}
use htools.Vector.Push.{move-eq}

module _ {A : Type 0} (s : Setup A) where
  -- The result of a removal at `i`.
  abbrev pub Erases : ℕ → Vector A → Vector A → Type 0
  Erases i v v' = IsValid s v' × (contents v' ≡ erase_at i (contents v))

  -- `v'` is `v` with the cell at index `i` closed.
  pub record Closed (i : ℕ) (v v' : Vector A) : Type 0 where
    pub allocated : v'.ofs + v'.size ≤ v'.capacity
    pub margin : v'.ofs ≤ s.chunk
    pub one_less : v.size ≡ suc v'.size
    pub same_capacity : v'.capacity ≡ v.capacity
    pub before : (k : ℕ) → k < i → v'.cells (v'.ofs + k) ≡ v.cells (v.ofs + k)
    pub after : (k : ℕ) → i ≤ k → k < v'.size → v'.cells (v'.ofs + k) ≡ v.cells (v.ofs + suc k)

  Closed-contents :
      (i : ℕ) (v v' : Vector A)
      → i ≤ v'.size
      → Closed i v v'
      → contents v' ≡ erase_at i (contents v)
  Closed-contents i v v' h c =
      range_of-erase_at v'.cells v.cells v'.ofs v.ofs v'.size i h c.before c.after
      ∙ ap (λ (n : ℕ). erase_at i (range_of v.cells v.ofs n)) (sym c.one_less)

  -- The end of a removal: unused room is given back.
  pub shrink-Erases :
      (i : ℕ) (v v' : Vector A)
      → Fits s v
      → i ≤ v'.size
      → Closed i v v'
      → Returns (try_shrink s v') (Erases i v)
  shrink-Erases i v v' f h c =
      Returns-map (Resized s 0 v') (Erases i v) (try_shrink s v')
        (try_shrink-Resized s v' fits c.margin c.allocated)
        λ v'' r. (
          record { allocated = omega arith; margin = omega arith; tight = r.tight },
          ap₂ (λ (o n : ℕ). range_of v''.cells o n) r.same_ofs r.same_size
              ∙ range_of_ext v''.cells v'.cells v'.ofs v'.ofs v'.size
                  (λ k lt. r.same_cells (v'.ofs + k) (omega arith))
              ∙ Closed-contents i v v' h c,
        )
    where
      fits : Fits s v'
      fits = record {
        chunk_pos = f.chunk_pos;
        chunk_small = f.chunk_small;
        elem_small = f.elem_small;
        capacity_small = omega arith;
      }

  -- `name_pop_back` on a valid vector that is not empty removes the last element.
  pub pop_back-Erases :
      (v : Vector A)
      → IsValid s v
      → Fits s v
      → 0 < v.size
      → Returns (pop_back s v) (Erases (v.size - 1) v)
  unfolding pop_back
  pop_back-Erases v w f h =
      let v1 : Vector A = record v { size = sub_size v.size 1 } in
      rw not_empty (
        shrink-Erases (v.size - 1) v v1 f (omega arith) (record {
          allocated = omega arith;
          margin = omega arith;
          one_less = omega arith;
          same_capacity = omega arith;
          before = λ k lt. refl;
          after = λ k le lt. absurd (omega arith);
        }))
    where
      not_empty : assert_notempty v ≡ some tt
      not_empty = ground arith

  -- The first half of the vector: the elements before `i` move up, and the margin grows, until it
  -- is a whole chunk and everything moves to the front.
  erase-low_margin :
      (v : Vector A) (i : ℕ)
      → IsValid s v
      → Fits s v
      → i < v.size
      → v.ofs + 1 < s.chunk
      → Returns
          (move
              (record v { ofs = add_size v.ofs 1; size = sub_size v.size 1 })
              (add_size v.ofs 1)
              (sub_size (add_size v.ofs 1) 1)
              i
            >>= λ v'. assert_invariant s v' >> some v')
          (Erases i v)
  erase-low_margin v i w f h low =
      let v1 : Vector A = record v { ofs = add_size v.ofs 1; size = sub_size v.size 1 } in
      let src = sub_size (add_size v.ofs 1) 1 in
      let v2 : Vector A = record v1 { cells = move_cells v.cells (add_size v.ofs 1) src i } in
      let checked : assert_invariant s v2 ≡ some tt = ground arith in
      rw
        (
          move-eq s v1 (add_size v.ofs 1) (sub_size (add_size v.ofs 1) 1) i (omega arith)
              (omega arith) (omega arith),
          checked,
        )
        (
          record { allocated = omega arith; margin = omega arith; tight = omega arith },
          Closed-contents i v v2 (omega arith) (record {
            allocated = omega arith;
            margin = omega arith;
            one_less = omega arith;
            same_capacity = omega arith;
            before = λ k lt.
                let at : src + (v2.ofs + k - v2.ofs) ≡ v.ofs + k = omega arith in
                ground (arith, ap v.cells at);
            after = λ k le lt.
                let at : v2.ofs + k ≡ v.ofs + suc k = omega arith in ground (arith, ap v.cells at);
          }),
        )

  erase-low_front :
      (v : Vector A) (i : ℕ)
      → IsValid s v
      → Fits s v
      → i < v.size
      → s.chunk ≤ v.ofs + 1
      → Returns
          (move
              (record v { ofs = add_size v.ofs 1; size = sub_size v.size 1 })
              0
              (sub_size (add_size v.ofs 1) 1)
              i
            >>= λ v'. move v' i (add_size v'.ofs i) (sub_size v'.size i) >>= λ v''.
                try_shrink s (record v'' { ofs = 0 }))
          (Erases i v)
  erase-low_front v i w f h full =
      let v1 : Vector A = record v { ofs = add_size v.ofs 1; size = sub_size v.size 1 } in
      let src = sub_size (add_size v.ofs 1) 1 in
      let v2 : Vector A = record v1 { cells = move_cells v.cells 0 src i } in
      let num = sub_size v2.size i in
      let v3 : Vector A = record v2 { cells = move_cells v2.cells i (add_size v2.ofs i) num } in
      rw
        (
          move-eq s v1 0 (sub_size (add_size v.ofs 1) 1) i (omega arith) (omega arith)
              (omega arith),
          move-eq s v2 i (add_size v2.ofs i) (sub_size v2.size i) (omega arith) (omega arith)
              (omega arith),
        )
        (shrink-Erases i v (record v3 { ofs = 0 }) f (omega arith)
          (record {
            allocated = omega arith;
            margin = omega arith;
            one_less = omega arith;
            same_capacity = omega arith;
            before = λ k lt.
                let at : src + (0 + k - 0) ≡ v.ofs + k = omega arith in
                ground (arith, ap v.cells at);
            after = λ k le lt.
                let at : add_size v2.ofs i + (0 + k - i) ≡ v.ofs + suc k = omega arith in
                let past : i ≤ add_size v2.ofs i + (0 + k - i) = omega arith in
                ground (arith, ap v.cells at);
          }))

  erase-high :
      (v : Vector A) (i : ℕ)
      → IsValid s v
      → Fits s v
      → i < v.size
      → let v1 = record v { size = sub_size v.size 1 } in
        Returns
          (move v1
              (add_size v.ofs i)
              (add_size (add_size v.ofs i) 1)
              (sub_size (sub_size v.size 1) i)
            >>= λ v'. try_shrink s v')
          (Erases i v)
  erase-high v i w f h =
      let v1 : Vector A = record v { size = sub_size v.size 1 } in
      let dst = add_size v.ofs i in
      let src = add_size (add_size v.ofs i) 1 in
      let v2 : Vector A = record v1 { cells = move_cells v.cells dst src (sub_size v1.size i) } in
      rw (move-eq s v1 dst src (sub_size v1.size i) (omega arith) (omega arith) (omega arith)) (
        shrink-Erases i v v2 f (omega arith) (record {
          allocated = omega arith;
          margin = omega arith;
          one_less = omega arith;
          same_capacity = omega arith;
          before = λ k lt. ground arith;
          after = λ k le lt.
              let at : src + (v.ofs + k - dst) ≡ v.ofs + suc k = omega arith in
              ground (arith, ap v.cells at);
        }))

  -- `name_erase` on a valid vector, at an index below its size, removes that element, keeps the
  -- others in order, and leaves the vector valid.
  pub erase-Erases :
      (v : Vector A) (i : ℕ)
      → IsValid s v
      → Fits s v
      → i < v.size
      → Returns (erase s v i) (Erases i v)
  unfolding erase
  erase-Erases v i w f h = rw in_bounds (elim (Bool-cases (ltb i (sub_size v.size 1 / 2))) [
    | inl low ↦ rw low (elim (Bool-cases (leb s.chunk (add_size v.ofs 1))) [
      | inl full ↦ rw full (erase-low_front v i w f h (ground arith))
      | inr room ↦ rw room (erase-low_margin v i w f h (ground arith))
    ])
    | inr high ↦ rw high (erase-high v i w f h)
  ])
    where
      in_bounds : assert_bounds v 0 i ≡ some tt
      in_bounds = ground arith

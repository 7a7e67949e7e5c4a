-- ===== src/Vector/PopFront.antt =====
-- `name_pop_front` of vector.h. It moves the elements to the front of the array, and leaves `ofs`.
use htools.Prelude.{
  ℕ, suc, ◌+◌, ◌-◌, ◌<◌, ◌≡◌, ap, arith, some, Returns, Returns-map, add_size, sub_size, get_elem?,
}
use htools.Prelude.Range.{get_elem?-range_of}
use htools.Vector.Ops.{Vector, Setup, move_cells, try_shrink, assert_notempty, pop_front}
use htools.Vector.Invariant.{IsValid, Fits, Resized, try_shrink-Resized}
use htools.Vector.Contents.{contents}
use htools.Vector.Push.{move-eq}
use htools.Vector.Erase.{Erases, shrink-Erases}

module _ {A : Type 0} (s : Setup A) where
  abbrev moved : Vector A → Vector A
  moved v = record v {
    size = sub_size v.size 1;
    cells = move_cells v.cells 0 (add_size v.ofs 1) (sub_size v.size 1);
  }

  pop_front-eq :
      (v : Vector A) → IsValid s v → Fits s v → 0 < v.size → pop_front s v ≡ try_shrink s (moved v)
  unfolding pop_front
  pop_front-eq v w f h = rw (
    not_empty,
    move-eq s (record v { size = sub_size v.size 1 }) 0 (add_size v.ofs 1) (sub_size v.size 1)
        (omega arith) (omega arith) (omega arith),
  )
    where
      not_empty : assert_notempty v ≡ some tt
      not_empty = ground arith

  -- With no margin, `name_pop_front` on a valid vector that is not empty removes the first element.
  pop_front-Erases :
      (v : Vector A)
      → IsValid s v
      → Fits s v
      → 0 < v.size
      → v.ofs ≡ 0
      → Returns (pop_front s v) (Erases s 0 v)
  pop_front-Erases v w f h e = rw (pop_front-eq v w f h) (
      shrink-Erases s 0 v (moved v) f (omega arith) (record {
        allocated = omega arith;
        margin = omega arith;
        one_less = omega arith;
        same_capacity = omega arith;
        before = λ k lt. absurd (omega arith);
        after = λ k le lt.
            let at : add_size v.ofs 1 + (v.ofs + k - 0) ≡ v.ofs + suc k = omega arith in
            ground (arith, ap v.cells at);
      }))

  -- With a margin of `ofs` cells, `name_pop_front` on a valid vector that is not empty skips
  -- `ofs` more elements: element `k` of the result is element `ofs + 1 + k` of the vector.
  pub pop_front_skips :
      (v : Vector A) (k : ℕ)
      → IsValid s v
      → Fits s v
      → v.ofs + 1 + k < v.size
      → Returns (pop_front s v) (λ v'.
        IsValid s v'
        × (v'.size + 1 ≡ v.size)
        × (get_elem? (contents v') k ≡ get_elem? (contents v) (v.ofs + 1 + k)))
  pop_front_skips v k w f h = rw (pop_front-eq v w f (omega arith)) (
      Returns-map (Resized s 0 (moved v)) _ (try_shrink s (moved v))
        (try_shrink-Resized s (moved v) fits w.margin (omega arith))
        λ v' r. (
          record { allocated = omega arith; margin = omega arith; tight = r.tight },
          omega arith,
          let at : add_size v.ofs 1 + (v'.ofs + k - 0) ≡ v.ofs + (v.ofs + 1 + k) = omega arith in
              ground (
                arith,
                get_elem?-range_of v'.cells v'.ofs v'.size k,
                get_elem?-range_of v.cells v.ofs v.size (v.ofs + 1 + k),
                r.same_cells (v'.ofs + k),
                ap v.cells at,
              ),
        ))
    where
      fits : Fits s (moved v)
      fits = record {
        chunk_pos = f.chunk_pos;
        chunk_small = f.chunk_small;
        elem_small = f.elem_small;
        capacity_small = f.capacity_small;
      }

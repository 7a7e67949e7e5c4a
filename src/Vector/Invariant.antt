-- ===== src/Vector/Invariant.antt =====
-- When a vector is well formed, and what growing and shrinking it does.
use htools.Prelude.{
  ℕ, ◌+◌, ◌^◌, ◌≤◌, ◌<◌, some, min, ltb, leb, if◌then◌else◌, add_size, Bool-cases, inl, inr, ◌≡◌,
  arith, Returns,
}
use htools.Vector.Ops.{Vector, Setup, reserve_, try_grow, try_shrink}

-- The condition that VECTOR_ASSERT_INVARIANT_ checks, in exact arithmetic.
pub record IsValid {A : Type 0} (s : Setup A) (v : Vector A) : Type 0 where
  pub allocated : v.ofs + v.size ≤ v.capacity
  pub margin : v.ofs ≤ s.chunk
  pub tight : v.capacity ≤ v.ofs + v.size + s.chunk

-- Far enough from the limits of `size_t` that nothing wraps and `realloc` is asked for a size
-- that exists: an element below 4 GB, and at most about 2 ^ 31 of them.
pub record Fits {A : Type 0} (s : Setup A) (v : Vector A) : Type 0 where
  pub chunk_pos : 0 < s.chunk
  pub chunk_small : s.chunk < 2 ^ 30
  pub elem_small : s.elem_size < 2 ^ 32
  pub capacity_small : v.capacity < 2 ^ 31

module _ {A : Type 0} (s : Setup A) where
  -- `v'` is `v` with another capacity, and more than `ofs + size` cells allocated if `strict` is 1.
  pub record Resized (strict : ℕ) (v v' : Vector A) : Type 0 where
    pub same_ofs : v'.ofs ≡ v.ofs
    pub same_size : v'.size ≡ v.size
    pub room : v'.ofs + v'.size + strict ≤ v'.capacity
    pub tight : v'.capacity ≤ v'.ofs + v'.size + s.chunk
    pub same_cells : (i : ℕ) → i < min v.capacity v'.capacity → v'.cells i ≡ v.cells i

  reserved : Vector A → ℕ → Vector A
  reserved v n = record v {
    capacity = n;
    cells = λ i. if ltb i (min v.capacity n) then v.cells i else s.fresh i;
  }

  reserve_-eq :
      (v : Vector A) (n : ℕ)
      → v.ofs + v.size ≤ n
      → n ≤ v.ofs + v.size + s.chunk
      → v.ofs ≤ s.chunk
      → n < 2 ^ 32
      → s.chunk < 2 ^ 30
      → s.elem_size < 2 ^ 32
      → reserve_ s v n ≡ some (reserved v n)
  unfolding reserve_ reserved
  reserve_-eq v n a b c d e f = ground arith

  -- `v` may hold one element more than its capacity: a push counts the element first.
  pub try_grow-Resized :
      (v : Vector A)
      → Fits s v
      → v.ofs ≤ s.chunk
      → v.ofs + v.size ≤ v.capacity + s.chunk
      → v.capacity ≤ v.ofs + v.size + s.chunk
      → Returns (try_grow s v) (λ v'. Resized 1 v v' × (v.capacity ≤ v'.capacity))
  unfolding try_grow reserve_ reserved
  try_grow-Resized v f m a t = elim (Bool-cases (leb v.capacity (add_size v.ofs v.size))) [
    | inl full ↦
        rw
          (
            full,
            reserve_-eq v (add_size (add_size v.ofs v.size) s.chunk) (omega arith) (omega arith) m
                (omega arith) f.chunk_small f.elem_small,
          )
          (ground arith)
    | inr room ↦ rw room (ground arith)
  ]

  pub try_shrink-Resized :
      (v : Vector A)
      → Fits s v
      → v.ofs ≤ s.chunk
      → v.ofs + v.size ≤ v.capacity
      → Returns (try_shrink s v) (λ v'. Resized 0 v v')
  unfolding try_shrink reserve_ reserved
  try_shrink-Resized v f m a =
      elim (Bool-cases (ltb (add_size (add_size v.ofs v.size) s.chunk) v.capacity)) [
        | inl wide ↦
            rw
              (
                wide,
                reserve_-eq v (add_size (add_size v.ofs v.size) s.chunk) (omega arith) (omega arith)
                    m (omega arith) f.chunk_small f.elem_small,
              )
              (ground arith)
        | inr tight ↦ rw tight (ground arith)
      ]

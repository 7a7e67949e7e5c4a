-- ===== src/Vector/Push.antt =====
-- `name_push_back`, `name_push_front` and `name_insert` of vector.h.
use htools.Prelude.{
  ℕ, suc, ◌+◌, ◌-◌, ◌≤◌, ◌<◌, ◌≡◌, ap, ◌∙◌, arith, some, ◌^◌, ltb→lt, ◌>>◌, Returns, Returns-bind,
  add_size, sub_size, ltb, Bool-cases, inl, inr,
}
use htools.Prelude.Range.{range_of}
use htools.Vector.Ops.{
  Vector, Setup, store, move, move_cells, try_grow, assert_invariant, push_back, push_front,
}
use htools.Vector.Invariant.{IsValid, Fits, Resized, try_grow-Resized}
use htools.Vector.Contents.{contents, insert_at, range_of-insert_at}

module _ {A : Type 0} (s : Setup A) where
  -- The result of an insertion at `i`: a valid vector, and a pointer into its cells through which
  -- the caller stores the new element.
  abbrev pub Inserts : ℕ → Vector A → Vector A × ℕ → Type 0
  Inserts i v (v', p) =
      IsValid s v'
      × (p < v'.capacity)
      × ((x : A) → contents (store v' p x) ≡ insert_at i x (contents v))

  -- A store into the cell that an insertion has opened.
  pub contents-store :
      (v v' : Vector A) (i p : ℕ)
      → v'.size ≡ v.size + 1
      → i ≤ v.size
      → p ≡ v'.ofs + i
      → ((k : ℕ) → k < i → v'.cells (v'.ofs + k) ≡ v.cells (v.ofs + k))
      → ((k : ℕ) → i ≤ k → k < v.size → v'.cells (v'.ofs + suc k) ≡ v.cells (v.ofs + k))
      → (x : A) → contents (store v' p x) ≡ insert_at i x (contents v)
  contents-store v v' i p n h e before after x =
      ap (range_of (store v' p x).cells v'.ofs) size
      ∙ range_of-insert_at (store v' p x).cells v.cells v'.ofs v.ofs v.size i x h
          (λ k lt. ground (arith, before k lt)) (ground arith)
          (λ k le lt. ground (arith, after k le lt))
    where
      size : v'.size ≡ suc v.size
      size = omega arith

  -- Counting one more element keeps a vector away from the limits.
  pub Fits-ofs-size :
      {v : Vector A} (ofs size : ℕ) → Fits s v → Fits s (record v { ofs = ofs; size = size })
  Fits-ofs-size ofs size f = record {
    chunk_pos = f.chunk_pos;
    chunk_small = f.chunk_small;
    elem_small = f.elem_small;
    capacity_small = f.capacity_small;
  }

  -- `name_push_back` on a valid vector returns a valid vector and a pointer to a cell; a store
  -- through it appends the element.
  pub push_back-Inserts :
      (v : Vector A) → IsValid s v → Fits s v → Returns (push_back s v) (Inserts v.size v)
  unfolding push_back
  push_back-Inserts v w f =
      let v1 : Vector A = record v { size = add_size v.size 1 } in
      Returns-bind _ (Inserts v.size v) (try_grow s v1) _
        (try_grow-Resized s v1 (Fits-ofs-size v.ofs (add_size v.size 1) f) w.margin (omega arith)
          (omega arith))
        λ v' g. (
          record { allocated = omega arith; margin = omega arith; tight = g.0.tight },
          omega arith,
          contents-store v v' v.size _ (omega arith) (omega arith) (omega arith)
              (λ k lt. ap v'.cells (omega arith) ∙ g.0.same_cells (v.ofs + k) (omega arith))
              (λ k le lt. absurd (omega arith)),
        )

  -- What MEMMOVE leaves, where its checks pass.
  pub move-eq :
      (v : Vector A) (dst src num : ℕ)
      → dst + num ≤ v.capacity
      → src + num ≤ v.capacity
      → v.capacity < 2 ^ 32
      → move v dst src num ≡ some (record v { cells = move_cells v.cells dst src num })
  unfolding move
  move-eq v dst src num a b c = ground arith

  -- `v'` is `v` with a cell opened at index `i`.
  pub record Opened (i : ℕ) (v v' : Vector A) : Type 0 where
    pub valid : IsValid s v'
    pub small : v'.capacity < 2 ^ 32
    pub one_more : v'.size ≡ v.size + 1
    pub before : (k : ℕ) → k < i → v'.cells (v'.ofs + k) ≡ v.cells (v.ofs + k)
    pub after : (k : ℕ) → i ≤ k → k < v.size → v'.cells (v'.ofs + suc k) ≡ v.cells (v.ofs + k)

  -- The end of `name_push_front` and `name_insert`: the last check, and the pointer.
  pub Opened-Inserts :
      (i : ℕ) (v v' : Vector A) (p : ℕ)
      → Fits s v
      → Opened i v v'
      → i ≤ v.size
      → p ≡ v'.ofs + i
      → Returns (assert_invariant s v' >> some (v', p)) (Inserts i v)
  Opened-Inserts i v v' p f o h e =
      rw checked (o.valid, omega arith, contents-store v v' i p o.one_more h e o.before o.after)
    where
      checked : assert_invariant s v' ≡ some tt
      checked = ground arith

  -- An array whose elements stand at the front, grown to make a margin before them.
  abbrev pub widened : Vector A → Vector A
  widened v = record v { ofs = sub_size s.chunk 1; size = add_size v.size 1 }

  abbrev pub Grown : Vector A → Vector A → Type 0
  Grown v v' = Resized s 1 v v' × (v.capacity ≤ v'.capacity)

  pub grow_front :
      (v : Vector A)
      → IsValid s v
      → Fits s v
      → v.ofs ≡ 0
      → Returns (try_grow s (widened v)) (Grown (widened v))
  grow_front v w f e =
      try_grow-Resized s (widened v) (Fits-ofs-size (sub_size s.chunk 1) (add_size v.size 1) f)
        (omega arith) (omega arith) (omega arith)

  push_front-moved :
      (v v' : Vector A)
      → IsValid s v
      → Fits s v
      → v.ofs ≡ 0
      → Grown (widened v) v'
      → Returns (move v' (add_size v'.ofs 1) 0 (sub_size v'.size 1)) (Opened 0 v)
  push_front-moved v v' w f e g =
      rw
        (move-eq v' (add_size v'.ofs 1) 0 (sub_size v'.size 1) (omega arith) (omega arith)
          (omega arith))
        (record {
          valid = omega arith;
          small = omega arith;
          one_more = omega arith;
          before = λ k lt. absurd (omega arith);
          after = λ k le lt.
              let at : v'.cells k ≡ v.cells k = g.0.same_cells k (omega arith) in
              let there : 0 + (v'.ofs + suc k - add_size v'.ofs 1) ≡ k = omega arith in
              let here : v.ofs + k ≡ k = omega arith in
              ground (arith, at, ap v'.cells there, ap v.cells here);
        })

  -- `name_push_front` on a valid vector returns a valid vector and a pointer to a cell; a store
  -- through it puts the element before all others.
  pub push_front-Inserts :
      (v : Vector A) → IsValid s v → Fits s v → Returns (push_front s v) (Inserts 0 v)
  unfolding push_front
  push_front-Inserts v w f = elim (Bool-cases (ltb 0 v.ofs)) [
    | inl room ↦
        let v' : Vector A = record v { ofs = v.ofs - 1; size = add_size v.size 1 } in
        let some_room : 0 < v.ofs = ltb→lt 0 v.ofs room in
        rw room (
          Opened-Inserts 0 v v' (v.ofs - 1) f
            (record {
              valid = omega arith;
              small = omega arith;
              one_more = omega arith;
              before = λ k lt. absurd (omega arith);
              after = λ k le lt. ap v.cells (omega arith);
            })
            (omega arith) (omega arith))
    | inr full ↦
        let none_before : v.ofs ≡ 0 = ground arith in
        rw full (
          Returns-bind (Opened 0 v) (Inserts 0 v) _ _
            (Returns-bind (Grown (widened v)) (Opened 0 v) (try_grow s (widened v)) _
              (grow_front v w f none_before) (λ v' g. push_front-moved v v' w f none_before g))
            (λ v' o. Opened-Inserts 0 v v' v'.ofs f o (omega arith) (omega arith)))
  ]

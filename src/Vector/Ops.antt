-- ===== src/Vector/Ops.antt =====
-- hutils/include/hutils/vector.h: the state of a vector, and its operations as the macros define them.
use htools.Prelude.{
  ℕ, ◌+◌, ◌-◌, ◌/◌, ◌^◌, Option, none, some, ◌&&◌, ◌||◌, min, ltb, leb, ◌==◌, if◌then◌else◌,
  add_size, sub_size, ◌>>=◌, ◌>>◌, guard, not,
}

-- VECTOR_HEAD. `cells i` is `data[i]`; only the cells below `capacity` are allocated.
pub record Vector {ℓ} (A : Type ℓ) : Type ℓ where
  pub ofs : ℕ
  pub size : ℕ
  pub capacity : ℕ
  pub cells : ℕ → A

-- What the macros and the allocator fix: `chunk`, `sizeof *data`, and the contents of cells that
-- `realloc` adds (any) and that `calloc` returns (zero).
pub record Setup {ℓ} (A : Type ℓ) : Type ℓ where
  pub chunk : ℕ
  pub elem_size : ℕ
  pub fresh : ℕ → A
  pub zeroed : A

module _ {ℓ} {A : Type ℓ} where
  -- `memmove` of `num` elements inside `data`.
  abbrev pub move_cells : (ℕ → A) → ℕ → ℕ → ℕ → ℕ → A
  move_cells d dst src num i = if leb dst i && ltb i (dst + num) then d (src + (i - dst)) else d i

  -- What the caller of `name_at` and its kin does with the pointer.
  abbrev pub store : Vector A → ℕ → A → Vector A
  store v p x = record v { cells = λ i. if i == p then x else v.cells i }

  -- The MEMMOVE macro, with its checks. Those against 0 always hold.
  unfoldable pub move : Vector A → ℕ → ℕ → ℕ → Option (Vector A)
  move v dst src num = do
    guard (leb num v.capacity)
    guard (leb (add_size dst num) v.capacity)
    guard (leb (add_size src num) v.capacity)
    some (record v { cells = move_cells v.cells dst src num })

  -- VECTOR_ASSERT_BOUNDS_
  abbrev pub assert_bounds : Vector A → ℕ → ℕ → Option (Unit {0})
  assert_bounds v add i = guard (not (leb (add_size v.size add) i))

  -- VECTOR_ASSERT_NOTEMPTY_
  abbrev pub assert_notempty : Vector A → Option (Unit {0})
  assert_notempty v = guard (not (v.size == 0))

module _ {ℓ} {A : Type ℓ} (s : Setup A) where
  -- VECTOR_ASSERT_INVARIANT_
  abbrev pub assert_invariant : Vector A → Option (Unit {0})
  assert_invariant v = do
    guard (leb (add_size v.ofs v.size) v.capacity)
    guard (leb v.ofs s.chunk)
    guard (leb v.capacity (add_size (add_size v.ofs v.size) s.chunk))

  -- REALLOCARRAY: the overflow check, then `realloc`. Old cells keep their contents.
  unfoldable pub realloc_array : Vector A → ℕ → Option (ℕ → A)
  realloc_array v n =
      if (leb (2 ^ 32) n || leb (2 ^ 32) s.elem_size)
        && (ltb 0 n && ltb ((2 ^ 64 - 1) / n) s.elem_size)
      then none
      else some (λ i. if ltb i (min v.capacity n) then v.cells i else s.fresh i)

  unfoldable pub reserve_ : Vector A → ℕ → Option (Vector A)
  unfolding realloc_array
  reserve_ v n = do
    cells ← realloc_array v n
    let size = (if ltb n (add_size v.ofs v.size) then sub_size n v.ofs else v.size)
    let v' : Vector A = record { ofs = v.ofs; size = size; capacity = n; cells = cells }
    assert_invariant v'
    some v'

  unfoldable pub try_grow : Vector A → Option (Vector A)
  unfolding reserve_
  try_grow v =
      if leb v.capacity (add_size v.ofs v.size)
      then reserve_ v (add_size (add_size v.ofs v.size) s.chunk)
      else some v

  unfoldable pub try_shrink : Vector A → Option (Vector A)
  unfolding reserve_
  try_shrink v =
      if ltb (add_size (add_size v.ofs v.size) s.chunk) v.capacity
      then reserve_ v (add_size (add_size v.ofs v.size) s.chunk)
      else some v

  unfoldable pub init : ℕ → Option (Vector A)
  init n = do
    let v : Vector A = record { ofs = 0; size = n; capacity = n; cells = λ _. s.zeroed }
    assert_invariant v
    some v

  -- `name_at`, `name_atc`, `name_front` and `name_back` return a pointer to a cell.
  unfoldable pub at : Vector A → ℕ → Option ℕ
  at v i = do assert_bounds v 0 i; some (add_size v.ofs i)

  unfoldable pub front : Vector A → Option ℕ
  front v = do assert_notempty v; some v.ofs

  unfoldable pub back : Vector A → Option ℕ
  back v = do assert_notempty v; some (sub_size (add_size v.ofs v.size) 1)

  unfoldable pub clean : Vector A → Vector A
  clean v = record { ofs = 0; size = 0; capacity = 0; cells = s.fresh }

  unfoldable pub push_back : Vector A → Option (Vector A × ℕ)
  unfolding try_grow
  push_back v = do
    v' ← try_grow (record v { size = add_size v.size 1 })
    some (v', sub_size (add_size v'.ofs v'.size) 1)

  unfoldable pub push_front : Vector A → Option (Vector A × ℕ)
  unfolding try_grow move
  push_front v = do
    let size = add_size v.size 1
    v' ← if ltb 0 v.ofs then some (record v { ofs = v.ofs - 1; size = size }) else (do
      v' ← try_grow (record v { ofs = sub_size s.chunk 1; size = size })
      move v' (add_size v'.ofs 1) 0 (sub_size v'.size 1))
    assert_invariant v'
    some (v', v'.ofs)

  unfoldable pub insert : Vector A → ℕ → Option (Vector A × ℕ)
  unfolding try_grow move
  insert v i = do
    assert_bounds v 1 i
    let size = add_size v.size 1
    v' ←
        if ltb i (size / 2)
        then (if ltb 0 v.ofs
            then move (record v { ofs = v.ofs - 1; size = size }) (v.ofs - 1)
                (add_size (v.ofs - 1) 1) i
            else (do
              v' ← try_grow (record v { ofs = sub_size s.chunk 1; size = size })
              v'' ← move v' (add_size (add_size v'.ofs i) 1) i (sub_size v'.size i)
              move v'' v''.ofs 0 i))
        else (do
          v' ← try_grow (record v { size = size })
          move v' (add_size (add_size v'.ofs i) 1) (add_size v'.ofs i) (sub_size v'.size i))
    assert_invariant v'
    some (v', add_size v'.ofs i)

  unfoldable pub erase : Vector A → ℕ → Option (Vector A)
  unfolding try_shrink move
  erase v i = do
    assert_bounds v 0 i
    let size = sub_size v.size 1
    if ltb i (size / 2)
        then (let ofs = add_size v.ofs 1 in
            if leb s.chunk ofs
            then (do
              v' ← move (record v { ofs = ofs; size = size }) 0 (sub_size ofs 1) i
              v'' ← move v' i (add_size v'.ofs i) (sub_size v'.size i)
              try_shrink (record v'' { ofs = 0 }))
            else (do
              v' ← move (record v { ofs = ofs; size = size }) ofs (sub_size ofs 1) i
              assert_invariant v'
              some v'))
        else (do
          let v0 : Vector A = record v { size = size }
          v' ← move v0 (add_size v0.ofs i) (add_size (add_size v0.ofs i) 1) (sub_size v0.size i)
          try_shrink v')

  unfoldable pub pop_back : Vector A → Option (Vector A)
  unfolding try_shrink
  pop_back v = do assert_notempty v; try_shrink (record v { size = sub_size v.size 1 })

  unfoldable pub pop_front : Vector A → Option (Vector A)
  unfolding try_shrink move
  pop_front v = do
    assert_notempty v
    let size = sub_size v.size 1
    v' ← move (record v { size = size }) 0 (add_size v.ofs 1) size
    try_shrink v'

  unfoldable pub reserve : Vector A → ℕ → Option (Vector A)
  unfolding reserve_
  reserve v n = reserve_ v n

  unfoldable pub resize : Vector A → ℕ → Option (Vector A)
  unfolding reserve_
  resize v n = reserve_ v (add_size v.ofs n)

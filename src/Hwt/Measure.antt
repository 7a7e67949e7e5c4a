-- ===== src/Hwt/Measure.antt =====
-- hwt: the minimum of a grid, by its rows and its columns.
use htools.Prelude.{
  ℕ, zero, suc, ◌+◌, ◌*◌, ◌<◌, true, false, ltb, ◌==◌, if◌then◌else◌, ◌≡◌, refl, sym, ap, ap₂, ◌∙◌,
  inl, inr, Bool-cases, arith, ==_iff,
}
use htools.Hwt.Base.{Floats, Rect, Size, maximum}
use htools.Hwt.Ops.{
  Widget, grid, Grid, Widgets, end, next, is_null, put, next_row, next_col, total, pull_min,
  pull_children,
}
use htools.Hwt.Cells.{nth, same_place}

abbrev pub count : {F : Type 0} → Widgets F → ℕ
count end = 0
count (next w ws) = suc (count ws)

module _ {F : Type 0} (floats : Floats F) (junk : ℕ → ℕ → Size F) (n : ℕ) (all : Widgets F) where
  abbrev pub place : ℕ → ℕ → Widget F
  place row col = nth all (row * n + col)

  abbrev pub size_at : ℕ → ℕ → Size F
  size_at row col = (pull_min floats junk (place row col) (junk row col)).1

  -- The width of the widest child among the first rows of a column, and the height of the highest
  -- child among the first columns of a row.
  unfoldable pub widest : ℕ → ℕ → F
  widest col zero = floats.zero_
  widest col (suc row) =
      if is_null (place row col)
      then widest col row
      else maximum floats (widest col row) (size_at row col).width

  unfoldable pub highest : ℕ → ℕ → F
  highest row zero = floats.zero_
  highest row (suc col) =
      if is_null (place row col)
      then highest row col
      else maximum floats (highest row col) (size_at row col).height

  -- How far the loop before a place came in each column and each row.
  abbrev col_done : ℕ → ℕ → ℕ → ℕ
  col_done row col c = if ltb c col then suc row else row

  abbrev row_done : ℕ → ℕ → ℕ → ℕ
  row_done row col r = if ltb r row then n else if r == row then col else 0

  module _ (row col : ℕ) (w : Widget F) (here : w ≡ place row col) where
    abbrev widened : (ℕ → F) → ℕ → F
    widened col_min =
        if is_null w
        then col_min
        else put col_min col
            (maximum floats (col_min col) (pull_min floats junk w (junk row col)).1.width)

    widened-other : (col_min : ℕ → F) (c : ℕ) → (c == col) ≡ false → widened col_min c ≡ col_min c
    widened-other col_min c e = elim (Bool-cases (is_null w)) [
      | inl gone ↦ rw gone refl
      | inr there ↦ rw (there, e) refl
    ]

    widened-here :
        (col_min : ℕ → F)
        → col_min col ≡ widest col row
        → widened col_min col ≡ widest col (suc row)
    unfolding widest
    widened-here col_min e =
        let self : (col == col) ≡ true = ground arith in
        elim (Bool-cases (is_null (place row col))) [
          | inl gone ↦ rw (here, gone) e
          | inr there ↦ rw (here, there, self, e) refl
        ]

    abbrev heightened : (ℕ → F) → ℕ → F
    heightened row_min =
        if is_null w
        then row_min
        else put row_min row
            (maximum floats (row_min row) (pull_min floats junk w (junk row col)).1.height)

    heightened-other :
        (row_min : ℕ → F) (r : ℕ) → (r == row) ≡ false → heightened row_min r ≡ row_min r
    heightened-other row_min r e = elim (Bool-cases (is_null w)) [
      | inl gone ↦ rw gone refl
      | inr there ↦ rw (there, e) refl
    ]

    heightened-here :
        (row_min : ℕ → F)
        → row_min row ≡ highest row col
        → heightened row_min row ≡ highest row (suc col)
    unfolding highest
    heightened-here row_min e =
        let self : (row == row) ≡ true = ground arith in
        elim (Bool-cases (is_null (place row col))) [
          | inl gone ↦ rw (here, gone) e
          | inr there ↦ rw (here, there, self, e) refl
        ]

  -- What the loop knows before a place.
  abbrev Cols : ℕ → ℕ → (ℕ → F) → Type 0
  Cols row col col_min = (c : ℕ) → c < n → col_min c ≡ widest c (col_done row col c)

  abbrev Rows : ℕ → ℕ → (ℕ → F) → Type 0
  Rows row col row_min = (r : ℕ) → row_min r ≡ highest r (row_done row col r)

  module _ (row col : ℕ) (w : Widget F) (here : w ≡ place row col) (lt : col < n) where
    Cols-next :
        (col_min : ℕ → F)
        → Cols row col col_min
        → Cols (next_row n row col) (next_col n col) (widened row col w here col_min)
    Cols-next col_min h c less = elim (Bool-cases (c == col)) [
      | inl self ↦
          let it : c ≡ col = (==_iff c col).0 self in
          let before : col_min col ≡ widest col row = h col lt ∙ ap (widest col) (ground arith) in
          let after : suc row ≡ col_done (next_row n row col) (next_col n col) c = ground arith in
          ap (widened row col w here col_min) it
          ∙ widened-here row col w here col_min before
          ∙ ap₂ (λ (i j : ℕ). widest i j) (sym it) after
      | inr other ↦
          let same : col_done row col c ≡ col_done (next_row n row col) (next_col n col) c =
            ground arith in
          widened-other row col w here col_min c other ∙ h c less ∙ ap (widest c) same
    ]

    Rows-next :
        (row_min : ℕ → F)
        → Rows row col row_min
        → Rows (next_row n row col) (next_col n col) (heightened row col w here row_min)
    Rows-next row_min h r = elim (Bool-cases (r == row)) [
      | inl self ↦
          let it : r ≡ row = (==_iff r row).0 self in
          let before : row_min row ≡ highest row col = h row ∙ ap (highest row) (ground arith) in
          let after : suc col ≡ row_done (next_row n row col) (next_col n col) r = ground arith in
          ap (heightened row col w here row_min) it
          ∙ heightened-here row col w here row_min before
          ∙ ap₂ (λ (i j : ℕ). highest i j) (sym it) after
      | inr other ↦
          let same : row_done row col r ≡ row_done (next_row n row col) (next_col n col) r =
            ground arith in
          heightened-other row col w here row_min r other ∙ h r ∙ ap (highest r) same
    ]

  next-place : (row col : ℕ) → next_row n row col * n + next_col n col ≡ row * n + col + 1
  next-place row col = elim (Bool-cases (col + 1 == n)) [
    | inl last ↦ let it : col + 1 ≡ n = (==_iff (col + 1) n).0 last in rw last (omega arith)
    | inr more ↦ rw more (omega arith)
  ]

  children-Measures :
      (rows : ℕ) (ws : Widgets F) (row col : ℕ) (row_min col_min : ℕ → F)
      → col < n
      → ((i : ℕ) → nth ws i ≡ nth all (row * n + col + i))
      → row * n + col + count ws ≡ rows * n
      → Rows row col row_min
      → Cols row col col_min
      → Rows rows 0 (pull_children floats junk n ws row col row_min col_min).1
        × Cols rows 0 (pull_children floats junk n ws row col row_min col_min).2
  unfolding pull_children pull_min
  children-Measures rows end row col row_min col_min lt same size h k =
      let (p, q) = same_place n row col rows 0 lt (omega arith) (omega arith) in
      (
        (λ r.
            let same : row_done row col r ≡ row_done rows 0 r = ground arith in
            h r ∙ ap (highest r) same),
        (λ c less.
            let same : col_done row col c ≡ col_done rows 0 c = ground arith in
            k c less ∙ ap (widest c) same),
      )
  children-Measures rows (next w ws) row col row_min col_min lt same size h k =
      let at : row * n + col + 0 ≡ row * n + col = omega arith in
      let here : w ≡ place row col = same 0 ∙ ap (nth all) at in
      children-Measures rows ws (next_row n row col) (next_col n col)
        (heightened row col w here row_min) (widened row col w here col_min) (ground arith)
        (λ i. same (suc i) ∙ ap (nth all) (omega (arith, next-place row col)))
        (omega (arith, next-place row col)) (Rows-next row col w here lt row_min h)
        (Cols-next row col w here lt col_min k)

module _ {F : Type 0} (floats : Floats F) where
  total-cong :
      (a b : ℕ → F) (n : ℕ) → ((i : ℕ) → i < n → a i ≡ b i) → total floats a n ≡ total floats b n
  unfolding total
  total-cong a b zero h = refl
  total-cong a b (suc n) h =
      ap₂ floats.add (total-cong a b n (λ i lt. h i (omega arith))) (h n (omega arith))

  -- What `pull_min` finds out about a grid.
  pub record Measured (junk : ℕ → ℕ → Size F) (r : Rect F) (g : Grid F) (ws : Widgets F)
      (q : Widget F × Size F) : Type 0 where
    pub grid' : Grid F
    pub children' : Widgets F
    pub same : q.0 ≡ grid r grid' children'
    pub row_num : grid'.row_num ≡ g.row_num
    pub col_num : grid'.col_num ≡ g.col_num
    pub col_min :
        (c : ℕ) → c < g.col_num → grid'.col_min c ≡ widest floats junk g.col_num ws c g.row_num
    pub row_min :
        (i : ℕ) → i < g.row_num → grid'.row_min i ≡ highest floats junk g.col_num ws i g.col_num
    pub width :
        grid'.min.width ≡ total floats (λ c. widest floats junk g.col_num ws c g.row_num) g.col_num
    pub height :
        grid'.min.height
        ≡ total floats (λ i. highest floats junk g.col_num ws i g.col_num) g.row_num
    pub min : q.1 ≡ grid'.min

  -- For any grid that has a column and a child, or a null pointer, for each of its cells, `pull_min`
  -- finds for each column the width of its widest child and for each row the height of its highest
  -- child, 0 where there is none, and returns the sums of these as the minimum of the grid, which it also
  -- keeps for `push_rect`.
  pub pull_min-Measured :
      (junk : ℕ → ℕ → Size F) (r : Rect F) (g : Grid F) (ws : Widgets F) (min : Size F)
      → 0 < g.col_num
      → count ws ≡ g.row_num * g.col_num
      → Measured junk r g ws (pull_min floats junk (grid r g ws) min)
  unfolding pull_min pull_children highest widest
  pull_min-Measured junk r g ws min pos size =
      let (h, k) =
        children-Measures floats junk g.col_num ws g.row_num ws 0 0 (λ _. floats.zero_)
          (λ _. floats.zero_) pos (λ i. ap (nth ws) (omega arith)) (omega (arith, size))
          (λ i. none_high i) (λ c lt. ap (widest floats junk g.col_num ws c) (none_wide c 0)) in
      let rows = λ (i : ℕ) (lt : i < g.row_num).
        h i ∙ ap (highest floats junk g.col_num ws i) (ground arith) in
      let cols = λ (c : ℕ) (lt : c < g.col_num).
        k c lt ∙ ap (widest floats junk g.col_num ws c) (sym (none_wide c g.row_num)) in
      record {
        grid' = _;
        children' = _;
        same = refl;
        row_num = refl;
        col_num = refl;
        col_min = cols;
        row_min = rows;
        width = total-cong _ _ g.col_num cols;
        height = total-cong _ _ g.row_num rows;
        min = refl;
      }
    where
      none_wide : (c m : ℕ) → m ≡ (if ltb c 0 then suc m else m)
      none_wide c m = ground arith

      none_high :
          (i : ℕ)
          → floats.zero_
            ≡ highest floats junk g.col_num ws i
                (if ltb i 0 then g.col_num else if i == 0 then 0 else 0)
      none_high i =
          let none_ : 0 ≡ (if ltb i 0 then g.col_num else if i == 0 then 0 else 0) = ground arith in
          ap (highest floats junk g.col_num ws i) none_

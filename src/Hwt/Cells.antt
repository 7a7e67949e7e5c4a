-- ===== src/Hwt/Cells.antt =====
-- hwt: where a grid puts its children.
use htools.Prelude.{ℕ, zero, suc, ◌+◌, ◌*◌, ◌<◌, ◌≡◌, refl, ap, arith}
use htools.Hwt.Base.{Floats, Rect}
use htools.Hwt.Ops.{Widget, null, button, label, panel, grid, Grid, Widgets, end, next, fill}

-- The child at an index.
abbrev pub nth : {F : Type 0} → Widgets F → ℕ → Widget F
nth end i = null
nth (next w ws) zero = w
nth (next w ws) (suc i) = nth ws i

-- The child of a grid at an index.
abbrev pub child : {F : Type 0} → Widget F → ℕ → Widget F
child null i = null
child (button r c w) i = null
child (grid r g ws) i = nth ws i
child (label r t) i = null
child (panel r w) i = null

-- A place in a grid is one row and one column.
pub same_place :
    (n row col row' col' : ℕ)
    → col < n
    → col' < n
    → row * n + col ≡ row' * n + col'
    → (row ≡ row') × (col ≡ col')
same_place n zero col zero col' h k e = (refl, omega (arith, e))
same_place n zero col (suc row') col' h k e = absurd (omega arith)
same_place n (suc row) col zero col' h k e = absurd (omega arith)
same_place n (suc row) col (suc row') col' h k e =
    let (r, c) = same_place n row col row' col' h k (omega arith) in (ap suc r, c)

module _ {F : Type 0} (floats : Floats F) (r : Rect F) (g : Grid F) where
  -- The left edge of a column, and the top edge of a row.
  unfoldable pub left : ℕ → F
  left zero = r.x
  left (suc col) = floats.add (left col) (floats.add (g.col_min col) (fill floats r g).width)

  unfoldable pub top : ℕ → F
  top zero = r.y
  top (suc row) = floats.add (top row) (floats.add (g.row_min row) (fill floats r g).height)

  abbrev pub cell : ℕ → ℕ → Rect F
  cell row col = record {
    x = left col;
    y = top row;
    width = floats.add (g.col_min col) (fill floats r g).width;
    height = floats.add (g.row_min row) (fill floats r g).height;
  }

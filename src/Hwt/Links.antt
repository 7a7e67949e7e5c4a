-- ===== src/Hwt/Links.antt =====
-- The memory of widgets in hwt/src/hwt.c: pointers to widgets, the link of a widget to the pointer
-- that it is assigned to, and the functions that assign and free. The result `none` is an abort or a
-- read of memory that is not there.
use htools.Prelude.{
  ℕ, zero, suc, ◌+◌, ◌*◌, Option, none, some, Bool, true, false, leb, ◌==◌, if◌then◌else◌, ◌&&◌,
  ◌||◌, ◌>>=◌, List, [],
}

-- Where a pointer to a widget is: `root` of `struct HWT`, a child of a widget, or a variable.
pub data Slot : Type 0 where
  root_slot : Slot
  child_slot : ℕ → ℕ → Slot
  variable : ℕ → Slot

abbrev pub same_slot : Slot → Slot → Bool
same_slot root_slot root_slot = true
same_slot root_slot (child_slot w i) = false
same_slot root_slot (variable x) = false
same_slot (child_slot w i) root_slot = false
same_slot (child_slot w i) (child_slot v j) = w == v && i == j
same_slot (child_slot w i) (variable x) = false
same_slot (variable x) root_slot = false
same_slot (variable x) (child_slot v j) = false
same_slot (variable x) (variable y) = x == y

pub data Kind : Type 0 where
  button_kind panel_kind label_kind : Kind
  grid_kind : ℕ → ℕ → Kind

-- How many pointers to children a widget has.
abbrev pub child_num : Kind → ℕ
child_num button_kind = 1
child_num panel_kind = 1
child_num label_kind = 0
child_num (grid_kind row_num col_num) = row_num * col_num

-- `struct HWTWidget`.
pub record Cell : Type 0 where
  pub kind : Kind
  pub parent : Option Slot

-- The widgets that are allocated, and the pointers to them.
pub record Heap : Type 0 where
  pub cells : ℕ → Option Cell
  pub pointer : Slot → Option ℕ

abbrev pub set_pointer : Slot → Option ℕ → Heap → Heap
set_pointer s w h = record {
  cells = h.cells;
  pointer = λ t. if same_slot t s then w else h.pointer t;
}

abbrev pub set_cell : ℕ → Option Cell → Heap → Heap
set_cell w c h = record { cells = λ v. if v == w then c else h.cells v; pointer = h.pointer }

abbrev pub is_some : {A : Type 0} → Option A → Bool
is_some none = false
is_some (some a) = true

abbrev pub link : Slot → Slot → ℕ → Cell → Heap → Option Heap
link a_parent a_child w c h =
    if is_some c.parent
    then none
    else some (
        set_pointer a_child none (
          set_cell w (some (record { kind = c.kind; parent = some a_parent }))
            (set_pointer a_parent (some w) h)))

-- `none` for the second pointer is a null pointer.
unfoldable pub assign : Slot → Option Slot → Heap → Option Heap
assign a_parent none h = if is_some (h.pointer a_parent) then none else some h
assign a_parent (some a_child) h =
    if is_some (h.pointer a_parent) then none else elim (h.pointer a_child) [
      | none ↦ some h
      | some w ↦ h.cells w >>= (λ c. link a_parent a_child w c h)
    ]

-- The parameter `a_root` is the variable 0.
unfoldable pub set_root : Option ℕ → Heap → Option Heap
set_root w h = assign root_slot (some (variable 0)) (set_pointer (variable 0) w h)

unfoldable pub button_set_child : ℕ → Option Slot → Heap → Option Heap
button_set_child w child h = assign (child_slot w 0) child h

unfoldable pub panel_set_child : ℕ → Option Slot → Heap → Option Heap
panel_set_child w child h = assign (child_slot w 0) child h

abbrev pub in_grid : ℕ → ℕ → ℕ → Option Slot → Heap → Kind → Option Heap
in_grid w row col child h button_kind = none
in_grid w row col child h panel_kind = none
in_grid w row col child h label_kind = none
in_grid w row col child h (grid_kind row_num col_num) =
    if leb row_num row || leb col_num col
    then none
    else assign (child_slot w (col_num * row + col)) child h

unfoldable pub grid_set_child : ℕ → ℕ → ℕ → Option Slot → Heap → Option Heap
grid_set_child w row col child h = h.cells w >>= (λ c. in_grid w row col child h c.kind)

-- `*widget->parent = NULL; widget->parent = NULL`, if the widget has a parent.
abbrev pub unlink : Option Slot → ℕ → Cell → Heap → Heap
unlink none w c h = h
unlink (some p) w c h =
    set_cell w (some (record { kind = c.kind; parent = none })) (set_pointer p none h)

abbrev pub free_cell : Option ℕ → Heap → Heap
free_cell none h = h
free_cell (some w) h = set_cell w none h

-- `FREE` of a pointer.
abbrev pub release : Slot → Heap → Heap
release s h = free_cell (h.pointer s) (set_pointer s none h)

module _ (free : Slot → Heap → Option Heap) where
  -- The `destroy` of each widget: it frees its children, from the child `i` on.
  unfoldable pub destroy : ℕ → ℕ → ℕ → Heap → Option Heap
  destroy w i zero h = some h
  destroy w i (suc n) h = do h' ← free (child_slot w i) h; destroy w (i + 1) n h'

unfoldable pub widget_free : ℕ → Slot → Heap → Option Heap
widget_free zero s h = none
widget_free (suc fuel) s h =
    let to_widget = λ (w : ℕ). (do
      c ← h.cells w
      h' ← destroy (widget_free fuel) w 0 (child_num c.kind) (unlink c.parent w c h)
      some (release s h')) in
    elim (h.pointer s) [ none ↦ some h | some w ↦ to_widget w ]

-- `hwt_free` with the types of widgets, as addresses.
unfoldable pub hwt_free : ℕ → Heap → List ℕ → Option (Heap × List ℕ)
hwt_free fuel h types = do h' ← widget_free fuel root_slot h; some (h', [])

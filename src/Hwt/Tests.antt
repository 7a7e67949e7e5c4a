-- ===== src/Hwt/Tests.antt =====
-- Runs of hwt on small trees, with whole numbers for floats, and the theorems at these trees.
use htools.Prelude.{
  ◌⊎◌, ℕ, ◌+◌, ◌-◌, ◌/◌, ltb, leb, ◌==◌, if◌then◌else◌, Option, none, some, ◌≡◌, refl, sym, ap, ap₂,
  ◌∙◌, true, false, Bool-cases, inl, inr, ==_iff, ltb→lt, arith, [], ◌∷◌, Returns,
}
use mathlib.Core.Path.{subst}
use htools.Hwt.Base.{Floats, Rect, Size, pointer_up, resize}
use htools.Hwt.Ops.{
  Widget, null, button, grid, label, Grid, Widgets, end, next, total, do_callback, respond,
  pull_min, push_rect, send_event,
}
use htools.Hwt.Route.{buttons, IsFirst, send_event-IsFirst}
use htools.Hwt.Below.{has_parent, Reached}
use htools.Hwt.Cells.{child}
use htools.Hwt.Measure.{Measured, pull_min-Measured}
use htools.Hwt.Links.{
  root_slot, child_slot, variable, panel_kind, label_kind, Cell, Heap, is_some, assign, hwt_free,
}
use htools.Hwt.Linked.{Linked, kind_of}
use htools.Hwt.Unlink.{IsBelow, parented, Frees}
use htools.Hwt.Leaks.{hwt_free-Frees}
use htools.Hwt.Assign.{Assigned, assign-Assigned}
use htools.Hwt.Registry.{Statics, hwt_create, Creates, Refuses, hwt_create-latest}

abbrev whole : Floats ℕ
whole = record {
  zero_ = 0;
  add = ◌+◌;
  sub = ◌-◌;
  div = ◌/◌;
  of_size = λ n. n;
  less = ltb;
  less_eq = leb;
}

abbrev junk : ℕ → ℕ → Size ℕ
junk row col = record { width = 3; height = 2 }

abbrev rect : ℕ → ℕ → ℕ → ℕ → Rect ℕ
rect x y w h = record { x = x; y = y; width = w; height = h }

abbrev two_columns : Grid ℕ
two_columns = record {
  row_num = 1;
  col_num = 2;
  row_min = λ _. 0;
  col_min = λ _. 0;
  min = record { width = 0; height = 0 };
}

-- A label beside a button with the callback 7.
abbrev children : Widgets ℕ
children = next (label (rect 0 0 0 0) []) (next (button (rect 0 0 0 0) (some 7) null) end)

abbrev root : Widget ℕ
root = grid (rect 0 0 0 0) two_columns children

-- The button of a window of 13 by 10.
abbrev laid_out : Widget ℕ
laid_out = (send_event whole junk (resize (record { width = 13; height = 10 })) root).0

-- The label keeps its width of 3 and gets half of the rest, and so does the button.
resize-button : child laid_out 1 ≡ button (rect 8 0 5 10) (some 7) null
unfolding send_event pull_min push_rect total
resize-button = refl

click-button : (send_event whole junk (pointer_up 9 4 0) laid_out).1 ≡ 7 ∷ []
unfolding send_event pull_min push_rect total respond do_callback
click-button = refl

click-label : (send_event whole junk (pointer_up 7 4 0) laid_out).1 ≡ []
unfolding send_event pull_min push_rect total respond do_callback
click-label = refl

send_event-IsFirst_example :
    IsFirst whole
      (pointer_up 9 4 0)
      (buttons laid_out)
      (send_event whole junk (pointer_up 9 4 0) laid_out).1
send_event-IsFirst_example = send_event-IsFirst whole junk (pointer_up 9 4 0) laid_out

pull_min-Measured_example :
    Measured whole junk (rect 0 0 0 0) two_columns children (pull_min whole junk root (junk 0 0))
pull_min-Measured_example =
    pull_min-Measured whole junk (rect 0 0 0 0) two_columns children (junk 0 0) (omega arith) refl

-- A panel at the root with a label in it, and a label that is not assigned.
abbrev heap : Heap
heap = record {
  cells = λ w.
      if w == 0
      then some (record { kind = panel_kind; parent = some root_slot })
      else if w == 1
      then some (record { kind = label_kind; parent = some (child_slot 0 0) })
      else if w == 2
      then some (record { kind = label_kind; parent = none })
      else none;
  pointer = λ s. elim s [
    | root_slot ↦ some 0
    | child_slot w i ↦ if w == 0 then (if i == 0 then some 1 else none) else none
    | variable x ↦ if x == 0 then some 2 else none
  ];
}

abbrev number : Option ℕ → ℕ
number none = 0
number (some w) = w

heap-Linked : Linked heap
heap-Linked root_slot w own e =
    let it : 0 ≡ w = ap number e in
    subst (λ v. (c : Cell) × (heap.cells v ≡ some c) × (c.parent ≡ some root_slot)) it
      (_, refl, refl)
heap-Linked (child_slot v i) w own e = elim (Bool-cases (v == 0)) [
  | inl first ↦ elim (Bool-cases (i == 0)) [
    | inl inner ↦
        let same : heap.pointer (child_slot v i) ≡ some 1 = rw (first, inner) refl in
        let it : 1 ≡ w = ap number (sym same ∙ e) in
        let slot : some (child_slot 0 0) ≡ some (child_slot v i) =
          ap₂ (λ (m n : ℕ). some (child_slot m n)) (sym ((==_iff v 0).0 first))
            (sym ((==_iff i 0).0 inner)) in
        subst (λ n. (c : Cell) × (heap.cells n ≡ some c) × (c.parent ≡ some (child_slot v i))) it
          (_, refl, slot)
    | inr outer ↦
        let same : heap.pointer (child_slot v i) ≡ none = rw (first, outer) refl in
        absurd (clash (sym same ∙ e))
  ]
  | inr other ↦
      let same : heap.pointer (child_slot v i) ≡ none = rw other refl in
      absurd (clash (sym same ∙ e))
]
  where
    clash : {n : ℕ} → none ≡ some n → ⊥
    clash e = cc
heap-Linked (variable x) w own e = cc

heap-IsBelow : IsBelow 3 heap
heap-IsBelow w e = elim (Bool-cases (ltb w 3)) [
  | inl below ↦ ltb→lt w 3 below
  | inr above ↦
      let a : (w == 0) ≡ false = ground arith in
      let b : (w == 1) ≡ false = ground arith in
      let c : (w == 2) ≡ false = ground arith in
      let gone : is_some (kind_of (heap.cells w)) ≡ false = rw (a, b, c) refl in
      absurd (clash (sym e ∙ gone))
]
  where
    clash : true ≡ false → ⊥
    clash e = cc

hwt_free-Frees_example : Returns (hwt_free 3 heap (1 ∷ 2 ∷ [])) (λ q.
    Frees 3 heap q.0
    × (q.0.pointer root_slot ≡ none)
    × ((w : ℕ) → (has_parent (q.0.cells w) ≡ false) ⊎ (¬ (Reached heap root_slot w)))
    × (q.1 ≡ []))
unfolding parented
hwt_free-Frees_example = hwt_free-Frees 3 3 heap (1 ∷ 2 ∷ []) heap-Linked heap-IsBelow (omega arith)

assign-Assigned_example :
    Returns
      (assign (child_slot 0 1) (some (variable 0)) heap)
      (Assigned (child_slot 0 1) (variable 0) 2 heap)
assign-Assigned_example =
    assign-Assigned (child_slot 0 1) (variable 0) 2 (record { kind = label_kind; parent = none })
      heap heap-Linked refl refl refl refl

abbrev statics : Statics
statics = record { fresh = 1; button_type = 0; grid_type = 0; label_type = 0; panel_type = 0 }

hwt_create-latest_example :
    Creates whole (hwt_create (hwt_create statics).0).0 (hwt_create (hwt_create statics).0).1
    × Refuses whole (hwt_create (hwt_create statics).0).0 (hwt_create statics).1
hwt_create-latest_example = hwt_create-latest whole statics

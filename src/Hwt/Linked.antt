-- ===== src/Hwt/Linked.antt =====
-- hwt: pointers and the widgets that they point to, in step with one another.
use htools.Prelude.{
  ℕ, Option, none, some, Bool, true, false, if◌then◌else◌, ◌≡◌, refl, ap, ap₂, arith, ==_iff,
}
use htools.Hwt.Links.{Slot, root_slot, child_slot, variable, same_slot, Kind, Cell, Heap}

-- A pointer of hwt, and not a variable of its user.
abbrev pub is_owned : Slot → Bool
is_owned root_slot = true
is_owned (child_slot w i) = true
is_owned (variable x) = false

-- A widget that a pointer of hwt points to is there and has this pointer for its parent.
abbrev pub Linked : Heap → Type 0
Linked h =
    (s : Slot) (w : ℕ)
    → is_owned s ≡ true
    → h.pointer s ≡ some w
    → (c : Cell) × (h.cells w ≡ some c) × (c.parent ≡ some s)

abbrev pub kind_of : Option Cell → Option Kind
kind_of none = none
kind_of (some c) = some c.kind

pub same_slot_lem : (s t : Slot) → same_slot s t ≡ true → s ≡ t
same_slot_lem root_slot root_slot e = refl
same_slot_lem root_slot (child_slot w i) e = cc
same_slot_lem root_slot (variable x) e = cc
same_slot_lem (child_slot w i) root_slot e = cc
same_slot_lem (child_slot w i) (child_slot v j) e =
    let p : w ≡ v = ground arith in let q : i ≡ j = ground arith in ap₂ child_slot p q
same_slot_lem (child_slot w i) (variable x) e = cc
same_slot_lem (variable x) root_slot e = cc
same_slot_lem (variable x) (child_slot v j) e = cc
same_slot_lem (variable x) (variable y) e = ap variable ((==_iff x y).0 e)

pub same_slot_refl : (s : Slot) → same_slot s s ≡ true
same_slot_refl root_slot = refl
same_slot_refl (child_slot w i) = ground arith
same_slot_refl (variable x) = ground arith

pub kept :
    (b : Bool) (o : Option ℕ) (w : ℕ)
    → (if b then none else o) ≡ some w
    → (b ≡ false) × (o ≡ some w)
kept true o w e = cc
kept false o w e = (refl, e)

pub emptied : (b : Bool) (o : Option ℕ) → o ≡ none → (if b then none else o) ≡ none
emptied true o e = refl
emptied false o e = e

pub other_slot : (x : ℕ) (s : Slot) → is_owned s ≡ true → same_slot (variable x) s ≡ false
other_slot x root_slot own = refl
other_slot x (child_slot w i) own = refl
other_slot x (variable y) own = cc

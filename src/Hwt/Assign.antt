-- ===== src/Hwt/Assign.antt =====
-- hwt: `hwt_widget_assign` keeps each widget in one place.
use htools.Prelude.{
  none-some, ℕ, Option, none, some, true, false, ◌==◌, if◌then◌else◌, ◌≡◌, ◌⊎◌, inl, inr, refl, sym,
  ap, ◌∙◌, Bool-cases, arith, ==_iff, Returns,
}
use htools.Hwt.Links.{Slot, same_slot, Cell, Heap, set_pointer, set_cell, is_some, assign}
use htools.Hwt.Linked.{Linked, kind_of, kept, same_slot_lem, same_slot_refl}

-- What a call leaves that assigns the widget `w`.
pub record Assigned (p c : Slot) (w : ℕ) (h h' : Heap) : Type 0 where
  pub linked : Linked h'
  pub placed : h'.pointer p ≡ some w
  pub taken : h'.pointer c ≡ none
  pub others :
      (s : Slot) → same_slot s p ≡ false → same_slot s c ≡ false → h'.pointer s ≡ h.pointer s
  pub kinds : (v : ℕ) → kind_of (h'.cells v) ≡ kind_of (h.cells v)

module _ (p c : Slot) (w : ℕ) (x : Cell) (h : Heap) (l : Linked h) (empty : h.pointer p ≡ none)
    (full : h.pointer c ≡ some w) (e : h.cells w ≡ some x) (free : x.parent ≡ none) where
  abbrev linked_cell : Cell
  linked_cell = record { kind = x.kind; parent = some p }

  abbrev after : Heap
  after = set_pointer c none (set_cell w (some linked_cell) (set_pointer p (some w) h))

  abbrev value_of : Option ℕ → ℕ
  value_of none = w
  value_of (some v) = v

  abbrev parent_of : Option Cell → Option Slot
  parent_of none = none
  parent_of (some y) = y.parent

  apart-slots : same_slot p c ≡ false
  apart-slots = elim (Bool-cases (same_slot p c)) [
    | inl same ↦
        let clash : none ≡ some w = sym empty ∙ ap h.pointer (same_slot_lem p c same) ∙ full in
        absurd (none-some clash)
    | inr other ↦ other
  ]

  after-Linked : Linked after
  after-Linked t v own q =
      let (_, r) = kept (same_slot t c) (if same_slot t p then some w else h.pointer t) v q in
      elim (Bool-cases (same_slot t p)) [
        | inl same ↦
            let it : t ≡ p = same_slot_lem t p same in
            let first : some w ≡ some v = (rw same refl) ∙ r in
            let who : v ≡ w = sym (ap value_of first) in
            let self : (v == w) ≡ true = ap (λ (y : ℕ). y == w) who ∙ ground arith in
            (linked_cell, (rw self refl), ap some (sym it))
        | inr other ↦
            let there : h.pointer t ≡ some v = (rw other refl) ∙ r in
            let (d, e', p') = l t v own there in
            elim (Bool-cases (v == w)) [
              | inl self ↦
                  let it : v ≡ w = (==_iff v w).0 self in
                  let both : some x ≡ some d = sym e ∙ ap h.cells (sym it) ∙ e' in
                  let clash : none ≡ some t = sym free ∙ ap parent_of both ∙ p' in
                  absurd (none-some clash)
              | inr apart ↦ (d, (rw apart e'), p')
            ]
      ]

  pub after-Assigned : Assigned p c w h after
  after-Assigned = record {
    linked = after-Linked;
    placed = rw (apart-slots, same_slot_refl p) refl;
    taken = rw (same_slot_refl c) refl;
    others = λ s f g. rw (f, g) refl;
    kinds = λ v. elim (Bool-cases (v == w)) [
      | inl same ↦
          let it : v ≡ w = (==_iff v w).0 same in
          rw same (sym (ap (λ (y : ℕ). kind_of (h.cells y)) it ∙ ap kind_of e))
      | inr apart ↦ rw apart refl
    ];
  }

-- Assigning a widget that has no parent, from a pointer that holds it to one that is null, succeeds where each
-- pointer of hwt points to a widget that has it for its parent, and keeps it so: the widget is then
-- at the one pointer and no longer at the other, and the other pointers and the widgets stay as they were.
pub assign-Assigned :
    (p c : Slot) (w : ℕ) (x : Cell) (h : Heap)
    → Linked h
    → h.pointer p ≡ none
    → h.pointer c ≡ some w
    → h.cells w ≡ some x
    → x.parent ≡ none
    → Returns (assign p (some c) h) (Assigned p c w h)
unfolding assign
assign-Assigned p c w x h l empty full e free =
    rw (Returns, empty, full, e, free) (after-Assigned p c w x h l empty full e free)

-- `hwt_widget_assign` aborts if the pointer is taken, and if the widget is assigned already.
assign-none :
    (p c : Slot) (w : ℕ) (x : Cell) (h : Heap)
    → h.pointer c ≡ some w
    → h.cells w ≡ some x
    → (is_some (h.pointer p) ≡ true) ⊎ (is_some x.parent ≡ true)
    → assign p (some c) h ≡ none
unfolding assign
assign-none p c w x h full e (inl taken) = rw taken refl
assign-none p c w x h full e (inr assigned) = elim (Bool-cases (is_some (h.pointer p))) [
  | inl taken ↦ rw taken refl
  | inr empty ↦ rw (empty, full, e, assigned) refl
]

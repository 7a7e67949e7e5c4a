-- ===== src/Hwt/Leaks.antt =====
-- hwt: what `hwt_widget_free` does to a widget that is assigned, and to its children.
use htools.Prelude.{
  ◌⊎◌, true-false, some-cases, ℕ, zero, suc, ◌+◌, ◌≤◌, ◌<◌, Option, none, some, true, false, ◌==◌,
  ◌≡◌, inl, inr, refl, sym, ap, ◌∙◌, Bool-cases, arith, ==_iff, Returns, Returns-bind, Returns-map,
  List, [],
}
use mathlib.Core.Path.{subst}
use htools.Hwt.Links.{
  Slot, root_slot, child_slot, variable, child_num, Cell, Heap, set_pointer, is_some, unlink,
  destroy, widget_free, hwt_free,
}
use htools.Hwt.Below.{
  has_parent, Reached, none-Reached, Passes, Orphans, Passes-join, clear-Passes, unlinked-Reached,
}
use htools.Hwt.Linked.{is_owned, Linked, kind_of, same_slot_refl}
use htools.Hwt.Unlink.{
  parented, IsBelow, Frees, Frees-refl, Frees-join, Frees-IsBelow, clear-Frees, unlinked,
  unlinked-fewer, unlinked-Frees,
}

-- What it does to the widgets below a pointer.
record Cuts (n : ℕ) (h h' : Heap) : Type 0 where
  pub frees : Frees n h h'
  pub orphans : Orphans h h'
  pub passes : Passes h h'

Cuts-join : (n : ℕ) (h i j : Heap) → Cuts n h i → Cuts n i j → Cuts n h j
Cuts-join n h i j f g = record {
  frees = Frees-join n h i j f.frees g.frees;
  orphans = λ w e. g.orphans w (f.orphans w e);
  passes = Passes-join h i j f.passes g.passes g.orphans;
}

Cuts-refl : (n : ℕ) (h : Heap) → Linked h → Cuts n h h
Cuts-refl n h l = record { frees = Frees-refl n h l; orphans = λ w e. e; passes = λ s w r. inl r }

-- All widgets below a pointer are unlinked.
abbrev Empties : Heap → Heap → Slot → Type 0
Empties h h' s = (w : ℕ) → Reached h s w → has_parent (h'.cells w) ≡ false

abbrev FreesBelow : ℕ → Slot → Heap → Heap → Type 0
FreesBelow n s h h' = Cuts n h h' × (h'.pointer s ≡ none) × Empties h h' s

-- The same of the children of a widget from one on.
abbrev FreesChildren : ℕ → ℕ → ℕ → ℕ → Heap → Heap → Type 0
FreesChildren n w i k h h' =
    Cuts n h h' × ((j : ℕ) → i ≤ j → j < i + k → Empties h h' (child_slot w j))

module _ (n : ℕ) (free : Slot → Heap → Option Heap) (fuel : ℕ)
    (frees : (s : Slot) (h : Heap)
      → Linked h
      → is_owned s ≡ true
      → IsBelow n h
      → parented h.cells n < fuel
      → Returns (free s h) (FreesBelow n s h)) where
  next-FreesChildren :
      (w i k : ℕ) (h h' j : Heap)
      → FreesBelow n (child_slot w i) h h'
      → FreesChildren n w (i + 1) k h' j
      → FreesChildren n w i (suc k) h j
  next-FreesChildren w i k h h' j f g = (
    Cuts-join n h h' j f.0 g.0,
    λ m le lt x r. elim (Bool-cases (m == i)) [
      | inl same ↦
          let it : m ≡ i = (==_iff m i).0 same in
          g.0.orphans x (f.2 x (subst (λ (c : ℕ). Reached h (child_slot w c) x) it r))
      | inr other ↦ elim (f.0.passes (child_slot w m) x r) [
        | inl there ↦ g.1 m (ground arith) (omega arith) x there
        | inr gone ↦ g.0.orphans x gone
      ]
    ],
  )

  destroy-Frees :
      (w i k : ℕ) (h : Heap)
      → Linked h
      → IsBelow n h
      → parented h.cells n < fuel
      → Returns (destroy free w i k h) (FreesChildren n w i k h)
  unfolding destroy
  destroy-Frees w i zero h l b lt = (Cuts-refl n h l, λ j le less x r. absurd (omega arith))
  destroy-Frees w i (suc k) h l b lt =
      Returns-bind _ _ (free (child_slot w i) h) _ (frees (child_slot w i) h l refl b lt) (λ h' f.
        Returns-map _ _ (destroy free w (i + 1) k h')
          (destroy-Frees w (i + 1) k h' f.0.frees.linked (Frees-IsBelow n h h' f.0.frees b)
            (omega (arith, f.0.frees.fewer)))
          (λ j g. next-FreesChildren w i k h h' j f g))

-- What is left to do behind the children of the widget `w`.
module _ (n : ℕ) (s : Slot) (w : ℕ) (c : Cell) (h : Heap) (at : h.pointer s ≡ some w)
    (e : h.cells w ≡ some c) (i : Heap) (f : Frees n h (unlink (some s) w c h))
    (g : FreesChildren n w 0 (child_num c.kind) (unlink (some s) w c h) i)
    (none_ : i.pointer s ≡ none) (own : is_owned s ≡ true) where
  unlinked-Orphans : Orphans h (unlink (some s) w c h)
  unlinked-Orphans v gone = elim (Bool-cases (v == w)) [
    | inl same ↦ rw same refl
    | inr other ↦ rw other gone
  ]

  self_gone : (x : ℕ) → x ≡ w → has_parent (i.cells x) ≡ false
  self_gone x it =
      let same : (x == w) ≡ true = ground arith in
      let here : has_parent ((unlink (some s) w c h).cells x) ≡ false = rw same refl in
      g.0.orphans x here

  children-Passes : Passes h i
  children-Passes t x r = elim (unlinked-Reached s w c h at e t x r) [
    | inl there ↦ g.0.passes t x there
    | inr (inl it) ↦ inr (self_gone x it)
    | inr (inr (j, lt, r')) ↦ inr (g.1 j (omega arith) (omega arith) x r')
  ]

  all-Empties : Empties h i s
  all-Empties x r = elim (unlinked-Reached s w c h at e s x r) [
    | inl there ↦
        let self = same_slot_refl s in
        let cleared : (unlink (some s) w c h).pointer s ≡ none = rw self refl in
        absurd (none-Reached (unlink (some s) w c h) s x cleared there)
    | inr (inl it) ↦ self_gone x it
    | inr (inr (j, lt, r')) ↦ g.1 j (omega arith) (omega arith) x r'
  ]

  cleared-FreesBelow : FreesBelow n s h (set_pointer s none i)
  cleared-FreesBelow =
      let self = same_slot_refl s in
      let all = Frees-join n h (unlink (some s) w c h) i f g.0.frees in
      (
        record {
          frees = Frees-join n h i _ all (clear-Frees n s i all.linked own);
          orphans = λ x gone. g.0.orphans x (unlinked-Orphans x gone);
          passes =
              Passes-join h i (set_pointer s none i) children-Passes (clear-Passes s i none_)
                (λ x e. e);
        },
        (rw self refl),
        all-Empties,
      )

-- Freeing a widget through the pointer that it is assigned to returns, clears this pointer
-- and unlinks what is below it.
widget_free-Frees :
    (n fuel : ℕ) (s : Slot) (h : Heap)
    → Linked h
    → is_owned s ≡ true
    → IsBelow n h
    → parented h.cells n < fuel
    → Returns (widget_free fuel s h) (FreesBelow n s h)
unfolding widget_free
widget_free-Frees n zero s h l own b lt = absurd (omega arith)
widget_free-Frees n (suc fuel) s h l own b lt = elim (some-cases (h.pointer s)) [
  | inl gone ↦ rw (Returns, gone) (Cuts-refl n h l, gone, λ x r. absurd (none-Reached h s x gone r))
  | inr (w, at) ↦
      let (c, e, p) = l s w own at in
      let w_below : w < n = b w (ap (λ (x : Option Cell). is_some (kind_of x)) e) in
      let u = unlinked n s w c h l e p in
      let f = unlinked-Frees n s w c h l e p own w_below in
      rw (Returns, at, e, p)
        (Returns-bind (FreesChildren n w 0 (child_num c.kind) u) _
          (destroy (widget_free fuel) w 0 (child_num c.kind) u) _
          (destroy-Frees n (widget_free fuel) fuel (λ t i. widget_free-Frees n fuel t i) w 0
            (child_num c.kind) u f.linked (Frees-IsBelow n h u f b)
            (omega (arith, unlinked-fewer n s w c h l e p w_below)))
          (λ i g.
            let self = same_slot_refl s in
            let cleared : u.pointer s ≡ none = rw self refl in
            let none_ : i.pointer s ≡ none = g.0.frees.empty s cleared in
            rw none_ (cleared-FreesBelow n s w c h at e i f g none_ own)))
]

-- What a call leaves that frees the widget `w` and no other.
record FreesOne (w : ℕ) (s : Slot) (h h' : Heap) : Type 0 where
  pub freed : h'.cells w ≡ none
  pub others : (v : ℕ) → (v == w) ≡ false → kind_of (h'.cells v) ≡ kind_of (h.cells v)
  pub cleared : h'.pointer s ≡ none

-- Freeing a widget that is not assigned, through a variable, returns, clears the variable and frees the memory of
-- this widget and of no other: what was below it stays allocated. This holds where each pointer of hwt
-- points to a widget that has it for its parent; a call for each assigned widget and two more are enough.
widget_free-FreesOne :
    (n fuel x w : ℕ) (c : Cell) (h : Heap)
    → Linked h
    → IsBelow n h
    → parented h.cells n < fuel
    → h.pointer (variable x) ≡ some w
    → h.cells w ≡ some c
    → c.parent ≡ none
    → Returns (widget_free (suc fuel) (variable x) h) (FreesOne w (variable x) h)
unfolding widget_free
widget_free-FreesOne n fuel x w c h l b lt at e p =
    rw (Returns, at, e, p)
      (Returns-bind (FreesChildren n w 0 (child_num c.kind) h) _
        (destroy (widget_free fuel) w 0 (child_num c.kind) h) _
        (destroy-Frees n (widget_free fuel) fuel (λ t i. widget_free-Frees n fuel t i) w 0
          (child_num c.kind) h l b lt)
        (λ i g.
          let self : (w == w) ≡ true = ground arith in
          let same : (x == x) ≡ true = ground arith in
          let there : i.pointer (variable x) ≡ some w = g.0.frees.apart x ∙ at in
          rw there (record {
            freed = rw self refl;
            others = λ v other. rw other (g.0.frees.kinds v);
            cleared = rw same refl;
          })))

-- A widget is unlinked, or it was not below the root.
unlinked_or_apart :
    (h i : Heap) (w : ℕ)
    → Empties h i root_slot
    → (has_parent (i.cells w) ≡ false) ⊎ (¬ (Reached h root_slot w))
unlinked_or_apart h i w f = elim (Bool-cases (has_parent (i.cells w))) [
  | inr gone ↦ inl gone
  | inl there ↦ inr (λ r. true-false (sym there ∙ f w r))
]

-- `hwt_free` returns, clears the pointer to the root and unlinks every widget that was below it, the
-- root included: none of them has a parent then. It frees the memory of no widget: every one that was
-- there stays allocated, since the pointer to a widget is null by the time that its memory is to be
-- freed through it. This holds where each pointer of hwt points to a widget that has it for its parent;
-- a call for each assigned widget and one more are enough.
pub hwt_free-Frees :
    (n fuel : ℕ) (h : Heap) (types : List ℕ)
    → Linked h
    → IsBelow n h
    → parented h.cells n < fuel
    → Returns (hwt_free fuel h types) (λ q.
      Frees n h q.0
      × (q.0.pointer root_slot ≡ none)
      × ((w : ℕ) → (has_parent (q.0.cells w) ≡ false) ⊎ (¬ (Reached h root_slot w)))
      × (q.1 ≡ []))
unfolding hwt_free
hwt_free-Frees n fuel h types l b lt =
    Returns-bind (FreesBelow n root_slot h) _ (widget_free fuel root_slot h) _
      (widget_free-Frees n fuel root_slot h l refl b lt)
      (λ i f. (f.0.frees, f.1, λ w. unlinked_or_apart h i w f.2, refl))

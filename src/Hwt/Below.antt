-- ===== src/Hwt/Below.antt =====
-- hwt: the widgets below a pointer.
use htools.Prelude.{
  ℕ, ◌<◌, Option, none, some, Bool, true, false, ◌==◌, ◌≡◌, ◌⊎◌, inl, inr, refl, sym, ap, ◌∙◌,
  Bool-cases, ==_iff, none-some,
}
use mathlib.Core.Path.{subst}
use htools.Hwt.Links.{
  Slot, child_slot, same_slot, child_num, Kind, Cell, Heap, set_pointer, is_some, unlink,
}
use htools.Hwt.Linked.{kind_of, same_slot_lem}

abbrev pub has_parent : Option Cell → Bool
has_parent none = false
has_parent (some c) = is_some c.parent

-- A widget is below a pointer if the pointer points to it, or to a widget with a child pointer that
-- it is below.
pub data Reached (h : Heap) : Slot → ℕ → Type 0 where
  here : (s : Slot) (w : ℕ) → h.pointer s ≡ some w → Reached h s w
  inside :
      (s : Slot) (v i w : ℕ) (k : Kind)
      → h.pointer s ≡ some v
      → kind_of (h.cells v) ≡ some k
      → i < child_num k
      → Reached h (child_slot v i) w
      → Reached h s w

pub none-Reached : (h : Heap) (s : Slot) (w : ℕ) → h.pointer s ≡ none → Reached h s w → ⊥
none-Reached h s w e (here _ _ p) = none-some (sym e ∙ p)
none-Reached h s w e (inside _ v i _ k p _ _ _) = none-some (sym e ∙ p)

-- A widget is still below a pointer, or it is unlinked.
abbrev pub Passes : Heap → Heap → Type 0
Passes h h' =
    (s : Slot) (w : ℕ) → Reached h s w → Reached h' s w ⊎ (has_parent (h'.cells w) ≡ false)

-- A widget that is not assigned stays so.
abbrev pub Orphans : Heap → Heap → Type 0
Orphans h h' = (w : ℕ) → has_parent (h.cells w) ≡ false → has_parent (h'.cells w) ≡ false

pub Passes-join : (h i j : Heap) → Passes h i → Passes i j → Orphans i j → Passes h j
Passes-join h i j f g o s w r = elim (f s w r) [
  | inl there ↦ g s w there
  | inr gone ↦ inr (o w gone)
]

-- A pointer that is null is cleared.
pub clear-Passes : (s : Slot) (h : Heap) → h.pointer s ≡ none → Passes h (set_pointer s none h)
clear-Passes s h e t w r = inl (go t w r)
  where
    same : (t : Slot) (w : ℕ) → h.pointer t ≡ some w → (set_pointer s none h).pointer t ≡ some w
    same t w p = elim (Bool-cases (same_slot t s)) [
      | inl it ↦ none-some (sym e ∙ ap h.pointer (sym (same_slot_lem t s it)) ∙ p)
      | inr other ↦ (rw other p)
    ]

    go : (t : Slot) (w : ℕ) → Reached h t w → Reached (set_pointer s none h) t w
    go t w (here _ _ p) = here t w (same t w p)
    go t w (inside _ v i _ k p c lt r) =
        inside t v i w k (same t v p) c lt (go (child_slot v i) w r)

-- Where a widget is that was below a pointer before the widget `v` was unlinked: there, it is `v`,
-- or it is below `v`.
pub unlinked-Reached :
    (s : Slot) (v : ℕ) (c : Cell) (h : Heap)
    → h.pointer s ≡ some v
    → h.cells v ≡ some c
    → (t : Slot) (w : ℕ) → Reached h t w
    → Reached (unlink (some s) v c h) t w
      ⊎ (w ≡ v)
      ⊎ ((i : ℕ) × (i < child_num c.kind) × Reached (unlink (some s) v c h) (child_slot v i) w)
unlinked-Reached s v c h at e = go
  where
    u : Heap
    u = unlink (some s) v c h

    same_widget : (t : Slot) (w : ℕ) → same_slot t s ≡ true → h.pointer t ≡ some w → w ≡ v
    same_widget t w same p =
        let q : some w ≡ some v = sym p ∙ ap h.pointer (same_slot_lem t s same) ∙ at in cc

    same_kinds : (k : Kind) (w : ℕ) → w ≡ v → kind_of (h.cells w) ≡ some k → k ≡ c.kind
    same_kinds k w it p =
        let q : some k ≡ some c.kind = sym p ∙ ap (λ n. kind_of (h.cells n)) it ∙ ap kind_of e in cc

    kinds : (w : ℕ) → kind_of ((unlink (some s) v c h).cells w) ≡ kind_of (h.cells w)
    kinds w = elim (Bool-cases (w == v)) [
      | inl same ↦
          let it : w ≡ v = (==_iff w v).0 same in
          rw same (sym (ap (λ (x : ℕ). kind_of (h.cells x)) it ∙ ap kind_of e))
      | inr apart ↦ rw apart refl
    ]

    go :
        (t : Slot) (w : ℕ)
        → Reached h t w
        → Reached (unlink (some s) v c h) t w
          ⊎ (w ≡ v)
          ⊎ ((i : ℕ) × (i < child_num c.kind) × Reached (unlink (some s) v c h) (child_slot v i) w)
    go t w (here _ _ p) = elim (Bool-cases (same_slot t s)) [
      | inl same ↦ inr (inl (same_widget t w same p))
      | inr other ↦ inl (here t w (rw other p))
    ]
    go t w (inside _ x i _ k p kind lt r) = elim (go (child_slot x i) w r) [
      | inr found ↦ inr found
      | inl there ↦ elim (Bool-cases (same_slot t s)) [
        | inr other ↦ inl (inside t x i w k (rw other p) (kinds x ∙ kind) lt there)
        | inl same ↦
            let it : x ≡ v = same_widget t x same p in
            inr (
              inr (
                i,
                subst (λ m. i < child_num m) (same_kinds k x it kind) lt,
                subst (λ m. Reached (unlink (some s) v c h) (child_slot m i) w) it there,
              ))
      ]
    ]

-- ===== src/Hwt/Unlink.antt =====
-- hwt: how the links between widgets become fewer when a widget is unlinked.
use htools.Prelude.{
  ℕ, zero, suc, ◌+◌, ◌≤◌, ◌<◌, Option, none, some, true, false, ◌==◌, if◌then◌else◌, ◌≡◌, inl, inr,
  refl, sym, ap, ◌∙◌, Bool-cases, arith, ==_iff,
}
use htools.Hwt.Links.{Slot, variable, same_slot, Cell, Heap, set_pointer, is_some, unlink}
use htools.Hwt.Below.{has_parent}
use htools.Hwt.Linked.{is_owned, Linked, kind_of, same_slot_refl, kept, emptied, other_slot}

-- How many of the widgets below `n` are assigned.
unfoldable pub parented : (ℕ → Option Cell) → ℕ → ℕ
parented cells zero = 0
parented cells (suc n) = (if has_parent (cells n) then 1 else 0) + parented cells n

abbrev pub IsBelow : ℕ → Heap → Type 0
IsBelow n h = (w : ℕ) → is_some (kind_of (h.cells w)) ≡ true → w < n

parented-above :
    (cells : ℕ → Option Cell) (w : ℕ) (x : Option Cell) (n : ℕ)
    → n ≤ w
    → parented (λ v. if v == w then x else cells v) n ≡ parented cells n
unfolding parented
parented-above cells w x zero le = refl
parented-above cells w x (suc n) le =
    let other : (n == w) ≡ false = ground arith in
    rw (other, parented-above cells w x n (omega arith)) refl

parented-fewer :
    (cells : ℕ → Option Cell) (w : ℕ) (x : Option Cell) (n : ℕ)
    → w < n
    → has_parent (cells w) ≡ true
    → has_parent x ≡ false
    → parented (λ v. if v == w then x else cells v) n < parented cells n
unfolding parented
parented-fewer cells w x zero lt e f = absurd (omega arith)
parented-fewer cells w x (suc n) lt e f = elim (Bool-cases (n == w)) [
  | inl here ↦
      let it : n ≡ w = (==_iff n w).0 here in
      let e' : has_parent (cells n) ≡ true = ap (λ (v : ℕ). has_parent (cells v)) it ∙ e in
      rw (here, f, e', parented-above cells w x n (omega arith)) (omega arith)
  | inr other ↦ rw other (omega (arith, parented-fewer cells w x n (ground arith) e f))
]

-- What a call that frees leaves as it was, and what it does to the links.
pub record Frees (n : ℕ) (h h' : Heap) : Type 0 where
  pub linked : Linked h'
  pub kinds : (w : ℕ) → kind_of (h'.cells w) ≡ kind_of (h.cells w)
  pub fewer : parented h'.cells n ≤ parented h.cells n
  pub empty : (s : Slot) → h.pointer s ≡ none → h'.pointer s ≡ none
  pub apart : (x : ℕ) → h'.pointer (variable x) ≡ h.pointer (variable x)

pub Frees-refl : (n : ℕ) (h : Heap) → Linked h → Frees n h h
Frees-refl n h l = record {
  linked = l;
  kinds = λ w. refl;
  fewer = omega arith;
  empty = λ s e. e;
  apart = λ x. refl;
}

pub Frees-join : (n : ℕ) (h i j : Heap) → Frees n h i → Frees n i j → Frees n h j
Frees-join n h i j f g = record {
  linked = g.linked;
  kinds = λ w. g.kinds w ∙ f.kinds w;
  fewer = omega (arith, f.fewer, g.fewer);
  empty = λ s e. g.empty s (f.empty s e);
  apart = λ x. g.apart x ∙ f.apart x;
}

pub Frees-IsBelow : (n : ℕ) (h i : Heap) → Frees n h i → IsBelow n h → IsBelow n i
Frees-IsBelow n h i f b w e = b w (ap is_some (sym (f.kinds w)) ∙ e)

pub clear-Frees :
    (n : ℕ) (s : Slot) (h : Heap) → Linked h → is_owned s ≡ true → Frees n h (set_pointer s none h)
clear-Frees n s h l own = record {
  linked = λ t w own e. l t w own (kept (same_slot t s) (h.pointer t) w e).1;
  kinds = λ w. refl;
  fewer = omega arith;
  empty = λ t e. emptied (same_slot t s) (h.pointer t) e;
  apart = λ x. rw (other_slot x s own) refl;
}

module _ (n : ℕ) (s : Slot) (w : ℕ) (c : Cell) (h : Heap) (l : Linked h) (e : h.cells w ≡ some c)
    (p : c.parent ≡ some s) where
  abbrev pub unlinked : Heap
  unlinked = unlink (some s) w c h

  unlinked-Linked : Linked unlinked
  unlinked-Linked t v own q =
      let (other, there) = kept (same_slot t s) (h.pointer t) v q in
      let (d, e', p') = l t v own there in
      elim (Bool-cases (v == w)) [
        | inl same ↦
            let it : v ≡ w = (==_iff v w).0 same in
            let both : some d ≡ some c = sym e' ∙ ap h.cells it ∙ e in
            let parents : some t ≡ some s =
              sym p' ∙ ap (λ (x : Option Cell). parent_of x) both ∙ p in
            let slots : t ≡ s = ap (λ (x : Option Slot). slot_of s x) parents in
            let yes_ : same_slot t s ≡ true =
              ap (λ (x : Slot). same_slot x s) slots ∙ same_slot_refl s in
            absurd (clash (sym yes_ ∙ other))
        | inr apart ↦ (d, (rw apart e'), p')
      ]
    where
      parent_of : Option Cell → Option Slot
      parent_of none = none
      parent_of (some c) = c.parent

      slot_of : Slot → Option Slot → Slot
      slot_of s none = s
      slot_of s (some t) = t

      clash : true ≡ false → ⊥
      clash e = cc

  unlinked-kinds : (v : ℕ) → kind_of (unlinked.cells v) ≡ kind_of (h.cells v)
  unlinked-kinds v = elim (Bool-cases (v == w)) [
    | inl same ↦
        let it : v ≡ w = (==_iff v w).0 same in
        rw same (sym (ap (λ (x : ℕ). kind_of (h.cells x)) it ∙ ap kind_of e))
    | inr apart ↦ rw apart refl
  ]

  pub unlinked-fewer : w < n → parented unlinked.cells n < parented h.cells n
  unlinked-fewer lt = parented-fewer h.cells w _ n lt (ap has_parent e ∙ ap is_some p) refl

  pub unlinked-Frees : is_owned s ≡ true → w < n → Frees n h unlinked
  unlinked-Frees own lt = record {
    linked = unlinked-Linked;
    kinds = unlinked-kinds;
    fewer = omega (arith, unlinked-fewer lt);
    empty = λ t q. emptied (same_slot t s) (h.pointer t) q;
    apart = λ x. rw (other_slot x s own) refl;
  }

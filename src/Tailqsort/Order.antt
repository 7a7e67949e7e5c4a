-- ===== src/Tailqsort/Order.antt =====
-- The merge sort orders its list, and keeps the order of nodes that compare equal.
use htools.Prelude.{
  ℕ, zero, suc, ◌+◌, ◌-◌, ◌/◌, ◌≤◌, ◌<◌, Bool, true, false, leb, if◌then◌else◌, ◌≡◌, refl, sym, ap,
  ap₂, ◌∙◌, arith, ◌&&◌, inl, inr, not, List, [], ◌∷◌, ◌++◌, length, take, drop, append-nil,
  append_assoc, Returns, Returns-bind, Returns-map, Bool-cases, length-take, length-drop,
  take-append-drop, leb→le,
}
use mathlib.Core.Path.{subst}
use htools.Tailqsort.Ops.{merge_loop, sort}

-- What the comparison must be for a sort to make sense.
pub record IsOrder (A : Type 0) (greater : A → A → Bool) : Type 0 where
  pub asymmetric : (x y : A) → greater x y ≡ true → greater y x ≡ false
  pub transitive : (x y z : A) → greater x y ≡ false → greater y z ≡ false → greater x z ≡ false

module _ {A : Type 0} (greater : A → A → Bool) where
  -- Nothing in the list is less than `b`.
  abbrev pub IsBound : A → List A → Type 0
  IsBound b [] = Unit
  IsBound b (x ∷ s) = (greater b x ≡ false) × IsBound b s

  abbrev pub IsSorted : List A → Type 0
  IsSorted [] = Unit
  IsSorted (x ∷ s) = IsBound x s × IsSorted s

  abbrev pub tie : A → A → Bool
  tie z x = not (greater z x) && not (greater x z)

  -- The nodes that compare equal to `z`, in their order.
  abbrev pub ties : A → List A → List A
  ties z [] = []
  ties z (x ∷ s) = if tie z x then x ∷ ties z s else ties z s

  -- A list in order, with the nodes of each class as they stand in `s`.
  pub record Sorts (s r : List A) : Type 0 where
    pub sorted : IsSorted r
    pub stable : (z : A) → ties z r ≡ ties z s

  record Merges (left right m : List A) : Type 0 where
    sorted : IsSorted m
    bound : (b : A) → IsBound b left → IsBound b right → IsBound b m
    stable : (z : A) → ties z m ≡ ties z left ++ ties z right

  ties-append : (z : A) (s t : List A) → ties z (s ++ t) ≡ ties z s ++ ties z t
  ties-append z [] t = refl
  ties-append z (x ∷ s) t = elim (Bool-cases (tie z x)) [
    | inl h ↦ rw h (ap (λ (u : List A). x ∷ u) (ties-append z s t))
    | inr h ↦ rw h (ties-append z s t)
  ]

  tie-parts : (z x : A) → tie z x ≡ true → (greater z x ≡ false) × (greater x z ≡ false)
  tie-parts z x h = parts (greater z x) (greater x z) h
    where
      parts : (a b : Bool) → (not a && not b) ≡ true → (a ≡ false) × (b ≡ false)
      parts true b e = cc
      parts false true e = cc
      parts false false e = (refl, refl)

  -- The list so far, with what the rounds to come add.
  record Adds (left right done r : List A) : Type 0 where
    added : List A
    whole : r ≡ done ++ added
    merges : Merges left right added

  module _ (order : IsOrder A greater) where
    IsBound-trans : (a b : A) (s : List A) → greater a b ≡ false → IsBound b s → IsBound a s
    IsBound-trans a b [] h hs = tt
    IsBound-trans a b (x ∷ s) h hs = (order.transitive a b x h hs.0, IsBound-trans a b s h hs.1)

    -- What comes after a node greater than `y` does not compare equal to what `y` does.
    no_ties :
        (x y z : A) (s : List A) → greater x y ≡ true → tie z y ≡ true → IsBound x s → ties z s ≡ []
    no_ties x y z [] g t h = refl
    no_ties x y z (u ∷ s) g t h = elim (Bool-cases (tie z u)) [
      | inl e ↦
          let up = order.transitive u z y (tie-parts z u e).1 (tie-parts z y t).0 in
          let wrong : greater x y ≡ false = order.transitive x u y h.0 up in cc
      | inr e ↦ rw e (no_ties x y z s g t h.1)
    ]

    irreflexive : (x : A) → greater x x ≡ false
    irreflexive x = elim (Bool-cases (greater x x)) [ inl e ↦ order.asymmetric x x e | inr e ↦ e ]

    Merges-left :
        (x y : A) (left right m : List A)
        → greater x y ≡ false
        → IsSorted (x ∷ left)
        → IsSorted (y ∷ right)
        → Merges left (y ∷ right) m
        → Merges (x ∷ left) (y ∷ right) (x ∷ m)
    Merges-left x y left right m g hl hr h = record {
      sorted = (h.bound x hl.0 (g, IsBound-trans x y right g hr.0), h.sorted);
      bound = λ b hb hc. (hb.0, h.bound b hb.1 hc);
      stable = λ z. elim (Bool-cases (tie z x)) [
        | inl e ↦ rw e (ap (λ (u : List A). x ∷ u) (h.stable z))
        | inr e ↦ rw e (h.stable z)
      ];
    }

    Merges-right :
        (x y : A) (left right m : List A)
        → greater x y ≡ true
        → IsSorted (x ∷ left)
        → IsSorted (y ∷ right)
        → Merges (x ∷ left) right m
        → Merges (x ∷ left) (y ∷ right) (y ∷ m)
    Merges-right x y left right m g hl hr h =
        let less : greater y x ≡ false = order.asymmetric x y g in
        record {
          sorted = (h.bound y (less, IsBound-trans y x left less hl.0) hr.0, h.sorted);
          bound = λ b hb hc. (hc.0, h.bound b hb hc.1);
          stable = λ z. elim (Bool-cases (tie z y)) [
            | inl e ↦
                let none_ : ties z (x ∷ left) ≡ [] =
                  no_ties x y z (x ∷ left) g e (irreflexive x, hl.0) in
                rw e (
                  ap (λ (u : List A). y ∷ u)
                    (h.stable z ∙ ap (λ (u : List A). u ++ ties z right) none_)
                  ∙ sym (ap (λ (u : List A). u ++ (y ∷ ties z right)) none_))
            | inr e ↦ rw e (h.stable z)
          ];
        }

    Adds-left :
        (x y : A) (left right done r : List A)
        → greater x y ≡ false
        → IsSorted (x ∷ left)
        → IsSorted (y ∷ right)
        → Adds left (y ∷ right) (done ++ (x ∷ [])) r
        → Adds (x ∷ left) (y ∷ right) done r
    Adds-left x y left right done r g hl hr h = record {
      added = x ∷ h.added;
      whole = h.whole ∙ append_assoc done (x ∷ []) h.added;
      merges = Merges-left x y left right h.added g hl hr h.merges;
    }

    Adds-right :
        (x y : A) (left right done r : List A)
        → greater x y ≡ true
        → IsSorted (x ∷ left)
        → IsSorted (y ∷ right)
        → Adds (x ∷ left) right (done ++ (y ∷ [])) r
        → Adds (x ∷ left) (y ∷ right) done r
    Adds-right x y left right done r g hl hr h = record {
      added = y ∷ h.added;
      whole = h.whole ∙ append_assoc done (y ∷ []) h.added;
      merges = Merges-right x y left right h.added g hl hr h.merges;
    }

    merge_loop-Adds :
        (fuel : ℕ) (left right done : List A)
        → length left + length right < fuel
        → IsSorted left
        → IsSorted right
        → Returns (merge_loop greater fuel left right done) (Adds left right done)
    unfolding merge_loop
    merge_loop-Adds zero left right done f hl hr = absurd (omega arith)
    merge_loop-Adds (suc fuel) [] right done f hl hr = record {
      added = right;
      whole = refl;
      merges = record { sorted = hr; bound = λ b hb hc. hc; stable = λ z. refl };
    }
    merge_loop-Adds (suc fuel) (x ∷ left) [] done f hl hr = record {
      added = x ∷ left;
      whole = refl;
      merges = record {
        sorted = hl;
        bound = λ b hb hc. hb;
        stable = λ z. sym (append-nil (ties z (x ∷ left)));
      };
    }
    merge_loop-Adds (suc fuel) (x ∷ left) (y ∷ right) done f hl hr =
        elim (Bool-cases (greater x y)) [
          | inl g ↦ rw g (
              Returns-map _ _ (merge_loop greater fuel (x ∷ left) right (done ++ (y ∷ [])))
                (merge_loop-Adds fuel (x ∷ left) right (done ++ (y ∷ [])) (omega arith) hl hr.1)
                (λ r h. Adds-right x y left right done r g hl hr h))
          | inr g ↦ rw g (
              Returns-map _ _ (merge_loop greater fuel left (y ∷ right) (done ++ (x ∷ [])))
                (merge_loop-Adds fuel left (y ∷ right) (done ++ (x ∷ [])) (omega arith) hl.1 hr)
                (λ r h. Adds-left x y left right done r g hl hr h))
        ]

    short-Sorts : (s : List A) → length s ≤ 1 → Sorts s s
    short-Sorts s h = record { sorted = one s h; stable = λ z. refl }
      where
        one : (s : List A) → length s ≤ 1 → IsSorted s
        one [] h = tt
        one (x ∷ []) h = (tt, tt)
        one (x ∷ y ∷ s) h = absurd (omega arith)

    halves-Sorts :
        (k : ℕ) (s left right r : List A)
        → Sorts (take k s) left
        → Sorts (drop k s) right
        → Adds left right [] r
        → Sorts s r
    halves-Sorts k s left right r hl hr h = record {
      sorted = subst IsSorted (sym h.whole) h.merges.sorted;
      stable = λ z.
          ap (ties z) h.whole
          ∙ h.merges.stable z
          ∙ ap₂ ◌++◌ (hl.stable z) (hr.stable z)
          ∙ sym (ties-append z (take k s) (drop k s))
          ∙ ap (ties z) (take-append-drop k s);
    }

    -- With a comparison that is an order, and called with the number of its nodes, the sort returns: its list is in order, and the nodes
    -- that compare equal to any given node stand in it as they did before. Each call halves the
    -- size, so that the size and one more is enough fuel.
    pub sort-Sorts :
        (fuel size : ℕ) (s : List A)
        → size < fuel
        → size ≡ length s
        → Returns (sort greater fuel s size) (Sorts s)
    unfolding sort
    sort-Sorts zero size s f e = absurd (omega arith)
    sort-Sorts (suc fuel) size s f e = elim (Bool-cases (leb size 1)) [
      | inl short ↦ rw short (short-Sorts s (omega (arith, leb→le size 1 short)))
      | inr long ↦
          let big : 1 < size = ground arith in
          let k = size / 2 in
          let here : leb (length s) k ≡ false = ground arith in
          rw (long, here)
            (Returns-bind (Sorts (take k s)) _ (sort greater fuel (take k s) k) _
              (sort-Sorts fuel k (take k s) (omega arith) (omega (arith, length-take k s)))
              (λ left hl.
                Returns-bind (Sorts (drop k s)) _ (sort greater fuel (drop k s) (size - k)) _
                  (sort-Sorts fuel (size - k) (drop k s) (omega arith)
                    (omega (arith, length-drop k s)))
                  (λ right hr.
                    Returns-map (Adds left right []) _
                      (merge_loop greater (length left + length right + 1) left right [])
                      (merge_loop-Adds (length left + length right + 1) left right [] (omega arith)
                        hl.sorted hr.sorted)
                      (λ r h. halves-Sorts k s left right r hl hr h))))
    ]

-- ===== src/Hwt/Route.antt =====
-- hwt: which button an event comes to.
use htools.Prelude.{
  true, true-false, arith, ℕ, Option, none, some, false, if◌then◌else◌, List, [], ◌∷◌, ◌++◌, ◌≡◌,
  refl, sym, ap, ap₂, ◌∙◌, inl, inr, Bool-cases,
}
use mathlib.Core.Path.{subst}
use htools.Hwt.Base.{
  Floats, Rect, Flow, break_, continue_, Event, expose, pointer_down, pointer_move, pointer_up,
  resize, Size,
}
use htools.Hwt.Ops.{
  Widget, null, button, grid, label, panel, Widgets, end, next, do_callback, press, and_then,
  respond, respond_children, send_event,
}

-- The buttons of a tree, the inner ones of a button before it.
unfoldable mutual
  pub buttons : {F : Type 0} → Widget F → List (Rect F × Option ℕ)
  buttons null = []
  buttons (button r callback w) = buttons w ++ ((r, callback) ∷ [])
  buttons (label _ _) = []
  buttons (panel _ w) = buttons w
  buttons (grid _ _ ws) = buttons_of ws

  pub buttons_of : {F : Type 0} → Widgets F → List (Rect F × Option ℕ)
  buttons_of end = []
  buttons_of (next w ws) = buttons w ++ buttons_of ws

module _ {F : Type 0} (floats : Floats F) (e : Event F) where
  -- The callback of the first button that takes the event and has one.
  unfoldable pub first_hit : List (Rect F × Option ℕ) → Option ℕ
  first_hit [] = none
  first_hit ((r, none) ∷ bs) = first_hit bs
  first_hit ((r, some callback) ∷ bs) =
      if do_callback floats e r then some callback else first_hit bs

  abbrev pub calls_of : Option ℕ → List ℕ
  calls_of none = []
  calls_of (some callback) = callback ∷ []

  abbrev outcome : Option ℕ → Flow × List ℕ
  outcome none = (continue_, [])
  outcome (some callback) = (break_, callback ∷ [])

  outcome-append :
      (xs ys : List (Rect F × Option ℕ))
      → outcome (first_hit (xs ++ ys))
        ≡ and_then floats (outcome (first_hit xs)) (outcome (first_hit ys))
  unfolding first_hit
  outcome-append [] ys = refl
  outcome-append ((r, none) ∷ xs) ys = outcome-append xs ys
  outcome-append ((r, some callback) ∷ xs) ys = elim (Bool-cases (do_callback floats e r)) [
    | inl hit ↦ rw hit refl
    | inr miss ↦ rw miss (outcome-append xs ys)
  ]

  outcome-one :
      (r : Rect F) (callback : Option ℕ)
      → outcome (first_hit ((r, callback) ∷ [])) ≡ press floats (do_callback floats e r) callback
  unfolding first_hit
  outcome-one r none = refl
  outcome-one r (some callback) = elim (Bool-cases (do_callback floats e r)) [
    | inl hit ↦ rw hit refl
    | inr miss ↦ rw miss refl
  ]

  nothing_then : (q : Option ℕ) → and_then floats (outcome q) (continue_, []) ≡ outcome q
  nothing_then none = refl
  nothing_then (some callback) = refl

  mutual
    unfolding respond buttons first_hit

    pub respond-first : (w : Widget F) → respond floats e w ≡ outcome (first_hit (buttons w))
    respond-first null = refl
    respond-first (button r callback w) =
        ap₂ (and_then floats) (respond-first w) (sym (outcome-one r callback))
        ∙ sym (outcome-append (buttons w) ((r, callback) ∷ []))
    respond-first (label _ _) = refl
    respond-first (panel _ w) =
        ap (λ (q : Flow × List ℕ). and_then floats q (continue_, [])) (respond-first w)
        ∙ nothing_then (first_hit (buttons w))
    respond-first (grid _ _ ws) = children-first ws

    children-first :
        (ws : Widgets F) → respond_children floats e ws ≡ outcome (first_hit (buttons_of ws))
    children-first end = refl
    children-first (next w ws) =
        ap₂ (and_then floats) (respond-first w) (children-first ws)
        ∙ sym (outcome-append (buttons w) (buttons_of ws))

module _ {F : Type 0} (floats : Floats F) where
  none_hit :
      (e : Event F) (bs : List (Rect F × Option ℕ))
      → ((r : Rect F) → do_callback floats e r ≡ false)
      → first_hit floats e bs ≡ none
  unfolding first_hit
  none_hit e [] h = refl
  none_hit e ((r, none) ∷ bs) h = none_hit e bs h
  none_hit e ((r, some callback) ∷ bs) h = rw (h r) (none_hit e bs h)

  calls-outcome : (e : Event F) (q : Option ℕ) → (outcome floats e q).1 ≡ calls_of floats e q
  calls-outcome e none = refl
  calls-outcome e (some callback) = refl

  by_respond :
      (e : Event F) (root : Widget F)
      → (respond floats e root).1 ≡ calls_of floats e (first_hit floats e (buttons root))
  by_respond e root =
      ap (λ (q : Flow × List ℕ). q.1) (respond-first floats e root)
      ∙ calls-outcome e (first_hit floats e (buttons root))

  by_tree :
      (junk : ℕ → ℕ → Size F) (e : Event F) (root : Widget F)
      → (send_event floats junk e root).1 ≡ calls_of floats e (first_hit floats e (buttons root))
  unfolding send_event do_callback
  by_tree junk (resize size) root =
      ap (calls_of floats (resize size)) (sym (none_hit (resize size) (buttons root) (λ r. refl)))
  by_tree junk (expose r) root = by_respond (expose r) root
  by_tree junk (pointer_down x y code) root = by_respond (pointer_down x y code) root
  by_tree junk (pointer_move x y code) root = by_respond (pointer_move x y code) root
  by_tree junk (pointer_up x y code) root = by_respond (pointer_up x y code) root

  -- An event clicks a rectangle when the pointer button 0 goes up in it, the left and the upper edge
  -- included, the right and the lower one not.
  pub data Clicks : Event F → Rect F → Type 0 where
    click :
        (x y : F) (r : Rect F)
        → floats.less_eq r.x x ≡ true
        → floats.less x (floats.add r.x r.width) ≡ true
        → floats.less_eq r.y y ≡ true
        → floats.less y (floats.add r.y r.height) ≡ true
        → Clicks (pointer_up x y 0) r

  -- The callbacks that an event calls are that of the first button that it clicks and that has one.
  pub data IsFirst (e : Event F) : List (Rect F × Option ℕ) → List ℕ → Type 0 where
    nobody : IsFirst e [] []
    silent :
        (r : Rect F) (bs : List (Rect F × Option ℕ)) (calls : List ℕ)
        → IsFirst e bs calls
        → IsFirst e ((r, none) ∷ bs) calls
    passed :
        (r : Rect F) (callback : ℕ) (bs : List (Rect F × Option ℕ)) (calls : List ℕ)
        → ¬ (Clicks e r)
        → IsFirst e bs calls
        → IsFirst e ((r, some callback) ∷ bs) calls
    called :
        (r : Rect F) (callback : ℕ) (bs : List (Rect F × Option ℕ))
        → Clicks e r
        → IsFirst e ((r, some callback) ∷ bs) (callback ∷ [])

  do_callback-Clicks : (e : Event F) (r : Rect F) → do_callback floats e r ≡ true → Clicks e r
  unfolding do_callback
  do_callback-Clicks (pointer_up x y code) r h =
      let it : code ≡ 0 = ground (arith, h) in
      subst (λ c. Clicks (pointer_up x y c) r) (sym it)
        (click x y r (ground (arith, h)) (ground (arith, h)) (ground (arith, h))
          (ground (arith, h)))
  do_callback-Clicks (expose _) r h = true-false (sym h)
  do_callback-Clicks (pointer_down _ _ _) r h = true-false (sym h)
  do_callback-Clicks (pointer_move _ _ _) r h = true-false (sym h)
  do_callback-Clicks (resize _) r h = true-false (sym h)

  Clicks-do_callback : (e : Event F) (r : Rect F) → Clicks e r → do_callback floats e r ≡ true
  unfolding do_callback
  Clicks-do_callback e r (click x y _ left right top bottom) = rw (left, right, top, bottom) refl

  first_hit-IsFirst :
      (e : Event F) (bs : List (Rect F × Option ℕ))
      → IsFirst e bs (calls_of floats e (first_hit floats e bs))
  unfolding first_hit
  first_hit-IsFirst e [] = nobody
  first_hit-IsFirst e ((r, none) ∷ bs) = silent r bs _ (first_hit-IsFirst e bs)
  first_hit-IsFirst e ((r, some callback) ∷ bs) = elim (Bool-cases (do_callback floats e r)) [
    | inl hit ↦ rw hit (called r callback bs (do_callback-Clicks e r hit))
    | inr miss ↦ rw miss (
        passed r callback bs _ (λ c. true-false (sym (Clicks-do_callback e r c) ∙ miss))
          (first_hit-IsFirst e bs))
  ]

  -- For any tree of widgets, an event calls the callback of one button at most: the first one in the
  -- order of the tree, with the buttons inside a button before it, that has a callback and is clicked.
  -- It is clicked when the event is the pointer button 0 that goes up in its rectangle, the left and
  -- the upper edge included, the right and the lower one not.
  pub send_event-IsFirst :
      (junk : ℕ → ℕ → Size F) (e : Event F) (root : Widget F)
      → IsFirst e (buttons root) (send_event floats junk e root).1
  send_event-IsFirst junk e root =
      subst (IsFirst e (buttons root)) (sym (by_tree junk e root))
        (first_hit-IsFirst e (buttons root))

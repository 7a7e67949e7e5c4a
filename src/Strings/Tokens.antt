-- ===== src/Strings/Tokens.antt =====
-- `strtkn` takes a string apart at delimiters.
use htools.Prelude.{
  ℕ, ◌+◌, ◌<◌, Option, none, some, Bool, true, false, ◌==◌, if◌then◌else◌, ◌≡◌, inl, inr, refl, sym,
  ap, ◌∙◌, arith, List, [], ◌∷◌, ◌++◌, length, take, drop, Bool-cases, append-nil, take-append-drop,
  length-take, drop-drop,
}
use mathlib.Core.Path.{subst}
use htools.Strings.Ops.{member, strspn, strcspn, strtkn}

-- Delimiters only, and none of them.
abbrev pub IsGap : List ℕ → List ℕ → Type 0
IsGap ds [] = Unit
IsGap ds (c ∷ s) = (member c ds ≡ true) × IsGap ds s

abbrev pub IsWord : List ℕ → List ℕ → Type 0
IsWord ds [] = Unit
IsWord ds (c ∷ s) = (member c ds ≡ false) × IsWord ds s

-- What one call leaves of a string and returns: nothing of a gap, the last word, or a word with
-- what stands behind the delimiter after it.
pub data Takes (ds : List ℕ) : List ℕ → Option (List ℕ) × Option (List ℕ) → Type 0 where
  nothing : (g : List ℕ) → IsGap ds g → Takes ds g (none, none)
  last : (g w : List ℕ) → IsGap ds g → IsWord ds w → 0 < length w → Takes ds (g ++ w) (none, some w)
  more :
      (g w : List ℕ) (c : ℕ) (t : List ℕ)
      → IsGap ds g
      → IsWord ds w
      → 0 < length w
      → member c ds ≡ true
      → Takes ds (g ++ (w ++ (c ∷ t))) (some t, some w)

spn-IsGap : (s ds : List ℕ) → IsGap ds (take (strspn s ds) s)
spn-IsGap [] ds = tt
spn-IsGap (c ∷ s) ds = elim (Bool-cases (member c ds)) [
  | inl h ↦ rw h (h, spn-IsGap s ds)
  | inr h ↦ rw h tt
]

cspn-IsWord : (s ds : List ℕ) → IsWord ds (take (strcspn s ds) s)
cspn-IsWord [] ds = tt
cspn-IsWord (c ∷ s) ds = elim (Bool-cases (member c ds)) [
  | inl h ↦ rw h tt
  | inr h ↦ rw h (h, cspn-IsWord s ds)
]

-- What stands behind a gap begins a word, and behind a word a delimiter.
abbrev Starts : Bool → List ℕ → List ℕ → Type 0
Starts b ds [] = Unit
Starts b ds (c ∷ s) = member c ds ≡ b

spn-Starts : (s ds : List ℕ) → Starts false ds (drop (strspn s ds) s)
spn-Starts [] ds = tt
spn-Starts (c ∷ s) ds = elim (Bool-cases (member c ds)) [
  | inl h ↦ rw h (spn-Starts s ds)
  | inr h ↦ rw h h
]

cspn-Starts : (s ds : List ℕ) → Starts true ds (drop (strcspn s ds) s)
cspn-Starts [] ds = tt
cspn-Starts (c ∷ s) ds = elim (Bool-cases (member c ds)) [
  | inl h ↦ rw h h
  | inr h ↦ rw h (cspn-Starts s ds)
]

nil_of_length : (s : List ℕ) → length s ≡ 0 → s ≡ []
nil_of_length [] e = refl
nil_of_length (c ∷ s) e = absurd (omega arith)

-- What `strtkn` does with the string behind the delimiters that it steps over.
abbrev after_gap : List ℕ → List ℕ → Option (List ℕ) × Option (List ℕ)
after_gap p ds =
    if length p == 0
    then (none, none)
    else if length (drop (strcspn p ds) p) == 0
    then (none, some p)
    else (some (drop (strcspn p ds + 1) p), some (take (strcspn p ds) p))

module _ (ds g p : List ℕ) (hg : IsGap ds g) (pos : 0 < strcspn p ds) where
  length-word : 0 < length p → 0 < length (take (strcspn p ds) p)
  length-word h = omega (arith, length-take (strcspn p ds) p)

  word-Takes :
      (t : List ℕ)
      → 0 < length p
      → t ≡ drop (strcspn p ds) p
      → Starts true ds t
      → Takes ds (g ++ p) (after_gap p ds)
  word-Takes [] h e ht =
      let all : take (strcspn p ds) p ≡ p =
        sym (append-nil (take (strcspn p ds) p))
        ∙ ap (λ u. take (strcspn p ds) p ++ u) e
        ∙ take-append-drop (strcspn p ds) p in
      let here : (length p == 0) ≡ false = ground arith in
      let ended : (length (drop (strcspn p ds) p) == 0) ≡ true =
        ap (λ (u : List ℕ). length u == 0) (sym e) in
      rw (here, ended) (last g p hg (subst (IsWord ds) all (cspn-IsWord p ds)) h)
  word-Takes (c ∷ t) h e ht =
      let here : (length p == 0) ≡ false = ground arith in
      let goes_on : (length (drop (strcspn p ds) p) == 0) ≡ false =
        ap (λ (u : List ℕ). length u == 0) (sym e) ∙ ground arith in
      let rest : drop (strcspn p ds + 1) p ≡ t =
        sym (drop-drop (strcspn p ds) 1 p) ∙ ap (drop 1) (sym e) in
      let joined : take (strcspn p ds) p ++ (c ∷ t) ≡ p =
        ap (λ (u : List ℕ). take (strcspn p ds) p ++ u) e ∙ take-append-drop (strcspn p ds) p in
      rw (here, goes_on, rest)
        (subst (λ u. Takes ds (g ++ u) (some t, some (take (strcspn p ds) p))) joined
          (more g (take (strcspn p ds) p) c t hg (cspn-IsWord p ds) (length-word h) ht))

after_gap-Takes :
    (g p ds : List ℕ) → IsGap ds g → Starts false ds p → Takes ds (g ++ p) (after_gap p ds)
after_gap-Takes g [] ds hg hs =
    subst (λ s. Takes ds s (none, none)) (sym (append-nil g)) (nothing g hg)
after_gap-Takes g (c ∷ s) ds hg hs =
    let pos : 0 < strcspn (c ∷ s) ds = ground arith in
    word-Takes ds g (c ∷ s) hg pos (drop (strcspn (c ∷ s) ds) (c ∷ s)) (omega arith) refl
      (cspn-Starts (c ∷ s) ds)

-- `strtkn` steps over delimiters and takes the word behind them.
pub strtkn-Takes : (s ds : List ℕ) → Takes ds s (strtkn (some s) ds)
unfolding strtkn
strtkn-Takes s ds =
    subst (λ t. Takes ds t (strtkn (some s) ds)) (take-append-drop (strspn s ds) s)
      (after_gap-Takes (take (strspn s ds) s) (drop (strspn s ds) s) ds (spn-IsGap s ds)
        (spn-Starts s ds))

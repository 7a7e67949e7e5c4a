-- ===== src/Config/Names.antt =====
-- config.c: lists whose members have different names.
use htools.Prelude.{
  ==_iff, true, true-false, Option, if◌then◌else◌, ℕ, zero, suc, none, some, false, ◌==◌, ◌&&◌, ◌≡◌,
  inl, inr, refl, sym, ap, ap₂, ◌∙◌, arith, List, [], ◌∷◌, ◌++◌, length, Bool-cases, some-cases,
  none-some,
}
use mathlib.Core.Path.{subst}
use htools.Config.Ops.{str_equal, index_of, update, at}

str_equal_comm : (s t : List ℕ) → str_equal s t ≡ str_equal t s
str_equal_comm [] [] = refl
str_equal_comm [] (d ∷ t) = refl
str_equal_comm (c ∷ s) [] = refl
str_equal_comm (c ∷ s) (d ∷ t) =
    let same : (c == d) ≡ (d == c) = ground arith in ap₂ ◌&&◌ same (str_equal_comm s t)

module _ {A : Type 0} (name : A → List ℕ) where
  -- No name stands twice.
  abbrev pub Distinct : List A → Type 0
  Distinct [] = Unit
  Distinct (x ∷ xs) = (index_of name xs (name x) ≡ none) × Distinct xs

  index_of-none :
      (x : A) (xs : List A) (n : List ℕ)
      → index_of name (x ∷ xs) n ≡ none
      → (str_equal (name x) n ≡ false) × (index_of name xs n ≡ none)
  unfolding index_of
  index_of-none x xs n h = elim (Bool-cases (str_equal (name x) n)) [
    | inl same ↦
        let found : index_of name (x ∷ xs) n ≡ some 0 = rw same refl in none-some (sym h ∙ found)
    | inr other ↦ elim (some-cases (index_of name xs n)) [
      | inl gone ↦ (other, gone)
      | inr (i, there) ↦
          let found : index_of name (x ∷ xs) n ≡ some (suc i) = rw (other, there) refl in
          none-some (sym h ∙ found)
    ]
  ]

  index_of-append :
      (xs : List A) (y : A) (n : List ℕ)
      → index_of name xs n ≡ none
      → str_equal (name y) n ≡ false
      → index_of name (xs ++ (y ∷ [])) n ≡ none
  unfolding index_of
  index_of-append [] y n h other = rw other refl
  index_of-append (x ∷ xs) y n h other =
      let (apart, gone) = index_of-none x xs n h in
      rw (apart, index_of-append xs y n gone other) refl

  pub Distinct-append :
      (xs : List A) (y : A)
      → Distinct xs
      → index_of name xs (name y) ≡ none
      → Distinct (xs ++ (y ∷ []))
  unfolding index_of
  Distinct-append [] y h gone = (refl, tt)
  Distinct-append (x ∷ xs) y h gone =
      let (apart, gone') = index_of-none x xs (name y) gone in
      (
        index_of-append xs y (name x) h.0 (str_equal_comm (name y) (name x) ∙ apart),
        Distinct-append xs y h.1 gone',
      )

  module _ (f : A → A) (same : (x : A) → name (f x) ≡ name x) where
    index_of-update :
        (xs : List A) (i : ℕ) (n : List ℕ) → index_of name (update f xs i) n ≡ index_of name xs n
    unfolding index_of update
    index_of-update [] i n = refl
    index_of-update (x ∷ xs) zero n = rw (same x) refl
    index_of-update (x ∷ xs) (suc i) n = rw (index_of-update xs i n) refl

    pub Distinct-update : (xs : List A) (i : ℕ) → Distinct xs → Distinct (update f xs i)
    unfolding update
    Distinct-update [] i h = h
    Distinct-update (x ∷ xs) zero h = (ap (index_of name xs) (same x) ∙ h.0, h.1)
    Distinct-update (x ∷ xs) (suc i) h =
        (index_of-update xs i (name x) ∙ h.0, Distinct-update xs i h.1)

pub same_value : {A : Type 0} (a b : A) → some a ≡ some b → a ≡ b
same_value a b e = cc

abbrev pub All : {A : Type 0} → (A → Type 0) → List A → Type 0
All P [] = Unit
All P (x ∷ xs) = P x × All P xs

pub All-append :
    {A : Type 0} (P : A → Type 0) (xs : List A) (y : A) → All P xs → P y → All P (xs ++ (y ∷ []))
All-append P [] y h p = (p, tt)
All-append P (x ∷ xs) y h p = (h.0, All-append P xs y h.1 p)

pub All-at :
    {A : Type 0} (P : A → Type 0) (xs : List A) (i : ℕ) (x : A) → All P xs → at xs i ≡ some x → P x
unfolding at
All-at P [] i x h e = none-some e
All-at P (y ∷ xs) zero x h e = subst P (same_value y x e) h.0
All-at P (y ∷ xs) (suc i) x h e = All-at P xs i x h.1 e

pub All-update :
    {A : Type 0} (P : A → Type 0) (f : A → A) (xs : List A) (i : ℕ)
    → All P xs
    → ((x : A) → at xs i ≡ some x → P (f x))
    → All P (update f xs i)
unfolding at update
All-update P f [] i h k = h
All-update P f (x ∷ xs) zero h k = (k x refl, h.1)
All-update P f (x ∷ xs) (suc i) h k = (h.0, All-update P f xs i h.1 k)

pub at-append : {A : Type 0} (xs : List A) (y : A) → at (xs ++ (y ∷ [])) (length xs) ≡ some y
unfolding at
at-append [] y = refl
at-append (x ∷ xs) y = at-append xs y

pub at-update :
    {A : Type 0} (f : A → A) (xs : List A) (i : ℕ) (x : A)
    → at xs i ≡ some x
    → at (update f xs i) i ≡ some (f x)
unfolding at update
at-update f [] i x e = none-some e
at-update f (y ∷ xs) zero x e = ap (λ (z : _). some (f z)) (same_value y x e)
at-update f (y ∷ xs) (suc i) x e = at-update f xs i x e

pub update-append :
    {A : Type 0} (f : A → A) (xs : List A) (y : A)
    → update f (xs ++ (y ∷ [])) (length xs) ≡ xs ++ (f y ∷ [])
unfolding update
update-append f [] y = refl
update-append f (x ∷ xs) y = ap (λ t. x ∷ t) (update-append f xs y)

str_equal-same : (s t : List ℕ) → str_equal s t ≡ true → s ≡ t
str_equal-same [] [] h = refl
str_equal-same [] (d ∷ t) h = true-false (sym h)
str_equal-same (c ∷ s) [] h = true-false (sym h)
str_equal-same (c ∷ s) (d ∷ t) h = elim (Bool-cases (c == d)) [
  | inl e ↦
      let rest : str_equal s t ≡ true = (rw e refl) ∙ h in
      let head : c ≡ d = (==_iff c d).0 e in ap₂ ◌∷◌ head (str_equal-same s t rest)
  | inr other ↦
      let no : (c == d && str_equal s t) ≡ false = rw other refl in true-false (sym h ∙ no)
]

-- The first of two, or the second.
abbrev pub or_else : Option ℕ → Option ℕ → Option ℕ
or_else none b = b
or_else (some i) b = some i

-- A member put at the end is found by its name, if none before it has the name.
pub index_of-last :
    {A : Type 0} (name : A → List ℕ) (xs : List A) (y : A) (m : List ℕ)
    → index_of name (xs ++ (y ∷ [])) m
      ≡ or_else (index_of name xs m) (if str_equal (name y) m then some (length xs) else none)
unfolding index_of
index_of-last name [] y m = elim (Bool-cases (str_equal (name y) m)) [
  | inl same ↦ rw same refl
  | inr other ↦ rw other refl
]
index_of-last name (x ∷ xs) y m = elim (Bool-cases (str_equal (name x) m)) [
  | inl same ↦ rw same refl
  | inr other ↦ elim (some-cases (index_of name xs m)) [
    | inr (i, there) ↦ rw (other, index_of-last name xs y m, there) refl
    | inl gone ↦ elim (Bool-cases (str_equal (name y) m)) [
      | inl same ↦ rw (other, index_of-last name xs y m, gone, same) refl
      | inr apart ↦ rw (other, index_of-last name xs y m, gone, apart) refl
    ]
  ]
]

-- Who is there by a name is so for any name that is equal to it.
pub index_of-there :
    {A : Type 0} (name : A → List ℕ) (xs : List A) (n m : List ℕ) (i : ℕ)
    → index_of name xs n ≡ some i
    → index_of name xs m ≡ or_else (index_of name xs m) (if str_equal n m then some i else none)
index_of-there name xs n m i there = elim (some-cases (index_of name xs m)) [
  | inr (j, found) ↦ rw found refl
  | inl gone ↦ elim (Bool-cases (str_equal n m)) [
    | inr other ↦ rw (gone, other) refl
    | inl same ↦
        none-some (sym gone ∙ ap (index_of name xs) (sym (str_equal-same n m same)) ∙ there)
  ]
]

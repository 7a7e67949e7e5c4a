-- ===== src/Getopt/Group.antt =====
-- Calls of `getopt` in a row, at an argument with an option that is not known.
use htools.Prelude.{
  some-cases, none-some, inl, inr, ◌*◌, ℕ, zero, suc, ◌+◌, ◌<◌, Option, none, some, true, false,
  leb, ◌==◌, ◌>>=◌, ◌≡◌, refl, sym, ap, ◌∙◌, arith, List, [], ◌∷◌, ◌++◌, length, get_or,
}
use htools.Getopt.Ops.{
  Options, Found, question, option, suffix, is_dashes, behind, take_option, getopt_loop, getopt,
}

-- Where `getopt` stands behind an unknown option.
abbrev pub stuck : ℕ → ℕ → Options
stuck n c = record { optarg = none; optopt = some c; optind = n; optsubind = some 1 }

abbrev pub options : List ℕ → List Found
options [] = []
options (f ∷ flags) = option f ∷ options flags

abbrev pub repeat : ℕ → List Found → List Found
repeat zero fs = []
repeat (suc m) fs = fs ++ repeat m fs

suffix-next :
    (s : List ℕ) (i x : ℕ) (t : List ℕ)
    → suffix i s ≡ x ∷ t
    → (get_or s i 0 ≡ x) × (suffix (i + 1) s ≡ t) × (i < length s)
suffix-next s zero x t e =
    (ap (λ (u : List ℕ). get_or u 0 0) e, ap (suffix 1) e, omega (arith, ap length e))
suffix-next [] (suc i) x t e = absurd (omega (arith, ap length e))
suffix-next (y ∷ s) (suc i) x t e =
    let (g, u, lt) = suffix-next s i x t e in
    let one : suc i + 1 ≡ suc (i + 1) = omega arith in
    (g, ap (λ (k : ℕ). suffix k (y ∷ s)) one ∙ u, omega (arith, lt))

module _ (argv : List (List ℕ)) (optstring : List ℕ) where
  -- What so many calls return.
  unfoldable pub calls : ℕ → Options → Option (Options × List Found)
  calls zero o = some (o, [])
  calls (suc k) o = do
    (p, found) ← getopt argv optstring o
    (q, all) ← calls k p
    some (q, found ∷ all)

  calls-join :
      (k j : ℕ) (o p q : Options) (xs ys : List Found)
      → calls k o ≡ some (p, xs)
      → calls j p ≡ some (q, ys)
      → calls (k + j) o ≡ some (q, xs ++ ys)
  unfolding calls
  calls-join zero j o p q xs ys e f =
      let one : zero + j ≡ j = omega arith in
      let same : ◌≡◌ {A = Option (Options × List Found)} (some (p, xs)) (some (o, [])) = sym e in
      let there : p ≡ o = cc in
      let none_ : xs ≡ [] = cc in rw (one, none_) (ap (calls j) (sym there) ∙ f)
  calls-join (suc k) j o p q xs ys e f = elim (some-cases (getopt argv optstring o)) [
    | inl gone ↦ let fails : calls (suc k) o ≡ none = rw gone refl in none-some (sym fails ∙ e)
    | inr ((o', found), one) ↦ elim (some-cases (calls k o')) [
      | inl gone ↦
          let fails : calls (suc k) o ≡ none = rw (one, gone) refl in none-some (sym fails ∙ e)
      | inr ((p', all), more) ↦
          let both : calls (suc k) o ≡ some (p', found ∷ all) = rw (one, more) refl in
          let same : ◌≡◌ {A = Option (Options × List Found)} (some (p', found ∷ all))
              (some (p, xs)) =
            sym both ∙ e in
          let there : p' ≡ p = cc in
          let listed : found ∷ all ≡ xs = cc in
          let next : suc k + j ≡ suc (k + j) = omega arith in
          let rest =
            calls-join k j o' p q all ys (more ∙ ap (λ (r : Options). some (r, all)) there) f in
          rw (next, one, rest) (ap (λ (zs : List Found). some (q, zs ++ ys)) listed)
    ]
  ]

  -- Options that are known and take no argument.
  abbrev pub IsFlags : List ℕ → Type 0
  IsFlags [] = Unit
  IsFlags (f ∷ flags) =
      ((0 < f) × ((d : ℕ) × (behind f optstring ≡ some d) × ((d == 58) ≡ false))) × IsFlags flags

  module _ (n : ℕ) (arg : List ℕ) (lt : n < length argv) (at : get_or argv n [] ≡ arg)
      (dash : get_or arg 0 0 ≡ 45) (dashes : is_dashes arg ≡ false) where
    abbrev standing : Option (List ℕ) → Option ℕ → ℕ → Options
    standing a p i = record { optarg = a; optopt = p; optind = n; optsubind = some i }

    one_call :
        (a : Option (List ℕ)) (p : Option ℕ) (i x : ℕ) (t : List ℕ)
        → suffix i arg ≡ x ∷ t
        → 0 < x
        → getopt argv optstring (standing a p i)
          ≡ some (take_option argv optstring (standing none none i) arg i)
    unfolding getopt getopt_loop
    one_call a p i x t here pos =
        let (g, _, le) = suffix-next arg i x t here in
        let fuel : length argv + 1 ≡ suc (length argv) = omega arith in
        let inside : leb n (length argv) ≡ true = ground arith in
        let before : (n == length argv) ≡ false = ground arith in
        let readable : leb i (length arg) ≡ true = ground arith in
        let goes_on : (x == 0) ≡ false = ground arith in
        rw (fuel, inside, before, at, dashes, dash, readable, g, goes_on) refl

    flag_call :
        (a : Option (List ℕ)) (p : Option ℕ) (i f d x : ℕ) (t : List ℕ)
        → suffix i arg ≡ f ∷ x ∷ t
        → 0 < f
        → 0 < x
        → behind f optstring ≡ some d
        → (d == 58) ≡ false
        → getopt argv optstring (standing a p i) ≡ some (standing none (some f) (i + 1), option f)
    unfolding take_option
    flag_call a p i f d x t here pos next known plain =
        let (g, more, _) = suffix-next arg i f (x ∷ t) here in
        let (g', _, _) = suffix-next arg (i + 1) x t more in
        let goes_on : (x == 0) ≡ false = ground arith in
        let found : behind (get_or arg i 0) optstring ≡ some d =
          ap (λ (y : ℕ). behind y optstring) g ∙ known in
        one_call a p i f (x ∷ t) here pos
        ∙ (rw (take_option, found, plain, g', goes_on)
            (ap (λ (y : ℕ). some (standing none (some y) (i + 1), option y)) g))

    unknown_call :
        (a : Option (List ℕ)) (p : Option ℕ) (i c : ℕ) (t : List ℕ)
        → suffix i arg ≡ c ∷ t
        → 0 < c
        → behind c optstring ≡ none
        → getopt argv optstring (standing a p i) ≡ some (stuck n c, question)
    unfolding take_option
    unknown_call a p i c t here pos unknown =
        let (g, _, _) = suffix-next arg i c t here in
        let missing : behind (get_or arg i 0) optstring ≡ none =
          ap (λ (y : ℕ). behind y optstring) g ∙ unknown in
        one_call a p i c t here pos
        ∙ (rw (take_option, missing) (ap (λ (y : ℕ). some (stuck n y, question)) g))

    group_calls :
        (flags : List ℕ) (a : Option (List ℕ)) (p : Option ℕ) (i c : ℕ) (s : List ℕ)
        → suffix i arg ≡ flags ++ (c ∷ s)
        → IsFlags flags
        → 0 < c
        → behind c optstring ≡ none
        → calls (suc (length flags)) (standing a p i)
          ≡ some (stuck n c, options flags ++ (question ∷ []))
    unfolding calls
    group_calls [] a p i c s here known pos unknown =
        rw (unknown_call a p i c s here pos unknown) refl
    group_calls (f ∷ []) a p i c s here ((fpos, (d, k, plain)), rest) pos unknown =
        let (_, more, _) = suffix-next arg i f _ here in
        rw
          (
            flag_call a p i f d c s here fpos pos k plain,
            group_calls [] none (some f) (i + 1) c s more tt pos unknown,
          )
          refl
    group_calls (f ∷ g ∷ flags) a p i c s here ((fpos, (d, k, plain)), rest) pos unknown =
        let (_, more, _) = suffix-next arg i f _ here in
        rw
          (
            flag_call a p i f d g _ here fpos rest.0.0 k plain,
            group_calls (g ∷ flags) none (some f) (i + 1) c s more rest pos unknown,
          )
          refl

  rounds :
      (m k n c : ℕ) (xs : List Found)
      → ((a : Option (List ℕ)) (p : Option ℕ)
          → calls k (record { optarg = a; optopt = p; optind = n; optsubind = some 1 })
            ≡ some (stuck n c, xs))
      → calls (m * k) (stuck n c) ≡ some (stuck n c, repeat m xs)
  unfolding calls
  rounds zero k n c xs h = let none_ : 0 * k ≡ 0 = omega arith in rw none_ refl
  rounds (suc m) k n c xs h =
      let more : suc m * k ≡ k + m * k = ground arith in
      rw more (
        calls-join k (m * k) (stuck n c) (stuck n c) (stuck n c) xs (repeat m xs) (h none (some c))
          (rounds m k n c xs h))

  -- At the start of an argument, other than `--`, of options that are known and take no argument, before
  -- one that is not known, so many calls as these are return each of them and a question mark, and stand at the start of
  -- the argument again: however often this is repeated, the same options are returned, and never -1.
  pub getopt-stuck :
      (o : Options) (flags s : List ℕ) (c m : ℕ)
      → o.optsubind ≡ some 1
      → o.optind < length argv
      → get_or argv o.optind [] ≡ 45 ∷ (flags ++ (c ∷ s))
      → is_dashes (45 ∷ (flags ++ (c ∷ s))) ≡ false
      → IsFlags flags
      → 0 < c
      → behind c optstring ≡ none
      → calls (suc m * suc (length flags)) o
        ≡ some (stuck o.optind c, repeat (suc m) (options flags ++ (question ∷ [])))
  getopt-stuck o flags s c m first lt arg dashes known pos unknown =
      let k = suc (length flags) in
      let xs = options flags ++ (question ∷ []) in
      let round = λ (a : Option (List ℕ)) (p : Option ℕ).
        group_calls o.optind (45 ∷ (flags ++ (c ∷ s))) lt arg refl dashes flags a p 1 c s refl known
          pos unknown in
      let more : suc m * k ≡ k + m * k = ground arith in
      let same : calls k o ≡ some (stuck o.optind c, xs) = rw first (round o.optarg o.optopt) in
      rw more (calls-join k (m * k) o _ _ xs (repeat m xs) same (rounds m k o.optind c xs round))

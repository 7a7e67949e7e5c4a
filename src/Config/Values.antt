-- ===== src/Config/Values.antt =====
-- config.c: the functions that get a value of a section, or make it from a default one.
use htools.Prelude.{
  true, false, true-false, Bool-cases, ap₂, arith, get_or, drop, ◌==◌, ◌&&◌, ℕ, none, some,
  if◌then◌else◌, ◌≡◌, ◌⊎◌, inl, inr, refl, sym, ap, ◌∙◌, List, [], ◌∷◌, ◌++◌, length, some-cases,
}
use mathlib.Core.Path.{subst}
use htools.Config.Ops.{
  d_type, i32_type, str_type, Config, ConfigSection, Doubles, str_equal, index_of, config_name,
  new_config, create_config, get_config, setd, seti32, sets, section_getd, section_geti32,
  section_gets, get_or_create,
}
use htools.Config.Names.{
  Distinct, Distinct-append, or_else, index_of-last, index_of-there, update-append,
}

module _ {D : Type 0} (doubles : Doubles D) where
  -- What a section and the index of a value are to the section `s` that was asked for the name `n`:
  -- the value is there and nothing changes, or it is put at the end, as `IsDefault` says.
  pub record Provided (IsDefault : Config D → Type 0) (s : ConfigSection D) (n : List ℕ)
      (r : ConfigSection D × ℕ) : Type 0 where
    pub kept_or_made :
        ((get_config doubles s n ≡ some r.1) × (r.0 ≡ s))
        ⊎ ((get_config doubles s n ≡ none)
            × (r.1 ≡ length s.config_list)
            × ((c : Config D) × IsDefault c
                × (c.name ≡ n)
                × (r.0.config_list ≡ s.config_list ++ (c ∷ []))))
    pub finds :
        (m : List ℕ)
        → get_config doubles r.0 m
          ≡ or_else (get_config doubles s m) (if str_equal n m then some r.1 else none)
    pub distinct : Distinct (config_name doubles) r.0.config_list
    pub name : r.0.name ≡ s.name

  -- A double, with its whole part and its text.
  abbrev pub IsDouble : D → Config D → Type 0
  IsDouble d c =
      (c.kind ≡ d_type)
      × (c.d ≡ d)
      × (c.i32 ≡ doubles.to_i32 d)
      × (c.str ≡ some (doubles.print_d d))

  -- A whole number, with the same as a double and its text.
  abbrev pub IsInteger : ℕ → Config D → Type 0
  IsInteger i c =
      (c.kind ≡ i32_type)
      × (c.d ≡ doubles.of_i32 i)
      × (c.i32 ≡ i)
      × (c.str ≡ some (doubles.print_i32 i))

  -- A text and the numbers that it is: behind `0x` both that of its hexadecimal digits, else the one
  -- that `strtod` and the one that `strtol` reads.
  abbrev pub IsText : List ℕ → Config D → Type 0
  IsText t c =
      (c.kind ≡ str_type)
      × (c.str ≡ some t)
      × (((s : List ℕ) × (t ≡ 48 ∷ 120 ∷ s)
            × (c.i32 ≡ doubles.strtol 16 s)
            × (c.d ≡ doubles.of_i32 (doubles.strtol 16 s)))
          ⊎ ((¬ ((s : List ℕ) × (t ≡ 48 ∷ 120 ∷ s)))
              × (c.i32 ≡ doubles.strtol 10 t)
              × (c.d ≡ doubles.strtod t)))

  hex-split :
      (t : List ℕ) → (get_or t 0 0 == 48 && get_or t 1 0 == 120) ≡ true → t ≡ 48 ∷ 120 ∷ drop 2 t
  hex-split [] h = true-false (sym h)
  hex-split (x ∷ []) h =
      let e : (x == 48 && 0 == 120) ≡ false = ground arith in true-false (sym h ∙ e)
  hex-split (x ∷ y ∷ s) h =
      let a : x ≡ 48 = ground arith in
      let b : y ≡ 120 = ground arith in ap₂ (λ (m n : ℕ). m ∷ n ∷ s) a b

  sets-IsText : (t : List ℕ) (c : Config D) → IsText t (sets doubles t c)
  unfolding sets
  sets-IsText t c = elim (Bool-cases (get_or t 0 0 == 48 && get_or t 1 0 == 120)) [
    | inl hex ↦ rw hex (refl, refl, inl (drop 2 t, hex-split t hex, refl, refl))
    | inr other ↦ rw other (
      refl,
      refl,
      inr (
        λ q.
            let it : (get_or t 0 0 == 48 && get_or t 1 0 == 120) ≡ true =
              ap (λ (u : List ℕ). get_or u 0 0 == 48 && get_or u 1 0 == 120) q.1 in
            true-false (sym it ∙ other),
        refl,
        refl,
      ),
    )
  ]

  get_or_create-there :
      (set : Config D → Config D) (s : ConfigSection D) (n : List ℕ) (i : ℕ)
      → get_config doubles s n ≡ some i
      → get_or_create doubles set s n ≡ (s, i)
  get_or_create-there set s n i there = rw (get_or_create, there) refl

  get_or_create-gone :
      (set : Config D → Config D) (s : ConfigSection D) (n : List ℕ)
      → get_config doubles s n ≡ none
      → get_or_create doubles set s n ≡ (
        record s { config_list = s.config_list ++ (set (new_config doubles n) ∷ []) },
        length s.config_list,
      )
  unfolding create_config
  get_or_create-gone set s n gone =
      let list = update-append set s.config_list (new_config doubles n) in
      rw (get_or_create, gone)
        (ap (λ (l : List (Config D)). (record s { config_list = l }, length s.config_list)) list)

  get_or_create-Provided :
      (IsDefault : Config D → Type 0) (set : Config D → Config D) (s : ConfigSection D) (n : List ℕ)
      → (set (new_config doubles n)).name ≡ n
      → IsDefault (set (new_config doubles n))
      → Distinct (config_name doubles) s.config_list
      → Provided IsDefault s n (get_or_create doubles set s n)
  unfolding get_config
  get_or_create-Provided IsDefault set s n named default h =
      elim (some-cases (get_config doubles s n)) [
        | inr (i, there) ↦
            subst (Provided IsDefault s n) (sym (get_or_create-there set s n i there)) (record {
              kept_or_made = inl (there, refl);
              finds = λ m. index_of-there (config_name doubles) s.config_list n m i there;
              distinct = h;
              name = refl;
            })
        | inl gone ↦
            let c = set (new_config doubles n) in
            let absent : index_of (config_name doubles) s.config_list c.name ≡ none =
              ap (index_of (config_name doubles) s.config_list) named ∙ gone in
            subst (Provided IsDefault s n) (sym (get_or_create-gone set s n gone)) (record {
              kept_or_made = inr (gone, refl, (c, default, named, refl));
              finds = λ m.
                  index_of-last (config_name doubles) s.config_list c m
                  ∙ ap
                      (λ (x : List ℕ).
                        or_else (index_of (config_name doubles) s.config_list m)
                          (if str_equal x m then some (length s.config_list) else none))
                      named;
              distinct = Distinct-append (config_name doubles) s.config_list c h absent;
              name = refl;
            })
      ]

  -- In a section whose values have different names, each of `config_section_getd`,
  -- `config_section_geti32` and `config_section_gets` returns the value with the name and changes
  -- nothing if it is there, and else puts a new one with this name and the default at the end: the
  -- double with its whole part and its text, the whole number with its double and its text, or the text
  -- with the numbers that it is, hexadecimal ones behind `0x`. Afterwards the name finds what was
  -- returned, every other name what it did before, and the names still differ.
  pub section_get-Provided :
      (s : ConfigSection D) (n : List ℕ) (d : D) (i : ℕ) (t : List ℕ)
      → Distinct (config_name doubles) s.config_list
      → Provided (IsDouble d) s n (section_getd doubles s n d)
        × Provided (IsInteger i) s n (section_geti32 doubles s n i)
        × Provided (IsText t) s n (section_gets doubles s n t)
  unfolding section_getd section_geti32 section_gets setd seti32 sets
  section_get-Provided s n d i t h = (
    get_or_create-Provided (IsDouble d) (setd doubles d) s n refl (refl, refl, refl, refl) h,
    get_or_create-Provided (IsInteger i) (seti32 doubles i) s n refl (refl, refl, refl, refl) h,
    get_or_create-Provided (IsText t) (sets doubles t) s n refl
        (sets-IsText t (new_config doubles n)) h,
  )

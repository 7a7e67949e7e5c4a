-- ===== src/Config/Load.antt =====
-- config.c: what `load` makes of the tokens of a lexer.
use htools.Prelude.{
  ℕ, zero, suc, ◌<◌, Option, none, some, Bool, true, false, ◌==◌, if◌then◌else◌, ◌≡◌, inl, inr,
  refl, sym, ap, ◌∙◌, arith, List, length, Returns, Returns-bind, Bool-cases, some-cases,
}
use mathlib.Core.Path.{subst}
use htools.Lexer.Token.{LexerType, Token}
use htools.Config.Ops.{
  ConfigSection, Doubles, d_type, first, index_of, update, at, config_name, section_name,
  get_config, get_section, new_config, create_section, sets, is_alnum, is_error, is_number, Loaded,
  load_section, new_value, load_config, load_loop,
}
use htools.Config.Names.{
  Distinct, Distinct-append, Distinct-update, All, All-append, All-at, All-update, at-append,
  at-update, same_value,
}

-- What `load` relies on of the lexer: a call returns, and if it says so a token is there, and fewer
-- characters are left than before.
pub record IsTokens (L : Type 0) (get : L → Option (L × Token × Bool)) (Left : ℕ → L → Type 0)
    : Type 0 where
  pub gets :
      (n : ℕ) (l : L)
      → Left n l
      → Returns
          (get l)
          (λ q. q.2 ≡ true → (m : ℕ) × Left m q.0 × (m < n) × ((s : List ℕ) × (q.1.str ≡ some s)))

module _ {D : Type 0} (doubles : Doubles D) where
  -- Sections have different names, and so have the values of each.
  pub record WellFormed (coll : List (ConfigSection D)) : Type 0 where
    pub sections : Distinct (section_name doubles) coll
    pub configs : All (λ s. Distinct (config_name doubles) s.config_list) coll

  abbrev pub Fine : Option (List (ConfigSection D)) → Type 0
  Fine none = Unit
  Fine (some coll) = WellFormed coll

  -- The section that values go to is there.
  abbrev IsIn : List (ConfigSection D) → Option ℕ → Type 0
  IsIn coll none = Unit
  IsIn coll (some i) = (s : ConfigSection D) × (at coll i ≡ some s)

  section-WellFormed :
      (coll : List (ConfigSection D)) (n : List ℕ)
      → WellFormed coll
      → get_section doubles coll n ≡ none
      → WellFormed (create_section doubles coll n)
  unfolding get_section create_section
  section-WellFormed coll n w gone = record {
    sections = Distinct-append (section_name doubles) coll _ w.sections gone;
    configs = All-append _ coll _ w.configs tt;
  }

  value-Distinct :
      (s : ConfigSection D) (n v : List ℕ) (kind : LexerType)
      → Distinct (config_name doubles) s.config_list
      → get_config doubles s n ≡ none
      → Distinct (config_name doubles) (new_value doubles n v kind s).config_list
  unfolding get_config sets
  value-Distinct s n v kind h gone =
      Distinct-append (config_name doubles) s.config_list _ h
        (ap (index_of (config_name doubles) s.config_list) (named (is_number kind)) ∙ gone)
    where
      named :
          (k : Bool)
          → (if k
              then record (sets doubles v (new_config doubles n)) { kind = d_type }
              else sets doubles v (new_config doubles n)).name
            ≡ n
      named true = refl
      named false = refl

  value-WellFormed :
      (coll : List (ConfigSection D)) (i : ℕ) (s : ConfigSection D) (n v : List ℕ)
      (kind : LexerType)
      → WellFormed coll
      → at coll i ≡ some s
      → get_config doubles s n ≡ none
      → WellFormed (update (new_value doubles n v kind) coll i)
  value-WellFormed coll i s n v kind w there gone = record {
    sections =
        Distinct-update (section_name doubles) (new_value doubles n v kind) (λ x. refl) coll i
          w.sections;
    configs =
        All-update (λ s. Distinct (config_name doubles) s.config_list) (new_value doubles n v kind)
          coll i w.configs
          (λ x at_x.
            let same : s ≡ x = same_value s x (sym there ∙ at_x) in
            subst (λ x. Distinct (config_name doubles) (new_value doubles n v kind x).config_list)
              same (value-Distinct s n v kind (All-at _ coll i s w.configs there) gone));
  }

  module _ {L : Type 0} (get : L → Option (L × Token × Bool)) (Left : ℕ → L → Type 0)
      (tokens : IsTokens L get Left) where
    abbrev Next : Type 0
    Next = L → List (ConfigSection D) → Option ℕ → Option (Loaded D L)

    -- What the next round does with fewer than `n` characters left.
    abbrev IsFine : ℕ → Next → Type 0
    IsFine n rest =
        (m : ℕ) (l : L) (coll : List (ConfigSection D)) (last : Option ℕ)
        → m < n
        → Left m l
        → WellFormed coll
        → IsIn coll last
        → Returns (rest l coll last) (λ r. Fine r.1)

    last-IsIn :
        (coll : List (ConfigSection D)) (n : List ℕ)
        → IsIn (create_section doubles coll n) (some (length coll))
    unfolding create_section
    last-IsIn coll n = (_, at-append coll _)

    load_section-Fine :
        (rest : Next) (n m : ℕ) (l : L) (coll : List (ConfigSection D))
        → IsFine n rest
        → m < n
        → Left m l
        → WellFormed coll
        → Returns (load_section doubles get rest l coll) (λ r. Fine r.1)
    unfolding load_section
    load_section-Fine rest n m l coll k lt left w =
        Returns-bind _ _ (get l) _ (tokens.gets m l left) (λ q g. elim (Bool-cases q.2) [
          | inr stopped ↦ rw stopped tt
          | inl ok ↦
              let (m2, left2, le2, (name, str)) = g ok in
              elim (Bool-cases (is_alnum q.1.kind)) [
                | inr other ↦ rw (ok, other) tt
                | inl alnum ↦ elim (some-cases (get_section doubles coll name)) [
                  | inr (i, found) ↦ rw (ok, alnum, str, Returns, found) tt
                  | inl gone ↦
                      rw (ok, alnum, str, Returns, gone)
                        (Returns-bind _ _ (get q.0) _ (tokens.gets m2 q.0 left2) (λ p h.
                          elim (Bool-cases p.2) [
                            | inr stopped ↦ rw stopped tt
                            | inl ok' ↦
                                let (m3, left3, le3, (s, str')) = h ok' in
                                elim (Bool-cases (first s == 93)) [
                                  | inr open_ ↦ rw (ok', str', open_) tt
                                  | inl closed ↦
                                      rw (ok', str', closed)
                                        (k m3 p.0 (create_section doubles coll name)
                                          (some (length coll)) (omega arith) left3
                                          (section-WellFormed coll name w gone)
                                          (last-IsIn coll name))
                                ]
                          ]))
                ]
              ]
        ])

    load_config-Fine :
        (rest : Next) (n m : ℕ) (l : L) (name : List ℕ) (coll : List (ConfigSection D)) (i : ℕ)
        → IsFine n rest
        → m < n
        → Left m l
        → WellFormed coll
        → IsIn coll (some i)
        → Returns (load_config doubles get rest l name coll i) (λ r. Fine r.1)
    unfolding load_config
    load_config-Fine rest n m l name coll i k lt left w (s, there) =
        elim (some-cases (get_config doubles s name)) [
          | inr (j, found) ↦ rw (there, Returns, found) tt
          | inl gone ↦
              rw (there, Returns, gone)
                (Returns-bind _ _ (get l) _ (tokens.gets m l left) (λ q g. elim (Bool-cases q.2) [
                  | inr stopped ↦ rw stopped tt
                  | inl ok ↦
                      let (m2, left2, le2, (s2, str)) = g ok in
                      elim (Bool-cases (first s2 == 61)) [
                        | inr other ↦ rw (ok, str, other) tt
                        | inl equals ↦
                            rw (ok, str, equals)
                              (Returns-bind _ _ (get q.0) _ (tokens.gets m2 q.0 left2) (λ p h.
                                elim (Bool-cases p.2) [
                                  | inr stopped ↦ rw stopped tt
                                  | inl ok' ↦
                                      let (m3, left3, le3, (v, str')) = h ok' in
                                      rw (ok', str')
                                        (k m3 p.0
                                          (update (new_value doubles name v p.1.kind) coll i)
                                          (some i) (omega arith) left3
                                          (value-WellFormed coll i s name v p.1.kind w there gone)
                                          (
                                            new_value doubles name v p.1.kind s,
                                            at-update (new_value doubles name v p.1.kind) coll i s
                                                there,
                                          ))
                                ]))
                      ]
                ]))
        ]

    pub load_loop-Fine :
        (fuel n : ℕ) (l : L) (coll : List (ConfigSection D)) (last : Option ℕ)
        → n < fuel
        → Left n l
        → WellFormed coll
        → IsIn coll last
        → Returns (load_loop doubles get fuel l coll last) (λ r. Fine r.1)
    unfolding load_loop
    load_loop-Fine zero n l coll last lt left w i = absurd (omega arith)
    load_loop-Fine (suc fuel) n l coll last lt left w i =
        let rest : Next = λ l coll last. load_loop doubles get fuel l coll last in
        let k : IsFine n rest =
          λ m l coll last less left w i. load_loop-Fine fuel m l coll last (omega arith) left w i in
        Returns-bind _ _ (get l) _ (tokens.gets n l left) (λ q g. elim (Bool-cases q.2) [
          | inr stopped ↦ elim (Bool-cases (is_error q.1.kind)) [
            | inl error ↦ rw (stopped, error) tt
            | inr ended ↦ rw (stopped, ended) w
          ]
          | inl ok ↦
              let (m, left', less, (s, str)) = g ok in
              elim (Bool-cases (first s == 91)) [
                | inl section ↦
                    rw (ok, str, section) (load_section-Fine rest n m q.0 coll k less left' w)
                | inr other ↦ elim (Bool-cases (is_alnum q.1.kind)) [
                  | inr neither ↦ rw (ok, str, other, neither) tt
                  | inl name ↦ rw (ok, str, other, name) (within q.0 s m last i less left' k)
                ]
              ]
        ])
      where
        within :
            (l' : L) (s : List ℕ) (m : ℕ) (last : Option ℕ)
            → IsIn coll last
            → m < n
            → Left m l'
            → IsFine n (λ l coll last. load_loop doubles get fuel l coll last)
            → Returns {A = Loaded D L}
                (elim last as (λ _. Option (Loaded D L)) [
                  | none ↦ some (l', none)
                  | some i ↦
                      load_config doubles get
                        (λ l coll last. load_loop doubles get fuel l coll last)
                        l'
                        s
                        coll
                        i
                ])
                (λ r. Fine r.1)
        within l' s m none i less left' k = tt
        within l' s m (some j) i less left' k =
            load_config-Fine (λ l coll last. load_loop doubles get fuel l coll last) n m l' s coll j
              k less left' w i

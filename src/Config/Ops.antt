-- ===== src/Config/Ops.antt =====
-- hutils/src/config.c: sections and values, as lists in the order of the tail queues. A pointer to a
-- member of a list is its index.
use htools.Prelude.{
  ℕ, zero, suc, min, Option, none, some, Bool, true, false, ◌==◌, if◌then◌else◌, ◌&&◌, ◌||◌, not,
  ◌>>=◌, List, [], ◌∷◌, ◌++◌, length, take, drop, get_or,
}
use htools.Lexer.Token.{
  LexerType, alnum_token, eof_token, error_token, hex_token, literal_token, number_token,
  symbol_token, Token,
}

-- `enum ConfigType`.
pub data ConfigType : Type 0 where
  d_type i32_type str_type : ConfigType

pub record Config (D : Type 0) : Type 0 where
  pub name : List ℕ
  pub kind : ConfigType
  pub d : D
  pub i32 : ℕ
  pub str : Option (List ℕ)

pub record ConfigSection (D : Type 0) : Type 0 where
  pub name : List ℕ
  pub config_list : List (Config D)

-- `double`, with what the code asks of it and of the C library: an `int32_t` modulo 2 ^ 32 as a
-- double and back, `strtod`, `strtol` by its base, and the formats %g and %d.
pub record Doubles (D : Type 0) : Type 0 where
  pub zero_ : D
  pub of_i32 : ℕ → D
  pub to_i32 : D → ℕ
  pub strtod : List ℕ → D
  pub strtol : ℕ → List ℕ → ℕ
  pub print_d : D → List ℕ
  pub print_i32 : ℕ → List ℕ

-- `0 == strcmp`.
abbrev pub str_equal : List ℕ → List ℕ → Bool
str_equal [] [] = true
str_equal [] (d ∷ t) = false
str_equal (c ∷ s) [] = false
str_equal (c ∷ s) (d ∷ t) = c == d && str_equal s t

-- The first character of a C string.
abbrev pub first : List ℕ → ℕ
first [] = 0
first (c ∷ s) = c

-- The index of the first member with a name.
unfoldable pub index_of : {A : Type 0} → (A → List ℕ) → List A → List ℕ → Option ℕ
index_of name [] n = none
index_of name (x ∷ xs) n =
    let rest = (do i ← index_of name xs n; some (suc i)) in
    if str_equal (name x) n then some 0 else rest

-- A change through a pointer.
unfoldable pub update : {A : Type 0} → (A → A) → List A → ℕ → List A
update f [] i = []
update f (x ∷ xs) zero = f x ∷ xs
update f (x ∷ xs) (suc i) = x ∷ update f xs i

unfoldable pub at : {A : Type 0} → List A → ℕ → Option A
at [] i = none
at (x ∷ xs) zero = some x
at (x ∷ xs) (suc i) = at xs i

module _ {D : Type 0} (doubles : Doubles D) where
  abbrev pub config_name : Config D → List ℕ
  config_name c = c.name

  abbrev pub section_name : ConfigSection D → List ℕ
  section_name s = s.name

  unfoldable pub get_config : ConfigSection D → List ℕ → Option ℕ
  get_config s n = index_of config_name s.config_list n

  unfoldable pub get_section : List (ConfigSection D) → List ℕ → Option ℕ
  get_section coll n = index_of section_name coll n

  -- `CALLOC` of a configuration, whose type 0 is CONFIG_TYPE_D.
  abbrev pub new_config : List ℕ → Config D
  new_config n = record { name = n; kind = d_type; d = doubles.zero_; i32 = 0; str = none }

  unfoldable pub create_config : ConfigSection D → List ℕ → ConfigSection D
  create_config s n = record s { config_list = s.config_list ++ (new_config n ∷ []) }

  unfoldable pub create_section : List (ConfigSection D) → List ℕ → List (ConfigSection D)
  create_section coll n = coll ++ (record { name = n; config_list = [] } ∷ [])

  unfoldable pub collection_get_section :
      List (ConfigSection D) → List ℕ → List (ConfigSection D) × ℕ
  collection_get_section coll n = elim (get_section coll n) [
    | none ↦ (create_section coll n, length coll)
    | some i ↦ (coll, i)
  ]

  unfoldable pub setd : D → Config D → Config D
  setd d c = record {
    name = c.name;
    kind = d_type;
    d = d;
    i32 = doubles.to_i32 d;
    str = some (doubles.print_d d);
  }

  unfoldable pub seti32 : ℕ → Config D → Config D
  seti32 i c = record {
    name = c.name;
    kind = i32_type;
    d = doubles.of_i32 i;
    i32 = i;
    str = some (doubles.print_i32 i);
  }

  unfoldable pub sets : List ℕ → Config D → Config D
  sets s c =
      let hex = doubles.strtol 16 (drop 2 s) in
      let is_hex = get_or s 0 0 == 48 && get_or s 1 0 == 120 in
      record {
        name = c.name;
        kind = str_type;
        d = if is_hex then doubles.of_i32 hex else doubles.strtod s;
        i32 = if is_hex then hex else doubles.strtol 10 s;
        str = some s;
      }

  -- The three functions that get a value or set a default one.
  abbrev pub get_or_create : (Config D → Config D) → ConfigSection D → List ℕ → ConfigSection D × ℕ
  get_or_create set s n =
      let s' = create_config s n in
      let i = length s.config_list in
      elim (get_config s n) [
        | none ↦ (record s' { config_list = update set s'.config_list i }, i)
        | some i ↦ (s, i)
      ]

  unfoldable pub section_getd : ConfigSection D → List ℕ → D → ConfigSection D × ℕ
  section_getd s n d = get_or_create (setd d) s n

  unfoldable pub section_geti32 : ConfigSection D → List ℕ → ℕ → ConfigSection D × ℕ
  section_geti32 s n i = get_or_create (seti32 i) s n

  unfoldable pub section_gets : ConfigSection D → List ℕ → List ℕ → ConfigSection D × ℕ
  section_gets s n t = get_or_create (sets t) s n

-- `memory_read`, on the bytes behind `ofs`, which it leaves where they are.
unfoldable pub memory_read : List ℕ → ℕ → List ℕ × List ℕ
memory_read left size = (take (min (length left) size) left, left)

abbrev pub is_alnum : LexerType → Bool
is_alnum alnum_token = true
is_alnum eof_token = false
is_alnum error_token = false
is_alnum hex_token = false
is_alnum literal_token = false
is_alnum number_token = false
is_alnum symbol_token = false

abbrev pub is_error : LexerType → Bool
is_error alnum_token = false
is_error eof_token = false
is_error error_token = true
is_error hex_token = false
is_error literal_token = false
is_error number_token = false
is_error symbol_token = false

abbrev pub is_number : LexerType → Bool
is_number alnum_token = false
is_number eof_token = false
is_number error_token = false
is_number hex_token = false
is_number literal_token = false
is_number number_token = true
is_number symbol_token = false

-- What `load` yields: the lexer, and the collection or a null pointer.
abbrev pub Loaded : Type 0 → Type 0 → Type 0
Loaded D L = L × Option (List (ConfigSection D))

-- A value of a section from its token.
abbrev pub new_value :
    {D : Type 0} → Doubles D → List ℕ → List ℕ → LexerType → ConfigSection D → ConfigSection D
new_value doubles name value kind s =
    let c = sets doubles value (new_config doubles name) in
    record s {
      config_list =
          s.config_list ++ ((if is_number kind then record c { kind = d_type } else c) ∷ []);
    }

module _ {D : Type 0} (doubles : Doubles D) {L : Type 0} (get : L → Option (L × Token × Bool)) where
  -- `[` and what follows; `rest` is the next round.
  unfoldable pub load_section :
      (L → List (ConfigSection D) → Option ℕ → Option (Loaded D L))
      → L
      → List (ConfigSection D)
      → Option (Loaded D L)
  load_section rest l coll = do
    (l2, t2, ok2) ← get l
    if not ok2 || not (is_alnum t2.kind) then some (l2, none) else (do
      name ← t2.str
      elim (get_section doubles coll name) [
        | some i ↦ some (l2, none)
        | none ↦ (do
          (l3, t3, ok3) ← get l2
          if not ok3 then some (l3, none) else (do
            s3 ← t3.str
            if first s3 == 93
                then rest l3 (create_section doubles coll name) (some (length coll))
                else some (l3, none)))
      ])

  -- A name and what follows.
  unfoldable pub load_config :
      (L → List (ConfigSection D) → Option ℕ → Option (Loaded D L))
      → L
      → List ℕ
      → List (ConfigSection D)
      → ℕ
      → Option (Loaded D L)
  load_config rest l name coll last = do
    s ← at coll last
    elim (get_config doubles s name) [
      | some i ↦ some (l, none)
      | none ↦ (do
        (l2, t2, ok2) ← get l
        if not ok2 then some (l2, none) else (do
          s2 ← t2.str
          if not (first s2 == 61) then some (l2, none) else (do
            (l3, t3, ok3) ← get l2
            if not ok3 then some (l3, none) else (do
              value ← t3.str
              rest l3 (update (new_value doubles name value t3.kind) coll last) (some last)))))
    ]

  unfoldable pub load_loop : ℕ → L → List (ConfigSection D) → Option ℕ → Option (Loaded D L)
  load_loop zero l coll last = none
  load_loop (suc fuel) l coll last =
      let rest =
        λ (l : L) (coll : List (ConfigSection D)) (last : Option ℕ). load_loop fuel l coll last in
      do
        (l1, t, ok) ← get l
        if not ok then some (l1, if is_error t.kind then none else some coll) else (do
          s ← t.str
          if first s == 91
              then load_section rest l1 coll
              else if is_alnum t.kind
              then elim last [ none ↦ some (l1, none) | some i ↦ load_config rest l1 s coll i ]
              else some (l1, none))

  unfoldable pub load : ℕ → L → Option (Loaded D L)
  load fuel l = load_loop fuel l [] none

-- ===== src/Hwt/Registry.antt =====
-- hwt: the types of widgets that `hwt_create` registers, in hwt/src/hwt.c, and the functions that
-- create widgets, with the static pointer `g_type` of each type.
use htools.Prelude.{
  ℕ, zero, suc, ◌+◌, ◌*◌, ◌≤◌, ◌<◌, Option, none, some, Bool, true, false, ltb, ◌==◌, if◌then◌else◌,
  ◌||◌, ◌≡◌, refl, ap, inl, inr, Bool-cases, arith, List, [], ◌∷◌, ◌++◌,
}
use htools.Hwt.Base.{Floats, Rect}
use htools.Hwt.Ops.{Widget, null, button, grid, label, panel, Widgets, end, next}
use htools.Hwt.Measure.{count}

-- The static pointers, and the address of the next type that is allocated.
pub record Statics : Type 0 where
  pub fresh : ℕ
  pub button_type : ℕ
  pub grid_type : ℕ
  pub label_type : ℕ
  pub panel_type : ℕ

-- The types of a `struct HWT`, as addresses.
unfoldable pub register_type : Statics → List ℕ → Statics × List ℕ
register_type s types = (record s { fresh = s.fresh + 1 }, types ++ (s.fresh ∷ []))

unfoldable pub button_setup : Statics → List ℕ → Statics × List ℕ
button_setup s types =
    let (s', types') = register_type s types in (record s' { button_type = s.fresh }, types')

unfoldable pub grid_setup : Statics → List ℕ → Statics × List ℕ
grid_setup s types =
    let (s', types') = register_type s types in (record s' { grid_type = s.fresh }, types')

unfoldable pub label_setup : Statics → List ℕ → Statics × List ℕ
label_setup s types =
    let (s', types') = register_type s types in (record s' { label_type = s.fresh }, types')

unfoldable pub panel_setup : Statics → List ℕ → Statics × List ℕ
panel_setup s types =
    let (s', types') = register_type s types in (record s' { panel_type = s.fresh }, types')

unfoldable pub hwt_create : Statics → Statics × List ℕ
hwt_create s =
    let (s1, t1) = button_setup s [] in
    let (s2, t2) = grid_setup s1 t1 in let (s3, t3) = label_setup s2 t2 in panel_setup s3 t3

-- Whether a type is one of those registered; if it is none, `hwt_widget_create` aborts.
unfoldable pub is_registered : ℕ → List ℕ → Bool
is_registered type [] = false
is_registered type (t ∷ types) = type == t || is_registered type types

unfoldable pub widget_create : {A : Type 0} → List ℕ → ℕ → A → Option A
widget_create types type widget = if is_registered type types then some widget else none

create-registered :
    {A : Type 0} (types : List ℕ) (t : ℕ) (w : A)
    → is_registered t types ≡ true
    → widget_create types t w ≡ some w
unfolding widget_create
create-registered types t w e = rw e refl

create-unregistered :
    {A : Type 0} (types : List ℕ) (t : ℕ) (w : A)
    → is_registered t types ≡ false
    → widget_create types t w ≡ none
unfolding widget_create
create-unregistered types t w e = rw e refl

-- `CALLOC` of the children of a grid.
abbrev pub nulls : {F : Type 0} → ℕ → Widgets F
nulls zero = end
nulls (suc n) = next null (nulls n)

module _ {F : Type 0} (floats : Floats F) where
  abbrev no_rect : Rect F
  no_rect = record {
    x = floats.zero_;
    y = floats.zero_;
    width = floats.zero_;
    height = floats.zero_;
  }

  unfoldable pub button_create : Statics → List ℕ → Option (Widget F)
  button_create s types = widget_create types s.button_type (button no_rect none null)

  unfoldable pub label_create : Statics → List ℕ → List ℕ → Option (Widget F)
  label_create s types text = widget_create types s.label_type (label no_rect text)

  unfoldable pub panel_create : Statics → List ℕ → Option (Widget F)
  panel_create s types = widget_create types s.panel_type (panel no_rect null)

  abbrev pub new_grid : ℕ → ℕ → Widget F
  new_grid row_num col_num =
      grid no_rect
        (record {
          row_num = row_num;
          col_num = col_num;
          row_min = λ _. floats.zero_;
          col_min = λ _. floats.zero_;
          min = record { width = floats.zero_; height = floats.zero_ };
        })
        (nulls (row_num * col_num))

  unfoldable pub grid_create : Statics → List ℕ → ℕ → ℕ → Option (Widget F)
  grid_create s types row_num col_num =
      if row_num == 0 || ltb 1000 row_num || col_num == 0 || ltb 1000 col_num
      then none
      else widget_create types s.grid_type (new_grid row_num col_num)

  -- The functions that create widgets work on the types of a `struct HWT`.
  pub record Creates (s : Statics) (types : List ℕ) : Type 0 where
    pub buttons : button_create s types ≡ some (button no_rect none null)
    pub labels : (text : List ℕ) → label_create s types text ≡ some (label no_rect text)
    pub panels : panel_create s types ≡ some (panel no_rect null)
    pub grids :
        (row_num col_num : ℕ)
        → 0 < row_num
        → row_num ≤ 1000
        → 0 < col_num
        → col_num ≤ 1000
        → (grid_create s types row_num col_num ≡ some (new_grid row_num col_num))
          × (count (nulls {F = F} (row_num * col_num)) ≡ row_num * col_num)

  -- They abort on these types.
  pub record Refuses (s : Statics) (types : List ℕ) : Type 0 where
    pub buttons : button_create s types ≡ none
    pub labels : (text : List ℕ) → label_create s types text ≡ none
    pub panels : panel_create s types ≡ none
    pub grids : (row_num col_num : ℕ) → grid_create s types row_num col_num ≡ none

  count-nulls : (n : ℕ) → count (nulls {F = F} n) ≡ n
  count-nulls zero = refl
  count-nulls (suc n) = ap suc (count-nulls n)

  grid_create-in_range :
      (s : Statics) (types : List ℕ) (row_num col_num : ℕ)
      → 0 < row_num
      → row_num ≤ 1000
      → 0 < col_num
      → col_num ≤ 1000
      → is_registered s.grid_type types ≡ true
      → grid_create s types row_num col_num ≡ some (new_grid row_num col_num)
  unfolding grid_create
  grid_create-in_range s types row_num col_num a b c d e =
      let fits : (row_num == 0 || ltb 1000 row_num || col_num == 0 || ltb 1000 col_num) ≡ false =
        ground arith in
      rw fits (create-registered types s.grid_type _ e)

  grid_create-unregistered :
      (s : Statics) (types : List ℕ) (row_num col_num : ℕ)
      → is_registered s.grid_type types ≡ false
      → grid_create s types row_num col_num ≡ none
  unfolding grid_create
  grid_create-unregistered s types row_num col_num e =
      elim (Bool-cases (row_num == 0 || ltb 1000 row_num || col_num == 0 || ltb 1000 col_num)) [
        | inl bad ↦ rw bad refl
        | inr fits ↦ rw fits (create-unregistered types s.grid_type _ e)
      ]

  -- After two calls of `hwt_create` the functions that create widgets work for the second `struct HWT`, where
  -- a grid has 1 to 1000 rows and columns and gets a null pointer for each of its cells, and they
  -- abort for the first one.
  pub hwt_create-latest :
      (s : Statics)
      → Creates (hwt_create (hwt_create s).0).0 (hwt_create (hwt_create s).0).1
        × Refuses (hwt_create (hwt_create s).0).0 (hwt_create s).1
  unfolding hwt_create register_type button_setup grid_setup label_setup panel_setup is_registered
      button_create label_create panel_create
  hwt_create-latest s =
      let (s1, first) = hwt_create s in
      let (s2, second) = hwt_create s1 in
      (
        record {
          buttons = create-registered second s2.button_type _ (ground arith);
          labels = λ text. create-registered second s2.label_type _ (ground arith);
          panels = create-registered second s2.panel_type _ (ground arith);
          grids = λ row_num col_num a b c d. (
            grid_create-in_range s2 second row_num col_num a b c d (ground arith),
            count-nulls (row_num * col_num),
          );
        },
        record {
          buttons = create-unregistered first s2.button_type _ (ground arith);
          labels = λ text. create-unregistered first s2.label_type _ (ground arith);
          panels = create-unregistered first s2.panel_type _ (ground arith);
          grids =
              λ row_num col_num. grid_create-unregistered s2 first row_num col_num (ground arith);
        },
      )

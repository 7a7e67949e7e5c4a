-- ===== src/Config/Tests.antt =====
-- A short text that config.c reads, and the theorem at that text.
use htools.Prelude.{ℕ, Option, none, some, ◌≡◌, refl, arith, List, [], ◌∷◌, Returns}
use mathlib.Core.Option
use htools.Lexer.Ops.{Lexer, cstr_callback, create, extract}
use htools.Lexer.Ring.{cstr_callback-IsReader, create-Holds}
use htools.Lexer.Token.{
  word_token, number, fraction, digits, digit_loop, optional_char, exponent, with_exponent,
  blank_loop, comment_loop, scan_loop, number_or_symbol, token_at, token_loop, token_get,
}
use htools.Config.Ops.{
  create_config, section_getd, section_geti32, section_gets, Doubles, ConfigSection, d_type,
  index_of, update, at, get_config, get_section, create_section, sets, load_section, load_config,
  load_loop, load,
}
use htools.Config.Load.{Fine}
use htools.Config.Values.{Provided, IsDouble, IsInteger, IsText, section_get-Provided}
use htools.Config.Stream.{short-AllFit, load-Fine}

-- Whole numbers of one digit in place of doubles.
abbrev digit : List ℕ → ℕ
digit [] = 0
digit (c ∷ s) = c

abbrev doubles : Doubles ℕ
doubles = record {
  zero_ = 0;
  of_i32 = λ i. i;
  to_i32 = λ d. d;
  strtod = digit;
  strtol = λ base s. digit s;
  print_d = λ d. d ∷ [];
  print_i32 = λ i. i ∷ [];
}

abbrev junk : ℕ → ℕ
junk i = 170

-- `[a]` and `b=1` on a line.
abbrev text : List ℕ
text = 91 ∷ 97 ∷ 93 ∷ 10 ∷ 98 ∷ 61 ∷ 49 ∷ []

abbrev loaded : List ℕ → Option (Option (List (ConfigSection ℕ)))
loaded s =
    Option.map (λ (r : Lexer (List ℕ) × Option (List (ConfigSection ℕ))). r.1)
      (load doubles (token_get cstr_callback junk 20) 20 (create s))

load-text :
    loaded text
    ≡ some (
        some (
          record {
            name = 97 ∷ [];
            config_list =
                record { name = 98 ∷ []; kind = d_type; d = 49; i32 = 49; str = some (49 ∷ []) }
                ∷ [];
          }
          ∷ []))
unfolding load load_loop load_section load_config get_section get_config index_of create_section
    update at sets token_get token_loop token_at word_token blank_loop comment_loop scan_loop
    number_or_symbol number fraction with_exponent exponent digits digit_loop optional_char extract
    create cstr_callback
load-text = refl

-- A section that stands twice.
load-twice : loaded (91 ∷ 97 ∷ 93 ∷ 91 ∷ 97 ∷ 93 ∷ []) ≡ some none
unfolding load load_loop load_section get_section index_of create_section token_get token_loop
    token_at word_token blank_loop comment_loop scan_loop number_or_symbol number fraction
    with_exponent exponent digits digit_loop optional_char extract create cstr_callback
load-twice = refl

load-Fine_example :
    Returns
      (load doubles (token_get cstr_callback junk 20) 20 (create text))
      (λ r. Fine doubles r.1)
load-Fine_example =
    load-Fine cstr_callback junk (λ s. s) cstr_callback-IsReader 20 doubles text (create text)
      (omega arith)
      (
        omega arith,
        omega arith,
        (
          omega arith,
          omega arith,
          (
            omega arith,
            omega arith,
            (
              omega arith,
              omega arith,
              (
                omega arith,
                omega arith,
                (omega arith, omega arith, (omega arith, omega arith, tt)),
              ),
            ),
          ),
        ),
      )
      (short-AllFit text (omega arith)) (create-Holds (λ s. s) text (omega arith))

-- A section with one value, `b`.
abbrev section : ConfigSection ℕ
section = record {
  name = 97 ∷ [];
  config_list =
      record { name = 98 ∷ []; kind = d_type; d = 49; i32 = 49; str = some (49 ∷ []) } ∷ [];
}

-- The value `c` is made, the value `b` is there.
get-made : (section_geti32 doubles section (99 ∷ []) 7).1 ≡ 1
unfolding section_geti32 get_config index_of create_config
get-made = refl

get-kept : section_geti32 doubles section (98 ∷ []) 7 ≡ (section, 0)
unfolding section_geti32 get_config index_of
get-kept = refl

section_get-Provided_example :
    Provided doubles
      (IsDouble doubles 5)
      section
      (99 ∷ [])
      (section_getd doubles section (99 ∷ []) 5)
    × Provided doubles
        (IsInteger doubles 7)
        section
        (99 ∷ [])
        (section_geti32 doubles section (99 ∷ []) 7)
    × Provided doubles
        (IsText doubles (56 ∷ []))
        section
        (99 ∷ [])
        (section_gets doubles section (99 ∷ []) (56 ∷ []))
unfolding index_of
section_get-Provided_example =
    section_get-Provided doubles section (99 ∷ []) 5 7 (56 ∷ []) (refl, tt)

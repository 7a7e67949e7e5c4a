-- ===== src/Lexer/Tests.antt =====
-- Runs of lexer.c on a short C string, and the theorems at that string.
use htools.Prelude.{
  ℕ, Option, Bool, true, some, ◌≡◌, refl, arith, inr, List, [], ◌∷◌, take, drop, Returns,
}
use mathlib.Core.Option
use htools.Lexer.Ops.{Lexer, no_error, cstr_callback, create, peek_char, extract, skip}
use htools.Lexer.Ring.{Holds, cstr_callback-IsReader, create-Holds}
use htools.Lexer.Token.{
  Token, hex_token, literal_token, number_token, number, fraction, digits, digit_loop,
  optional_char, exponent, with_exponent, blank_loop, comment_loop, scan_loop, literal_loop,
  literal_token_, hex_token_, number_or_symbol, token_at, token_loop, token_get,
}
use htools.Lexer.Got.{Got, short-Fits, token_get-Got}
use htools.Lexer.Peek.{Peeks, peek_char-Peeks}
use htools.Lexer.Walk.{IsPlain, Walked, split_at, mem, extract-Walked, skip-Walked}

-- Two lines: `ab` and `c`.
abbrev text : List ℕ
text = 97 ∷ 98 ∷ 10 ∷ 99 ∷ []

abbrev junk : ℕ → ℕ
junk i = 170

abbrev lexer : Lexer (List ℕ)
lexer = create text

text-IsPlain : IsPlain text
text-IsPlain = (omega arith, (omega arith, (omega arith, (omega arith, tt))))

lexer-Holds : Holds (List ℕ) (λ s. s) text lexer
lexer-Holds = create-Holds (λ s. s) text (omega arith)

extract-line :
    Option.map {B = List ℕ × ℕ × ℕ}
      (λ (r : Lexer (List ℕ) × List ℕ). (r.1, r.0.line_no, r.0.col_no))
      (extract cstr_callback junk lexer 3)
    ≡ some (97 ∷ 98 ∷ 10 ∷ [], 2, 1)
unfolding extract create cstr_callback
extract-line = refl

-- The byte 255 is taken for the end of the stream.
extract-stops :
    Option.map
      (λ (r : Lexer (List ℕ) × List ℕ). r.1)
      (extract cstr_callback junk (create (97 ∷ 255 ∷ 98 ∷ [])) 3)
    ≡ some (97 ∷ [])
unfolding extract create cstr_callback
extract-stops = refl

peek_char-Peeks_example :
    Peeks (List ℕ) (λ s. s) text 1 lexer (peek_char cstr_callback junk lexer 1)
peek_char-Peeks_example =
    peek_char-Peeks cstr_callback junk (λ s. s) cstr_callback-IsReader text lexer lexer-Holds 1
      (omega arith) (inr (omega arith))

extract-Walked_example :
    Returns
      (extract cstr_callback junk lexer 3)
      (λ r. Walked (List ℕ) (λ s. s) (take 3 text) (drop 3 text) lexer r.0 × (r.1 ≡ take 3 text))
extract-Walked_example =
    extract-Walked cstr_callback junk (λ s. s) cstr_callback-IsReader 3 text lexer text-IsPlain
      lexer-Holds

skip-Walked_example : Returns (skip cstr_callback junk 5 lexer 10) (λ r.
    Walked
      (List ℕ)
      (λ s. s)
      (split_at 10 text).0
      (split_at 10 text).1
      (record lexer { error = no_error })
      r.0
    × (r.1 ≡ mem 10 text))
skip-Walked_example =
    skip-Walked cstr_callback junk (λ s. s) cstr_callback-IsReader 5 10 text lexer (omega arith)
      text-IsPlain lexer-Holds (omega arith)

-- ` #a`, and on the next line `0x1F;`.
abbrev hex_text : List ℕ
hex_text = 32 ∷ 35 ∷ 97 ∷ 10 ∷ 48 ∷ 120 ∷ 49 ∷ 70 ∷ 59 ∷ []

abbrev shown_token : List ℕ → Option ((Token × Bool) × ℕ × ℕ)
shown_token s =
    Option.map (λ (r : Lexer (List ℕ) × Token × Bool). ((r.1, r.2), r.0.line_no, r.0.col_no))
      (token_get cstr_callback junk 20 (create s))

-- The token of this text, and the position behind it.
token_get-hex :
    shown_token hex_text
    ≡ some ((record { kind = hex_token; str = some (48 ∷ 120 ∷ 49 ∷ 70 ∷ []) }, true), 2, 5)
unfolding token_get token_loop token_at blank_loop comment_loop hex_token_ scan_loop extract create
    cstr_callback
token_get-hex = refl

-- `-1.5e3x`, a number before a word.
token_get-number :
    shown_token (45 ∷ 49 ∷ 46 ∷ 53 ∷ 101 ∷ 51 ∷ 120 ∷ [])
    ≡ some (
      (record { kind = number_token; str = some (45 ∷ 49 ∷ 46 ∷ 53 ∷ 101 ∷ 51 ∷ []) }, true),
      1,
      7,
    )
unfolding token_get token_loop token_at blank_loop number_or_symbol number fraction with_exponent
    exponent digits digit_loop optional_char extract create cstr_callback
token_get-number = refl

-- `"a b"`, a literal.
token_get-literal :
    shown_token (34 ∷ 97 ∷ 32 ∷ 98 ∷ 34 ∷ [])
    ≡ some ((record { kind = literal_token; str = some (97 ∷ 32 ∷ 98 ∷ []) }, true), 1, 6)
unfolding token_get token_loop token_at blank_loop literal_token_ literal_loop extract create
    cstr_callback
token_get-literal = refl

token_get-Got_example :
    Returns
      (token_get cstr_callback junk 10 (create hex_text))
      (Got (List ℕ) (λ s. s) hex_text (create hex_text))
token_get-Got_example =
    token_get-Got cstr_callback junk (λ s. s) cstr_callback-IsReader 10 hex_text (create hex_text)
      (omega arith)
      (
        omega arith,
        omega arith,
        (
          omega arith,
          omega arith,
          (
            omega arith,
            omega arith,
            (
              omega arith,
              omega arith,
              (
                omega arith,
                omega arith,
                (
                  omega arith,
                  omega arith,
                  (
                    omega arith,
                    omega arith,
                    (omega arith, omega arith, (omega arith, omega arith, tt)),
                  ),
                ),
              ),
            ),
          ),
        ),
      )
      (short-Fits hex_text (omega arith)) (create-Holds (λ s. s) hex_text (omega arith))

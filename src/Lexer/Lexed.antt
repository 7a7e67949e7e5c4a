-- ===== src/Lexer/Lexed.antt =====
-- What `lexer_token_get` makes of the text that a token starts with.
use htools.Prelude.{
  ℕ, ◌+◌, none, some, Bool, true, false, ◌==◌, if◌then◌else◌, ◌&&◌, ◌||◌, not, ◌≡◌, List, [], ◌∷◌,
  ◌++◌, take, drop,
}
use htools.Lexer.Ops.{LexerError, no_error, invalid_hex, unterminated_literal}
use htools.Lexer.Token.{
  LexerType, alnum_token, eof_token, error_token, hex_token, literal_token, number_token,
  symbol_token, Token, is_alpha, is_xdigit, is_word,
}
use htools.Lexer.See.{char_at}
use htools.Lexer.Scan.{run}
use htools.Lexer.Number.{is_number, number_end}

-- A token with the number of its characters in the text, and the error that goes with it.
pub record Lexed : Type 0 where
  pub token : Token
  pub returned : Bool
  pub size : ℕ
  pub error : LexerError

abbrev pub valid : LexerType → ℕ → List ℕ → Lexed
valid kind size str = record {
  token = record { kind = kind; str = some str };
  returned = true;
  size = size;
  error = no_error;
}

abbrev pub refused : LexerType → ℕ → LexerError → Lexed
refused kind size error = record {
  token = record { kind = kind; str = none };
  returned = false;
  size = size;
  error = error;
}

abbrev pub is_body : ℕ → Bool
is_body c = not (c == 34 || c == 0)

-- The characters of a literal, whose quote stands before `xs`.
abbrev pub literal_end : List ℕ → ℕ
literal_end xs = run is_body xs 0

abbrev pub lexed_literal : List ℕ → Lexed
lexed_literal xs =
    let n = literal_end xs in
    if char_at xs n == 34
    then valid literal_token (n + 2) (take n xs)
    else refused error_token 1 unterminated_literal

abbrev pub lexed_plain : LexerType → ℕ → List ℕ → Lexed
lexed_plain kind n xs = valid kind n (take n xs)

unfoldable pub lexed : List ℕ → Lexed
lexed xs =
    let c = char_at xs 0 in
    if c == 0
    then refused eof_token 0 no_error
    else if c == 95 || is_alpha c
    then lexed_plain alnum_token (run is_word xs 1) xs
    else if c == 34
    then lexed_literal (drop 1 xs)
    else if c == 48 && char_at xs 1 == 120
    then (if is_xdigit (char_at xs 2)
        then lexed_plain hex_token (run is_xdigit xs 3) xs
        else refused error_token 2 invalid_hex)
    else if is_number xs
    then lexed_plain number_token (number_end xs) xs
    else lexed_plain symbol_token 1 xs

-- The characters that a gap before a token starts with.
abbrev pub opens_gap : ℕ → Bool
opens_gap c = c == 32 || c == 9 || c == 10 || c == 35

abbrev pub IsComment : List ℕ → Type 0
IsComment [] = Unit
IsComment (c ∷ s) = ((c == 10) ≡ false) × IsComment s

-- Blanks, newlines and comments before the text `ys`; a last comment ends with the stream.
pub data Gap (ys : List ℕ) : List ℕ → Type 0 where
  done : Gap ys []
  space : (c : ℕ) (s : List ℕ) → (c == 32 || c == 9 || c == 10) ≡ true → Gap ys s → Gap ys (c ∷ s)
  comment :
      (body s : List ℕ)
      → IsComment body
      → (char_at s 0 == 10) ≡ true
      → Gap ys s
      → Gap ys (35 ∷ (body ++ s))
  last : (body : List ℕ) → IsComment body → ys ≡ [] → Gap ys (35 ∷ body)

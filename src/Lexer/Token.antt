-- ===== src/Lexer/Token.antt =====
-- `lexer_token_get` of hutils/src/lexer.c, and `struct LexerToken` of hutils/include/hutils/lexer.h.
-- The character classes are those of ctype.h in the C locale, on an `int` modulo 2 ^ 32.

use htools.Prelude.{
  ℕ, zero, suc, ◌+◌, ◌^◌, Option, none, some, Bool, true, false, ltb, leb, ◌==◌, if◌then◌else◌,
  ◌&&◌, ◌||◌, not, ◌>>=◌, List, u32, add_size,
}
use htools.Lexer.Ops.{
  LexerError, no_error, invalid_hex, unterminated_literal, Lexer, eof, peek_char, extract,
}

-- `enum LexerType`.
pub data LexerType : Type 0 where
  alnum_token : LexerType
  eof_token : LexerType
  error_token : LexerType
  hex_token : LexerType
  literal_token : LexerType
  number_token : LexerType
  symbol_token : LexerType

-- `none` is a null pointer.
pub record Token : Type 0 where
  pub kind : LexerType
  pub str : Option (List ℕ)

abbrev pub is_digit : ℕ → Bool
is_digit c = leb 48 c && leb c 57

abbrev pub is_alpha : ℕ → Bool
is_alpha c = (leb 65 c && leb c 90) || (leb 97 c && leb c 122)

abbrev pub is_xdigit : ℕ → Bool
is_xdigit c = is_digit c || (leb 65 c && leb c 70) || (leb 97 c && leb c 102)

abbrev pub is_word : ℕ → Bool
is_word c = c == 95 || is_alpha c || is_digit c

abbrev pub is_blank : ℕ → Bool
is_blank c = c == 32 || c == 9

-- `++ofs; ++col_no` with no look at the character.
abbrev pub step_over : {S : Type 0} → ℕ → Lexer S → Lexer S
step_over n l = record l { ofs = add_size l.ofs n; col_no = u32 (l.col_no + n) }

abbrev pub newline : {S : Type 0} → Lexer S → Lexer S
newline l = record l { ofs = add_size l.ofs 1; line_no = u32 (l.line_no + 1); col_no = 1 }

abbrev pub is_sign : ℕ → Bool
is_sign c = c == 45 || c == 43

-- What a call of `lexer_token_get` yields: the lexer, the token and the value returned. The outer
-- `none` is an assertion, or that the fuel ran out.
abbrev pub Outcome : Type 0 → Type 0
Outcome S = Option (Lexer S × Token × Bool)

abbrev pub token_of : {S : Type 0} → LexerType → Lexer S × List ℕ → Lexer S × Token × Bool
token_of kind (l, str) = (l, record { kind = kind; str = some str }, true)

abbrev pub error_of : {S : Type 0} → LexerError → Lexer S → Lexer S × Token × Bool
error_of error l = (record l { error = error }, record { kind = error_token; str = none }, false)

module _ {S : Type 0} (callback : S → ℕ → List ℕ × S) (junk : ℕ → ℕ) where
  -- The loop over blanks, which leaves the character behind them in `c`.
  unfoldable pub blank_loop : ℕ → Lexer S → Option (Lexer S × ℕ)
  blank_loop zero l = none
  blank_loop (suc fuel) l =
      let (l', c) = peek_char callback junk l 0 in
      let rest = blank_loop fuel (step_over 1 l') in if is_blank c then rest else some (l', c)

  -- The loop over a comment, from `#` on; `0 < c` is signed.
  unfoldable pub comment_loop : ℕ → Lexer S → Option (Lexer S × ℕ)
  comment_loop zero l = none
  comment_loop (suc fuel) l =
      let (l', c) = peek_char callback junk (step_over 1 l) 0 in
      let rest = comment_loop fuel l' in
      if ltb 0 c && ltb c (2 ^ 31) && not (c == 10) then rest else some (l', c)

  -- `for (; LENGTH(buf) > len; ++len)`, until the test fails.
  unfoldable pub scan_loop : ℕ → (ℕ → Bool) → Lexer S → ℕ → Option (Lexer S × ℕ)
  scan_loop zero test l len = none
  scan_loop (suc fuel) test l len =
      let (l', c) = peek_char callback junk l len in
      let rest = scan_loop fuel test l' (len + 1) in
      if leb 256 len then some (l, len) else if test c then rest else some (l', len)

  -- `for (; isdigit(peek_char(a_lexer, i)); ++i);`
  unfoldable pub digit_loop : ℕ → Lexer S → ℕ → Option (Lexer S × ℕ)
  digit_loop zero l i = none
  digit_loop (suc fuel) l i =
      let (l', c) = peek_char callback junk l i in
      let rest = digit_loop fuel l' (i + 1) in if is_digit c then rest else some (l', i)

  -- `if (isdigit(peek_char(a_lexer, i)))` and its loop, and whether the test held. 257 rounds reach
  -- the end of the buffer.
  unfoldable pub digits : Lexer S → ℕ → Option (Lexer S × ℕ × Bool)
  digits l i =
      let (l', c) = peek_char callback junk l i in
      let rest = (do (l'', j) ← digit_loop 257 l' (i + 1); some (l'', j, true)) in
      if is_digit c then rest else some (l', i, false)

  -- One optional character of a number.
  unfoldable pub optional_char : (ℕ → Bool) → Lexer S → ℕ → Lexer S × ℕ × Bool
  optional_char test l i =
      let (l', c) = peek_char callback junk l i in
      if test c then (l', i + 1, true) else (l', i, false)

  -- The exponent of a number, whose length without it is `i`.
  unfoldable pub exponent : Lexer S → ℕ → Option (Lexer S × ℕ)
  exponent l i =
      let (l1, j, has_e) = optional_char (λ c. c == 101 || c == 69) l i in
      let (l2, j', _) = optional_char is_sign l1 j in
      if has_e
      then (do (l3, k, has_digits) ← digits l2 j'; some (l3, if has_digits then k else i))
      else some (l1, i)

  -- `if (is_number)`: the exponent, the length of the number, and whether there is one.
  unfoldable pub with_exponent : Lexer S → ℕ → Bool → Option (Lexer S × ℕ × Bool)
  with_exponent l i is_number =
      let longer = (do (l', k) ← exponent l i; some (l', k, true)) in
      if is_number then longer else some (l, i, false)

  -- The point and the digits behind it; `whole` is whether there are digits before it.
  unfoldable pub fraction : Lexer S → ℕ → Bool → Option (Lexer S × ℕ × Bool)
  fraction l i whole =
      let (l', j, _) = optional_char (λ c. c == 46) l i in
      do (l'', k, behind) ← digits l' j; with_exponent l'' k (whole || behind)

  -- A number from its sign on; `c` is its first character.
  unfoldable pub number : Lexer S → ℕ → Option (Lexer S × ℕ × Bool)
  number l c = do (l', i, whole) ← digits l (if is_sign c then 1 else 0); fraction l' i whole

  -- The branches on the character `c` behind blanks, comments and newlines, each to its `return`.
  unfoldable pub word_token : Lexer S → Outcome S
  word_token l = do
    (l', len) ← scan_loop 257 is_word l 1
    r ← extract callback junk l' len
    some (token_of alnum_token r)

  -- The loop over a literal, and whether it came to its end, or that of the buffer, rather than to
  -- the end of the stream.
  unfoldable pub literal_loop : ℕ → Lexer S → ℕ → Option (Lexer S × ℕ × Bool)
  literal_loop zero l len = none
  literal_loop (suc fuel) l len =
      let (l', c) = peek_char callback junk l len in
      let rest = literal_loop fuel l' (len + 1) in
      if leb 256 len
      then some (l, len, true)
      else if c == eof
      then some (l', len, false)
      else if c == 34
      then some (l', len, true)
      else rest

  unfoldable pub literal_token_ : Lexer S → Outcome S
  literal_token_ l = do
    (l', len, ended) ← literal_loop 257 (step_over 1 l) 0
    if ended
        then (do
          (l'', str) ← extract callback junk l' len
          some (token_of literal_token (step_over 1 l'', str)))
        else some (error_of unterminated_literal l')

  unfoldable pub hex_token_ : Lexer S → Outcome S
  hex_token_ l =
      let (l', c) = peek_char callback junk l 2 in
      let hex = (do
        (l'', len) ← scan_loop 257 is_xdigit l' 3
        r ← extract callback junk l'' len
        some (token_of hex_token r)) in
      if not (is_xdigit c) then some (error_of invalid_hex (step_over 2 l')) else hex

  unfoldable pub number_or_symbol : Lexer S → ℕ → Outcome S
  number_or_symbol l c = do
    (l', len, is_number) ← number l c
    r ← extract callback junk l' (if is_number then len else 1)
    some (token_of (if is_number then number_token else symbol_token) r)

  unfoldable pub token_at : Lexer S → ℕ → Outcome S
  token_at l c =
      let (l', c') = peek_char callback junk l 1 in
      if c == 95 || is_alpha c
      then word_token l
      else if c == 34
      then literal_token_ l
      else if c == 48
      then (if c' == 120 then hex_token_ l' else number_or_symbol l' c)
      else number_or_symbol l c

  -- The outer loop, with fuel that its inner loops share. A round that goes on takes a newline.
  unfoldable pub token_loop : ℕ → ℕ → Lexer S → Outcome S
  token_loop zero bound l = none
  token_loop (suc fuel) bound l =
      let comment =
        λ (l : Lexer S) (c : ℕ). if c == 35 then comment_loop bound l else some (l, c) in
      let next = λ (l : Lexer S). token_loop fuel bound (newline l) in
      do
        (l1, c1) ← blank_loop bound l
        (l2, c2) ← comment l1 c1
        if c2 == eof
            then some (l2, record { kind = eof_token; str = none }, false)
            else if c2 == 10
            then next l2
            else token_at l2 c2

  unfoldable pub token_get : ℕ → Lexer S → Outcome S
  token_get fuel l = token_loop fuel fuel (record l { error = no_error })

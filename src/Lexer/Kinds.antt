-- ===== src/Lexer/Kinds.antt =====
-- What `lexer_token_get` makes of the character that a token starts with.
use htools.Prelude.{
  ℕ, ◌≤◌, ◌<◌, false, ◌==◌, if◌then◌else◌, ◌||◌, ◌≡◌, inl, inr, refl, sym, ap, ◌∙◌, arith, List, [],
  ◌∷◌, take, drop, Returns, Returns-bind, Bool-cases, ==_iff,
}
use mathlib.Core.Path.{subst}
use htools.Lexer.Ops.{no_error, invalid_hex, Lexer, peek_char}
use htools.Lexer.Ring.{IsReader, buffered, Holds}
use htools.Lexer.Walk.{Walked}
use htools.Lexer.Token.{
  hex_token, error_token, is_xdigit, is_alpha, step_over, scan_loop, literal_token_, hex_token_,
  token_at,
}
use htools.Lexer.See.{IsAscii, shown, char_at, At, Sees, see}
use htools.Lexer.Scan.{run, passes-pos, scan_loop-Scans}
use htools.Lexer.Lexed.{refused, literal_end, lexed, lexed_plain, lexed_literal}
use htools.Lexer.Branches.{IsLexed, xdigit-IsClass, Walked-from, ends-IsLexed, ends}
use htools.Lexer.Branches.{word_token-IsLexed, number_or_symbol-IsLexed}
use htools.Lexer.Literal.{error-Walked, over_two-Walked, literal_token_-IsLexed}

-- Literals end inside the buffer.
abbrev pub IsShort : List ℕ → Type 0
IsShort xs = literal_end xs < 256

hex-Walked :
    {S : Type 0} (rest : S → List ℕ) (xs : List ℕ) (q : Lexer S)
    → char_at xs 0 ≡ 48
    → char_at xs 1 ≡ 120
    → Holds S rest xs q
    → 2 ≤ buffered q
    → Walked S rest (take 2 xs) (drop 2 xs) q (step_over 2 q)
hex-Walked rest [] q e f h two = absurd (omega arith)
hex-Walked rest (b ∷ []) q e f h two = absurd (omega arith)
hex-Walked rest (b ∷ c ∷ xs) q e f h two =
    over_two-Walked rest b c xs q (ap (λ (v : ℕ). v == 10) e) (ap (λ (v : ℕ). v == 10) f) h two

quote-IsLexed :
    {S : Type 0} (callback : S → ℕ → List ℕ × S) (junk : ℕ → ℕ) (rest : S → List ℕ)
    (reader : IsReader S callback rest) (xs : List ℕ) (ascii : IsAscii xs) (l r : Lexer S)
    → l.error ≡ no_error
    → At S rest xs l r 1
    → char_at xs 0 ≡ 34
    → IsShort (drop 1 xs)
    → Returns (literal_token_ callback junk r) (IsLexed rest xs l (lexed_literal (drop 1 xs)))
quote-IsLexed callback junk rest reader [] ascii l r clear a e short = absurd (omega arith)
quote-IsLexed {S} callback junk rest reader (b ∷ xs) ascii l r clear a e short =
    subst
      (λ c.
        IsAscii (c ∷ xs)
        → At S rest (c ∷ xs) l r 1
        → Returns (literal_token_ callback junk r) (IsLexed rest (c ∷ xs) l (lexed_literal xs)))
      (sym e)
      (λ ascii a. literal_token_-IsLexed callback junk rest reader xs ascii l clear r a short) ascii
      a

module _ {S : Type 0} (callback : S → ℕ → List ℕ × S) (junk : ℕ → ℕ) (rest : S → List ℕ)
    (reader : IsReader S callback rest) (xs : List ℕ) (ascii : IsAscii xs) (l : Lexer S)
    (clear : l.error ≡ no_error) where
  hex_token_-IsLexed :
      (r : Lexer S)
      → At S rest xs l r 2
      → char_at xs 0 ≡ 48
      → char_at xs 1 ≡ 120
      → Returns (hex_token_ callback junk r) (
          IsLexed rest xs l (
            if is_xdigit (char_at xs 2)
            then lexed_plain hex_token (run is_xdigit xs 3) xs
            else refused error_token 2 invalid_hex))
  unfolding hex_token_
  hex_token_-IsLexed r a e f =
      let v = (peek_char callback junk r 2).1 in
      let q = (peek_char callback junk r 2).0 in
      let same = xdigit-IsClass.same v ∙ ap is_xdigit s.value in
      elim (Bool-cases (is_xdigit (char_at xs 2))) [
        | inl hex ↦
            rw (same ∙ hex, hex)
              (Returns-bind _ _ (scan_loop callback junk 257 is_xdigit q 3)
                (λ p. ends callback junk rest reader xs ascii l clear hex_token p.0 p.1)
                (scan_loop-Scans callback junk rest reader xs ascii l is_xdigit xdigit-IsClass 257 q
                  3 (omega arith) (s.next (passes-pos is_xdigit _ refl hex)))
                (λ p h.
                  ends-IsLexed callback junk rest reader xs ascii l clear hex_token p.0 p.1 p.1 _
                    h.1 h.0))
        | inr other ↦
            rw (same ∙ other, other)
              (record {
                token = refl;
                returned = refl;
                walked =
                    error-Walked rest _ _ l (step_over 2 q) invalid_hex
                      (Walked-from rest _ _ xs l q (step_over 2 q) 2 s.at two);
              })
      ]
    where
      s : Sees S rest xs l 2 (peek_char callback junk r 2)
      s = see callback junk rest reader xs ascii l r 2 a

      two :
          Walked S rest
            (take 2 xs)
            (drop 2 xs)
            (peek_char callback junk r 2).0
            (step_over 2 (peek_char callback junk r 2).0)
      two = hex-Walked rest xs _ e f s.at.holds s.at.near

  pub token_at-IsLexed :
      (r : Lexer S)
      → At S rest xs l r 1
      → 0 < char_at xs 0
      → (char_at xs 0 ≡ 34 → IsShort (drop 1 xs))
      → Returns (token_at callback junk r (char_at xs 0)) (IsLexed rest xs l (lexed xs))
  unfolding token_at lexed
  token_at-IsLexed r a pos short =
      let c = char_at xs 0 in
      let there : (c == 0) ≡ false = ground arith in
      let s = see callback junk rest reader xs ascii l r 1 a in
      let same = hex_mark (peek_char callback junk r 1).1 ∙ ap (λ (v : ℕ). v == 120) s.value in
      elim (Bool-cases (c == 95 || is_alpha c)) [
        | inl word ↦
            rw (there, word) (word_token-IsLexed callback junk rest reader xs ascii l clear r a)
        | inr not_word ↦ elim (Bool-cases (c == 34)) [
          | inl quote ↦
              let it : c ≡ 34 = (==_iff c 34).0 quote in
              rw (there, not_word, quote)
                (quote-IsLexed callback junk rest reader xs ascii l r clear a it (short it))
          | inr not_quote ↦ elim (Bool-cases (c == 48)) [
            | inl nought ↦ elim (Bool-cases (char_at xs 1 == 120)) [
              | inl x ↦
                  let e : c ≡ 48 = (==_iff c 48).0 nought in
                  let f : char_at xs 1 ≡ 120 = (==_iff (char_at xs 1) 120).0 x in
                  rw (there, not_word, not_quote, nought, same ∙ x, x)
                    (hex_token_-IsLexed (peek_char callback junk r 1).0 (s.next (omega arith)) e f)
              | inr no_x ↦
                  rw (there, not_word, not_quote, nought, same ∙ no_x, no_x)
                    (number_or_symbol-IsLexed callback junk rest reader xs ascii l clear
                      (peek_char callback junk r 1).0 s.at)
            ]
            | inr other ↦
                rw (there, not_word, not_quote, other)
                  (number_or_symbol-IsLexed callback junk rest reader xs ascii l clear r a)
          ]
        ]
      ]
    where
      hex_mark : (v : ℕ) → (v == 120) ≡ (shown v == 120)
      hex_mark v = ground arith

-- ===== src/Lexer/Branches.antt =====
-- The branches of `lexer_token_get` behind blanks and comments, one for each kind of token.
use htools.Prelude.{
  ℕ, zero, suc, ◌≤◌, Option, some, Bool, true, false, ◌==◌, if◌then◌else◌, ◌>>=◌, ◌≡◌, refl, ap,
  ap₂, ◌∙◌, arith, List, [], ◌∷◌, take, drop, Returns, Returns-bind,
}
use mathlib.Core.Path.{subst}
use htools.Lexer.Ops.{no_error, Lexer, extract}
use htools.Lexer.Ring.{IsReader, buffered, Holds}
use htools.Lexer.Walk.{IsPlain, walk, Walked, next-Holds, extract-Walked}
use htools.Lexer.Token.{
  LexerType, alnum_token, number_token, symbol_token, Token, is_word, is_xdigit, step_over, newline,
  token_of, scan_loop, word_token, number_or_symbol, number,
}
use htools.Lexer.See.{IsAscii, char_at, At}
use htools.Lexer.Scan.{IsClass, run, scan_loop-Scans}
use htools.Lexer.Number.{is_number, number_end, number-IsNumber}
use htools.Lexer.Lexed.{Lexed, lexed_plain}

pub IsAscii-IsPlain : (xs : List ℕ) → IsAscii xs → IsPlain xs
IsAscii-IsPlain [] h = tt
IsAscii-IsPlain (b ∷ xs) h = (omega (arith, h.1), IsAscii-IsPlain xs h.2)

pub IsAscii-drop : (n : ℕ) (xs : List ℕ) → IsAscii xs → IsAscii (drop n xs)
IsAscii-drop zero xs h = h
IsAscii-drop (suc n) [] h = tt
IsAscii-drop (suc n) (b ∷ xs) h = IsAscii-drop n xs h.2

word-IsClass : IsClass is_word
word-IsClass = record { none_ = refl; same = λ v. ground arith }

pub xdigit-IsClass : IsClass is_xdigit
xdigit-IsClass = record { none_ = refl; same = λ v. ground arith }

module _ {S : Type 0} (rest : S → List ℕ) where
  -- A token, and the lexer behind it.
  pub record IsLexed (xs : List ℕ) (l : Lexer S) (x : Lexed) (q : Lexer S × Token × Bool)
      : Type 0 where
    pub token : q.1 ≡ x.token
    pub returned : q.2 ≡ x.returned
    pub walked : Walked S rest (take x.size xs) (drop x.size xs) (record l { error = x.error }) q.0

  pub over-Walked :
      (b : ℕ) (xs : List ℕ) (l : Lexer S)
      → (b == 10) ≡ false
      → Holds S rest (b ∷ xs) l
      → 1 ≤ buffered l
      → Walked S rest (b ∷ []) xs l (step_over 1 l)
  unfolding walk
  over-Walked b xs l e h one = record {
    holds = next-Holds rest b _ _ xs l h one;
    line_no = rw e refl;
    col_no = rw e refl;
    error = refl;
  }

  pub newline-Walked :
      (xs : List ℕ) (l : Lexer S)
      → Holds S rest (10 ∷ xs) l
      → 1 ≤ buffered l
      → Walked S rest (10 ∷ []) xs l (newline l)
  unfolding walk
  newline-Walked xs l h one = record {
    holds = next-Holds rest 10 _ _ xs l h one;
    line_no = refl;
    col_no = refl;
    error = refl;
  }

  -- `Walked` from a lexer that a look has left as it was.
  pub Walked-from :
      (s ys xs : List ℕ) (l r q : Lexer S) (k : ℕ)
      → At S rest xs l r k
      → Walked S rest s ys r q
      → Walked S rest s ys l q
  Walked-from s ys xs l r q k a w = record {
    holds = w.holds;
    line_no = w.line_no ∙ ap₂ (λ (m n : ℕ). (walk s m n).0) a.line_no a.col_no;
    col_no = w.col_no ∙ ap₂ (λ (m n : ℕ). (walk s m n).1) a.line_no a.col_no;
    error = w.error ∙ a.error;
  }

  pub Walked-clear :
      (s ys : List ℕ) (l q : Lexer S)
      → l.error ≡ no_error
      → Walked S rest s ys l q
      → Walked S rest s ys (record l { error = no_error }) q
  Walked-clear s ys l q e w = record {
    holds = w.holds;
    line_no = w.line_no;
    col_no = w.col_no;
    error = w.error ∙ e;
  }

module _ {S : Type 0} (callback : S → ℕ → List ℕ × S) (junk : ℕ → ℕ) (rest : S → List ℕ)
    (reader : IsReader S callback rest) (xs : List ℕ) (ascii : IsAscii xs) (l : Lexer S)
    (clear : l.error ≡ no_error) where
  -- `extract` and a token of it, as the branches end.
  abbrev pub ends : LexerType → Lexer S → ℕ → Option (Lexer S × Token × Bool)
  ends kind r n = extract callback junk r n >>= λ q. some (token_of kind q)

  pub ends-IsLexed :
      (kind : LexerType) (r : Lexer S) (k n m : ℕ)
      → At S rest xs l r k
      → n ≡ m
      → Returns (ends kind r n) (IsLexed rest xs l (lexed_plain kind m xs))
  ends-IsLexed kind r k n m a e =
      subst (λ i. Returns (ends kind r n) (IsLexed rest xs l (lexed_plain kind i xs))) e
        (Returns-bind (λ q. Walked S rest (take n xs) (drop n xs) r q.0 × (q.1 ≡ take n xs)) _
          (extract callback junk r n) _
          (extract-Walked callback junk rest reader n xs r (IsAscii-IsPlain xs ascii) a.holds)
          (λ q h. record {
            token = ap (λ (s : List ℕ). record { kind = kind; str = some s }) h.1;
            returned = refl;
            walked = Walked-clear rest _ _ l _ clear (Walked-from rest _ _ xs l r q.0 k a h.0);
          }))

  pub word_token-IsLexed :
      (r : Lexer S)
      → At S rest xs l r 1
      → Returns
          (word_token callback junk r)
          (IsLexed rest xs l (lexed_plain alnum_token (run is_word xs 1) xs))
  unfolding word_token
  word_token-IsLexed r a =
      Returns-bind _ _ (scan_loop callback junk 257 is_word r 1) (λ q. ends alnum_token q.0 q.1)
        (scan_loop-Scans callback junk rest reader xs ascii l is_word word-IsClass 257 r 1
          (omega arith) a)
        (λ q h. ends-IsLexed alnum_token q.0 q.1 q.1 _ h.1 h.0)

  number-ends :
      (q : Lexer S × ℕ × Bool) (b : Bool) (n : ℕ)
      → q.2 ≡ b
      → At S rest xs l q.0 0
      → (if b then q.1 else n) ≡ n
      → Returns (ends (if q.2 then number_token else symbol_token) q.0 (if q.2 then q.1 else 1)) (
          IsLexed rest xs l
            (if b then lexed_plain number_token n xs else lexed_plain symbol_token 1 xs))
  number-ends q true n e a h = rw e (ends-IsLexed number_token q.0 0 q.1 n a h)
  number-ends q false n e a h = rw e (ends-IsLexed symbol_token q.0 0 1 1 a refl)

  pub number_or_symbol-IsLexed :
      (r : Lexer S)
      → At S rest xs l r 1
      → Returns (number_or_symbol callback junk r (char_at xs 0)) (
          IsLexed rest xs l (
            if is_number xs
            then lexed_plain number_token (number_end xs) xs
            else lexed_plain symbol_token 1 xs))
  unfolding number_or_symbol
  number_or_symbol-IsLexed r a =
      Returns-bind _ _ (number callback junk r (char_at xs 0))
        (λ q. ends (if q.2 then number_token else symbol_token) q.0 (if q.2 then q.1 else 1))
        (number-IsNumber callback junk rest reader xs ascii l r a)
        (λ q h. number-ends q (is_number xs) (number_end xs) h.0 h.1 h.2)

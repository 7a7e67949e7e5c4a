-- ===== src/Lexer/Sizes.antt =====
-- A token of `lexer_token_get` takes a character at least.
use htools.Prelude.{
  ℕ, ◌+◌, ◌≤◌, ◌<◌, some, Bool, true, ◌==◌, ◌&&◌, ◌||◌, ◌≡◌, inl, inr, refl, sym, ap, ◌∙◌, arith,
  List, Bool-cases, true-false, drop,
}
use mathlib.Core.Path.{subst}
use htools.Lexer.Ops.{no_error, invalid_hex}
use htools.Lexer.Token.{
  LexerType, alnum_token, eof_token, error_token, hex_token, number_token, symbol_token, is_digit,
  is_alpha, is_xdigit, is_word, is_sign,
}
use htools.Lexer.See.{char_at}
use htools.Lexer.Scan.{run, run-on, after}
use htools.Lexer.Number.{
  is_e, is_point, exponent_end, whole_start, fraction_start, is_number, number_end,
}
use htools.Lexer.Lexed.{Lexed, lexed, lexed_plain, refused, lexed_literal, literal_end}

after-le : (t : ℕ → Bool) (xs : List ℕ) (k : ℕ) → k ≤ after t xs k
after-le t xs k = elim (Bool-cases (t (char_at xs k))) [
  | inl hit ↦ rw hit (omega arith)
  | inr miss ↦ rw miss (omega arith)
]

run-more : (xs : List ℕ) (k : ℕ) → is_digit (char_at xs k) ≡ true → k < run is_digit xs k
run-more xs k h = omega (arith, run-on is_digit xs k refl h)

exponent_end-le : (xs : List ℕ) (k : ℕ) → k ≤ exponent_end xs k
exponent_end-le xs k =
    let s = after is_sign xs (k + 1) in
    elim (Bool-cases (is_e (char_at xs k) && is_digit (char_at xs s))) [
      | inl hit ↦ rw hit (omega (arith, after-le is_sign xs (k + 1)))
      | inr miss ↦ rw miss (omega arith)
    ]

number_end-pos : (xs : List ℕ) → is_number xs ≡ true → 0 < number_end xs
number_end-pos xs h =
    let w = whole_start xs in
    let f = fraction_start xs in
    let past = exponent_end-le xs (run is_digit xs f) in
    elim (Bool-cases (is_digit (char_at xs w))) [
      | inl whole ↦
          omega (arith, past, run-more xs w whole, after-le is_point xs (run is_digit xs w))
      | inr none_ ↦
          let behind : is_digit (char_at xs f) ≡ true = (rw none_ refl) ∙ h in
          omega (arith, past, run-more xs f behind)
    ]

pub record IsToken (xs : List ℕ) (x : Lexed) : Type 0 where
  pub text : (s : List ℕ) × (x.token.str ≡ some s)
  pub size : 0 < x.size
  pub there : 0 < char_at xs 0

literal-IsToken :
    (xs : List ℕ) (tail : List ℕ)
    → 0 < char_at xs 0
    → (lexed_literal tail).returned ≡ true
    → IsToken xs (lexed_literal tail)
literal-IsToken xs tail pos h = elim (Bool-cases (char_at tail (literal_end tail) == 34)) [
  | inl closed ↦ rw closed (record { text = (_, refl); size = omega arith; there = pos })
  | inr open_ ↦ true-false (sym h ∙ (rw open_ refl))
]

plain-IsToken :
    (xs : List ℕ) (kind : LexerType) (n : ℕ)
    → 0 < n
    → 0 < char_at xs 0
    → IsToken xs (lexed_plain kind n xs)
plain-IsToken xs kind n h pos = record { text = (_, refl); size = h; there = pos }

pub lexed-IsToken : (xs : List ℕ) → (lexed xs).returned ≡ true → IsToken xs (lexed xs)
unfolding lexed
lexed-IsToken xs h =
    let c = char_at xs 0 in
    elim (Bool-cases (c == 0)) [
      | inl gone ↦
          let e : lexed xs ≡ refused eof_token 0 no_error = rw gone refl in
          true-false (sym h ∙ ap (λ (x : Lexed). x.returned) e)
      | inr here ↦
          let pos : 0 < c = ground arith in
          elim (Bool-cases (c == 95 || is_alpha c)) [
            | inl word ↦
                let e : lexed xs ≡ lexed_plain alnum_token (run is_word xs 1) xs =
                  rw (here, word) refl in
                subst (IsToken xs) (sym e)
                  (plain-IsToken xs alnum_token (run is_word xs 1) (omega arith) pos)
            | inr not_word ↦ elim (Bool-cases (c == 34)) [
              | inl quote ↦
                  let e : lexed xs ≡ lexed_literal (drop 1 xs) = rw (here, not_word, quote) refl in
                  subst (IsToken xs) (sym e) (
                    literal-IsToken xs (drop 1 xs) pos (ap (λ (x : Lexed). x.returned) (sym e) ∙ h))
              | inr not_quote ↦ elim (Bool-cases (c == 48 && char_at xs 1 == 120)) [
                | inl hex ↦ elim (Bool-cases (is_xdigit (char_at xs 2))) [
                  | inl digit ↦
                      let e : lexed xs ≡ lexed_plain hex_token (run is_xdigit xs 3) xs =
                        rw (here, not_word, not_quote, hex, digit) refl in
                      subst (IsToken xs) (sym e)
                        (plain-IsToken xs hex_token (run is_xdigit xs 3) (omega arith) pos)
                  | inr bad ↦
                      let e : lexed xs ≡ refused error_token 2 invalid_hex =
                        rw (here, not_word, not_quote, hex, bad) refl in
                      true-false (sym h ∙ ap (λ (x : Lexed). x.returned) e)
                ]
                | inr not_hex ↦ elim (Bool-cases (is_number xs)) [
                  | inl number ↦
                      let e : lexed xs ≡ lexed_plain number_token (number_end xs) xs =
                        rw (here, not_word, not_quote, not_hex, number) refl in
                      subst (IsToken xs) (sym e) (
                        plain-IsToken xs number_token (number_end xs) (number_end-pos xs number)
                          pos)
                  | inr symbol ↦
                      let e : lexed xs ≡ lexed_plain symbol_token 1 xs =
                        rw (here, not_word, not_quote, not_hex, symbol) refl in
                      subst (IsToken xs) (sym e) (plain-IsToken xs symbol_token 1 (omega arith) pos)
                ]
              ]
            ]
          ]
    ]

-- ===== src/Lexer/Number.antt =====
-- `lexer_token_get` on numbers: a sign, digits, a point, digits and an exponent.
use htools.Prelude.{
  ℕ, ◌+◌, Option, some, Bool, true, false, ◌==◌, if◌then◌else◌, ◌&&◌, ◌||◌, ◌≡◌, inl, inr, refl, ap,
  ap₂, ◌∙◌, arith, List, Returns, Returns-bind, Bool-cases,
}
use mathlib.Core.Path.{subst}
use htools.Lexer.Ops.{Lexer}
use htools.Lexer.Ring.{IsReader}
use htools.Lexer.See.{IsAscii, char_at, At}
use htools.Lexer.Token.{is_digit, is_sign, digits, exponent, with_exponent, fraction, number}
use htools.Lexer.Scan.{IsClass, run, after, Scans, digits-Scans, optional_char-Scans}

abbrev pub is_e : ℕ → Bool
is_e c = c == 101 || c == 69

abbrev pub is_point : ℕ → Bool
is_point c = c == 46

-- The end of a number's exponent, if one stands at `k`.
abbrev pub exponent_end : List ℕ → ℕ → ℕ
exponent_end xs k =
    let s = after is_sign xs (k + 1) in
    if is_e (char_at xs k) && is_digit (char_at xs s) then run is_digit xs s else k

-- Where the digits before and behind the point start.
abbrev pub whole_start : List ℕ → ℕ
whole_start xs = after is_sign xs 0

abbrev pub fraction_start : List ℕ → ℕ
fraction_start xs = after is_point xs (run is_digit xs (whole_start xs))

abbrev pub is_number : List ℕ → Bool
is_number xs = is_digit (char_at xs (whole_start xs)) || is_digit (char_at xs (fraction_start xs))

abbrev pub number_end : List ℕ → ℕ
number_end xs = exponent_end xs (run is_digit xs (fraction_start xs))

sign-IsClass : IsClass is_sign
sign-IsClass = record { none_ = refl; same = λ v. ground arith }

e-IsClass : IsClass is_e
e-IsClass = record { none_ = refl; same = λ v. ground arith }

point-IsClass : IsClass is_point
point-IsClass = record { none_ = refl; same = λ v. ground arith }

module _ {S : Type 0} (rest : S → List ℕ) (xs : List ℕ) (l : Lexer S) where
  pub At-start : (r : Lexer S) (k : ℕ) → At S rest xs l r k → At S rest xs l r 0
  At-start r k a = record {
    holds = a.holds;
    ofs = a.ofs;
    line_no = a.line_no;
    col_no = a.col_no;
    error = a.error;
    near = omega arith;
  }

module _ {S : Type 0} (callback : S → ℕ → List ℕ × S) (junk : ℕ → ℕ) (rest : S → List ℕ)
    (reader : IsReader S callback rest) (xs : List ℕ) (ascii : IsAscii xs) (l : Lexer S) where
  abbrev Digits : ℕ → Lexer S × ℕ × Bool → Type 0
  Digits k q =
      Scans callback junk rest reader xs ascii l is_digit k (q.0, q.1)
      × (q.2 ≡ is_digit (char_at xs k))

  digits-from :
      (r : Lexer S) (k n : ℕ)
      → k ≡ n
      → At S rest xs l r k
      → Returns (digits callback junk r k) (Digits n)
  digits-from r k n e a =
      subst (λ m. Returns (digits callback junk r k) (Digits m)) e
        (digits-Scans callback junk rest reader xs ascii l r k a)

  -- The lexer and an index behind a scan.
  abbrev pub Ends : ℕ → Lexer S × ℕ → Type 0
  Ends n q = (q.1 ≡ n) × At S rest xs l q.0 0

  exponent-Ends :
      (r : Lexer S) (k : ℕ)
      → At S rest xs l r k
      → Returns (exponent callback junk r k) (Ends (exponent_end xs k))
  unfolding exponent
  exponent-Ends r k a =
      let (j1, e1, a1) =
        optional_char-Scans callback junk rest reader xs ascii l is_e e-IsClass r k a in
      let (j2, e2, a2) =
        optional_char-Scans callback junk rest reader xs ascii l is_sign sign-IsClass _ _ a1 in
      elim (Bool-cases (is_e (char_at xs k))) [
        | inl more ↦
            let here : after is_e xs k ≡ k + 1 = rw more refl in
            let found : Lexer S × ℕ × Bool → Option (Lexer S × ℕ) =
              λ q. some (q.0, if q.2 then q.1 else k) in
            let start = j2 ∙ ap (after is_sign xs) (j1 ∙ here) in
            rw (e1, more)
              (Returns-bind (Digits (after is_sign xs (k + 1))) _ (digits callback junk _ _) found
                (digits-from _ _ _ start a2)
                (λ q h. (
                  ap₂ (λ (b : Bool) (n : ℕ). if b then n else k) h.1 h.0.0,
                  At-start rest xs l _ _ h.0.1,
                )))
        | inr stop ↦ rw (e1, stop) (refl, At-start rest xs l _ _ a1)
      ]

  -- The same of a number that may be none.
  abbrev pub IsNumber : Bool → ℕ → Lexer S × ℕ × Bool → Type 0
  IsNumber b n q = (q.2 ≡ b) × At S rest xs l q.0 0 × ((if b then q.1 else n) ≡ n)

  with_exponent-IsNumber :
      (r : Lexer S) (k : ℕ) (b : Bool)
      → At S rest xs l r k
      → Returns (with_exponent callback junk r k b) (IsNumber b (exponent_end xs k))
  unfolding with_exponent
  with_exponent-IsNumber r k true a =
      Returns-bind (Ends (exponent_end xs k)) _ (exponent callback junk r k) _ (exponent-Ends r k a)
        (λ q h. (refl, h.1, h.0))
  with_exponent-IsNumber r k false a = (refl, At-start rest xs l r k a, refl)

  fraction-IsNumber :
      (r : Lexer S) (k : ℕ) (b : Bool)
      → At S rest xs l r k
      → Returns (fraction callback junk r k b) (
          IsNumber
            (b || is_digit (char_at xs (after is_point xs k)))
            (exponent_end xs (run is_digit xs (after is_point xs k))))
  unfolding fraction
  fraction-IsNumber r k b a =
      let (j, e, a1) =
        optional_char-Scans callback junk rest reader xs ascii l is_point point-IsClass r k a in
      Returns-bind (Digits (after is_point xs k)) _ (digits callback junk _ _)
        (λ q. with_exponent callback junk q.0 q.1 (b || q.2)) (digits-from _ _ _ j a1)
        (λ q h.
          subst
            (λ n.
              Returns (with_exponent callback junk q.0 q.1 (b || q.2))
                (IsNumber (b || is_digit (char_at xs (after is_point xs k))) (exponent_end xs n)))
            h.0.0
            (subst
              (λ d.
                Returns (with_exponent callback junk q.0 q.1 (b || q.2))
                  (IsNumber (b || d) (exponent_end xs q.1)))
              h.1 (with_exponent-IsNumber q.0 q.1 (b || q.2) h.0.1)))

  -- A number, or none, at the start of the text; its first character was looked at.
  pub number-IsNumber :
      (r : Lexer S)
      → At S rest xs l r 1
      → Returns (number callback junk r (char_at xs 0)) (IsNumber (is_number xs) (number_end xs))
  unfolding number
  number-IsNumber r a =
      Returns-bind (Digits (whole_start xs)) _ (digits callback junk r (whole_start xs))
        (λ q. fraction callback junk q.0 q.1 q.2)
        (digits-Scans callback junk rest reader xs ascii l r (whole_start xs)
          (start (is_sign (char_at xs 0))))
        (λ q h.
          subst
            (λ n. Returns (fraction callback junk q.0 q.1 q.2) (
              IsNumber
                (is_digit (char_at xs (whole_start xs))
                  || is_digit (char_at xs (after is_point xs n)))
                (exponent_end xs (run is_digit xs (after is_point xs n)))))
            h.0.0
            (subst
              (λ d. Returns (fraction callback junk q.0 q.1 q.2) (
                IsNumber (d || is_digit (char_at xs (after is_point xs q.1)))
                  (exponent_end xs (run is_digit xs (after is_point xs q.1)))))
              h.1 (fraction-IsNumber q.0 q.1 q.2 h.0.1)))
    where
      start : (b : Bool) → At S rest xs l r (if b then 0 + 1 else 0)
      start true = a
      start false = At-start rest xs l r 1 a

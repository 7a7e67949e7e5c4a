-- ===== src/Lexer/Scan.antt =====
-- The loops of `lexer_token_get` find how far a class of characters goes.
use htools.Prelude.{
  ℕ, zero, suc, ◌+◌, ◌<◌, Bool, true, false, leb, if◌then◌else◌, ◌≡◌, inl, inr, refl, sym, ap, ◌∙◌,
  arith, List, [], ◌∷◌, get_or, take, drop, Returns, Returns-map, Returns-bind, Bool-cases, leb→le,
}
use htools.Lexer.Ops.{Lexer, peek_char}
use htools.Lexer.Ring.{IsReader}
use htools.Lexer.See.{IsAscii, shown, char_at, At, Sees, see, char_at-past}
use htools.Lexer.Token.{is_digit, scan_loop, digit_loop, digits, optional_char}

-- How many characters at the start pass a test.
unfoldable pub span : (ℕ → Bool) → List ℕ → ℕ
span t [] = 0
span t (c ∷ s) = if t c then suc (span t s) else 0

-- A class of characters: no mark of `peek_char` passes the test, nor does a 0.
pub record IsClass (t : ℕ → Bool) : Type 0 where
  pub none_ : t 0 ≡ false
  pub same : (v : ℕ) → t v ≡ t (shown v)

span-drop :
    (t : ℕ → Bool) (w : List ℕ) (k : ℕ)
    → t 0 ≡ false
    → span t (drop k w) ≡ (if t (get_or w k 0) then suc (span t (drop (suc k) w)) else 0)
unfolding span
span-drop t [] zero h = rw h refl
span-drop t [] (suc k) h = rw h refl
span-drop t (c ∷ s) zero h = refl
span-drop t (c ∷ s) (suc k) h = span-drop t s k h

-- Where the run of a class that starts at `k` ends, in the buffer at most.
abbrev pub run : (ℕ → Bool) → List ℕ → ℕ → ℕ
run t xs k = k + span t (drop k (take 256 xs))

pub run-on :
    (t : ℕ → Bool) (xs : List ℕ) (k : ℕ)
    → t 0 ≡ false
    → t (char_at xs k) ≡ true
    → run t xs (k + 1) ≡ run t xs k
run-on t xs k h e =
    let w = take 256 xs in
    let step : span t (drop k w) ≡ suc (span t (drop (suc k) w)) =
      span-drop t w k h ∙ (rw e refl) in
    let index : k + 1 ≡ suc k = omega arith in
    let same : span t (drop (k + 1) w) ≡ span t (drop (suc k) w) =
      ap (λ (n : ℕ). span t (drop n w)) index in
    omega (arith, step, same)

pub run-end :
    (t : ℕ → Bool) (xs : List ℕ) (k : ℕ) → t 0 ≡ false → t (char_at xs k) ≡ false → run t xs k ≡ k
run-end t xs k h e =
    let stop : span t (drop k (take 256 xs)) ≡ 0 = span-drop t (take 256 xs) k h ∙ (rw e refl) in
    omega (arith, stop)

-- A character that passes the test of a class is none of the marks.
pub passes-pos : (t : ℕ → Bool) (v : ℕ) → t 0 ≡ false → t v ≡ true → 0 < v
passes-pos t zero h e = cc
passes-pos t (suc v) h e = omega arith

digit-IsClass : IsClass is_digit
digit-IsClass = record { none_ = refl; same = λ v. ground arith }

-- The end of an optional character.
abbrev pub after : (ℕ → Bool) → List ℕ → ℕ → ℕ
after t xs k = if t (char_at xs k) then k + 1 else k

module _ {S : Type 0} (callback : S → ℕ → List ℕ × S) (junk : ℕ → ℕ) (rest : S → List ℕ)
    (reader : IsReader S callback rest) (xs : List ℕ) (ascii : IsAscii xs) (l : Lexer S) where
  -- A scan that starts at `k` ends at the end of the run, with all of it in the ring.
  abbrev pub Scans : (ℕ → Bool) → ℕ → Lexer S × ℕ → Type 0
  Scans t k q = (q.1 ≡ run t xs k) × At S rest xs l q.0 q.1

  -- One look in a loop, with what the test says of it.
  abbrev pub Look : ℕ → Lexer S → Type 0
  Look k r = Sees S rest xs l k (peek_char callback junk r k)

  module _ (t : ℕ → Bool) (class_ : IsClass t) where
    tested : (r : Lexer S) (k : ℕ) → Look k r → t (peek_char callback junk r k).1 ≡ t (char_at xs k)
    tested r k s = class_.same _ ∙ ap t s.value

    pub scan_loop-Scans :
        (fuel : ℕ) (r : Lexer S) (k : ℕ)
        → 256 < k + fuel
        → At S rest xs l r k
        → Returns (scan_loop callback junk fuel t r k) (Scans t k)
    unfolding scan_loop
    scan_loop-Scans zero r k f a = absurd (omega (arith, a.near, a.holds.room))
    scan_loop-Scans (suc fuel) r k f a =
        let s = see callback junk rest reader xs ascii l r k a in
        elim (Bool-cases (leb 256 k)) [
          | inl full ↦
              let gone : char_at xs k ≡ 0 = char_at-past xs k (omega (arith, leb→le _ _ full)) in
              rw full (sym (run-end t xs k class_.none_ (ap t gone ∙ class_.none_)), a)
          | inr room ↦ elim (Bool-cases (t (char_at xs k))) [
            | inl more ↦
                rw (room, tested r k s ∙ more)
                  (Returns-map (Scans t (k + 1)) _
                    (scan_loop callback junk fuel t (peek_char callback junk r k).0 (k + 1))
                    (scan_loop-Scans fuel (peek_char callback junk r k).0 (k + 1) (omega arith)
                      (s.next (passes-pos t _ class_.none_ more)))
                    (λ q h. (h.0 ∙ run-on t xs k class_.none_ more, h.1)))
            | inr stop ↦
                rw (room, tested r k s ∙ stop) (sym (run-end t xs k class_.none_ stop), s.at)
          ]
        ]

  pub digit_loop-Scans :
      (fuel : ℕ) (r : Lexer S) (k : ℕ)
      → 256 < k + fuel
      → At S rest xs l r k
      → Returns (digit_loop callback junk fuel r k) (Scans is_digit k)
  unfolding digit_loop
  digit_loop-Scans zero r k f a = absurd (omega (arith, a.near, a.holds.room))
  digit_loop-Scans (suc fuel) r k f a =
      let s = see callback junk rest reader xs ascii l r k a in
      let e = tested is_digit digit-IsClass r k s in
      elim (Bool-cases (is_digit (char_at xs k))) [
        | inl more ↦ rw (e ∙ more) (
            Returns-map (Scans is_digit (k + 1)) _
              (digit_loop callback junk fuel (peek_char callback junk r k).0 (k + 1))
              (digit_loop-Scans fuel (peek_char callback junk r k).0 (k + 1) (omega arith)
                (s.next (passes-pos is_digit _ refl more)))
              (λ q h. (h.0 ∙ run-on is_digit xs k refl more, h.1)))
        | inr stop ↦ rw (e ∙ stop) (sym (run-end is_digit xs k refl stop), s.at)
      ]

  pub digits-Scans :
      (r : Lexer S) (k : ℕ)
      → At S rest xs l r k
      → Returns
          (digits callback junk r k)
          (λ q. Scans is_digit k (q.0, q.1) × (q.2 ≡ is_digit (char_at xs k)))
  unfolding digits
  digits-Scans r k a =
      let s = see callback junk rest reader xs ascii l r k a in
      let e = tested is_digit digit-IsClass r k s in
      elim (Bool-cases (is_digit (char_at xs k))) [
        | inl more ↦ rw (e ∙ more) (
            Returns-bind (Scans is_digit (k + 1)) _
              (digit_loop callback junk 257 (peek_char callback junk r k).0 (k + 1)) _
              (digit_loop-Scans 257 (peek_char callback junk r k).0 (k + 1) (omega arith)
                (s.next (passes-pos is_digit _ refl more)))
              (λ q h. ((h.0 ∙ run-on is_digit xs k refl more, h.1), sym more)))
        | inr stop ↦ rw (e ∙ stop) ((sym (run-end is_digit xs k refl stop), s.at), sym stop)
      ]

  pub optional_char-Scans :
      (t : ℕ → Bool) (class_ : IsClass t) (r : Lexer S) (k : ℕ)
      → At S rest xs l r k
      → ((optional_char callback junk t r k).1 ≡ after t xs k)
        × ((optional_char callback junk t r k).2 ≡ t (char_at xs k))
        × At S rest xs l (optional_char callback junk t r k).0 (optional_char callback junk t r k).1
  unfolding optional_char
  optional_char-Scans t class_ r k a =
      let s = see callback junk rest reader xs ascii l r k a in
      let e = tested t class_ r k s in
      elim (Bool-cases (t (char_at xs k))) [
        | inl more ↦
            rw (e ∙ more) (rw more refl, sym more, s.next (passes-pos t _ class_.none_ more))
        | inr stop ↦ rw (e ∙ stop) (rw stop refl, sym stop, s.at)
      ]

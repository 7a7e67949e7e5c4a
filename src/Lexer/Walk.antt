-- ===== src/Lexer/Walk.antt =====
-- `extract` and `lexer_skip` on the stream, with the position that they keep.
use htools.Prelude.{
  ℕ, zero, suc, ◌+◌, ◌-◌, ◌%◌, ◌^◌, ◌≤◌, ◌<◌, Bool, true, false, ◌==◌, if◌then◌else◌, ◌≡◌, inl, inr,
  refl, sym, ap, ap₂, ◌∙◌, arith, Returns, Returns-bind, Returns-map, List, [], ◌∷◌, ◌++◌, length,
  take, drop, u32, add_size, Bool-cases,
}
use mathlib.Core.Path.{subst}
use htools.Lexer.Ops.{
  no_error, Lexer, eof, overflow, int_of_char, peek_char, advance, extract, skip_loop, skip,
}
use htools.Lexer.Ring.{IsReader, buffered, Holds}
use htools.Lexer.Peek.{Peeks, peek_char-Peeks, peek_char-ring}

-- Bytes that no `int` of `peek_char` confuses with its two marks, which are -1 and -2.
abbrev pub IsPlain : List ℕ → Type 0
IsPlain [] = Unit
IsPlain (b ∷ s) = (b < 254) × IsPlain s

-- Line and column behind some characters.
unfoldable pub walk : List ℕ → ℕ → ℕ → ℕ × ℕ
walk [] line col = (line, col)
walk (c ∷ s) line col = if c == 10 then walk s (u32 (line + 1)) 1 else walk s line (u32 (col + 1))

-- What stands up to the first `a`, and what behind it.
unfoldable pub split_at : ℕ → List ℕ → List ℕ × List ℕ
split_at a [] = ([], [])
split_at a (c ∷ s) = if c == a then (c ∷ [], s) else (c ∷ (split_at a s).0, (split_at a s).1)

unfoldable pub mem : ℕ → List ℕ → Bool
mem a [] = false
mem a (c ∷ s) = if c == a then true else mem a s

-- The lexer went on over `s` and stands before `ys`.
pub record Walked (S : Type 0) (rest : S → List ℕ) (s ys : List ℕ) (l r : Lexer S) : Type 0 where
  pub holds : Holds S rest ys r
  pub line_no : r.line_no ≡ (walk s l.line_no l.col_no).0
  pub col_no : r.col_no ≡ (walk s l.line_no l.col_no).1
  pub error : r.error ≡ l.error

int_of_plain :
    (b : ℕ)
    → b < 254
    → ((int_of_char b == eof) ≡ false)
      × ((int_of_char b == overflow) ≡ false)
      × (int_of_char b % 256 ≡ b)
      × ((int_of_char b == 10) ≡ (b == 10))
int_of_plain b h = (ground arith, ground arith, ground arith, ground arith)

module _ {S : Type 0} (rest : S → List ℕ) where
  pub next-Holds :
      (b line col : ℕ) (xs : List ℕ) (l : Lexer S)
      → Holds S rest (b ∷ xs) l
      → 1 ≤ buffered l
      → Holds S rest xs (record l { ofs = add_size l.ofs 1; line_no = line; col_no = col })
  next-Holds b line col xs l h one = record {
    start = omega (arith, h.start, h.small);
    room = omega (arith, h.room, h.small);
    small = omega (arith, h.small);
    enough = omega (arith, h.enough, h.small);
    ring = λ k lt. ap l.buf (shift k) ∙ h.ring (suc k) (omega (arith, h.small));
    beyond = h.beyond ∙ ap (λ (n : ℕ). drop n (b ∷ xs)) fewer;
    closed = h.closed;
  }
    where
      shift : (k : ℕ) → (add_size l.ofs 1 + k) % 256 ≡ (l.ofs + suc k) % 256
      shift k = ap (λ (n : ℕ). n % 256) (omega (arith, h.small))

      fewer : buffered l ≡ suc (l.buf_end - add_size l.ofs 1)
      fewer = omega (arith, h.small)

  advance-Walked :
      (b : ℕ) (xs : List ℕ) (l : Lexer S) (c : ℕ)
      → (c == 10) ≡ (b == 10)
      → Holds S rest (b ∷ xs) l
      → 1 ≤ buffered l
      → Walked S rest (b ∷ []) xs l (advance l c)
  unfolding walk
  advance-Walked b xs l c e h one = elim (Bool-cases (b == 10)) [
    | inl nl ↦
        rw (e, nl)
          (record {
            holds = next-Holds b _ _ xs l h one;
            line_no = rw nl refl;
            col_no = rw nl refl;
            error = refl;
          })
    | inr other ↦
        rw (e, other)
          (record {
            holds = next-Holds b _ _ xs l h one;
            line_no = rw other refl;
            col_no = rw other refl;
            error = refl;
          })
  ]

  walk-cons :
      (b : ℕ) (s : List ℕ) (line col : ℕ)
      → walk (b ∷ s) line col ≡ walk s (walk (b ∷ []) line col).0 (walk (b ∷ []) line col).1
  unfolding walk
  walk-cons b s line col = elim (Bool-cases (b == 10)) [
    | inl nl ↦ rw nl refl
    | inr other ↦ rw other refl
  ]

  pub walk-on :
      (b : ℕ) (s xs ys : List ℕ) (l q r : Lexer S)
      → Walked S rest (b ∷ []) xs l q
      → Walked S rest s ys q r
      → Walked S rest (b ∷ s) ys l r
  walk-on b s xs ys l q r x y = record {
    holds = y.holds;
    line_no =
        y.line_no
        ∙ ap₂ (λ (m n : ℕ). (walk s m n).0) x.line_no x.col_no
        ∙ ap (λ (p : ℕ × ℕ). p.0) (sym (walk-cons b s l.line_no l.col_no));
    col_no =
        y.col_no
        ∙ ap₂ (λ (m n : ℕ). (walk s m n).1) x.line_no x.col_no
        ∙ ap (λ (p : ℕ × ℕ). p.1) (sym (walk-cons b s l.line_no l.col_no));
    error = y.error ∙ x.error;
  }

walk-append :
    (s t : List ℕ) (line col : ℕ)
    → walk (s ++ t) line col ≡ walk t (walk s line col).0 (walk s line col).1
unfolding walk
walk-append [] t line col = refl
walk-append (c ∷ s) t line col = elim (Bool-cases (c == 10)) [
  | inl nl ↦ rw nl (walk-append s t (u32 (line + 1)) 1)
  | inr other ↦ rw other (walk-append s t line (u32 (col + 1)))
]

pub walk-join :
    {S : Type 0} (rest : S → List ℕ) (s t xs ys : List ℕ) (l q r : Lexer S)
    → Walked S rest s xs l q
    → Walked S rest t ys q r
    → Walked S rest (s ++ t) ys l r
walk-join rest s t xs ys l q r x y = record {
  holds = y.holds;
  line_no =
      y.line_no
      ∙ ap₂ (λ (m n : ℕ). (walk t m n).0) x.line_no x.col_no
      ∙ ap (λ (p : ℕ × ℕ). p.0) (sym (walk-append s t l.line_no l.col_no));
  col_no =
      y.col_no
      ∙ ap₂ (λ (m n : ℕ). (walk t m n).1) x.line_no x.col_no
      ∙ ap (λ (p : ℕ × ℕ). p.1) (sym (walk-append s t l.line_no l.col_no));
  error = y.error ∙ x.error;
}

advance-near :
    {S : Type 0} (n : ℕ) (l : Lexer S) (c : ℕ)
    → n + 1 ≤ buffered l
    → l.buf_end < 2 ^ 64
    → n ≤ buffered (advance l c)
advance-near n l c h small = elim (Bool-cases (c == 10)) [
  | inl nl ↦ rw nl (omega arith)
  | inr other ↦ rw other (omega arith)
]

module _ {S : Type 0} (callback : S → ℕ → List ℕ × S) (junk : ℕ → ℕ) (rest : S → List ℕ)
    (reader : IsReader S callback rest) where
  module _ (l : Lexer S) where
    abbrev seen : Lexer S
    seen = (peek_char callback junk l 0).0

    abbrev next : ℕ
    next = (peek_char callback junk l 0).1

    look : (xs : List ℕ) → Holds S rest xs l → Peeks S rest xs 0 l (peek_char callback junk l 0)
    look xs h = peek_char-Peeks callback junk rest reader xs l h 0 (omega arith) (inl (omega arith))

    -- A look at the next character, and the step over it.
    step-Walked :
        (b : ℕ) (xs : List ℕ)
        → b < 254
        → Holds S rest (b ∷ xs) l
        → (next ≡ int_of_char b) × Walked S rest (b ∷ []) xs l (advance seen next)
    step-Walked b xs lt h =
        let p = look (b ∷ xs) h in
        let v : next ≡ int_of_char b = p.value ∙ ground arith in
        let w =
          advance-Walked rest b xs seen next (ap (λ (c : ℕ). c == 10) v ∙ (int_of_plain b lt).3)
            p.holds (omega (arith, p.ready)) in
        (
          v,
          record {
            holds = w.holds;
            line_no = w.line_no ∙ ap₂ (λ (m n : ℕ). (walk (b ∷ []) m n).0) p.line_no p.col_no;
            col_no = w.col_no ∙ ap₂ (λ (m n : ℕ). (walk (b ∷ []) m n).1) p.line_no p.col_no;
            error = w.error ∙ p.error;
          },
        )

    end-Walked : Holds S rest [] l → (next ≡ eof) × Walked S rest [] [] l seen
    unfolding walk
    end-Walked h =
        let p = look [] h in
        (
          p.value,
          record { holds = p.holds; line_no = p.line_no; col_no = p.col_no; error = p.error },
        )

  -- For a callback that reads a stream in order, and bytes below 254, `extract` takes as many
  -- characters as are wanted, or all that are left, and counts their lines and columns.
  pub extract-Walked :
      (n : ℕ) (xs : List ℕ) (l : Lexer S)
      → IsPlain xs
      → Holds S rest xs l
      → Returns
          (extract callback junk l n)
          (λ r. Walked S rest (take n xs) (drop n xs) l r.0 × (r.1 ≡ take n xs))
  unfolding extract walk
  extract-Walked zero xs l p h =
      (record { holds = h; line_no = refl; col_no = refl; error = refl }, refl)
  extract-Walked (suc n) [] l p h =
      let (v, w) = end-Walked l h in
      let marked : (next l == overflow) ≡ false = ap (λ (c : ℕ). c == overflow) v in
      let ended : (next l == eof) ≡ true = ap (λ (c : ℕ). c == eof) v in
      rw (marked, ended) (w, refl)
  extract-Walked (suc n) (b ∷ xs) l p h =
      let (v, w) = step-Walked l b xs p.0 h in
      let (not_eof, not_over, byte, _) = int_of_plain b p.0 in
      let marked : (next l == overflow) ≡ false = ap (λ (c : ℕ). c == overflow) v ∙ not_over in
      let ended : (next l == eof) ≡ false = ap (λ (c : ℕ). c == eof) v ∙ not_eof in
      rw (marked, ended)
        (Returns-bind
          (λ r.
            Walked S rest (take n xs) (drop n xs) (advance (seen l) (next l)) r.0
            × (r.1 ≡ take n xs))
          _ (extract callback junk (advance (seen l) (next l)) n) _
          (extract-Walked n xs (advance (seen l) (next l)) p.1 w.holds)
          (λ r x. (
            walk-on rest b (take n xs) xs (drop n xs) l _ r.0 w x.0,
            ap₂ ◌∷◌ (ap (λ (c : ℕ). c % 256) v ∙ byte) x.1,
          )))

  skip_loop-Walked :
      (fuel a : ℕ) (xs : List ℕ) (l : Lexer S)
      → length xs < fuel
      → IsPlain xs
      → Holds S rest xs l
      → a < 254
      → Returns
          (skip_loop callback junk fuel l (int_of_char a))
          (λ r. Walked S rest (split_at a xs).0 (split_at a xs).1 l r.0 × (r.1 ≡ mem a xs))
  unfolding skip_loop split_at walk mem
  skip_loop-Walked zero a xs l f p h la = absurd (omega arith)
  skip_loop-Walked (suc fuel) a [] l f p h la =
      let (v, w) = end-Walked l h in
      let ended : (next l == eof) ≡ true = ap (λ (c : ℕ). c == eof) v in rw ended (w, refl)
  skip_loop-Walked (suc fuel) a (b ∷ xs) l f p h la =
      let (v, w) = step-Walked l b xs p.0 h in
      let ended : (next l == eof) ≡ false = ap (λ (c : ℕ). c == eof) v ∙ (int_of_plain b p.0).0 in
      let found : (next l == int_of_char a) ≡ (b == a) =
        ap (λ (c : ℕ). c == int_of_char a) v ∙ ground arith in
      elim (Bool-cases (b == a)) [
        | inl hit ↦ rw (ended, found, hit) (w, refl)
        | inr miss ↦
            rw (ended, found, miss)
              (Returns-map _ _
                (skip_loop callback junk fuel (advance (seen l) (next l)) (int_of_char a))
                (skip_loop-Walked fuel a xs (advance (seen l) (next l)) (omega arith) p.1 w.holds
                  la)
                (λ r x. (walk-on rest b (split_at a xs).0 xs (split_at a xs).1 l _ r.0 w x.0, x.1)))
      ]

  -- For a callback that reads a stream in order, and bytes below 254, `lexer_skip` clears the error
  -- and steps behind the first character that it looks for, or to the end of the stream, if it has
  -- none, and returns which it was; a round for each character and one more are enough.
  pub skip-Walked :
      (fuel a : ℕ) (xs : List ℕ) (l : Lexer S)
      → length xs < fuel
      → IsPlain xs
      → Holds S rest xs l
      → a < 254
      → Returns (skip callback junk fuel l a) (λ r.
        Walked S rest (split_at a xs).0 (split_at a xs).1 (record l { error = no_error }) r.0
        × (r.1 ≡ mem a xs))
  unfolding skip
  skip-Walked fuel a xs l f p h la =
      skip_loop-Walked fuel a xs (record l { error = no_error }) f p
        (record {
          start = h.start;
          room = h.room;
          small = h.small;
          enough = h.enough;
          ring = h.ring;
          beyond = h.beyond;
          closed = h.closed;
        })
        la

  -- What `extract` takes is gone from the ring, and no more.
  pub extract-buffered :
      (n m : ℕ) (xs : List ℕ) (l : Lexer S)
      → IsPlain xs
      → Holds S rest xs l
      → n + m ≤ buffered l
      → Returns (extract callback junk l n) (λ r. m ≤ buffered r.0)
  unfolding extract
  extract-buffered zero m xs l p h le = omega arith
  extract-buffered (suc n) m [] l p h le = absurd (omega (arith, h.enough))
  extract-buffered (suc n) m (b ∷ xs) l p h le =
      let (v, w) = step-Walked l b xs p.0 h in
      let (not_eof, not_over, byte, _) = int_of_plain b p.0 in
      let marked : (next l == overflow) ≡ false = ap (λ (c : ℕ). c == overflow) v ∙ not_over in
      let ended : (next l == eof) ≡ false = ap (λ (c : ℕ). c == eof) v ∙ not_eof in
      let here : seen l ≡ l =
        peek_char-ring callback junk l 0 (omega arith) (omega arith)
          (omega (arith, h.room, h.small)) in
      rw (marked, ended)
        (Returns-bind (λ r. m ≤ buffered r.0) _
          (extract callback junk (advance (seen l) (next l)) n) _
          (extract-buffered n m xs (advance (seen l) (next l)) p.1 w.holds (
            subst (λ q. n + m ≤ buffered (advance q (next l))) (sym here)
              (advance-near (n + m) l (next l) (omega arith) (omega (arith, h.room, h.small)))))
          (λ r x. x))

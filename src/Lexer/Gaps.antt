-- ===== src/Lexer/Gaps.antt =====
-- Blanks and comments before a token, as `lexer_token_get` goes over them.
use htools.Prelude.{
  ℕ, zero, suc, ◌^◌, ◌≤◌, ◌<◌, Bool, true, false, ltb, ◌==◌, ◌&&◌, ◌||◌, not, ◌≡◌, inl, inr, refl,
  sym, ap, ◌∙◌, arith, List, [], ◌∷◌, ◌++◌, length, Returns, Returns-map, Bool-cases, append_assoc,
  append-nil,
}
use mathlib.Core.Path.{subst}
use htools.Lexer.Ops.{Lexer, eof, peek_char}
use htools.Lexer.Ring.{IsReader, buffered, Holds}
use htools.Lexer.Walk.{walk, Walked, walk-on}
use htools.Lexer.Token.{is_blank, step_over, blank_loop, comment_loop}
use htools.Lexer.See.{IsAscii, shown, char_at, Sees, see}
use htools.Lexer.Scan.{IsClass}
use htools.Lexer.Lexed.{IsComment, Gap, done, space, comment, last}
use htools.Lexer.Branches.{over-Walked, Walked-from}
use htools.Lexer.Literal.{here-At, Walked-to}

blank-IsClass : IsClass is_blank
blank-IsClass = record { none_ = refl; same = λ v. ground arith }

abbrev in_comment : ℕ → Bool
in_comment c = ltb 0 c && ltb c (2 ^ 31) && not (c == 10)

comment-IsClass : IsClass in_comment
comment-IsClass = record { none_ = refl; same = λ v. ground arith }

-- What may stand before the rest of a text: the gap that it opens, when a newline follows or when
-- none does.
pub record Lead (gap ys : List ℕ) : Type 0 where
  pub goes_on : (g zs : List ℕ) → Gap zs g → (char_at g 0 == 10) ≡ true → Gap zs (gap ++ g)
  pub ends : (char_at ys 0 == 10) ≡ false → Gap ys gap
  pub stops : (is_blank (char_at ys 0) || char_at ys 0 == 35) ≡ false

abbrev pub IsBlanks : List ℕ → Type 0
IsBlanks [] = Unit
IsBlanks (c ∷ s) = (is_blank c ≡ true) × IsBlanks s

blanks-Gap : (s g zs : List ℕ) → IsBlanks s → Gap zs g → Gap zs (s ++ g)
blanks-Gap [] g zs h k = k
blanks-Gap (c ∷ s) g zs h k = space c (s ++ g) (ground (arith, h.0)) (blanks-Gap s g zs h.1 k)

pub blanks-Lead :
    (s ys : List ℕ)
    → IsBlanks s
    → (is_blank (char_at ys 0) || char_at ys 0 == 35) ≡ false
    → Lead s ys
blanks-Lead s ys h stops = record {
  stops = stops;
  goes_on = λ g zs k _. blanks-Gap s g zs h k;
  ends = λ _. subst (λ t. Gap ys t) (append-nil s) (blanks-Gap s [] ys h done);
}

-- A comment behind blanks, to the end of its line or of the text.
pub comment-Lead :
    (s body ys : List ℕ)
    → IsBlanks s
    → IsComment body
    → IsAscii ys
    → (char_at ys 0 == 10 || char_at ys 0 == 0) ≡ true
    → Lead (s ++ (35 ∷ body)) ys
comment-Lead s body ys h b ascii stop = record {
  stops = ground arith;
  goes_on = λ g zs k nl.
      subst (λ t. Gap zs t) (sym (append_assoc s (35 ∷ body) g))
        (blanks-Gap s _ zs h (comment body g b nl k));
  ends = λ other. blanks-Gap s (35 ∷ body) ys h (last body b (gone ys ascii (ground arith)));
}
  where
    gone : (ys : List ℕ) → IsAscii ys → char_at ys 0 ≡ 0 → ys ≡ []
    gone [] h e = refl
    gone (c ∷ ys) h e = absurd (omega (arith, h.0))

module _ {S : Type 0} (rest : S → List ℕ) where
  -- The lexer went over a part of the text and has seen the character behind it.
  pub record Stop (Good : List ℕ → List ℕ → Type 0) (xs : List ℕ) (l : Lexer S) (q : Lexer S × ℕ)
      : Type 0 where
    pub gap : List ℕ
    pub ys : List ℕ
    pub split : xs ≡ gap ++ ys
    pub good : Good gap ys
    pub ascii : IsAscii ys
    pub walked : Walked S rest gap ys l q.0
    pub value : shown q.1 ≡ char_at ys 0
    pub ended : (q.1 == eof) ≡ (char_at ys 0 == 0)
    pub near : 0 < char_at ys 0 → 1 ≤ buffered q.0

  none-Walked : (xs : List ℕ) (l : Lexer S) → Holds S rest xs l → Walked S rest [] xs l l
  unfolding walk
  none-Walked xs l h = record { holds = h; line_no = refl; col_no = refl; error = refl }

  -- A look that goes no further.
  seen-Stop :
      (Good : List ℕ → List ℕ → Type 0) (xs : List ℕ) (l : Lexer S) (q : Lexer S × ℕ)
      → Holds S rest xs l
      → IsAscii xs
      → Good [] xs
      → Sees S rest xs l 0 q
      → Stop Good xs l q
  seen-Stop Good xs l q h ascii good s = record {
    gap = [];
    ys = xs;
    split = refl;
    good = good;
    ascii = ascii;
    walked = Walked-to rest [] xs l l q.0 0 (none-Walked xs l h) s.at;
    value = s.value;
    ended = s.ended (omega arith);
    near = λ more. (s.next more).near;
  }

  -- One character more before what a loop went over.
  cons-Stop :
      (Good Better : List ℕ → List ℕ → Type 0) (b : ℕ) (xs : List ℕ) (l m : Lexer S)
      (q : Lexer S × ℕ)
      → ((gap ys : List ℕ) → IsAscii ys → Good gap ys → Better (b ∷ gap) ys)
      → Walked S rest (b ∷ []) xs l m
      → Stop Good xs m q
      → Stop Better (b ∷ xs) l q
  cons-Stop Good Better b xs l m q f w s = record {
    gap = b ∷ s.gap;
    ys = s.ys;
    split = ap (λ (t : List ℕ). b ∷ t) s.split;
    good = f s.gap s.ys s.ascii s.good;
    ascii = s.ascii;
    walked = walk-on rest b s.gap xs s.ys l m q.0 w s.walked;
    value = s.value;
    ended = s.ended;
    near = s.near;
  }

-- The body of a comment, up to a newline or to the end of the text.
abbrev pub Body : List ℕ → List ℕ → Type 0
Body gap ys = IsComment gap × ((char_at ys 0 == 10 || char_at ys 0 == 0) ≡ true)

-- Blanks, up to another character.
abbrev pub Blanks : List ℕ → List ℕ → Type 0
Blanks gap ys = IsBlanks gap × (is_blank (char_at ys 0) ≡ false)

module _ {S : Type 0} (callback : S → ℕ → List ℕ × S) (junk : ℕ → ℕ) (rest : S → List ℕ)
    (reader : IsReader S callback rest) where
  -- A step over the first character, behind a look at it.
  seen_over-Walked :
      (b : ℕ) (xs : List ℕ) (l : Lexer S) (q : Lexer S × ℕ)
      → (b == 10) ≡ false
      → 0 < b
      → Sees S rest (b ∷ xs) l 0 q
      → Walked S rest (b ∷ []) xs l (step_over 1 q.0)
  seen_over-Walked b xs l q e pos s =
      Walked-from rest (b ∷ []) xs (b ∷ xs) l q.0 (step_over 1 q.0) 0 s.at
        (over-Walked rest b xs q.0 e s.at.holds (s.next pos).near)

  pub blank_loop-Stop :
      (fuel : ℕ) (xs : List ℕ) (l : Lexer S)
      → length xs < fuel
      → IsAscii xs
      → Holds S rest xs l
      → Returns (blank_loop callback junk fuel l) (Stop rest Blanks xs l)
  unfolding blank_loop
  blank_loop-Stop zero xs l f ascii h = absurd (omega arith)
  blank_loop-Stop (suc fuel) [] l f ascii h =
      let s = see callback junk rest reader [] ascii l l 0 (here-At rest [] l h) in
      let same = blank-IsClass.same (peek_char callback junk l 0).1 ∙ ap is_blank s.value in
      rw same (seen-Stop rest Blanks [] l _ h ascii (tt, refl) s)
  blank_loop-Stop (suc fuel) (b ∷ xs) l f ascii h =
      let s = see callback junk rest reader (b ∷ xs) ascii l l 0 (here-At rest (b ∷ xs) l h) in
      let same = blank-IsClass.same (peek_char callback junk l 0).1 ∙ ap is_blank s.value in
      elim (Bool-cases (is_blank b)) [
        | inl blank ↦
            let w = seen_over-Walked b xs l _ (ground arith) ascii.0 s in
            rw (same ∙ blank) (
              Returns-map _ _
                (blank_loop callback junk fuel (step_over 1 (peek_char callback junk l 0).0))
                (blank_loop-Stop fuel xs _ (omega arith) ascii.2 w.holds)
                (λ q.
                  cons-Stop rest Blanks Blanks b xs l _ q (λ gap ys _ g. ((blank, g.0), g.1)) w))
        | inr other ↦ rw (same ∙ other) (seen-Stop rest Blanks (b ∷ xs) l _ h ascii (tt, other) s)
      ]

  -- A comment behind its first character.
  pub comment_loop-Stop :
      (fuel : ℕ) (b : ℕ) (xs : List ℕ) (l : Lexer S)
      → length xs < fuel
      → IsAscii xs
      → (b == 10) ≡ false
      → Holds S rest (b ∷ xs) l
      → 1 ≤ buffered l
      → Returns (comment_loop callback junk fuel l) (Stop rest Body xs (step_over 1 l))
  unfolding comment_loop
  comment_loop-Stop zero b xs l f ascii e h one = absurd (omega arith)
  comment_loop-Stop (suc fuel) b [] l f ascii e h one =
      let m = step_over 1 l in
      let w = over-Walked rest b [] l e h one in
      let s = see callback junk rest reader [] ascii m m 0 (here-At rest [] m w.holds) in
      let same = comment-IsClass.same (peek_char callback junk m 0).1 ∙ ap in_comment s.value in
      rw same (seen-Stop rest Body [] m _ w.holds ascii (tt, refl) s)
  comment_loop-Stop (suc fuel) b (c ∷ xs) l f ascii e h one =
      let m = step_over 1 l in
      let w = over-Walked rest b (c ∷ xs) l e h one in
      let s =
        see callback junk rest reader (c ∷ xs) ascii m m 0 (here-At rest (c ∷ xs) m w.holds) in
      let q = (peek_char callback junk m 0).0 in
      let same = comment-IsClass.same (peek_char callback junk m 0).1 ∙ ap in_comment s.value in
      elim (Bool-cases (c == 10)) [
        | inl nl ↦
            let stop : in_comment c ≡ false = ground arith in
            rw (same ∙ stop) (seen-Stop rest Body (c ∷ xs) m _ w.holds ascii (tt, ground arith) s)
        | inr other ↦
            let more : in_comment c ≡ true = ground (arith, ascii.0, ascii.1) in
            rw (same ∙ more) (
              Returns-map _ _ (comment_loop callback junk fuel q)
                (comment_loop-Stop fuel c xs q (omega arith) ascii.2 other s.at.holds
                  (s.next ascii.0).near)
                (λ p.
                  cons-Stop rest Body Body c xs m (step_over 1 q) p
                    (λ gap ys _ g. ((other, g.0), g.1))
                    (seen_over-Walked c xs m _ other ascii.0 s)))
      ]

-- ===== src/Lexer/Literal.antt =====
-- String literals and hexadecimal numbers of `lexer_token_get`.
use htools.Prelude.{
  ℕ, zero, suc, ◌+◌, ◌≤◌, ◌<◌, Option, none, some, Bool, true, false, ltb, leb, ◌==◌, if◌then◌else◌,
  ◌||◌, ◌>>=◌, ◌≡◌, ◌⊎◌, inl, inr, refl, sym, ap, ap₂, ◌∙◌, arith, List, [], ◌∷◌, ◌++◌, length,
  get_or, take, drop, Returns, Returns-map, Returns-bind, Bool-cases, ltb→lt, leb→le, ltb-false,
  leb-false, ==_iff,
}
use mathlib.Core.Path.{subst}
use htools.Lexer.Ops.{LexerError, no_error, unterminated_literal, Lexer, peek_char, extract}
use htools.Lexer.Ring.{IsReader, buffered, Holds}
use htools.Lexer.Walk.{Walked, extract-Walked, extract-buffered, walk-on, walk-join}
use htools.Lexer.Token.{
  literal_token, Token, step_over, token_of, error_of, literal_loop, literal_token_,
}
use htools.Lexer.See.{IsAscii, shown, char_at, char_at-inside, char_at-past, At, see}
use htools.Lexer.Scan.{run, run-on, run-end, passes-pos}
use htools.Lexer.Lexed.{valid, is_body, literal_end, lexed_literal}
use htools.Lexer.Branches.{IsAscii-IsPlain, IsLexed, over-Walked, Walked-from, Walked-clear}

-- The characters at an index and what stands behind it.
cut :
    (xs : List ℕ) (n : ℕ)
    → 0 < get_or xs n 0
    → (drop n xs ≡ get_or xs n 0 ∷ drop (suc n) xs)
      × (take (suc n) xs ≡ take n xs ++ (get_or xs n 0 ∷ []))
cut [] n h = absurd (omega arith)
cut (x ∷ xs) zero h = (refl, refl)
cut (x ∷ xs) (suc n) h = let (d, t) = cut xs n h in (d, ap (λ (s : List ℕ). x ∷ s) t)

pub cut_char :
    (xs : List ℕ) (n c : ℕ)
    → n < 256
    → char_at xs n ≡ c
    → 0 < c
    → (drop n xs ≡ c ∷ drop (suc n) xs) × (take (suc n) xs ≡ take n xs ++ (c ∷ []))
cut_char xs n c lt e pos =
    let same : get_or xs n 0 ≡ c = inside (Bool-cases (ltb n (length xs))) in
    subst (λ b. (drop n xs ≡ b ∷ drop (suc n) xs) × (take (suc n) xs ≡ take n xs ++ (b ∷ []))) same
      (cut xs n (omega arith))
  where
    inside : (ltb n (length xs) ≡ true) ⊎ (ltb n (length xs) ≡ false) → get_or xs n 0 ≡ c
    inside (inl h) = sym (char_at-inside xs n lt (ltb→lt _ _ h)) ∙ e
    inside (inr h) = absurd (omega (arith, char_at-past xs n (omega (arith, ltb-false _ _ h))))

module _ {S : Type 0} (callback : S → ℕ → List ℕ × S) (junk : ℕ → ℕ) (rest : S → List ℕ)
    (reader : IsReader S callback rest) (xs : List ℕ) (ascii : IsAscii xs) (l : Lexer S) where
  -- A scan over a literal.
  record Literal (q : Lexer S × ℕ × Bool) : Type 0 where
    index : q.1 ≡ literal_end xs
    at : At S rest xs l q.0 q.1
    ended : q.2 ≡ (leb 256 q.1 || char_at xs q.1 == 34)
    next : q.1 < 256 → char_at xs q.1 ≡ 34 → At S rest xs l q.0 (q.1 + 1)

  literal_loop-Literal :
      (fuel : ℕ) (r : Lexer S) (k : ℕ)
      → 256 < k + fuel
      → At S rest xs l r k
      → run is_body xs k ≡ literal_end xs
      → Returns (literal_loop callback junk fuel r k) Literal
  unfolding literal_loop
  literal_loop-Literal zero r k f a e = absurd (omega (arith, a.near, a.holds.room))
  literal_loop-Literal (suc fuel) r k f a e =
      let s = see callback junk rest reader xs ascii l r k a in
      let v = (peek_char callback junk r k).1 in
      elim (Bool-cases (leb 256 k)) [
        | inl full ↦
            let past = leb→le _ _ full in
            let none_ : char_at xs k ≡ 0 = char_at-past xs k (omega arith) in
            rw full (record {
              index = sym (run-end is_body xs k refl (ap is_body none_)) ∙ e;
              at = a;
              ended = rw full refl;
              next = λ lt c. absurd (omega arith);
            })
        | inr room ↦
            let lt = leb-false _ _ room in
            elim (Bool-cases (char_at xs k == 0)) [
              | inl gone ↦
                  let none_ : char_at xs k ≡ 0 = (==_iff (char_at xs k) 0).0 gone in
                  rw (room, s.ended lt ∙ gone)
                    (record {
                      index = sym (run-end is_body xs k refl (ap is_body none_)) ∙ e;
                      at = s.at;
                      ended = rw (room, none_) refl;
                      next = λ _ c. absurd (omega arith);
                    })
              | inr there ↦
                  let same = mark v ∙ ap (λ (c : ℕ). c == 34) s.value in
                  elim (Bool-cases (char_at xs k == 34)) [
                    | inl quote ↦
                        let it : char_at xs k ≡ 34 = (==_iff (char_at xs k) 34).0 quote in
                        rw (room, s.ended lt ∙ there, same ∙ quote)
                          (record {
                            index = sym (run-end is_body xs k refl (ap is_body it)) ∙ e;
                            at = s.at;
                            ended = rw (room, it) refl;
                            next = λ _ c. s.next (omega arith);
                          })
                    | inr body ↦
                        let inside : is_body (char_at xs k) ≡ true = rw (body, there) refl in
                        rw (room, s.ended lt ∙ there, same ∙ body)
                          (literal_loop-Literal fuel (peek_char callback junk r k).0 (k + 1)
                            (omega arith) (s.next (passes-pos is_body _ refl inside))
                            (run-on is_body xs k refl inside ∙ e))
                  ]
            ]
      ]
    where
      mark : (v : ℕ) → (v == 34) ≡ (shown v == 34)
      mark v = ground arith

pub Returns-both :
    {A : Type 0} (P Q : A → Type 0) (m : Option A)
    → Returns m P
    → Returns m Q
    → Returns m (λ a. P a × Q a)
Returns-both P Q none p q = p
Returns-both P Q (some a) p q = (p, q)

module _ {S : Type 0} (rest : S → List ℕ) where
  pub error-Walked :
      (s ys : List ℕ) (l q : Lexer S) (error : LexerError)
      → Walked S rest s ys l q
      → Walked S rest s ys (record l { error = error }) (record q { error = error })
  error-Walked s ys l q error w = record {
    holds = record {
      start = w.holds.start;
      room = w.holds.room;
      small = w.holds.small;
      enough = w.holds.enough;
      ring = w.holds.ring;
      beyond = w.holds.beyond;
      closed = w.holds.closed;
    };
    line_no = w.line_no;
    col_no = w.col_no;
    error = refl;
  }

  pub here-At : (xs : List ℕ) (l : Lexer S) → Holds S rest xs l → At S rest xs l l 0
  here-At xs l h = record {
    holds = h;
    ofs = refl;
    line_no = refl;
    col_no = refl;
    error = refl;
    near = omega arith;
  }

  -- `Walked` to a lexer that a look leaves as it was.
  pub Walked-to :
      (s ys : List ℕ) (l q r : Lexer S) (k : ℕ)
      → Walked S rest s ys l q
      → At S rest ys q r k
      → Walked S rest s ys l r
  Walked-to s ys l q r k w a = record {
    holds = a.holds;
    line_no = a.line_no ∙ w.line_no;
    col_no = a.col_no ∙ w.col_no;
    error = a.error ∙ w.error;
  }

  pub over_two-Walked :
      (b c : ℕ) (xs : List ℕ) (l : Lexer S)
      → (b == 10) ≡ false
      → (c == 10) ≡ false
      → Holds S rest (b ∷ c ∷ xs) l
      → 2 ≤ buffered l
      → Walked S rest (b ∷ c ∷ []) xs l (step_over 2 l)
  over_two-Walked b c xs l e f h two =
      let first : Walked S rest (b ∷ []) (c ∷ xs) l (step_over 1 l) =
        over-Walked rest b (c ∷ xs) l e h (omega arith) in
      let second : Walked S rest (c ∷ []) xs (step_over 1 l) (step_over 1 (step_over 1 l)) =
        over-Walked rest c xs (step_over 1 l) f first.holds (omega (arith, h.small, h.room)) in
      let same : step_over 1 (step_over 1 l) ≡ step_over 2 l =
        ap₂ (λ (n m : ℕ). record l { ofs = n; col_no = m }) (omega arith) (omega arith) in
      subst (Walked S rest (b ∷ c ∷ []) xs l) same
        (walk-on rest b (c ∷ []) (c ∷ xs) xs l (step_over 1 l) _ first second)

module _ {S : Type 0} (callback : S → ℕ → List ℕ × S) (junk : ℕ → ℕ) (rest : S → List ℕ)
    (reader : IsReader S callback rest) (xs : List ℕ) (ascii : IsAscii (34 ∷ xs)) (l : Lexer S)
    (clear : l.error ≡ no_error) where
  abbrev closed_literal : Lexer S → ℕ → Option (Lexer S × Token × Bool)
  closed_literal r n =
      extract callback junk r n >>= λ q. some (token_of literal_token (step_over 1 q.0, q.1))

  -- A literal from its first character to behind its closing quote.
  closed_literal-Walked :
      (r : Lexer S) (n : ℕ)
      → n < 256
      → char_at xs n ≡ 34
      → Holds S rest xs r
      → n + 1 ≤ buffered r
      → Returns (closed_literal r n) (λ q.
        (q.1 ≡ record { kind = literal_token; str = some (take n xs) })
        × (q.2 ≡ true)
        × Walked S rest (take (suc n) xs) (drop (suc n) xs) r q.0)
  closed_literal-Walked r n lt e h near =
      let plain = IsAscii-IsPlain xs ascii.2 in
      let (d, t) = cut_char xs n 34 lt e (omega arith) in
      Returns-bind
        (λ q.
          (Walked S rest (take n xs) (drop n xs) r q.0 × (q.1 ≡ take n xs)) × (1 ≤ buffered q.0))
        _ (extract callback junk r n) _
        (Returns-both _ _ (extract callback junk r n)
          (extract-Walked callback junk rest reader n xs r plain h)
          (extract-buffered callback junk rest reader n 1 xs r plain h near))
        (λ q p.
          let w : Walked S rest (take n xs) (34 ∷ drop (suc n) xs) r q.0 =
            subst (λ ys. Walked S rest (take n xs) ys r q.0) d p.0.0 in
          let v : Walked S rest (34 ∷ []) (drop (suc n) xs) q.0 (step_over 1 q.0) =
            over-Walked rest 34 _ q.0 refl w.holds p.1 in
          let token : List ℕ → Token = λ s. record { kind = literal_token; str = some s } in
          (
            ap token p.0.1,
            refl,
            subst (λ s. Walked S rest s (drop (suc n) xs) r (step_over 1 q.0)) (sym t)
                (walk-join rest (take n xs) (34 ∷ []) _ _ r q.0 _ w v),
          ))

  pub literal_token_-IsLexed :
      (r : Lexer S)
      → At S rest (34 ∷ xs) l r 1
      → literal_end xs < 256
      → Returns (literal_token_ callback junk r) (IsLexed rest (34 ∷ xs) l (lexed_literal xs))
  unfolding literal_token_
  literal_token_-IsLexed r a short =
      let first : Walked S rest (34 ∷ []) xs r (step_over 1 r) =
        over-Walked rest 34 xs r refl a.holds a.near in
      Returns-bind _ _ (literal_loop callback junk 257 (step_over 1 r) 0)
        (λ q. if q.2 then closed_literal q.0 q.1 else some (error_of unterminated_literal q.0))
        (literal_loop-Literal callback junk rest reader xs ascii.2 (step_over 1 r) 257
          (step_over 1 r) 0 (omega arith) (here-At rest xs (step_over 1 r) first.holds) refl)
        (λ q t. ending q t first)
    where
      ending :
          (q : Lexer S × ℕ × Bool)
          → Literal callback junk rest reader xs ascii.2 (step_over 1 r) q
          → Walked S rest (34 ∷ []) xs r (step_over 1 r)
          → Returns
              (if q.2 then closed_literal q.0 q.1 else some (error_of unterminated_literal q.0))
              (IsLexed rest (34 ∷ xs) l (lexed_literal xs))
      ending q t first =
          let n = literal_end xs in
          let lt : leb 256 n ≡ false = ground arith in
          let ended : q.2 ≡ (char_at xs n == 34) =
            t.ended ∙ ap (λ (i : ℕ). leb 256 i || char_at xs i == 34) t.index ∙ rw lt refl in
          elim (Bool-cases (char_at xs n == 34)) [
            | inl quote ↦
                let it : char_at xs n ≡ 34 = (==_iff (char_at xs n) 34).0 quote in
                let next : At S rest xs (step_over 1 r) q.0 (n + 1) =
                  subst (λ i. At S rest xs (step_over 1 r) q.0 (i + 1)) t.index
                    (t.next (omega (arith, t.index)) (ap (λ (i : ℕ). char_at xs i) t.index ∙ it)) in
                rw (ended ∙ quote, quote, t.index)
                  (Returns-map _ _ (closed_literal q.0 n)
                    (closed_literal-Walked q.0 n short it next.holds next.near)
                    (λ p w. closing n p w.0 w.1 (
                      walk-on rest 34 _ xs _ r q.0 p.0
                        (Walked-to rest _ xs r _ q.0 (n + 1) first next) w.2)))
            | inr open_ ↦
                rw (ended ∙ open_, open_)
                  (record {
                    token = refl;
                    returned = refl;
                    walked = error-Walked rest (34 ∷ []) xs l q.0 unterminated_literal (
                        Walked-from rest _ xs (34 ∷ xs) l r q.0 1 a
                          (Walked-to rest _ xs r (step_over 1 r) q.0 q.1 first t.at));
                  })
          ]
        where
          closing :
              (n : ℕ) (p : Lexer S × Token × Bool)
              → p.1 ≡ record { kind = literal_token; str = some (take n xs) }
              → p.2 ≡ true
              → Walked S rest (34 ∷ take (suc n) xs) (drop (suc n) xs) r p.0
              → IsLexed rest (34 ∷ xs) l (valid literal_token (n + 2) (take n xs)) p
          closing n p e f w =
              let two : suc (suc n) ≡ n + 2 = omega arith in
              record {
                token = e;
                returned = f;
                walked = Walked-clear rest _ _ l p.0 clear (
                    Walked-from rest _ _ (34 ∷ xs) l r p.0 1 a (
                      subst (λ m. Walked S rest (take m (34 ∷ xs)) (drop m (34 ∷ xs)) r p.0) two
                        w));
              }

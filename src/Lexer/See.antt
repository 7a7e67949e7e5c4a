-- ===== src/Lexer/See.antt =====
-- What `lexer_token_get` sees through `peek_char`: the first 256 characters of ASCII text.
use htools.Prelude.{
  ℕ, zero, suc, ◌+◌, ◌^◌, ◌≤◌, ◌<◌, min, true, false, ltb, ◌==◌, if◌then◌else◌, ◌≡◌, inl, inr, refl,
  sym, ap, ◌∙◌, arith, List, [], ◌∷◌, length, get_or, take, Bool-cases, length-take, ltb→lt,
}
use htools.Lexer.Ops.{Lexer, eof, int_of_char, peek_char}
use htools.Lexer.Ring.{IsReader, buffered, Holds, get_or-take}
use htools.Lexer.Peek.{Peeks, peek_char-Peeks, peek_char-overflow}

abbrev pub IsAscii : List ℕ → Type 0
IsAscii [] = Unit
IsAscii (b ∷ s) = (0 < b) × (b < 128) × IsAscii s

-- An `int` of `peek_char`, 0 for its two marks.
abbrev pub shown : ℕ → ℕ
shown v = if ltb v (2 ^ 31) then v else 0

-- The character at an index, 0 behind the text and behind the buffer.
abbrev pub char_at : List ℕ → ℕ → ℕ
char_at xs k = get_or (take 256 xs) k 0

IsAscii-get :
    (xs : List ℕ) (k : ℕ) → IsAscii xs → k < length xs → (0 < get_or xs k 0) × (get_or xs k 0 < 128)
IsAscii-get [] k h lt = absurd (omega arith)
IsAscii-get (b ∷ xs) zero h lt = (h.0, h.1)
IsAscii-get (b ∷ xs) (suc k) h lt = IsAscii-get xs k h.2 (omega arith)

get_or-past : (xs : List ℕ) (k : ℕ) → length xs ≤ k → get_or xs k 0 ≡ 0
get_or-past [] k h = refl
get_or-past (x ∷ xs) zero h = absurd (omega arith)
get_or-past (x ∷ xs) (suc k) h = get_or-past xs k (omega arith)

module _ (S : Type 0) (rest : S → List ℕ) (xs : List ℕ) where
  -- The lexer as it was, with all before `k` in its ring.
  pub record At (l r : Lexer S) (k : ℕ) : Type 0 where
    pub holds : Holds S rest xs r
    pub ofs : r.ofs ≡ l.ofs
    pub line_no : r.line_no ≡ l.line_no
    pub col_no : r.col_no ≡ l.col_no
    pub error : r.error ≡ l.error
    pub near : k ≤ buffered r

  -- What one look at `k` yields.
  pub record Sees (l : Lexer S) (k : ℕ) (r : Lexer S × ℕ) : Type 0 where
    pub at : At l r.0 k
    pub value : shown r.1 ≡ char_at xs k
    pub next : 0 < char_at xs k → At l r.0 (k + 1)
    pub ended : k < 256 → (r.1 == eof) ≡ (char_at xs k == 0)

pub char_at-inside : (xs : List ℕ) (k : ℕ) → k < 256 → k < length xs → char_at xs k ≡ get_or xs k 0
char_at-inside xs k lt h = get_or-take xs 256 k 0 lt h

pub char_at-past : (xs : List ℕ) (k : ℕ) → min 256 (length xs) ≤ k → char_at xs k ≡ 0
char_at-past xs k h = get_or-past (take 256 xs) k (omega (arith, length-take 256 xs))

module _ {S : Type 0} (callback : S → ℕ → List ℕ × S) (junk : ℕ → ℕ) (rest : S → List ℕ)
    (reader : IsReader S callback rest) (xs : List ℕ) (ascii : IsAscii xs) where
  inside-Sees :
      (l r : Lexer S) (k : ℕ) (q : Lexer S × ℕ)
      → k < 256
      → At S rest xs l r k
      → Peeks S rest xs k r q
      → Sees S rest xs l k q
  inside-Sees l r k q lt a p = record {
    at = at k (omega (arith, p.ready, a.near, a.holds.enough));
    value = elim (Bool-cases (ltb k (length xs))) [
      | inl h ↦
          ap shown (here h)
          ∙ char k (ltb→lt _ _ h) (IsAscii-get xs k ascii (ltb→lt _ _ h))
          ∙ sym (char_at-inside xs k lt (ltb→lt _ _ h))
      | inr h ↦ ap shown (end h) ∙ sym (char_at-past xs k (past h))
    ];
    next = λ more. at (k + 1) (ready more);
    ended = λ lt'. elim (Bool-cases (ltb k (length xs))) [
      | inl h ↦
          ap (λ (v : ℕ). v == eof) (here h)
          ∙ not_eof k (IsAscii-get xs k ascii (ltb→lt _ _ h))
          ∙ ap (λ (v : ℕ). v == 0) (sym (char_at-inside xs k lt (ltb→lt _ _ h)))
      | inr h ↦
          ap (λ (v : ℕ). v == eof) (end h)
          ∙ ap (λ (v : ℕ). v == 0) (sym (char_at-past xs k (past h)))
    ];
  }
    where
      past : ltb k (length xs) ≡ false → min 256 (length xs) ≤ k
      past h = ground arith

      here : ltb k (length xs) ≡ true → q.1 ≡ int_of_char (get_or xs k 0)
      here h = p.value ∙ (rw h refl)

      end : ltb k (length xs) ≡ false → q.1 ≡ eof
      end h = p.value ∙ (rw h refl)

      ready : 0 < char_at xs k → k + 1 ≤ buffered q.0
      ready more = elim (Bool-cases (ltb k (length xs))) [
        | inl h ↦ omega (arith, p.ready, ltb→lt k (length xs) h)
        | inr h ↦ absurd (omega (arith, char_at-past xs k (past h)))
      ]

      at : (n : ℕ) → n ≤ buffered q.0 → At S rest xs l q.0 n
      at n near = record {
        holds = p.holds;
        ofs = p.ofs ∙ a.ofs;
        line_no = p.line_no ∙ a.line_no;
        col_no = p.col_no ∙ a.col_no;
        error = p.error ∙ a.error;
        near = near;
      }

      char :
          (k : ℕ)
          → k < length xs
          → (0 < get_or xs k 0) × (get_or xs k 0 < 128)
          → shown (int_of_char (get_or xs k 0)) ≡ get_or xs k 0
      char k h b = ground (arith, b.0, b.1)

      not_eof :
          (k : ℕ)
          → (0 < get_or xs k 0) × (get_or xs k 0 < 128)
          → (int_of_char (get_or xs k 0) == eof) ≡ (get_or xs k 0 == 0)
      not_eof k b = ground (arith, b.0, b.1)

  pub see :
      (l r : Lexer S) (k : ℕ)
      → At S rest xs l r k
      → Sees S rest xs l k (peek_char callback junk r k)
  see l r k a = elim (Bool-cases (ltb k 256)) [
    | inl lt ↦
        inside-Sees l r k _ (ltb→lt _ _ lt) a
          (peek_char-Peeks callback junk rest reader xs r a.holds k (ltb→lt _ _ lt) (inl a.near))
    | inr ge ↦
        let far : 256 ≤ k = ground arith in
        let gone : char_at xs k ≡ 0 = char_at-past xs k (omega arith) in
        rw (peek_char-overflow callback junk r k far) (record {
          at = a;
          value = sym gone;
          next = λ more. absurd (omega arith);
          ended = λ lt. absurd (omega arith);
        })
  ]

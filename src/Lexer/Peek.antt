-- ===== src/Lexer/Peek.antt =====
-- `peek_char` of lexer.c as a look at the stream.
use htools.Prelude.{
  drop-past, drop-drop, ℕ, ◌+◌, ◌-◌, ◌%◌, ◌^◌, ◌≤◌, ◌<◌, min, bit_and, Bool, true, false, ltb, leb,
  ◌==◌, if◌then◌else◌, ◌≡◌, ◌⊎◌, inl, inr, refl, sym, ap, ◌∙◌, arith, List, length, get_or, take,
  drop, add_size, sub_size, length-take, length-drop, Bool-cases, ltb→lt, lt→ltb, leb→le,
}
use mathlib.Core.Path.{subst}
use htools.Prelude.Bits.{bit_and-mask}
use htools.Lexer.Ops.{overflow, Lexer, eof, int_of_char, fill, peek_char}
use htools.Lexer.Ring.{IsReader, buffered, Holds, get_or-drop, get_or-take, fill-new, fill-old}

-- What `peek_char` at `k` does: it keeps the stream, and everything up to `k` that the stream
-- holds is in the ring behind it.
pub record Peeks (S : Type 0) (rest : S → List ℕ) (xs : List ℕ) (k : ℕ) (l : Lexer S)
    (r : Lexer S × ℕ) : Type 0 where
  pub holds : Holds S rest xs r.0
  pub value : r.1 ≡ (if ltb k (length xs) then int_of_char (get_or xs k 0) else eof)
  pub ready : min (k + 1) (length xs) ≤ buffered r.0
  pub ofs : r.0.ofs ≡ l.ofs
  pub line_no : r.0.line_no ≡ l.line_no
  pub col_no : r.0.col_no ≡ l.col_no
  pub error : r.0.error ≡ l.error

-- The branches of `peek_char`.
choose :
    {A : Type 0} (P : A → Type 0) (a b c d : Bool) (u v w x y : A)
    → a ≡ false
    → (b ≡ true → P v)
    → (b ≡ false → c ≡ true → P w)
    → (b ≡ false → c ≡ false → d ≡ true → P x)
    → (b ≡ false → c ≡ false → d ≡ false → P y)
    → P (if a then u else if b then v else if c then w else if d then x else y)
choose P true b c d u v w x y e f g h k = cc
choose P false true c d u v w x y e f g h k = f refl
choose P false false true d u v w x y e f g h k = g refl refl
choose P false false false true u v w x y e f g h k = h refl refl refl
choose P false false false false u v w x y e f g h k = k refl refl refl

-- A character that is in the ring is read from it, and nothing else happens.
pub peek_char-ring :
    {S : Type 0} (callback : S → ℕ → List ℕ × S) (junk : ℕ → ℕ) (l : Lexer S) (k : ℕ)
    → k < 256
    → l.ofs + k < l.buf_end
    → l.buf_end < 2 ^ 64
    → (peek_char callback junk l k).0 ≡ l
unfolding peek_char
peek_char-ring callback junk l k lt h small =
    let here : leb 256 k ≡ false = ground arith in
    let inside : ltb (add_size l.ofs k) l.buf_end ≡ true = ground arith in rw (here, inside) refl

module _ {S : Type 0} (rest : S → List ℕ) (xs : List ℕ) (l : Lexer S) (h : Holds S rest xs l) where
  same-Peeks :
      (k : ℕ) → k < buffered l → Peeks S rest xs k l (l, int_of_char (l.buf ((l.ofs + k) % 256)))
  same-Peeks k lt = record {
    holds = h;
    value = ap int_of_char (h.ring k lt) ∙ inside;
    ready = omega (arith, h.enough);
    ofs = refl;
    line_no = refl;
    col_no = refl;
    error = refl;
  }
    where
      inside :
          int_of_char (get_or xs k 0)
          ≡ (if ltb k (length xs) then int_of_char (get_or xs k 0) else eof)
      inside = rw (lt→ltb k (length xs) (omega (arith, h.enough))) refl

-- Beyond the buffer `peek_char` does nothing.
pub peek_char-overflow :
    {S : Type 0} (callback : S → ℕ → List ℕ × S) (junk : ℕ → ℕ) (l : Lexer S) (k : ℕ)
    → 256 ≤ k
    → peek_char callback junk l k ≡ (l, overflow)
unfolding peek_char
peek_char-overflow callback junk l k h = let far : leb 256 k ≡ true = ground arith in rw far refl

module _ {S : Type 0} (callback : S → ℕ → List ℕ × S) (junk : ℕ → ℕ) (rest : S → List ℕ)
    (reader : IsReader S callback rest) (xs : List ℕ) (l : Lexer S) (h : Holds S rest xs l) where
  abbrev wanted : ℕ
  wanted = sub_size 256 (sub_size l.buf_end l.ofs)

  abbrev got : List ℕ
  got = (callback l.source wanted).0

  abbrev refilled : Lexer S
  refilled = fill callback junk (record l { source = (callback l.source wanted).1 }) wanted got

  wanted-eq : wanted ≡ 256 - buffered l
  wanted-eq = omega (arith, h.start, h.room, h.small, h.enough)

  got-eq : got ≡ take wanted (drop (buffered l) xs)
  got-eq = reader.delivers l.source wanted ∙ ap (take wanted) h.beyond

  length-got : length got ≡ min wanted (length xs - buffered l)
  length-got = omega (
    arith,
    ap length got-eq,
    length-take wanted (drop (buffered l) xs),
    length-drop (buffered l) xs,
  )

  got-at : (i d : ℕ) → i < length got → get_or got i d ≡ get_or xs (buffered l + i) 0
  got-at i d lt =
      ap (λ (ys : List ℕ). get_or ys i d) got-eq
      ∙ get_or-take (drop (buffered l) xs) wanted i d (omega (arith, length-got))
          (omega (arith, length-got, length-drop (buffered l) xs))
      ∙ get_or-drop xs (buffered l) i

  buffered-refilled : buffered refilled ≡ buffered l + length got
  unfolding fill
  buffered-refilled = omega (arith, h.start, h.small, h.enough, length-got)

  refilled-ring :
      buffered l < 256
      → (k : ℕ) → k < buffered refilled
      → refilled.buf ((l.ofs + k) % 256) ≡ get_or xs k 0
  refilled-ring lt k less =
      let small : l.buf_end + 512 < 2 ^ 64 = omega (arith, h.start, h.small, h.enough) in
      elim (Bool-cases (ltb k (buffered l))) [
        | inl old ↦
            fill-old callback junk _ wanted got small (omega (arith, wanted-eq))
              (omega (arith, wanted-eq)) (l.ofs + k) (omega arith)
              (omega (arith, ltb→lt k (buffered l) old, h.start))
              (omega (arith, wanted-eq, h.start, h.room))
            ∙ h.ring k (ltb→lt _ _ old)
        | inr new ↦
            let i = k - buffered l in
            let le : buffered l ≤ k = ground arith in
            let inside : i < length got = omega (arith, buffered-refilled) in
            let at : (l.ofs + k) % 256 ≡ (l.buf_end + i) % 256 =
              ap (λ (n : ℕ). n % 256) (omega (arith, h.start)) in
            let back : buffered l + i ≡ k = omega arith in
            ap refilled.buf at
            ∙ fill-new callback junk _ wanted got small (omega (arith, wanted-eq))
                (omega (arith, wanted-eq)) i inside (omega (arith, length-got))
            ∙ got-at i (junk i) inside
            ∙ ap (λ (n : ℕ). get_or xs n 0) back
      ]

  refilled-Holds : buffered l < 256 → l.buf_ended ≡ false → Holds S rest xs refilled
  unfolding fill
  refilled-Holds lt open_ = record {
    start = omega (arith, h.start, h.small, length-got, h.enough);
    room = omega (arith, h.start, h.room, h.small, length-got, h.enough, wanted-eq);
    small = h.small;
    enough = omega (arith, buffered-refilled, length-got, h.enough);
    ring = refilled-ring lt;
    beyond = left ∙ cut;
    closed = λ e. left ∙ drop-past (buffered l + wanted) xs (ended e);
  }
    where
      left : rest (callback l.source wanted).1 ≡ drop (buffered l + wanted) xs
      left =
          reader.remains l.source wanted
          ∙ ap (drop wanted) h.beyond
          ∙ drop-drop (buffered l) wanted xs

      cut : drop (buffered l + wanted) xs ≡ drop (buffered refilled) xs
      cut = elim (Bool-cases (leb (buffered l + wanted) (length xs))) [
        | inl le ↦
            ap (λ (n : ℕ). drop n xs) (omega (arith, leb→le _ _ le, buffered-refilled, length-got))
        | inr gt ↦
            let past : length xs ≤ buffered l + wanted = ground arith in
            drop-past _ xs past
            ∙ sym (drop-past _ xs (omega (arith, buffered-refilled, length-got)))
      ]

      ended :
          (if ltb (length got) wanted then true else l.buf_ended) ≡ true
          → length xs ≤ buffered l + wanted
      ended e = ground (arith, length-got)

  at_end-Peeks :
      (k : ℕ) (s : S)
      → Holds S rest xs (record l { source = s })
      → length xs ≤ k
      → length xs ≤ buffered l
      → Peeks S rest xs k l (record l { source = s }, eof)
  at_end-Peeks k s hs le lb = record {
    holds = hs;
    value = ground arith;
    ready = omega arith;
    ofs = refl;
    line_no = refl;
    col_no = refl;
    error = refl;
  }

  index : (k : ℕ) → k < 256 → bit_and 255 (add_size l.ofs k) ≡ (l.ofs + k) % 256
  index k lt = bit_and-mask 8 (add_size l.ofs k) ∙ omega (arith, h.small)

  more-Peeks :
      (k : ℕ)
      → k < 256
      → buffered l ≤ k
      → (k ≤ buffered l) ⊎ (k < length xs)
      → l.buf_ended ≡ false
      → 0 < length got
      → Peeks S rest xs k l (refilled, int_of_char (refilled.buf ((l.ofs + k) % 256)))
  unfolding fill
  more-Peeks k lt past near open_ more =
      let y = same-Peeks rest xs refilled (refilled-Holds (omega arith) open_) k (reach near) in
      record {
        holds = y.holds;
        value = y.value;
        ready = y.ready;
        ofs = refl;
        line_no = refl;
        col_no = refl;
        error = refl;
      }
    where
      reach : (k ≤ buffered l) ⊎ (k < length xs) → k < buffered refilled
      reach n = ground (arith, buffered-refilled, length-got, wanted-eq)

  empty-Holds :
      length got ≡ 0
      → buffered l < 256
      → Holds S rest xs (record l { source = (callback l.source wanted).1 })
  empty-Holds e lt =
      let all : length xs ≤ buffered l = omega (arith, length-got, wanted-eq) in
      let left =
        reader.remains l.source wanted
        ∙ ap (drop wanted) h.beyond
        ∙ drop-drop (buffered l) wanted xs in
      record {
        start = h.start;
        room = h.room;
        small = h.small;
        enough = h.enough;
        ring = h.ring;
        beyond = left ∙ drop-past _ xs (omega arith) ∙ sym (drop-past _ xs all);
        closed = λ _. left ∙ drop-past _ xs (omega arith);
      }

  -- For a callback that reads a stream in order, `peek_char` at less than 256 looks at the stream,
  -- if all before `k` is in the ring or the stream goes on at `k`: it returns the character there,
  -- or `PEEK_EOF` behind the end of the stream, and the lexer stands before the same stream.
  pub peek_char-Peeks :
      (k : ℕ)
      → k < 256
      → (k ≤ buffered l) ⊎ (k < length xs)
      → Peeks S rest xs k l (peek_char callback junk l k)
  unfolding peek_char
  peek_char-Peeks k lt near =
      choose (Peeks S rest xs k l) (leb 256 k) (ltb (add_size l.ofs k) l.buf_end) l.buf_ended
        (length got == 0) _ _ _ _ _ (ground arith)
        (λ inside.
          subst (λ n. Peeks S rest xs k l (l, int_of_char (l.buf n))) (sym (index k lt))
            (same-Peeks rest xs l h k (omega (arith, ltb→lt _ _ inside, h.small))))
        (λ outside ended.
          let all : length xs ≤ buffered l =
            omega (
              arith,
              ap length (h.closed ended),
              ap length h.beyond,
              length-drop (buffered l) xs,
            ) in
          at_end-Peeks k l.source h (omega (arith, past outside)) all)
        (λ outside open_ empty.
          let none_ : length got ≡ 0 = ground arith in
          let all : length xs ≤ buffered l = omega (arith, length-got, wanted-eq, past outside) in
          at_end-Peeks k _ (empty-Holds none_ (omega (arith, past outside)))
            (omega (arith, past outside)) all)
        (λ outside open_ more.
          subst (λ n. Peeks S rest xs k l (refilled, int_of_char (refilled.buf n)))
            (sym (index k lt)) (more-Peeks k lt (past outside) near open_ (ground arith)))
    where
      past : ltb (add_size l.ofs k) l.buf_end ≡ false → buffered l ≤ k
      past outside = ground (arith, h.start, h.small, h.enough)

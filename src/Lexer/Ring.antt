-- ===== src/Lexer/Ring.antt =====
-- The stream that a lexer stands before: what the ring of lexer.c holds, and what the callback
-- has left.
use htools.Prelude.{
  drop-past, ℕ, zero, suc, ◌+◌, ◌-◌, ◌%◌, ◌^◌, ◌≤◌, ◌<◌, min, bit_and, true, leb, ◌≡◌, inl, inr,
  refl, sym, ap, ◌∙◌, arith, List, [], ◌∷◌, length, get_or, take, drop, add_size, sub_size,
  Bool-cases, leb→le,
}
use htools.Prelude.Bits.{bit_and-mask}
use htools.Lexer.Ops.{Lexer, fill, create, cstr_callback}

-- What a callback must do, as `fread` and `lexer_cstr_callback` do: it delivers as many bytes of
-- the stream as are wanted, and less only at its end.
pub record IsReader (S : Type 0) (callback : S → ℕ → List ℕ × S) (rest : S → List ℕ) : Type 0 where
  pub delivers : (s : S) (n : ℕ) → (callback s n).0 ≡ take n (rest s)
  pub remains : (s : S) (n : ℕ) → rest (callback s n).1 ≡ drop n (rest s)

abbrev pub buffered : {S : Type 0} → Lexer S → ℕ
buffered l = l.buf_end - l.ofs

-- The lexer stands before the bytes `xs`.
pub record Holds (S : Type 0) (rest : S → List ℕ) (xs : List ℕ) (l : Lexer S) : Type 0 where
  pub start : l.ofs ≤ l.buf_end
  pub room : l.buf_end ≤ l.ofs + 256
  pub small : l.ofs + length xs + 512 < 2 ^ 64
  pub enough : buffered l ≤ length xs
  pub ring : (k : ℕ) → k < buffered l → l.buf ((l.ofs + k) % 256) ≡ get_or xs k 0
  pub beyond : rest l.source ≡ drop (buffered l) xs
  pub closed : l.buf_ended ≡ true → rest l.source ≡ []

pub get_or-drop : (xs : List ℕ) (n k : ℕ) → get_or (drop n xs) k 0 ≡ get_or xs (n + k) 0
get_or-drop xs zero k = ap (λ (i : ℕ). get_or xs i 0) (omega arith)
get_or-drop [] (suc n) k = refl
get_or-drop (x ∷ xs) (suc n) k =
    let e : suc n + k ≡ suc (n + k) = omega arith in
    get_or-drop xs n k ∙ sym (ap (λ (i : ℕ). get_or (x ∷ xs) i 0) e)

pub get_or-take :
    (xs : List ℕ) (n k d : ℕ) → k < n → k < length xs → get_or (take n xs) k d ≡ get_or xs k 0
get_or-take xs zero k d h lt = absurd (omega arith)
get_or-take [] (suc n) k d h lt = absurd (omega arith)
get_or-take (x ∷ xs) (suc n) zero d h lt = refl
get_or-take (x ∷ xs) (suc n) (suc k) d h lt = get_or-take xs n k d (omega arith) (omega arith)

take-min : (n : ℕ) (xs : List ℕ) → take (min (length xs) n) xs ≡ take n xs
take-min zero xs = let e : min (length xs) 0 ≡ 0 = omega arith in ap (λ (k : ℕ). take k xs) e
take-min (suc n) [] = let e : min 0 (suc n) ≡ 0 = omega arith in ap (λ (k : ℕ). take {A = ℕ} k []) e
take-min (suc n) (x ∷ xs) =
    let e : min (suc (length xs)) (suc n) ≡ suc (min (length xs) n) = omega arith in
    ap (λ (k : ℕ). take k (x ∷ xs)) e ∙ ap (λ (ys : List ℕ). x ∷ ys) (take-min n xs)

-- `lexer_cstr_callback` delivers the characters of a C string one after the other.
pub cstr_callback-IsReader : IsReader (List ℕ) cstr_callback (λ s. s)
unfolding cstr_callback
cstr_callback-IsReader = record { delivers = λ s n. take-min n s; remains = drop-min }
  where
    drop-min : (s : List ℕ) (n : ℕ) → drop (min (length s) n) s ≡ drop n s
    drop-min s n = elim (Bool-cases (leb n (length s))) [
      | inl le ↦ ap (λ (k : ℕ). drop k s) (omega (arith, leb→le n (length s) le))
      | inr gt ↦
          let past : length s ≤ n = ground arith in
          drop-past _ s (omega arith) ∙ sym (drop-past n s past)
    ]

-- A new lexer stands before the whole stream of its callback, if `size_t` can count it.
pub create-Holds :
    {S : Type 0} (rest : S → List ℕ) (s : S)
    → length (rest s) + 512 < 2 ^ 64
    → Holds S rest (rest s) (create s)
unfolding create
create-Holds rest s h = record {
  start = omega arith;
  room = omega arith;
  small = omega arith;
  enough = omega arith;
  ring = λ k lt. absurd (omega arith);
  beyond = refl;
  closed = λ e. cc;
}

module _ {S : Type 0} (callback : S → ℕ → List ℕ × S) (junk : ℕ → ℕ) where
  module _ (l : Lexer S) (len : ℕ) (got : List ℕ) (small : l.buf_end + 512 < 2 ^ 64) (pos : 0 < len)
      (le : len ≤ 256) where
    -- The ring behind a refill.
    pub fill-new :
        (k : ℕ)
        → k < length got
        → length got ≤ len
        → (fill callback junk l len got).buf ((l.buf_end + k) % 256) ≡ get_or got k (junk k)
    unfolding fill
    fill-new k h le' =
        let src : ℕ → ℕ = λ i. get_or got i (junk i) in
        let first = bit_and 255 l.buf_end in
        let m1 = bit_and-mask 8 l.buf_end in
        let m2 = bit_and-mask 8 (sub_size (add_size l.buf_end len) 1) in
        let j = (l.buf_end + k) % 256 in
        let low : first ≤ j → src (0 + (j - first)) ≡ src k = λ x. ap src (omega (arith, m1)) in
        let high : j < first → src (sub_size 256 first + (j - 0)) ≡ src k =
          λ x. ap src (omega (arith, m1)) in
        ground (arith, m1, m2, low, high)

    pub fill-old :
        (j : ℕ)
        → l.ofs ≤ j
        → j < l.buf_end
        → l.buf_end + len ≤ l.ofs + 256
        → (fill callback junk l len got).buf (j % 256) ≡ l.buf (j % 256)
    unfolding fill
    fill-old j h lt room =
        ground
          (arith, bit_and-mask 8 l.buf_end, bit_and-mask 8 (sub_size (add_size l.buf_end len) 1))

-- ===== src/Utf8/Replace.antt =====
-- `utf8_create` replaces the bytes at which no code point starts, and no others.
use htools.Prelude.{
  add_size, drop-drop, drop-past, take-append-drop, ℕ, zero, suc, ◌+◌, ◌-◌, ◌*◌, ◌%◌, ◌^◌, ◌≤◌, ◌<◌,
  none, some, ltb, ◌≡◌, inl, inr, refl, sym, ap, ap₂, ◌∙◌, u32, none-some, arith, List, [], ◌∷◌,
  ◌++◌, length, take, drop, Returns, Returns-map, Option-cases, Bool-cases, ltb→lt, append-nil,
  append_assoc, length-append, length-drop, length-take,
}
use mathlib.Core.Path.{subst}
use htools.Utf8.Ops.{decode, get_code, count_loop, copy_loop}
use htools.Utf8.Decode.{encode, IsCode, IsBytes}
use htools.Utf8.RoundTrip.{Decodes, decode-Decodes, decode-encode}
use htools.Utf8.Text.{Text, empty, char}

pub IsBytes-drop : (i : ℕ) (s : List ℕ) → IsBytes s → IsBytes (drop i s)
IsBytes-drop zero s h = h
IsBytes-drop (suc i) [] h = tt
IsBytes-drop (suc i) (b ∷ s) h = IsBytes-drop i s h.1

replacement-IsCode : IsCode 0xfffd
replacement-IsCode = record { small = omega arith; no_surrogate = inr (omega arith) }

pub encode-replacement : encode 0xfffd ≡ 0xef ∷ 0xbf ∷ 0xbd ∷ []
unfolding encode
encode-replacement = refl

pub encode-bounds : (c : ℕ) → (0 < length (encode c)) × (length (encode c) ≤ 4)
unfolding encode
encode-bounds c = ground arith

pub get_code-inside :
    (str : List ℕ) (i : ℕ) → i < length str → get_code str i ≡ some (decode (drop i str))
unfolding get_code
get_code-inside str i h = ground arith

IsBytes-behind : (s t : List ℕ) → IsBytes (s ++ t) → IsBytes t
IsBytes-behind [] t h = h
IsBytes-behind (b ∷ s) t h = IsBytes-behind s t h.1

-- Text that starts with no code point.
abbrev pub NoCode : List ℕ → Type 0
NoCode p = (c : ℕ) (r : List ℕ) → IsCode c → ¬ (p ≡ encode c ++ r)

-- A text with U+FFFD for each byte at which no code point starts: how many there are, and how many
-- code points the text has then.
pub data Replaced : ℕ → ℕ → List ℕ → List ℕ → Type 0 where
  end : Replaced 0 0 [] []
  code :
      (c k n : ℕ) (s t : List ℕ)
      → IsCode c
      → Replaced k n s t
      → Replaced k (suc n) (encode c ++ s) (encode c ++ t)
  byte :
      (b k n : ℕ) (s t : List ℕ)
      → NoCode (b ∷ s)
      → Replaced k n s t
      → Replaced (suc k) (suc n) (b ∷ s) (encode 0xfffd ++ t)

pub Replaced-Text : (k n : ℕ) (s t : List ℕ) → Replaced k n s t → Text n t
Replaced-Text k n s t end = empty
Replaced-Text k n s t (code c j m r u ok x) = char c m u ok (Replaced-Text j m r u x)
Replaced-Text k n s t (byte b j m r u bad x) =
    char 0xfffd m u replacement-IsCode (Replaced-Text j m r u x)

module _ (str : List ℕ) (bytes_ok : IsBytes str) where
  inside :
      (i c n : ℕ)
      → i < length str
      → decode (drop i str) ≡ some (c, n)
      → Decodes (drop i str) c n × (i + n ≤ length str) × (0 < n)
  inside i c n lt e =
      let d =
        decode-Decodes (drop i str) c n (omega (arith, length-drop i str))
          (IsBytes-drop i str bytes_ok) e in
      (
        d,
        omega (arith, ap length d.bytes, length-take n (drop i str), d.count, length-drop i str),
        omega (arith, d.count, encode-bounds c),
      )

  -- What the two loops yield from an index on.
  pub record Made (i len r : ℕ) (dst : List ℕ) (x : ℕ × ℕ) (y : List ℕ × ℕ) : Type 0 where
    pub num : ℕ
    pub codes : ℕ
    pub text : List ℕ
    pub replaced : Replaced num codes (drop i str) text
    pub copied : y.0 ≡ dst ++ text
    pub len_ : x.0 ≡ len + codes
    pub number : y.1 ≡ (r + num) % 2 ^ 32
    pub size : x.1 ≡ length y.0

  bad-NoCode :
      (i : ℕ)
      → i < length str
      → decode (drop i str) ≡ none
      → (b : ℕ) × (drop i str ≡ b ∷ drop (i + 1) str) × NoCode (b ∷ drop (i + 1) str)
  bad-NoCode i lt bad = first (drop i str) refl
    where
      first :
          (p : List ℕ)
          → drop i str ≡ p
          → (b : ℕ) × (drop i str ≡ b ∷ drop (i + 1) str) × NoCode (b ∷ drop (i + 1) str)
      first [] e = absurd (omega (arith, ap length e, length-drop i str))
      first (b ∷ s) e =
          let tail : drop (i + 1) str ≡ s = sym (drop-drop i 1 str) ∙ ap (drop 1) e in
          let split : drop i str ≡ b ∷ drop (i + 1) str =
            e ∙ ap (λ (t : List ℕ). b ∷ t) (sym tail) in
          (
            b,
            split,
            λ c r ok starts.
                let all : IsBytes (encode c ++ r) =
                  subst IsBytes (split ∙ starts) (IsBytes-drop i str bytes_ok) in
                none-some (
                  sym bad
                  ∙ ap decode (split ∙ starts)
                  ∙ decode-encode c r ok (IsBytes-behind (encode c) r all)),
          )

  bad-Made :
      (i len r b : ℕ) (dst : List ℕ) (x : ℕ × ℕ) (y : List ℕ × ℕ)
      → drop i str ≡ b ∷ drop (i + 1) str
      → NoCode (b ∷ drop (i + 1) str)
      → Made (i + 1) (len + 1) (u32 (r + 1)) (dst ++ (0xef ∷ 0xbf ∷ 0xbd ∷ [])) x y
      → Made i len r dst x y
  bad-Made i len r b dst x y split bad m = record {
    num = suc m.num;
    codes = suc m.codes;
    text = encode 0xfffd ++ m.text;
    replaced =
        subst (λ s. Replaced (suc m.num) (suc m.codes) s (encode 0xfffd ++ m.text)) (sym split)
          (byte b m.num m.codes (drop (i + 1) str) m.text bad m.replaced);
    copied =
        m.copied
        ∙ append_assoc dst (0xef ∷ 0xbf ∷ 0xbd ∷ []) m.text
        ∙ ap (λ (s : List ℕ). dst ++ (s ++ m.text)) (sym encode-replacement);
    len_ = omega (arith, m.len_);
    number = omega (arith, m.number);
    size = m.size;
  }

  good-Made :
      (i len r c n : ℕ) (dst : List ℕ) (x : ℕ × ℕ) (y : List ℕ × ℕ)
      → Decodes (drop i str) c n
      → Made (i + n) (len + 1) r (dst ++ take n (drop i str)) x y
      → Made i len r dst x y
  good-Made i len r c n dst x y d m = record {
    num = m.num;
    codes = suc m.codes;
    text = encode c ++ m.text;
    replaced =
        subst (λ s. Replaced m.num (suc m.codes) s (encode c ++ m.text)) split
          (code c m.num m.codes (drop (i + n) str) m.text d.code m.replaced);
    copied =
        m.copied
        ∙ append_assoc dst (take n (drop i str)) m.text
        ∙ ap (λ (s : List ℕ). dst ++ (s ++ m.text)) d.bytes;
    len_ = omega (arith, m.len_);
    number = m.number;
    size = m.size;
  }
    where
      split : encode c ++ drop (i + n) str ≡ drop i str
      split = ap₂ ◌++◌ (sym d.bytes) (sym (drop-drop i n str)) ∙ take-append-drop n (drop i str)

  pub loops-Made :
      (fuel i len bytes : ℕ) (dst : List ℕ) (r : ℕ)
      → length str < i + fuel
      → i ≤ length str
      → len + (length str - i) < 2 ^ 64
      → bytes + 3 * (length str - i) < 2 ^ 64
      → bytes ≡ length dst
      → r < 2 ^ 32
      → Returns
          (count_loop fuel str i len bytes)
          (λ x. Returns (copy_loop fuel str i dst r) (Made i len r dst x))
  unfolding count_loop copy_loop
  loops-Made zero i len bytes dst r h le sl sb e rs = absurd (omega arith)
  loops-Made (suc fuel) i len bytes dst r h le sl sb e rs = elim (Bool-cases (ltb i (length str))) [
    | inl more ↦
        let lt : i < length str = ltb→lt _ _ more in
        let one : add_size len 1 ≡ len + 1 = omega arith in
        elim (Option-cases (decode (drop i str))) [
          | inl bad ↦
              let three : add_size bytes 3 ≡ bytes + 3 = omega arith in
              let (b, split, none_) = bad-NoCode i lt bad in
              rw (more, get_code-inside str i lt, bad, one, three)
                (Returns-map _ _ (count_loop fuel str (i + 1) (len + 1) (bytes + 3))
                  (loops-Made fuel (i + 1) (len + 1) (bytes + 3) _ (u32 (r + 1)) (omega arith)
                    (omega arith) (omega arith) (omega arith)
                    (omega (arith, e, length-append dst (0xef ∷ 0xbf ∷ 0xbd ∷ []))) (omega arith))
                  (λ x f.
                    Returns-map _ _ (copy_loop fuel str (i + 1) _ _) f
                      (λ y m. bad-Made i len r b dst x y split none_ m)))
          | inr ((c, n), good) ↦
              let (d, end_, pos) = inside i c n lt good in
              let sum : add_size bytes n ≡ bytes + n = omega (arith, end_) in
              rw (more, get_code-inside str i lt, good, one, sum)
                (Returns-map _ _ (count_loop fuel str (i + n) (len + 1) (bytes + n))
                  (loops-Made fuel (i + n) (len + 1) (bytes + n) _ r (omega (arith, pos)) end_
                    (omega (arith, pos, end_)) (omega (arith, pos, end_))
                    (omega (
                      arith,
                      e,
                      length-append dst (take n (drop i str)),
                      ap length d.bytes,
                      d.count,
                    ))
                    rs)
                  (λ x f.
                    Returns-map _ _ (copy_loop fuel str (i + n) _ _) f
                      (λ y m. good-Made i len r c n dst x y d m)))
        ]
    | inr done ↦
        let past : length str ≤ i = ground arith in
        rw done (record {
          num = 0;
          codes = 0;
          text = [];
          replaced = subst (λ s. Replaced 0 0 s []) (sym (drop-past i str past)) end;
          copied = sym (append-nil dst);
          len_ = omega arith;
          number = omega arith;
          size = e;
        })
  ]

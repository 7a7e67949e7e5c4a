-- ===== src/Utf8/RoundTrip.antt =====
-- `get_code` and the encoding of a code point are inverse to each other.
use htools.Prelude.{
  ℕ, zero, suc, ◌+◌, ◌*◌, ◌%◌, ◌≤◌, ◌<◌, some, ◌≡◌, refl, sym, ap, ◌∙◌, arith, ◌⊎◌, inl, inr, List,
  [], ◌∷◌, ◌++◌, length, get_or, take,
}
use htools.Utf8.Ops.{decode}
use htools.Utf8.Decode.{encode, IsCode, IsBytes}
use htools.Utf8.Table.{table, decode-table}

pub IsBytes-append : (s t : List ℕ) → IsBytes s → IsBytes t → IsBytes (s ++ t)
IsBytes-append [] t hs ht = ht
IsBytes-append (b ∷ s) t hs ht = (hs.0, IsBytes-append s t hs.1 ht)

pub encode-IsBytes : (c : ℕ) → IsCode c → IsBytes (encode c)
unfolding encode
encode-IsBytes c h = ground (arith, h.small)

-- At the encoding of a code point of at most 21 bits that is no surrogate, `get_code` returns the
-- code point and the number of its bytes, whatever bytes follow.
pub decode-encode :
    (c : ℕ) (rest : List ℕ)
    → IsCode c
    → IsBytes rest
    → decode (encode c ++ rest) ≡ some (c, length (encode c))
unfolding encode table
decode-encode c rest h hr =
    decode-table (encode c ++ rest) (IsBytes-append (encode c) rest (encode-IsBytes c h) hr)
    ∙ ground (arith, h.small, h.no_surrogate)

pub record Decodes (p : List ℕ) (c n : ℕ) : Type 0 where
  pub code : IsCode c
  pub bytes : take n p ≡ encode c
  pub count : n ≡ length (encode c)

abbrev FourBytes : ℕ → ℕ → ℕ → ℕ → ℕ → ℕ → Type 0
FourBytes b0 b1 b2 b3 c n =
    (0xf0 ≤ b0)
    × (b0 < 0xf8)
    × (0x80 ≤ b1)
    × (b1 < 0xc0)
    × (0x80 ≤ b2)
    × (b2 < 0xc0)
    × (0x80 ≤ b3)
    × (b3 < 0xc0)
    × (0x10000 ≤ c)
    × (c ≡ b0 % 8 * 262144 + b1 % 64 * 4096 + b2 % 64 * 64 + b3 % 64)
    × (n ≡ 4)

abbrev ThreeBytes : ℕ → ℕ → ℕ → ℕ → ℕ → Type 0
ThreeBytes b0 b1 b2 c n =
    (0xe0 ≤ b0)
    × (b0 < 0xf0)
    × (0x80 ≤ b1)
    × (b1 < 0xc0)
    × (0x80 ≤ b2)
    × (b2 < 0xc0)
    × (0x800 ≤ c)
    × ((c < 0xd800) ⊎ (0xdfff < c))
    × (c ≡ b0 % 16 * 4096 + b1 % 64 * 64 + b2 % 64)
    × (n ≡ 3)

abbrev TwoBytes : ℕ → ℕ → ℕ → ℕ → Type 0
TwoBytes b0 b1 c n =
    (0xc2 ≤ b0) × (b0 < 0xe0) × (0x80 ≤ b1) × (b1 < 0xc0) × (c ≡ b0 % 32 * 64 + b1 % 64) × (n ≡ 2)

table-cases :
    (avail b0 b1 b2 b3 c n : ℕ)
    → table avail b0 b1 b2 b3 ≡ some (c, n)
    → ((b0 < 0x80) × (c ≡ b0) × (n ≡ 1))
      ⊎ ((2 ≤ avail) × TwoBytes b0 b1 c n)
      ⊎ ((3 ≤ avail) × ThreeBytes b0 b1 b2 c n)
      ⊎ ((4 ≤ avail) × FourBytes b0 b1 b2 b3 c n)
unfolding table
table-cases avail b0 b1 b2 b3 c n e = ground arith

one : (b0 c : ℕ) → b0 < 0x80 → c ≡ b0 → (encode c ≡ b0 ∷ []) × IsCode c
unfolding encode
one b0 c h e = (ground arith, record { small = omega arith; no_surrogate = inl (omega arith) })

two : (b0 b1 c n : ℕ) → TwoBytes b0 b1 c n → (encode c ≡ b0 ∷ b1 ∷ []) × IsCode c
unfolding encode
two b0 b1 c n h = (ground arith, record { small = ground arith; no_surrogate = ground arith })

three : (b0 b1 b2 c n : ℕ) → ThreeBytes b0 b1 b2 c n → (encode c ≡ b0 ∷ b1 ∷ b2 ∷ []) × IsCode c
unfolding encode
three b0 b1 b2 c n h = (ground arith, record { small = ground arith; no_surrogate = ground arith })

four :
    (b0 b1 b2 b3 c n : ℕ)
    → FourBytes b0 b1 b2 b3 c n
    → (encode c ≡ b0 ∷ b1 ∷ b2 ∷ b3 ∷ []) × IsCode c
unfolding encode
four b0 b1 b2 b3 c n h =
    (ground arith, record { small = ground arith; no_surrogate = ground arith })

-- The first bytes of a list one by one.
firsts : (k i : ℕ) → List ℕ → List ℕ
firsts zero i p = []
firsts (suc k) i p = get_or p i 0 ∷ firsts k (suc i) p

firsts-cons : (k i b : ℕ) (p : List ℕ) → firsts k (suc i) (b ∷ p) ≡ firsts k i p
unfolding firsts
firsts-cons zero i b p = refl
firsts-cons (suc k) i b p = ap (λ (s : List ℕ). get_or p i 0 ∷ s) (firsts-cons k (suc i) b p)

firsts-take : (k : ℕ) (p : List ℕ) → k ≤ length p → take k p ≡ firsts k 0 p
unfolding firsts
firsts-take zero p h = refl
firsts-take (suc k) [] h = absurd (omega arith)
firsts-take (suc k) (b ∷ p) h =
    ap (λ (s : List ℕ). b ∷ s) (firsts-take k p (omega arith) ∙ sym (firsts-cons k 0 b p))

decoded :
    (p : List ℕ) (c n k : ℕ)
    → k ≤ length p
    → n ≡ k
    → length (firsts k 0 p) ≡ k
    → (encode c ≡ firsts k 0 p) × IsCode c
    → Decodes p c n
decoded p c n k h e l x = record {
  code = x.1;
  bytes = ap (λ (m : ℕ). take m p) e ∙ firsts-take k p h ∙ sym x.0;
  count = e ∙ sym l ∙ ap length (sym x.0);
}

-- Whatever `get_code` accepts at the start of some bytes is the encoding of the code point that it returns, and the count is
-- that of its bytes.
pub decode-Decodes :
    (p : List ℕ) (c n : ℕ) → 0 < length p → IsBytes p → decode p ≡ some (c, n) → Decodes p c n
unfolding firsts
decode-Decodes p c n h hb e =
    let b0 = get_or p 0 0 in
    let b1 = get_or p 1 0 in
    let b2 = get_or p 2 0 in
    let b3 = get_or p 3 0 in
    elim (table-cases (length p) b0 b1 b2 b3 c n (sym (decode-table p hb) ∙ e)) [
      | inl x ↦ decoded p c n 1 (omega arith) x.2 refl (one b0 c x.0 x.1)
      | inr (inl x) ↦ decoded p c n 2 x.0 (omega (arith, x.1)) refl (two b0 b1 c n x.1)
      | inr (inr (inl x)) ↦ decoded p c n 3 x.0 (omega (arith, x.1)) refl (three b0 b1 b2 c n x.1)
      | inr (inr (inr x)) ↦ decoded p c n 4 x.0 (omega (arith, x.1)) refl (four b0 b1 b2 b3 c n x.1)
    ]

-- ===== src/Hashtable/Circle.antt =====
-- hashtable.h: indices of an array of 2 ^ b entries, counted around the array from the place of a hash.
use htools.Prelude.{
  ℕ, zero, suc, ◌+◌, ◌-◌, ◌*◌, ◌%◌, ◌^◌, ◌≤◌, ◌<◌, bit_and, false, ltb, if◌then◌else◌, ◌≡◌, sym, ap,
  ◌∙◌, ◌⊎◌, inl, inr, Bool-cases, ltb→lt, ltb-false, arith, add_size, sub_size, ◌==◌, ==_iff,
}
use htools.Prelude.Bits.{bit_and-mask_right}
use native.Mathlib.Nat.{
  mod-lt, mod-add-mod, add-mod-mod, add-mod_right, mod-eq_of_lt, mod-eq-sub-mod, one-le-pow,
  pow-suc, pow-le-pow_right, add-mul-mod_self_right,
}
use htools.Hashtable.Ops.{dib_of}

abbrev pub on : ℕ → ℕ → ℕ → ℕ
on b h k = (h + k) % 2 ^ b

pow-join : (a c : ℕ) → 2 ^ a * 2 ^ c ≡ 2 ^ (a + c)
pow-join zero c = let e : 0 + c ≡ c = omega arith in omega (arith, ap (λ (x : ℕ). 2 ^ x) e)
pow-join (suc a) c =
    let e : suc (a + c) ≡ suc a + c = omega arith in
    let moved : 2 ^ a * 2 * 2 ^ c ≡ 2 ^ a * 2 ^ c * 2 = omega arith in
    ap (λ (x : ℕ). x * 2 ^ c) (pow-suc 2 a)
    ∙ moved
    ∙ ap (λ (x : ℕ). x * 2) (pow-join a c)
    ∙ sym (pow-suc 2 (a + c))
    ∙ ap (λ (x : ℕ). 2 ^ x) e

module _ (b : ℕ) (small : b < 32) where
  pow-pos : 0 < 2 ^ b
  pow-pos = omega (arith, one-le-pow b 2 (omega arith))

  pow-small : 2 ^ b * 2 ^ (64 - b) ≡ 2 ^ 64
  pow-small =
      let e : b + (64 - b) ≡ 64 = omega (arith, small) in
      pow-join b (64 - b) ∙ ap (λ (x : ℕ). 2 ^ x) e

  pow-le : 2 ^ b ≤ 2 ^ 31
  pow-le = pow-le-pow_right {n = 2} (omega arith) {i = b} {j = 31} (omega (arith, small))

  pub on-lt : (h k : ℕ) → on b h k < 2 ^ b
  on-lt h k = mod-lt (h + k) pow-pos

  pub on-zero : (h : ℕ) → bit_and h (2 ^ b - 1) ≡ on b h 0
  on-zero h = bit_and-mask_right b h ∙ ap (λ (n : ℕ). n % 2 ^ b) (omega arith)

  -- The index of the next round.
  pub on-suc : (h k : ℕ) → bit_and (add_size (on b h k) 1) (2 ^ b - 1) ≡ on b h (suc k)
  on-suc h k =
      let x = on b h k in
      let lt : x < 2 ^ b = on-lt h k in
      let fits : add_size x 1 ≡ x + 1 = omega (arith, lt, pow-le) in
      bit_and-mask_right b (add_size x 1)
      ∙ ap (λ (n : ℕ). n % 2 ^ b) fits
      ∙ mod-add-mod (h + k) (2 ^ b) 1
      ∙ ap (λ (n : ℕ). n % 2 ^ b) (omega arith)

  pub on-on : (h j k : ℕ) → on b (on b h j) k ≡ on b h (j + k)
  on-on h j k = mod-add-mod (h + j) (2 ^ b) k ∙ ap (λ (n : ℕ). n % 2 ^ b) (omega arith)

  -- All the way around, and back.
  pub on_around : (h : ℕ) → h < 2 ^ b → on b h (2 ^ b) ≡ h
  on_around h lt = add-mod_right h (2 ^ b) ∙ mod-eq_of_lt lt

  pub on_start : (h : ℕ) → h < 2 ^ b → on b h 0 ≡ h
  on_start h lt = ap (λ (n : ℕ). n % 2 ^ b) (omega arith) ∙ mod-eq_of_lt lt

  pub next-small : (j : ℕ) → j < 2 ^ b → add_size j 1 ≡ suc j
  next-small j lt = omega (arith, lt, pow-le)

  fold : (x n : ℕ) → 0 < n → x < n + n → x % n ≡ (if ltb x n then x else x - n)
  fold x n pos lt = elim (Bool-cases (ltb x n)) [
    | inl low ↦ rw low (mod-eq_of_lt (ltb→lt x n low))
    | inr high ↦
        rw high
          (mod-eq-sub-mod (ltb-false x n high) ∙ mod-eq_of_lt (omega (arith, ltb-false x n high)))
  ]

  pub on_injective : (h j k : ℕ) → j < 2 ^ b → k < 2 ^ b → on b h j ≡ on b h k → j ≡ k
  on_injective h j k jl kl e =
      let n = 2 ^ b in
      let h0 = h % n in
      let lt : h0 < n = mod-lt h pow-pos in
      let f = fold (h0 + j) n pow-pos (omega arith) in
      let g = fold (h0 + k) n pow-pos (omega arith) in
      let both : (h0 + j) % n ≡ (h0 + k) % n = mod-add-mod h n j ∙ e ∙ sym (mod-add-mod h n k) in
      ground (arith, f, g, both, lt)

  pub on_apart : (c x : ℕ) → c < 2 ^ b → 0 < x → x < 2 ^ b → (on b c x == c) ≡ false
  on_apart c x lt pos less = elim (Bool-cases (on b c x == c)) [
    | inl same ↦
        let it : on b c x ≡ c = (==_iff (on b c x) c).0 same in
        absurd (omega (arith, pos, on_injective c x 0 less pow-pos (it ∙ sym (on_start c lt))))
    | inr other ↦ other
  ]

  pub dib-lt : (h i : ℕ) → dib_of (2 ^ b - 1) h i < 2 ^ b
  dib-lt h i =
      let x = sub_size i (bit_and h (2 ^ b - 1)) in
      let e : bit_and x (2 ^ b - 1) ≡ x % 2 ^ b = bit_and-mask_right b x in
      omega (arith, e, mod-lt x pow-pos)

  -- `HASHTABLE_DIB` counts how far an index is from the place of a hash.
  pub on-dib : (h i : ℕ) → i < 2 ^ b → on b h (dib_of (2 ^ b - 1) h i) ≡ i
  on-dib h i lt =
      let n = 2 ^ b in
      let g = h % n in
      let g_lt : g < n = mod-lt h pow-pos in
      let x = sub_size i g in
      let same : sub_size i (bit_and h (n - 1)) ≡ x = ap (sub_size i) (bit_and-mask_right b h) in
      ap (λ (y : ℕ). (h + bit_and y (n - 1)) % n) same
      ∙ ap (λ (y : ℕ). (h + y) % n) (bit_and-mask_right b x)
      ∙ add-mod-mod h x n
      ∙ sym (mod-add-mod h n x)
      ∙ around g x g_lt (elim (Bool-cases (ltb i g)) [
        | inl under ↦ inr (omega (arith, ltb→lt i g under, pow-le, lt, g_lt))
        | inr over ↦ inl (omega (arith, ltb-false i g over, pow-le, lt, g_lt))
      ])
    where
      around : (g x : ℕ) → g < 2 ^ b → (g + x ≡ i) ⊎ (g + x ≡ i + 2 ^ 64) → (g + x) % 2 ^ b ≡ i
      around g x l (inl e) = ap (λ (y : ℕ). y % 2 ^ b) e ∙ mod-eq_of_lt lt
      around g x l (inr e) =
          let whole : g + x ≡ i + 2 ^ (64 - b) * 2 ^ b = omega (arith, e, pow-small) in
          ap (λ (y : ℕ). y % 2 ^ b) whole
          ∙ add-mul-mod_self_right i (2 ^ (64 - b)) (2 ^ b)
          ∙ mod-eq_of_lt lt

  pub dib-on : (h k : ℕ) → k < 2 ^ b → dib_of (2 ^ b - 1) h (on b h k) ≡ k
  dib-on h k lt = on_injective h _ k (dib-lt h (on b h k)) lt (on-dib h (on b h k) (on-lt h k))

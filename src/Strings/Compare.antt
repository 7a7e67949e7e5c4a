-- ===== src/Strings/Compare.antt =====
-- `strbcmp` and `strecmp` find a beginning and an end.
use htools.Prelude.{
  ℕ, ◌+◌, ◌-◌, ◌<◌, true, false, ltb, if◌then◌else◌, ◌≡◌, ◌↔◌, inl, inr, refl, sym, ap, ap₂, ◌∙◌,
  arith, List, [], ◌∷◌, ◌++◌, length, take, drop, Bool-cases, length-append, drop-append,
  take-append-drop,
}
use htools.Strings.Ops.{negative, zero_sign, positive, strbcmp, strcmp, strecmp}

abbrev pub IsBytes : List ℕ → Type 0
IsBytes [] = Unit
IsBytes (b ∷ s) = (b < 256) × IsBytes s

strbcmp-head :
    (b p : ℕ) (bs ps : List ℕ)
    → b < 256
    → p < 256
    → strbcmp (b ∷ bs) (p ∷ ps) ≡ zero_sign
    → (b ≡ p) × (strbcmp bs ps ≡ zero_sign)
unfolding strbcmp
strbcmp-head b p bs ps hb hp e = ground arith

strbcmp-prefix :
    (b p : List ℕ) → IsBytes b → IsBytes p → strbcmp b p ≡ zero_sign → b ≡ p ++ drop (length p) b
unfolding strbcmp
strbcmp-prefix b [] hb hp e = refl
strbcmp-prefix [] (p ∷ ps) hb hp e = cc
strbcmp-prefix (b ∷ bs) (p ∷ ps) hb hp e =
    let (same, rest) = strbcmp-head b p bs ps hb.0 hp.0 e in
    ap₂ ◌∷◌ same (strbcmp-prefix bs ps hb.1 hp.1 rest)

strbcmp-append : (p t : List ℕ) → strbcmp (p ++ t) p ≡ zero_sign
unfolding strbcmp
strbcmp-append [] t = refl
strbcmp-append (p ∷ ps) t = ground (arith, strbcmp-append ps t)

-- `strbcmp` is 0 on a string of bytes exactly if it begins with the pattern.
pub strbcmp_iff :
    (b p : List ℕ)
    → IsBytes b
    → IsBytes p
    → (strbcmp b p ≡ zero_sign) ↔ ((t : List ℕ) × (b ≡ p ++ t))
strbcmp_iff b p hb hp = (
  λ e. (drop (length p) b, strbcmp-prefix b p hb hp e),
  λ (t, e). ap (λ (s : List ℕ). strbcmp s p) e ∙ strbcmp-append p t,
)

strcmp-eq : (a b : List ℕ) → strcmp a b ≡ zero_sign → a ≡ b
unfolding strcmp
strcmp-eq [] [] e = refl
strcmp-eq [] (b ∷ bs) e = cc
strcmp-eq (a ∷ as_) [] e = cc
strcmp-eq (a ∷ as_) (b ∷ bs) e =
    let (same, rest) = head a b as_ bs e in ap₂ ◌∷◌ same (strcmp-eq as_ bs rest)
  where
    head :
        (a b : ℕ) (as_ bs : List ℕ)
        → (if ltb a b then negative else if ltb b a then positive else strcmp as_ bs) ≡ zero_sign
        → (a ≡ b) × (strcmp as_ bs ≡ zero_sign)
    head a b as_ bs e = ground arith

strcmp_refl : (a : List ℕ) → strcmp a a ≡ zero_sign
unfolding strcmp
strcmp_refl [] = refl
strcmp_refl (a ∷ as_) = ground (arith, strcmp_refl as_)

-- `strecmp` is 0 exactly if the string ends with the pattern.
strecmp_iff : (b p : List ℕ) → (strecmp b p ≡ zero_sign) ↔ ((t : List ℕ) × (b ≡ t ++ p))
unfolding strecmp
strecmp_iff b p = (
  λ e. elim (Bool-cases (ltb (length b) (length p))) [
    | inl short ↦ absurd (wrong e short)
    | inr long ↦
        let k = length b - length p in
        (
          take k b,
          sym (take-append-drop k b)
              ∙ ap (λ (s : List ℕ). take k b ++ s) (strcmp-eq _ p (tail e long)),
        )
  ],
  λ (t, e).
      let l : length b ≡ length t + length p = ap length e ∙ length-append t p in
      let long : ltb (length b) (length p) ≡ false = ground arith in
      let at : length b - length p ≡ length t = omega arith in
      let cut : drop (length b - length p) b ≡ p =
        ap₂ (λ (k : ℕ) (s : List ℕ). drop k s) at e ∙ drop-append t p in
      rw (long, cut) (strcmp_refl p),
)
  where
    wrong : strecmp b p ≡ zero_sign → ltb (length b) (length p) ≡ true → ⊥
    wrong e short = ground arith

    tail :
        strecmp b p ≡ zero_sign
        → ltb (length b) (length p) ≡ false
        → strcmp (drop (length b - length p) b) p ≡ zero_sign
    tail e long = ground arith

-- ===== src/Strings/Tests.antt =====
-- Runs of string.c on short strings, and the theorems at such strings.
use htools.Prelude.{ℕ, none, some, false, ◌≡◌, ◌↔◌, refl, arith, List, [], ◌∷◌, ◌++◌, Returns}
use htools.Strings.Ops.{negative, zero_sign, strbcmp, strctv, strtkn}
use htools.Strings.Compare.{strbcmp_iff}
use htools.Strings.Concat.{Concats, texts, kept_text, strctv-Concats}
use htools.Strings.Tokens.{Takes, strtkn-Takes}

-- `ab`, `abc` and ` ab c`.
abbrev ab : List ℕ
ab = 97 ∷ 98 ∷ []

abbrev abc : List ℕ
abc = 97 ∷ 98 ∷ 99 ∷ []

abbrev spaced : List ℕ
spaced = 32 ∷ 97 ∷ 98 ∷ 32 ∷ 99 ∷ []

strbcmp-shorter : strbcmp ab abc ≡ negative
unfolding strbcmp
strbcmp-shorter = refl

-- A `char` above 127 is negative.
strbcmp-signed : strbcmp (200 ∷ []) (97 ∷ []) ≡ negative
unfolding strbcmp
strbcmp-signed = refl

strtkn-spaced : strtkn (some spaced) (32 ∷ []) ≡ (some (99 ∷ []), some ab)
unfolding strtkn
strtkn-spaced = refl

strbcmp_iff_example : (strbcmp abc ab ≡ zero_sign) ↔ ((t : List ℕ) × (abc ≡ ab ++ t))
strbcmp_iff_example =
    strbcmp_iff abc ab (omega arith, (omega arith, (omega arith, tt)))
      (omega arith, (omega arith, tt))

strctv-Concats_example :
    Returns
      (strctv (λ i. 170) false (some ab) (none ∷ some abc ∷ []))
      (Concats false (kept_text (some ab) ++ texts (none ∷ some abc ∷ [])) (λ i. 170))
strctv-Concats_example =
    strctv-Concats (λ i. 170) false (some ab) (none ∷ some abc ∷ []) (omega arith)

strtkn-Takes_example : Takes (32 ∷ []) spaced (strtkn (some spaced) (32 ∷ []))
strtkn-Takes_example = strtkn-Takes spaced (32 ∷ [])

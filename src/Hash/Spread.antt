-- ===== src/Hash/Spread.antt =====
-- Data that differ in one byte have different hashes.
use htools.Prelude.{
  ℕ, ◌*◌, ◌^◌, ◌<◌, bit_xor, some, ◌≡◌, ◌≢◌, refl, sym, ◌∙◌, arith, List, [], ◌∷◌, ◌++◌, length,
  u32, lt→ltb, length-append,
}
use htools.Hash.Ops.{fnv_offset_basis, fnv_prime, hash_loop, fnv1a32}
use htools.Prelude.Bits.Xor.{bit_xor-lt, bit_xor-injective_left, bit_xor-injective_right}

abbrev pub IsBytes : List ℕ → Type 0
IsBytes [] = Unit
IsBytes (b ∷ s) = (b < 256) × IsBytes s

-- The prime is odd, so that no two words have the same product.
product-injective :
    (x y : ℕ) → x < 2 ^ 32 → y < 2 ^ 32 → u32 (x * fnv_prime) ≡ u32 (y * fnv_prime) → x ≡ y
product-injective x y hx hy e = omega arith

-- A round tells apart two hashes, and two bytes.
round-injective_left :
    (g h b : ℕ)
    → g < 2 ^ 32
    → h < 2 ^ 32
    → b < 256
    → u32 (bit_xor g b * fnv_prime) ≡ u32 (bit_xor h b * fnv_prime)
    → g ≡ h
round-injective_left g h b hg hh hb e = bit_xor-injective_left 32 g h b hg hh (
    product-injective (bit_xor g b) (bit_xor h b) (bit_xor-lt 32 g b hg (omega arith))
      (bit_xor-lt 32 h b hh (omega arith)) e)

round-injective_right :
    (h a b : ℕ)
    → h < 2 ^ 32
    → a < 256
    → b < 256
    → u32 (bit_xor h a * fnv_prime) ≡ u32 (bit_xor h b * fnv_prime)
    → a ≡ b
round-injective_right h a b hh ha hb e =
    bit_xor-injective_right 32 h a b (omega arith) (omega arith) (
      product-injective (bit_xor h a) (bit_xor h b) (bit_xor-lt 32 h a hh (omega arith))
        (bit_xor-lt 32 h b hh (omega arith)) e)

hash_loop-injective :
    (s : List ℕ) (g h : ℕ)
    → IsBytes s
    → g < 2 ^ 32
    → h < 2 ^ 32
    → hash_loop s g ≡ hash_loop s h
    → g ≡ h
unfolding hash_loop
hash_loop-injective [] g h hs hg hh e = e
hash_loop-injective (b ∷ s) g h hs hg hh e =
    round-injective_left g h b hg hh hs.0
      (hash_loop-injective s _ _ hs.1 (omega arith) (omega arith) e)

hash_loop-lt : (s : List ℕ) (h : ℕ) → h < 2 ^ 32 → hash_loop s h < 2 ^ 32
unfolding hash_loop
hash_loop-lt [] h lt = lt
hash_loop-lt (b ∷ s) h lt = hash_loop-lt s _ (omega arith)

hash_loop-append : (s t : List ℕ) (h : ℕ) → hash_loop (s ++ t) h ≡ hash_loop t (hash_loop s h)
unfolding hash_loop
hash_loop-append [] t h = refl
hash_loop-append (b ∷ s) t h = hash_loop-append s t _

hash_loop-differs :
    (s t : List ℕ) (a b h : ℕ)
    → IsBytes t
    → a < 256
    → b < 256
    → h < 2 ^ 32
    → hash_loop (s ++ (a ∷ t)) h ≡ hash_loop (s ++ (b ∷ t)) h
    → a ≡ b
unfolding hash_loop
hash_loop-differs s t a b h ht ha hb lt e =
    round-injective_right (hash_loop s h) a b (hash_loop-lt s h lt) ha hb (
      hash_loop-injective t _ _ ht (omega arith) (omega arith)
        (sym (hash_loop-append s (a ∷ t) h) ∙ e ∙ hash_loop-append s (b ∷ t) h))

value : {x y : ℕ} → some x ≡ some y → x ≡ y
value e = cc

-- Bytes that differ in one place, whatever stands before and behind it, have different hashes.
pub fnv1a32-differs :
    (s t : List ℕ) (a b : ℕ)
    → IsBytes t
    → a < 256
    → b < 256
    → a ≢ b
    → fnv1a32 (s ++ (a ∷ t)) ≢ fnv1a32 (s ++ (b ∷ t))
unfolding fnv1a32
fnv1a32-differs s t a b ht ha hb ne e = ne (
    hash_loop-differs s t a b fnv_offset_basis ht ha hb (omega arith)
      (value (sym (full s a t) ∙ e ∙ full s b t)))
  where
    full :
        (s : List ℕ) (a : ℕ) (t : List ℕ)
        → fnv1a32 (s ++ (a ∷ t)) ≡ some (hash_loop (s ++ (a ∷ t)) fnv_offset_basis)
    full s a t =
        let pos : 0 < length (s ++ (a ∷ t)) = omega (arith, length-append s (a ∷ t)) in
        rw (lt→ltb _ _ pos) refl

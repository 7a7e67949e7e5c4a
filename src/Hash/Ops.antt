-- ===== src/Hash/Ops.antt =====
-- hutils/src/hash.c. The outer `none` is the assertion that there is data.
use htools.Prelude.{ℕ, ◌*◌, bit_xor, Option, some, ltb, ◌>>◌, guard, List, [], ◌∷◌, length, u32}

abbrev pub fnv_offset_basis : ℕ
fnv_offset_basis = 2166136261

abbrev pub fnv_prime : ℕ
fnv_prime = 16777619

unfoldable pub hash_loop : List ℕ → ℕ → ℕ
hash_loop [] hash = hash
hash_loop (b ∷ data_) hash = hash_loop data_ (u32 (bit_xor hash b * fnv_prime))

unfoldable pub fnv1a32 : List ℕ → Option ℕ
unfolding hash_loop
fnv1a32 data_ = do guard (ltb 0 (length data_)); some (hash_loop data_ fnv_offset_basis)

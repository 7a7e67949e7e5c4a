-- ===== src/Hash/Tests.antt =====
-- The hash of a short string, and the theorem at two strings.
use htools.Prelude.{◌≡◌, ◌≢◌, refl, arith, some, [], ◌∷◌, ◌++◌}
use htools.Hash.Ops.{fnv1a32}
use htools.Hash.Spread.{fnv1a32-differs}

-- The published value for the letter `a`.
fnv1a32-letter : fnv1a32 (97 ∷ []) ≡ some 0xe40c292c
unfolding fnv1a32
fnv1a32-letter = refl

fnv1a32-differs_example :
    fnv1a32 ((97 ∷ 98 ∷ 99 ∷ []) ++ (48 ∷ [])) ≢ fnv1a32 ((97 ∷ 98 ∷ 99 ∷ []) ++ (49 ∷ []))
fnv1a32-differs_example =
    fnv1a32-differs (97 ∷ 98 ∷ 99 ∷ []) [] 48 49 tt (omega arith) (omega arith) (omega arith)

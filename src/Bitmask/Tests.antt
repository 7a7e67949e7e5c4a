-- ===== src/Bitmask/Tests.antt =====
-- Runs of bitmask.c, and the theorems at a bitmask of forty bits.
use htools.Prelude.{ℕ, ◌≡◌, refl, arith, some, Returns, ◌>>=◌, if◌then◌else◌, ◌==◌}
use htools.Bitmask.Ops.{Bitmask, get, set, unset}
use htools.Bitmask.Laws.{IsValid, member, set-member}

-- 0 and 33 are in.
abbrev sample : Bitmask
sample = record { bit_num = 40; words = λ i. if i == 0 then 1 else if i == 1 then 2 else 0 }

abbrev narrow : Bitmask
narrow = record { bit_num = 8; words = λ i. 0 }

sample-IsValid : IsValid sample
sample-IsValid = record {
  nonempty = omega arith;
  countable = omega arith;
  words_small = λ i. ground arith;
}

set_then_get : (set sample 35 >>= λ bm. get bm 35) ≡ some 8
unfolding set get
set_then_get = refl

unset_then_get : (unset sample 33 >>= λ bm. get bm 33) ≡ some 0
unfolding unset get
unset_then_get = refl

set-member_example :
    Returns
      (set sample 35)
      (λ r. IsValid r × ((j : ℕ) → member r j ≡ (if j == 35 then 1 else member sample j)))
set-member_example = set-member sample 35 sample-IsValid (omega arith)

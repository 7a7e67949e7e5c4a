-- ===== src/Bitmask/Ops.antt =====
-- hutils/src/bitmask.c. `none` is `hutils_errx` or a failed ASSERT, which end the process. An
-- `unsigned` is 32 bits wide, and memory is taken to be there for every `calloc`.
use htools.Prelude.{
  ℕ, ◌+◌, ◌-◌, ◌/◌, ◌^◌, bit_and, bit_or, Option, some, ltb, leb, ◌==◌, if◌then◌else◌, ◌>>=◌, ◌>>◌,
  guard, not, u32,
}

-- `words i` is `data[i]`; NUM_UINT32(bit_num) of them are allocated.
pub record Bitmask : Type 0 where
  pub bit_num : ℕ
  pub words : ℕ → ℕ

abbrev pub num_uint32 : ℕ → ℕ
num_uint32 bit_num = u32 (bit_num + 31) / 32

-- `memset` and `memmove` of NUM_UINT8 bytes, which are whole words.
abbrev pub fill : Bitmask → ℕ → Bitmask
fill bm w = record bm { words = λ i. if ltb i (num_uint32 bm.bit_num) then w else bm.words i }

abbrev pub move_words : Bitmask → Bitmask → Bitmask
move_words dst src = record dst {
  words = λ i. if ltb i (num_uint32 src.bit_num) then src.words i else dst.words i;
}

abbrev pub write_word : Bitmask → ℕ → ℕ → Bitmask
write_word bm at w = record bm { words = λ i. if i == at then w else bm.words i }

unfoldable pub create : ℕ → Option Bitmask
create bit_num = do guard (not (0 == bit_num)); some (record { bit_num = bit_num; words = λ i. 0 })

unfoldable pub copy : Bitmask → Option Bitmask
unfolding create
copy src = do dst ← create src.bit_num; some (move_words dst src)

unfoldable pub copy_mask : Bitmask → Bitmask → Option Bitmask
copy_mask dst src = do guard (dst.bit_num == src.bit_num); some (move_words dst src)

-- `1 << (31 & index)`
abbrev pub selector : ℕ → ℕ
selector index = 2 ^ bit_and 31 index

-- The check that `bitmask_get`, `bitmask_set` and `bitmask_unset` share.
abbrev pub check_index : Bitmask → ℕ → Option (Unit {0})
check_index bm index = guard (not (leb bm.bit_num index))

-- The `int` is the 32 bits of the result; callers ask whether it is 0.
unfoldable pub get : Bitmask → ℕ → Option ℕ
get bm index = do check_index bm index; some (bit_and (selector index) (bm.words (index / 32)))

unfoldable pub one : Bitmask → Bitmask
one bm = fill bm 0xffff_ffff

unfoldable pub set : Bitmask → ℕ → Option Bitmask
set bm index = do
  check_index bm index
  some (write_word bm (index / 32) (bit_or (bm.words (index / 32)) (selector index)))

unfoldable pub unset : Bitmask → ℕ → Option Bitmask
unset bm index = do
  check_index bm index
  some (write_word bm (index / 32) (bit_and (bm.words (index / 32)) (2 ^ 32 - 1 - selector index)))

unfoldable pub zero_all : Bitmask → Bitmask
zero_all bm = fill bm 0

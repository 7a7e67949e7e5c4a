-- ===== src/Bitpack/Ops.antt =====
-- hutils/src/bitpack.c and `struct BitPacker` of hutils/include/hutils/bitpack.h. `none` is
-- `hutils_errx`, which ends the process; the Boolean is the `int` that the functions return.
use htools.Prelude.{
  ℕ, zero, suc, ◌+◌, ◌-◌, ◌*◌, ◌/◌, ◌%◌, ◌^◌, bit_and, bit_or, min, Option, none, some, Bool, true,
  false, ◌||◌, ltb, ◌==◌, if◌then◌else◌, ◌>>=◌, ◌>>◌, guard, not, add_size, u8, u32, List, [], ◌∷◌,
}

pub record BitPacker : Type 0 where
  pub size : ℕ
  pub buf : ℕ → ℕ
  pub bit_i : ℕ

pub init : (ℕ → ℕ) → ℕ → BitPacker
init buf bytes = record { size = bytes; buf = buf; bit_i = 0 }

abbrev pub write_byte : (ℕ → ℕ) → ℕ → ℕ → ℕ → ℕ
write_byte buf ofs b i = if i == ofs then b else buf i

-- The locals `shift`, `ofs` and `avail` of a round. `unsigned` is 32 bits wide.
abbrev pub shift_of : BitPacker → ℕ
shift_of p = bit_and 7 p.bit_i

abbrev pub ofs_of : BitPacker → ℕ
ofs_of p = u32 (p.bit_i / 8)

abbrev pub avail_of : BitPacker → ℕ → ℕ
avail_of p bits = min (8 - shift_of p) bits

-- One round of the loop of `bitpack_uint32`.
unfoldable pub pack_round : BitPacker → ℕ → ℕ → BitPacker
pack_round p v bits =
    let shift = shift_of p in
    let ofs = ofs_of p in
    let avail = avail_of p bits in
    let old = (if shift == 0 then 0 else p.buf ofs) in
    let field = u32 (bit_and (2 ^ avail - 1) v * 2 ^ shift) in
    record p { buf = write_byte p.buf ofs (u8 (bit_or old field)); bit_i = add_size p.bit_i avail }

-- The loop, with fuel; `none` means that the fuel ran out.
unfoldable pub pack_loop : ℕ → BitPacker → ℕ → ℕ → Option BitPacker
pack_loop zero p v bits = none
pack_loop (suc fuel) p v bits =
    let p' = pack_round p v bits in
    let left = bits - avail_of p bits in
    let rest = pack_loop fuel p' (v / 2 ^ avail_of p bits) left in
    if ltb 0 left then rest else some p'

-- The two checks that `bitpack_uint32` and `bitunpack_uint32` begin with.
abbrev pub check_field : BitPacker → ℕ → Option (Unit {0})
check_field p bits = do
  guard (not (bits == 0 || ltb 32 bits))
  guard (not (ltb (8 * p.size % 2 ^ 64) (add_size p.bit_i bits)))

-- Each round packs a bit at least, so that `bits` rounds are enough.
unfoldable pub pack_uint32 : BitPacker → ℕ → ℕ → Option (BitPacker × Bool)
unfolding pack_loop pack_round
pack_uint32 p v bits = do check_field p bits; p' ← pack_loop bits p v bits; some (p', true)

-- One round of the loop of `bitunpack_uint32`: the byte that it reads, and the digits it takes.
unfoldable pub unpack_round : BitPacker → ℕ → ℕ
unpack_round p bits = u8 (bit_and (2 ^ avail_of p bits - 1) (p.buf (ofs_of p) / 2 ^ shift_of p))

unfoldable pub unpack_loop : ℕ → BitPacker → ℕ → ℕ → ℕ → Option (BitPacker × ℕ)
unpack_loop zero p v i bits = none
unpack_loop (suc fuel) p v i bits =
    let avail = avail_of p bits in
    let v' = u32 (bit_or v (unpack_round p bits * 2 ^ i)) in
    let p' : BitPacker = record p { bit_i = add_size p.bit_i avail } in
    let rest = unpack_loop fuel p' v' (i + avail) (bits - avail) in
    if ltb 0 (bits - avail) then rest else some (p', v')

unfoldable pub unpack_uint32 : BitPacker → ℕ → Option (BitPacker × ℕ × Bool)
unfolding unpack_loop unpack_round
unpack_uint32 p bits = do
  check_field p bits
  (p', v) ← unpack_loop bits p 0 0 bits
  some (p', v, true)

-- A C string is its bytes before the terminator, none of which is 0. A `char` above 127 is
-- negative; its low 8 bits are packed.
unfoldable pub pack_string : BitPacker → List ℕ → Option (BitPacker × Bool)
unfolding pack_uint32
pack_string p [] = pack_uint32 p 0 8
pack_string p (c ∷ s) = do
  (p', ret) ← pack_uint32 p c 8
  if ret then pack_string p' s else some (p', false)

-- The first loop of `bitunpack_string`: it counts the characters before the terminator.
unfoldable pub count_loop : ℕ → BitPacker → ℕ → Option (BitPacker × ℕ × Bool)
count_loop zero p len = none
count_loop (suc fuel) p len = do
  (p', c, ret) ← unpack_uint32 p 8
  let rest = count_loop fuel p' (len + 1)
  if not ret then some (p', len, false) else if c == 0 then some (p', len, true) else rest

-- The second loop, which stores them.
unfoldable pub store_loop : ℕ → BitPacker → Option (BitPacker × List ℕ)
store_loop zero p = none
store_loop (suc fuel) p = do
  (p', c, ret) ← unpack_uint32 p 8
  let rest = (do (p'', s) ← store_loop fuel p'; some (p'', u8 c ∷ s))
  if not ret then none else if c == 0 then some (p', []) else rest

-- A buffer of `size` bytes has room for no more rounds than that.
unfoldable pub unpack_string : BitPacker → Option (BitPacker × List ℕ × Bool)
unfolding count_loop store_loop unpack_uint32
unpack_string p = do
  (q, len, ret) ← count_loop (p.size + 1) p 0
  if not ret
      then some (record q { bit_i = p.bit_i }, [], false)
      else (do (q', s) ← store_loop (p.size + 1) (record q { bit_i = p.bit_i }); some (q', s, true))

-- The checks of `bitpack_float` and `bitunpack_float` on the widths.
abbrev pub check_float : ℕ → ℕ → Option (Unit {0})
check_float exponent_bits mantissa_bits = do
  guard (not (ltb exponent_bits 2 || ltb 8 exponent_bits))
  guard (not (ltb mantissa_bits 1 || ltb 23 mantissa_bits))

-- The number that `bitpack_float` packs, from the 32 bits of the float. The exponent is an `int`
-- that may be negative, so it is kept modulo 2 ^ 32, as it is when it meets the `uint32_t`.
unfoldable pub float_field : ℕ → ℕ → ℕ → ℕ
float_field w exponent_bits mantissa_bits =
    let sign = w / 2 ^ 31 in
    let exponent = u32 (bit_and 0xff (w / 2 ^ 23) + 2 ^ 32 - 128 + 2 ^ (exponent_bits - 1)) in
    let mantissa = bit_and 0x7fffff w in
    bit_or
      (bit_or (u32 (sign * 2 ^ (exponent_bits + mantissa_bits)))
        (u32 (exponent * 2 ^ mantissa_bits)))
      (mantissa / 2 ^ (23 - mantissa_bits))

unfoldable pub pack_float : BitPacker → ℕ → ℕ → ℕ → Option (BitPacker × Bool)
unfolding float_field
pack_float p w exponent_bits mantissa_bits = do
  check_float exponent_bits mantissa_bits
  pack_uint32 p (float_field w exponent_bits mantissa_bits) (1 + exponent_bits + mantissa_bits)

-- The bits of the float that `bitunpack_float` makes of a number.
unfoldable pub float_of_field : ℕ → ℕ → ℕ → ℕ
float_of_field v exponent_bits mantissa_bits =
    let sign = v / 2 ^ (exponent_bits + mantissa_bits) in
    let exponent = u32 (
      bit_and (v / 2 ^ mantissa_bits) (2 ^ exponent_bits - 1)
      + 2 ^ 32
      - 2 ^ (exponent_bits - 1)
      + 128) in
    let mantissa = bit_and v (2 ^ mantissa_bits - 1) in
    bit_or (bit_or (u32 (sign * 2 ^ 31)) (u32 (exponent * 2 ^ 23)))
      (u32 (mantissa * 2 ^ (23 - mantissa_bits)))

unfoldable pub unpack_float : BitPacker → ℕ → ℕ → Option (BitPacker × ℕ × Bool)
unfolding float_of_field
unpack_float p exponent_bits mantissa_bits = do
  check_float exponent_bits mantissa_bits
  (p', v, ret) ← unpack_uint32 p (1 + exponent_bits + mantissa_bits)
  if not ret
      then some (p', 0, false)
      else some (p', float_of_field v exponent_bits mantissa_bits, true)

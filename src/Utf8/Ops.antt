-- ===== src/Utf8/Ops.antt =====
-- hutils/src/utf8.c and `struct UTF8` of hutils/include/hutils/utf8.h. The outer `none` is the
-- exit on an index out of bounds; memory is taken to be there for every allocation.
use htools.Prelude.{
  add_size, ℕ, zero, suc, ◌+◌, ◌*◌, ◌^◌, bit_and, bit_or, Option, none, some, Bool, ltb, leb, ◌==◌,
  if◌then◌else◌, ◌&&◌, ◌||◌, ◌>>=◌, ◌>>◌, guard, not, List, [], ◌∷◌, ◌++◌, length, get_or, take,
  drop, u32,
}

-- `data` holds `bytes` bytes and a terminator, which the list leaves out.
pub record Utf8 : Type 0 where
  pub replacement_num : ℕ
  pub length_ : ℕ
  pub bytes : ℕ
  pub text : List ℕ

-- A code point and the number of bytes that it takes.
abbrev pub Code : Type 0
Code = ℕ × ℕ

-- The first two bits of a byte that goes on with a code point.
abbrev pub continues : ℕ → Bool
continues b = bit_and 0xc0 b == 0x80

-- `get_code` from the checked index on: `p` is what is left of the string, `length p` is `avail`.
-- No byte behind `avail` is looked at, since `||` stops at the length test.
unfoldable pub decode : List ℕ → Option Code
decode p =
    let avail = length p in
    let b0 = get_or p 0 0 in
    let b1 = get_or p 1 0 in
    let b2 = get_or p 2 0 in
    let b3 = get_or p 3 0 in
    if ltb b0 0x80
    then some (b0, 1)
    else if bit_and 0xe0 b0 == 0xc0
    then (if ltb avail 2 || not (continues b1) || bit_and 0x1e b0 == 0
        then none
        else some (bit_or (bit_and 0x1f b0 * 2 ^ 6) (bit_and 0x3f b1), 2))
    else if bit_and 0xf0 b0 == 0xe0
    then (if ltb avail 3
          || not (continues b1)
          || not (continues b2)
          || bit_or (bit_and 0x0f b0) (bit_and 0x20 b1) == 0
        then none
        else (let code =
              bit_or (bit_or (bit_and 0x0f b0 * 2 ^ 12) (bit_and 0x3f b1 * 2 ^ 6))
                (bit_and 0x3f b2) in
            if leb 0xd800 code && leb code 0xdfff then none else some (code, 3)))
    else if bit_and 0xf8 b0 == 0xf0
    then (if ltb avail 4
          || not (continues b1)
          || not (continues b2)
          || not (continues b3)
          || bit_or (bit_and 0x07 b0) (bit_and 0x30 b1) == 0
        then none
        else some (
          bit_or
              (bit_or (bit_or (bit_and 0x07 b0 * 2 ^ 18) (bit_and 0x3f b1 * 2 ^ 12))
                (bit_and 0x3f b2 * 2 ^ 6))
              (bit_and 0x3f b3),
          4,
        ))
    else none

-- The inner `none` is the 0 that `get_code` returns for an invalid sequence.
unfoldable pub get_code : List ℕ → ℕ → Option (Option Code)
unfolding decode
get_code str i = do guard (not (leb (length str) i)); some (decode (drop i str))

unfoldable pub concat : Utf8 → Utf8 → Utf8
concat l r = record {
  replacement_num = u32 (l.replacement_num + r.replacement_num);
  length_ = l.length_ + r.length_;
  bytes = l.bytes + r.bytes;
  text = take l.bytes l.text ++ take r.bytes r.text;
}

-- The first loop of `utf8_create`, which counts code points and bytes. Every round takes a byte at
-- least, so that a fuel above the number of bytes is enough.
unfoldable pub count_loop : ℕ → List ℕ → ℕ → ℕ → ℕ → Option (ℕ × ℕ)
count_loop zero str i len bytes = none
count_loop (suc fuel) str i len bytes =
    let round = (do
      code ← get_code str i
      elim code [
        | some (c, n) ↦ count_loop fuel str (i + n) (add_size len 1) (add_size bytes n)
        | none ↦ count_loop fuel str (i + 1) (add_size len 1) (add_size bytes 3)
      ]) in
    if ltb i (length str) then round else some (len, bytes)

-- The second loop, which copies valid sequences and replaces other bytes by U+FFFD.
unfoldable pub copy_loop : ℕ → List ℕ → ℕ → List ℕ → ℕ → Option (List ℕ × ℕ)
copy_loop zero str i dst replacement_num = none
copy_loop (suc fuel) str i dst replacement_num =
    let round = (do
      code ← get_code str i
      elim code [
        | some (c, n) ↦ copy_loop fuel str (i + n) (dst ++ take n (drop i str)) replacement_num
        | none ↦
            copy_loop fuel str (i + 1) (dst ++ (0xef ∷ 0xbf ∷ 0xbd ∷ []))
              (u32 (replacement_num + 1))
      ]) in
    if ltb i (length str) then round else some (dst, replacement_num)

unfoldable pub create : List ℕ → Option Utf8
unfolding count_loop copy_loop get_code
create str = do
  (len, bytes) ← count_loop (length str + 1) str 0 0 0
  (dst, replacement_num) ← copy_loop (length str + 1) str 0 [] 0
  some (record { replacement_num = replacement_num; length_ = len; bytes = bytes; text = dst })

-- `utf8_get`, which passes `bytes` on as the bound, ignores the 0 of an invalid sequence, and leaves what it points to as it was.
unfoldable pub get : Utf8 → ℕ → Code → Option Code
unfolding get_code
get s i old = do
  code ← get_code (take s.bytes s.text) i
  some (elim code [ some c ↦ c | none ↦ old ])

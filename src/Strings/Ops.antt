-- ===== src/Strings/Ops.antt =====
-- hutils/src/string.c. A C string is its bytes before the terminator, none of which is 0.
use htools.Prelude.{
  add_size, guard, ◌>>=◌, ◌>>◌, ℕ, suc, ◌+◌, ◌-◌, ◌%◌, min, Option, none, some, Bool, true, false,
  ltb, ◌==◌, if◌then◌else◌, List, [], ◌∷◌, length, get_or, take, drop,
}

-- The sign of an `int` that compares two strings.
pub data Sign : Type 0 where
  negative : Sign
  zero_sign : Sign
  positive : Sign

-- A `char` as a number that orders as the signed `char` does.
abbrev pub char_rank : ℕ → ℕ
char_rank b = (b + 128) % 256

unfoldable pub strbcmp : List ℕ → List ℕ → Sign
strbcmp b [] = zero_sign
strbcmp [] (p ∷ ps) = negative
strbcmp (b ∷ bs) (p ∷ ps) =
    if ltb (char_rank b) (char_rank p)
    then negative
    else if ltb (char_rank p) (char_rank b)
    then positive
    else strbcmp bs ps

-- The standard `strcmp`, which compares bytes as unsigned.
unfoldable pub strcmp : List ℕ → List ℕ → Sign
strcmp [] [] = zero_sign
strcmp [] (b ∷ bs) = negative
strcmp (a ∷ as_) [] = positive
strcmp (a ∷ as_) (b ∷ bs) =
    if ltb a b then negative else if ltb b a then positive else strcmp as_ bs

unfoldable pub strecmp : List ℕ → List ℕ → Sign
unfolding strcmp
strecmp big pattern =
    if ltb (length big) (length pattern)
    then negative
    else strcmp (drop (length big - length pattern) big) pattern

abbrev pub strndup : List ℕ → ℕ → List ℕ
strndup s maxlen = take (min (length s) maxlen) s

abbrev pub null_text : List ℕ
null_text = 78 ∷ 85 ∷ 76 ∷ 76 ∷ []

-- The first loop of `strctv_`, over arguments before the sentinel; `none` is a null pointer.
unfoldable pub length_loop : List (Option (List ℕ)) → ℕ → ℕ
length_loop [] len = len
length_loop (none ∷ args) len = length_loop args (add_size len (length null_text))
length_loop (some s ∷ args) len = length_loop args (add_size len (length s))

-- A write to a buffer of `size` bytes; outside them it fails.
unfoldable pub write : ℕ → (ℕ → ℕ) → ℕ → ℕ → Option (ℕ → ℕ)
write size buf to c = do guard (ltb to size); some (λ i. if i == to then c else buf i)

-- The bytes of `from` go to `to` and on.
unfoldable pub copy_bytes : ℕ → (ℕ → ℕ) → ℕ → List ℕ → Option (ℕ → ℕ)
unfolding write
copy_bytes size buf to [] = some buf
copy_bytes size buf to (c ∷ from) = do
  buf' ← write size buf to c
  copy_bytes size buf' (to + 1) from

-- The second loop: the buffer, and where it stands in it.
unfoldable pub append_loop : ℕ → List (Option (List ℕ)) → (ℕ → ℕ) → ℕ → Option ((ℕ → ℕ) × ℕ)
unfolding copy_bytes
append_loop size [] buf to = some (buf, to)
append_loop size (none ∷ args) buf to = do
  buf' ← copy_bytes size buf to null_text
  append_loop size args buf' (to + length null_text)
append_loop size (some s ∷ args) buf to = do
  buf' ← copy_bytes size buf to s
  append_loop size args buf' (to + length s)

-- `strctv_` allocates `size` bytes; `bytes` is the memory from their start on.
pub record Buffer : Type 0 where
  pub size : ℕ
  pub bytes : ℕ → ℕ

-- `fails` is a failing `realloc`, and `old` the memory that it returns, where it is not kept. The
-- outer `none` is a write outside of the allocated bytes, the inner one the null pointer.
unfoldable pub strctv :
    (ℕ → ℕ) → Bool → Option (List ℕ) → List (Option (List ℕ)) → Option (Option Buffer)
unfolding length_loop append_loop write
strctv old fails dst args =
    let kept : List ℕ = elim dst [ none ↦ [] | some s ↦ s ] in
    let size = add_size (length_loop args (length kept)) 1 in
    let filled : Option (Option Buffer) = (do
      (buf, to) ← append_loop size args (λ i. get_or kept i (old i)) (length kept)
      buf' ← write size buf to 0
      some (some (record { size = size; bytes = buf' }))) in
    if fails then some none else filled

abbrev pub member : ℕ → List ℕ → Bool
member c [] = false
member c (d ∷ ds) = if c == d then true else member c ds

-- The standard `strspn` and `strcspn`.
abbrev pub strspn : List ℕ → List ℕ → ℕ
strspn [] ds = 0
strspn (c ∷ s) ds = if member c ds then suc (strspn s ds) else 0

abbrev pub strcspn : List ℕ → List ℕ → ℕ
strcspn [] ds = 0
strcspn (c ∷ s) ds = if member c ds then 0 else suc (strcspn s ds)

-- What `*a_stringp` points to behind a call, and the token that is returned. The terminator that
-- the source writes over the delimiter ends the token.
unfoldable pub strtkn : Option (List ℕ) → List ℕ → Option (List ℕ) × Option (List ℕ)
strtkn none ds = (none, none)
strtkn (some s) ds =
    let p = drop (strspn s ds) s in
    let n = strcspn p ds in
    if length p == 0
    then (none, none)
    else if length (drop n p) == 0
    then (none, some p)
    else (some (drop (n + 1) p), some (take n p))

-- ===== src/Hashtable/Ops.antt =====
-- The functions of HASHTABLE_IMPLEMENT in hutils/include/hutils/hashtable.h, on the array as a
-- function of the index. The key of an element, `hash_` and `equal` are the user's.
use htools.Prelude.{
  ℕ, zero, suc, ◌+◌, ◌-◌, ◌*◌, ◌/◌, ◌^◌, max, bit_and, Option, none, some, Bool, ltb, leb, ◌==◌,
  if◌then◌else◌, ◌&&◌, ◌>>=◌, List, [], ◌∷◌, u32, add_size, sub_size,
}

pub record Entry (T : Type 0) : Type 0 where
  pub hash : ℕ
  pub t : T

-- An entry whose `t` is a null pointer is `none`.
abbrev pub Cells : Type 0 → Type 0
Cells T = ℕ → Option (Entry T)

-- `none` is a null pointer.
pub record Table (T : Type 0) : Type 0 where
  pub mask : ℕ
  pub num : ℕ
  pub array : Option (Cells T)

-- `HASHTABLE_DIB`, on size_t.
abbrev pub dib_of : ℕ → ℕ → ℕ → ℕ
dib_of mask hash i = bit_and (sub_size i (bit_and hash mask)) mask

abbrev pub put : {T : Type 0} → Cells T → ℕ → Option (Entry T) → Cells T
put a i e = λ j. if j == i then e else a j

-- `NULL == ret ? entry : ret`.
abbrev pub or_entry : Option ℕ → ℕ → ℕ
or_entry none i = i
or_entry (some r) i = r

unfoldable pub init : {T : Type 0} → Table T
init = record { mask = 0; num = 0; array = none }

module _ {T K : Type 0} (key : T → K) (hash_ : K → ℕ) (equal : K → K → Bool) where
  -- The loop of `find_` from the index `i` on, whose `dib` stays 0; the inner `none` is (size_t)-1.
  unfoldable pub find_loop : ℕ → ℕ → Cells T → K → ℕ → ℕ → Option (Option ℕ)
  find_loop zero mask a k hash i = none
  find_loop (suc fuel) mask a k hash i =
      let at = bit_and i mask in
      let rest = find_loop fuel mask a k hash (add_size at 1) in
      elim (a at) [
        | none ↦ some none
        | some e ↦
            if ltb (dib_of mask e.hash at) 0
            then some none
            else if hash == e.hash && equal k (key e.t)
            then some (some at)
            else rest
      ]

  -- `find_` and `find`; `none` is the use of a null pointer, or that the fuel ran out.
  unfoldable pub find : ℕ → Table T → K → Option (Option ℕ)
  find fuel h k = h.array >>= (λ a. find_loop fuel h.mask a k (hash_ k) (hash_ k))

  -- The loop of `insert_`: the array, the number of elements and the entry returned. `none` is the
  -- assertion, or that the fuel ran out.
  unfoldable pub insert_loop :
      ℕ → ℕ → Cells T → ℕ → T → ℕ → ℕ → ℕ → Option ℕ → Option (Cells T × ℕ × ℕ)
  insert_loop zero mask a num t hash i dib ret = none
  insert_loop (suc fuel) mask a num t hash i dib ret =
      let at = bit_and i mask in
      let placed = put a at (some (record { hash = hash; t = t })) in
      let on = λ (a : Cells T) (t : T) (hash dib : ℕ) (ret : Option ℕ).
        insert_loop fuel mask a num t hash (add_size at 1) (add_size dib 1) ret in
      let found : Option (Cells T × ℕ × ℕ) = elim ret [
        | none ↦ some (a, num, at)
        | some _ ↦ none
      ] in
      elim (a at) [
        | none ↦ some (placed, u32 (num + 1), or_entry ret at)
        | some e ↦
            let d = dib_of mask e.hash at in
            if hash == e.hash && equal (key t) (key e.t)
            then found
            else if ltb d dib
            then on placed e.t e.hash d (some (or_entry ret at))
            else on a t hash dib ret
      ]

  -- The loop of `rehash_` over the old array.
  unfoldable pub move_loop : ℕ → ℕ → Cells T → ℕ → ℕ → Cells T → ℕ → Option (Cells T × ℕ)
  move_loop fuel mask old i zero a num = some (a, num)
  move_loop fuel mask old i (suc left) a num =
      let move = λ (e : Entry T). (do
        (a', num', _) ← insert_loop fuel mask a num e.t e.hash e.hash 0 none
        move_loop fuel mask old (i + 1) left a' num') in
      let skip = move_loop fuel mask old (i + 1) left a num in
      elim (old i) [ none ↦ skip | some e ↦ move e ]

  -- `rehash_` to a size that is a power of 2; the old array has `mask + 1` entries.
  unfoldable pub rehash : ℕ → Table T → ℕ → Option (Table T)
  rehash fuel h size =
      let moved = λ (a : Cells T) (num : ℕ).
        some (record { mask = u32 (size + (2 ^ 32 - 1)); num = num; array = some a }) in
      if bit_and (sub_size size 1) size == 0
      then elim h.array [
        | none ↦ moved (λ _. none) 0
        | some old ↦ (do
          (a, num) ← move_loop fuel (u32 (size + (2 ^ 32 - 1))) old 0 (h.mask + 1) (λ _. none) 0
          moved a num)
      ]
      else none

  -- `for (size = 1; goal >= size; size <<= 1);`
  unfoldable pub size_loop : ℕ → ℕ → ℕ → Option ℕ
  size_loop zero goal size = none
  size_loop (suc fuel) goal size =
      let rest = size_loop fuel goal (u32 (size * 2)) in if leb size goal then rest else some size

  unfoldable pub insert : ℕ → ℕ → Table T → T → Option (Table T × ℕ)
  insert start_size fuel h t =
      let add = λ (h : Table T). (do
        a ← h.array
        (a', num, at) ← insert_loop fuel h.mask a h.num t (hash_ (key t)) (hash_ (key t)) 0 none
        some ((record { mask = h.mask; num = num; array = some a' }), at)) in
      let grown = (do
        size ← size_loop 33 (max start_size (u32 (h.mask + 1))) 1
        h' ← rehash fuel h size
        add h') in
      if leb (u32 (9 * h.mask) / 10) h.num then grown else add h

  -- The loop of `erase` behind the entry `i`, which is empty.
  unfoldable pub erase_loop : ℕ → ℕ → Cells T → ℕ → Option (Cells T)
  erase_loop zero mask a i = none
  erase_loop (suc fuel) mask a i =
      let j = bit_and (add_size i 1) mask in
      let shift = λ (e : Entry T). erase_loop fuel mask (put (put a i (some e)) j none) j in
      elim (a j) [ none ↦ some a | some e ↦ if dib_of mask e.hash j == 0 then some a else shift e ]

  -- `erase` of an entry by its index, and the element that is freed.
  unfoldable pub erase : ℕ → Table T → ℕ → Option (Table T × T)
  erase fuel h i = do
    a ← h.array
    e ← a i
    a' ← erase_loop fuel h.mask (put a i none) i
    some ((record { mask = h.mask; num = h.num; array = some a' }), e.t)

  abbrev elements : Cells T → ℕ → ℕ → List T
  elements a i zero = []
  elements a i (suc left) = elim (a i) [
    | none ↦ elements a (i + 1) left
    | some e ↦ e.t ∷ elements a (i + 1) left
  ]

  -- `shutdown`, with the elements that are freed; `free_` of a null pointer is left out.
  unfoldable pub shutdown : Table T → Table T × List T
  shutdown h = elim h.array [ none ↦ (h, []) | some a ↦ (init, elements a 0 (h.mask + 1)) ]

-- ===== src/Vector/Run.antt =====
-- A client's calls of a vector in any order, against the same calls on a list.
use htools.Prelude.{
  ℕ, zero, suc, ◌+◌, ◌-◌, ◌≤◌, ◌<◌, ◌^◌, ◌*◌, ◌≡◌, refl, ap, arith, Option, some, none, Returns,
  ltb, leb, if◌then◌else◌, List, [], ◌∷◌, length, Bool-cases, inl, inr, ◌==◌, ◌>>=◌, ltb→lt, leb→le,
}
use mathlib.Core.Option
use htools.Prelude.Range.{length-range_of}
use htools.Vector.Ops.{
  Vector, Setup, store, push_back, push_front, insert, erase, pop_back, assert_bounds,
  assert_notempty,
}
use htools.Vector.Invariant.{IsValid, Fits}
use htools.Vector.Contents.{contents, insert_at, erase_at}
use htools.Vector.Push.{Inserts, push_back-Inserts, push_front-Inserts}
use htools.Vector.Insert.{insert-Inserts, insert-out_of_bounds}
use htools.Vector.Erase.{Erases, erase-Erases, pop_back-Erases}

-- Each insertion stores an element through the pointer that it returns.
pub data Op (A : Type 0) : Type 0 where
  push_last : A → Op A
  push_first : A → Op A
  insert_elem : ℕ → A → Op A
  erase_elem : ℕ → Op A
  pop_last : Op A

module _ {A : Type 0} (s : Setup A) where
  abbrev stored : A → Option (Vector A × ℕ) → Option (Vector A)
  stored x r = r >>= λ q. some (store q.0 q.1 x)

  unfoldable pub step : Vector A → Op A → Option (Vector A)
  step v (push_last x) = stored x (push_back s v)
  step v (push_first x) = stored x (push_front s v)
  step v (insert_elem i x) = stored x (insert s v i)
  step v (erase_elem i) = erase s v i
  step v pop_last = pop_back s v

  unfoldable pub run : Vector A → List (Op A) → Option (Vector A)
  unfolding step
  run v [] = some v
  run v (o ∷ os) = step v o >>= λ v'. run v' os

module _ {A : Type 0} where
  -- The list that the vector stands for; `none` where there is no such element.
  unfoldable pub list_step : List A → Op A → Option (List A)
  list_step ys (push_last x) = some (insert_at (length ys) x ys)
  list_step ys (push_first x) = some (x ∷ ys)
  list_step ys (insert_elem i x) = if leb i (length ys) then some (insert_at i x ys) else none
  list_step ys (erase_elem i) = if ltb i (length ys) then some (erase_at i ys) else none
  list_step ys pop_last = if 0 == length ys then none else some (erase_at (length ys - 1) ys)

  unfoldable pub list_run : List A → List (Op A) → Option (List A)
  unfolding list_step
  list_run ys [] = some ys
  list_run ys (o ∷ os) = list_step ys o >>= λ zs. list_run zs os

-- One step on the vector agrees with one on its list, and keeps what the next step needs.
abbrev pub Agrees : {A : Type 0} → Setup A → ℕ → Option (Vector A) → Option (List A) → Type 0
Agrees s n none none = Unit {0}
Agrees s n none (some ys) = ⊥
Agrees s n (some v) none = ⊥
Agrees s n (some v) (some ys) = IsValid s v × (contents v ≡ ys) × (v.size ≤ n)

module _ {A : Type 0} where
  length-insert_at : (i : ℕ) (x : A) (ys : List A) → length (insert_at i x ys) ≡ length ys + 1
  length-insert_at zero x ys = omega arith
  length-insert_at (suc i) x [] = omega arith
  length-insert_at (suc i) x (y ∷ ys) = omega (arith, length-insert_at i x ys)

  length-erase_at : (i : ℕ) (ys : List A) → length (erase_at i ys) ≤ length ys
  length-erase_at i [] = omega arith
  length-erase_at zero (y ∷ ys) = omega arith
  length-erase_at (suc i) (y ∷ ys) = omega (arith, length-erase_at i ys)

  length-contents : (v : Vector A) → length (contents v) ≡ v.size
  length-contents v = length-range_of v.cells v.ofs v.size

module _ {A : Type 0} (s : Setup A) (v : Vector A) where
  stored-Agrees :
      (r : Option (Vector A × ℕ)) (i : ℕ) (x : A)
      → Returns r (Inserts s i v)
      → Agrees s (v.size + 1) (stored s x r) (some (insert_at i x (contents v)))
  stored-Agrees none i x h = absurd h
  stored-Agrees (some (v', p)) i x h =
      let v'' : Vector A = store v' p x in
      (
        record { allocated = h.0.allocated; margin = h.0.margin; tight = h.0.tight },
        h.2 x,
        omega (
          arith,
          length-contents v,
          length-contents v'',
          ap length (h.2 x),
          length-insert_at i x (contents v),
        ),
      )

  erased-Agrees :
      (r : Option (Vector A)) (i : ℕ)
      → Returns r (Erases s i v)
      → Agrees s (v.size + 1) r (some (erase_at i (contents v)))
  erased-Agrees none i h = absurd h
  erased-Agrees (some v') i h = (
    h.0,
    h.1,
    omega (
      arith,
      length-contents v,
      length-contents v',
      ap length h.1,
      length-erase_at i (contents v),
    ),
  )

  erase-out_of_bounds : (i : ℕ) → v.size < 2 ^ 32 → v.size ≤ i → erase s v i ≡ none
  unfolding erase
  erase-out_of_bounds i small h = rw out
    where
      out : assert_bounds v 0 i ≡ none
      out = ground arith

  pop_back_empty : v.size ≡ 0 → pop_back s v ≡ none
  unfolding pop_back
  pop_back_empty e = rw out
    where
      out : assert_notempty v ≡ none
      out = ground arith

module _ {A : Type 0} (s : Setup A) (chunk_pos : 0 < s.chunk)
    (elem_small : s.elem_size < 2 ^ 32) where
  roomy : (v : Vector A) → IsValid s v → v.size + 2 * s.chunk < 2 ^ 30 → Fits s v
  roomy v w h = record {
    chunk_pos = chunk_pos;
    chunk_small = omega arith;
    elem_small = elem_small;
    capacity_small = omega arith;
  }

  step-Agrees :
      (v : Vector A) (o : Op A)
      → IsValid s v
      → v.size + 2 * s.chunk < 2 ^ 30
      → Agrees s (v.size + 1) (step s v o) (list_step (contents v) o)
  unfolding step list_step
  step-Agrees v (push_last x) w h =
      rw (length-contents v)
        (stored-Agrees s v (push_back s v) v.size x (push_back-Inserts s v w (roomy v w h)))
  step-Agrees v (push_first x) w h =
      stored-Agrees s v (push_front s v) 0 x (push_front-Inserts s v w (roomy v w h))
  step-Agrees v (insert_elem i x) w h = rw (length-contents v) (elim (Bool-cases (leb i v.size)) [
    | inl inside ↦ rw inside (
        stored-Agrees s v (insert s v i) i x
          (insert-Inserts s v i w (roomy v w h) (leb→le i v.size inside)))
    | inr outside ↦ rw (outside, insert-out_of_bounds s v i (roomy v w h) w (ground arith)) tt
  ])
  step-Agrees v (erase_elem i) w h = rw (length-contents v) (elim (Bool-cases (ltb i v.size)) [
    | inl inside ↦ rw inside (
        erased-Agrees s v (erase s v i) i
          (erase-Erases s v i w (roomy v w h) (ltb→lt i v.size inside)))
    | inr outside ↦ rw (outside, erase-out_of_bounds s v i (omega arith) (ground arith)) tt
  ])
  step-Agrees v pop_last w h = rw (length-contents v) (elim (Bool-cases (0 == v.size)) [
    | inl empty ↦ rw (empty, pop_back_empty s v (ground arith)) tt
    | inr some_in ↦ rw some_in (
        erased-Agrees s v (pop_back s v) (v.size - 1)
          (pop_back-Erases s v w (roomy v w h) (ground arith)))
  ])

  run-from :
      (os : List (Op A)) (r : Option (Vector A)) (l : Option (List A)) (n : ℕ)
      → Agrees s n r l
      → n + length os + 2 * s.chunk < 2 ^ 30
      → Option.map contents (r >>= λ v. run s v os) ≡ (l >>= λ ys. list_run ys os)
  unfolding run list_run
  run-from os none none n g h = refl
  run-from os none (some ys) n g h = absurd g
  run-from os (some v) none n g h = absurd g
  run-from [] (some v) (some ys) n g h = ap some g.1
  run-from (o ∷ os) (some v) (some ys) n g h = rw (← g.1) (
      run-from os (step s v o) (list_step (contents v) o) (v.size + 1)
        (step-Agrees v o g.0 (omega arith)) (omega arith))

  -- Any sequence of pushes, insertions, removals and pops from the end on a valid vector does what
  -- it does on the list that the vector holds, and stops the process exactly where the list has
  -- no such element, as long as the number of elements stays below about 2 ^ 30.
  pub run-refines :
      (v : Vector A) (os : List (Op A))
      → IsValid s v
      → v.size + length os + 2 * s.chunk < 2 ^ 30
      → Option.map contents (run s v os) ≡ list_run (contents v) os
  run-refines v os w h = run-from os (some v) (some (contents v)) v.size (w, refl, omega arith) h

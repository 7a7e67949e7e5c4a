-- ===== src/Hashtable/Tests.antt =====
-- Runs of hashtable.h on tables of numbers, and the theorems at a table of 8 entries.
use htools.Prelude.{
  none-some, ℕ, ◌<◌, Option, none, some, Bool, ◌==◌, if◌then◌else◌, ◌≡◌, ◌≢◌, refl, sym, ap, ap₂,
  ◌∙◌, inl, inr, Bool-cases, arith, Returns, ==_iff, u32, ◌>>=◌,
}
use mathlib.Core.Path.{subst}
use htools.Hashtable.Ops.{
  Entry, Cells, Table, dib_of, init, find, find_loop, insert, insert_loop, move_loop, rehash,
  size_loop, erase, erase_loop,
}
use htools.Hashtable.Find.{Ordered, Finds, find-Finds}
use htools.Hashtable.Round.{Inserted}
use htools.Hashtable.Insert.{insert_loop-Inserted}
use htools.Hashtable.Present.{insert_loop_present}
use htools.Hashtable.Erase.{Erased, erase-Erased}

abbrev key : ℕ → ℕ
key t = t

abbrev equal : ℕ → ℕ → Bool
equal a b = a == b

abbrev add : Table ℕ → ℕ → Option (Table ℕ × ℕ)
add h t = insert key key equal 4 20 h t

-- The numbers 3, 11 and 19 have the same place in 8 entries.
abbrev three : Option (Table ℕ)
three = do (h, _) ← add init 3; (h', _) ← add h 11; (h'', _) ← add h' 19; some h''

find-last : (three >>= (λ h. find key key equal 20 h 19)) ≡ some (some 5)
unfolding init insert insert_loop move_loop rehash size_loop find find_loop
find-last = refl

find-erased :
    (do h ← three; (h', _) ← erase key key equal 20 h 3; find key key equal 20 h' 19)
    ≡ some (some 4)
unfolding init insert insert_loop move_loop rehash size_loop find find_loop erase erase_loop
find-erased = refl

-- `find` in a table that nothing was inserted to uses a null pointer.
find-null : find key key equal 20 init 3 ≡ none
unfolding init find
find-null = refl

abbrev entry : Entry ℕ
entry = record { hash = 3; t = 3 }

abbrev one : Cells ℕ
one = λ s. if s == 3 then some entry else none

entry_or : Option (Entry ℕ) → Entry ℕ
entry_or none = entry
entry_or (some e) = e

one-in : (s : ℕ) (e : Entry ℕ) → one s ≡ some e → (3 ≡ s) × (entry ≡ e)
unfolding entry_or
one-in s e at = elim (Bool-cases (s == 3)) [
  | inl here ↦
      let there : one s ≡ some entry = rw here refl in
      (sym ((==_iff s 3).0 here), ap entry_or (sym there ∙ at))
  | inr other ↦ let gone : one s ≡ none = rw other refl in none-some (sym gone ∙ at)
]

one-Ordered : Ordered key key equal ==_iff 3 one
one-Ordered = record {
  hashed = λ s e lt at. subst (λ (x : Entry ℕ). x.hash ≡ x.t) (one-in s e at).1 refl;
  chain = λ s e lt at k less. absurd (no_way s e k at less);
  unique = λ s t e f sl tl p q same. sym (one-in s e p).0 ∙ (one-in t f q).0;
}
  where
    no_way : (s : ℕ) (e : Entry ℕ) (k : ℕ) → one s ≡ some e → k < dib_of 7 e.hash s → ⊥
    no_way s e k at less =
        let near : dib_of 7 e.hash s ≡ 0 =
          ap₂ (λ (x : Entry ℕ) (n : ℕ). dib_of 7 x.hash n) (sym (one-in s e at).1)
            (sym (one-in s e at).0) in
        omega (arith, near, less)

find-Finds_example :
    Returns
      (find key key equal 9 (record { mask = 7; num = 1; array = some one }) 11)
      (Finds key key equal ==_iff 3 one 11)
find-Finds_example =
    find-Finds key key equal ==_iff 3 9 1 4 one 11 (omega arith) one-Ordered (omega arith) refl
      (omega arith)

insert_loop-Inserted_example : Returns (insert_loop key key equal 8 7 one 1 11 11 11 0 none) (λ r.
    Inserted key key equal ==_iff 3 one (record { hash = 11; t = 11 }) r.0
    × (r.1 ≡ u32 2)
    × (r.2 < 8)
    × (r.0 r.2 ≡ some (record { hash = 11; t = 11 })))
insert_loop-Inserted_example =
    insert_loop-Inserted key key equal ==_iff 3 (omega arith) 8 1 4 one 11 one-Ordered (omega arith)
      refl other_key (omega arith)
  where
    other_key : (s : ℕ) (f : Entry ℕ) → s < 8 → one s ≡ some f → f.t ≢ 11
    other_key s f lt at same =
        let three_ : 3 ≡ f.t = ap (λ (x : Entry ℕ). x.t) (one-in s f at).1 in
        omega (arith, three_, same)

insert_loop_present_example : insert_loop key key equal 8 7 one 1 3 3 3 0 none ≡ some (one, 1, 3)
insert_loop_present_example =
    insert_loop_present key key equal ==_iff 3 (omega arith) one one-Ordered 3 3 entry (omega arith)
      refl refl 8 1 (omega arith)

erase-Erased_example :
    Returns (erase key key equal 8 (record { mask = 7; num = 1; array = some one }) 3) (λ q.
      (q.1 ≡ 3)
      × (q.0.num ≡ 1)
      × (q.0.mask ≡ 7)
      × ((a' : Cells ℕ) × (q.0.array ≡ some a') × Erased key key equal ==_iff 3 one entry a'))
erase-Erased_example =
    erase-Erased key key equal ==_iff 3 one one-Ordered (omega arith) 3 entry (omega arith) refl 8 1
      4 (omega arith) refl (omega arith)

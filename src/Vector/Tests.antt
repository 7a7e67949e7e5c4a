-- ===== src/Vector/Tests.antt =====
-- Runs of vector.h on small vectors, and the theorems at such vectors.
use htools.Prelude.{ℕ, ◌+◌, ◌*◌, ◌≡◌, refl, arith, some, List, [], ◌∷◌, Returns, get_elem?}
use mathlib.Core.Option
use htools.Vector.Ops.{Vector, Setup, push_back, push_front, insert, erase, pop_back, pop_front}
use htools.Vector.Invariant.{IsValid, Fits}
use htools.Vector.Contents.{contents}
use htools.Vector.Push.{Inserts, push_back-Inserts, push_front-Inserts}
use htools.Vector.Insert.{insert-Inserts}
use htools.Vector.Erase.{Erases, erase-Erases}
use htools.Vector.PopFront.{pop_front_skips}
use htools.Vector.Run.{
  Op, push_last, push_first, insert_elem, erase_elem, pop_last, run, list_run, run-refines,
}

abbrev setup : Setup ℕ
setup = record { chunk = 4; elem_size = 4; fresh = λ i. 999; zeroed = 0 }

-- 10, 20, 30 behind a margin of one cell.
abbrev margin_one : Vector ℕ
margin_one = record { ofs = 1; size = 3; capacity = 5; cells = λ i. i * 10 }

-- 0, 10, 20 at the front of the array.
abbrev no_margin : Vector ℕ
no_margin = record { ofs = 0; size = 3; capacity = 3; cells = λ i. i * 10 }

abbrev script : List (Op ℕ)
script = push_first 1 ∷ push_last 2 ∷ insert_elem 1 3 ∷ erase_elem 0 ∷ pop_last ∷ push_first 4 ∷ []

margin_one-IsValid : IsValid setup margin_one
margin_one-IsValid = omega arith

margin_one-Fits : Fits setup margin_one
margin_one-Fits = omega arith

no_margin-IsValid : IsValid setup no_margin
no_margin-IsValid = omega arith

no_margin-Fits : Fits setup no_margin
no_margin-Fits = omega arith

run-script : Option.map contents (run setup no_margin script) ≡ some (4 ∷ 3 ∷ 0 ∷ 10 ∷ 20 ∷ [])
unfolding run push_back push_front insert erase pop_back
run-script = refl

-- With a margin of one cell `name_pop_front` does not leave 20 and 30.
pop_front-margin : Option.map contents (pop_front setup margin_one) ≡ some (30 ∷ 20 ∷ [])
unfolding pop_front
pop_front-margin = refl

push_back-Inserts_example : Returns (push_back setup no_margin) (Inserts setup 3 no_margin)
push_back-Inserts_example = push_back-Inserts setup no_margin no_margin-IsValid no_margin-Fits

push_front-Inserts_example : Returns (push_front setup no_margin) (Inserts setup 0 no_margin)
push_front-Inserts_example = push_front-Inserts setup no_margin no_margin-IsValid no_margin-Fits

insert-Inserts_example : Returns (insert setup no_margin 1) (Inserts setup 1 no_margin)
insert-Inserts_example =
    insert-Inserts setup no_margin 1 no_margin-IsValid no_margin-Fits (omega arith)

erase-Erases_example : Returns (erase setup margin_one 0) (Erases setup 0 margin_one)
erase-Erases_example =
    erase-Erases setup margin_one 0 margin_one-IsValid margin_one-Fits (omega arith)

pop_front_skips_example : Returns (pop_front setup margin_one) (λ v'.
    IsValid setup v'
    × (v'.size + 1 ≡ 3)
    × (get_elem? (contents v') 0 ≡ get_elem? (contents margin_one) (1 + 1 + 0)))
pop_front_skips_example =
    pop_front_skips setup margin_one 0 margin_one-IsValid margin_one-Fits (omega arith)

run-refines_example :
    Option.map contents (run setup no_margin script) ≡ list_run (0 ∷ 10 ∷ 20 ∷ []) script
run-refines_example =
    run-refines setup (omega arith) (omega arith) no_margin script no_margin-IsValid (omega arith)

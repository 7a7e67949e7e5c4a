-- ===== src/Getopt/Tests.antt =====
-- Runs of `getopt` on a short command line, and the theorems at that line.
use htools.Prelude.{ℕ, none, some, ◌≡◌, refl, arith, List, [], ◌∷◌, Returns}
use htools.Getopt.Ops.{Options, option, question, behind, getopt}
use htools.Getopt.Progress.{IsReady, getopt-IsReady}
use htools.Getopt.Group.{stuck, calls, getopt-stuck}

-- `prog -ab -xb`, with options `a` and `b`, which takes an argument.
abbrev argv : List (List ℕ)
argv = (112 ∷ []) ∷ (45 ∷ 97 ∷ 98 ∷ []) ∷ (45 ∷ 120 ∷ 98 ∷ []) ∷ []

abbrev optstring : List ℕ
optstring = 97 ∷ 98 ∷ 58 ∷ []

abbrev start : Options
start = record { optarg = none; optopt = none; optind = 1; optsubind = some 1 }

getopt-flag :
    getopt argv optstring start
    ≡ some (record { optarg = none; optopt = some 97; optind = 1; optsubind = some 2 }, option 97)
unfolding getopt
getopt-flag = refl

getopt-separate :
    getopt argv optstring (record start { optsubind = some 2 })
    ≡ some (
      record { optarg = some (45 ∷ 120 ∷ 98 ∷ []); optopt = some 98; optind = 2; optsubind = none },
      option 98,
    )
unfolding getopt
getopt-separate = refl

getopt-IsReady_example : Returns (getopt argv optstring start) (λ r. IsReady argv r.0)
getopt-IsReady_example = getopt-IsReady argv optstring start (omega arith, omega arith)

-- An index behind the terminator of an argument.
getopt-beyond : getopt argv optstring (record start { optsubind = some 4 }) ≡ none
unfolding getopt
getopt-beyond = refl

-- `prog -ax`.
abbrev group : List (List ℕ)
group = (112 ∷ []) ∷ (45 ∷ 97 ∷ 120 ∷ []) ∷ []

getopt-stuck_example :
    calls group optstring 6 start
    ≡ some (stuck 1 120, option 97 ∷ question ∷ option 97 ∷ question ∷ option 97 ∷ question ∷ [])
unfolding behind
getopt-stuck_example =
    getopt-stuck group optstring start (97 ∷ []) [] 120 2 refl (omega arith) refl refl
      ((omega arith, (98, refl, refl)), tt) (omega arith) refl

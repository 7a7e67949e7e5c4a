-- ===== src/Getopt/Progress.antt =====
-- `getopt` returns on every command line, and what it leaves behind.
use htools.Prelude.{
  ◌-◌, true-false, ℕ, zero, suc, ◌+◌, ◌≤◌, ◌<◌, none, some, Bool, true, false, leb, ◌==◌, ◌||◌, not,
  ◌≡◌, inl, inr, refl, sym, arith, List, [], ◌∷◌, length, get_or, Returns, Bool-cases, Option-cases,
}
use mathlib.Core.Path.{subst}
use htools.Getopt.Ops.{Options, is_dashes, behind, take_option, next_arg, getopt_loop, getopt}

-- Between calls the argument that the next call begins with is one of the line, or its end, and the
-- index in it is that of one of its characters, or of its terminator, or 1.
abbrev pub IsReady : List (List ℕ) → Options → Type 0
IsReady argv o =
    ((next_arg o).0.optind ≤ length argv)
    × ((next_arg o).1 ≤ length (get_or argv (next_arg o).0.optind []) - 1 + 1)

get_or-inside : (s : List ℕ) (k : ℕ) → (get_or s k 0 == 0) ≡ false → k < length s
get_or-inside [] k h = true-false h
get_or-inside (x ∷ s) zero h = omega arith
get_or-inside (x ∷ s) (suc k) h = omega (arith, get_or-inside s k h)

module _ (argv : List (List ℕ)) (optstring : List ℕ) where
  take_option-IsReady :
      (o : Options) (i : ℕ)
      → o.optind < length argv
      → i ≤ length (get_or argv o.optind []) - 1 + 1
      → IsReady argv (take_option argv optstring o (get_or argv o.optind []) i).0
  unfolding take_option
  take_option-IsReady o i h j =
      let arg = get_or argv o.optind [] in
      elim (Option-cases (behind (get_or arg i 0) optstring)) [
        | inl e ↦ rw (take_option, e) (omega arith, omega arith)
        | inr (d, e) ↦
            rw (take_option, e)
              (elim (Bool-cases (d == 58)) [
                | inl takes ↦ elim (Bool-cases (not (get_or arg (i + 1) 0 == 0))) [
                  | inl same ↦ rw (takes, same) (omega arith, omega arith)
                  | inr apart ↦ elim (Bool-cases (o.optind + 1 == length argv)) [
                    | inl end ↦ rw (takes, apart, end) (omega arith, omega arith)
                    | inr another ↦
                        let next : o.optind + 1 + 1 ≤ length argv = ground arith in
                        rw (takes, apart, another) (next, omega arith)
                  ]
                ]
                | inr flag ↦ elim (Bool-cases (get_or arg (i + 1) 0 == 0)) [
                  | inl end ↦ rw (flag, end) (omega arith, omega arith)
                  | inr another ↦
                      rw (flag, another)
                        (omega arith, omega (arith, get_or-inside arg (i + 1) another))
                ]
              ])
      ]

  suc_eq : (n : ℕ) → suc n ≡ n + 1
  suc_eq n = omega arith

  less : (n : ℕ) (b : Bool) → n ≤ length argv → (n == length argv || b) ≡ false → n < length argv
  less n b h e = ground arith

  getopt_loop-IsReady :
      (fuel : ℕ) (o : Options)
      → IsReady argv o
      → length argv < (next_arg o).0.optind + fuel
      → Returns (getopt_loop fuel argv optstring o) (λ r. IsReady argv r.0)
  unfolding getopt_loop
  getopt_loop-IsReady zero o h f = absurd (omega arith)
  getopt_loop-IsReady (suc fuel) o h f =
      let (o', i) = next_arg o in
      let arg = get_or argv o'.optind [] in
      let below : o'.optind == length argv || is_dashes arg ≡ false → o'.optind < length argv =
        λ e. less o'.optind (is_dashes arg) h.0 e in
      let inside : leb o'.optind (length argv) ≡ true = ground (arith, h.0) in
      let again = λ (e : o'.optind == length argv || is_dashes arg ≡ false).
        getopt_loop-IsReady fuel (record o' { optind = o'.optind + 1; optsubind = some 1 })
          (subst (λ n. n ≤ length argv) (suc_eq o'.optind) (below e), omega arith)
          (omega (arith, f)) in
      elim (Bool-cases (o'.optind == length argv || is_dashes arg)) [
        | inl e ↦ rw (inside, e) (h.0, omega arith)
        | inr e ↦ elim (Bool-cases (get_or arg 0 0 == 45)) [
          | inr word ↦ rw (inside, e, word) (again e)
          | inl dash ↦
              let first : (get_or arg 0 0 == 0) ≡ false = ground arith in
              let some_ = get_or-inside arg 0 first in
              let readable : leb i (length arg) ≡ true = ground (arith, h.1, some_) in
              elim (Bool-cases (get_or arg i 0 == 0)) [
                | inl ended ↦ rw (inside, e, dash, readable, ended) (again e)
                | inr here ↦
                    rw (inside, e, dash, readable, here) (take_option-IsReady o' i (below e) h.1)
              ]
        ]
      ]

  -- `getopt` returns on every line where the next argument is not beyond its end and the index in it is
  -- not beyond its terminator: it reads nothing behind one, no assertion fails, and it leaves the line so
  -- again.
  pub getopt-IsReady :
      (o : Options) → IsReady argv o → Returns (getopt argv optstring o) (λ r. IsReady argv r.0)
  unfolding getopt
  getopt-IsReady o h =
      getopt_loop-IsReady (length argv + 1) (record o { optarg = none; optopt = none })
        (cleared o h) (ahead o)
    where
      cleared :
          (o : Options) → IsReady argv o → IsReady argv (record o { optarg = none; optopt = none })
      cleared o h = elim (Option-cases o.optsubind) [
        | inl e ↦
            let same : IsReady argv (record o { optarg = none; optopt = none }) ≡ IsReady argv o =
              rw e refl in
            subst (λ T. T) (sym same) h
        | inr (i, e) ↦
            let same : IsReady argv (record o { optarg = none; optopt = none }) ≡ IsReady argv o =
              rw e refl in
            subst (λ T. T) (sym same) h
      ]

      ahead :
          (o : Options)
          → length argv
            < (next_arg (record o { optarg = none; optopt = none })).0.optind + (length argv + 1)
      ahead o = omega arith

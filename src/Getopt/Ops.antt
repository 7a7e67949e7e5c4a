-- ===== src/Getopt/Ops.antt =====
-- hutils/src/getopt.c. A string is its bytes before the terminator; `get_or s i 0` reads it with
-- its terminator.
use htools.Prelude.{
  ℕ, zero, suc, ◌+◌, Option, none, some, Bool, leb, ◌==◌, if◌then◌else◌, ◌&&◌, ◌||◌, not, ◌>>◌,
  guard, List, [], ◌∷◌, length, get_or,
}

-- The static variables. `optsubind` is `none` for -1, `optopt` too; `optarg` is the string that
-- it points to.
pub record Options : Type 0 where
  pub optarg : Option (List ℕ)
  pub optopt : Option ℕ
  pub optind : ℕ
  pub optsubind : Option ℕ

-- What `getopt` returns: -1, a question mark, or the option.
pub data Found : Type 0 where
  no_more : Found
  question : Found
  option : ℕ → Found

-- The string that an argument points to from an index on.
abbrev pub suffix : ℕ → List ℕ → List ℕ
suffix zero s = s
suffix (suc i) [] = []
suffix (suc i) (c ∷ s) = suffix i s

-- `strcmp` with `--`.
abbrev pub is_dashes : List ℕ → Bool
is_dashes s = get_or s 0 0 == 45 && (get_or s 1 0 == 45 && length s == 2)

-- The search for `optopt` in `a_optstring`: the character behind it.
unfoldable pub behind : ℕ → List ℕ → Option ℕ
behind c [] = none
behind c (d ∷ ds) = if d == c then some (get_or ds 0 0) else behind c ds

-- The end of a round, from the search on; `arg` is `a_argv[optind]`, `i` is `optsubind`.
unfoldable pub take_option : List (List ℕ) → List ℕ → Options → List ℕ → ℕ → Options × Found
unfolding behind
take_option argv optstring o arg i =
    let c = get_or arg i 0 in
    let o : Options = record o { optopt = some c } in
    let unknown : Options = record o { optsubind = some 1 } in
    let attached : Options = record o { optarg = some (suffix (i + 1) arg); optsubind = none } in
    let missing : Options = record o { optind = o.optind + 1; optsubind = some 1 } in
    let separate : Options = record o {
      optind = o.optind + 1;
      optarg = some (get_or argv (o.optind + 1) []);
      optsubind = none;
    } in
    let flag : Options = record o {
      optsubind = if get_or arg (i + 1) 0 == 0 then none else some (i + 1);
    } in
    elim (behind c optstring) [
      | none ↦ (unknown, question)
      | some d ↦
          if d == 58
          then if not (get_or arg (i + 1) 0 == 0)
            then (attached, option c)
            else if o.optind + 1 == length argv
            then (missing, question)
            else (separate, option c)
          else (flag, option c)
    ]

-- `if (-1 == optsubind)` at the start of a round.
abbrev pub next_arg : Options → Options × ℕ
next_arg o = elim o.optsubind [
  | none ↦ (record o { optind = o.optind + 1; optsubind = some 1 }, 1)
  | some i ↦ (o, i)
]

-- The loop, with fuel; `none` is the assertion, a read behind the terminator of an argument, or that
-- the fuel ran out.
unfoldable pub getopt_loop : ℕ → List (List ℕ) → List ℕ → Options → Option (Options × Found)
unfolding take_option
getopt_loop zero argv optstring o = none
getopt_loop (suc fuel) argv optstring o =
    let (o', i) = next_arg o in
    let arg = get_or argv o'.optind [] in
    let rest =
      getopt_loop fuel argv optstring (record o' { optind = o'.optind + 1; optsubind = some 1 }) in
    do
      guard (leb o'.optind (length argv))
      if o'.optind == length argv || is_dashes arg
          then some (record o' { optsubind = some 1 }, no_more)
          else if not (get_or arg 0 0 == 45)
          then rest
          else (do
            guard (leb i (length arg))
            if get_or arg i 0 == 0 then rest else some (take_option argv optstring o' arg i))

-- Every round that goes on steps to the next argument.
unfoldable pub getopt : List (List ℕ) → List ℕ → Options → Option (Options × Found)
unfolding getopt_loop
getopt argv optstring o =
    getopt_loop (length argv + 1) argv optstring (record o { optarg = none; optopt = none })

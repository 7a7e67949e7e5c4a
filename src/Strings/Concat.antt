-- ===== src/Strings/Concat.antt =====
-- `strctv_` fills exactly what it allocates.
use htools.Prelude.{
  add_size, Bool, true, ltb, ◌^◌, ◌>>=◌, Returns-map, Returns-bind, ℕ, zero, suc, ◌+◌, ◌≤◌, ◌<◌,
  Option, none, some, false, ◌==◌, if◌then◌else◌, ◌≡◌, refl, sym, ◌∙◌, arith, List, [], ◌∷◌, ◌++◌,
  length, get_or, length-append, append-nil, append_assoc, Returns,
}
use mathlib.Core.Path.{subst}
use htools.Strings.Ops.{null_text, length_loop, copy_bytes, append_loop, write, Buffer, strctv}

-- The text of an argument, and of all.
abbrev pub text_of : Option (List ℕ) → List ℕ
text_of none = null_text
text_of (some s) = s

abbrev pub texts : List (Option (List ℕ)) → List ℕ
texts [] = []
texts (a ∷ args) = text_of a ++ texts args

module _ (size : ℕ) (old : ℕ → ℕ) where
  -- The buffer holds `s` before the index `to`, and behind it what it held.
  record Filled (s : List ℕ) (buf : ℕ → ℕ) (to : ℕ) : Type 0 where
    pub end : to ≡ length s
    pub cells : (i : ℕ) → i < to → buf i ≡ get_or s i 0
    pub behind : (i : ℕ) → to ≤ i → buf i ≡ old i

  Filled-cast :
      (s t : List ℕ) (buf : ℕ → ℕ) (m n : ℕ) → s ≡ t → m ≡ n → Filled s buf m → Filled t buf n
  Filled-cast s t buf m n e f h = subst (Filled t buf) f (subst (λ u. Filled u buf m) e h)

  get_or-snoc :
      (s : List ℕ) (c i : ℕ)
      → i ≤ length s
      → get_or (s ++ (c ∷ [])) i 0 ≡ (if i == length s then c else get_or s i 0)
  get_or-snoc [] c i h = let e : i ≡ 0 = omega arith in rw e refl
  get_or-snoc (x ∷ s) c zero h = ground arith
  get_or-snoc (x ∷ s) c (suc i) h = ground (arith, get_or-snoc s c i)

  byte-Filled :
      (c : ℕ) (s : List ℕ) (buf : ℕ → ℕ) (to : ℕ)
      → Filled s buf to
      → Filled (s ++ (c ∷ [])) (λ i. if i == to then c else buf i) (to + 1)
  byte-Filled c s buf to h = record {
    end = omega (arith, h.end, length-append s (c ∷ []));
    cells = λ i lt. ground (arith, get_or-snoc s c i, h.cells i, h.end);
    behind = λ i le. ground (arith, h.behind i);
  }

  copy_bytes-Filled :
      (from s : List ℕ) (buf : ℕ → ℕ) (to : ℕ)
      → Filled s buf to
      → to + length from ≤ size
      → Returns (copy_bytes size buf to from) (λ b. Filled (s ++ from) b (to + length from))
  unfolding copy_bytes write
  copy_bytes-Filled [] s buf to h le = Filled-cast s _ buf to _ (sym (append-nil s)) (omega arith) h
  copy_bytes-Filled (c ∷ from) s buf to h le =
      let inside : ltb to size ≡ true = ground arith in
      rw inside (
        Returns-map _ _ (copy_bytes size (λ i. if i == to then c else buf i) (to + 1) from)
          (copy_bytes-Filled from (s ++ (c ∷ [])) _ (to + 1) (byte-Filled c s buf to h)
            (omega arith))
          (λ b f. Filled-cast _ _ _ _ _ (append_assoc s (c ∷ []) from) (omega arith) f))

  append_text :
      (a s : List ℕ) (args : List (Option (List ℕ))) (buf : ℕ → ℕ) (to : ℕ)
      → ((buf : ℕ → ℕ)
          → Filled (s ++ a) buf (to + length a)
          → Returns
              (append_loop size args buf (to + length a))
              (λ q. Filled ((s ++ a) ++ texts args) q.0 q.1))
      → Filled s buf to
      → to + length a ≤ size
      → Returns
          (copy_bytes size buf to a >>= (λ b. append_loop size args b (to + length a)))
          (λ q. Filled (s ++ (a ++ texts args)) q.0 q.1)
  append_text a s args buf to rest h le =
      Returns-bind _ _ (copy_bytes size buf to a) _ (copy_bytes-Filled a s buf to h le) (λ b f.
        Returns-map _ _ (append_loop size args b (to + length a)) (rest b f)
          (λ q g. Filled-cast _ _ _ _ _ (append_assoc s a (texts args)) refl g))

  append_loop-Filled :
      (args : List (Option (List ℕ))) (s : List ℕ) (buf : ℕ → ℕ) (to : ℕ)
      → Filled s buf to
      → to + length (texts args) ≤ size
      → Returns (append_loop size args buf to) (λ q. Filled (s ++ texts args) q.0 q.1)
  unfolding append_loop
  append_loop-Filled [] s buf to h le = Filled-cast s _ buf to to (sym (append-nil s)) refl h
  append_loop-Filled (none ∷ args) s buf to h le =
      append_text null_text s args buf to
        (λ b f.
          append_loop-Filled args (s ++ null_text) b _ f
            (omega (arith, length-append null_text (texts args))))
        h (omega (arith, length-append null_text (texts args)))
  append_loop-Filled (some a ∷ args) s buf to h le =
      append_text a s args buf to
        (λ b f.
          append_loop-Filled args (s ++ a) b _ f (omega (arith, length-append a (texts args))))
        h (omega (arith, length-append a (texts args)))

length_loop-eq :
    (args : List (Option (List ℕ))) (len : ℕ)
    → len + length (texts args) < 2 ^ 64
    → length_loop args len ≡ len + length (texts args)
unfolding length_loop
length_loop-eq [] len lt = omega arith
length_loop-eq (none ∷ args) len lt =
    let l = length-append null_text (texts args) in
    let e : add_size len (length null_text) ≡ len + length null_text = omega (arith, l) in
    rw e (length_loop-eq args (len + length null_text) (omega (arith, l)) ∙ omega (arith, l))
length_loop-eq (some s ∷ args) len lt =
    let l = length-append s (texts args) in
    let e : add_size len (length s) ≡ len + length s = omega (arith, l) in
    rw e (length_loop-eq args (len + length s) (omega (arith, l)) ∙ omega (arith, l))

-- A buffer that holds a C string and has no room behind its terminator; the memory behind it is as it
-- was.
pub record Holds (s : List ℕ) (old : ℕ → ℕ) (b : Buffer) : Type 0 where
  pub size : b.size ≡ length s + 1
  pub cells : (i : ℕ) → i < length s → b.bytes i ≡ get_or s i 0
  pub terminator : b.bytes (length s) ≡ 0
  pub untouched : (i : ℕ) → b.size ≤ i → b.bytes i ≡ old i

-- What `strctv_` returns, by whether memory is there.
abbrev pub Concats : Bool → List ℕ → (ℕ → ℕ) → Option Buffer → Type 0
Concats true s old none = Unit
Concats true s old (some b) = ⊥
Concats false s old none = ⊥
Concats false s old (some b) = Holds s old b

kept-Filled :
    (size : ℕ) (s : List ℕ) (old : ℕ → ℕ) → Filled size old s (λ i. get_or s i (old i)) (length s)
kept-Filled size s old = record {
  end = refl;
  cells = λ i lt. inside s i (old i) lt;
  behind = λ i le. past s i (old i) le;
}
  where
    inside : (s : List ℕ) (i d : ℕ) → i < length s → get_or s i d ≡ get_or s i 0
    inside [] i d h = absurd (omega arith)
    inside (x ∷ s) zero d h = refl
    inside (x ∷ s) (suc i) d h = inside s i d (omega arith)

    past : (s : List ℕ) (i d : ℕ) → length s ≤ i → get_or s i d ≡ d
    past [] i d h = refl
    past (x ∷ s) zero d h = absurd (omega arith)
    past (x ∷ s) (suc i) d h = past s i d (omega arith)

whole :
    (size : ℕ) (s : List ℕ) (old buf : ℕ → ℕ) (to : ℕ)
    → size ≡ length s + 1
    → Filled size old s buf to
    → Returns (write size buf to 0) (λ b. Holds s old (record { size = size; bytes = b }))
unfolding write
whole size s old buf to e h =
    let inside : ltb to size ≡ true = ground (arith, h.end) in
    rw inside (record {
      size = e;
      cells = λ i lt. ground (arith, h.cells i, h.end);
      terminator = ground (arith, h.end);
      untouched = λ i le. ground (arith, h.behind i, h.end);
    })

-- The string that is there before the call.
abbrev pub kept_text : Option (List ℕ) → List ℕ
kept_text none = []
kept_text (some s) = s

strctv-some :
    (old : ℕ → ℕ) (fails : Bool) (s : List ℕ) (args : List (Option (List ℕ)))
    → length (s ++ texts args) + 1 < 2 ^ 64
    → Returns (strctv old fails (some s) args) (Concats fails (s ++ texts args) old)
unfolding strctv
strctv-some old true s args lt = tt
strctv-some old false s args lt =
    let l = length-append s (texts args) in
    let size = add_size (length_loop args (length s)) 1 in
    let counted : size ≡ length (s ++ texts args) + 1 =
      omega (arith, l, length_loop-eq args (length s) (omega (arith, l))) in
    Returns-bind _ _ (append_loop size args (λ i. get_or s i (old i)) (length s)) _
      (append_loop-Filled size old args s _ _ (kept-Filled size s old) (omega (arith, counted, l)))
      (λ q f.
        Returns-bind _ _ (write size q.0 q.1 0) _
          (whole size (s ++ texts args) old q.0 q.1 counted f) (λ b h. h))

-- If the text fits in `size_t` with its terminator, `strctv_` writes to no byte outside of the memory
-- that it allocates: it returns a null pointer if there is no memory, and else the kept string with all
-- arguments behind it, `NULL` for a null pointer, in a buffer of just the length of this text and its
-- terminator, with the memory behind it as it was.
pub strctv-Concats :
    (old : ℕ → ℕ) (fails : Bool) (dst : Option (List ℕ)) (args : List (Option (List ℕ)))
    → length (kept_text dst ++ texts args) + 1 < 2 ^ 64
    → Returns (strctv old fails dst args) (Concats fails (kept_text dst ++ texts args) old)
unfolding strctv
strctv-Concats old fails none args lt = strctv-some old fails [] args lt
strctv-Concats old fails (some s) args lt = strctv-some old fails s args lt

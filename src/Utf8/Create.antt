-- ===== src/Utf8/Create.antt =====
-- `utf8_create` turns any bytes into the encoding of a sequence of code points.
use htools.Prelude.{
  add_size, drop-drop, ℕ, zero, suc, ◌+◌, ◌*◌, ◌%◌, ◌^◌, ◌≤◌, ◌<◌, some, false, ltb, ◌≡◌, refl, sym,
  ap, ap₂, ◌∙◌, arith, List, [], ◌++◌, length, take, drop, Returns, Returns-bind, Returns-map,
  lt→ltb, take-append, drop-append, take-all, append-nil, append_assoc, length-append,
}
use mathlib.Core.Path.{subst}
use htools.Utf8.Ops.{Utf8, Code, count_loop, copy_loop, create, get}
use htools.Utf8.Decode.{encode, IsCode, IsBytes}
use htools.Utf8.RoundTrip.{decode-encode}
use htools.Utf8.Text.{Text, empty, char, Text-IsBytes}
use htools.Utf8.Replace.{
  end, code, byte, encode-replacement, encode-bounds, get_code-inside, Replaced, Replaced-Text,
  Made, loops-Made,
}

-- A UTF-8 string as `struct UTF8` keeps it.
pub record IsUtf8 (u : Utf8) : Type 0 where
  pub codes : Text u.length_ u.text
  pub size : u.bytes ≡ length u.text

-- What `utf8_create` makes of bytes.
pub record Creates (str : List ℕ) (u : Utf8) : Type 0 where
  pub num : ℕ
  pub replaced : Replaced num u.length_ str u.text
  pub number : u.replacement_num ≡ num % 2 ^ 32
  pub size : u.bytes ≡ length u.text

whole-Creates :
    (str : List ℕ) (h : IsBytes str) (x : ℕ × ℕ) (y : List ℕ × ℕ)
    → Made str h 0 0 0 [] x y
    → Creates str (record { replacement_num = y.1; length_ = x.0; bytes = x.1; text = y.0 })
whole-Creates str h x y m =
    let codes : m.codes ≡ x.0 = omega (arith, m.len_) in
    record {
      num = m.num;
      replaced =
          subst (λ n. Replaced m.num n str y.0) codes
            (subst (λ t. Replaced m.num m.codes str t) (sym m.copied) m.replaced);
      number = omega (arith, m.number);
      size = m.size;
    }

-- On any bytes, whose number by 3 fits in `size_t`, `utf8_create` returns the text with U+FFFD for
-- each byte at which no code point starts, of at most 21 bits and no surrogate, and everything else
-- as it is; it counts the code points and the bytes of this text, and modulo 2 ^ 32 the replacements.
pub create-Creates :
    (str : List ℕ) → IsBytes str → 3 * length str < 2 ^ 64 → Returns (create str) (Creates str)
unfolding create
create-Creates str h lt =
    Returns-bind _ _ (count_loop (length str + 1) str 0 0 0) _
      (loops-Made str h (length str + 1) 0 0 0 [] 0 (omega arith) (omega arith) (omega arith)
        (omega arith) refl (omega arith))
      (λ x f.
        Returns-bind _ _ (copy_loop (length str + 1) str 0 [] 0) _ f
          (λ y m. whole-Creates str h x y m))

module _ (str : List ℕ) where
  count_loop-Text :
      (n : ℕ) (s : List ℕ)
      → Text n s
      → (fuel i len bytes : ℕ) → drop i str ≡ s
      → i + length s ≡ length str
      → length s < fuel
      → len + length s < 2 ^ 64
      → bytes + length s < 2 ^ 64
      → count_loop fuel str i len bytes ≡ some (len + n, bytes + length s)
  unfolding count_loop
  count_loop-Text n s x zero i len bytes d e h sl sb = absurd (omega arith)
  count_loop-Text n s empty (suc fuel) i len bytes d e h sl sb =
      let done : ltb i (length str) ≡ false = ground arith in
      rw done (ap₂ (λ (a b : ℕ). some (a, b)) (omega arith) (omega arith))
  count_loop-Text n s (char c k r ok x) (suc fuel) i len bytes d e h sl sb =
      let (pos, _) = encode-bounds c in
      let l = length-append (encode c) r in
      let more : i < length str = omega arith in
      let one : add_size len 1 ≡ len + 1 = omega arith in
      let some_ : add_size bytes (length (encode c)) ≡ bytes + length (encode c) = omega arith in
      rw
        (
          lt→ltb _ _ more,
          get_code-inside str i more,
          d,
          decode-encode c r ok (Text-IsBytes k r x),
          one,
          some_,
        )
        (count_loop-Text k r x fuel (i + length (encode c)) (len + 1) (bytes + length (encode c))
            (sym (drop-drop i _ str) ∙ ap (drop _) d ∙ drop-append (encode c) r) (omega arith)
            (omega arith) (omega arith) (omega arith)
          ∙ ap₂ (λ (a b : ℕ). some (a, b)) (omega arith) (omega arith))

  copy_loop-Text :
      (n : ℕ) (s : List ℕ)
      → Text n s
      → (fuel i : ℕ) (dst : List ℕ) (rn : ℕ) → drop i str ≡ s
      → i + length s ≡ length str
      → length s < fuel
      → copy_loop fuel str i dst rn ≡ some (dst ++ s, rn)
  unfolding copy_loop
  copy_loop-Text n s x zero i dst rn d e h = absurd (omega arith)
  copy_loop-Text n s empty (suc fuel) i dst rn d e h =
      let done : ltb i (length str) ≡ false = ground arith in
      rw done (ap (λ (t : List ℕ). some (t, rn)) (sym (append-nil dst)))
  copy_loop-Text n s (char c k r ok x) (suc fuel) i dst rn d e h =
      let (pos, _) = encode-bounds c in
      let l = length-append (encode c) r in
      let more : i < length str = omega arith in
      rw
        (
          lt→ltb _ _ more,
          get_code-inside str i more,
          d,
          decode-encode c r ok (Text-IsBytes k r x),
          ap (take _) d ∙ take-append (encode c) r,
        )
        (copy_loop-Text k r x fuel (i + length (encode c)) (dst ++ encode c) rn
            (sym (drop-drop i _ str) ∙ ap (drop _) d ∙ drop-append (encode c) r) (omega arith)
            (omega arith)
          ∙ ap (λ (t : List ℕ). some (t, rn)) (append_assoc dst (encode c) r))

-- `utf8_create` keeps a text of code points, whose bytes `size_t` counts, as it is, and counts no replacement.
pub create-Text :
    (n : ℕ) (s : List ℕ)
    → Text n s
    → length s < 2 ^ 64
    → create s ≡ some (record { replacement_num = 0; length_ = n; bytes = length s; text = s })
unfolding create
create-Text n s x lt =
    rw
      (
        count_loop-Text s n s x (length s + 1) 0 0 0 refl (omega arith) (omega arith) (omega arith)
            (omega arith),
        copy_loop-Text s n s x (length s + 1) 0 [] 0 refl (omega arith) (omega arith),
      )
      (ap₂ (λ (a b : ℕ). some (record { replacement_num = 0; length_ = a; bytes = b; text = s }))
        (omega arith) (omega arith))

Replaced-length : (k n : ℕ) (s t : List ℕ) → Replaced k n s t → length t ≤ 3 * length s
Replaced-length k n s t end = omega arith
Replaced-length k n s t (code c j m r u ok x) =
    omega (arith, Replaced-length j m r u x, length-append (encode c) r, length-append (encode c) u)
Replaced-length k n s t (byte b j m r u bad x) = omega (
  arith,
  Replaced-length j m r u x,
  length-append (encode 0xfffd) u,
  ap length encode-replacement,
)

-- What `utf8_create` made of any bytes, whose number by 3 fits in `size_t`, it makes again of its own
-- text, with nothing to replace.
pub create-again :
    (str : List ℕ)
    → IsBytes str
    → 3 * length str < 2 ^ 64
    → Returns (create str) (λ u. create u.text ≡ some (record u { replacement_num = 0 }))
create-again str h lt = Returns-map (Creates str) _ (create str) (create-Creates str h lt) (λ u x.
    create-Text u.length_ u.text (Replaced-Text x.num u.length_ str u.text x.replaced)
      (omega (arith, Replaced-length x.num u.length_ str u.text x.replaced))
    ∙ ap (λ (n : ℕ). some (record u { replacement_num = 0; bytes = n })) (sym x.size))

-- `utf8_get` at a code point of the text yields that code point and the number of its bytes.
get-char :
    (n c : ℕ) (s t : List ℕ) (u : Utf8) (old : Code)
    → u.text ≡ s ++ (encode c ++ t)
    → u.bytes ≡ length u.text
    → IsCode c
    → Text n t
    → get u (length s) old ≡ some (c, length (encode c))
unfolding get
get-char n c s t u old e size ok y =
    let (pos, _) = encode-bounds c in
    let inside : length s < length u.text =
      omega (arith, ap length e, length-append s (encode c ++ t), length-append (encode c) t) in
    rw
      (
        ap (λ (k : ℕ). take k u.text) size ∙ take-all u.text,
        get_code-inside u.text (length s) inside,
        e,
        drop-append s (encode c ++ t),
        decode-encode c t ok (Text-IsBytes n t y),
      )
      refl

-- ===== src/Lexer/Ops.antt =====
-- hutils/src/lexer.c from `peek_char` to `lexer_skip`, and `struct Lexer` of
-- hutils/include/hutils/lexer.h. An `int` is kept modulo 2 ^ 32; `char` is signed.
use htools.Prelude.{
  ℕ, zero, suc, ◌+◌, ◌-◌, ◌%◌, ◌^◌, min, bit_and, Option, none, some, Bool, true, false, ltb, leb,
  ◌==◌, if◌then◌else◌, ◌&&◌, ◌>>=◌, ◌>>◌, guard, not, List, [], ◌∷◌, length, get_or, take, drop,
  u32, add_size, sub_size,
}

abbrev pub eof : ℕ
eof = 2 ^ 32 - 1

abbrev pub overflow : ℕ
overflow = 2 ^ 32 - 2

-- `enum LexerError`.
pub data LexerError : Type 0 where
  no_error : LexerError
  invalid_hex : LexerError
  invalid_number : LexerError
  unterminated_literal : LexerError

-- `source` is what the callback is applied to, and `buf` a ring of 256 bytes.
pub record Lexer (S : Type 0) : Type 0 where
  pub source : S
  pub error : LexerError
  pub line_no : ℕ
  pub col_no : ℕ
  pub buf : ℕ → ℕ
  pub ofs : ℕ
  pub buf_end : ℕ
  pub buf_ended : Bool

-- A `char` as an `int`.
abbrev pub int_of_char : ℕ → ℕ
int_of_char b = if ltb b 128 then b else b + (2 ^ 32 - 256)

-- `lexer_cstr_callback` on the rest of a C string, which holds no 0.
unfoldable pub cstr_callback : List ℕ → ℕ → List ℕ × List ℕ
cstr_callback src dst_size = let len = min (length src) dst_size in (take len src, drop len src)

unfoldable pub create : {S : Type 0} → S → Lexer S
create source = record {
  source = source;
  error = no_error;
  line_no = 1;
  col_no = 1;
  buf = λ _. 0;
  ofs = 0;
  buf_end = 0;
  buf_ended = false;
}

-- `ofs`, `line_no` and `col_no` behind the character `c`.
abbrev pub advance : {S : Type 0} → Lexer S → ℕ → Lexer S
advance l c =
    if c == 10
    then record l { ofs = add_size l.ofs 1; line_no = u32 (l.line_no + 1); col_no = 1 }
    else record l { ofs = add_size l.ofs 1; col_no = u32 (l.col_no + 1) }

-- `memmove` of `n` bytes of `src` from `ofs` on to `i`.
abbrev pub store : (ℕ → ℕ) → ℕ → (ℕ → ℕ) → ℕ → ℕ → ℕ → ℕ
store buf i src ofs n j = if leb i j && ltb j (i + n) then src (ofs + (j - i)) else buf j

-- `junk` is what the local array of `peek_char` holds before the callback writes to it.
module _ {S : Type 0} (callback : S → ℕ → List ℕ × S) (junk : ℕ → ℕ) where
  unfoldable pub fill : Lexer S → ℕ → List ℕ → Lexer S
  fill l len got =
      let src : ℕ → ℕ = λ i. get_or got i (junk i) in
      let first = bit_and 255 l.buf_end in
      let last = bit_and 255 (sub_size (add_size l.buf_end len) 1) in
      let len1 = sub_size 256 first in
      let buf : ℕ → ℕ =
        (if ltb last first
          then store (store l.buf first src 0 len1) 0 src len1 (sub_size len len1)
          else store l.buf first src 0 len) in
      record l {
        buf = buf;
        buf_end = add_size l.buf_end (length got);
        buf_ended = if ltb (length got) len then true else l.buf_ended;
      }

  unfoldable pub peek_char : Lexer S → ℕ → Lexer S × ℕ
  unfolding fill
  peek_char l k =
      let ofs = add_size l.ofs k in
      let len = sub_size 256 (sub_size l.buf_end l.ofs) in
      let (got, source) = callback l.source len in
      let l' = fill (record l { source = source }) len got in
      if leb 256 k
      then (l, overflow)
      else if ltb ofs l.buf_end
      then (l, int_of_char (l.buf (bit_and 255 ofs)))
      else if l.buf_ended
      then (l, eof)
      else if length got == 0
      then (record l { source = source }, eof)
      else (l', int_of_char (l'.buf (bit_and 255 ofs)))

  -- `none` is the assertion that no character lies beyond the buffer.
  unfoldable pub extract : Lexer S → ℕ → Option (Lexer S × List ℕ)
  unfolding peek_char
  extract l zero = some (l, [])
  extract l (suc len) =
      let (l', c) = peek_char l 0 in
      let rest = extract (advance l' c) len in
      do
        guard (not (c == overflow))
        if c == eof then some (l', []) else (do (l'', str) ← rest; some (l'', c % 256 ∷ str))

  -- The loop of `lexer_skip`, with fuel; `none` means that the fuel ran out.
  unfoldable pub skip_loop : ℕ → Lexer S → ℕ → Option (Lexer S × Bool)
  unfolding peek_char
  skip_loop zero l a = none
  skip_loop (suc fuel) l a =
      let (l', c) = peek_char l 0 in
      let l'' = advance l' c in
      let rest = skip_loop fuel l'' a in
      if c == eof then some (l', false) else if c == a then some (l'', true) else rest

  unfoldable pub skip : ℕ → Lexer S → ℕ → Option (Lexer S × Bool)
  unfolding skip_loop
  skip fuel l a = skip_loop fuel (record l { error = no_error }) (int_of_char a)

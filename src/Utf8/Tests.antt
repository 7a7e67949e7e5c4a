-- ===== src/Utf8/Tests.antt =====
-- Runs of utf8.c on small byte strings, and the theorems at such strings.
use htools.Prelude.{ℕ, none, some, ◌≡◌, refl, arith, inl, List, [], ◌∷◌, ◌++◌, length, Returns}
use htools.Utf8.Ops.{Utf8, decode, create, get}
use htools.Utf8.Decode.{encode, IsCode, IsBytes}
use htools.Utf8.RoundTrip.{Decodes, decode-encode, decode-Decodes}
use htools.Utf8.Text.{Text, empty, char}
use htools.Utf8.Create.{Creates, create-Creates, create-Text, create-again}

-- The euro sign.
abbrev euro : List ℕ
euro = 0xe2 ∷ 0x82 ∷ 0xac ∷ []

-- A continuation byte, and a sequence of three bytes that is cut off.
abbrev broken : List ℕ
broken = 0x61 ∷ 0x80 ∷ 0xe2 ∷ 0x82 ∷ []

euro-IsCode : IsCode 0x20ac
euro-IsCode = record { small = omega arith; no_surrogate = inl (omega arith) }

euro-Text : Text 1 euro
unfolding encode
euro-Text = char 0x20ac 0 [] euro-IsCode empty

euro-IsBytes : IsBytes euro
euro-IsBytes = (omega arith, (omega arith, (omega arith, tt)))

abbrev euro_string : Utf8
euro_string = record { replacement_num = 0; length_ = 1; bytes = 3; text = euro }

-- Every byte that starts no code point is replaced, and the string goes on behind it.
create-broken :
    create broken
    ≡ some (record {
      replacement_num = 3;
      length_ = 4;
      bytes = 10;
      text = 0x61 ∷ 0xef ∷ 0xbf ∷ 0xbd ∷ 0xef ∷ 0xbf ∷ 0xbd ∷ 0xef ∷ 0xbf ∷ 0xbd ∷ [];
    })
unfolding create
create-broken = refl

-- A sequence of four bytes above U+10FFFF is taken for a code point.
decode-above_unicode : decode (0xf4 ∷ 0x90 ∷ 0x80 ∷ 0x80 ∷ []) ≡ some (0x110000, 4)
unfolding decode
decode-above_unicode = refl

get-end : get euro_string 3 (0, 0) ≡ none
unfolding get
get-end = refl

decode-encode_example : decode (encode 0x20ac ++ euro) ≡ some (0x20ac, length (encode 0x20ac))
decode-encode_example = decode-encode 0x20ac euro euro-IsCode euro-IsBytes

decode-Decodes_example : Decodes euro 0x20ac 3
unfolding decode
decode-Decodes_example = decode-Decodes euro 0x20ac 3 (omega arith) euro-IsBytes refl

create-Creates_example : Returns (create broken) (Creates broken)
create-Creates_example =
    create-Creates broken (omega arith, (omega arith, (omega arith, (omega arith, tt))))
      (omega arith)

create-Text_example :
    create euro
    ≡ some (record { replacement_num = 0; length_ = 1; bytes = length euro; text = euro })
create-Text_example = create-Text 1 euro euro-Text (omega arith)

create-again_example :
    Returns (create broken) (λ u. create u.text ≡ some (record u { replacement_num = 0 }))
create-again_example =
    create-again broken (omega arith, (omega arith, (omega arith, (omega arith, tt)))) (omega arith)

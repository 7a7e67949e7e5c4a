-- ===== src/Utf8/Text.antt =====
-- Text as a sequence of encoded code points, which strings of utf8.c hold.
use htools.Prelude.{ℕ, suc, ◌+◌, ◌≡◌, refl, sym, arith, List, [], ◌++◌, append-nil, append_assoc}
use htools.Utf8.Decode.{encode, IsCode, IsBytes}
use mathlib.Core.Path.{subst}
use htools.Utf8.RoundTrip.{encode-IsBytes, IsBytes-append}

-- Text of code points only.
pub data Text : ℕ → List ℕ → Type 0 where
  empty : Text 0 []
  char : (c n : ℕ) (s : List ℕ) → IsCode c → Text n s → Text (suc n) (encode c ++ s)

pub Text-cast : (m n : ℕ) (s t : List ℕ) → m ≡ n → s ≡ t → Text m s → Text n t
Text-cast m n s t e f x = subst (Text n) f (subst (λ k. Text k s) e x)

pub Text-append : (m n : ℕ) (s t : List ℕ) → Text m s → Text n t → Text (m + n) (s ++ t)
Text-append m n s t empty y = Text-cast n (0 + n) t t (omega arith) refl y
Text-append m n s t (char c k r h x) y =
    Text-cast (suc (k + n)) (suc k + n) _ _ (omega arith) (sym (append_assoc (encode c) r t))
      (char c (k + n) (r ++ t) h (Text-append k n r t x y))

pub Text-last : (n c : ℕ) (s : List ℕ) → IsCode c → Text n s → Text (n + 1) (s ++ encode c)
Text-last n c s h x =
    Text-append n 1 s (encode c) x (subst (Text 1) (append-nil (encode c)) (char c 0 [] h empty))

pub Text-IsBytes : (n : ℕ) (s : List ℕ) → Text n s → IsBytes s
Text-IsBytes n s empty = tt
Text-IsBytes n s (char c k r h x) =
    IsBytes-append (encode c) r (encode-IsBytes c h) (Text-IsBytes k r x)

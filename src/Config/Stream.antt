-- ===== src/Config/Stream.antt =====
-- config.c: `load` on the lexer of lexer.c.
use htools.Prelude.{
  ℕ, zero, suc, ◌+◌, ◌<◌, none, some, Bool, true, false, ◌≡◌, refl, sym, ap, ◌∙◌, arith, List, [],
  ◌∷◌, ◌++◌, length, drop, Returns, Returns-map, drop-append, drop-drop, length-drop, length-append,
}
use mathlib.Core.Path.{subst}
use htools.Lexer.Ops.{Lexer}
use htools.Lexer.Ring.{IsReader, Holds}
use htools.Lexer.Token.{Token, token_get}
use htools.Lexer.See.{IsAscii, char_at}
use htools.Lexer.Lexed.{lexed, opens_gap, Gap}
use htools.Lexer.Branches.{IsAscii-drop}
use htools.Lexer.Got.{Fits, Got, short-Fits, token_get-Got}
use htools.Lexer.Sizes.{lexed-IsToken}
use htools.Config.Ops.{Doubles, load}
use htools.Config.Load.{IsTokens, Fine, load_loop-Fine}

-- No token of the text is a literal of 256 characters or more: the first one is none, and so it is
-- with the text behind each token that the text can start with.
pub data AllFit : List ℕ → Type 0 where
  fit :
      (xs : List ℕ)
      → Fits xs
      → ((gap ys : List ℕ)
          → xs ≡ gap ++ ys
          → Gap ys gap
          → opens_gap (char_at ys 0) ≡ false
          → (lexed ys).returned ≡ true
          → AllFit (drop (lexed ys).size ys))
      → AllFit xs

first-Fits : (xs : List ℕ) → AllFit xs → Fits xs
first-Fits xs (fit _ f g) = f

behind-AllFit :
    (xs gap ys : List ℕ)
    → AllFit xs
    → xs ≡ gap ++ ys
    → Gap ys gap
    → opens_gap (char_at ys 0) ≡ false
    → (lexed ys).returned ≡ true
    → AllFit (drop (lexed ys).size ys)
behind-AllFit xs gap ys (fit _ f g) = g gap ys

-- A token takes a character of the text at least.
token_shorter :
    (xs gap ys : List ℕ)
    → xs ≡ gap ++ ys
    → (lexed ys).returned ≡ true
    → length (drop (lexed ys).size ys) < length xs
token_shorter xs gap ys split ok =
    let t = lexed-IsToken ys ok in
    fewer ys (lexed ys).size t.there t.size (ap length split ∙ length-append gap ys)
  where
    fewer :
        (ys : List ℕ) (k : ℕ)
        → 0 < char_at ys 0
        → 0 < k
        → length xs ≡ length gap + length ys
        → length (drop k ys) < length xs
    fewer [] k there pos e = absurd (omega arith)
    fewer (y ∷ ys) k there pos e = omega (arith, length-drop k (y ∷ ys))

bounded-AllFit : (n : ℕ) (xs : List ℕ) → length xs < n → length xs < 256 → AllFit xs
bounded-AllFit zero xs lt small = absurd (omega arith)
bounded-AllFit (suc n) xs lt small = fit xs (short-Fits xs small) (λ gap ys split is_gap starts ok.
    let less = token_shorter xs gap ys split ok in
    bounded-AllFit n (drop (lexed ys).size ys) (omega arith) (omega arith))

pub short-AllFit : (xs : List ℕ) → length xs < 256 → AllFit xs
short-AllFit xs h = bounded-AllFit (length xs + 1) xs (omega arith) h

module _ {S : Type 0} (callback : S → ℕ → List ℕ × S) (junk : ℕ → ℕ) (rest : S → List ℕ)
    (reader : IsReader S callback rest) (fuel : ℕ) where
  -- The lexer stands before a text of a length.
  record Left (n : ℕ) (l : Lexer S) : Type 0 where
    text : List ℕ
    size : length text ≡ n
    ascii : IsAscii text
    fits : AllFit text
    holds : Holds S rest text l
    enough : n < fuel

  after :
      (n : ℕ) (l : Lexer S) (x : Left n l) (q : Lexer S × Token × Bool)
      → Got S rest x.text l q
      → q.2 ≡ true
      → (m : ℕ) × Left m q.0 × (m < n) × ((s : List ℕ) × (q.1.str ≡ some s))
  after n l x q g yes_ =
      let k = (lexed g.ys).size in
      let ok : (lexed g.ys).returned ≡ true = sym g.returned ∙ yes_ in
      let t = lexed-IsToken g.ys ok in
      let less = token_shorter x.text g.gap g.ys g.split ok in
      let behind : g.ys ≡ drop (length g.gap) x.text =
        sym (drop-append g.gap g.ys) ∙ ap (drop (length g.gap)) (sym g.split) in
      let at : drop k g.ys ≡ drop (length g.gap + k) x.text =
        ap (drop k) behind ∙ drop-drop (length g.gap) k x.text in
      (
        length (drop k g.ys),
        record {
          text = drop k g.ys;
          size = refl;
          ascii = subst IsAscii (sym at) (IsAscii-drop (length g.gap + k) x.text x.ascii);
          fits = behind-AllFit x.text g.gap g.ys x.fits g.split g.is_gap g.starts ok;
          holds = g.walked.holds;
          enough = omega (arith, less, x.size, x.enough);
        },
        omega (arith, less, x.size),
        (t.text.0, ap (λ (y : Token). y.str) g.token ∙ t.text.1),
      )

  lexer-IsTokens : IsTokens (Lexer S) (token_get callback junk fuel) Left
  lexer-IsTokens = record {
    gets = λ n l x.
        Returns-map (Got S rest x.text l) _ (token_get callback junk fuel l)
          (token_get-Got callback junk rest reader fuel x.text l (omega (arith, x.size, x.enough))
            x.ascii (first-Fits x.text x.fits) x.holds)
          (λ q g. after n l x q g);
  }

  -- For a callback that reads a stream in order, and ASCII text without zeros in which no token is a
  -- literal of 256 characters or more, `load` returns, with fuel for more rounds than the text has
  -- characters: a null pointer, or a collection whose sections have different names, where the values
  -- of each section have different names.
  pub load-Fine :
      {D : Type 0} (doubles : Doubles D) (xs : List ℕ) (l : Lexer S)
      → length xs < fuel
      → IsAscii xs
      → AllFit xs
      → Holds S rest xs l
      → Returns (load doubles (token_get callback junk fuel) fuel l) (λ r. Fine doubles r.1)
  unfolding load
  load-Fine doubles xs l lt ascii fits h =
      load_loop-Fine doubles (token_get callback junk fuel) Left lexer-IsTokens fuel (length xs) l
        [] none lt
        (record { text = xs; size = refl; ascii = ascii; fits = fits; holds = h; enough = lt })
        (record { sections = tt; configs = tt }) tt

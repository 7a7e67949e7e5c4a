-- ===== src/Lexer/Got.antt =====
-- `lexer_token_get` as a whole: the gap before a token, and the token.
use htools.Prelude.{
  ℕ, zero, suc, ◌^◌, ◌≤◌, ◌<◌, Option, none, some, Bool, true, false, ◌==◌, if◌then◌else◌, ◌≡◌, inl,
  inr, refl, sym, ap, ◌∙◌, arith, List, [], ◌∷◌, ◌++◌, length, length-append, length-take,
  length-drop, take, drop, Returns, Returns-map, Returns-bind, Bool-cases, ==_iff, append_assoc,
  append-nil,
}
use mathlib.Core.Path.{subst}
use htools.Lexer.Ops.{no_error, Lexer, eof}
use htools.Lexer.Ring.{IsReader, buffered, Holds}
use htools.Lexer.Walk.{Walked, walk-on, walk-join}
use htools.Lexer.Token.{
  eof_token, Token, newline, blank_loop, comment_loop, token_at, token_loop, token_get,
}
use htools.Lexer.See.{IsAscii, shown, char_at, At}
use htools.Lexer.Lexed.{Lexed, refused, lexed, opens_gap, is_body, Gap, space}
use htools.Lexer.Branches.{IsAscii-drop, Walked-clear, over-Walked, newline-Walked}
use htools.Lexer.Literal.{cut_char, error-Walked}
use htools.Lexer.Scan.{span}
use htools.Lexer.Kinds.{IsShort, token_at-IsLexed}
use htools.Lexer.Gaps.{
  Lead, IsBlanks, blanks-Lead, comment-Lead, Stop, Blanks, blank_loop-Stop, comment_loop-Stop,
}

-- The token of a text is no literal that is longer than the buffer.
abbrev pub Fits : List ℕ → Type 0
Fits xs = (gap ys : List ℕ) → xs ≡ gap ++ ys → Gap ys gap → char_at ys 0 ≡ 34 → IsShort (drop 1 ys)

span-length : (t : ℕ → Bool) (w : List ℕ) → span t w ≤ length w
unfolding span
span-length t [] = omega arith
span-length t (c ∷ w) = elim (Bool-cases (t c)) [
  | inl yes_ ↦ rw yes_ (omega (arith, span-length t w))
  | inr no_ ↦ rw no_ (omega arith)
]

pub short-Fits : (xs : List ℕ) → length xs < 256 → Fits xs
short-Fits xs h gap ys split is_gap quote = omega (
  arith,
  span-length is_body (take 256 (drop 1 ys)),
  length-take 256 (drop 1 ys),
  length-drop 1 ys,
  ap length split,
  length-append gap ys,
)

-- What a call yields that stands before `xs`.
pub record Got (S : Type 0) (rest : S → List ℕ) (xs : List ℕ) (l : Lexer S)
    (q : Lexer S × Token × Bool) : Type 0 where
  pub gap : List ℕ
  pub ys : List ℕ
  pub split : xs ≡ gap ++ ys
  pub is_gap : Gap ys gap
  pub starts : opens_gap (char_at ys 0) ≡ false
  pub token : q.1 ≡ (lexed ys).token
  pub returned : q.2 ≡ (lexed ys).returned
  pub walked :
      Walked S rest
        (gap ++ take (lexed ys).size ys)
        (drop (lexed ys).size ys)
        (record l { error = (lexed ys).error })
        q.0

module _ {S : Type 0} (callback : S → ℕ → List ℕ × S) (junk : ℕ → ℕ) (rest : S → List ℕ)
    (reader : IsReader S callback rest) where
  abbrev maybe_comment : ℕ → Lexer S → ℕ → Option (Lexer S × ℕ)
  maybe_comment bound l c = if c == 35 then comment_loop callback junk bound l else some (l, c)

  into_comment :
      (bound : ℕ) (xs ys gap : List ℕ) (l m : Lexer S)
      → length ys ≤ bound
      → xs ≡ gap ++ ys
      → IsBlanks gap
      → IsAscii ys
      → Walked S rest gap ys l m
      → char_at ys 0 ≡ 35
      → 1 ≤ buffered m
      → Returns (comment_loop callback junk bound m) (Stop rest Lead xs l)
  into_comment bound xs [] gap l m le split blanks ascii w e one = absurd (omega arith)
  into_comment bound xs (b ∷ ys) gap l m le split blanks ascii w e one =
      let here : gap ++ (b ∷ ys) ≡ gap ++ (35 ∷ ys) = ap (λ (c : ℕ). gap ++ (c ∷ ys)) e in
      let w' : Walked S rest gap (35 ∷ ys) l m = subst (λ c. Walked S rest gap (c ∷ ys) l m) e w in
      Returns-map _ _ (comment_loop callback junk bound m)
        (comment_loop-Stop callback junk rest reader bound 35 ys m (omega arith) ascii.2 refl
          w'.holds one)
        (λ q s. record {
          gap = gap ++ (35 ∷ s.gap);
          ys = s.ys;
          split =
              split
              ∙ here
              ∙ ap (λ (t : List ℕ). gap ++ (35 ∷ t)) s.split
              ∙ sym (append_assoc gap (35 ∷ s.gap) s.ys);
          good = comment-Lead gap s.gap s.ys blanks s.good.0 s.ascii s.good.1;
          ascii = s.ascii;
          walked = walk-join rest gap (35 ∷ s.gap) (35 ∷ ys) s.ys l m q.0 w' (
              walk-on rest 35 s.gap ys s.ys m _ q.0 (over-Walked rest 35 ys m refl w'.holds one)
                s.walked);
          value = s.value;
          ended = s.ended;
          near = s.near;
        })

  code : (c v : ℕ) → 0 < c → c < 2 ^ 31 → (v == c) ≡ (shown v == c)
  code c v pos lt = ground arith

  maybe_comment-Stop :
      (bound : ℕ) (xs : List ℕ) (l : Lexer S) (q : Lexer S × ℕ)
      → length xs ≤ bound
      → Stop rest Blanks xs l q
      → Returns (maybe_comment bound q.0 q.1) (Stop rest Lead xs l)
  maybe_comment-Stop bound xs l q le s =
      let c = char_at s.ys 0 in
      let same = code 35 q.1 (omega arith) (omega arith) ∙ ap (λ (v : ℕ). v == 35) s.value in
      elim (Bool-cases (c == 35)) [
        | inl hash ↦
            let it : c ≡ 35 = (==_iff c 35).0 hash in
            rw (same ∙ hash) (
              into_comment bound xs s.ys s.gap l q.0
                (omega (arith, ap length s.split, length-append s.gap s.ys)) s.split s.good.0
                s.ascii s.walked it (s.near (omega arith)))
        | inr other ↦ rw (same ∙ other) (record {
          gap = s.gap;
          ys = s.ys;
          split = s.split;
          good = blanks-Lead s.gap s.ys s.good.0 (ground (arith, s.good.1));
          ascii = s.ascii;
          walked = s.walked;
          value = s.value;
          ended = s.ended;
          near = s.near;
        })
      ]

  module _ (xs : List ℕ) (l : Lexer S) (clear : l.error ≡ no_error) (fits : Fits xs) where
    -- The end of the text.
    end-Got :
        (q : Lexer S × ℕ) (s : Stop rest Lead xs l q)
        → (char_at s.ys 0 == 0) ≡ true
        → Got S rest xs l (q.0, record { kind = eof_token; str = none }, false)
    unfolding lexed
    end-Got q s e =
        let eq : lexed s.ys ≡ refused eof_token 0 no_error = rw e refl in
        let gap = s.good.ends (ground arith) in
        record {
          gap = s.gap;
          ys = s.ys;
          split = s.split;
          is_gap = gap;
          starts = ground arith;
          token = ap (λ (x : Lexed). x.token) (sym eq);
          returned = ap (λ (x : Lexed). x.returned) (sym eq);
          walked =
              subst
                (λ x.
                  Walked S rest (s.gap ++ take x.size s.ys) (drop x.size s.ys)
                    (record l { error = x.error }) q.0)
                (sym eq)
                (subst (λ t. Walked S rest t s.ys (record l { error = no_error }) q.0)
                  (sym (append-nil s.gap)) (Walked-clear rest s.gap s.ys l q.0 clear s.walked));
        }

    line_Fits :
        (q : Lexer S × ℕ) (s : Stop rest Lead xs l q) (zs : List ℕ) → s.ys ≡ 10 ∷ zs → Fits zs
    line_Fits q s zs d gap ys split is_gap quote =
        fits (s.gap ++ (10 ∷ gap)) ys
          (s.split
            ∙ ap (λ (t : List ℕ). s.gap ++ t) (d ∙ ap (λ (t : List ℕ). 10 ∷ t) split)
            ∙ sym (append_assoc s.gap (10 ∷ gap) ys))
          (s.good.goes_on (10 ∷ gap) ys (space 10 gap refl is_gap) refl) quote

    -- What a call yields on the line behind a newline.
    line-Got :
        (q : Lexer S × ℕ) (s : Stop rest Lead xs l q) (zs : List ℕ) (p : Lexer S × Token × Bool)
        → s.ys ≡ 10 ∷ zs
        → 1 ≤ buffered q.0
        → Got S rest zs (newline q.0) p
        → Got S rest xs l p
    line-Got q s zs p d one g =
        let x = lexed g.ys in
        let w : Walked S rest s.gap (10 ∷ zs) l q.0 =
          subst (λ t. Walked S rest s.gap t l q.0) d s.walked in
        let nl : Walked S rest (10 ∷ []) zs q.0 (newline q.0) =
          newline-Walked rest zs q.0 w.holds one in
        record {
          gap = s.gap ++ (10 ∷ g.gap);
          ys = g.ys;
          split =
              s.split
              ∙ ap (λ (t : List ℕ). s.gap ++ t) (d ∙ ap (λ (t : List ℕ). 10 ∷ t) g.split)
              ∙ sym (append_assoc s.gap (10 ∷ g.gap) g.ys);
          is_gap = s.good.goes_on (10 ∷ g.gap) g.ys (space 10 g.gap refl g.is_gap) refl;
          starts = g.starts;
          token = g.token;
          returned = g.returned;
          walked =
              subst (λ t. Walked S rest t (drop x.size g.ys) (record l { error = x.error }) p.0)
                (sym (append_assoc s.gap (10 ∷ g.gap) (take x.size g.ys)))
                (walk-join rest s.gap (10 ∷ (g.gap ++ take x.size g.ys)) (10 ∷ zs) _ _
                  (record q.0 { error = x.error }) p.0
                  (error-Walked rest s.gap (10 ∷ zs) l q.0 x.error w)
                  (walk-on rest 10 (g.gap ++ take x.size g.ys) zs _ _
                    (record (newline q.0) { error = x.error }) p.0
                    (error-Walked rest (10 ∷ []) zs q.0 (newline q.0) x.error nl) g.walked));
        }

    token-Got :
        (q : Lexer S × ℕ) (s : Stop rest Lead xs l q)
        → (char_at s.ys 0 == 0) ≡ false
        → (char_at s.ys 0 == 10) ≡ false
        → Returns (token_at callback junk q.0 q.1) (Got S rest xs l)
    token-Got q s e f =
        let more : 0 < char_at s.ys 0 = ground arith in
        let code_ : q.1 ≡ char_at s.ys 0 = ground (arith, s.value) in
        let gap = s.good.ends f in
        let starts : opens_gap (char_at s.ys 0) ≡ false = ground (arith, s.good.stops) in
        let at : At S rest s.ys q.0 q.0 1 = record {
          holds = s.walked.holds;
          ofs = refl;
          line_no = refl;
          col_no = refl;
          error = refl;
          near = s.near more;
        } in
        subst (λ c. Returns (token_at callback junk q.0 c) (Got S rest xs l)) (sym code_)
          (Returns-map _ _ (token_at callback junk q.0 (char_at s.ys 0))
            (token_at-IsLexed callback junk rest reader s.ys s.ascii q.0 (s.walked.error ∙ clear)
              q.0 at more (fits s.gap s.ys s.split gap))
            (λ p x. record {
              gap = s.gap;
              ys = s.ys;
              split = s.split;
              is_gap = gap;
              starts = starts;
              token = x.token;
              returned = x.returned;
              walked =
                  walk-join rest s.gap (take (lexed s.ys).size s.ys) s.ys _ _ _ p.0
                    (error-Walked rest s.gap s.ys l q.0 (lexed s.ys).error s.walked) x.walked;
            }))

    -- What a round does behind a gap; `again` is the next round.
    round-Got :
        (fuel bound : ℕ) (q : Lexer S × ℕ)
        → Stop rest Lead xs l q
        → ((zs : List ℕ) (m : Lexer S)
            → length zs < length xs
            → IsAscii zs
            → Fits zs
            → Holds S rest zs m
            → m.error ≡ no_error
            → Returns (token_loop callback junk fuel bound m) (Got S rest zs m))
        → Returns
            (if q.1 == eof
              then some (q.0, record { kind = eof_token; str = none }, false)
              else if q.1 == 10
              then token_loop callback junk fuel bound (newline q.0)
              else token_at callback junk q.0 q.1)
            (Got S rest xs l)
    round-Got fuel bound q s again =
        let c = char_at s.ys 0 in
        let same = code 10 q.1 (omega arith) (omega arith) ∙ ap (λ (v : ℕ). v == 10) s.value in
        elim (Bool-cases (c == 0)) [
          | inl gone ↦ rw (s.ended ∙ gone) (end-Got q s gone)
          | inr there ↦ elim (Bool-cases (c == 10)) [
            | inl nl ↦
                let it : c ≡ 10 = (==_iff c 10).0 nl in
                let zs = drop 1 s.ys in
                let d : s.ys ≡ 10 ∷ zs = (cut_char s.ys 0 10 (omega arith) it (omega arith)).0 in
                let one = s.near (omega arith) in
                let w : Walked S rest (10 ∷ []) zs q.0 (newline q.0) =
                  newline-Walked rest zs q.0 (subst (λ t. Holds S rest t q.0) d s.walked.holds)
                    one in
                let fewer : length zs < length xs =
                  omega (arith, ap length s.split, length-append s.gap s.ys, ap length d) in
                rw (s.ended ∙ there, same ∙ nl)
                  (Returns-map _ _ (token_loop callback junk fuel bound (newline q.0))
                    (again zs (newline q.0) fewer (IsAscii-drop 1 s.ys s.ascii) (line_Fits q s zs d)
                      w.holds (s.walked.error ∙ clear))
                    (λ p g. line-Got q s zs p d one g))
            | inr other ↦ rw (s.ended ∙ there, same ∙ other) (token-Got q s there other)
          ]
        ]

  pub token_loop-Got :
      (fuel bound : ℕ) (xs : List ℕ) (l : Lexer S)
      → length xs < fuel
      → length xs < bound
      → IsAscii xs
      → Fits xs
      → Holds S rest xs l
      → l.error ≡ no_error
      → Returns (token_loop callback junk fuel bound l) (Got S rest xs l)
  unfolding token_loop
  token_loop-Got zero bound xs l f b ascii fits h clear = absurd (omega arith)
  token_loop-Got (suc fuel) bound xs l f b ascii fits h clear =
      Returns-bind _ _ (blank_loop callback junk bound l) _
        (blank_loop-Stop callback junk rest reader bound xs l b ascii h)
        (λ q1 s1.
          Returns-bind _ _ (maybe_comment bound q1.0 q1.1) _
            (maybe_comment-Stop bound xs l q1 (omega arith) s1)
            (λ q s. round-Got xs l clear fits fuel bound q s (λ zs m less ascii fits h clear.
              token_loop-Got fuel bound zs m (omega arith) (omega arith) ascii fits h clear)))

  -- For a callback that reads a stream in order, ASCII text without zeros before which the lexer
  -- stands, where the token is no literal of 256 characters or more, and with fuel for more rounds
  -- than the text has characters, `lexer_token_get` returns: it goes over a gap of blanks, newlines
  -- and comments up to another character and over the token that the text then starts with, which is the
  -- longest of its kind among its first 256 characters, so that a longer word or number is cut there; it
  -- yields this token, the return value and the error of it, with the line and the column that a
  -- walk over these characters leads to.
  pub token_get-Got :
      (fuel : ℕ) (xs : List ℕ) (l : Lexer S)
      → length xs < fuel
      → IsAscii xs
      → Fits xs
      → Holds S rest xs l
      → Returns (token_get callback junk fuel l) (Got S rest xs l)
  unfolding token_get
  token_get-Got fuel xs l f ascii fits h =
      Returns-map _ _ (token_loop callback junk fuel fuel (record l { error = no_error }))
        (token_loop-Got fuel fuel xs (record l { error = no_error }) f f ascii fits
          (record {
            start = h.start;
            room = h.room;
            small = h.small;
            enough = h.enough;
            ring = h.ring;
            beyond = h.beyond;
            closed = h.closed;
          })
          refl)
        (λ p g. record {
          gap = g.gap;
          ys = g.ys;
          split = g.split;
          is_gap = g.is_gap;
          starts = g.starts;
          token = g.token;
          returned = g.returned;
          walked = record {
            holds = g.walked.holds;
            line_no = g.walked.line_no;
            col_no = g.walked.col_no;
            error = g.walked.error;
          };
        })

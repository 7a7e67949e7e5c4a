-- ===== src/Hashtable/Gap.antt =====
-- hashtable.h: a table with a gap, and the entry behind it that moves into the gap.
use htools.Prelude.{
  none-some, ℕ, suc, ◌+◌, ◌-◌, ◌^◌, ◌≤◌, ◌<◌, none, some, Bool, true, false, ltb, ◌==◌,
  if◌then◌else◌, ◌≡◌, ◌↔◌, ◌⊎◌, refl, sym, ap, ap₂, ◌∙◌, inl, inr, Bool-cases, ltb→lt, ltb-false,
  arith, ==_iff,
}
use mathlib.Core.Path.{subst}
use htools.Hashtable.Ops.{Entry, Cells, put}
use htools.Hashtable.Circle.{on, on-lt, on-on, on_around, on_injective, dib-lt, on-dib, dib-on}
use htools.Hashtable.Find.{dib, Ordered}
use htools.Hashtable.Place.{put_self, put_other, some-injective}
use htools.Hashtable.Round.{Stored}

module _ {T K : Type 0} (key : T → K) (hash_ : K → ℕ) (equal : K → K → Bool)
    (equal_iff : (k k' : K) → (equal k k' ≡ true) ↔ (k ≡ k')) (b : ℕ) where
  abbrev dib_at : Entry T → ℕ → ℕ
  dib_at e s = dib key hash_ equal equal_iff b e s

  -- A table in order but for a gap.
  pub record Gapped (a : Cells T) (i : ℕ) : Type 0 where
    pub gap : a i ≡ none
    pub hashed : (s : ℕ) (e : Entry T) → s < 2 ^ b → a s ≡ some e → e.hash ≡ hash_ (key e.t)
    pub chain :
        (s : ℕ) (e : Entry T)
        → s < 2 ^ b
        → a s ≡ some e
        → (k : ℕ) → k < dib_at e s
        → (on b e.hash k ≡ i)
          ⊎ ((f : Entry T) × (a (on b e.hash k) ≡ some f) × (k ≤ dib_at f (on b e.hash k)))
    pub unique :
        (s t : ℕ) (e f : Entry T)
        → s < 2 ^ b
        → t < 2 ^ b
        → a s ≡ some e
        → a t ≡ some f
        → key e.t ≡ key f.t
        → s ≡ t

  -- The table in order with the same entries.
  pub record Closed (a a' : Cells T) : Type 0 where
    pub ordered : Ordered key hash_ equal equal_iff b a'
    pub kept :
        (f : Entry T)
        → Stored key hash_ equal equal_iff b a f
        → Stored key hash_ equal equal_iff b a' f
    pub only :
        (f : Entry T)
        → Stored key hash_ equal equal_iff b a' f
        → Stored key hash_ equal equal_iff b a f

  module _ (small : b < 32) where
    cancel : (x y : ℕ) → x < 2 ^ b → y < 2 ^ b → on b x 1 ≡ on b y 1 → x ≡ y
    cancel x y xl yl e =
        let n = 2 ^ b in
        let whole : 1 + (n - 1) ≡ n = omega (arith, xl) in
        let round : (z : ℕ) → z < n → on b (on b z 1) (n - 1) ≡ z =
          λ z l. on-on b small z 1 (n - 1) ∙ ap (on b z) whole ∙ on_around b small z l in
        sym (round x xl) ∙ ap (λ (z : ℕ). on b z (n - 1)) e ∙ round y yl

    on_one : (h k : ℕ) → on b (on b h k) 1 ≡ on b h (suc k)
    on_one h k = let e : k + 1 ≡ suc k = omega arith in on-on b small h k 1 ∙ ap (on b h) e

    module _ (a : Cells T) (i : ℕ) (i_lt : i < 2 ^ b) (g : Gapped a i) where
      abbrev j : ℕ
      j = on b i 1

      pub j-lt : j < 2 ^ b
      j-lt = on-lt b small i 1

      -- An entry that the gap has cut off has one behind the gap that is as far from its place.
      pub cut_off :
          (s : ℕ) (e : Entry T)
          → s < 2 ^ b
          → a s ≡ some e
          → (k : ℕ) → k < dib_at e s
          → on b e.hash k ≡ i
          → (f : Entry T) × (a j ≡ some f) × (suc k ≤ dib_at f j)
      cut_off s e lt at k less hit =
          let next : on b e.hash (suc k) ≡ j =
            sym (on_one e.hash k) ∙ ap (λ (x : ℕ). on b x 1) hit in
          let d_lt : dib_at e s < 2 ^ b = dib-lt b small e.hash s in
          elim (Bool-cases (ltb (suc k) (dib_at e s))) [
            | inl more ↦ elim (g.chain s e lt at (suc k) (ltb→lt _ _ more)) [
              | inl again ↦
                  let same : suc k ≡ k =
                    on_injective b small e.hash (suc k) k
                      (omega (arith, ltb→lt (suc k) (dib_at e s) more, d_lt))
                      (omega (arith, less, d_lt)) (again ∙ sym hit) in
                  absurd (omega (arith, same))
              | inr (f, there, far) ↦
                  (f, ap a (sym next) ∙ there, subst (λ x. suc k ≤ dib_at f x) next far)
            ]
            | inr last ↦
                let all : suc k ≡ dib_at e s =
                  omega (arith, less, ltb-false (suc k) (dib_at e s) last) in
                let s_j : s ≡ j =
                  sym (on-dib b small e.hash s lt) ∙ ap (on b e.hash) (sym all) ∙ next in
                (e, ap a (sym s_j) ∙ at, subst (λ x. suc k ≤ dib_at e x) s_j (omega (arith, all)))
          ]

      -- Where nothing is cut off, the table is in order.
      pub done : ((f : Entry T) → a j ≡ some f → dib_at f j ≡ 0) → Closed a a
      done none_far = record {
        ordered = record {
          hashed = g.hashed;
          chain = λ s e lt at k less. elim (g.chain s e lt at k less) [
            | inl hit ↦
                let (f, there, far) = cut_off s e lt at k less hit in
                absurd (omega (arith, far, none_far f there))
            | inr x ↦ x
          ];
          unique = g.unique;
        };
        kept = λ f st. st;
        only = λ f st. st;
      }

      module _ (f : Entry T) (at_j : a j ≡ some f) (far : 0 < dib_at f j) where
        abbrev moved : Cells T
        moved = put (put a i (some f)) j none

        abbrev d : ℕ
        d = dib_at f j

        d-lt : d < 2 ^ b
        d-lt = dib-lt b small f.hash j

        pred_d : suc (d - 1) ≡ d
        pred_d = omega (arith, far)

        -- One place closer is the gap.
        closer : on b f.hash (d - 1) ≡ i
        closer =
            cancel (on b f.hash (d - 1)) i (on-lt b small f.hash (d - 1)) i_lt
              (on_one f.hash (d - 1) ∙ ap (on b f.hash) pred_d ∙ on-dib b small f.hash j j-lt)

        dib-i : dib_at f i ≡ d - 1
        dib-i = ap (dib_at f) (sym closer) ∙ dib-on b small f.hash (d - 1) (omega (arith, d-lt))

        i_not_j : (i == j) ≡ false
        i_not_j = elim (Bool-cases (i == j)) [
          | inl same ↦ none-some (sym g.gap ∙ ap a ((==_iff i j).0 same) ∙ at_j)
          | inr other ↦ other
        ]

        moved-j : moved j ≡ none
        moved-j = put_self key hash_ equal equal_iff b small (put a i (some f)) j none

        moved_i : moved i ≡ some f
        moved_i =
            put_other key hash_ equal equal_iff b small (put a i (some f)) j i none i_not_j
            ∙ put_self key hash_ equal equal_iff b small a i (some f)

        moved_other : (s : ℕ) → (s == j) ≡ false → (s == i) ≡ false → moved s ≡ a s
        moved_other s not_j not_i =
            put_other key hash_ equal equal_iff b small (put a i (some f)) j s none not_j
            ∙ put_other key hash_ equal equal_iff b small a i s (some f) not_i

        -- Where an entry was before.
        origin : (s : ℕ) (e : Entry T) → moved s ≡ some e → a (if s == i then j else s) ≡ some e
        origin s e at = elim (Bool-cases (s == i)) [
          | inl here ↦
              let it : s ≡ i = (==_iff s i).0 here in
              rw here (at_j ∙ sym moved_i ∙ ap moved (sym it) ∙ at)
          | inr other ↦ elim (Bool-cases (s == j)) [
            | inl gone ↦ none-some (sym moved-j ∙ ap moved (sym ((==_iff s j).0 gone)) ∙ at)
            | inr not_j ↦ rw other (sym (moved_other s not_j other) ∙ at)
          ]
        ]

        origin-lt : (s : ℕ) → s < 2 ^ b → (if s == i then j else s) < 2 ^ b
        origin-lt s lt = elim (Bool-cases (s == i)) [
          | inl here ↦ rw here j-lt
          | inr other ↦ rw other lt
        ]

        -- An index that was in use is in use, but for the new gap.
        in_use :
            (y k : ℕ) (e : Entry T)
            → a y ≡ some e
            → k ≤ dib_at e y
            → (y ≡ j) ⊎ ((h : Entry T) × (moved y ≡ some h) × (k ≤ dib_at h y))
        in_use y k e at le = elim (Bool-cases (y == j)) [
          | inl gap ↦ inl ((==_iff y j).0 gap)
          | inr not_j ↦ elim (Bool-cases (y == i)) [
            | inl here ↦ none-some (sym g.gap ∙ ap a (sym ((==_iff y i).0 here)) ∙ at)
            | inr not_i ↦ inr (e, moved_other y not_j not_i ∙ at, le)
          ]
        ]

        moved_chain :
            (s : ℕ) (e : Entry T)
            → s < 2 ^ b
            → moved s ≡ some e
            → (k : ℕ) → k < dib_at e s
            → (on b e.hash k ≡ j)
              ⊎ ((h : Entry T) × (moved (on b e.hash k) ≡ some h) × (k ≤ dib_at h (on b e.hash k)))
        moved_chain s e lt at k less = elim (Bool-cases (s == i)) [
          | inl here ↦
              let it : s ≡ i = (==_iff s i).0 here in
              let same : f ≡ e =
                some-injective key hash_ equal equal_iff b small f e
                  (sym moved_i ∙ ap moved (sym it) ∙ at) in
              let near : dib_at e s ≡ d - 1 = ap₂ dib_at (sym same) it ∙ dib-i in
              subst
                (λ (x : Entry T).
                  (on b x.hash k ≡ j)
                  ⊎ ((h : Entry T) × (moved (on b x.hash k) ≡ some h)
                      × (k ≤ dib_at h (on b x.hash k))))
                same
                (elim (g.chain j f j-lt at_j k (omega (arith, near, less))) [
                  | inl hit ↦
                      let off : k ≡ d - 1 =
                        on_injective b small f.hash k (d - 1) (omega (arith, near, less, d-lt))
                          (omega (arith, d-lt)) (hit ∙ sym closer) in
                      absurd (omega (arith, off, near, less))
                  | inr (h, there, le) ↦ in_use (on b f.hash k) k h there le
                ])
          | inr other ↦
              let was : a s ≡ some e = (rw other refl) ∙ origin s e at in
              elim (g.chain s e lt was k less) [
                | inl hit ↦
                    let (h, there, le) = cut_off s e lt was k less hit in
                    let same : h ≡ f =
                      some-injective key hash_ equal equal_iff b small h f (sym there ∙ at_j) in
                    let le' : suc k ≤ d = subst (λ (x : Entry T). suc k ≤ dib_at x j) same le in
                    inr (
                      subst (λ y. (x : Entry T) × (moved y ≡ some x) × (k ≤ dib_at x y)) (sym hit)
                        (f, moved_i, omega (arith, le', dib-i)))
                | inr (h, there, le) ↦ in_use (on b e.hash k) k h there le
              ]
        ]

        moved_unique :
            (s t : ℕ) (e h : Entry T)
            → s < 2 ^ b
            → t < 2 ^ b
            → moved s ≡ some e
            → moved t ≡ some h
            → key e.t ≡ key h.t
            → s ≡ t
        moved_unique s t e h sl tl p q same =
            let slots =
              g.unique _ _ e h (origin-lt s sl) (origin-lt t tl) (origin s e p) (origin t h q)
                same in
            elim (Bool-cases (s == i)) [
              | inl s_i ↦ elim (Bool-cases (t == i)) [
                | inl t_i ↦ (==_iff s i).0 s_i ∙ sym ((==_iff t i).0 t_i)
                | inr t_other ↦
                    let it : j ≡ t = (rw s_i refl) ∙ slots ∙ (rw t_other refl) in
                    none-some (sym moved-j ∙ ap moved it ∙ q)
              ]
              | inr s_other ↦ elim (Bool-cases (t == i)) [
                | inl t_i ↦
                    let it : s ≡ j = (rw s_other refl) ∙ slots ∙ (rw t_i refl) in
                    none-some (sym moved-j ∙ ap moved (sym it) ∙ p)
                | inr t_other ↦ (rw s_other refl) ∙ slots ∙ (rw t_other refl)
              ]
            ]

        pub moved-Gapped : Gapped moved j
        moved-Gapped = record {
          gap = moved-j;
          hashed =
              λ s e lt at. g.hashed (if s == i then j else s) e (origin-lt s lt) (origin s e at);
          chain = moved_chain;
          unique = moved_unique;
        }

        pub moved_kept :
            (e : Entry T)
            → Stored key hash_ equal equal_iff b a e
            → Stored key hash_ equal equal_iff b moved e
        moved_kept e (s, lt, at) = elim (Bool-cases (s == j)) [
          | inl here ↦ (i, i_lt, moved_i ∙ sym at_j ∙ ap a (sym ((==_iff s j).0 here)) ∙ at)
          | inr not_j ↦ elim (Bool-cases (s == i)) [
            | inl gap ↦ none-some (sym g.gap ∙ ap a (sym ((==_iff s i).0 gap)) ∙ at)
            | inr not_i ↦ (s, lt, moved_other s not_j not_i ∙ at)
          ]
        ]

        pub moved_only :
            (e : Entry T)
            → Stored key hash_ equal equal_iff b moved e
            → Stored key hash_ equal equal_iff b a e
        moved_only e (s, lt, at) = ((if s == i then j else s), origin-lt s lt, origin s e at)

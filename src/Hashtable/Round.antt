-- ===== src/Hashtable/Round.antt =====
-- hashtable.h: a round of `insert_` with an element whose key is not in the table.
use htools.Prelude.{
  none-some, true-false, ℕ, suc, ◌+◌, ◌-◌, ◌^◌, ◌≤◌, ◌<◌, Option, none, some, Bool, true, ltb, ◌==◌,
  ◌≡◌, ◌≢◌, ◌↔◌, ◌⊎◌, refl, sym, ap, ◌∙◌, inl, inr, Bool-cases, ltb→lt, ltb-false, arith, u32,
  ==_iff,
}
use mathlib.Core.Path.{subst}
use htools.Hashtable.Ops.{Entry, Cells, dib_of, put, or_entry}
use htools.Hashtable.Circle.{
  on, on-lt, on-on, on_around, on_start, on_apart, dib-lt, on-dib, dib-on,
}
use htools.Hashtable.Find.{dib, Ordered}
use htools.Hashtable.Place.{Passed, put_self, put_other, some-injective, still, placed-Ordered}

module _ {T K : Type 0} (key : T → K) (hash_ : K → ℕ) (equal : K → K → Bool)
    (equal_iff : (k k' : K) → (equal k k' ≡ true) ↔ (k ≡ k')) (b : ℕ) where
  abbrev pub dib_at : Entry T → ℕ → ℕ
  dib_at e s = dib key hash_ equal equal_iff b e s

  -- An entry is one of the table.
  abbrev pub Stored : Cells T → Entry T → Type 0
  Stored a e = (s : ℕ) × (s < 2 ^ b) × (a s ≡ some e)

  -- The table in order that has the entries of the one before and a new one, and no other.
  pub record Inserted (a : Cells T) (e : Entry T) (a' : Cells T) : Type 0 where
    pub ordered : Ordered key hash_ equal equal_iff b a'
    pub kept : (f : Entry T) → Stored a f → Stored a' f
    pub added : Stored a' e
    pub only : (f : Entry T) → Stored a' f → Stored a f ⊎ (f ≡ e)

  -- The index returned: that of the new entry, unless an earlier round has chosen one.
  abbrev pub Chosen : Option ℕ → Entry T → Cells T → ℕ → Type 0
  Chosen none e a r = (r < 2 ^ b) × (a r ≡ some e)
  Chosen (some s) e a r = r ≡ s

  abbrev pub Fresh : Cells T → Entry T → Type 0
  Fresh a e = (s : ℕ) (f : Entry T) → s < 2 ^ b → a s ≡ some f → key f.t ≢ key e.t

  module _ (small : b < 32) where
    -- A round at the offset `j` of an entry, `m` before a free entry.
    pub record Round (a : Cells T) (e : Entry T) (j m : ℕ) : Type 0 where
      pub ordered : Ordered key hash_ equal equal_iff b a
      pub own : e.hash ≡ hash_ (key e.t)
      pub passed : Passed key hash_ equal equal_iff b small a e j
      pub fresh : Fresh a e
      pub near : m < 2 ^ b
      pub free_ : a (on b (on b e.hash j) m) ≡ none

    -- What the rounds from `j` on yield.
    pub record Rounds (a : Cells T) (e : Entry T) (j m num : ℕ) (ret : Option ℕ)
        (r : Cells T × ℕ × ℕ) : Type 0 where
      pub inserted : Inserted a e r.0
      pub num_ : r.1 ≡ u32 (num + 1)
      pub chosen : Chosen ret e r.0 r.2
      pub same :
          (x : ℕ) → m < x → x < 2 ^ b → r.0 (on b (on b e.hash j) x) ≡ a (on b (on b e.hash j) x)

    -- Not all entries have been passed, since one is free.
    pub Round-lt : (a : Cells T) (e : Entry T) (j m : ℕ) → Round a e j m → j < 2 ^ b
    Round-lt a e j m r = elim (Bool-cases (ltb j (2 ^ b))) [
      | inl low ↦ ltb→lt _ _ low
      | inr high ↦
          let z = on b (on b e.hash j) m in
          let z_lt : z < 2 ^ b = on-lt b small (on b e.hash j) m in
          let d = dib_of (2 ^ b - 1) e.hash z in
          let d_lt : d < 2 ^ b = dib-lt b small e.hash z in
          let (f, there, _) = r.passed d (omega (arith, d_lt, ltb-false j (2 ^ b) high)) in
          none-some (sym r.free_ ∙ ap a (sym (on-dib b small e.hash z z_lt)) ∙ there)
    ]

    module _ (a : Cells T) (e : Entry T) (j m : ℕ) (r : Round a e j m) where
      abbrev cur : ℕ
      cur = on b e.hash j

      abbrev placed : Cells T
      placed = put a cur (some e)

      cur-lt : cur < 2 ^ b
      cur-lt = on-lt b small e.hash j

      Ordered-after :
          ((f : Entry T) → a cur ≡ some f → dib_at f cur ≤ j)
          → Ordered key hash_ equal equal_iff b placed
      Ordered-after closer =
          placed-Ordered key hash_ equal equal_iff b small a r.ordered e j (Round-lt a e j m r)
            r.own r.passed closer (λ s f lt _. r.fresh s f lt)

      keep : (f : Entry T) → Stored a f → Stored placed f ⊎ (a cur ≡ some f)
      keep f (s, lt, there) = elim (Bool-cases (s == cur)) [
        | inl here ↦ inr (ap a (sym ((==_iff s cur).0 here)) ∙ there)
        | inr other ↦
            inl (s, lt, put_other key hash_ equal equal_iff b small a cur s (some e) other ∙ there)
      ]

      back : (f : Entry T) → Stored placed f → Stored a f ⊎ (f ≡ e)
      back f (s, lt, there) = elim (Bool-cases (s == cur)) [
        | inl here ↦ inr (
            sym (
              some-injective key hash_ equal equal_iff b small e f (
                sym (put_self key hash_ equal equal_iff b small a cur (some e))
                ∙ ap placed (sym ((==_iff s cur).0 here))
                ∙ there)))
        | inr other ↦ inl (
          s,
          lt,
          sym (put_other key hash_ equal equal_iff b small a cur s (some e) other) ∙ there,
        )
      ]

      here : placed cur ≡ some e
      here = put_self key hash_ equal equal_iff b small a cur (some e)

      Chosen-now : (ret : Option ℕ) → Chosen ret e placed (or_entry ret cur)
      Chosen-now none = (cur-lt, here)
      Chosen-now (some s) = refl

      pub empty-Rounds :
          (num : ℕ) (ret : Option ℕ)
          → a cur ≡ none
          → Rounds a e j m num ret (placed, u32 (num + 1), or_entry ret cur)
      empty-Rounds num ret gone = record {
        inserted = record {
          ordered = Ordered-after (λ f there. none-some (sym gone ∙ there));
          kept =
              λ f st. elim (keep f st) [ inl st' ↦ st' | inr there ↦ none-some (sym gone ∙ there) ];
          added = (cur, cur-lt, here);
          only = back;
        };
        num_ = refl;
        chosen = Chosen-now ret;
        same = λ x more less.
            put_other key hash_ equal equal_iff b small a cur (on b cur x) (some e)
              (on_apart b small cur x cur-lt (omega (arith, more)) less);
      }

      module _ (f : Entry T) (full : a cur ≡ some f) where
        -- The free entry is further on.
        pub further : 0 < m
        further = elim (Bool-cases (ltb 0 m)) [
          | inl more ↦ ltb→lt 0 m more
          | inr none_ ↦
              let zero_ : m ≡ 0 = omega (arith, ltb-false 0 m none_) in
              none-some (
                sym r.free_
                ∙ ap (λ (x : ℕ). a (on b cur x)) zero_
                ∙ ap a (on_start b small cur cur-lt)
                ∙ full)
        ]

        -- The free entry, counted from the next index.
        on_next : (x : ℕ) → on b (on b e.hash (suc j)) x ≡ on b cur (suc x)
        on_next x =
            let e' : suc j + x ≡ j + suc x = omega arith in
            on-on b small e.hash (suc j) x
            ∙ ap (on b e.hash) e'
            ∙ sym (on-on b small e.hash j (suc x))

        pred_m : suc (m - 1) ≡ m
        pred_m = omega (arith, further)

        -- On to the next index, where the entry there is no closer to its place.
        pub go_on : j ≤ dib_at f cur → Round a e (suc j) (m - 1)
        go_on far = record {
          ordered = r.ordered;
          own = r.own;
          passed = λ i lt. elim (Bool-cases (i == j)) [
            | inl now ↦
                let it : j ≡ i = sym ((==_iff i j).0 now) in
                subst
                  (λ n.
                    (g : Entry T) × (a (on b e.hash n) ≡ some g) × (n ≤ dib_at g (on b e.hash n)))
                  it (f, full, far)
            | inr before ↦ r.passed i (ground arith)
          ];
          fresh = r.fresh;
          near = omega (arith, r.near);
          free_ = ap a (on_next (m - 1)) ∙ ap (λ (x : ℕ). a (on b cur x)) pred_m ∙ r.free_;
        }

        pub went_on :
            (num : ℕ) (ret : Option ℕ) (q : Cells T × ℕ × ℕ)
            → Rounds a e (suc j) (m - 1) num ret q
            → Rounds a e j m num ret q
        went_on num ret q t = record {
          inserted = t.inserted;
          num_ = t.num_;
          chosen = t.chosen;
          same = λ x more less.
              let x' : suc (x - 1) ≡ x = omega (arith, more) in
              let there : on b (on b e.hash (suc j)) (x - 1) ≡ on b cur x =
                on_next (x - 1) ∙ ap (on b cur) x' in
              ap q.0 (sym there)
              ∙ t.same (x - 1) (omega (arith, more, further)) (omega (arith, less))
              ∙ ap a there;
        }

        module _ (closer : dib_at f cur < j) where
          abbrev d : ℕ
          d = dib_at f cur

          pub home : on b f.hash d ≡ cur
          home = on-dib b small f.hash cur cur-lt

          on_swap : (x : ℕ) → on b (on b f.hash (suc d)) x ≡ on b cur (suc x)
          on_swap x =
              let e' : suc d + x ≡ d + suc x = omega arith in
              on-on b small f.hash (suc d) x
              ∙ ap (on b f.hash) e'
              ∙ sym (on-on b small f.hash d (suc x))
              ∙ ap (λ (c : ℕ). on b c (suc x)) home

          closer_here : (g : Entry T) → a cur ≡ some g → dib_at g cur ≤ j
          closer_here g there =
              let same : f ≡ g =
                some-injective key hash_ equal equal_iff b small f g (sym full ∙ there) in
              subst (λ (x : Entry T). dib_at x cur ≤ j) same (omega (arith, closer))

          Passed-on : Passed key hash_ equal equal_iff b small placed f (suc d)
          Passed-on i lt = elim (Bool-cases (i == d)) [
            | inl now ↦
                let it : i ≡ d = (==_iff i d).0 now in
                let at : on b f.hash i ≡ cur = ap (on b f.hash) it ∙ home in
                let far : dib_at e (on b f.hash i) ≡ j =
                  ap (dib_at e) at ∙ dib-on b small e.hash j (Round-lt a e j m r) in
                (e, ap placed at ∙ here, omega (arith, it, far, closer))
            | inr before ↦
                let (g, there, le) = r.ordered.chain cur f cur-lt full i (ground arith) in
                still key hash_ equal equal_iff b small a r.ordered e j (Round-lt a e j m r) r.own
                  r.passed closer_here (λ s h l _. r.fresh s h l) (on b f.hash i) i g there le
          ]

          fresh_on : Fresh placed f
          fresh_on s g lt there q = elim (Bool-cases (s == cur)) [
            | inl now ↦
                let it : s ≡ cur = (==_iff s cur).0 now in
                let same : e ≡ g =
                  some-injective key hash_ equal equal_iff b small e g
                    (sym here ∙ ap placed (sym it) ∙ there) in
                r.fresh cur f cur-lt full (sym q ∙ ap (λ (x : Entry T). key x.t) (sym same))
            | inr other ↦
                let was : a s ≡ some g =
                  sym (put_other key hash_ equal equal_iff b small a cur s (some e) other)
                  ∙ there in
                let it : s ≡ cur = r.ordered.unique s cur g f lt cur-lt was full q in
                true-false (sym ((==_iff s cur).1 it) ∙ other)
          ]

          same_there : (x : ℕ) → 0 < x → x < 2 ^ b → placed (on b cur x) ≡ a (on b cur x)
          same_there x pos less =
              put_other key hash_ equal equal_iff b small a cur (on b cur x) (some e)
                (on_apart b small cur x cur-lt pos less)

          -- The entry there is closer, and is carried on in its place.
          pub swapped : Round placed f (suc (dib_at f cur)) (m - 1)
          swapped = record {
            ordered = Ordered-after closer_here;
            own = r.ordered.hashed cur f cur-lt full;
            passed = Passed-on;
            fresh = fresh_on;
            near = omega (arith, r.near);
            free_ =
                ap placed (on_swap (m - 1) ∙ ap (on b cur) pred_m)
                ∙ same_there m further r.near
                ∙ r.free_;
          }

          module _ (num : ℕ) (q : Cells T × ℕ × ℕ) where
            Chosen-back :
                (ret : Option ℕ)
                → Rounds placed f (suc (dib_at f cur)) (m - 1) num (some (or_entry ret cur)) q
                → Chosen ret e q.0 q.2
            Chosen-back (some s) t = t.chosen
            Chosen-back none t =
                let it : q.2 ≡ cur = t.chosen in
                let n = 2 ^ b in
                let around : suc (n - 1) ≡ n = omega (arith, cur-lt) in
                let at : on b (on b f.hash (suc d)) (n - 1) ≡ cur =
                  on_swap (n - 1) ∙ ap (on b cur) around ∙ on_around b small cur cur-lt in
                let kept_here : q.0 cur ≡ placed cur =
                  ap q.0 (sym at)
                  ∙ t.same (n - 1) (omega (arith, further, r.near)) (omega (arith, cur-lt))
                  ∙ ap placed at in
                (omega (arith, it, cur-lt), ap q.0 it ∙ kept_here ∙ here)

            pub swapped_back :
                (ret : Option ℕ)
                → Rounds placed f (suc (dib_at f cur)) (m - 1) num (some (or_entry ret cur)) q
                → Rounds a e j m num ret q
            swapped_back ret t = record {
              inserted = record {
                ordered = t.inserted.ordered;
                kept = λ g st. elim (keep g st) [
                  | inl st' ↦ t.inserted.kept g st'
                  | inr there ↦
                      subst (Stored q.0)
                        (some-injective key hash_ equal equal_iff b small f g (sym full ∙ there))
                        t.inserted.added
                ];
                added = t.inserted.kept e (cur, cur-lt, here);
                only = λ g st. elim (t.inserted.only g st) [
                  | inl st' ↦ back g st'
                  | inr it ↦ inl (cur, cur-lt, full ∙ ap some (sym it))
                ];
              };
              num_ = t.num_;
              chosen = Chosen-back ret t;
              same = λ x more less.
                  let x' : suc (x - 1) ≡ x = omega (arith, more) in
                  let there : on b (on b f.hash (suc d)) (x - 1) ≡ on b cur x =
                    on_swap (x - 1) ∙ ap (on b cur) x' in
                  ap q.0 (sym there)
                  ∙ t.same (x - 1) (omega (arith, more, further)) (omega (arith, less))
                  ∙ ap placed there
                  ∙ same_there x (omega (arith, more)) less;
            }

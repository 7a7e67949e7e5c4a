-- ===== src/Hashtable/Erase.antt =====
-- hashtable.h: `erase`, which moves the entries behind the gap back.
use htools.Prelude.{
  some-cases, none-some, true-false, ℕ, zero, suc, ◌+◌, ◌-◌, ◌^◌, ◌≤◌, ◌<◌, bit_and, Option, none,
  some, Bool, true, false, ◌==◌, ◌≡◌, ◌≢◌, ◌↔◌, refl, sym, ap, ◌∙◌, inl, inr, Bool-cases, arith,
  add_size, Returns, Returns-bind, Returns-map, ==_iff,
}
use htools.Hashtable.Ops.{Entry, Cells, dib_of, put, erase_loop, erase}
use htools.Hashtable.Circle.{on, on-lt, on-suc, on-on, on_start, on_apart, dib-lt, on-dib}
use htools.Hashtable.Find.{dib, Ordered}
use htools.Hashtable.Place.{put_self, put_other, some-injective}
use htools.Hashtable.Round.{Stored}
use htools.Hashtable.Gap.{Gapped, Closed, done, moved-Gapped, moved_kept, moved_only}

module _ {T K : Type 0} (key : T → K) (hash_ : K → ℕ) (equal : K → K → Bool)
    (equal_iff : (k k' : K) → (equal k k' ≡ true) ↔ (k ≡ k')) (b : ℕ) where
  next : (small : b < 32) (i : ℕ) → i < 2 ^ b → bit_and (add_size i 1) (2 ^ b - 1) ≡ on b i 1
  next small i lt =
      ap (λ (x : ℕ). bit_and (add_size x 1) (2 ^ b - 1)) (sym (on_start b small i lt))
      ∙ on-suc b small i 0

  -- The free entry is behind the one that moves.
  behind :
      (a : Cells T) (i m : ℕ) (e : Entry T)
      → 0 < m
      → a (on b i m) ≡ none
      → a (on b i 1) ≡ some e
      → 1 < m
  behind a i m e pos free_ full = elim (Bool-cases (m == 1)) [
    | inl one ↦ none-some (sym free_ ∙ ap (λ (x : ℕ). a (on b i x)) ((==_iff m 1).0 one) ∙ full)
    | inr more ↦ ground arith
  ]

  still_free :
      (small : b < 32) (a : Cells T) (i m : ℕ) (e : Option (Entry T))
      → i < 2 ^ b
      → 1 < m
      → m < 2 ^ b
      → a (on b i m) ≡ none
      → put (put a i e) (on b i 1) none (on b (on b i 1) (m - 1)) ≡ none
  still_free small a i m e lt more less free_ =
      let z = on b i m in
      let sum : 1 + (m - 1) ≡ m = omega arith in
      let at : on b (on b i 1) (m - 1) ≡ z = on-on b small i 1 (m - 1) ∙ ap (on b i) sum in
      ap (put (put a i e) (on b i 1) none) at ∙ elim (Bool-cases (z == on b i 1)) [
        | inl gap ↦ rw gap refl
        | inr other ↦ rw (other, on_apart b small i m lt (omega arith) less) free_
      ]

  erase_loop-Closed :
      (small : b < 32) (fuel m i : ℕ) (a : Cells T)
      → i < 2 ^ b
      → Gapped key hash_ equal equal_iff b a i
      → 0 < m
      → m < 2 ^ b
      → a (on b i m) ≡ none
      → m ≤ fuel
      → Returns
          (erase_loop key hash_ equal fuel (2 ^ b - 1) a i)
          (Closed key hash_ equal equal_iff b a)
  unfolding erase_loop
  erase_loop-Closed small zero m i a i_lt g pos m_lt free_ f = absurd (omega arith)
  erase_loop-Closed small (suc fuel) m i a i_lt g pos m_lt free_ f =
      elim (some-cases (a (on b i 1))) [
        | inl gone ↦
            rw (Returns, next small i i_lt, gone)
              (done key hash_ equal equal_iff b small a i i_lt g
                (λ x there. none-some (sym gone ∙ there)))
        | inr (e, full) ↦
            let j = on b i 1 in
            let d = dib key hash_ equal equal_iff b e j in
            let more = behind a i m e pos free_ full in
            elim (Bool-cases (d == 0)) [
              | inl home ↦
                  rw (Returns, next small i i_lt, full, next small i i_lt, home)
                    (done key hash_ equal equal_iff b small a i i_lt g
                      (λ x there. home_too j e x full there ((==_iff d 0).0 home)))
              | inr away ↦
                  rw (Returns, next small i i_lt, full, next small i i_lt, away)
                    (Returns-map
                      (Closed key hash_ equal equal_iff b (put (put a i (some e)) j none)) _
                      (erase_loop key hash_ equal fuel (2 ^ b - 1) (put (put a i (some e)) j none)
                        j)
                      (erase_loop-Closed small fuel (m - 1) j (put (put a i (some e)) j none)
                        (on-lt b small i 1)
                        (moved-Gapped key hash_ equal equal_iff b small a i i_lt g e full
                          (ground arith))
                        (omega (arith, more)) (omega arith)
                        (still_free small a i m (some e) i_lt more m_lt free_) (omega arith))
                      (λ q c. record {
                        ordered = c.ordered;
                        kept = λ x st. c.kept x (
                            moved_kept key hash_ equal equal_iff b small a i i_lt g e full
                              (ground arith) x st);
                        only = λ x st.
                            moved_only key hash_ equal equal_iff b small a i i_lt g e full
                              (ground arith) x (c.only x st);
                      }))
            ]
      ]
    where
      home_too :
          (j : ℕ) (e x : Entry T)
          → a j ≡ some e
          → a j ≡ some x
          → dib key hash_ equal equal_iff b e j ≡ 0
          → dib key hash_ equal equal_iff b x j ≡ 0
      home_too j e x p q h =
          ap (λ (y : Entry T). dib key hash_ equal equal_iff b y j)
            (some-injective key hash_ equal equal_iff b small x e (sym q ∙ p))
          ∙ h

  -- The table in order without an entry, and with all others.
  pub record Erased (a : Cells T) (e : Entry T) (a' : Cells T) : Type 0 where
    pub ordered : Ordered key hash_ equal equal_iff b a'
    pub kept :
        (f : Entry T)
        → Stored key hash_ equal equal_iff b a f
        → key f.t ≢ key e.t
        → Stored key hash_ equal equal_iff b a' f
    pub only :
        (f : Entry T)
        → Stored key hash_ equal equal_iff b a' f
        → Stored key hash_ equal equal_iff b a f × (key f.t ≢ key e.t)

  module _ (a : Cells T) (o : Ordered key hash_ equal equal_iff b a) (small : b < 32) (i : ℕ)
      (e : Entry T) (lt : i < 2 ^ b) (at : a i ≡ some e) where
    abbrev holed : Cells T
    holed = put a i none

    holed_in : (s : ℕ) (f : Entry T) → holed s ≡ some f → ((s == i) ≡ false) × (a s ≡ some f)
    holed_in s f there = elim (Bool-cases (s == i)) [
      | inl here ↦ none-some (
          sym (put_self key hash_ equal equal_iff b small a i none)
          ∙ ap holed (sym ((==_iff s i).0 here))
          ∙ there)
      | inr other ↦
          (other, sym (put_other key hash_ equal equal_iff b small a i s none other) ∙ there)
    ]

    holed-Gapped : Gapped key hash_ equal equal_iff b holed i
    holed-Gapped = record {
      gap = put_self key hash_ equal equal_iff b small a i none;
      hashed = λ s f l there. o.hashed s f l (holed_in s f there).1;
      chain = λ s f l there k less.
          let (h, full, far) = o.chain s f l (holed_in s f there).1 k less in
          elim (Bool-cases (on b f.hash k == i)) [
            | inl here ↦ inl ((==_iff (on b f.hash k) i).0 here)
            | inr other ↦ inr (
              h,
              put_other key hash_ equal equal_iff b small a i (on b f.hash k) none other ∙ full,
              far,
            )
          ];
      unique = λ s t f h sl tl p q. o.unique s t f h sl tl (holed_in s f p).1 (holed_in t h q).1;
    }

    Closed-Erased : (a' : Cells T) → Closed key hash_ equal equal_iff b holed a' → Erased a e a'
    Closed-Erased a' c = record {
      ordered = c.ordered;
      kept = λ f st other.
          let (s, l, there) = st in
          c.kept f (elim (Bool-cases (s == i)) [
            | inl here ↦
                let same : f ≡ e =
                  some-injective key hash_ equal equal_iff b small f e
                    (sym there ∙ ap a ((==_iff s i).0 here) ∙ at) in
                absurd (other (ap (λ (x : Entry T). key x.t) same))
            | inr apart ↦
                (s, l, put_other key hash_ equal equal_iff b small a i s none apart ∙ there)
          ]);
      only = λ f st.
          let (s, l, there) = c.only f st in
          let (apart, there') = holed_in s f there in
          (
            (s, l, there'),
            λ same.
                true-false (sym ((==_iff s i).1 (o.unique s i f e l lt there' at same)) ∙ apart),
          );
    }

    -- On a table of 2 ^ b entries in order with a free one, `erase` of an entry returns, with fuel for as many rounds as
    -- there are entries: it frees the element of the entry, and the table is in order and has all elements
    -- with other keys and no other; the count of the elements stays as it was.
    pub erase-Erased :
        (fuel num free_ : ℕ)
        → free_ < 2 ^ b
        → a free_ ≡ none
        → 2 ^ b ≤ fuel
        → Returns
            (erase key hash_ equal fuel (record { mask = 2 ^ b - 1; num = num; array = some a }) i)
            (λ q.
              (q.1 ≡ e.t)
              × (q.0.num ≡ num)
              × (q.0.mask ≡ 2 ^ b - 1)
              × ((a' : Cells T) × (q.0.array ≡ some a') × Erased a e a'))
    unfolding erase
    erase-Erased fuel num free_ free_lt gone f =
        let m = dib_of (2 ^ b - 1) i free_ in
        let m_lt : m < 2 ^ b = dib-lt b small i free_ in
        let there : on b i m ≡ free_ = on-dib b small i free_ free_lt in
        let some_way : 0 < m = elim (Bool-cases (m == 0)) [
          | inl zero_ ↦
              let it : m ≡ 0 = (==_iff m 0).0 zero_ in
              let here : free_ ≡ i = sym there ∙ ap (on b i) it ∙ on_start b small i lt in
              none-some (sym gone ∙ ap a here ∙ at)
          | inr more ↦ ground arith
        ] in
        let still : holed free_ ≡ none = elim (Bool-cases (free_ == i)) [
          | inl here ↦ rw here refl
          | inr other ↦ put_other key hash_ equal equal_iff b small a i free_ none other ∙ gone
        ] in
        rw at (
          Returns-bind (Closed key hash_ equal equal_iff b holed) _
            (erase_loop key hash_ equal fuel (2 ^ b - 1) holed i)
            (λ a'. some ((record { mask = 2 ^ b - 1; num = num; array = some a' }), e.t))
            (erase_loop-Closed small fuel m i holed lt holed-Gapped some_way m_lt
              (ap holed there ∙ still) (omega (arith, m_lt, f)))
            (λ a' c. (refl, refl, refl, (a', refl, Closed-Erased a' c))))

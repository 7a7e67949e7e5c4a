-- ===== src/Hashtable/Find.antt =====
-- hashtable.h: a table in order, and what `find` finds in it.
use htools.Prelude.{
  some-cases, none-some, true-false, ℕ, zero, suc, ◌+◌, ◌-◌, ◌^◌, ◌≤◌, ◌<◌, bit_and, Option, none,
  some, Bool, true, false, ltb, ◌==◌, ◌&&◌, ◌≡◌, ◌≢◌, ◌↔◌, refl, sym, ap, ◌∙◌, inl, inr, Bool-cases,
  ltb→lt, ltb-false, arith, add_size, Returns, ==_iff,
}
use htools.Hashtable.Ops.{Entry, Cells, dib_of, find_loop, find}
use htools.Hashtable.Circle.{on, on-lt, on-zero, on-suc, dib-lt, on-dib}

module _ {T K : Type 0} (key : T → K) (hash_ : K → ℕ) (equal : K → K → Bool)
    (equal_iff : (k k' : K) → (equal k k' ≡ true) ↔ (k ≡ k')) (b : ℕ) where
  abbrev pub dib : Entry T → ℕ → ℕ
  dib e s = dib_of (2 ^ b - 1) e.hash s

  -- A table of 2 ^ b entries in order: an entry stands behind the place of its hash with none
  -- between them that is empty, or closer to its own place than the entry would be there.
  pub record Ordered (a : Cells T) : Type 0 where
    pub hashed : (s : ℕ) (e : Entry T) → s < 2 ^ b → a s ≡ some e → e.hash ≡ hash_ (key e.t)
    pub chain :
        (s : ℕ) (e : Entry T)
        → s < 2 ^ b
        → a s ≡ some e
        → (k : ℕ) → k < dib e s
        → (f : Entry T) × (a (on b e.hash k) ≡ some f) × (k ≤ dib f (on b e.hash k))
    pub unique :
        (s t : ℕ) (e f : Entry T)
        → s < 2 ^ b
        → t < 2 ^ b
        → a s ≡ some e
        → a t ≡ some f
        → key e.t ≡ key f.t
        → s ≡ t

  -- An element with the key is at the index, or there is none.
  abbrev pub Finds : Cells T → K → Option ℕ → Type 0
  Finds a k none = (s : ℕ) (e : Entry T) → s < 2 ^ b → a s ≡ some e → key e.t ≢ k
  Finds a k (some s) = (s < 2 ^ b) × ((e : Entry T) × (a s ≡ some e) × (key e.t ≡ k))

  abbrev pub matches : K → Entry T → Bool
  matches k e = hash_ k == e.hash && equal k (key e.t)

  pub matches-key : (k : K) (e : Entry T) → matches k e ≡ true → key e.t ≡ k
  matches-key k e h =
      sym ((equal_iff k (key e.t)).0 (right (hash_ k == e.hash) (equal k (key e.t)) h))
    where
      right : (x y : Bool) → (x && y) ≡ true → y ≡ true
      right true y h = h
      right false y h = true-false (sym h)

  pub key-matches :
      (k : K) (e : Entry T) → e.hash ≡ hash_ (key e.t) → key e.t ≡ k → matches k e ≡ true
  key-matches k e h q =
      let same : hash_ k ≡ e.hash = ap hash_ (sym q) ∙ sym h in
      let hashes : (hash_ k == e.hash) ≡ true = (==_iff (hash_ k) e.hash).1 same in
      let keys : equal k (key e.t) ≡ true = (equal_iff k (key e.t)).1 (sym q) in
      rw (hashes, keys) refl

  module _ (small : b < 32) (a : Cells T) (o : Ordered a) (k : K) where
    -- None of the entries before the offset `j` has the key.
    abbrev Missed : ℕ → Type 0
    Missed j = (i : ℕ) (e : Entry T) → i < j → a (on b (hash_ k) i) ≡ some e → key e.t ≢ k

    Missed-Finds : (j : ℕ) → a (on b (hash_ k) j) ≡ none → j < 2 ^ b → Missed j → Finds a k none
    Missed-Finds j gone lt miss s e s_lt at q =
        let h = hash_ k in
        let same : e.hash ≡ h = o.hashed s e s_lt at ∙ ap hash_ q in
        let d = dib e s in
        let back : on b e.hash d ≡ s = on-dib b small e.hash s s_lt in
        let back' : on b h d ≡ s = ap (λ (x : ℕ). on b x d) (sym same) ∙ back in
        elim (Bool-cases (ltb d j)) [
          | inl before ↦ miss d e (ltb→lt d j before) (ap a back' ∙ at) q
          | inr past ↦ elim (Bool-cases (ltb j d)) [
            | inl behind ↦
                let (f, there, _) = o.chain s e s_lt at j (ltb→lt j d behind) in
                none-some (sym gone ∙ ap (λ (x : ℕ). a (on b x j)) (sym same) ∙ there)
            | inr equal_ ↦
                let here : j ≡ d = omega (arith, ltb-false d j past, ltb-false j d equal_) in
                none-some (sym gone ∙ ap (λ (x : ℕ). a (on b h x)) here ∙ ap a back' ∙ at)
          ]
        ]

    other-key : (s : ℕ) (e : Entry T) → s < 2 ^ b → a s ≡ some e → matches k e ≡ false → key e.t ≢ k
    other-key s e lt at other q = true-false (sym (key-matches k e (o.hashed s e lt at) q) ∙ other)

    Missed-suc :
        (j : ℕ) (e : Entry T)
        → a (on b (hash_ k) j) ≡ some e
        → matches k e ≡ false
        → Missed j
        → Missed (suc j)
    Missed-suc j e full other miss i f lt there q = elim (Bool-cases (i == j)) [
      | inl here ↦
          let it : i ≡ j = (==_iff i j).0 here in
          other-key (on b (hash_ k) j) f (on-lt b small (hash_ k) j)
            (ap (λ (x : ℕ). a (on b (hash_ k) x)) (sym it) ∙ there)
            (sym (
                ap (λ (x : Option (Entry T)). matches_of e x)
                  (sym full ∙ ap (λ (x : ℕ). a (on b (hash_ k) x)) (sym it) ∙ there))
              ∙ other)
            q
      | inr apart ↦ miss i f (ground arith) there q
    ]
      where
        matches_of : Entry T → Option (Entry T) → Bool
        matches_of e none = matches k e
        matches_of e (some f) = matches k f

    ahead :
        (j m : ℕ) (e : Entry T)
        → a (on b (hash_ k) m) ≡ none
        → a (on b (hash_ k) j) ≡ some e
        → j ≤ m
        → suc j ≤ m
    ahead j m e gone full le = elim (Bool-cases (j == m)) [
      | inl here ↦
          let it : j ≡ m = (==_iff j m).0 here in
          none-some (sym gone ∙ ap (λ (x : ℕ). a (on b (hash_ k) x)) (sym it) ∙ full)
      | inr apart ↦ ground arith
    ]

    find_loop-Finds :
        (fuel j m i : ℕ)
        → bit_and i (2 ^ b - 1) ≡ on b (hash_ k) j
        → j ≤ m
        → m < 2 ^ b
        → m < j + fuel
        → a (on b (hash_ k) m) ≡ none
        → Missed j
        → Returns (find_loop key hash_ equal fuel (2 ^ b - 1) a k (hash_ k) i) (Finds a k)
    unfolding find_loop
    find_loop-Finds zero j m i at le lt f gone miss = absurd (omega arith)
    find_loop-Finds (suc fuel) j m i at le lt f gone miss =
        elim (some-cases (a (on b (hash_ k) j))) [
          | inl empty ↦ rw (Returns, at, empty) (Missed-Finds j empty (omega arith) miss)
          | inr (e, full) ↦
              let no_dib : ltb (dib e (on b (hash_ k) j)) 0 ≡ false = ground arith in
              elim (Bool-cases (matches k e)) [
                | inl hit ↦
                    rw (Returns, at, full, at, no_dib, hit)
                      (on-lt b small (hash_ k) j, (e, full, matches-key k e hit))
                | inr other ↦
                    rw (Returns, at, full, at, no_dib, other)
                      (find_loop-Finds fuel (suc j) m (add_size (on b (hash_ k) j) 1)
                        (on-suc b small (hash_ k) j) (ahead j m e gone full le) lt (omega arith)
                        gone (Missed-suc j e full other miss))
              ]
        ]

  -- On a table in order with a free entry, `find` returns, within as many rounds as there are entries: it
  -- finds the index of an element with the key, or, if it finds none, there is no such element in the table.
  pub find-Finds :
      (fuel num free_ : ℕ) (a : Cells T) (k : K)
      → b < 32
      → Ordered a
      → free_ < 2 ^ b
      → a free_ ≡ none
      → 2 ^ b < fuel
      → Returns
          (find key hash_ equal fuel (record { mask = 2 ^ b - 1; num = num; array = some a }) k)
          (Finds a k)
  unfolding find
  find-Finds fuel num free_ a k small o lt gone f =
      let m = dib_of (2 ^ b - 1) (hash_ k) free_ in
      let m_lt : m < 2 ^ b = dib-lt b small (hash_ k) free_ in
      find_loop-Finds small a o k fuel 0 m (hash_ k) (on-zero b small (hash_ k)) (omega arith) m_lt
        (omega arith) (ap a (on-dib b small (hash_ k) free_ lt) ∙ gone)
        (λ i e less. absurd (omega arith))

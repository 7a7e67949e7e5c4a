-- ===== src/Hashtable/Insert.antt =====
-- hashtable.h: `insert_` of an element whose key is not in the table.
use htools.Prelude.{
  some-cases, ℕ, zero, suc, ◌+◌, ◌-◌, ◌^◌, ◌≤◌, ◌<◌, bit_and, Option, none, some, Bool, true, false,
  ltb, ◌==◌, ◌&&◌, ◌≡◌, ◌≢◌, ◌↔◌, refl, sym, ap, ◌∙◌, inl, inr, Bool-cases, ltb→lt, ltb-false,
  arith, add_size, u32, Returns, Returns-map,
}
use htools.Hashtable.Ops.{Entry, Cells, dib_of, put, or_entry, insert_loop}
use htools.Hashtable.Circle.{on, on-lt, on-zero, on-suc, next-small, dib-lt, on-dib}
use htools.Hashtable.Find.{Ordered}
use htools.Hashtable.Round.{
  dib_at, Inserted, Fresh, Round, Rounds, Round-lt, empty-Rounds, further, go_on, went_on, home,
  swapped, swapped_back,
}

module _ {T K : Type 0} (key : T → K) (hash_ : K → ℕ) (equal : K → K → Bool)
    (equal_iff : (k k' : K) → (equal k k' ≡ true) ↔ (k ≡ k')) (b : ℕ) (small : b < 32) where
  no_match :
      (a : Cells T) (e f : Entry T) (s : ℕ)
      → s < 2 ^ b
      → a s ≡ some f
      → Fresh key hash_ equal equal_iff b a e
      → (e.hash == f.hash && equal (key e.t) (key f.t)) ≡ false
  no_match a e f s lt full fresh = elim (Bool-cases (equal (key e.t) (key f.t))) [
    | inl same ↦ absurd (fresh s f lt full (sym ((equal_iff (key e.t) (key f.t)).0 same)))
    | inr other ↦ and_false (e.hash == f.hash) (equal (key e.t) (key f.t)) other
  ]
    where
      and_false : (x y : Bool) → y ≡ false → (x && y) ≡ false
      and_false true y h = h
      and_false false y h = refl

  insert_loop-Rounds :
      (fuel : ℕ) (a : Cells T) (e : Entry T) (j m num i : ℕ) (ret : Option ℕ)
      → Round key hash_ equal equal_iff b small a e j m
      → m < fuel
      → bit_and i (2 ^ b - 1) ≡ on b e.hash j
      → Returns
          (insert_loop key hash_ equal fuel (2 ^ b - 1) a num e.t e.hash i j ret)
          (Rounds key hash_ equal equal_iff b small a e j m num ret)
  unfolding insert_loop
  insert_loop-Rounds zero a e j m num i ret r lt at = absurd (omega arith)
  insert_loop-Rounds (suc fuel) a e j m num i ret r lt at = elim (some-cases (a (on b e.hash j))) [
    | inl gone ↦
        rw (Returns, at, gone, at)
          (empty-Rounds key hash_ equal equal_iff b small a e j m r num ret gone)
    | inr (f, full) ↦
        let c = on b e.hash j in
        let other = no_match a e f c (on-lt b small e.hash j) full r.fresh in
        let j_next = next-small b small j (Round-lt key hash_ equal equal_iff b small a e j m r) in
        let d_next =
          next-small b small (dib_at key hash_ equal equal_iff b f c) (dib-lt b small f.hash c) in
        let more = further key hash_ equal equal_iff b small a e j m r f full in
        elim (Bool-cases (ltb (dib_at key hash_ equal equal_iff b f c) j)) [
          | inl closer ↦
              let less = ltb→lt (dib_at key hash_ equal equal_iff b f c) j closer in
              rw (Returns, at, full, at, other, closer, d_next)
                (Returns-map _ _
                  (insert_loop key hash_ equal fuel (2 ^ b - 1) (put a c (some e)) num f.t f.hash
                    (add_size c 1) (suc (dib_at key hash_ equal equal_iff b f c))
                    (some (or_entry ret c)))
                  (insert_loop-Rounds fuel (put a c (some e)) f
                    (suc (dib_at key hash_ equal equal_iff b f c)) (m - 1) num (add_size c 1)
                    (some (or_entry ret c))
                    (swapped key hash_ equal equal_iff b small a e j m r f full less)
                    (omega (arith, more))
                    (ap (λ (x : ℕ). bit_and (add_size x 1) (2 ^ b - 1))
                        (sym (home key hash_ equal equal_iff b small a e j m r f full less))
                      ∙ on-suc b small f.hash (dib_at key hash_ equal equal_iff b f c)))
                  (λ q.
                    swapped_back key hash_ equal equal_iff b small a e j m r f full less num q ret))
          | inr far ↦
              rw (Returns, at, full, at, other, far, j_next)
                (Returns-map _ _
                  (insert_loop key hash_ equal fuel (2 ^ b - 1) a num e.t e.hash (add_size c 1)
                    (suc j) ret)
                  (insert_loop-Rounds fuel a e (suc j) (m - 1) num (add_size c 1) ret
                    (go_on key hash_ equal equal_iff b small a e j m r f full
                      (ltb-false (dib_at key hash_ equal equal_iff b f c) j far))
                    (omega (arith, more)) (on-suc b small e.hash j))
                  (went_on key hash_ equal equal_iff b small a e j m r f full num ret))
        ]
  ]

  -- For a table of 2 ^ b entries in order with a free one, and an element whose key is not in it, `insert_` returns, with
  -- fuel for as many rounds as there are entries: the table is in order, it has the elements of before and the new
  -- one and no other, with the count one higher, and the index returned is that of the new element.
  pub insert_loop-Inserted :
      (fuel num free_ : ℕ) (a : Cells T) (t : T)
      → Ordered key hash_ equal equal_iff b a
      → free_ < 2 ^ b
      → a free_ ≡ none
      → ((s : ℕ) (f : Entry T) → s < 2 ^ b → a s ≡ some f → key f.t ≢ key t)
      → 2 ^ b ≤ fuel
      → Returns
          (insert_loop key hash_ equal fuel
            (2 ^ b - 1)
            a
            num
            t
            (hash_ (key t))
            (hash_ (key t))
            0
            none)
          (λ r.
            Inserted key hash_ equal equal_iff b a (record { hash = hash_ (key t); t = t }) r.0
            × (r.1 ≡ u32 (num + 1))
            × (r.2 < 2 ^ b)
            × (r.0 r.2 ≡ some (record { hash = hash_ (key t); t = t })))
  insert_loop-Inserted fuel num free_ a t o lt gone fresh f =
      let e : Entry T = record { hash = hash_ (key t); t = t } in
      let start = on b e.hash 0 in
      let m = dib_of (2 ^ b - 1) start free_ in
      let m_lt : m < 2 ^ b = dib-lt b small start free_ in
      let r : Round key hash_ equal equal_iff b small a e 0 m = record {
        ordered = o;
        own = refl;
        passed = λ i l. absurd (omega arith);
        fresh = fresh;
        near = m_lt;
        free_ = ap a (on-dib b small start free_ lt) ∙ gone;
      } in
      Returns-map (Rounds key hash_ equal equal_iff b small a e 0 m num none) _
        (insert_loop key hash_ equal fuel (2 ^ b - 1) a num t e.hash e.hash 0 none)
        (insert_loop-Rounds fuel a e 0 m num e.hash none r (omega arith) (on-zero b small e.hash))
        (λ q x. (x.inserted, x.num_, x.chosen.0, x.chosen.1))

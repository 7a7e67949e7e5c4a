-- ===== src/Hashtable/Present.antt =====
-- hashtable.h: `insert_` of an element whose key is in the table.
use htools.Prelude.{
  ℕ, zero, suc, ◌+◌, ◌-◌, ◌^◌, ◌≤◌, ◌<◌, bit_and, none, some, Bool, true, false, ltb, ◌==◌, ◌&&◌,
  ◌≡◌, ◌↔◌, refl, sym, ap, ◌∙◌, inl, inr, Bool-cases, ltb→lt, ltb-false, arith, add_size, ==_iff,
}
use mathlib.Core.Path.{subst}
use htools.Hashtable.Ops.{Entry, Cells, insert_loop}
use htools.Hashtable.Circle.{on, on-lt, on-zero, on-suc, on_injective, next-small, dib-lt, on-dib}
use htools.Hashtable.Find.{dib, Ordered}

module _ {T K : Type 0} (key : T → K) (hash_ : K → ℕ) (equal : K → K → Bool)
    (equal_iff : (k k' : K) → (equal k k' ≡ true) ↔ (k ≡ k')) (b : ℕ) (small : b < 32) (a : Cells T)
    (o : Ordered key hash_ equal equal_iff b a) (t : T) (s : ℕ) (f : Entry T) (s_lt : s < 2 ^ b)
    (there : a s ≡ some f) (same : key f.t ≡ key t) where
  abbrev home : ℕ
  home = hash_ (key t)

  own : f.hash ≡ home
  own = o.hashed s f s_lt there ∙ ap hash_ same

  abbrev far : ℕ
  far = dib key hash_ equal equal_iff b f s

  back : on b home far ≡ s
  back = ap (λ (x : ℕ). on b x far) (sym own) ∙ on-dib b small f.hash s s_lt

  and_false : (x y : Bool) → y ≡ false → (x && y) ≡ false
  and_false true y h = h
  and_false false y h = refl

  -- The entries on the way have other keys.
  passing :
      (j : ℕ) (g : Entry T)
      → j < far
      → a (on b home j) ≡ some g
      → (home == g.hash && equal (key t) (key g.t)) ≡ false
  passing j g lt at = elim (Bool-cases (equal (key t) (key g.t))) [
    | inl hit ↦
        let keys : key f.t ≡ key g.t = same ∙ (equal_iff (key t) (key g.t)).0 hit in
        let slots : s ≡ on b home j =
          o.unique s (on b home j) f g s_lt (on-lt b small home j) there at keys in
        let far_lt : far < 2 ^ b = dib-lt b small f.hash s in
        let offsets : far ≡ j =
          on_injective b small home far j far_lt (omega (arith, lt, far_lt)) (back ∙ slots) in
        absurd (omega (arith, offsets, lt))
    | inr other ↦ and_false (home == g.hash) (equal (key t) (key g.t)) other
  ]

  matching : (home == f.hash && equal (key t) (key f.t)) ≡ true
  matching =
      let hashes : (home == f.hash) ≡ true = (==_iff home f.hash).1 (sym own) in
      let keys : equal (key t) (key f.t) ≡ true = (equal_iff (key t) (key f.t)).1 (sym same) in
      rw (hashes, keys) refl

  search_loop :
      (fuel j num i : ℕ)
      → j ≤ far
      → far < j + fuel
      → bit_and i (2 ^ b - 1) ≡ on b home j
      → insert_loop key hash_ equal fuel (2 ^ b - 1) a num t home i j none ≡ some (a, num, s)
  unfolding insert_loop
  search_loop zero j num i le lt at = absurd (omega arith)
  search_loop (suc fuel) j num i le lt at = elim (Bool-cases (ltb j far)) [
    | inl before ↦
        let less : j < far = ltb→lt j far before in
        let (g, full', ahead) = o.chain s f s_lt there j less in
        let full : a (on b home j) ≡ some g = ap (λ (x : ℕ). a (on b x j)) (sym own) ∙ full' in
        let near : ltb (dib key hash_ equal equal_iff b g (on b home j)) j ≡ false =
          not_closer g (subst (λ x. j ≤ dib key hash_ equal equal_iff b g (on b x j)) own ahead) in
        let next = next-small b small j (omega (arith, less, dib-lt b small f.hash s)) in
        rw (insert_loop, at, full, at, passing j g less full, near, next)
          (search_loop fuel (suc j) num (add_size (on b home j) 1) (omega arith) (omega arith)
            (on-suc b small home j))
    | inr past ↦
        let here : j ≡ far = omega (arith, ltb-false j far past) in
        let spot : on b home j ≡ s = ap (on b home) here ∙ back in
        rw (insert_loop, at, spot, there, at, matching) (ap (λ (x : ℕ). some (a, num, x)) spot)
  ]
    where
      not_closer :
          (g : Entry T)
          → j ≤ dib key hash_ equal equal_iff b g (on b home j)
          → ltb (dib key hash_ equal equal_iff b g (on b home j)) j ≡ false
      not_closer g h = ground arith

  -- On a table in order, `insert_` of an element whose key the table has returns the entry with this key and
  -- changes nothing, and its assertion holds, with fuel for as many rounds as there are entries.
  pub insert_loop_present :
      (fuel num : ℕ)
      → 2 ^ b ≤ fuel
      → insert_loop key hash_ equal fuel (2 ^ b - 1) a num t home home 0 none ≡ some (a, num, s)
  insert_loop_present fuel num f_le =
      search_loop fuel 0 num home (omega arith) (omega (arith, dib-lt b small f.hash s))
        (on-zero b small home)

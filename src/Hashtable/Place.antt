-- ===== src/Hashtable/Place.antt =====
-- hashtable.h: an entry that is put into a table in order.
use htools.Prelude.{
  ℕ, ◌^◌, ◌≤◌, ◌<◌, Option, none, some, Bool, true, false, ◌==◌, ◌≡◌, ◌≢◌, ◌↔◌, refl, sym, ap, ap₂,
  ◌∙◌, inl, inr, Bool-cases, arith, ==_iff,
}
use mathlib.Core.Path.{subst}
use htools.Hashtable.Ops.{Entry, Cells, put}
use htools.Hashtable.Circle.{on, dib-on}
use htools.Hashtable.Find.{dib, Ordered}

module _ {T K : Type 0} (key : T → K) (hash_ : K → ℕ) (equal : K → K → Bool)
    (equal_iff : (k k' : K) → (equal k k' ≡ true) ↔ (k ≡ k')) (b : ℕ) (small : b < 32) where
  -- All entries before the offset `j` of an entry are there, and as far from their place as it would be.
  abbrev pub Passed : Cells T → Entry T → ℕ → Type 0
  Passed a e j =
      (i : ℕ)
      → i < j
      → (f : Entry T) × (a (on b e.hash i) ≡ some f)
        × (i ≤ dib key hash_ equal equal_iff b f (on b e.hash i))

  -- No entry, but for the one at an index, has the key.
  abbrev pub FreshBut : Cells T → ℕ → Entry T → Type 0
  FreshBut a at e =
      (s : ℕ) (f : Entry T) → s < 2 ^ b → (s == at) ≡ false → a s ≡ some f → key f.t ≢ key e.t

  abbrev dib_at : Entry T → ℕ → ℕ
  dib_at e s = dib key hash_ equal equal_iff b e s

  pub put_self : (a : Cells T) (at : ℕ) (e : Option (Entry T)) → put a at e at ≡ e
  put_self a at e = let self : (at == at) ≡ true = ground arith in rw self refl

  pub put_other :
      (a : Cells T) (at s : ℕ) (e : Option (Entry T)) → (s == at) ≡ false → put a at e s ≡ a s
  put_other a at s e other = rw other refl

  abbrev entry_or : Entry T → Option (Entry T) → Entry T
  entry_or e none = e
  entry_or e (some f) = f

  pub some-injective : (e f : Entry T) → some e ≡ some f → e ≡ f
  some-injective e f h = ap (entry_or e) h

  module _ (a : Cells T) (o : Ordered key hash_ equal equal_iff b a) (e : Entry T) (j : ℕ)
      (lt : j < 2 ^ b) (own : e.hash ≡ hash_ (key e.t)) (passed : Passed a e j)
      (closer : (f : Entry T) → a (on b e.hash j) ≡ some f → dib_at f (on b e.hash j) ≤ j)
      (fresh : FreshBut a (on b e.hash j) e) where
    abbrev at : ℕ
    at = on b e.hash j

    abbrev placed : Cells T
    placed = put a at (some e)

    -- What was there is there, or replaced by the new entry, which is no closer to its place.
    pub still :
        (s i : ℕ) (f : Entry T)
        → a s ≡ some f
        → i ≤ dib_at f s
        → (g : Entry T) × (placed s ≡ some g) × (i ≤ dib_at g s)
    still s i f there le = elim (Bool-cases (s == at)) [
      | inl here ↦
          let it : s ≡ at = (==_iff s at).0 here in
          let far : dib_at e at ≡ j = dib-on b small e.hash j lt in
          let less : dib_at f at ≤ j = closer f (ap a (sym it) ∙ there) in
          let far_s : dib_at e s ≡ j = ap (dib_at e) it ∙ far in
          let less_s : dib_at f s ≤ j = subst (λ x. dib_at f x ≤ j) (sym it) less in
          (e, (rw here refl), omega (arith, far_s, less_s, le))
      | inr other ↦ (f, put_other a at s (some e) other ∙ there, le)
    ]

    placed_hashed : (s : ℕ) (f : Entry T) → s < 2 ^ b → placed s ≡ some f → f.hash ≡ hash_ (key f.t)
    placed_hashed s f l q = elim (Bool-cases (s == at)) [
      | inl here ↦
          let same : e ≡ f = some-injective e f ((rw here refl) ∙ q) in
          subst (λ (x : Entry T). x.hash ≡ hash_ (key x.t)) same own
      | inr other ↦ o.hashed s f l (sym (put_other a at s (some e) other) ∙ q)
    ]

    placed_chain :
        (s : ℕ) (f : Entry T)
        → s < 2 ^ b
        → placed s ≡ some f
        → (k : ℕ) → k < dib_at f s
        → (g : Entry T) × (placed (on b f.hash k) ≡ some g) × (k ≤ dib_at g (on b f.hash k))
    placed_chain s f l q k less = elim (Bool-cases (s == at)) [
      | inl here ↦
          let it : s ≡ at = (==_iff s at).0 here in
          let same : e ≡ f = some-injective e f ((rw here refl) ∙ q) in
          let far : dib_at f s ≡ j = ap₂ dib_at (sym same) it ∙ dib-on b small e.hash j lt in
          let (g, there, le) = passed k (omega (arith, far, less)) in
          subst
            (λ (x : Entry T).
              (g : Entry T) × (placed (on b x.hash k) ≡ some g) × (k ≤ dib_at g (on b x.hash k)))
            same (still (on b e.hash k) k g there le)
      | inr other ↦
          let (g, there, le) = o.chain s f l (sym (put_other a at s (some e) other) ∙ q) k less in
          still (on b f.hash k) k g there le
    ]

    placed_unique :
        (s t : ℕ) (f g : Entry T)
        → s < 2 ^ b
        → t < 2 ^ b
        → placed s ≡ some f
        → placed t ≡ some g
        → key f.t ≡ key g.t
        → s ≡ t
    placed_unique s t f g sl tl p q h = elim (Bool-cases (s == at)) [
      | inl here ↦ elim (Bool-cases (t == at)) [
        | inl here' ↦ (==_iff s at).0 here ∙ sym ((==_iff t at).0 here')
        | inr other' ↦
            let same : e ≡ f = some-injective e f ((rw here refl) ∙ p) in
            absurd (
              fresh t g tl other' (sym (put_other a at t (some e) other') ∙ q)
                (sym h ∙ ap (λ (x : Entry T). key x.t) (sym same)))
      ]
      | inr other ↦ elim (Bool-cases (t == at)) [
        | inl here' ↦
            let same : e ≡ g = some-injective e g ((rw here' refl) ∙ q) in
            absurd (
              fresh s f sl other (sym (put_other a at s (some e) other) ∙ p)
                (h ∙ ap (λ (x : Entry T). key x.t) (sym same)))
        | inr other' ↦
            o.unique s t f g sl tl (sym (put_other a at s (some e) other) ∙ p)
              (sym (put_other a at t (some e) other') ∙ q) h
      ]
    ]

    pub placed-Ordered : Ordered key hash_ equal equal_iff b placed
    placed-Ordered = record { hashed = placed_hashed; chain = placed_chain; unique = placed_unique }

-- ===== src/Catalogfs/Search/Ends.antt =====
-- What a call does that reads the catalog: it returns, or a location of the catalog does not read.
use catalog_file_system.Base.{
  ℕ, ◌<◌, ◌≤◌, ◌≡◌, ◌≢◌, ℤ, pos, ◌≤ℤ◌, Ordering, Outcome, ok, err, exit, out_of_fuel, ◌>>=◌,
  on_error, refl, sym, ◌∙◌, subst,
}
use catalog_file_system.Clib.Text.{Bytes, strcmp}
use catalog_file_system.Catalogfs.Reader.{Reader}

-- The entry at `i` reads as depth `d` and path `p`.
abbrev pub Row : Reader → ℕ → ℤ → Bytes → Type 0
Row m i d p = m.entry_at (pos i) ≡ ok (d, p)

-- Every location below the catalog's length reads.
abbrev pub Readable : Reader → Type 0
Readable m = (i : ℕ) → i < m.catalog_len → (r : ℤ × Bytes) × Row m i r.0 r.1

-- The depths ascend.
abbrev pub DepthSorted : Reader → Type 0
DepthSorted m =
    (i j : ℕ) (d d' : ℤ) (p p' : Bytes)
    → i ≤ j
    → j < m.catalog_len
    → Row m i d p
    → Row m j d' p'
    → d ≤ℤ d'

-- The paths of one depth ascend strictly in the order of `strcmp`.
abbrev pub PathSorted : Reader → Type 0
PathSorted m =
    (i j : ℕ) (d : ℤ) (p p' : Bytes)
    → i < j
    → j < m.catalog_len
    → Row m i d p
    → Row m j d p'
    → strcmp p p' ≡ Ordering.lt

-- The call returns `a` with `P a`, or fails while the catalog is not readable; its loops have
-- rounds enough.
pub data Ends {A : Type 0} (m : Reader) (P : A → Type 0) : Outcome A → Type 0 where
  returns : (a : A) → P a → Ends m P (ok a)
  fails : (e : ℕ) → ¬ Readable m → Ends m P (err e)
  exits : ¬ Readable m → Ends m P exit

module _ {A : Type 0} {m : Reader} {P : A → Type 0} where
  pub bind :
      {B : Type 0} {Q : B → Type 0} {o : Outcome A} {f : A → Outcome B}
      → Ends m P o
      → ((a : A) → P a → Ends m Q (f a))
      → Ends m Q (o >>= f)
  bind (returns a p) next = next a p
  bind (fails e u) next = fails e u
  bind (exits u) next = exits u

  pub recover :
      {o r : Outcome A} → Ends m P o → (¬ Readable m → Ends m P r) → Ends m P (on_error o r)
  recover (returns a p) h = returns a p
  recover (fails e u) h = h u
  recover (exits u) h = exits u

  pub mono : {Q : A → Type 0} {o : Outcome A} → Ends m P o → ((a : A) → P a → Q a) → Ends m Q o
  mono (returns a p) f = returns a (f a p)
  mono (fails e u) f = fails e u
  mono (exits u) f = exits u

  pub Ends-total : {o : Outcome A} → Ends m P o → o ≢ out_of_fuel
  Ends-total (returns a p) = λ e. cc
  Ends-total (fails e u) = λ e. cc
  Ends-total (exits u) = λ e. cc

  pub Ends-ok : {o : Outcome A} → Readable m → Ends m P o → (a : A) × (o ≡ ok a) × P a
  Ends-ok r (returns a p) = (a, refl, p)
  Ends-ok r (fails e u) = absurd (u r)
  Ends-ok r (exits u) = absurd (u r)

  pub Ends-post : {o : Outcome A} {a : A} → Ends m P o → o ≡ ok a → P a
  Ends-post {a} (returns b p) e = let same : b ≡ a = cc in subst P same p
  Ends-post (fails k u) e = cc
  Ends-post (exits u) e = cc

module _ (m : Reader) where
  pub read-not_out_of_fuel : (z : ℤ) → m.entry_at z ≢ out_of_fuel
  read-not_out_of_fuel z = m.entry_at_ends z

  -- A failed read below the length shows that the catalog is not readable.
  pub unread :
      {i : ℕ} {o : Outcome (ℤ × Bytes)}
      → m.entry_at (pos i) ≡ o
      → ((r : ℤ × Bytes) → o ≢ ok r)
      → i < m.catalog_len
      → ¬ Readable m
  unread e bad lt readable = let (r, row) = readable _ lt in bad r (sym e ∙ row)

-- ===== src/Generate/Rounds.antt =====
-- generate_catalog.c: finite trees, and the rounds of the walk over them.
use catalog_file_system.Base.{
  ℕ, zero, suc, ◌+◌, ◌<◌, ◌≡◌, refl, ap, subst, arith, List, [], ◌∷◌, ◌++◌, ok, ◌>>=◌,
}
use catalog_file_system.Clib.Text.{Bytes}
use catalog_file_system.Generate.Listing.{System, filter}
use catalog_file_system.Generate.Tree.{contents, subdirectories, found, breadth_first}

-- The directories of a list are the roots of finite trees with `n` directories.
pub data Size (sys : System) (dir : Bytes) : List Bytes → ℕ → Type 0 where
  none_waits : Size sys dir [] 0
  directory :
      {n m : ℕ} {rs : List Bytes} (r : Bytes)
      → Size sys dir (subdirectories r (found (sys.scandir filter (dir ++ r)))) n
      → Size sys dir rs m
      → Size sys dir (r ∷ rs) (suc (n + m))

module _ (sys : System) (dir : Bytes) where
  Size-append :
      (rs ts : List Bytes) {n m : ℕ}
      → Size sys dir rs n
      → Size sys dir ts m
      → Size sys dir (rs ++ ts) (n + m)
  Size-append [] ts {m} none_waits t = subst (Size sys dir ts) (omega arith) t
  Size-append (r ∷ rs) ts {m} (directory {n = below} {m = beside} r2 s rest) t =
      subst (Size sys dir (r ∷ (rs ++ ts))) (omega arith) (directory r s (Size-append rs ts rest t))

  pub breadth_first-ends :
      (k : ℕ) {n : ℕ} (rs : List Bytes)
      → Size sys dir rs n
      → n < k
      → (ps : List Bytes) × (breadth_first k sys dir rs ≡ ok ps)
  unfolding breadth_first
  breadth_first-ends zero rs s few = absurd (omega arith)
  breadth_first-ends (suc k) [] s few = ([], refl)
  breadth_first-ends (suc k) (r ∷ rs) (directory {n = below} {m = beside} r2 s rest) few =
      let entries = found (sys.scandir filter (dir ++ r)) in
      let (ps, e) =
        breadth_first-ends k (rs ++ subdirectories r entries)
          (Size-append rs (subdirectories r entries) rest s) (omega arith) in
      (
        (r ++ b'/' ∷ []) ∷ (contents r entries ++ ps),
        ap (λ o. o >>= λ t. ok ((r ++ b'/' ∷ []) ∷ (contents r entries ++ t))) e,
      )

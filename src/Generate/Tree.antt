-- ===== src/Generate/Tree.antt =====
-- generate_catalog.c: the order in which a tree is printed, without the queue.
use catalog_file_system.Base.{
  ℕ, zero, suc, ◌≡◌, ◌≢◌, ◌==◌, if◌then◌else◌, Option, none, some, List, [], ◌∷◌, ◌++◌, Outcome, ok,
  out_of_fuel, ◌>>=◌,
}
use catalog_file_system.Clib.Text.{Bytes}
use catalog_file_system.Generate.Queue.{Store, lookup}
use catalog_file_system.Generate.Listing.{Dirent, System, filter}

-- The paths of the entries of a directory `r`, below the input directory.
abbrev pub contents : Bytes → List Dirent → List Bytes
contents r [] = []
contents r (ent ∷ rest) = (r ++ b'/' ∷ ent.d_name) ∷ contents r rest

-- Those that are directories.
abbrev pub subdirectories : Bytes → List Dirent → List Bytes
subdirectories r [] = []
subdirectories r (ent ∷ rest) =
    if ent.d_type == 4
    then (r ++ b'/' ∷ ent.d_name) ∷ subdirectories r rest
    else subdirectories r rest

abbrev pub found : Option (List Dirent) → List Dirent
found none = []
found (some entries) = entries

-- Breadth first: a directory with '/' behind it, its entries, and then the directories that wait,
-- its own subdirectories last.
unfoldable pub breadth_first : ℕ → System → Bytes → List Bytes → Outcome (List Bytes)
breadth_first zero sys dir rs = out_of_fuel
breadth_first (suc k) sys dir [] = ok []
breadth_first (suc k) sys dir (r ∷ rs) = do
  let entries = found (sys.scandir filter (dir ++ r))
  rest ← breadth_first k sys dir (rs ++ subdirectories r entries)
  ok ((r ++ b'/' ∷ []) ∷ (contents r entries ++ rest))

-- `malloc` never fails, and gives the address of no node in use.
abbrev pub Mallocs : System → Type 0
Mallocs sys = (q : Store) → (sys.malloc q ≢ 0) × (lookup q.heap (sys.malloc q) ≡ none)

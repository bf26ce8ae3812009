-- ===== src/Examples/Tree.antt =====
-- A directory tree for the generator's walk, and a `malloc`.
use catalog_file_system.Base.{
  ℕ, suc, ◌≤◌, ◌+◌, ◌≡◌, refl, arith, some, none, List, [], ◌∷◌, ◌==◌, if◌then◌else◌, length, Bool,
  ok,
}
use catalog_file_system.Clib.Text.{Bytes, codes, strcmp}
use catalog_file_system.Generate.Queue.{Ptr, Heap, Store, lookup}
use catalog_file_system.Generate.Listing.{Dirent, System, filter}
use catalog_file_system.Generate.Tree.{Mallocs, breadth_first}
use catalog_file_system.Examples.{files, input_dir}

-- A `malloc` that finds an address above those in use, and a directory /r with the entries a, d and
-- ln, of which d is a directory with the file x.
abbrev above : Heap → Ptr
above [] = 1
above ((p, c) ∷ heap) = suc p + above heap

lookup-above : (heap : Heap) (k : Ptr) → above heap ≤ k → lookup heap k ≡ none
unfolding lookup
lookup-above [] k h = refl
lookup-above ((p, c) ∷ heap) k h = ground (arith, lookup-above heap k)

above-pos : (heap : Heap) → 1 ≤ above heap
above-pos [] = omega arith
above-pos ((p, c) ∷ heap) = omega (arith, above-pos heap)

abbrev keep : (Dirent → Bool) → List Dirent → List Dirent
keep test [] = []
keep test (ent ∷ rest) = if test ent then ent ∷ keep test rest else keep test rest

abbrev ent : ℕ → Bytes → Dirent
ent t name = record { d_type = t; d_name = name }

abbrev pub system : System
system = record {
  files = files;
  scandir = λ test path.
      if length path == 2
      then some (
          keep test (
            ent 4 (codes ".")
            ∷ ent 4 (codes "..")
            ∷ ent 8 (codes "a")
            ∷ ent 4 (codes "d")
            ∷ ent 10 (codes "ln")
            ∷ []))
      else if length path == 4
      then some (keep test (ent 8 (codes "x") ∷ []))
      else none;
  malloc = λ q. above q.heap;
}

pub system-Mallocs : Mallocs system
system-Mallocs q = (
  λ e. absurd (omega (arith, above-pos q.heap, e)),
  lookup-above q.heap (above q.heap) (omega arith),
)

abbrev pub tree : List Bytes
tree = codes "/" ∷ codes "/a" ∷ codes "/d" ∷ codes "/ln" ∷ codes "/d/" ∷ codes "/d/x" ∷ []

pub tree_in_order : breadth_first 3 system input_dir ([] ∷ []) ≡ ok tree
unfolding breadth_first filter strcmp
tree_in_order = refl

abbrev pub no_queue : Store
no_queue = record { head = 0; tail = 0; heap = [] }

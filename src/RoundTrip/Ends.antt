-- ===== src/RoundTrip/Ends.antt =====
-- generate_catalog.c: `catalog_listing` on a finite tree.
use catalog_file_system.Base.{ℕ, ◌<◌, ◌≡◌, ◌≢◌, ◌∙◌, List, [], ◌∷◌, ◌++◌, ok}
use catalog_file_system.Clib.Text.{Bytes}
use catalog_file_system.Generate.Queue.{Store}
use catalog_file_system.Generate.Listing.{System, catalog_listing}
use catalog_file_system.Generate.Tree.{breadth_first, Mallocs}
use catalog_file_system.Generate.Rounds.{Size, breadth_first-ends}
use catalog_file_system.Generate.Pad.Laws.{file_of}
use catalog_file_system.Generate.Listing.{filter}
use catalog_file_system.Generate.Tree.{found}
use catalog_file_system.Generate.Order.{InOrder}
use catalog_file_system.Catalogfs.Search.Listed.{Ascending}
use catalog_file_system.RoundTrip.Ordered.{breadth_first-Ascending}
use catalog_file_system.RoundTrip.File.{print_paths, texts, print_paths-texts}
use catalog_file_system.RoundTrip.Walk.{catalog_listing-breadth_first}

-- Let `malloc` never fail and give the address of no node in use, and let the input directory's
-- name not be empty. If the input directory is the root of a finite tree with `n` directories, more
-- rounds than `n` are enough: `catalog_listing` returns, and has written a line for each path of the
-- breadth-first order behind what the file held.
pub catalog_listing-ends :
    (sys : System) (dir : Bytes) (k n : ℕ) (q : Store) (file : Bytes)
    → Mallocs sys
    → dir ≢ []
    → Size sys dir ([] ∷ []) n
    → n < k
    → (ps : List Bytes) × (breadth_first k sys dir ([] ∷ []) ≡ ok ps)
      × (catalog_listing k sys dir q file ≡ ok (file ++ file_of (texts sys.files dir ps)))
catalog_listing-ends sys dir k n q file mallocs filled size few =
    let (ps, order) = breadth_first-ends sys dir k ([] ∷ []) size few in
    (
      ps,
      order,
      catalog_listing-breadth_first sys dir mallocs filled k q file ps order
          ∙ print_paths-texts sys.files dir file ps filled,
    )

-- Let `malloc` never fail and give the address of no node in use, let the input directory's name
-- not be empty, and let it be the root of a finite tree with `n` directories, fewer than the rounds.
-- Let `scandir` give the entries of each directory ascending by `strcmp`, with names that are not
-- empty and hold no '/', and let two directories beside one another ascend also when '/' is put
-- behind their names. Then `catalog_listing` writes what `print_to_catalog` writes for a
-- list of paths that ascend by depth and, at one depth, by `strcmp`, the breadth-first order.
pub catalog_listing-Ascending :
    (sys : System) (dir : Bytes) (k n : ℕ) (q : Store) (file : Bytes)
    → Mallocs sys
    → dir ≢ []
    → Size sys dir ([] ∷ []) n
    → n < k
    → ((r : Bytes) → InOrder (found (sys.scandir filter (dir ++ r))))
    → (ps : List Bytes) × (breadth_first k sys dir ([] ∷ []) ≡ ok ps)
      × (catalog_listing k sys dir q file ≡ print_paths sys.files dir file ps)
      × Ascending ps
catalog_listing-Ascending sys dir k n q file mallocs filled size few ordered =
    let (ps, order) = breadth_first-ends sys dir k ([] ∷ []) size few in
    (
      ps,
      order,
      catalog_listing-breadth_first sys dir mallocs filled k q file ps order,
      breadth_first-Ascending sys dir ordered k ps order,
    )

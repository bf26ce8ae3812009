-- ===== src/RoundTrip/Whole.antt =====
-- generate_catalog.c and catalogfs.c together, from the arguments of the generator's `main` to the
-- answers of the file system.
use catalog_file_system.Base.{
  ℕ, true, ◌*◌, ◌≤◌, ◌<◌, ◌≡◌, ◌≢◌, sym, ap, ◌∙◌, some, List, [], ◌∷◌, ◌++◌, length, Outcome, ok,
}
use catalog_file_system.Clib.Text.{Bytes}
use catalog_file_system.Catalogfs.Mount.{Mount}
use catalog_file_system.Catalogfs.Handlers.{catalog_getattr}
use catalog_file_system.Catalogfs.Spec.{answer}
use catalog_file_system.Catalogfs.Table
use catalog_file_system.Generate.Listing.{filter}
use catalog_file_system.Generate.Tree.{found, breadth_first, Mallocs}
use catalog_file_system.Generate.Order.{InOrder}
use catalog_file_system.Generate.Pad.{getlines, longest, pad_each_line}
use catalog_file_system.Generate.Main.{Disk, World, Ended, temp_name, is_directory, main}
use catalog_file_system.RoundTrip.File.{print_paths, mounted, AllEntries}
use catalog_file_system.RoundTrip.Ordered.{breadth_first-Ascending}
use catalog_file_system.RoundTrip.Program.{main-Writes}
use catalog_file_system.RoundTrip.Answers.{Answers, catalog_getattr-Answers}
use catalog_file_system.RoundTrip.Serves.{tree_of, Admissible, catalog_operations-answer}

pub main-leaves :
    (w : World) (program input_dir catalog_file : Bytes) (k : ℕ) (disk : Disk) (ps : List Bytes)
    (file : Bytes)
    → Mallocs w.sys
    → input_dir ≢ []
    → catalog_file ≢ []
    → is_directory (w.stat input_dir) ≡ true
    → w.opens catalog_file ≡ true
    → w.opens (temp_name catalog_file) ≡ true
    → w.renames (temp_name catalog_file) catalog_file ≡ true
    → breadth_first k w.sys input_dir ([] ∷ []) ≡ ok ps
    → print_paths w.sys.files input_dir [] ps ≡ ok file
    → (ended : Ended) × (main k w (program ∷ input_dir ∷ catalog_file ∷ []) disk ≡ ok ended)
      × (ended.disk catalog_file ≡ some (pad_each_line file))
main-leaves w program input_dir catalog_file k disk ps file mallocs filled named directory opens
      opens_temp renames walked printed =
    let (file', ended, printed', ran, status, left, gone) =
      main-Writes w input_dir catalog_file mallocs filled named directory opens opens_temp renames k
        program disk ps walked in
    let same : ◌≡◌ {A = Outcome Bytes} (ok file') (ok file) = sym printed' ∙ printed in
    let same_file : file' ≡ file = cc in
    (ended, ran, left ∙ ap (λ f. some (pad_each_line f)) same_file)

-- Let `malloc` never fail and give the address of no node in use, and the calls of `fopen` and
-- `rename` succeed; let the input directory be one, and `scandir` give each directory's entries in
-- the order that `InOrder` states; let the walk end within the rounds, its files be well formed and a
-- frame keep its text; and let the padded file, whose lines are those of `file`, be below 2 GiB with at
-- most 2^31 entries. Then `main` leaves it under the catalog file's name, and the file system that
-- is started on it answers `getattr` with what `lstat` said for the paths of the tree, and -ENOENT
-- for every other path.
pub main-Answers :
    (w : World) (program input_dir catalog_file : Bytes) (k : ℕ) (disk : Disk) (ps : List Bytes)
    (m : Mount) (file p : Bytes)
    → Mallocs w.sys
    → input_dir ≢ []
    → catalog_file ≢ []
    → is_directory (w.stat input_dir) ≡ true
    → w.opens catalog_file ≡ true
    → w.opens (temp_name catalog_file) ≡ true
    → w.renames (temp_name catalog_file) catalog_file ≡ true
    → ((r : Bytes) → InOrder (found (w.sys.scandir filter (input_dir ++ r))))
    → breadth_first k w.sys input_dir ([] ∷ []) ≡ ok ps
    → AllEntries w.sys.files input_dir ps
    → print_paths w.sys.files input_dir [] ps ≡ ok file
    → ((b : Bytes) → m.left_frame b ≡ b)
    → longest 0 (getlines file) * length ps < 0x8000_0000
    → length ps ≤ 0x8000_0000
    → (ended : Ended) × (main k w (program ∷ input_dir ∷ catalog_file ∷ []) disk ≡ ok ended)
      × (ended.disk catalog_file ≡ some (pad_each_line file))
      × Answers w.sys.files input_dir ps p (catalog_getattr (mounted m file) p)
main-Answers w program input_dir catalog_file k disk ps m file p mallocs filled named directory
      opens opens_temp renames ordered walked all printed kept small few =
    let (ended, ran, left) =
      main-leaves w program input_dir catalog_file k disk ps file mallocs filled named directory
        opens opens_temp renames walked printed in
    (
      ended,
      ran,
      left,
      catalog_getattr-Answers w.sys.files input_dir ps m file filled all printed
          (breadth_first-Ascending w.sys input_dir ordered k ps walked) kept small few p,
    )

-- Let `malloc` never fail and give the address of no node in use, and the calls of `fopen` and
-- `rename` succeed; let the input directory be one, and `scandir` give each directory's entries in
-- the order that `InOrder` states; let the walk end within the rounds, its files be well formed and a
-- frame keep its text, also across a `printf`; and let the padded file, whose lines are those of
-- `file`, be below 2 GiB with less than 2^31 entries. Then `main` leaves it under the catalog file's
-- name, and the table of the file system that is started on it answers every request, a `readlink`
-- with a buffer of 1 to 2^64 - 1 bytes, as the abstract tree of the walked paths answers it.
pub main-Serves :
    (w : World) (program input_dir catalog_file : Bytes) (k : ℕ) (disk : Disk) (ps : List Bytes)
    (m : Mount) (file : Bytes) (q : Table.Request)
    → Mallocs w.sys
    → input_dir ≢ []
    → catalog_file ≢ []
    → is_directory (w.stat input_dir) ≡ true
    → w.opens catalog_file ≡ true
    → w.opens (temp_name catalog_file) ≡ true
    → w.renames (temp_name catalog_file) catalog_file ≡ true
    → ((r : Bytes) → InOrder (found (w.sys.scandir filter (input_dir ++ r))))
    → breadth_first k w.sys input_dir ([] ∷ []) ≡ ok ps
    → AllEntries w.sys.files input_dir ps
    → print_paths w.sys.files input_dir [] ps ≡ ok file
    → ((b : Bytes) → m.left_frame b ≡ b)
    → ((b : Bytes) → m.left_frame_after_printf b ≡ b)
    → longest 0 (getlines file) * length ps < 0x8000_0000
    → length ps < 0x8000_0000
    → Admissible q
    → (ended : Ended) × (main k w (program ∷ input_dir ∷ catalog_file ∷ []) disk ≡ ok ended)
      × (ended.disk catalog_file ≡ some (pad_each_line file))
      × (Table.catalog_operations (mounted m file) q ≡ answer (tree_of w.sys.files input_dir ps) q)
main-Serves w program input_dir catalog_file k disk ps m file q mallocs filled named directory opens
      opens_temp renames ordered walked all printed kept kept_after small few admissible =
    let (ended, ran, left) =
      main-leaves w program input_dir catalog_file k disk ps file mallocs filled named directory
        opens opens_temp renames walked printed in
    (
      ended,
      ran,
      left,
      catalog_operations-answer w.sys.files input_dir ps m file filled all printed
          (breadth_first-Ascending w.sys input_dir ordered k ps walked) kept kept_after small few q
          admissible,
    )

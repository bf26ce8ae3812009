-- ===== src/Examples/Programs.antt =====
-- The theorems on the search of binsearchinfile.c, on the generator's `main` and its walk, and on
-- bytecount.c, applied to the catalog of `Examples` and to the directory of `Examples.World`.
use catalog_file_system.Base.{
  All, inl, inr, ◌≢◌, ◌⊎◌, ℕ, ◌-◌, take, get_elem?, ◌≡◌, refl, arith, some, none, List, [], ◌∷◌,
  ◌++◌, length, replicate, pos, negsuc, ok, err, Halts, ◌>>=◌, on_error,
}
use catalog_file_system.Clib.Text.{Bytes, codes, has_byte}
use catalog_file_system.Catalogfs.Mount.{holds}
use catalog_file_system.Catalogfs.Search
use catalog_file_system.Catalogfs.Search.Correct.{IsCatalog}
use catalog_file_system.Catalogfs.Search.Listed.{Ascending}
use catalog_file_system.Catalogfs.Directory
use catalog_file_system.Catalogfs.Handlers.{
  Item, dots, directory_path, catalog_getattr, catalog_readdir, catalog_readlink,
}
use catalog_file_system.Binsearch.Entry.{Disk}
use catalog_file_system.Binsearch.Search.{bin_search}
use catalog_file_system.Binsearch.Search.Equal.{reader}
use catalog_file_system.Binsearch.Search.Same.{bin_search_same}
use catalog_file_system.Binsearch.Directory.{get_directory_contents}
use catalog_file_system.Binsearch.Directory.Same.{range_of, get_directory_contents_same}
use catalog_file_system.Binsearch.Main.{main}
use catalog_file_system.Binsearch.Main.Laws.{main-Halts}
use catalog_file_system.Binsearch.Main.Table.{with_table, table-IsCatalog}
use catalog_file_system.Bytecount
use catalog_file_system.Bytecount.Laws.{main-pad_each_line}
use catalog_file_system.Generate.Listing.{catalog_listing}
use catalog_file_system.Generate.Tree.{breadth_first}
use catalog_file_system.Generate.Pad.{longest, pad_each_line}
use catalog_file_system.Generate.Pad.Laws.{file_of, with_newlines}
use catalog_file_system.Generate.Main.{Ended, temp_name}
use catalog_file_system.Generate.Main
use catalog_file_system.Generate.Main.Laws.{main-Keeps}
use catalog_file_system.Generate.Main.Status.{Success, main-Success}
use catalog_file_system.RoundTrip.File.{print_paths, mounted, texts}
use catalog_file_system.RoundTrip.Program.{main-Writes}
use catalog_file_system.RoundTrip.Ends.{catalog_listing-ends, catalog_listing-Ascending}
use catalog_file_system.RoundTrip.Answers.{
  Answers, catalog_getattr-Answers, catalog_readlink-Answers,
}
use catalog_file_system.Catalogfs.Handlers.Listing.{given}
use catalog_file_system.Catalogfs.Handlers.Agreement.{Agrees, catalog_readdir-Agrees}
use catalog_file_system.Catalogfs.Spec.{answer}
use catalog_file_system.Catalogfs.Table
use catalog_file_system.RoundTrip.Serves.{tree_of}
use catalog_file_system.RoundTrip.Listing.{ShowsTree, catalog_readdir-ShowsTree}
use catalog_file_system.RoundTrip.Start.{environment_of, start-mounted}
use catalog_file_system.Catalogfs.Main.{start}
use catalog_file_system.Generate.Entry.{target_at}
use catalog_file_system.RoundTrip.Whole.{main-Answers, main-Serves}
use catalog_file_system.Examples.{
  stale, files, input_dir, paths, written, filled, printed, longest_line, all_entries, ascending,
  never_full, catalog, few,
}
use catalog_file_system.Examples.Tree.{no_queue}
use catalog_file_system.Examples.World.{
  walked, walked-Mallocs, walk, walk_in_order, walked-Size, walked-InOrder, walk-AllEntries,
  walk_written, walk_printed, walk_longest, world, no_files,
}

abbrev disk : Disk
disk = record {
  catalog_list = holds (codes "d 0755 2 1001 1001 1000 1213101162 1213101161 1213113161 1 ");
  stale_entry = λ i. 0;
  stale_locals = stale.stale_locals;
  stale_mid = pos 0;
  left_frame = λ b. b;
}

bin_search_same_example :
    bin_search (with_table disk) (codes "/dir1/file 1")
    ≡ Search.bin_search (reader (with_table disk)) (codes "/dir1/file 1")
bin_search_same_example = bin_search_same (with_table disk) (codes "/dir1/file 1")

get_directory_contents_same_example :
    (get_directory_contents (with_table disk) (codes "/dir1/") (negsuc 0) >>= range_of)
    ≡ on_error
        (Directory.get_directory_contents (reader (with_table disk)) (codes "/dir1/"))
        (err 1)
get_directory_contents_same_example =
    get_directory_contents_same (with_table disk) (codes "/dir1/") (negsuc 0)

main-Halts_example : Halts (main disk [] (pos 0))
main-Halts_example = main-Halts disk [] (pos 0)

table-IsCatalog_example : IsCatalog (reader (with_table disk))
table-IsCatalog_example = table-IsCatalog disk (λ b. refl)

abbrev two_lines : List Bytes
two_lines = codes "ab" ∷ codes "c" ∷ []

main-pad_each_line_example :
    Bytecount.main
      (some [])
      (λ name. some (pad_each_line (file_of two_lines)))
      (codes "bytecount" ∷ codes "c" ∷ [])
    ≡ ok (record {
      status = pos 0;
      printed = replicate (length two_lines) (pos (longest 0 (with_newlines two_lines)));
    })
main-pad_each_line_example =
    main-pad_each_line [] (codes "bytecount") (codes "c")
      (λ name. some (pad_each_line (file_of two_lines))) two_lines
      (unfold has_byte in (refl, (refl, tt))) (unfold longest with_newlines in omega arith) refl

abbrev pub catalog_name : Bytes
catalog_name = codes "/c"

abbrev pub arguments : List Bytes
arguments = codes "generate_catalog" ∷ input_dir ∷ catalog_name ∷ []

main-Writes_example :
    (file : Bytes) × (ended : Ended) × (print_paths walked.files input_dir [] walk ≡ ok file)
    × (Main.main 3 world arguments no_files ≡ ok ended)
    × (ended.status ≡ pos 0)
    × (ended.disk catalog_name ≡ some (pad_each_line file))
    × (ended.disk (temp_name catalog_name) ≡ none)
main-Writes_example =
    main-Writes world input_dir catalog_name walked-Mallocs filled (λ e. cc) refl refl refl refl 3
      (codes "generate_catalog") no_files walk walk_in_order

main-Answers_example :
    (ended : Ended) × (Main.main 3 world arguments no_files ≡ ok ended)
    × (ended.disk catalog_name ≡ some (pad_each_line walk_written))
    × Answers walked.files input_dir walk
        (codes "/bb/x")
        (catalog_getattr (mounted stale walk_written) (codes "/bb/x"))
main-Answers_example =
    main-Answers world (codes "generate_catalog") input_dir catalog_name 3 no_files walk stale
      walk_written (codes "/bb/x") walked-Mallocs filled (λ e. cc) refl refl refl refl
      walked-InOrder walk_in_order walk-AllEntries walk_printed (λ b. refl)
      (rw walk_longest (omega arith)) (omega arith)

main-Serves_example :
    (ended : Ended) × (Main.main 3 world arguments no_files ≡ ok ended)
    × (ended.disk catalog_name ≡ some (pad_each_line walk_written))
    × (Table.catalog_operations
          (mounted stale walk_written)
          (Table.readdir (codes "/bb") never_full)
        ≡ answer (tree_of walked.files input_dir walk) (Table.readdir (codes "/bb") never_full))
main-Serves_example =
    main-Serves world (codes "generate_catalog") input_dir catalog_name 3 no_files walk stale
      walk_written (Table.readdir (codes "/bb") never_full) walked-Mallocs filled (λ e. cc) refl
      refl refl refl walked-InOrder walk_in_order walk-AllEntries walk_printed (λ b. refl)
      (λ b. refl) (rw walk_longest (omega arith)) (omega arith) tt

finished : (ended : Ended) × (Main.main 3 world arguments no_files ≡ ok ended)
finished =
    let (ended, ran, left, answers) =
      main-Answers world (codes "generate_catalog") input_dir catalog_name 3 no_files walk stale
        walk_written (codes "/bb/x") walked-Mallocs filled (λ e. cc) refl refl refl refl
        walked-InOrder walk_in_order walk-AllEntries walk_printed (λ b. refl)
        (rw walk_longest (omega arith)) (omega arith) in
    (ended, ran)

main-Success_example :
    (finished.0.status ≡ negsuc 0)
    ⊎ ((finished.0.status ≡ pos 0) × Success 3 world arguments finished.0)
main-Success_example = main-Success 3 world arguments no_files finished.0 finished.1

main-Keeps_example : finished.0.disk (codes "/other") ≡ no_files (codes "/other")
main-Keeps_example =
    main-Keeps 3 world (codes "generate_catalog") input_dir catalog_name (codes "/other") no_files
      finished.0 (λ e. cc) (λ e. cc) finished.1

catalog_listing-ends_example :
    (ps : List Bytes) × (breadth_first 3 walked input_dir ([] ∷ []) ≡ ok ps)
    × (catalog_listing 3 walked input_dir no_queue []
        ≡ ok ([] ++ file_of (texts walked.files input_dir ps)))
catalog_listing-ends_example =
    catalog_listing-ends walked input_dir 3 2 no_queue [] walked-Mallocs filled walked-Size
      (omega arith)

catalog_listing-Ascending_example :
    (ps : List Bytes) × (breadth_first 3 walked input_dir ([] ∷ []) ≡ ok ps)
    × (catalog_listing 3 walked input_dir no_queue [] ≡ print_paths walked.files input_dir [] ps)
    × Ascending ps
catalog_listing-Ascending_example =
    catalog_listing-Ascending walked input_dir 3 2 no_queue [] walked-Mallocs filled walked-Size
      (omega arith) walked-InOrder

catalog_getattr-Answers_example :
    Answers files input_dir paths
      (codes "/ln")
      (catalog_getattr (mounted stale written) (codes "/ln"))
catalog_getattr-Answers_example =
    catalog_getattr-Answers files input_dir paths stale written filled all_entries printed ascending
      (λ b. refl) (rw longest_line (omega arith)) (omega arith) (codes "/ln")

catalog_readlink-Answers_example :
    ((i : ℕ) × (get_elem? paths i ≡ some (codes "/ln"))
      × (catalog_readlink (mounted stale written) (codes "/ln") 4
          ≡ ok (take (4 - 1) (target_at files (input_dir ++ codes "/ln") ++ replicate (4 - 1) 0))))
    ⊎ ((catalog_readlink (mounted stale written) (codes "/ln") 4 ≡ err 2)
        × ((i : ℕ) → get_elem? paths i ≢ some (codes "/ln")))
catalog_readlink-Answers_example =
    catalog_readlink-Answers files input_dir paths stale written filled all_entries printed
      ascending (λ b. refl) (rw longest_line (omega arith)) (omega arith) (codes "/ln") 4
      (omega arith) (omega arith) (λ b. refl)

catalog_readdir-ShowsTree_example :
    ((items : List Item) × (catalog_readdir (mounted stale written) never_full (codes "/")
        ≡ ok (given never_full dots items))
      × ShowsTree files input_dir paths (directory_path (codes "/")) items)
    ⊎ ((catalog_readdir (mounted stale written) never_full (codes "/") ≡ err 2)
        × ((i : ℕ) → get_elem? paths i ≢ some (directory_path (codes "/"))))
catalog_readdir-ShowsTree_example =
    catalog_readdir-ShowsTree files input_dir paths stale written filled all_entries printed
      ascending (λ b. refl) (rw longest_line (omega arith)) (omega arith) never_full (codes "/")

start-mounted_example :
    start (environment_of (codes "/c") written)
    ≡ some (record {
      catalog_file = codes "/c";
      entry_size = pos (mounted stale written).entry_size;
      catalog_len = pos (mounted stale written).catalog_len;
    })
start-mounted_example =
    start-mounted files input_dir (codes "/") (codes "/a" ∷ codes "/ln" ∷ codes "/d/x" ∷ []) stale
      written (codes "/c") filled all_entries printed (rw longest_line (omega arith))

root_items :
    (items : List Item) × (catalog_readdir (mounted stale written) never_full (codes "/")
      ≡ ok items)
unfolding directory_path
root_items =
    elim (catalog_readdir-ShowsTree files input_dir paths stale written filled all_entries printed
      ascending (λ b. refl) (rw longest_line (omega arith)) (omega arith) never_full (codes "/")) [
        | inl (items, e, shows) ↦ (given never_full dots items, e)
        | inr (refused, missing) ↦ absurd (missing 0 refl)
      ]

catalog_readdir-Agrees_example :
    All (Agrees (mounted stale written) (directory_path (codes "/"))) root_items.0
catalog_readdir-Agrees_example =
    catalog_readdir-Agrees (mounted stale written) never_full (codes "/") root_items.0 catalog few
      root_items.1

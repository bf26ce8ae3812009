-- ===== src/Examples/Witnesses.antt =====
-- The theorems applied to the catalog of `Examples`.
use catalog_file_system.Catalogfs.Reader.{reader}
use Prim.Native.Nat.{bit_and, bit_or}
use catalog_file_system.Base.{
  true, inl, ◌≢◌, none, suc, ◌+◌, ◌-◌, ◌*◌, ◌<◌, ◌≡◌, ◌↔◌, ◌⊎◌, inr, ◌/◌, false, refl, arith, some,
  List, [], ◌∷◌, ◌++◌, length, replicate, take, drop, pos, ok, err, Halts,
}
use catalog_file_system.Clib.Text.{Bytes, codes, has_byte, last_byte}
use catalog_file_system.Clib.Scan.{sscanf}
use catalog_file_system.Catalogfs.Mount.{StatWdf, Mount, holds}
use catalog_file_system.Catalogfs.Entry.{
  find_depth, entry_format, type_bits, get_entry_from_catalog,
}
use catalog_file_system.Catalogfs.Entry.Limits.{get_entry_from_catalog-far}
use catalog_file_system.Catalogfs.Search.{bin_search, calculate_mid, calculate_mid_long}
use catalog_file_system.Catalogfs.Search.Bounds.{calculate_mid_long_exact}
use catalog_file_system.Catalogfs.Search.Ends.{Row}
use catalog_file_system.Catalogfs.Search.Correct.{
  IsCatalog, Locates, bin_search-Locates, bin_search_sound, bin_search_inside,
}
use catalog_file_system.Catalogfs.Directory.{get_directory_contents}
use catalog_file_system.Catalogfs.Directory.Correct.{Lists, get_directory_contents-Lists}
use catalog_file_system.Catalogfs.Handlers.{
  Item, dots, directory_path, catalog_getattr, catalog_readdir, catalog_readlink,
}
use catalog_file_system.Catalogfs.Handlers.Attributes.{
  Finds, Missing, text, catalog_getattr-Finds, catalog_readlink-Finds,
}
use catalog_file_system.Catalogfs.Handlers.Listing.{AllShown, given, catalog_readdir-Lists}
use catalog_file_system.Catalogfs.Table
use catalog_file_system.Catalogfs.Table.Laws.{catalog_operations-refuses, catalog_operations-Halts}
use catalog_file_system.Catalogfs.Main.{Environment, Globals, start}
use catalog_file_system.Catalogfs.Main.Laws.{Accepts, start_iff}
use catalog_file_system.Generate.Entry.{d_type, type_letter, print_fields, stat_at, target_at}
use catalog_file_system.Generate.Pad.{longest, pad_each_line}
use catalog_file_system.Generate.Pad.Laws.{file_of, with_newlines, drop-pad_each_line}
use catalog_file_system.Generate.Queue.{Ptr, Heap, lookup, Store, init_queue}
use catalog_file_system.Generate.Queue.Trace.{
  Operation, insert, remove, Answer, run, Steps, run-Steps,
}
use catalog_file_system.Generate.Queue.Refines.{Represents}
use catalog_file_system.Generate.Listing.{catalog_listing}
use catalog_file_system.RoundTrip.Walk.{catalog_listing-breadth_first}
use catalog_file_system.RoundTrip.Fields.{locals_of, sscanf-print_fields}
use catalog_file_system.RoundTrip.Mode.{Kind, number, mode_back}
use catalog_file_system.RoundTrip.Entry.{read_back}
use catalog_file_system.RoundTrip.File.{mounted, print_paths, get_entry_from_catalog-print_paths}
use catalog_file_system.RoundTrip.Catalog.{mounted-IsCatalog}
use catalog_file_system.Examples.{
  files, input_dir, paths, stale, written, filled, printed, longest_line, all_entries, ascending,
  catalog, few, finds_file, stat_with, never_full,
}
use catalog_file_system.Examples.Tree.{system, system-Mallocs, tree, tree_in_order, no_queue}

abbrev here : Mount
here = mounted stale written

bin_search-Locates_example :
    Locates (reader here) (codes "/ln") (bin_search (reader here) (codes "/ln"))
bin_search-Locates_example = bin_search-Locates (reader here) (codes "/ln") catalog

get_directory_contents-Lists_example :
    Lists (reader here) (codes "/") (get_directory_contents (reader here) (codes "/"))
    ⊎ ((get_directory_contents (reader here) (codes "/") ≡ err 2) × Missing here (codes "/"))
get_directory_contents-Lists_example =
    get_directory_contents-Lists (reader here) (codes "/") catalog (unfold last_byte in refl)

get_entry_from_catalog-print_paths_example :
    get_entry_from_catalog here (pos 2)
    ≡ ok (read_back (stat_at files (codes "/r/ln")) (codes "/ln") (target_at files (codes "/r/ln")))
get_entry_from_catalog-print_paths_example =
    get_entry_from_catalog-print_paths files input_dir paths stale written 2 filled all_entries
      printed refl (rw longest_line (omega arith)) (rw longest_line (omega arith))

mounted-IsCatalog_example : IsCatalog (reader here)
mounted-IsCatalog_example =
    mounted-IsCatalog files input_dir paths stale written filled all_entries printed ascending
      (λ b. refl) (rw longest_line (omega arith)) (omega arith)

catalog_readdir-Lists_example :
    ((l : Lists
        (reader here)
        (directory_path (codes "/"))
        (get_directory_contents (reader here) (directory_path (codes "/"))))
      × (items : List Item) × (catalog_readdir here never_full (codes "/")
          ≡ ok (given never_full dots items))
      × AllShown here (directory_path (codes "/")) (suc l.lo) items
      × (length items ≡ l.hi - l.lo))
    ⊎ ((catalog_readdir here never_full (codes "/") ≡ err 2)
        × Missing here (directory_path (codes "/")))
catalog_readdir-Lists_example = catalog_readdir-Lists here never_full (codes "/") catalog few

catalog_getattr-Finds_example :
    ((e : StatWdf) × Finds here (codes "/a") e × (catalog_getattr here (codes "/a") ≡ ok e.st_data))
    ⊎ ((catalog_getattr here (codes "/a") ≡ err 2) × Missing here (codes "/a"))
catalog_getattr-Finds_example = catalog_getattr-Finds here (codes "/a") catalog

catalog_readlink-Finds_example :
    ((e : StatWdf) × Finds here (codes "/ln") e
      × (catalog_readlink here (codes "/ln") 4
          ≡ ok (take (4 - 1) (text e.link_dest ++ replicate (4 - 1) 0))))
    ⊎ ((catalog_readlink here (codes "/ln") 4 ≡ err 2) × Missing here (codes "/ln"))
unfolding mounted
catalog_readlink-Finds_example =
    catalog_readlink-Finds here (codes "/ln") catalog 4 (omega arith) (omega arith) (λ b. refl)

catalog_operations-Halts_example :
    Halts (Table.catalog_operations here (Table.readdir (codes "/d") (λ out x. false)))
catalog_operations-Halts_example =
    catalog_operations-Halts here (Table.readdir (codes "/d") (λ out x. false)) few

bin_search_sound_example :
    (2 < here.catalog_len) × Row (reader here) 2 (find_depth (codes "/ln")) (codes "/ln")
bin_search_sound_example = bin_search_sound (reader here) (codes "/ln") 2 catalog.small finds_file

bin_search_inside_example : 2 < here.catalog_len
bin_search_inside_example = bin_search_inside (reader here) (codes "/ln") 2 finds_file

catalog_operations-refuses_example :
    Table.catalog_operations here (Table.unlink (codes "/a")) ≡ err 30
catalog_operations-refuses_example =
    catalog_operations-refuses here (Table.unlink (codes "/a")) 30 refl

abbrev environment : Environment
environment = record {
  catalogfs_catalog = some (codes "/c");
  catalogfs_entry_size = some (codes "38");
  catalogfs_catalog_len = some (codes "4");
}

abbrev globals : Globals
globals = record { catalog_file = codes "/c"; entry_size = pos 38; catalog_len = pos 4 }

start_iff_example : (start environment ≡ some globals) ↔ Accepts environment globals
start_iff_example = start_iff environment globals

drop-pad_each_line_example :
    (rest : Bytes) × (drop
        (longest 0 (with_newlines (codes "ab" ∷ codes "c" ∷ [])) * 1)
        (pad_each_line (file_of (codes "ab" ∷ codes "c" ∷ [])))
      ≡ (codes "c"
          ++ (replicate (longest 0 (with_newlines (codes "ab" ∷ codes "c" ∷ [])) - 2) 1 ++ 10 ∷ []))
        ++ rest)
drop-pad_each_line_example =
    drop-pad_each_line (codes "ab" ∷ codes "c" ∷ []) 1 (unfold has_byte in (refl, (refl, tt)))
      (unfold longest with_newlines in omega arith) refl

sscanf-print_fields_example :
    sscanf entry_format stale.stale_locals
      (print_fields b'f' 0o644 (stat_with 0o100644) (pos 1) (codes "/a" ++ 1 ∷ 10 ∷ []))
    ≡ locals_of b'f' 0o644 (stat_with 0o100644) (pos 1) (codes "/a")
sscanf-print_fields_example =
    sscanf-print_fields stale.stale_locals b'f' 0o644 (stat_with 0o100644) (pos 1) (codes "/a")
      (10 ∷ []) (λ e. cc) (unfold has_byte in refl)

mode_back_example :
    (d_type (number Kind.lnk * 4096 + 0o777) ≡ number Kind.lnk)
    × (bit_and (number Kind.lnk * 4096 + 0o777) 0o7777 ≡ 0o777)
    × (bit_or (type_bits (type_letter (number Kind.lnk))) 0o777 ≡ number Kind.lnk * 4096 + 0o777)
mode_back_example = mode_back Kind.lnk 0o777 (omega arith)

calculate_mid_long_exact_example :
    (calculate_mid_long (pos 0x7fff_ffff_ffff_fff0) (pos 0x7fff_ffff_ffff_ffff)
      ≡ calculate_mid (pos 0x7fff_ffff_ffff_fff0) (pos 0x7fff_ffff_ffff_ffff))
    × (calculate_mid_long (pos 0x7fff_ffff_ffff_fff0) (pos 0x7fff_ffff_ffff_ffff)
        ≡ pos ((0x7fff_ffff_ffff_fff0 + 0x7fff_ffff_ffff_ffff) / 2))
calculate_mid_long_exact_example =
    calculate_mid_long_exact 0x7fff_ffff_ffff_fff0 0x7fff_ffff_ffff_ffff (omega arith) (omega arith)

-- Entries of 1 GiB, the third of which begins at 2 GiB.
abbrev huge : Mount
huge = record stale { entry_size = 0x4000_0000; catalog_len = 3; catalog_file = holds written }

get_entry_from_catalog-far_example : get_entry_from_catalog huge (pos 2) ≡ err 1
get_entry_from_catalog-far_example =
    get_entry_from_catalog-far huge 2 written refl (omega arith) (omega arith)

abbrev operations : List Operation
operations = insert (codes "/r") ∷ insert (codes "/r/d") ∷ remove ∷ remove ∷ remove ∷ []

-- A `malloc` with place for one node.
abbrev address : Heap → Ptr
address [] = 1
address (cell ∷ heap) = 0

abbrev one_node : Store → Ptr
one_node s = address s.heap

one_node-address :
    (heap : Heap)
    → ((address heap ≡ 0) × (true ≡ true))
      ⊎ ((address heap ≢ 0) × (lookup heap (address heap) ≡ none))
unfolding lookup
one_node-address [] = inr ((omega arith), refl)
one_node-address (cell ∷ heap) = inl (refl, refl)

run-Steps_example :
    (s' : Store) × (answers : List Answer) × (names : List Bytes) × (run one_node
        (λ t. 1)
        operations
        (init_queue no_queue)
      ≡ some (s', answers))
    × Steps true [] operations answers names
    × Represents s' names
run-Steps_example =
    run-Steps true one_node (λ t. 1) operations no_queue (λ s. one_node-address s.heap)
      (λ t. omega arith)

catalog_listing-breadth_first_example :
    catalog_listing 3 system input_dir no_queue [] ≡ print_paths files input_dir [] tree
catalog_listing-breadth_first_example =
    catalog_listing-breadth_first system input_dir system-Mallocs filled 3 no_queue [] tree
      tree_in_order

-- ===== src/Examples/Unordered.antt =====
-- A directory with the directories d and d-x, of which the walk prints d first, and by `strcmp` the
-- paths in d-x come first. The search does not find the file in d-x, which the walk printed.
use catalog_file_system.Base.{
  ◌≡◌, refl, Option, some, none, List, [], ◌∷◌, ◌==◌, if◌then◌else◌, length, get_elem?, ℤ, pos,
  negsuc, Outcome, ok, err, out_of_fuel, ◌≢◌, leb_ℤ, ltb_ℤ, compare_ℤ, beq_ℤ, ◌+ℤ◌, ◌-ℤ◌, to_int,
  half,
}
use catalog_file_system.Clib.Text.{Bytes, codes, count_byte, strcmp}
use catalog_file_system.Catalogfs.Entry.{find_depth}
use catalog_file_system.Catalogfs.Reader.{Reader}
use catalog_file_system.Catalogfs.Search.{bin_search, calculate_mid}
use catalog_file_system.Generate.Listing.{Dirent, System}
use catalog_file_system.Generate.Tree.{breadth_first}
use catalog_file_system.Examples.{files, input_dir}
use catalog_file_system.Examples.Tree.{system}

abbrev scanned : Bytes → Option (List Dirent)
scanned path =
    if length path == 2
    then some (
        record { d_type = 4; d_name = codes "d" }
        ∷ record { d_type = 4; d_name = codes "d-x" }
        ∷ [])
    else some (record { d_type = 8; d_name = codes "a" } ∷ [])

abbrev two_directories : System
two_directories = record {
  files = files;
  scandir = λ test path. scanned path;
  malloc = system.malloc;
}

abbrev printed_paths : List Bytes
printed_paths =
    codes "/"
    ∷ codes "/d"
    ∷ codes "/d-x"
    ∷ codes "/d/"
    ∷ codes "/d/a"
    ∷ codes "/d-x/"
    ∷ codes "/d-x/a"
    ∷ []

printed_so : breadth_first 4 two_directories input_dir ([] ∷ []) ≡ ok printed_paths
unfolding breadth_first
printed_so = refl

abbrev entry_of : Option Bytes → Outcome (ℤ × Bytes)
entry_of none = err 1
entry_of (some p) = ok (find_depth p, p)

abbrev entry_at : ℤ → Outcome (ℤ × Bytes)
entry_at (pos i) = entry_of (get_elem? printed_paths i)
entry_at (negsuc i) = err 1

entry_of-ends : (o : Option Bytes) → entry_of o ≢ out_of_fuel
entry_of-ends none = λ e. cc
entry_of-ends (some p) = λ e. cc

entry_at-ends : (z : ℤ) → entry_at z ≢ out_of_fuel
entry_at-ends (pos i) = entry_of-ends (get_elem? printed_paths i)
entry_at-ends (negsuc i) = λ e. cc

abbrev listed : Reader
listed = record {
  catalog_len = 7;
  stale_mid = pos 0;
  entry_at = entry_at;
  entry_at_ends = entry_at-ends;
}

missed : bin_search listed (codes "/d-x/a") ≡ ok (negsuc 0)
unfolding bin_search leb_ℤ ltb_ℤ find_depth ◌+ℤ◌ ◌-ℤ◌ to_int calculate_mid half compare_ℤ count_byte
    strcmp beq_ℤ
missed = refl

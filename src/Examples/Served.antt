-- ===== src/Examples/Served.antt =====
-- The abstract answers for the directory of `Examples.World`.
use catalog_file_system.Base.{◌≡◌, refl, some, [], ◌∷◌, ◌++◌, ok, err}
use catalog_file_system.Clib.Text.{codes}
use catalog_file_system.Catalogfs.Handlers.{dots}
use catalog_file_system.Catalogfs.Spec.{Tree, answer}
use catalog_file_system.Catalogfs.Table
use catalog_file_system.RoundTrip.Serves.{tree_of}
use catalog_file_system.Examples.{input_dir, never_full, stat_with}
use catalog_file_system.Examples.World.{known_files, walk}

abbrev tree : Tree
tree = tree_of known_files input_dir walk

-- Not the directory itself, and not what is below its directories.
root :
    answer tree (Table.readdir (codes "/") never_full)
    ≡ ok (
        Table.items (
          dots
          ++ (record { name = codes "a"; attributes = some (stat_with 0o100644) }
              ∷ record { name = codes "bb"; attributes = some (stat_with 0o040755) }
              ∷ [])))
unfolding answer
root = refl

subdirectory :
    answer tree (Table.readdir (codes "/bb") never_full)
    ≡ ok (
        Table.items
          (dots ++ (record { name = codes "x"; attributes = some (stat_with 0o100644) } ∷ [])))
unfolding answer
subdirectory = refl

-- A file cannot be listed: no path is its own with '/' behind it.
file_listed : answer tree (Table.readdir (codes "/a") never_full) ≡ err 2
unfolding answer
file_listed = refl

other_path : answer tree (Table.getattr (codes "/b")) ≡ err 2
unfolding answer
other_path = refl

changed : answer tree (Table.unlink (codes "/a")) ≡ err 30
unfolding answer
changed = refl

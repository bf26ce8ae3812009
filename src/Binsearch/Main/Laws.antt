-- ===== src/Binsearch/Main/Laws.antt =====
-- binsearchinfile.c: the loops of `main`.
use catalog_file_system.Base.{List, [], ◌∷◌, ℤ, Halts, Halts-bind}
use catalog_file_system.Clib.Text.{Bytes}
use catalog_file_system.Clib.Scan.{sscanf}
use catalog_file_system.Binsearch.Entry.{Disk}
use catalog_file_system.Binsearch.Directory.Same.{range_total}
use catalog_file_system.Binsearch.Main.{path_format, main_loop, main, catalog}

main_loop-Halts :
    (d : Disk) (entries : List Bytes) (file_path : Bytes) (high : ℤ)
    → Halts (main_loop d entries file_path high)
unfolding main_loop
main_loop-Halts d [] file_path high = λ b. cc
main_loop-Halts d (entry ∷ rest) file_path high =
    Halts-bind _ _ (range_total d (sscanf path_format file_path entry) high) (λ range e.
      Halts-bind _ _ (main_loop-Halts d rest (sscanf path_format file_path entry) range.high)
        (λ lines e' b. cc))

-- `main` returns for every file, whatever its variables hold, or ends the process because it cannot
-- open the file: none of the loops that it calls runs on.
pub main-Halts : (d : Disk) (file_path : Bytes) (high : ℤ) → Halts (main d file_path high)
unfolding main
main-Halts d file_path high = main_loop-Halts d catalog file_path high

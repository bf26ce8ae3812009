-- ===== src/Bytecount.antt =====
-- bytecount.c: `main`, which prints the number of bytes of each line of a file.
pub mod Laws
use catalog_file_system.Base.{
  ℕ, Option, none, some, List, [], ◌∷◌, map, length, ℤ, pos, negsuc, to_int, Outcome, ok, exit,
}
use catalog_file_system.Clib.Text.{Bytes}
use catalog_file_system.Generate.Pad.{getlines}

-- How the process ends, and the numbers that it printed.
pub record Ended : Type 0 where
  pub status : ℤ
  pub printed : List ℤ

-- `printf("%d\n", read_nchars)` takes an `int` out of a `ssize_t`.
unfoldable pub count_lines : List Bytes → List ℤ
unfolding to_int
count_lines [] = []
count_lines (l ∷ ls) = to_int (pos (length l)) ∷ count_lines ls

-- The file, if `fopen` with "r+" finds it.
unfoldable pub count_file : Option Bytes → Outcome Ended
unfolding count_lines getlines
count_file none = ok (record { status = negsuc 0; printed = [] })
count_file (some contents) =
    ok (record { status = pos 0; printed = count_lines (getlines contents) })

-- `main`. Before `fopen` it prints the file variable, not yet set, as a string into its message:
-- `stale_file` is whether that can be read.
unfoldable pub main :
    (stale_file : Option Bytes) → (Bytes → Option Bytes) → (argv : List Bytes) → Outcome Ended
unfolding count_file
main (some text) fopen (program ∷ name ∷ []) = count_file (fopen name)
main none fopen (program ∷ name ∷ []) = exit
main stale_file fopen [] = ok (record { status = negsuc 0; printed = [] })
main stale_file fopen (program ∷ []) = ok (record { status = negsuc 0; printed = [] })
main stale_file fopen (program ∷ name ∷ more ∷ rest) =
    ok (record { status = negsuc 0; printed = [] })

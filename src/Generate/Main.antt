-- ===== src/Generate/Main.antt =====
-- generate_catalog.c: `main` and the two files that it writes. Names are taken to fit their buffers.
pub mod Laws
pub mod Status
use Prim.Native.Nat.{bit_and}
use catalog_file_system.Base.{
  ℕ, Bool, true, false, not, ◌||◌, ◌==◌, if◌then◌else◌, is_eq, Option, none, some, List, [], ◌∷◌,
  ◌++◌, length, ℤ, pos, negsuc, Outcome, ok, exit, ◌>>=◌,
}
use catalog_file_system.Clib.Text.{Bytes, codes, strcmp}
use catalog_file_system.Catalogfs.Mount.{Stat}
use catalog_file_system.Generate.Queue.{Store}
use catalog_file_system.Generate.Listing.{System, catalog_listing}
use catalog_file_system.Generate.Pad.{pad_each_line}

-- The contents of the regular files by their names.
abbrev pub Disk : Type 0
Disk = Bytes → Option Bytes

abbrev pub put : Bytes → Option Bytes → Disk → Disk
put name contents disk = λ other. if is_eq (strcmp name other) then contents else disk other

-- The calls of the C library: those of the walk, `stat` (`none` if it fails), whether `fopen` opens
-- a name for writing, and whether `rename` succeeds.
pub record World : Type 0 where
  pub sys : System
  pub stat : Bytes → Option Stat
  pub opens : Bytes → Bool
  pub renames : Bytes → Bytes → Bool

-- How the process ends: the argument of `exit`, or what `main` returns, and the files.
pub record Ended : Type 0 where
  pub status : ℤ
  pub disk : Disk

abbrev pub fail : Disk → Outcome Ended
fail disk = ok (record { status = negsuc 0; disk = disk })

-- `fopen(name, "w+")`: an empty file, and whether there is a stream.
unfoldable pub fopen : World → Bytes → Disk → Disk
fopen w name disk = if w.opens name then put name (some []) disk else disk

-- `rename`.
unfoldable pub rename_file : World → (from to : Bytes) → Disk → Outcome Ended
rename_file w from to disk =
    if w.renames from to
    then ok (record { status = pos 0; disk = put from none (put to (disk from) disk) })
    else fail disk

-- The walk writes the catalog file, and the padding writes the other one, which has to be open.
unfoldable pub write_files :
    ℕ → World → (input_dir catalog_file temp : Bytes) → Disk → Outcome Ended
unfolding catalog_listing pad_each_line rename_file
write_files k w input_dir catalog_file temp disk = do
  file ← catalog_listing k w.sys input_dir (record { head = 0; tail = 0; heap = [] }) []
  if w.opens temp
      then rename_file w temp catalog_file
          (put temp (some (pad_each_line file)) (put catalog_file (some file) disk))
      else exit

abbrev pub temp_name : Bytes → Bytes
temp_name catalog_file = catalog_file ++ codes ".temp"

-- From `fopen` on.
unfoldable pub generate : ℕ → World → (input_dir catalog_file : Bytes) → Disk → Outcome Ended
unfolding fopen write_files
generate k w input_dir catalog_file disk =
    let opened = fopen w (temp_name catalog_file) (fopen w catalog_file disk) in
    if w.opens catalog_file
    then write_files k w input_dir catalog_file (temp_name catalog_file) opened
    else fail opened

-- `stat(…) != 0`, and `S_ISDIR`.
abbrev pub is_directory : Option Stat → Bool
is_directory none = false
is_directory (some st) = bit_and st.st_mode 0o170000 == 0o40000

unfoldable pub check_names : ℕ → World → (input_dir catalog_file : Bytes) → Disk → Outcome Ended
unfolding generate
check_names k w input_dir catalog_file disk =
    if length input_dir == 0 || length catalog_file == 0
    then fail disk
    else if is_directory (w.stat input_dir)
    then generate k w input_dir catalog_file disk
    else fail disk

-- `main`: `usage` if there are not two arguments behind the program's name. The number bounds the
-- rounds of the walk.
unfoldable pub main : ℕ → World → (argv : List Bytes) → Disk → Outcome Ended
unfolding check_names
main k w (program ∷ input_dir ∷ catalog_file ∷ []) disk =
    check_names k w input_dir catalog_file disk
main k w [] disk = fail disk
main k w (program ∷ []) disk = fail disk
main k w (program ∷ input_dir ∷ []) disk = fail disk
main k w (program ∷ input_dir ∷ catalog_file ∷ more ∷ rest) disk = fail disk

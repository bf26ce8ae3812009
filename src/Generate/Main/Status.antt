-- ===== src/Generate/Main/Status.antt =====
-- generate_catalog.c: what the exit status of `main` says.
use catalog_file_system.Base.{
  ℕ, Bool, true, false, ◌||◌, ◌==◌, if◌then◌else◌, ◌≡◌, ◌≢◌, ◌⊎◌, inl, inr, refl, subst, ◌∙◌, arith,
  none, some, List, [], ◌∷◌, length, pos, negsuc, Outcome, ok, err, exit, out_of_fuel, ◌>>=◌,
}
use catalog_file_system.Clib.Text.{Bytes}
use catalog_file_system.Generate.Listing.{catalog_listing}
use catalog_file_system.Generate.Pad.{pad_each_line}
use catalog_file_system.Generate.Main.{
  Disk, put, World, Ended, fail, fopen, rename_file, write_files, temp_name, generate, is_directory,
  check_names, main,
}
use catalog_file_system.Generate.Main.Laws.{put-other, put-same, temp_name-other}

-- The catalog was written: `stat`, both calls of `fopen` and `rename` succeeded, and the padded
-- listing is under the catalog's name. In the walk, `lstat`, `readlink`, `scandir` and the `malloc` of a
-- node may have failed: `catalog_listing` only reports that.
pub record Success (k : ℕ) (w : World) (argv : List Bytes) (ended : Ended) : Type 0 where
  pub program : Bytes
  pub input_dir : Bytes
  pub catalog_file : Bytes
  pub file : Bytes
  pub arguments : argv ≡ program ∷ input_dir ∷ catalog_file ∷ []
  pub named : (input_dir ≢ []) × (catalog_file ≢ [])
  pub directory : is_directory (w.stat input_dir) ≡ true
  pub opened : (w.opens catalog_file ≡ true) × (w.opens (temp_name catalog_file) ≡ true)
  pub listed :
      catalog_listing k w.sys input_dir (record { head = 0; tail = 0; heap = [] }) [] ≡ ok file
  pub renamed : w.renames (temp_name catalog_file) catalog_file ≡ true
  pub left : ended.disk catalog_file ≡ some (pad_each_line file)
  pub gone : ended.disk (temp_name catalog_file) ≡ none

-- A run that ends has the status -1, or 0 and what `P` says.
abbrev Reports : (Ended → Type 0) → Outcome Ended → Type 0
Reports P (ok ended) = (ended.status ≡ negsuc 0) ⊎ ((ended.status ≡ pos 0) × P ended)
Reports P (err e) = Unit {0}
Reports P exit = Unit {0}
Reports P out_of_fuel = Unit {0}

Reports-if :
    (P : Ended → Type 0) (b : Bool) (x y : Outcome Ended)
    → (b ≡ true → Reports P x)
    → (b ≡ false → Reports P y)
    → Reports P (if b then x else y)
Reports-if P true x y h k = h refl
Reports-if P false x y h k = k refl

Reports-bind :
    (P : Ended → Type 0) (o : Outcome Bytes) (f : Bytes → Outcome Ended)
    → ((b : Bytes) → o ≡ ok b → Reports P (f b))
    → Reports P (o >>= f)
Reports-bind P (ok b) f h = h b refl
Reports-bind P (err e) f h = tt
Reports-bind P exit f h = tt
Reports-bind P out_of_fuel f h = tt

filled_of_length :
    (xs ys : Bytes) → (length xs == 0 || length ys == 0) ≡ false → (xs ≢ []) × (ys ≢ [])
filled_of_length [] ys h = cc
filled_of_length (x ∷ xs) [] h = ground arith
filled_of_length (x ∷ xs) (y ∷ ys) h = (λ e. cc, λ e. cc)

module _ (k : ℕ) (w : World) (program input_dir catalog_file : Bytes) where
  abbrev Good : Ended → Type 0
  Good = Success k w (program ∷ input_dir ∷ catalog_file ∷ [])

  abbrev temp : Bytes
  temp = temp_name catalog_file

  -- The files before `rename`, and after it.
  abbrev padded : Disk → Bytes → Disk
  padded disk file = put temp (some (pad_each_line file)) (put catalog_file (some file) disk)

  abbrev moved : Disk → Bytes → Ended
  moved disk file = record {
    status = pos 0;
    disk = put temp none (put catalog_file (padded disk file temp) (padded disk file));
  }

  left_by :
      (disk : Disk) (file : Bytes) → (moved disk file).disk catalog_file ≡ some (pad_each_line file)
  left_by disk file =
      put-other temp catalog_file none (put catalog_file (padded disk file temp) (padded disk file))
        (temp_name-other catalog_file)
      ∙ put-same catalog_file (padded disk file temp) (padded disk file)
      ∙ put-same temp (some (pad_each_line file)) (put catalog_file (some file) disk)

  gone_by : (disk : Disk) (file : Bytes) → (moved disk file).disk temp ≡ none
  gone_by disk file =
      put-same temp none (put catalog_file (padded disk file temp) (padded disk file))

  module _ (named : (input_dir ≢ []) × (catalog_file ≢ []))
      (directory : is_directory (w.stat input_dir) ≡ true)
      (opens : w.opens catalog_file ≡ true) where
    rename_file-Reports :
        (disk : Disk) (file : Bytes)
        → w.opens temp ≡ true
        → catalog_listing k w.sys input_dir (record { head = 0; tail = 0; heap = [] }) [] ≡ ok file
        → Reports Good (rename_file w temp catalog_file (padded disk file))
    unfolding rename_file
    rename_file-Reports disk file opens_temp listed =
        Reports-if Good (w.renames temp catalog_file) (ok (moved disk file))
          (fail (padded disk file))
          (λ renames. inr (
            refl,
            record {
              program = program;
              input_dir = input_dir;
              catalog_file = catalog_file;
              file = file;
              arguments = refl;
              named = named;
              directory = directory;
              opened = (opens, opens_temp);
              listed = listed;
              renamed = renames;
              left = left_by disk file;
              gone = gone_by disk file;
            },
          ))
          (λ e. inl refl)

    write_files-Reports :
        (disk : Disk) → Reports Good (write_files k w input_dir catalog_file temp disk)
    unfolding write_files
    write_files-Reports disk =
        Reports-bind Good
          (catalog_listing k w.sys input_dir (record { head = 0; tail = 0; heap = [] }) [])
          (λ file.
            if w.opens temp then rename_file w temp catalog_file (padded disk file) else exit)
          (λ file listed.
            Reports-if Good (w.opens temp) (rename_file w temp catalog_file (padded disk file)) exit
              (λ opens_temp. rename_file-Reports disk file opens_temp listed) (λ e. tt))

  check_names-Reports : (disk : Disk) → Reports Good (check_names k w input_dir catalog_file disk)
  unfolding check_names generate
  check_names-Reports disk =
      let opened = fopen w temp (fopen w catalog_file disk) in
      let write = write_files k w input_dir catalog_file temp opened in
      let go = if w.opens catalog_file then write else fail opened in
      Reports-if Good (length input_dir == 0 || length catalog_file == 0) (fail disk)
        (if is_directory (w.stat input_dir) then go else fail disk) (λ e. inl refl)
        (λ some_names.
          let named = filled_of_length input_dir catalog_file some_names in
          Reports-if Good (is_directory (w.stat input_dir)) go (fail disk)
            (λ directory.
              Reports-if Good (w.opens catalog_file) write (fail opened)
                (λ opens. write_files-Reports named directory opens opened) (λ e. inl refl))
            (λ e. inl refl))

main-Reports :
    (k : ℕ) (w : World) (argv : List Bytes) (disk : Disk)
    → Reports (Success k w argv) (main k w argv disk)
unfolding main
main-Reports k w [] disk = inl refl
main-Reports k w (program ∷ []) disk = inl refl
main-Reports k w (program ∷ input_dir ∷ []) disk = inl refl
main-Reports k w (program ∷ input_dir ∷ catalog_file ∷ []) disk =
    check_names-Reports k w program input_dir catalog_file disk
main-Reports k w (program ∷ input_dir ∷ catalog_file ∷ more ∷ rest) disk = inl refl

-- Whatever the arguments and the calls do, if `main` ends without a fault then its status is -1, or it
-- is 0 and: there were two arguments, not empty, the first a directory; both files were opened and
-- the second one renamed; and the catalog file holds the padded lines of what `catalog_listing`
-- wrote, and there is no file with ".temp" behind its name.
pub main-Success :
    (k : ℕ) (w : World) (argv : List Bytes) (disk : Disk) (ended : Ended)
    → main k w argv disk ≡ ok ended
    → (ended.status ≡ negsuc 0) ⊎ ((ended.status ≡ pos 0) × Success k w argv ended)
main-Success k w argv disk ended e =
    subst (Reports (Success k w argv)) e (main-Reports k w argv disk)

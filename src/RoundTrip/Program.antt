-- ===== src/RoundTrip/Program.antt =====
-- generate_catalog.c: the catalog file that `main` leaves.
use catalog_file_system.Base.{
  ℕ, true, false, ◌||◌, ◌==◌, if◌then◌else◌, ◌≡◌, ◌≢◌, refl, ap, ◌∙◌, arith, none, some, [], ◌∷◌,
  List, length, pos, ok, exit, Outcome, ◌>>=◌,
}
use catalog_file_system.Clib.Text.{Bytes}
use catalog_file_system.Generate.Tree.{breadth_first, Mallocs}
use catalog_file_system.Generate.Listing.{catalog_listing}
use catalog_file_system.Generate.Pad.{pad_each_line}
use catalog_file_system.Generate.Pad.Laws.{file_of}
use catalog_file_system.Generate.Main.{
  Disk, put, World, Ended, fail, fopen, rename_file, write_files, temp_name, generate, is_directory,
  check_names, main,
}
use catalog_file_system.Generate.Main.Laws.{put-other, put-same, temp_name-other}
use catalog_file_system.RoundTrip.File.{print_paths, texts, print_paths-texts}
use catalog_file_system.RoundTrip.Walk.{catalog_listing-breadth_first}

filled_names : (xs ys : Bytes) → xs ≢ [] → ys ≢ [] → (length xs == 0 || length ys == 0) ≡ false
filled_names [] ys h k = absurd (h refl)
filled_names (x ∷ xs) [] h k = absurd (k refl)
filled_names (x ∷ xs) (y ∷ ys) h k = ground arith

module _ (w : World) (input_dir catalog_file : Bytes) (mallocs : Mallocs w.sys)
    (filled : input_dir ≢ []) (named : catalog_file ≢ [])
    (directory : is_directory (w.stat input_dir) ≡ true) (opens : w.opens catalog_file ≡ true)
    (opens_temp : w.opens (temp_name catalog_file) ≡ true)
    (renames : w.renames (temp_name catalog_file) catalog_file ≡ true) where
  abbrev padded : Disk → Bytes → Disk
  padded disk file =
      put (temp_name catalog_file) (some (pad_each_line file)) (put catalog_file (some file) disk)

  abbrev renamed : Disk → Bytes → Disk
  renamed disk file =
      put (temp_name catalog_file) none
        (put catalog_file (padded disk file (temp_name catalog_file)) (padded disk file))

  abbrev Rest : Disk → Outcome Bytes → Outcome Ended
  Rest disk o = o >>= λ file.
      if w.opens (temp_name catalog_file)
      then rename_file w (temp_name catalog_file) catalog_file (padded disk file)
      else exit

  write_files-renamed :
      (k : ℕ) (disk : Disk) {file : Bytes}
      → catalog_listing k w.sys input_dir (record { head = 0; tail = 0; heap = [] }) [] ≡ ok file
      → write_files k w input_dir catalog_file (temp_name catalog_file) disk
        ≡ ok (record { status = pos 0; disk = renamed disk file })
  unfolding write_files rename_file
  write_files-renamed k disk {file} listed =
      ap (Rest disk) listed
      ∙ ap
          (λ b.
            if b
            then rename_file w (temp_name catalog_file) catalog_file (padded disk file)
            else exit)
          opens_temp
      ∙ ap
          (λ b.
            if b
            then ok (record { status = pos 0; disk = renamed disk file })
            else fail (padded disk file))
          renames

  -- Let `malloc` never fail and give the address of no node in use, the names of the input directory
  -- and the catalog file not be empty, the first be a directory, and the calls of `fopen` and
  -- `rename` succeed. If the breadth-first order of the tree ends within the rounds, then `main`
  -- returns 0. The catalog file holds the padded lines that `print_to_catalog` writes for the paths of
  -- the tree in that order, and there is no file with ".temp" behind its name.
  pub main-Writes :
      (k : ℕ) (program : Bytes) (disk : Disk) (ps : List Bytes)
      → breadth_first k w.sys input_dir ([] ∷ []) ≡ ok ps
      → (file : Bytes) × (ended : Ended) × (print_paths w.sys.files input_dir [] ps ≡ ok file)
        × (main k w (program ∷ input_dir ∷ catalog_file ∷ []) disk ≡ ok ended)
        × (ended.status ≡ pos 0)
        × (ended.disk catalog_file ≡ some (pad_each_line file))
        × (ended.disk (temp_name catalog_file) ≡ none)
  unfolding main check_names generate
  main-Writes k program disk ps order =
      let temp = temp_name catalog_file in
      let file = file_of (texts w.sys.files input_dir ps) in
      let printed : print_paths w.sys.files input_dir [] ps ≡ ok file =
        print_paths-texts w.sys.files input_dir [] ps filled in
      let listed =
        catalog_listing-breadth_first w.sys input_dir mallocs filled k
          (record { head = 0; tail = 0; heap = [] }) [] ps order
        ∙ printed in
      let opened = fopen w temp (fopen w catalog_file disk) in
      (
        file,
        record { status = pos 0; disk = renamed opened file },
        printed,
        ap
              (λ b.
                if b
                then fail disk
                else (if is_directory (w.stat input_dir)
                    then generate k w input_dir catalog_file disk
                    else fail disk))
              (filled_names input_dir catalog_file filled named)
            ∙ ap (λ b. if b then generate k w input_dir catalog_file disk else fail disk) directory
            ∙ ap
                (λ b. if b then write_files k w input_dir catalog_file temp opened else fail opened)
                opens
            ∙ write_files-renamed k opened listed,
        refl,
        put-other temp catalog_file none
              (put catalog_file (padded opened file temp) (padded opened file))
              (temp_name-other catalog_file)
            ∙ put-same catalog_file (padded opened file temp) (padded opened file)
            ∙ put-same temp (some (pad_each_line file)) (put catalog_file (some file) opened),
        put-same temp none (put catalog_file (padded opened file temp) (padded opened file)),
      )

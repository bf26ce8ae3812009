-- ===== src/Generate/Main/Laws.antt =====
-- generate_catalog.c: what `main` does to the files.
use catalog_file_system.Base.{
  ℕ, Bool, true, false, ◌||◌, ◌==◌, if◌then◌else◌, Bool-cases, inl, inr, is_eq, Ordering-cases, ◌≡◌,
  ◌≢◌, refl, ap, ◌∙◌, subst, arith, Option, none, some, [], ◌∷◌, ◌++◌, length, length-append, pos,
  Outcome, ok, err, exit, out_of_fuel, ◌>>=◌,
}
use catalog_file_system.Clib.Text.{Bytes, codes, strcmp}
use catalog_file_system.Clib.Text.Order.{strcmp_refl, strcmp-eq}
use catalog_file_system.Generate.Listing.{catalog_listing}
use catalog_file_system.Generate.Pad.{pad_each_line}
use catalog_file_system.Generate.Main.{
  Disk, put, World, Ended, fail, fopen, rename_file, write_files, temp_name, generate, is_directory,
  check_names, main,
}

same_name : (name other : Bytes) → name ≢ other → is_eq (strcmp name other) ≡ false
same_name name other differ = elim (Ordering-cases (strcmp name other)) [
  | inl lt ↦ rw lt refl
  | inr (inl same) ↦ absurd (differ (strcmp-eq name other same))
  | inr (inr gt) ↦ rw gt refl
]

pub put-other :
    (name other : Bytes) (c : Option Bytes) (disk : Disk)
    → name ≢ other
    → put name c disk other ≡ disk other
put-other name other c disk differ = rw (same_name name other differ) refl

pub put-same : (name : Bytes) (c : Option Bytes) (disk : Disk) → put name c disk name ≡ c
put-same name c disk = rw (strcmp_refl name) refl

append_longer : (xs ys : Bytes) → ys ≢ [] → xs ++ ys ≢ xs
append_longer xs [] filled = λ e. absurd (filled refl)
append_longer xs (y ∷ ys) filled = λ e.
    let n : length (xs ++ y ∷ ys) ≡ length xs = ap length e in
    absurd (omega (arith, n, length-append xs (y ∷ ys)))

pub temp_name-other : (catalog_file : Bytes) → temp_name catalog_file ≢ catalog_file
temp_name-other catalog_file = append_longer catalog_file (codes ".temp") (λ e. cc)

module _ (w : World) (name : Bytes) where
  fopen-other :
      (opened : Bytes) (disk : Disk) → opened ≢ name → fopen w opened disk name ≡ disk name
  unfolding fopen
  fopen-other opened disk differ = elim (Bool-cases (w.opens opened)) [
    | inl opens ↦ rw opens (put-other opened name (some []) disk differ)
    | inr fails ↦ rw fails refl
  ]

  -- The file `name` is after a run what it was.
  abbrev Keeps : Disk → Outcome Ended → Type 0
  Keeps disk (ok ended) = ended.disk name ≡ disk name
  Keeps disk (err e) = Unit {0}
  Keeps disk exit = Unit {0}
  Keeps disk out_of_fuel = Unit {0}

  Keeps-if :
      (b : Bool) (x y : Outcome Ended) (disk : Disk)
      → Keeps disk x
      → Keeps disk y
      → Keeps disk (if b then x else y)
  Keeps-if true x y disk h k = h
  Keeps-if false x y disk h k = k

  Keeps-from :
      (before after : Disk) (o : Outcome Ended)
      → after name ≡ before name
      → Keeps after o
      → Keeps before o
  Keeps-from before after (ok ended) same h = h ∙ same
  Keeps-from before after (err e) same h = tt
  Keeps-from before after exit same h = tt
  Keeps-from before after out_of_fuel same h = tt

  Keeps-bind :
      (o : Outcome Bytes) (f : Bytes → Outcome Ended) (disk : Disk)
      → ((b : Bytes) → Keeps disk (f b))
      → Keeps disk (o >>= f)
  Keeps-bind (ok b) f disk h = h b
  Keeps-bind (err e) f disk h = tt
  Keeps-bind exit f disk h = tt
  Keeps-bind out_of_fuel f disk h = tt

  rename_file-Keeps :
      (from to : Bytes) (disk : Disk)
      → from ≢ name
      → to ≢ name
      → Keeps disk (rename_file w from to disk)
  unfolding rename_file
  rename_file-Keeps from to disk from_differs to_differs =
      Keeps-if (w.renames from to)
        (ok (record { status = pos 0; disk = put from none (put to (disk from) disk) })) (fail disk)
        disk
        (put-other from name none (put to (disk from) disk) from_differs
          ∙ put-other to name (disk from) disk to_differs)
        refl

  module _ (catalog_file : Bytes) (other : catalog_file ≢ name)
      (other_temp : temp_name catalog_file ≢ name) where
    abbrev written : Disk → Bytes → Disk
    written disk file =
        put (temp_name catalog_file) (some (pad_each_line file)) (put catalog_file (some file) disk)

    abbrev rename_written : Disk → Bytes → Outcome Ended
    rename_written disk file =
        rename_file w (temp_name catalog_file) catalog_file (written disk file)

    write_files-Keeps :
        (k : ℕ) (input_dir : Bytes) (disk : Disk)
        → Keeps disk (write_files k w input_dir catalog_file (temp_name catalog_file) disk)
    unfolding write_files
    write_files-Keeps k input_dir disk =
        let temp = temp_name catalog_file in
        Keeps-bind (catalog_listing k w.sys input_dir (record { head = 0; tail = 0; heap = [] }) [])
          (λ file. if w.opens temp then rename_written disk file else exit) disk
          (λ file.
            Keeps-if (w.opens temp) (rename_written disk file) exit disk
              (Keeps-from disk (written disk file) (rename_written disk file)
                (put-other temp name (some (pad_each_line file)) (put catalog_file (some file) disk)
                    other_temp
                  ∙ put-other catalog_file name (some file) disk other)
                (rename_file-Keeps temp catalog_file (written disk file) other_temp other))
              tt)

    generate-Keeps :
        (k : ℕ) (input_dir : Bytes) (disk : Disk)
        → Keeps disk (generate k w input_dir catalog_file disk)
    unfolding generate
    generate-Keeps k input_dir disk =
        let temp = temp_name catalog_file in
        let opened = fopen w temp (fopen w catalog_file disk) in
        let same : opened name ≡ disk name =
          fopen-other temp (fopen w catalog_file disk) other_temp
          ∙ fopen-other catalog_file disk other in
        let run = write_files k w input_dir catalog_file temp opened in
        Keeps-if (w.opens catalog_file) run (fail opened) disk
          (Keeps-from disk opened run same (write_files-Keeps k input_dir opened)) same

    check_names-Keeps :
        (k : ℕ) (input_dir : Bytes) (disk : Disk)
        → Keeps disk (check_names k w input_dir catalog_file disk)
    unfolding check_names
    check_names-Keeps k input_dir disk =
        let run = generate k w input_dir catalog_file disk in
        Keeps-if (length input_dir == 0 || length catalog_file == 0) (fail disk)
          (if is_directory (w.stat input_dir) then run else fail disk) disk refl
          (Keeps-if (is_directory (w.stat input_dir)) run (fail disk) disk
            (generate-Keeps k input_dir disk) refl)

-- Whatever fails, and whatever the tree is: after `main` every file other than the catalog file
-- and the one named with ".temp" behind it is what it was.
pub main-Keeps :
    (k : ℕ) (w : World) (program input_dir catalog_file name : Bytes) (disk : Disk) (ended : Ended)
    → catalog_file ≢ name
    → temp_name catalog_file ≢ name
    → main k w (program ∷ input_dir ∷ catalog_file ∷ []) disk ≡ ok ended
    → ended.disk name ≡ disk name
unfolding main
main-Keeps k w program input_dir catalog_file name disk ended other other_temp e =
    subst (Keeps w name disk) e
      (check_names-Keeps w name catalog_file other other_temp k input_dir disk)

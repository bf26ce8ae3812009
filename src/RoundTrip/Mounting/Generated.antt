-- ===== src/RoundTrip/Mounting/Generated.antt =====
-- The generator's `main`, and then the script on what it leaves.
use catalog_file_system.Base.{
  refl, ℕ, suc, ◌*◌, ◌<◌, ◌≡◌, ◌≢◌, ap, ◌∙◌, arith, true, if◌then◌else◌, some, List, [], ◌∷◌,
  length, pos, ok,
}
use catalog_file_system.Clib.Text.{Bytes}
use catalog_file_system.Clib.Print.{print_natural}
use catalog_file_system.Catalogfs.Mount.{Mount}
use catalog_file_system.Catalogfsmount.{
  Host, no_module, module_ready, catalogfsmount, Commands, called, last_line, mount_catalog,
}
use catalog_file_system.Catalogfsmount.Tools.{Absolute, is_name, Documented}
use catalog_file_system.Generate.Tree.{breadth_first, Mallocs}
use catalog_file_system.Generate.Main.{Disk, World, Ended, temp_name, is_directory, main}
use catalog_file_system.RoundTrip.Whole.{main-leaves}
use catalog_file_system.Generate.Pad.{getlines, longest}
use catalog_file_system.RoundTrip.File.{print_paths, mounted, AllEntries}
use catalog_file_system.RoundTrip.Mounting.{mount_catalog-mounted}

longest_small : (n k : ℕ) → n * suc k < 0x8000_0000 → n < 0x8000_0000
longest_small n k h = grind arith

filled_Absolute : {name : Bytes} → Absolute name → name ≢ []
filled_Absolute (rest, e, plain) = λ empty. cc

-- Let the module be in the kernel, or the user be root and `modprobe` load it, and let the programs
-- that the script calls do what is documented of them. Let `malloc` never fail and give the address
-- of no node in use, and the calls of `fopen` and `rename` succeed; let the input directory be one,
-- the walk end within the rounds, its files be well formed, and the padded file, whose lines are
-- those of `file`, be below 2 GiB. Let the catalog file's name begin with '/' and have no blank, tab,
-- newline, backslash or pattern character (`*`, `?`, `[`), and let the mount
-- point's begin with '/' and have only letters, digits, '/', '.', '_' and '-'. Let `bytecount` read the files that the generator leaves and
-- print its message, and let the environment set `minlen` to the length of a line without its
-- newline. Then `main` ends, and the script, run with the catalog file and a mount point, calls
-- `catalogfs`, which starts, with the sizes of the state in which the padded file is mounted.
pub main-catalogfsmount :
    (h : Host) (c : Commands) (w : World) (program input_dir catalog_file mount : Bytes) (k : ℕ)
    (disk : Disk) (p : Bytes) (ps : List Bytes) (m : Mount) (file text : Bytes) (minlen : ℕ)
    → module_ready h ≡ true
    → Documented c
    → Mallocs w.sys
    → input_dir ≢ []
    → Absolute catalog_file
    → is_name mount ≡ true
    → is_directory (w.stat input_dir) ≡ true
    → w.opens catalog_file ≡ true
    → w.opens (temp_name catalog_file) ≡ true
    → w.renames (temp_name catalog_file) catalog_file ≡ true
    → breadth_first k w.sys input_dir ([] ∷ []) ≡ ok (p ∷ ps)
    → AllEntries w.sys.files input_dir (p ∷ ps)
    → print_paths w.sys.files input_dir [] (p ∷ ps) ≡ ok file
    → longest 0 (getlines file) * length (p ∷ ps) < 0x8000_0000
    → suc minlen ≡ longest 0 (getlines file)
    → (ended : Ended) × (main k w (program ∷ input_dir ∷ catalog_file ∷ []) disk ≡ ok ended)
      × (catalogfsmount h c
            (some text)
            (some (print_natural 10 minlen))
            ended.disk
            (catalog_file ∷ (b'/' ∷ mount) ∷ [])
          ≡ called (
              some (record {
                catalog_file = catalog_file;
                entry_size = pos (mounted m file).entry_size;
                catalog_len = pos (mounted m file).catalog_len;
              })))
unfolding catalogfsmount
main-catalogfsmount h c w program input_dir catalog_file mount k disk p ps m file text minlen ready
      tools mallocs filled path mounts directory opens opens_temp renames walked all printed small
      set =
    let (ended, ran, left) =
      main-leaves w program input_dir catalog_file k disk (p ∷ ps) file mallocs filled
        (filled_Absolute path) directory opens opens_temp renames walked printed in
    (
      ended,
      ran,
      ap
            (λ b.
              if b
              then last_line c (b'/' ∷ mount) (
                  mount_catalog c (some text) (some (print_natural 10 minlen)) ended.disk
                    catalog_file)
              else no_module)
            ready
          ∙ ap (last_line c (b'/' ∷ mount)) (
              mount_catalog-mounted c tools w.sys.files input_dir p ps file text catalog_file
                ended.disk filled all printed
                (longest_small (longest 0 (getlines file)) (length ps) small) path left m minlen
                set)
          ∙ rw (tools.evaluated mount mounts) refl,
    )

-- ===== src/RoundTrip/Mounting.antt =====
-- generate_catalog.c, bytecount.c, catalogfsmount and catalogfs.c together: mounting a generated catalog.
pub mod Generated
use catalog_file_system.Base.{
  is_eq, not, ℕ, zero, suc, ◌*◌, ◌≤◌, ◌<◌, ◌≡◌, ◌≢◌, refl, sym, ap, ◌∙◌, subst, arith, true, ◌==◌,
  inl, inr, Ordering-cases, if◌then◌else◌, Option, none, some, List, [], ◌∷◌, ◌++◌, length, pos,
  Outcome, ok,
}
use catalog_file_system.Clib.Text.{Bytes, codes, strcmp, count_byte}
use catalog_file_system.Clib.Text.Order.{strcmp_refl, strcmp-eq}
use catalog_file_system.Clib.Print.{print_natural}
use catalog_file_system.Bytecount.Laws.{main-pad_each_line}
use catalog_file_system.Bytecount
use catalog_file_system.Catalogfs.Mount.{Mount}
use catalog_file_system.Catalogfs.Main.{Environment, start, atol}
use catalog_file_system.Catalogfsmount.{
  Host, no_module, module_ready, catalogfsmount, Commands, Result, different_sizes, unexpected_size,
  called, printed_by, check_size, mount_catalog, words,
}
use catalog_file_system.Catalogfsmount.Tools.{Absolute, Documented}
use catalog_file_system.Catalogfsmount.Words.{expand-print_natural, expand-Absolute}
use catalog_file_system.Generate.Entry.{Files}
use catalog_file_system.Generate.Tree.{breadth_first, Mallocs}
use catalog_file_system.Generate.Main.{Disk, World, Ended, temp_name, is_directory, main}
use catalog_file_system.RoundTrip.Whole.{main-leaves}
use catalog_file_system.Generate.Pad.{getlines, longest, pad_each_line}
use catalog_file_system.Generate.Pad.Laws.{file_of, with_newlines, getlines-file_of}
use catalog_file_system.Generate.Pad.Sizes.{
  length-with_newlines, length-pad_each_line, count_byte-pad_each_line,
}
use catalog_file_system.RoundTrip.File.{
  print_paths, mounted, AllEntries, texts, texts-AllOneLine, print_paths-texts,
}
use catalog_file_system.RoundTrip.Start.{
  environment_of, wide_lines, start-mounted, atol-print_natural,
}
use catalog_file_system.RoundTrip.Sizes.{check_size-same, check_size-other, products_differ}

module _ (c : Commands) (tools : Documented c) (w : Files) (dir p : Bytes) (ps : List Bytes)
    (file text name : Bytes) (fopen : Bytes → Option Bytes) (filled : dir ≢ [])
    (all : AllEntries w dir (p ∷ ps)) (printed : print_paths w dir [] (p ∷ ps) ≡ ok file)
    (small : longest 0 (getlines file) < 0x8000_0000) (path : Absolute name)
    (found : fopen name ≡ some (pad_each_line file)) where
  file_is : file_of (texts w dir (p ∷ ps)) ≡ file
  file_is =
      let e : ◌≡◌ {A = Outcome Bytes} (ok (file_of (texts w dir (p ∷ ps)))) (ok file) =
        sym (print_paths-texts w dir [] (p ∷ ps) filled) ∙ printed in
      cc

  lines_are : getlines file ≡ with_newlines (texts w dir (p ∷ ps))
  lines_are =
      ap getlines (sym file_is)
      ∙ getlines-file_of (texts w dir (p ∷ ps)) (texts-AllOneLine w dir (p ∷ ps) all)

  narrow : longest 0 (with_newlines (texts w dir (p ∷ ps))) < 0x8000_0000
  narrow = subst (λ t. longest 0 t < 0x8000_0000) lines_are small

  count : length (getlines file) ≡ length (texts w dir (p ∷ ps))
  count = ap length lines_are ∙ length-with_newlines (texts w dir (p ∷ ps))

  size : length (pad_each_line file) ≡ length (getlines file) * longest 0 (getlines file)
  size =
      rw (count, lines_are, ← file_is)
        (length-pad_each_line (texts w dir (p ∷ ps)) (texts-AllOneLine w dir (p ∷ ps) all) narrow)

  lines : count_byte 10 (pad_each_line file) ≡ length (getlines file)
  lines =
      rw (count, ← file_is)
        (count_byte-pad_each_line (texts w dir (p ∷ ps)) (texts-AllOneLine w dir (p ∷ ps) all)
          narrow)

  one_size :
      c.sort_wc (printed_by (Bytecount.main (some text) fopen (codes "./bytecount" ∷ name ∷ [])))
      ≡ 1
  unfolding printed_by
  one_size =
      let counted =
        main-pad_each_line text (codes "./bytecount") name fopen (texts w dir (p ∷ ps))
          (texts-AllOneLine w dir (p ∷ ps) all) narrow
          (found ∙ ap (λ f. some (pad_each_line f)) (sym file_is)) in
      ap (λ o. c.sort_wc (printed_by o)) counted ∙ tools.one_line (length (texts w dir ps)) _

  wide : 13 ≤ longest 0 (getlines file)
  wide = subst (λ f. 13 ≤ longest 0 (getlines f)) file_is (wide_lines w dir p ps all).0

  some_line : 1 ≤ length (getlines file)
  some_line = subst (λ f. 1 ≤ length (getlines f)) file_is (wide_lines w dir p ps all).1

  one : codes "1" ≡ print_natural 10 1
  unfolding print_natural
  one = refl

  -- The script behind its calls of other programs.
  abbrev script : ℕ → (entry_size catalog_len file_size : Bytes) → Result
  script nl entry_size catalog_len file_size =
      if nl == 1
      then check_size c file_size
          (c.expr (c.expand catalog_len ++ (codes "*" ∷ c.expand entry_size)))
          (record {
            catalogfs_catalog = some name;
            catalogfs_entry_size = some entry_size;
            catalogfs_catalog_len = some catalog_len;
          })
      else different_sizes

  -- The script with the words of the catalog's name.
  abbrev script_on : Bytes → List Bytes → Result
  script_on entry_size files =
      script
        (c.sort_wc (printed_by (Bytecount.main (some text) fopen (codes "./bytecount" ∷ files))))
        entry_size (c.wc fopen files) (c.ls fopen files)

  catalog_len_text : c.wc fopen (name ∷ []) ≡ print_natural 10 (length (getlines file))
  catalog_len_text =
      tools.newlines fopen name (pad_each_line file) path found ∙ ap (print_natural 10) lines

  file_size_text :
      c.ls fopen (name ∷ []) ≡ print_natural 10 (length (getlines file) * longest 0 (getlines file))
  file_size_text =
      tools.bytes fopen name (pad_each_line file) path found ∙ ap (print_natural 10) size

  product_text :
      (n k : ℕ)
      → c.expr (c.expand (print_natural 10 n) ++ (codes "*" ∷ c.expand (print_natural 10 k)))
        ≡ print_natural 10 (n * k)
  product_text n k =
      (λ i.
        c.expr (expand-print_natural c tools n i ++ (codes "*" ∷ expand-print_natural c tools k i)))
      ∙ tools.product n k

  abbrev exported : ℕ → Environment
  exported n = record {
    catalogfs_catalog = some name;
    catalogfs_entry_size = some (print_natural 10 n);
    catalogfs_catalog_len = some (print_natural 10 (length (getlines file)));
  }

  -- The run for an entry size that `expr` computes to be `n`.
  run_with :
      (minlen : Option Bytes) (n : ℕ)
      → c.expr (words c minlen ++ (codes "+" ∷ codes "1" ∷ [])) ≡ print_natural 10 n
      → mount_catalog c (some text) minlen fopen name
        ≡ check_size c
            (print_natural 10 (length (getlines file) * longest 0 (getlines file)))
            (print_natural 10 (length (getlines file) * n))
            (exported n)
  unfolding mount_catalog
  run_with minlen n e =
      ap (script_on (c.expr (words c minlen ++ (codes "+" ∷ codes "1" ∷ []))))
        (expand-Absolute c tools name path)
      ∙ (λ i. script (one_size i) (e i) (catalog_len_text i) (file_size_text i))
      ∙ ap
          (λ t.
            check_size c (print_natural 10 (length (getlines file) * longest 0 (getlines file))) t
              (exported n))
          (product_text (length (getlines file)) n)

  -- Let the programs that the script calls do what is documented of them; let the file be a generated
  -- catalog of one well-formed file at least, padded, with its longest line below 2 GiB, and let
  -- `bytecount` find it, under a name that begins with '/' and has no blank, tab, newline, backslash or
  -- pattern character (`*`, `?`, `[`), and print its message. If the environment sets `minlen` to the length of a line
  -- without its newline, then the script calls `catalogfs`, which starts, and its globals are the sizes
  -- of the state in which the padded file is mounted.
  pub mount_catalog-mounted :
      (m : Mount) (k : ℕ)
      → suc k ≡ longest 0 (getlines file)
      → mount_catalog c (some text) (some (print_natural 10 k)) fopen name
        ≡ called (
            some (record {
              catalog_file = name;
              entry_size = pos (mounted m file).entry_size;
              catalog_len = pos (mounted m file).catalog_len;
            }))
  unfolding check_size
  mount_catalog-mounted m k e =
      run_with (some (print_natural 10 k)) (longest 0 (getlines file)) (
        ap (λ ws. c.expr (ws ++ (codes "+" ∷ codes "1" ∷ []))) (expand-print_natural c tools k)
        ∙ tools.sum k
        ∙ ap (print_natural 10) e)
      ∙ check_size-same c tools (environment_of name file)
          (length (getlines file) * longest 0 (getlines file))
      ∙ ap called (start-mounted w dir p ps m file name filled all printed small)

  -- Let the programs that the script calls do what is documented of them; let the file be a generated
  -- catalog of one well-formed file at least, padded, with its longest line below 2 GiB, and let
  -- `bytecount` find it, under a name that begins with '/' and has no blank, tab, newline, backslash or
  -- pattern character (`*`, `?`, `[`), and print its message. If the environment does not set `minlen`, then the
  -- script refuses the catalog for its size.
  pub mount_catalog-unexpected_size : mount_catalog c (some text) none fopen name ≡ unexpected_size
  unfolding check_size
  mount_catalog-unexpected_size =
      run_with none 1 (tools.token ∙ one)
      ∙ check_size-other c tools (exported 1) (length (getlines file) * longest 0 (getlines file))
          (length (getlines file) * 1)
          (products_differ (length (getlines file)) (longest 0 (getlines file)) some_line wide)

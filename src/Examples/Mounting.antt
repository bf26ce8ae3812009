-- ===== src/Examples/Mounting.antt =====
-- The theorems on the buffers of an entry and on the mounting of a catalog, applied to the catalog of
-- `Examples`.
use catalog_file_system.Base.{
  is_eq, not, ◌==◌, ◌≢◌, ℕ, zero, suc, ◌+◌, ◌*◌, Bool, true, false, ◌||◌, beq_ℤ, compare_ℤ, ap, ℤ,
  negsuc, List, [], ◌∷◌, if◌then◌else◌, replicate, length, Option, none, some, ◌≡◌, ◌*ℤ◌, refl,
  arith, pos, to_int, ok,
}
use catalog_file_system.Clib.Text.{Bytes, codes, c_string, count_byte, has_byte, strcmp}
use catalog_file_system.Clib.Scan.{sscanf}
use catalog_file_system.Catalogfs.Mount.{Mount, StatWdf}
use catalog_file_system.Catalogfs.Entry.{read_entry, entry_format}
use catalog_file_system.Catalogfs.Entry.Buffers.{Short, pointee, get_entry_from_catalog-Short}
use catalog_file_system.Clib.Print.{print_natural}
use catalog_file_system.Catalogfs.Main.{atol}
use catalog_file_system.Catalogfsmount.{
  Host, catalogfsmount, Commands, called, unexpected_size, mount_catalog,
}
use catalog_file_system.Catalogfsmount.Tools.{is_plain, is_name, Documented}
use catalog_file_system.RoundTrip.Start.{atol-print_natural}
use catalog_file_system.Generate.Entry.{stat_at, target_at}
use catalog_file_system.Generate.Pad.{pad_each_line}
use catalog_file_system.RoundTrip.Mounting.{mount_catalog-unexpected_size}
use catalog_file_system.RoundTrip.Mounting.Generated.{main-catalogfsmount}
use catalog_file_system.RoundTrip.Entry.{read_back}
use catalog_file_system.RoundTrip.File.{mounted, get_entry_from_catalog-print_paths}
use catalog_file_system.Generate.Main.{Ended, main}
use catalog_file_system.Examples.Programs.{arguments, catalog_name}
use catalog_file_system.Examples.World.{
  world, no_files, walked-Mallocs, walk_in_order, walk-AllEntries, walk_written, walk_printed,
  walk_longest,
}
use catalog_file_system.Examples.{
  files, input_dir, paths, stale, written, filled, printed, longest_line, all_entries,
}

abbrev here : Mount
here = mounted stale written

-- The link's entry.
abbrev link : StatWdf
link = read_back (stat_at files (codes "/r/ln")) (codes "/ln") (target_at files (codes "/r/ln"))

get_entry_from_catalog-Short_example :
    (entry : Bytes) × (read_entry here (to_int (pos here.entry_size *ℤ pos 2)) ≡ ok entry)
    × Short (sscanf entry_format here.stale_locals (c_string entry)).file_path
    × Short (pointee link.file_path)
    × Short (pointee link.link_dest)
get_entry_from_catalog-Short_example =
    get_entry_from_catalog-Short here (pos 2) link (unfold mounted in rw longest_line (omega arith))
      (unfold mounted in omega arith) (unfold mounted in omega arith)
      (get_entry_from_catalog-print_paths files input_dir paths stale written 2 filled all_entries
        printed refl (rw longest_line (omega arith)) (rw longest_line (omega arith)))

-- Programs that do what is documented of those that the script calls.
abbrev member : ℤ → List ℤ → Bool
member z [] = false
member z (y ∷ ys) = beq_ℤ z y || member z ys

abbrev distinct : List ℤ → ℕ
distinct [] = 0
distinct (z ∷ zs) = let rest = distinct zs in if member z zs then rest else suc rest

abbrev whole_of : ℤ → ℕ
whole_of (pos n) = n
whole_of (negsuc n) = 0

abbrev value : Bytes → ℕ
value s = whole_of (atol s)

abbrev of_file : (Bytes → ℕ) → Option Bytes → Bytes
of_file f none = []
of_file f (some bs) = print_natural 10 (f bs)

abbrev of_files : (Bytes → ℕ) → (Bytes → Option Bytes) → List Bytes → Bytes
of_files f fopen [] = []
of_files f fopen (name ∷ names) = of_file f (fopen name)

abbrev put_first : ℕ → List Bytes → List Bytes
put_first b [] = (b ∷ []) ∷ []
put_first b (w ∷ ws) = (b ∷ w) ∷ ws

abbrev blank : ℕ → Bool
blank b = b == 32 || b == 9 || b == 10

-- The words behind a byte that is blank or not, before one that is or not.
abbrev put : ℕ → (blank_here blank_next : Bool) → List Bytes → List Bytes
put b true next words = words
put b false true words = (b ∷ []) ∷ words
put b false false words = put_first b words

-- The words between blanks, tabs and newlines, in a directory where no pattern finds a name.
abbrev split : Bytes → List Bytes
split [] = []
split (b ∷ []) = put b (blank b) true []
split (b ∷ c ∷ cs) = put b (blank b) (blank c) (split (c ∷ cs))

not_blank : (b : ℕ) (bs : Bytes) → is_plain (b ∷ bs) ≡ true → blank b ≡ false
not_blank b bs plain = ground arith

plain_rest : (b : ℕ) (bs : Bytes) → is_plain (b ∷ bs) ≡ true → is_plain bs ≡ true
plain_rest b bs plain = ground arith

abbrev compare : List Bytes → Bool
compare [] = false
compare (a ∷ []) = true
compare (a ∷ b ∷ []) = false
compare (a ∷ op ∷ b ∷ rest) = not (is_eq (strcmp a b))

abbrev compute : List Bytes → Bytes
compute [] = []
compute (a ∷ []) = a
compute (a ∷ b ∷ []) = b
compute (a ∷ op ∷ b ∷ rest) =
    print_natural 10 (if has_byte b'+' op then value a + value b else value a * value b)

abbrev commands : Commands
commands = record {
  expand = split;
  sort_wc = distinct;
  wc = of_files (count_byte 10);
  ls = of_files length;
  expr = compute;
  test = compare;
  evals = is_name;
}

beq_ℤ-refl : (z : ℤ) → beq_ℤ z z ≡ true
unfolding beq_ℤ compare_ℤ
beq_ℤ-refl (pos n) = ground arith
beq_ℤ-refl (negsuc n) = ground arith

distinct-replicate : (n : ℕ) (z : ℤ) → distinct (replicate (suc n) z) ≡ 1
distinct-replicate zero z = refl
distinct-replicate (suc n) z = rw (beq_ℤ-refl z) (distinct-replicate n z)

value-print_natural : (n : ℕ) → value (print_natural 10 n) ≡ n
value-print_natural n = ap whole_of (atol-print_natural n)

split-is_plain : (value : Bytes) → value ≢ [] → is_plain value ≡ true → split value ≡ value ∷ []
split-is_plain [] filled plain = absurd (filled refl)
split-is_plain (b ∷ []) filled plain = ap (λ t. put b t true []) (not_blank b [] plain)
split-is_plain (b ∷ c ∷ cs) filled plain =
    let rest = plain_rest b (c ∷ cs) plain in
    let here = not_blank b (c ∷ cs) plain in
    let next = not_blank c cs rest in
    λ i. put b (here i) (next i) (split-is_plain (c ∷ cs) (λ e. cc) rest i)

commands-Documented : Documented commands
unfolding has_byte atol
commands-Documented = record {
  one_word = split-is_plain;
  other = λ s t. refl;
  evaluated = λ rest name. rw name refl;
  one_line = distinct-replicate;
  newlines = λ fopen name file path found. ap (of_file (count_byte 10)) found;
  bytes = λ fopen name file path found. ap (of_file length) found;
  token = refl;
  sum = λ n.
      let next : n + 1 ≡ suc n = omega arith in
      rw (value-print_natural n) (ap (print_natural 10) next);
  product = λ n k. rw (value-print_natural n, value-print_natural k) refl;
}

abbrev host : Host
host = record { has_fuse = false; is_root = true; modprobe = true }

main-catalogfsmount_example :
    (ended : Ended) × (main 3 world arguments no_files ≡ ok ended)
    × (catalogfsmount host commands
          (some [])
          (some (print_natural 10 37))
          ended.disk
          (catalog_name ∷ codes "/mnt" ∷ [])
        ≡ called (
            some (record {
              catalog_file = catalog_name;
              entry_size = pos (mounted stale walk_written).entry_size;
              catalog_len = pos (mounted stale walk_written).catalog_len;
            })))
main-catalogfsmount_example =
    main-catalogfsmount host commands world (codes "generate_catalog") input_dir catalog_name
      (codes "mnt") 3 no_files (codes "/")
      (codes "/a" ∷ codes "/bb" ∷ codes "/bb/" ∷ codes "/bb/x" ∷ []) stale walk_written [] 37 refl
      commands-Documented walked-Mallocs filled ((codes "c"), refl, refl) refl refl refl refl refl
      walk_in_order walk-AllEntries walk_printed (rw walk_longest (omega arith))
      (rw walk_longest refl)

mount_catalog-unexpected_size_example :
    mount_catalog commands (some []) none (λ name. some (pad_each_line written)) (codes "/c")
    ≡ unexpected_size
mount_catalog-unexpected_size_example =
    mount_catalog-unexpected_size commands commands-Documented files input_dir (codes "/")
      (codes "/a" ∷ codes "/ln" ∷ codes "/d/x" ∷ []) written [] (codes "/c")
      (λ name. some (pad_each_line written)) filled all_entries printed
      (rw longest_line (omega arith)) ((codes "c"), refl, refl) refl

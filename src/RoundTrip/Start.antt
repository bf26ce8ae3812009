-- ===== src/RoundTrip/Start.antt =====
-- generate_catalog.c and catalogfs.c together: the start-up of the file system on a generated catalog.
use catalog_file_system.Base.{
  ℕ, suc, ◌+◌, ◌≤◌, ◌<◌, ◌≡◌, ◌≢◌, refl, sym, subst, arith, some, List, [], ◌∷◌, ◌++◌, length, ℤ,
  pos, to_int_small, ok,
}
use catalog_file_system.Clib.Text.{Bytes}
use catalog_file_system.Clib.Print.{print_natural}
use catalog_file_system.Clib.Scan.Printed.{scan_integer-whole}
use catalog_file_system.Catalogfs.Mount.{Mount, Stat}
use catalog_file_system.Catalogfs.Main.{Environment, start, atol, atoi}
use catalog_file_system.Catalogfs.Main.Laws.{start_iff}
use catalog_file_system.Generate.Entry.{Files, print_fields, stat_at}
use catalog_file_system.Generate.Pad.{getlines, longest}
use catalog_file_system.Generate.Pad.Laws.{
  file_of, with_newlines, getlines-file_of, length-le-longest_text,
}
use catalog_file_system.RoundTrip.File.{
  print_paths, mounted, AllEntries, text_at, texts, texts-AllOneLine, print_paths-texts,
}

pub atol-print_natural : (n : ℕ) → atol (print_natural 10 n) ≡ pos n
unfolding atol
atol-print_natural n = rw (scan_integer-whole n) refl

atoi-print_natural : (n : ℕ) → n < 0x8000_0000 → atoi (print_natural 10 n) ≡ pos n
unfolding atoi
atoi-print_natural n small = rw (atol-print_natural n) (to_int_small n small)

behind : (xs : Bytes) (b : ℕ) (ys : Bytes) (n : ℕ) → n ≤ length ys → suc n ≤ length (xs ++ b ∷ ys)
behind [] b ys n h = omega (arith, h)
behind (x ∷ xs) b ys n h = omega (arith, behind xs b ys n h)

-- The ten spaces, and the separator in front of the text.
print_fields-length :
    (c mode : ℕ) (st : Stat) (depth : ℤ) (rest : Bytes)
    → 1 ≤ length rest
    → 12 ≤ length (print_fields c mode st depth rest)
unfolding print_fields
print_fields-length c mode st depth rest h = behind (c ∷ []) b' ' _ 11 (
    behind _ b' ' _ 10 (
      behind _ b' ' _ 9 (
        behind _ b' ' _ 8 (
          behind _ b' ' _ 7 (
            behind _ b' ' _ 6 (
              behind _ b' ' _ 5
                (behind _ b' ' _ 4 (behind _ b' ' _ 3 (behind _ b' ' _ 2 (omega (arith, h)))))))))))

text_at-length : (w : Files) (dir p : Bytes) → 12 ≤ length (text_at w dir p)
text_at-length w dir p =
    print_fields-length _ _ (stat_at w (dir ++ p)) _ _ (behind _ 1 [] 0 (omega arith))

abbrev pub environment_of : Bytes → Bytes → Environment
environment_of name file = record {
  catalogfs_catalog = some name;
  catalogfs_entry_size = some (print_natural 10 (longest 0 (getlines file)));
  catalogfs_catalog_len = some (print_natural 10 (length (getlines file)));
}

starts_with :
    (name file : Bytes)
    → 13 ≤ longest 0 (getlines file)
    → longest 0 (getlines file) < 0x8000_0000
    → 1 ≤ length (getlines file)
    → start (environment_of name file)
      ≡ some (record {
        catalog_file = name;
        entry_size = pos (longest 0 (getlines file));
        catalog_len = pos (length (getlines file));
      })
starts_with name file wide small some_line = (start_iff (environment_of name file) _).1 (record {
  size_text = print_natural 10 (longest 0 (getlines file));
  len_text = print_natural 10 (length (getlines file));
  has_catalog = refl;
  has_size = refl;
  has_len = refl;
  size_read = atoi-print_natural (longest 0 (getlines file)) small;
  len_read = atol-print_natural (length (getlines file));
  size_bound = omega (arith, wide);
  len_bound = omega (arith, some_line);
})

pub wide_lines :
    (w : Files) (dir p : Bytes) (ps : List Bytes)
    → AllEntries w dir (p ∷ ps)
    → (13 ≤ longest 0 (getlines (file_of (texts w dir (p ∷ ps)))))
      × (1 ≤ length (getlines (file_of (texts w dir (p ∷ ps)))))
wide_lines w dir p ps all =
    let lines = getlines-file_of (texts w dir (p ∷ ps)) (texts-AllOneLine w dir (p ∷ ps) all) in
    let first : length (text_at w dir p) + 1 ≤ longest 0 (with_newlines (texts w dir (p ∷ ps))) =
      length-le-longest_text (texts w dir (p ∷ ps)) 0 refl in
    (
      subst (λ t. 13 ≤ longest 0 t) (sym lines) (omega (arith, first, text_at-length w dir p)),
      subst (λ t. 1 ≤ length t) (sym lines) (unfold with_newlines in omega arith),
    )

-- Let the generator print at least one well-formed file, and let the longest line be below 2 GiB.
-- If the variables give the name of the padded catalog, the length of its longest line and the number
-- of its lines, in decimal, then `main` starts the file system, and its globals are the sizes of the
-- state in which the padded file is mounted.
pub start-mounted :
    (w : Files) (dir p : Bytes) (ps : List Bytes) (m : Mount) (file name : Bytes)
    → dir ≢ []
    → AllEntries w dir (p ∷ ps)
    → print_paths w dir [] (p ∷ ps) ≡ ok file
    → longest 0 (getlines file) < 0x8000_0000
    → start (environment_of name file)
      ≡ some (record {
        catalog_file = name;
        entry_size = pos (mounted m file).entry_size;
        catalog_len = pos (mounted m file).catalog_len;
      })
unfolding mounted
start-mounted w dir p ps m file name filled all printed small =
    let e' = print_paths-texts w dir [] (p ∷ ps) filled in
    let e : file_of (texts w dir (p ∷ ps)) ≡ file = cc in
    let (wide, some_line) =
      subst (λ f. (13 ≤ longest 0 (getlines f)) × (1 ≤ length (getlines f))) e
        (wide_lines w dir p ps all) in
    starts_with name file wide small some_line

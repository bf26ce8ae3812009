-- ===== src/RoundTrip/File.antt =====
-- The whole catalog, from the paths given to `print_to_catalog` through `pad_each_line` to
-- `getEntry_from_catalog`.
use catalog_file_system.Base.{
  ℕ, zero, suc, ltb, ◌+◌, ◌-◌, ◌*◌, ◌<◌, ◌≡◌, ◌≢◌, refl, sym, ap, ◌∙◌, false, arith, some, List, [],
  ◌∷◌, ◌++◌, append_assoc, append-nil, drop-append, ◌==◌, subst, length, replicate, get_elem?, drop,
  pos, to_int_small, pos_mul, Outcome, ok, ◌>>=◌,
}
use catalog_file_system.Clib.Text.{Bytes, has_byte, c_string}
use catalog_file_system.Catalogfs.Mount.{Mount, holds}
use catalog_file_system.Catalogfs.Entry.{
  read_into, get_entry_from_catalog, entry_of_locals, entry_format,
}
use catalog_file_system.Clib.Scan.{sscanf}
use catalog_file_system.Generate.Entry.{Files, entry_line, print_to_catalog, stat_at, target_at}
use catalog_file_system.Generate.Pad.{getlines, longest, pad_each_line}
use catalog_file_system.Generate.Pad.Laws.{
  file_of, with_newlines, AllOneLine, getlines-file_of, length-le-longest_text, length-pad_line,
  pad_line-text, drop-pad_each_line,
}
use catalog_file_system.RoundTrip.Entry.{
  IsEntry, read_back, entry_of_locals-locals_of, line_text, sscanf-line_text, line_text-one_line,
  line_text-append,
}

-- `print_to_catalog` for each of a list of files below `dir`.
unfoldable pub print_paths : Files → Bytes → Bytes → List Bytes → Outcome Bytes
unfolding print_to_catalog
print_paths w dir file [] = ok file
print_paths w dir file (p ∷ ps) = do
  written ← print_to_catalog w file (dir ++ p) dir
  print_paths w dir written ps

-- The state of the file system that is started on the padded catalog, with the sizes of its lines.
unfoldable pub mounted : Mount → Bytes → Mount
unfolding getlines longest pad_each_line
mounted m file = record m {
  entry_size = longest 0 (getlines file);
  catalog_len = length (getlines file);
  catalog_file = holds (pad_each_line file);
}

not_empty : (xs : Bytes) → xs ≢ [] → (length xs == 0) ≡ false
not_empty [] h = absurd (h refl)
not_empty (x ∷ xs) h = ground arith

read_into-append :
    (xs rest : Bytes) (stale : ℕ → ℕ) (i : ℕ) → read_into (length xs) (xs ++ rest) stale i ≡ xs
unfolding read_into
read_into-append [] rest stale i = refl
read_into-append (x ∷ xs) rest stale i = ap (λ ys. x ∷ ys) (read_into-append xs rest stale (i + 1))

module _ (w : Files) (dir : Bytes) where
  -- Every file has a state and a name that the catalog can hold.
  abbrev pub AllEntries : List Bytes → Type 0
  AllEntries [] = Unit {0}
  AllEntries (p ∷ ps) = IsEntry (stat_at w (dir ++ p)) p (target_at w (dir ++ p)) × AllEntries ps

  abbrev pub text_at : Bytes → Bytes
  text_at p = line_text (stat_at w (dir ++ p)) p (target_at w (dir ++ p)) []

  abbrev pub texts : List Bytes → List Bytes
  texts [] = []
  texts (p ∷ ps) = text_at p ∷ texts ps

  pub texts-AllOneLine : (ps : List Bytes) → AllEntries ps → AllOneLine (texts ps)
  texts-AllOneLine [] h = tt
  texts-AllOneLine (p ∷ ps) h = (line_text-one_line _ p _ h.0, texts-AllOneLine ps h.1)

  get_elem?-texts :
      (ps : List Bytes) (i : ℕ) {p : Bytes}
      → get_elem? ps i ≡ some p
      → get_elem? (texts ps) i ≡ some (text_at p)
  get_elem?-texts [] i h = cc
  get_elem?-texts (p ∷ ps) zero h = cc
  get_elem?-texts (p ∷ ps) (suc i) h = get_elem?-texts ps i h

  get_elem?-AllEntries :
      (ps : List Bytes) (i : ℕ) {p : Bytes}
      → get_elem? ps i ≡ some p
      → AllEntries ps
      → IsEntry (stat_at w (dir ++ p)) p (target_at w (dir ++ p))
  get_elem?-AllEntries [] i h k = cc
  get_elem?-AllEntries (p ∷ ps) zero {p = q} h k =
      let e : p ≡ q = cc in
      subst (λ x. IsEntry (stat_at w (dir ++ x)) x (target_at w (dir ++ x))) e k.0
  get_elem?-AllEntries (p ∷ ps) (suc i) h k = get_elem?-AllEntries ps i h k.1

  pub print_to_catalog-text :
      (file p : Bytes)
      → dir ≢ []
      → print_to_catalog w file (dir ++ p) dir ≡ ok (file ++ (text_at p ++ 10 ∷ []))
  unfolding print_to_catalog entry_line
  print_to_catalog-text file p h =
      let filled : (length dir == 0) ≡ false = not_empty dir h in
      let e = line_text-append (stat_at w (dir ++ p)) p (target_at w (dir ++ p)) [] (10 ∷ []) in
      rw (filled, drop-append dir p, e)

  pub print_paths-texts :
      (file : Bytes) (ps : List Bytes)
      → dir ≢ []
      → print_paths w dir file ps ≡ ok (file ++ file_of (texts ps))
  unfolding print_paths file_of
  print_paths-texts file [] h = rw append-nil
  print_paths-texts file (p ∷ ps) h =
      rw (print_to_catalog-text file p h, print_paths-texts (file ++ (text_at p ++ 10 ∷ [])) ps h)
        (simp append_assoc)

abbrev with_file : Mount → ℕ → ℕ → Bytes → Mount
with_file m n k bs = record m { entry_size = n; catalog_len = k; catalog_file = holds bs }

-- `getEntry_from_catalog` takes the `n` bytes at `n * i`.
reads :
    (m : Mount) (n k i : ℕ) (bs xs rest : Bytes)
    → n * i < 0x8000_0000
    → length xs ≡ n
    → drop (n * i) bs ≡ xs ++ rest
    → get_entry_from_catalog (with_file m n k bs) (pos i)
      ≡ ok (entry_of_locals m.stale_link_dest (sscanf entry_format m.stale_locals (c_string xs)))
unfolding get_entry_from_catalog
reads m n k i bs xs rest small len at =
    let same : read_into n (xs ++ rest) m.stale_entry 0 ≡ xs =
      subst (λ t. read_into t (xs ++ rest) m.stale_entry 0 ≡ xs) len
        (read_into-append xs rest m.stale_entry 0) in
    let e : ltb (n * i + 0) 0 ≡ false = ground arith in
    rw (pos_mul n i, to_int_small (n * i) small, e, at, same)

has_byte-padding : (k : ℕ) → has_byte 0 (replicate k 1 ++ 10 ∷ []) ≡ false
unfolding has_byte
has_byte-padding zero = refl
has_byte-padding (suc k) = has_byte-padding k

reads_texts :
    (w : Files) (dir : Bytes) (ps : List Bytes) (m : Mount) (i : ℕ) {p : Bytes}
    → AllEntries w dir ps
    → get_elem? ps i ≡ some p
    → longest 0 (getlines (file_of (texts w dir ps))) < 0x8000_0000
    → longest 0 (getlines (file_of (texts w dir ps))) * i < 0x8000_0000
    → get_entry_from_catalog (mounted m (file_of (texts w dir ps))) (pos i)
      ≡ ok (read_back (stat_at w (dir ++ p)) p (target_at w (dir ++ p)))
unfolding mounted
reads_texts w dir ps m i {p} all found narrow small =
    let clean = texts-AllOneLine w dir ps all in
    let lines = with_newlines (texts w dir ps) in
    let n = longest 0 lines in
    let same : getlines (file_of (texts w dir ps)) ≡ lines =
      getlines-file_of (texts w dir ps) clean in
    let text_found = get_elem?-texts w dir ps i found in
    let narrow' : n < 0x8000_0000 = subst (λ t. longest 0 t < 0x8000_0000) same narrow in
    let at = drop-pad_each_line (texts w dir ps) i clean narrow' text_found in
    let is_entry = get_elem?-AllEntries w dir ps i found all in
    let fits = length-le-longest_text (texts w dir ps) i text_found in
    let len = length-pad_line n (text_at w dir p) fits narrow' in
    let record_text = line_text-append (stat_at w (dir ++ p)) p (target_at w (dir ++ p)) [] _ in
    let file = file_of (texts w dir ps) in
    let padding = replicate (n - (length (text_at w dir p) + 1)) 1 in
    let entry = text_at w dir p ++ (padding ++ 10 ∷ []) in
    let whole : length entry ≡ n =
      ap length (sym (pad_line-text n (text_at w dir p) fits narrow')) ∙ len in
    subst
      (λ t.
        get_entry_from_catalog (with_file m (longest 0 t) (length t) (pad_each_line file)) (pos i)
        ≡ ok (read_back (stat_at w (dir ++ p)) p (target_at w (dir ++ p))))
      (sym same)
      (reads m n (length lines) i (pad_each_line file) entry at.0 (rw same at small) whole at.1
        ∙ ap ok (
            ap
              (λ xs.
                entry_of_locals m.stale_link_dest
                  (sscanf entry_format m.stale_locals (c_string xs)))
              record_text
            ∙ ap (entry_of_locals m.stale_link_dest) (
                sscanf-line_text m.stale_locals (stat_at w (dir ++ p)) p (target_at w (dir ++ p)) _
                  is_entry (has_byte-padding (n - (length (text_at w dir p) + 1))))
            ∙ entry_of_locals-locals_of m.stale_link_dest (stat_at w (dir ++ p)) p
                (target_at w (dir ++ p)) is_entry))

-- Let the generator print files below a directory that is not the empty text, each with a known
-- type, numbers that their C types hold, and a name and a target without the separators, NUL and
-- newline. Then the file system, started on the padded catalog, reads at the place `i` of the list
-- the path below the directory, its depth, what `lstat` said of the file, and a link's target, if
-- the place begins below 2 GiB and the longest line is below 2 GiB.
pub get_entry_from_catalog-print_paths :
    (w : Files) (dir : Bytes) (ps : List Bytes) (m : Mount) (file : Bytes) (i : ℕ) {p : Bytes}
    → dir ≢ []
    → AllEntries w dir ps
    → print_paths w dir [] ps ≡ ok file
    → get_elem? ps i ≡ some p
    → longest 0 (getlines file) < 0x8000_0000
    → longest 0 (getlines file) * i < 0x8000_0000
    → get_entry_from_catalog (mounted m file) (pos i)
      ≡ ok (read_back (stat_at w (dir ++ p)) p (target_at w (dir ++ p)))
get_entry_from_catalog-print_paths w dir ps m file i {p} filled all printed found narrow small =
    let e' = print_paths-texts w dir [] ps filled in
    let e : file_of (texts w dir ps) ≡ file = cc in
    subst
      (λ f.
        longest 0 (getlines f) < 0x8000_0000
        → longest 0 (getlines f) * i < 0x8000_0000
        → get_entry_from_catalog (mounted m f) (pos i)
          ≡ ok (read_back (stat_at w (dir ++ p)) p (target_at w (dir ++ p))))
      e (reads_texts w dir ps m i all found) narrow small

-- With an entry in the catalog, no line is longer than the whole.
pub line_below : (n i k : ℕ) → i < k → n * k < 0x8000_0000 → n < 0x8000_0000
line_below n i zero inside small = absurd (omega arith)
line_below n i (suc k) inside small = grind arith

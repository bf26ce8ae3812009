-- ===== src/RoundTrip/Catalog.antt =====
-- generate_catalog.c and catalogfs.c together: the search's precondition for a generated catalog.
use catalog_file_system.Catalogfs.Reader.{reader}
use catalog_file_system.Base.{
  ℕ, suc, ◌*◌, ◌≤◌, ◌<◌, ◌≡◌, ◌≢◌, refl, ap, ◌∙◌, subst, arith, some, List, [], ◌∷◌, length,
  get_elem?, ok,
}
use catalog_file_system.Clib.Text.{Bytes}
use catalog_file_system.Catalogfs.Mount.{Mount}
use catalog_file_system.Catalogfs.Entry.{find_depth, get_entry_depth_filepath}
use catalog_file_system.Catalogfs.Search.Ends.{Row}
use catalog_file_system.Catalogfs.Search.Correct.{IsCatalog}
use catalog_file_system.Catalogfs.Search.Listed.{Ascending, listed-IsCatalog}
use catalog_file_system.Generate.Entry.{Files}
use catalog_file_system.Generate.Pad.{getlines, longest}
use catalog_file_system.Generate.Pad.Laws.{file_of, with_newlines, getlines-file_of}
use catalog_file_system.RoundTrip.Entry.{read_back}
use catalog_file_system.RoundTrip.File.{
  print_paths, mounted, AllEntries, texts, texts-AllOneLine, print_paths-texts,
  get_entry_from_catalog-print_paths, line_below,
}

length-with_newlines : (ls : List Bytes) → length (with_newlines ls) ≡ length ls
unfolding with_newlines
length-with_newlines [] = refl
length-with_newlines (l ∷ ls) = ap suc (length-with_newlines ls)

length-texts : (w : Files) (dir : Bytes) (ps : List Bytes) → length (texts w dir ps) ≡ length ps
length-texts w dir [] = refl
length-texts w dir (p ∷ ps) = ap suc (length-texts w dir ps)

module _ (w : Files) (dir : Bytes) (ps : List Bytes) (m : Mount) (file : Bytes) (filled : dir ≢ [])
    (all : AllEntries w dir ps) (printed : print_paths w dir [] ps ≡ ok file) (order : Ascending ps)
    (kept : (b : Bytes) → m.left_frame b ≡ b)
    (small : longest 0 (getlines file) * length ps < 0x8000_0000)
    (few : length ps ≤ 0x8000_0000) where
  pub number_of_entries : length (getlines file) ≡ length ps
  number_of_entries =
      let e' = print_paths-texts w dir [] ps filled in
      let e : file_of (texts w dir ps) ≡ file = cc in
      subst (λ f. length (getlines f) ≡ length ps) e
        (ap length (getlines-file_of (texts w dir ps) (texts-AllOneLine w dir ps all))
          ∙ length-with_newlines (texts w dir ps)
          ∙ length-texts w dir ps)

  -- The entry that stands at `i` reads as the path and its depth.
  pub mounted-Row :
      (i : ℕ) (p : Bytes)
      → i < length ps
      → get_elem? ps i ≡ some p
      → Row (reader (mounted m file)) i (find_depth p) p
  unfolding get_entry_depth_filepath read_back mounted
  mounted-Row i p inside found =
      let narrow = line_below (longest 0 (getlines file)) i (length ps) inside small in
      let fits : longest 0 (getlines file) * i < 0x8000_0000 = grind arith in
      rw (
        get_entry_from_catalog-print_paths w dir ps m file i filled all printed found narrow fits,
        kept p,
      )

  len_eq : (mounted m file).catalog_len ≡ length ps
  unfolding mounted
  len_eq = number_of_entries

  -- Let the generator print files as in `get_entry_from_catalog-print_paths`, whose paths begin with
  -- '/' and ascend by depth and, at one depth, by `strcmp`. If the padded file is below 2 GiB, has at
  -- most 2^31 entries, and a frame keeps its text after the return, then the file system that is
  -- started on it meets the precondition of its search.
  pub mounted-IsCatalog : IsCatalog (reader (mounted m file))
  mounted-IsCatalog = listed-IsCatalog (reader (mounted m file)) ps len_eq few order mounted-Row

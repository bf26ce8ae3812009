-- ===== src/RoundTrip/Answers.antt =====
-- generate_catalog.c and catalogfs.c together: what the file system answers for the files of the tree.
use catalog_file_system.Base.{
  ℕ, ◌*◌, ◌≤◌, ◌<◌, ◌≡◌, ◌≢◌, ◌⊎◌, inl, inr, sym, ap, ◌∙◌, subst, arith, some, List, [], ◌++◌,
  length, get_elem?-below, get_elem?-inside, get_elem?, ◌-◌, ◌^◌, ◌==◌, Bool-cases, true, false,
  take, replicate, Outcome, ok, err,
}
use catalog_file_system.Clib.Text.{Bytes}
use catalog_file_system.Catalogfs.Mount.{Mount, Stat, StatWdf}
use catalog_file_system.Catalogfs.Entry.{find_depth, deref}
use catalog_file_system.Catalogfs.Search.Listed.{Ascending}
use catalog_file_system.Catalogfs.Handlers.{catalog_getattr, catalog_readlink}
use catalog_file_system.Catalogfs.Handlers.Attributes.{
  Finds, Missing, text, catalog_getattr-Finds, catalog_readlink-Finds,
}
use catalog_file_system.Generate.Entry.{Files, stat_at, target_at, d_type, type_letter}
use catalog_file_system.Generate.Pad.{getlines, longest}
use catalog_file_system.RoundTrip.Entry.{read_back}
use catalog_file_system.RoundTrip.File.{
  print_paths, mounted, AllEntries, get_entry_from_catalog-print_paths, line_below,
}
use catalog_file_system.RoundTrip.Catalog.{mounted-IsCatalog, mounted-Row, number_of_entries}

-- The answer to `getattr` for a path: what `lstat` said of the file, if the path is in the list, and
-- -ENOENT if it is not.
abbrev pub Answers : Files → Bytes → List Bytes → Bytes → Outcome Stat → Type 0
Answers w dir ps p o =
    ((i : ℕ) × (get_elem? ps i ≡ some p) × (o ≡ ok (stat_at w (dir ++ p))))
    ⊎ ((o ≡ err 2) × ((i : ℕ) → get_elem? ps i ≢ some p))

letter_link : (t : ℕ) → (t == 10) ≡ true → (type_letter t == b'l') ≡ true
unfolding type_letter
letter_link t link = ground arith

letter_other : (t : ℕ) → (t == 10) ≡ false → (type_letter t == b'l') ≡ false
unfolding type_letter
letter_other t other = ground arith

-- Only a link has a target.
text-target :
    (w : Files) (path p : Bytes)
    → text (read_back (stat_at w path) p (target_at w path)).link_dest ≡ target_at w path
unfolding read_back target_at
text-target w path p = elim (Bool-cases (d_type (stat_at w path).st_mode == 10)) [
  | inl link ↦ rw (letter_link (d_type (stat_at w path).st_mode) link)
  | inr other ↦ rw (letter_other (d_type (stat_at w path).st_mode) other, other)
]

module _ (w : Files) (dir : Bytes) (ps : List Bytes) (m : Mount) (file : Bytes) (filled : dir ≢ [])
    (all : AllEntries w dir ps) (printed : print_paths w dir [] ps ≡ ok file) (order : Ascending ps)
    (kept : (b : Bytes) → m.left_frame b ≡ b)
    (small : longest 0 (getlines file) * length ps < 0x8000_0000)
    (few : length ps ≤ 0x8000_0000) where
  -- The entry that is found for a path is the one printed for it.
  listed_entry :
      (p : Bytes) (e : StatWdf)
      → Finds (mounted m file) p e
      → (i : ℕ) × (get_elem? ps i ≡ some p)
        × (e ≡ read_back (stat_at w (dir ++ p)) p (target_at w (dir ++ p)))
  unfolding read_back mounted
  listed_entry p e f =
      let inside : f.at < length ps =
        subst (λ n. f.at < n)
          (number_of_entries w dir ps m file filled all printed order kept small few) f.at_in in
      let (q, listed) = get_elem?-below ps f.at inside in
      let narrow = line_below (longest 0 (getlines file)) f.at (length ps) inside small in
      let fits : longest 0 (getlines file) * f.at < 0x8000_0000 = grind arith in
      let same : ◌≡◌ {A = Outcome StatWdf} (ok e)
          (ok (read_back (stat_at w (dir ++ q)) q (target_at w (dir ++ q)))) =
        sym f.entry
        ∙ get_entry_from_catalog-print_paths w dir ps m file f.at filled all printed listed narrow
            fits in
      let same_entry : e ≡ read_back (stat_at w (dir ++ q)) q (target_at w (dir ++ q)) = cc in
      let same_path : q ≡ p =
        sym (kept q) ∙ sym (ap (λ t. deref m.left_frame t.file_path) same_entry) ∙ f.its_path in
      (
        f.at,
        listed ∙ ap some same_path,
        subst (λ t. e ≡ read_back (stat_at w (dir ++ t)) t (target_at w (dir ++ t))) same_path
            same_entry,
      )

  unlisted : (p : Bytes) → Missing (mounted m file) p → (i : ℕ) → get_elem? ps i ≢ some p
  unfolding mounted
  unlisted p missing i = λ listed.
      let inside : i < length ps = get_elem?-inside ps i listed in
      missing i (find_depth p)
        (subst (λ n. i < n)
          (sym (number_of_entries w dir ps m file filled all printed order kept small few)) inside)
        (mounted-Row w dir ps m file filled all printed order kept small few i p inside listed)

  -- Let the generator print well-formed files, whose paths ascend by depth and `strcmp`, and let the
  -- padded file be below 2 GiB with at most 2^31 entries, and a frame keep its text. Then `getattr`,
  -- in the file system that is started on it, answers with what `lstat` said of the file for the
  -- paths of the list, and -ENOENT for every other path.
  pub catalog_getattr-Answers :
      (p : Bytes) → Answers w dir ps p (catalog_getattr (mounted m file) p)
  unfolding read_back
  catalog_getattr-Answers p =
      let cat = mounted-IsCatalog w dir ps m file filled all printed order kept small few in
      elim (catalog_getattr-Finds (mounted m file) p cat) [
        | inl (e, f, got) ↦
            let (i, listed, same) = listed_entry p e f in
            inl (i, listed, got ∙ ap (λ t. ok t.st_data) same)
        | inr (refused, missing) ↦ inr (refused, unlisted p missing)
      ]

  -- In the same file system, if a frame also keeps its text across a `printf`, `readlink` with a
  -- buffer of `size` bytes (from 1 to 2^64 - 1) answers for the paths of the list with the first
  -- bytes of the link's target, or of the empty text for what is no link, with NUL bytes behind them,
  -- size - 1 in all, and with -ENOENT for every other path.
  pub catalog_readlink-Answers :
      (p : Bytes) (size : ℕ)
      → 1 ≤ size
      → size < 2 ^ 64
      → ((b : Bytes) → m.left_frame_after_printf b ≡ b)
      → ((i : ℕ) × (get_elem? ps i ≡ some p)
          × (catalog_readlink (mounted m file) p size
              ≡ ok (take (size - 1) (target_at w (dir ++ p) ++ replicate (size - 1) 0))))
        ⊎ ((catalog_readlink (mounted m file) p size ≡ err 2) × ((i : ℕ) → get_elem? ps i ≢ some p))
  unfolding mounted
  catalog_readlink-Answers p size low high kept_after =
      let cat = mounted-IsCatalog w dir ps m file filled all printed order kept small few in
      elim (catalog_readlink-Finds (mounted m file) p cat size low high kept_after) [
        | inl (e, f, got) ↦
            let (i, listed, same) = listed_entry p e f in
            inl (
              i,
              listed,
              got
                  ∙ ap (λ t. ok (take (size - 1) (t ++ replicate (size - 1) 0)))
                      (ap (λ t. text t.link_dest) same ∙ text-target w (dir ++ p) p),
            )
        | inr (refused, missing) ↦ inr (refused, unlisted p missing)
      ]

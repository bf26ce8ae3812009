-- ===== src/RoundTrip/Listing.antt =====
-- generate_catalog.c and catalogfs.c together: what `readdir` shows of the tree.
use catalog_file_system.Base.{
  refl, Ordering, ℕ, zero, suc, ◌+◌, ◌-◌, ◌*◌, ◌≤◌, ◌<◌, ◌≡◌, ◌≢◌, ◌⊎◌, inl, inr, sym, ap, ◌∙◌,
  subst, arith, some, List, [], ◌∷◌, ◌++◌, append-nil, length, get_elem?-below, get_elem?-inside,
  dec_lt, drop, drop-append, get_elem?, ℤ, pos, Outcome, ok, err,
}
use catalog_file_system.Clib.Text.{Bytes, count_byte, strcmp}
use catalog_file_system.Clib.Text.Order.{strcmp_refl}
use catalog_file_system.Catalogfs.Mount.{Mount, StatWdf}
use catalog_file_system.Catalogfs.Entry.{find_depth, get_entry_from_catalog}
use catalog_file_system.Catalogfs.Reader.{reader}
use catalog_file_system.Catalogfs.Search.Ends.{Row}
use catalog_file_system.Catalogfs.Search.Listed.{Ascending, get_elem?-Ascending}
use catalog_file_system.Catalogfs.Directory.{get_directory_contents}
use catalog_file_system.Catalogfs.Directory.Correct.{Lists}
use catalog_file_system.Catalogfs.Handlers.{Item, Filler, dots, directory_path, catalog_readdir}
use catalog_file_system.Catalogfs.Handlers.Listing.{Shows, AllShown, given, catalog_readdir-Lists}
use catalog_file_system.Generate.Entry.{Files, stat_at, target_at}
use catalog_file_system.Generate.Pad.{getlines, longest}
use catalog_file_system.RoundTrip.Entry.{read_back}
use catalog_file_system.RoundTrip.File.{
  print_paths, mounted, AllEntries, get_entry_from_catalog-print_paths, line_below,
}
use catalog_file_system.RoundTrip.Catalog.{mounted-IsCatalog, mounted-Row, number_of_entries}

-- The items are those of the paths directly in the directory `dp`, one for each. They stand in the
-- list of paths behind the directory's own, together and in the same order.
pub record ShowsTree (w : Files) (dir : Bytes) (ps : List Bytes) (dp : Bytes) (items : List Item)
    : Type 0 where
  pub own : ℕ
  pub own_at : get_elem? ps own ≡ some dp
  pub only :
      (j : ℕ) (x : Item)
      → get_elem? items j ≡ some x
      → (get_elem? ps (suc own + j) ≡ some (dp ++ x.name))
        × (x.name ≢ [])
        × (count_byte b'/' x.name ≡ 0)
        × (x.attributes ≡ some (stat_at w (dir ++ (dp ++ x.name))))
  pub every :
      (i : ℕ) (name : Bytes)
      → get_elem? ps i ≡ some (dp ++ name)
      → name ≢ []
      → count_byte b'/' name ≡ 0
      → (j : ℕ) × (x : Item) × (i ≡ suc own + j) × (get_elem? items j ≡ some x) × (x.name ≡ name)

append-cancel : (xs ys zs : Bytes) → xs ++ ys ≡ xs ++ zs → ys ≡ zs
append-cancel xs ys zs e = sym (drop-append xs ys) ∙ ap (drop (length xs)) e ∙ drop-append xs zs

AllShown-at :
    (m : Mount) (dp : Bytes) (i : ℕ) (items : List Item) (j : ℕ) {x : Item}
    → AllShown m dp i items
    → get_elem? items j ≡ some x
    → Shows m dp (i + j) x
AllShown-at m dp i [] j h e = cc
AllShown-at m dp i (y ∷ ys) zero {x} h e =
    let same : y ≡ x = cc in
    let at : i ≡ i + 0 = omega arith in
    subst (λ t. Shows m dp t x) at (subst (Shows m dp i) same h.0)
AllShown-at m dp i (y ∷ ys) (suc j) {x} h e =
    let at : suc i + j ≡ i + suc j = omega arith in
    subst (λ t. Shows m dp t x) at (AllShown-at m dp (suc i) ys j h.1 e)

module _ (w : Files) (dir : Bytes) (ps : List Bytes) (m : Mount) (file : Bytes) (filled : dir ≢ [])
    (all : AllEntries w dir ps) (printed : print_paths w dir [] ps ≡ ok file) (order : Ascending ps)
    (kept : (b : Bytes) → m.left_frame b ≡ b)
    (small : longest 0 (getlines file) * length ps < 0x8000_0000)
    (few : length ps < 0x8000_0000) where
  abbrev here : Mount
  here = mounted m file

  row_at :
      (i : ℕ) (p : Bytes)
      → i < length ps
      → get_elem? ps i ≡ some p
      → Row (reader here) i (find_depth p) p
  row_at = mounted-Row w dir ps m file filled all printed order kept small (omega (arith, few))

  len_here : here.catalog_len ≡ length ps
  unfolding mounted
  len_here =
      number_of_entries w dir ps m file filled all printed order kept small (omega (arith, few))

  -- The path at a location that reads.
  path_of_row :
      (i : ℕ) (d : ℤ) (p : Bytes)
      → i < length ps
      → Row (reader here) i d p
      → get_elem? ps i ≡ some p
  path_of_row i d p inside row =
      let (q, found) = get_elem?-below ps i inside in
      let same : ◌≡◌ {A = Outcome (ℤ × Bytes)} (ok (find_depth q, q)) (ok (d, p)) =
        sym (row_at i q inside found) ∙ row in
      let path : q ≡ p = cc in found ∙ ap some path

  attributes_of :
      (i : ℕ) (p : Bytes) (e : StatWdf)
      → i < length ps
      → get_elem? ps i ≡ some p
      → get_entry_from_catalog here (pos i) ≡ ok e
      → e.st_data ≡ stat_at w (dir ++ p)
  unfolding read_back
  attributes_of i p e inside found read =
      let narrow = line_below (longest 0 (getlines file)) i (length ps) inside small in
      let fits : longest 0 (getlines file) * i < 0x8000_0000 = grind arith in
      let same : ◌≡◌ {A = Outcome StatWdf} (ok e)
          (ok (read_back (stat_at w (dir ++ p)) p (target_at w (dir ++ p)))) =
        sym read
        ∙ get_entry_from_catalog-print_paths w dir ps m file i filled all printed found narrow
            fits in
      let same_entry : e ≡ read_back (stat_at w (dir ++ p)) p (target_at w (dir ++ p)) = cc in
      ap (λ t. t.st_data) same_entry

  -- A path in the directory that is not the directory's own stands behind it.
  after_own :
      (dp name : Bytes) (lo i : ℕ)
      → lo < length ps
      → Row (reader here) lo (find_depth dp) dp
      → lo ≤ i
      → get_elem? ps i ≡ some (dp ++ name)
      → name ≢ []
      → lo < i
  after_own dp name lo i inside own above found named = elim (dec_lt lo i) [
    | yes lt ↦ lt
    | no ge ↦
        let at : lo ≡ i = omega arith in
        let own_path = path_of_row lo (find_depth dp) dp inside own in
        let same : some dp ≡ some (dp ++ name) =
          sym own_path ∙ ap (λ t. get_elem? ps t) at ∙ found in
        let path : dp ≡ dp ++ name = cc in
        absurd (named (append-cancel dp name [] (sym path ∙ sym (append-nil dp))))
  ]

  -- What stands behind the directory's own path and begins with it has a name.
  named_behind :
      (dp name : Bytes) (lo i : ℕ)
      → get_elem? ps lo ≡ some dp
      → lo < i
      → get_elem? ps i ≡ some (dp ++ name)
      → name ≢ []
  named_behind dp name lo i own lt found = λ empty.
      let same : dp ++ name ≡ dp = ap (λ t. dp ++ t) empty ∙ append-nil dp in
      let twice = get_elem?-Ascending ps lo i order lt own (found ∙ ap some same) in
      let less : strcmp dp dp ≡ Ordering.lt = twice.1 refl in
      let equal : strcmp dp dp ≡ Ordering.eq = strcmp_refl dp in
      let bad : Ordering.eq ≡ Ordering.lt = sym equal ∙ less in cc

  shown :
      (dp : Bytes) (o : Outcome (ℤ × ℤ)) (l : Lists (reader here) dp o) (items : List Item)
      → AllShown here dp (suc l.lo) items
      → length items ≡ l.hi - l.lo
      → ShowsTree w dir ps dp items
  shown dp o l items shows count =
      let hi_in : l.hi < length ps = subst (λ n. l.hi < n) len_here l.hi_in in
      record {
        own = l.lo;
        own_at = path_of_row l.lo (find_depth dp) dp (omega (arith, l.lo_hi, hi_in)) l.own;
        only = λ j x at.
            let s = AllShown-at here dp (suc l.lo) items j shows at in
            let inside : suc l.lo + j < length ps =
              omega (arith, get_elem?-inside items j at, hi_in, count) in
            let found = path_of_row (suc l.lo + j) s.entry.depth (dp ++ x.name) inside s.row in
            (
              found,
              named_behind dp x.name l.lo (suc l.lo + j)
                  (path_of_row l.lo (find_depth dp) dp (omega (arith, l.lo_hi, hi_in)) l.own)
                  (omega arith) found,
              s.one_part,
              s.attributes
                  ∙ ap some
                      (attributes_of (suc l.lo + j) (dp ++ x.name) s.entry inside found s.read),
            );
        every = λ i name found named plain.
            let inside = get_elem?-inside ps i found in
            let i_in : i < here.catalog_len = subst (λ n. i < n) (sym len_here) inside in
            let row = row_at i (dp ++ name) inside found in
            let (above, under) =
              (l.entries i (find_depth (dp ++ name)) (dp ++ name) i_in row).1
                (name, (λ k. dp ++ name), plain) in
            let after =
              after_own dp name l.lo i (omega (arith, l.lo_hi, hi_in)) l.own above found named in
            let (x, at) =
              get_elem?-below items (i - suc l.lo) (omega (arith, under, after, count)) in
            let s = AllShown-at here dp (suc l.lo) items (i - suc l.lo) shows at in
            let place : suc l.lo + (i - suc l.lo) ≡ i = omega (arith, after) in
            let found' =
              path_of_row (suc l.lo + (i - suc l.lo)) s.entry.depth (dp ++ x.name)
                (omega (arith, place, inside)) s.row in
            let same : some (dp ++ x.name) ≡ some (dp ++ name) =
              sym found' ∙ ap (λ t. get_elem? ps t) place ∙ found in
            let path : dp ++ x.name ≡ dp ++ name = cc in
            (i - suc l.lo, x, sym place, at, append-cancel dp x.name name path);
      }

  -- Let the generator print well-formed files, whose paths ascend by depth and `strcmp`, and let the
  -- padded file be below 2 GiB with less than 2^31 entries, and a frame keep its text. Then `readdir`,
  -- in the file system that is started on it, calls `filler` for ".", ".." and, until it answers that
  -- the buffer is full, for the items of the paths directly in the directory, each with its name and
  -- what `lstat` said of the file, in the order of the list. It answers -ENOENT if the directory's
  -- path with '/' behind it is not in the list.
  pub catalog_readdir-ShowsTree :
      (full : Filler) (path : Bytes)
      → ((items : List Item) × (catalog_readdir here full path ≡ ok (given full dots items))
          × ShowsTree w dir ps (directory_path path) items)
        ⊎ ((catalog_readdir here full path ≡ err 2)
            × ((i : ℕ) → get_elem? ps i ≢ some (directory_path path)))
  catalog_readdir-ShowsTree full path =
      let cat =
        mounted-IsCatalog w dir ps m file filled all printed order kept small
          (omega (arith, few)) in
      let few_here : here.catalog_len < 0x8000_0000 =
        subst (λ n. n < 0x8000_0000) (sym len_here) few in
      elim (catalog_readdir-Lists here full path cat few_here) [
        | inl (l, items, e, shows, count) ↦ inl (
          items,
          e,
          shown (directory_path path) (get_directory_contents (reader here) (directory_path path)) l
              items shows count,
        )
        | inr (refused, missing) ↦ inr (
          refused,
          λ i found.
              let inside = get_elem?-inside ps i found in
              missing i (find_depth (directory_path path))
                (subst (λ n. i < n) (sym len_here) inside)
                (row_at i (directory_path path) inside found),
        )
      ]

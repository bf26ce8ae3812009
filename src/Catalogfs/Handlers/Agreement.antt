-- ===== src/Catalogfs/Handlers/Agreement.antt =====
-- catalogfs.c: `readdir` and `getattr` side by side.
use catalog_file_system.Base.{
  ℕ, suc, ◌+◌, ◌<◌, ◌≤◌, ◌≡◌, ◌⊎◌, inl, inr, refl, sym, ap, ◌∙◌, subst, arith, dec_lt, Bool, true,
  false, if◌then◌else◌, Ordering, List, [], ◌∷◌, ◌++◌, length, All, All-append, none, some, pos,
  Outcome, ok, err, ◌>>=◌, on_error,
}
use catalog_file_system.Clib.Text.{Bytes}
use catalog_file_system.Clib.Text.Order.{strcmp_refl}
use catalog_file_system.Catalogfs.Mount.{Mount, Stat, StatWdf}
use catalog_file_system.Catalogfs.Entry.{
  deref, find_depth, get_entry_from_catalog, get_entry_depth_filepath,
}
use catalog_file_system.Catalogfs.Reader.{Reader, reader}
use catalog_file_system.Catalogfs.Search.Ends.{Row}
use catalog_file_system.Catalogfs.Search.Correct.{IsCatalog}
use catalog_file_system.Catalogfs.Handlers.{
  Item, Filler, dots, directory_path, catalog_getattr, catalog_readdir,
}
use catalog_file_system.Catalogfs.Handlers.Attributes.{Finds, catalog_getattr-Finds}
use catalog_file_system.Catalogfs.Handlers.Listing.{Shows, AllShown, given, catalog_readdir-Lists}

-- In a sorted catalog a path stands in one place.
before_itself :
    (m : Reader) (i j : ℕ) (p : Bytes)
    → IsCatalog m
    → i < j
    → j < m.catalog_len
    → Row m i (find_depth p) p
    → ¬ Row m j (find_depth p) p
before_itself m i j p cat lt inside row = λ row'.
    let less = cat.path_sorted i j (find_depth p) p p lt inside row row' in
    let bad : Ordering.eq ≡ Ordering.lt = sym (strcmp_refl p) ∙ less in cc

one_place :
    (m : Reader) (i j : ℕ) (p : Bytes)
    → IsCatalog m
    → i < m.catalog_len
    → j < m.catalog_len
    → Row m i (find_depth p) p
    → Row m j (find_depth p) p
    → i ≡ j
one_place m i j p cat inside inside' row row' = elim (dec_lt i j) [
  | yes lt ↦ absurd (before_itself m i j p cat lt inside' row row')
  | no ge ↦ elim (dec_lt j i) [
    | yes gt ↦ absurd (before_itself m j i p cat gt inside row' row)
    | no le ↦ omega arith
  ]
]

Finds-Row :
    (m : Mount) (path : Bytes) (e : StatWdf) (f : Finds m path e)
    → Row (reader m) f.at (find_depth path) path
unfolding get_entry_depth_filepath
Finds-Row m path e f =
    ap (λ o. on_error o (err 1) >>= λ e. ok (e.depth, deref m.left_frame e.file_path)) f.entry
    ∙ (λ i. ok (f.its_depth i, f.its_path i))

-- An item of "." or "..", without attributes, or one whose attributes `getattr` gives for its path.
abbrev pub Agrees : Mount → Bytes → Item → Type 0
Agrees m dir x =
    ((x.attributes ≡ none) × ((x.name ≡ b'.' ∷ []) ⊎ (x.name ≡ b'.' ∷ b'.' ∷ [])))
    ⊎ ((a : Stat) × (x.attributes ≡ some a) × (catalog_getattr m (dir ++ x.name) ≡ ok a))

dots-Agrees : (m : Mount) (dir : Bytes) → All (Agrees m dir) dots
dots-Agrees m dir = (inl (refl, inl refl), (inl (refl, inr refl), tt))

module _ (m : Mount) (dir : Bytes) (cat : IsCatalog (reader m)) where
  Shows-Agrees : (i : ℕ) (x : Item) → i < m.catalog_len → Shows m dir i x → Agrees m dir x
  Shows-Agrees i x inside s =
      let row : Row (reader m) i (find_depth (dir ++ x.name)) (dir ++ x.name) =
        subst (λ d. Row (reader m) i d (dir ++ x.name))
          (cat.depths i s.entry.depth (dir ++ x.name) inside s.row).0 s.row in
      elim (catalog_getattr-Finds m (dir ++ x.name) cat) [
        | inr (refused, missing) ↦ absurd (missing i (find_depth (dir ++ x.name)) inside row)
        | inl (e, f, answered) ↦
            let place =
              one_place (reader m) f.at i (dir ++ x.name) cat f.at_in inside
                (Finds-Row m (dir ++ x.name) e f) row in
            let same : ◌≡◌ {A = Outcome StatWdf} (ok e) (ok s.entry) =
              sym f.entry ∙ ap (λ t. get_entry_from_catalog m (pos t)) place ∙ s.read in
            let same_entry : e ≡ s.entry = cc in
            inr (s.entry.st_data, s.attributes, answered ∙ ap (λ t. ok t.st_data) same_entry)
      ]

  AllShown-Agrees :
      (i : ℕ) (items : List Item)
      → i + length items ≤ m.catalog_len
      → AllShown m dir i items
      → All (Agrees m dir) items
  AllShown-Agrees i [] inside h = tt
  AllShown-Agrees i (x ∷ xs) inside h = (
    Shows-Agrees i x (omega (arith, inside)) h.0,
    AllShown-Agrees (suc i) xs (omega (arith, inside)) h.1,
  )

All-if :
    (P : Item → Type 0) (b : Bool) (xs ys : List Item)
    → All P xs
    → All P ys
    → All P (if b then xs else ys)
All-if P true xs ys h k = h
All-if P false xs ys h k = k

All-given :
    (P : Item → Type 0) (full : Filler) (out items : List Item)
    → All P out
    → All P items
    → All P (given full out items)
All-given P full out [] h k = h
All-given P full out (x ∷ xs) h k =
    let h' = All-append P out (x ∷ []) h (k.0, tt) in
    All-if P (full out x) _ _ h' (All-given P full (out ++ x ∷ []) xs h' k.1)

-- In a sorted catalog of less than 2^31 entries, whatever `filler` answers: every item that `readdir`
-- hands over is "." or "..", without attributes, or has the attributes that `getattr` returns for the
-- item's name behind the directory's path.
pub catalog_readdir-Agrees :
    (m : Mount) (full : Filler) (path : Bytes) (items : List Item)
    → IsCatalog (reader m)
    → m.catalog_len < 0x8000_0000
    → catalog_readdir m full path ≡ ok items
    → All (Agrees m (directory_path path)) items
catalog_readdir-Agrees m full path items cat small listed =
    elim (catalog_readdir-Lists m full path cat small) [
      | inr (refused, missing) ↦
          let bad : ◌≡◌ {A = Outcome (List Item)} (err 2) (ok items) = sym refused ∙ listed in cc
      | inl (l, shown, e, all, count) ↦
          let same : ◌≡◌ {A = Outcome (List Item)} (ok (given full dots shown)) (ok items) =
            sym e ∙ listed in
          let same_items : given full dots shown ≡ items = cc in
          subst (All (Agrees m (directory_path path))) same_items (
            All-given (Agrees m (directory_path path)) full dots shown
              (dots-Agrees m (directory_path path))
              (AllShown-Agrees m (directory_path path) cat (suc l.lo) shown
                (omega (arith, count, l.hi_in, l.lo_hi)) all))
    ]

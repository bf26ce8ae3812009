-- ===== src/Catalogfs/Handlers/Attributes.antt =====
-- catalogfs.c: `getattr` and `readlink` in a sorted catalog.
use catalog_file_system.Catalogfs.Reader.{reader}
use catalog_file_system.Base.{
  ℕ, ◌+◌, ◌-◌, ◌<◌, ◌≤◌, ◌%◌, ◌^◌, ◌≡◌, refl, ap, ◌∙◌, ◌⊎◌, inl, inr, arith, ◌++◌, replicate, take,
  ℤ, pos, negsuc, ltb_ℤ, Outcome, ok, err, exit, out_of_fuel, ◌>>=◌, on_error,
}
use catalog_file_system.Clib.Text.{Bytes, strncpy}
use catalog_file_system.Clib.Text.Copy.{strncpy_lem}
use catalog_file_system.Catalogfs.Mount.{Mount, StatWdf, Pointer, into_frame}
use catalog_file_system.Catalogfs.Entry.{
  find_depth, deref, get_entry_from_catalog, get_entry_depth_filepath,
}
use catalog_file_system.Catalogfs.Search.{bin_search}
use catalog_file_system.Catalogfs.Search.Ends.{Row}
use catalog_file_system.Catalogfs.Search.Correct.{IsCatalog, bin_search-Locates}
use catalog_file_system.Catalogfs.Directory.Contents.{pos_nonneg}
use catalog_file_system.Catalogfs.Handlers.{catalog_getattr, catalog_readlink}

abbrev depth_and_path : Mount → Outcome StatWdf → Outcome (ℤ × Bytes)
depth_and_path m o = do e ← on_error o (err 1); ok (e.depth, deref m.left_frame e.file_path)

entry_of_read :
    (m : Mount) (o : Outcome StatWdf) {d : ℤ} {p : Bytes}
    → depth_and_path m o ≡ ok (d, p)
    → (e : StatWdf) × (o ≡ ok e) × (e.depth ≡ d) × (deref m.left_frame e.file_path ≡ p)
entry_of_read m (ok e) h = (e, refl, cc, cc)
entry_of_read m (err k) h = cc
entry_of_read m exit h = cc
entry_of_read m out_of_fuel h = cc

-- A location that reads has an entry behind it, with the depth and the path that were read.
pub Row-entry :
    (m : Mount) (i : ℕ) {d : ℤ} {p : Bytes}
    → Row (reader m) i d p
    → (e : StatWdf) × (get_entry_from_catalog m (pos i) ≡ ok e)
      × (e.depth ≡ d)
      × (deref m.left_frame e.file_path ≡ p)
unfolding get_entry_depth_filepath
Row-entry m i row = entry_of_read m (get_entry_from_catalog m (pos i)) row

-- The entry of a path in the catalog.
pub record Finds (m : Mount) (path : Bytes) (e : StatWdf) : Type 0 where
  pub at : ℕ
  pub at_in : at < m.catalog_len
  pub entry : get_entry_from_catalog m (pos at) ≡ ok e
  pub its_path : deref m.left_frame e.file_path ≡ path
  pub its_depth : e.depth ≡ find_depth path

abbrev pub Missing : Mount → Bytes → Type 0
Missing m path = (i : ℕ) (d : ℤ) → i < m.catalog_len → ¬ Row (reader m) i d path

-- The text that a pointer was given.
abbrev pub text : Pointer → Bytes
text (Pointer.literal s) = s
text (into_frame s) = s

deref-text :
    (frame : Bytes → Bytes) → ((b : Bytes) → frame b ≡ b) → (p : Pointer) → deref frame p ≡ text p
deref-text frame kept (Pointer.literal s) = refl
deref-text frame kept (into_frame s) = kept s

module _ (m : Mount) (path : Bytes) (cat : IsCatalog (reader m)) where
  located :
      ((e : StatWdf) × (f : Finds m path e) × (bin_search (reader m) path ≡ ok (pos f.at)))
      ⊎ ((bin_search (reader m) path ≡ ok (negsuc 0)) × Missing m path)
  located = elim (bin_search-Locates (reader m) path cat) [
    | inl (i, inside, found, row) ↦
        let (e, read, depth, name) = Row-entry m i row in
        inl (
          e,
          record { at = i; at_in = inside; entry = read; its_path = name; its_depth = depth },
          found,
        )
    | inr r ↦ inr r
  ]

  copied :
      (size : ℕ)
      → 1 ≤ size
      → size < 2 ^ 64
      → ((b : Bytes) → m.left_frame_after_printf b ≡ b)
      → (e : StatWdf) (f : Finds m path e) → bin_search (reader m) path ≡ ok (pos f.at)
      → catalog_readlink m path size ≡ ok (strncpy (text e.link_dest) (size - 1))
  unfolding catalog_readlink ltb_ℤ
  copied size low high kept e f found =
      let exact : (size + 2 ^ 64 - 1) % 2 ^ 64 ≡ size - 1 = omega arith in
      rw (
        found,
        pos_nonneg f.at,
        f.entry,
        exact,
        deref-text m.left_frame_after_printf kept e.link_dest,
      )

  not_found :
      (size : ℕ) → bin_search (reader m) path ≡ ok (negsuc 0) → catalog_readlink m path size ≡ err 2
  unfolding catalog_readlink ltb_ℤ
  not_found size missing = rw missing

  -- In a sorted catalog `getattr` of a path returns the attributes of the entry that has this path,
  -- and -ENOENT if no entry has it.
  pub catalog_getattr-Finds :
      ((e : StatWdf) × Finds m path e × (catalog_getattr m path ≡ ok e.st_data))
      ⊎ ((catalog_getattr m path ≡ err 2) × Missing m path)
  unfolding catalog_getattr ltb_ℤ
  catalog_getattr-Finds = elim located [
    | inl (e, f, found) ↦ inl (e, f, rw (found, pos_nonneg f.at, f.entry))
    | inr (missing, none) ↦ inr (rw missing, none)
  ]

  -- In a sorted catalog, where the text of a link outlives the frame that it was read into,
  -- `readlink` with a buffer of `size` bytes fills all but the last: with the first of the bytes of
  -- the link's text and NUL bytes behind them. It returns -ENOENT if no entry has the path.
  pub catalog_readlink-Finds :
      (size : ℕ)
      → 1 ≤ size
      → size < 2 ^ 64
      → ((b : Bytes) → m.left_frame_after_printf b ≡ b)
      → ((e : StatWdf) × Finds m path e
          × (catalog_readlink m path size
              ≡ ok (take (size - 1) (text e.link_dest ++ replicate (size - 1) 0))))
        ⊎ ((catalog_readlink m path size ≡ err 2) × Missing m path)
  catalog_readlink-Finds size low high kept = elim located [
    | inl (e, f, found) ↦ inl (
      e,
      f,
      copied size low high kept e f found ∙ ap ok (strncpy_lem (text e.link_dest) (size - 1)),
    )
    | inr (missing, none) ↦ inr (not_found size missing, none)
  ]

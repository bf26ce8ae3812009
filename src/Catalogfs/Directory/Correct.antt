-- ===== src/Catalogfs/Directory/Correct.antt =====
-- catalogfs.c: what `get_directory_contents` returns.
use catalog_file_system.Base.{
  ℕ, suc, ◌+◌, ◌-◌, ◌<◌, ◌≤◌, ◌≡◌, ◌↔◌, refl, sym, ap, ◌∙◌, ◌⊎◌, inl, inr, false, arith, not, ◌||◌,
  ◌==◌, [], ◌∷◌, length, ℤ, pos, negsuc, ◌-ℤ◌, ltb_ℤ, Outcome, ok, err, ◌>>=◌, on_error,
}
use catalog_file_system.Clib.Text.{Bytes, last_byte}
use catalog_file_system.Catalogfs.Reader.{Reader}
use catalog_file_system.Catalogfs.Entry.{find_depth}
use catalog_file_system.Catalogfs.Search.{bin_search}
use catalog_file_system.Catalogfs.Search.Bounds.{below, pos-prev}
use catalog_file_system.Catalogfs.Search.Ends.{Row, Ends-ok}
use catalog_file_system.Catalogfs.Search.Correct.{IsCatalog, bin_search-Locates}
use catalog_file_system.Catalogfs.Directory.{contents_loop, contents_from, get_directory_contents}
use catalog_file_system.Catalogfs.Directory.Inside.{InDirectory}
use catalog_file_system.Catalogfs.Directory.Range.{is_in, in_range, found_from}
use catalog_file_system.Catalogfs.Directory.Contents.{Contents, contents_loop-Ends}

-- `lo` and `hi` are the locations of the directory and of the last entry in it: the entries between
-- them are the directory's own and those of what it holds directly, and no others.
pub record Lists (m : Reader) (dir : Bytes) (o : Outcome (ℤ × ℤ)) : Type 0 where
  pub lo : ℕ
  pub hi : ℕ
  pub result : o ≡ ok (pos lo, pos hi)
  pub lo_hi : lo ≤ hi
  pub hi_in : hi < m.catalog_len
  pub own : Row m lo (find_depth dir) dir
  pub entries :
      (i : ℕ) (d : ℤ) (p : Bytes)
      → i < m.catalog_len
      → Row m i d p
      → ((lo ≤ i) × (i ≤ hi)) ↔ InDirectory dir p

ends_in_slash :
    (dir : Bytes) → last_byte dir ≡ b'/' → (length dir == 0 || not (last_byte dir == b'/')) ≡ false
unfolding last_byte
ends_in_slash [] h = absurd (omega arith)
ends_in_slash (b ∷ bs) h = ground (arith, h)

module _ (m : Reader) (dir : Bytes) (cat : IsCatalog m) (slash : last_byte dir ≡ b'/') where
  reduces : get_directory_contents m dir ≡ (do low ← bin_search m dir; contents_from m dir low)
  unfolding get_directory_contents
  reduces = rw (ends_in_slash dir slash)

  present :
      (lo : ℕ)
      → lo < m.catalog_len
      → bin_search m dir ≡ ok (pos lo)
      → Row m lo (find_depth dir) dir
      → (z : ℤ) → contents_loop (m.catalog_len + 1 - lo) m dir (pos lo) ≡ ok z
      → Contents m dir lo z
      → Lists m dir (get_directory_contents m dir)
  present lo inside found own z e c =
      let hi_eq : suc (c.b - 1) ≡ c.b = omega (arith, c.lt_b) in
      let high : z -ℤ pos 1 ≡ pos (c.b - 1) =
        ap (λ t. t -ℤ pos 1) c.is_pos ∙ pos-prev c.b ∙ ap below (sym hi_eq) in
      record {
        lo = lo;
        hi = c.b - 1;
        result =
            reduces
            ∙ ap (λ (o : Outcome ℤ). o >>= λ low. contents_from m dir low) found
            ∙ found_from m dir cat lo inside own
            ∙ ap (λ (o : Outcome ℤ). on_error o (err 2) >>= λ i. ok (pos lo, i -ℤ pos 1)) e
            ∙ ap (λ (t : ℤ). ok (pos lo, t)) high;
        lo_hi = omega (arith, c.lt_b);
        hi_in = omega (arith, c.lt_b, c.b_le);
        own = own;
        entries = λ i d p i_in row. (
          λ r. is_in m dir cat lo inside own z c i d p i_in row r.0 (omega (arith, c.lt_b, r.1)),
          λ i_dir.
              let (u, v) = in_range m dir cat lo inside own z c i d p i_in row i_dir in
              (u, omega arith),
        );
      }

  nothing_from : contents_from m dir (negsuc 0) ≡ err 2
  unfolding contents_from ltb_ℤ
  nothing_from = refl

  -- In a sorted catalog, `get_directory_contents` of a path that ends in '/' returns the range of
  -- its entries if the catalog has one with that path, and -ENOENT if it has none.
  pub get_directory_contents-Lists :
      Lists m dir (get_directory_contents m dir)
      ⊎ ((get_directory_contents m dir ≡ err 2)
          × ((i : ℕ) (d : ℤ) → i < m.catalog_len → ¬ Row m i d dir))
  get_directory_contents-Lists = elim (bin_search-Locates m dir cat) [
    | inl (lo, inside, found, own) ↦
        let (z, e, c) =
          Ends-ok cat.readable
            (contents_loop-Ends m dir (m.catalog_len + 1 - lo) lo inside (omega arith)) in
        inl (present lo inside found own z e c)
    | inr (missing, none) ↦ inr (
      reduces ∙ ap (λ (o : Outcome ℤ). o >>= λ low. contents_from m dir low) missing ∙ nothing_from,
      none,
    )
  ]

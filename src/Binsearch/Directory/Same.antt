-- ===== src/Binsearch/Directory/Same.antt =====
-- binsearchinfile.c and catalogfs.c: `get_directory_contents` of the two programs.
use catalog_file_system.Base.{
  ℕ, zero, suc, ◌<◌, ◌≡◌, ◌≢◌, refl, sym, ap, ◌∙◌, subst, true, false, Bool-cases, ◌||◌, not, ◌==◌,
  length, inl, inr, arith, if◌then◌else◌, ℤ, pos, negsuc, ◌+ℤ◌, ◌-ℤ◌, ltb_ℤ, leb_ℤ, rounds,
  to_int_small, Outcome, ok, err, out_of_fuel, exit, ◌>>=◌, on_error, Halts, Halts-on_error,
}
use catalog_file_system.Clib.Text.{Bytes, last_byte}
use catalog_file_system.Catalogfs.Entry
use catalog_file_system.Catalogfs.Directory
use catalog_file_system.Catalogfs.Directory.Contents.{pos_nonneg}
use catalog_file_system.Catalogfs.Search
use catalog_file_system.Catalogfs.Search.Correct.{bin_search-ne-err, bin_search_inside}
use catalog_file_system.Catalogfs.Directory.Halting.{get_directory_contents-Halts}
use catalog_file_system.Binsearch.Entry.{Disk, catalog_len, get_entry_depth_filepath}
use catalog_file_system.Binsearch.Search.Equal.{reader, find_depth_same}
use catalog_file_system.Binsearch.Search.Same.{bin_search_same}
use catalog_file_system.Binsearch.Directory.{
  is_content, contents_loop, Range, contents_from, get_directory_contents,
}

-- The range for the return value 0, and the error code for -1.
abbrev pub range_of : Range → Outcome (ℤ × ℤ)
range_of r = if ltb_ℤ r.ret (pos 0) then err 1 else ok (r.low, r.high)

module _ (d : Disk) (dir : Bytes) where
  abbrev ContentsRound : (ℤ → Outcome ℤ) → ℤ → Outcome ℤ
  ContentsRound rest i = elim (leb_ℤ (pos catalog_len) (i +ℤ pos 1)) [
    | true ↦ ok (i +ℤ pos 1)
    | false ↦ do
      (entry_depth, path) ← get_entry_depth_filepath d (i +ℤ pos 1)
      elim (is_content (Entry.find_depth dir) dir entry_depth path) [
        | true ↦ rest (i +ℤ pos 1)
        | false ↦ ok (i +ℤ pos 1)
      ]
  ]

  contents_loop_same :
      (k : ℕ) (i : ℤ)
      → contents_loop k d (Entry.find_depth dir) dir i ≡ Directory.contents_loop k (reader d) dir i
  unfolding contents_loop Directory.contents_loop is_content Directory.is_content
  contents_loop_same zero i = refl
  contents_loop_same (suc k) i =
      ap (λ rest. ContentsRound rest i) (λ t i'. contents_loop_same k i' t)

  range_of_loop :
      (o : Outcome ℤ) (low high : ℤ)
      → (on_error
            (o >>= λ i. ok (record { ret = pos 0; low = low; high = i -ℤ pos 1 }))
            (ok (record { ret = negsuc 0; low = low; high = high }))
          >>= range_of)
        ≡ on_error (on_error o (err 2) >>= λ i. ok (low, i -ℤ pos 1)) (err 1)
  unfolding ltb_ℤ
  range_of_loop (ok i) low high = refl
  range_of_loop (err e) low high = refl
  range_of_loop exit low high = refl
  range_of_loop out_of_fuel low high = refl

  -- What follows the loop.
  abbrev ends : ℤ → ℤ → Outcome ℤ → Outcome (ℤ × ℤ)
  ends low high o =
      on_error (o >>= λ i. ok (record { ret = pos 0; low = low; high = i -ℤ pos 1 }))
        (ok (record { ret = negsuc 0; low = low; high = high }))
      >>= range_of

  below_zero : (n : ℕ) → ltb_ℤ (negsuc n) (pos 0) ≡ true
  unfolding ltb_ℤ
  below_zero n = ground arith

  contents_from_same :
      (high : ℤ) (i : ℕ)
      → i < catalog_len
      → (contents_from d dir high (pos i) >>= range_of)
        ≡ on_error (Directory.contents_from (reader d) dir (pos i)) (err 1)
  unfolding contents_from Directory.contents_from ltb_ℤ
  contents_from_same high i inside = elim (Bool-cases (leb_ℤ (Entry.find_depth dir) (pos 0))) [
    | inl shallow ↦ rw (find_depth_same dir, pos_nonneg i, shallow)
    | inr deep ↦
        rw (find_depth_same dir, pos_nonneg i, deep)
          (ap
              (λ z. ends (pos i) high (
                contents_loop (rounds (pos catalog_len -ℤ z +ℤ pos 1)) d (Entry.find_depth dir) dir
                  z))
              (to_int_small i (omega (arith, inside)))
            ∙ ap (ends (pos i) high) (contents_loop_same _ (pos i))
            ∙ range_of_loop
                (Directory.contents_loop (rounds (pos catalog_len -ℤ pos i +ℤ pos 1)) (reader d) dir
                  (pos i))
                (pos i) high)
  ]

  searched :
      (high : ℤ) (o : Outcome ℤ)
      → ((e : ℕ) → o ≢ err e)
      → ((i : ℕ) → o ≡ ok (pos i) → i < catalog_len)
      → ((o >>= λ low. contents_from d dir high low) >>= range_of)
        ≡ on_error (o >>= λ low. Directory.contents_from (reader d) dir low) (err 1)
  searched high (ok (pos i)) no_error inside = contents_from_same high i (inside i refl)
  searched high (ok (negsuc n)) no_error inside =
      unfold contents_from Directory.contents_from ltb_ℤ in rw (below_zero n)
  searched high (err e) no_error inside = absurd (no_error e refl)
  searched high exit no_error inside = refl
  searched high out_of_fuel no_error inside = refl

  -- `get_directory_contents` of this program finds the range that the file system finds in what this
  -- program reads, and returns -1 where the file system returns an error code, whatever `*high` held.
  pub get_directory_contents_same :
      (high : ℤ)
      → (get_directory_contents d dir high >>= range_of)
        ≡ on_error (Directory.get_directory_contents (reader d) dir) (err 1)
  unfolding get_directory_contents Directory.get_directory_contents ltb_ℤ
  get_directory_contents_same high =
      elim (Bool-cases (length dir == 0 || not (last_byte dir == b'/'))) [
        | inl no_directory ↦ rw no_directory
        | inr directory ↦ rw directory (
            ap (λ o. (o >>= λ low. contents_from d dir high low) >>= range_of)
              (bin_search_same d dir)
            ∙ searched high (Search.bin_search (reader d) dir) (bin_search-ne-err (reader d) dir)
                (λ i e. bin_search_inside (reader d) dir i e))
      ]

  range-Halts : (o : Outcome Range) → Halts (o >>= range_of) → Halts o
  range-Halts (ok r) h = λ b. cc
  range-Halts (err e) h = λ b. cc
  range-Halts exit h = λ b. cc
  range-Halts out_of_fuel h = λ b. h refl

  pub range_total : (high : ℤ) → Halts (get_directory_contents d dir high)
  range_total high = range-Halts (get_directory_contents d dir high) (
      subst Halts (sym (get_directory_contents_same high))
        (Halts-on_error _ (err 1) (get_directory_contents-Halts (reader d) dir) (λ b. cc)))

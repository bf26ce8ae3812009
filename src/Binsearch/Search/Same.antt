-- ===== src/Binsearch/Search/Same.antt =====
-- binsearchinfile.c and catalogfs.c: `binSearch` of the two programs.
use catalog_file_system.Base.{
  ◌≡◌, refl, ap, ◌∙◌, subst, true, ◌⊎◌, inl, inr, arith, if◌then◌else◌, ℤ, pos, negsuc, ◌+ℤ◌, ◌-ℤ◌,
  ltb_ℤ, leb_ℤ, rounds, to_int, to_int_small, Outcome, ok, err, out_of_fuel, exit, ◌>>=◌, on_error,
}
use catalog_file_system.Clib.Text.{Bytes}
use catalog_file_system.Catalogfs.Entry
use catalog_file_system.Catalogfs.Search
use catalog_file_system.Catalogfs.Search.{Cursor}
use catalog_file_system.Catalogfs.Search.Bounds.{ltb-below, pos-prev}
use catalog_file_system.Catalogfs.Search.Ends.{Ends-post}
use catalog_file_system.Catalogfs.Search.Index.{Narrowed, find_index-Ends}
use catalog_file_system.Binsearch.Entry.{Disk, catalog_len}
use catalog_file_system.Binsearch.Search.{
  find_index, lowest_loop, find_lowest_index, highest_loop, find_highest_index, find_path_loop,
  search_depth, bin_search,
}
use catalog_file_system.Binsearch.Search.Equal.{
  reader, find_depth_same, find_index_loop_same, lowest_loop_same, highest_loop_same,
  find_path_loop_same,
}

module _ (d : Disk) (s : ℤ) where
  find_index_same : (st : Cursor) → find_index d s st ≡ Search.find_index (reader d) s st
  unfolding find_index Search.find_index
  find_index_same st = ap (λ o. on_error o (err 1)) (find_index_loop_same d s _ st)

  module _ (st : Cursor) (small : to_int st.mid ≡ st.mid) where
    find_lowest_index_same : find_lowest_index d s st ≡ Search.find_lowest_index (reader d) s st
    unfolding find_lowest_index Search.find_lowest_index
    find_lowest_index_same =
        ap
          (λ i.
            on_error (lowest_loop (rounds (i -ℤ st.low +ℤ pos 2)) d s st.low i st.depth) (err 1)
            >>= λ t. ok (t +ℤ pos 1))
          small
        ∙ ap (λ o. on_error o (err 1) >>= λ t. ok (t +ℤ pos 1))
            (lowest_loop_same d s _ st.low st.mid st.depth)

    find_highest_index_same : find_highest_index d s st ≡ Search.find_highest_index (reader d) s st
    unfolding find_highest_index Search.find_highest_index
    find_highest_index_same =
        ap
          (λ i.
            on_error (highest_loop (rounds (st.high -ℤ i +ℤ pos 2)) d s st.high i st.depth) (err 1)
            >>= λ t. ok (t -ℤ pos 1))
          small
        ∙ ap (λ o. on_error o (err 1) >>= λ t. ok (t -ℤ pos 1))
            (highest_loop_same d s _ st.high st.mid st.depth)

  search_depth_same :
      (search : Bytes) (st : Cursor)
      → (ltb_ℤ st.high st.low ≡ true) ⊎ (to_int st.mid ≡ st.mid)
      → search_depth d search s st ≡ Search.search_depth (reader d) search s st
  unfolding search_depth Search.search_depth Search.find_path
  search_depth_same search st (inl empty) = rw empty
  search_depth_same search st (inr small) =
      ap
        (λ o.
          if ltb_ℤ st.high st.low
          then ok (negsuc 0)
          else (o >>= λ low. find_highest_index d s (record st { low = low; depth = s }) >>= λ high.
              find_path_loop (rounds (high -ℤ low +ℤ pos 2)) d search low high))
        (find_lowest_index_same st small)
      ∙ ap
          (λ f.
            if ltb_ℤ st.high st.low
            then ok (negsuc 0)
            else (Search.find_lowest_index (reader d) s st >>= f))
          (λ t low.
            (ap
                  (λ o.
                    o >>= λ high. find_path_loop (rounds (high -ℤ low +ℤ pos 2)) d search low high)
                  (find_highest_index_same (record st { low = low; depth = s }) small)
                ∙ ap
                    (λ g.
                      Search.find_highest_index (reader d) s (record st { low = low; depth = s })
                      >>= g)
                    (λ u high.
                      find_path_loop_same d search (rounds (high -ℤ low +ℤ pos 2)) low high u))
              t)

bind_same :
    {A B : Type 0} (o : Outcome A) (f g : A → Outcome B)
    → ((a : A) → o ≡ ok a → f a ≡ g a)
    → (o >>= f) ≡ (o >>= g)
bind_same (ok a) f g h = h a refl
bind_same (err e) f g h = refl
bind_same exit f g h = refl
bind_same out_of_fuel f g h = refl

-- The index that `find_index` leaves in `mid` fits an `int`, or the bounds have crossed.
bounds_small :
    (d : Disk) (s : ℤ) (st : Cursor)
    → Narrowed (reader d) s 0 catalog_len st
    → (ltb_ℤ st.high st.low ≡ true) ⊎ (to_int st.mid ≡ st.mid)
bounds_small d s st nw = elim nw.hit [
  | inl empty ↦ inl (rw (nw.low_eq, nw.high_eq, ltb-below nw.hi nw.lo) (ground arith))
  | inr (j, p, above, under, mid, depth, row) ↦
      inr (rw mid (to_int_small j (omega (arith, under, nw.hi_inside))))
]

module _ (d : Disk) (path : Bytes) where
  abbrev start : ℤ → Cursor
  start high = record { low = pos 0; high = high; mid = d.stale_mid; depth = pos 1 }

  abbrev loops : ℤ → Outcome ℤ
  loops s = do st ← find_index d s (start (pos catalog_len -ℤ pos 1)); search_depth d path s st

  abbrev loops_of_search : ℤ → Outcome ℤ
  loops_of_search s = do
    st ← Search.find_index (reader d) s (start (pos catalog_len -ℤ pos 1))
    Search.search_depth (reader d) path s st

  loops_same : (s : ℤ) → loops s ≡ loops_of_search s
  loops_same s =
      ap (λ o. o >>= search_depth d path s) (find_index_same d s (start (pos catalog_len -ℤ pos 1)))
      ∙ bind_same (Search.find_index (reader d) s (start (pos catalog_len -ℤ pos 1)))
          (search_depth d path s) (Search.search_depth (reader d) path s)
          (λ st e.
            let e' =
              subst (λ h. Search.find_index (reader d) s (start h) ≡ ok st) (pos-prev catalog_len)
                e in
            let ends =
              find_index-Ends (reader d) s 0 catalog_len d.stale_mid (pos 1) (omega arith)
                (omega arith) in
            search_depth_same d s path st (bounds_small d s st (Ends-post ends e')))

  abbrev answer : ℤ → Outcome ℤ → Outcome ℤ
  answer s o =
      if leb_ℤ s (pos 0) then ok (negsuc 0) else (on_error o (ok (negsuc 0)) >>= λ r. ok (to_int r))

  -- `binSearch` of this program is that of the file system on what this program reads, although two
  -- of its loops count in `int`: the same location, or the same error, for every file and every path.
  pub bin_search_same : bin_search d path ≡ Search.bin_search (reader d) path
  unfolding bin_search Search.bin_search
  bin_search_same =
      ap (λ s. answer s (loops s)) (find_depth_same path)
      ∙ ap (answer (Entry.find_depth path)) (loops_same (Entry.find_depth path))

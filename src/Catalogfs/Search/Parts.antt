-- ===== src/Catalogfs/Search/Parts.antt =====
-- catalogfs.c: the three parts of `binSearch` put together.
use native.Mathlib.Decide.{dec_le}
use catalog_file_system.Base.{
  ℕ, ◌<◌, ◌≤◌, ◌≡◌, refl, sym, subst, ap, ◌∙◌, ◌⊎◌, inl, inr, true, false, arith, dec_lt, leb, ℤ,
  pos, negsuc, ◌+ℤ◌, ◌-ℤ◌, eq_of_parts, ok, ◌>>=◌,
}
use catalog_file_system.Clib.Text.{Bytes}
use catalog_file_system.Catalogfs.Reader.{Reader}
use catalog_file_system.Catalogfs.Search.{Cursor, search_depth, find_index, find_path}
use catalog_file_system.Catalogfs.Search.Bounds.{below, ltb-below, below-next, pos-prev}
use catalog_file_system.Catalogfs.Search.Ends.{
  Row, DepthSorted, PathSorted, Ends, returns, bind, mono,
}
use catalog_file_system.Catalogfs.Search.Index.{Narrowed, find_index-Ends}
use catalog_file_system.Catalogfs.Search.Lowest.{Lowest, find_lowest_index-Ends}
use catalog_file_system.Catalogfs.Search.Highest.{Highest, find_highest_index-Ends}
use catalog_file_system.Catalogfs.Search.Path.{Placed, find_path-Ends}

module _ (m : Reader) (s : ℤ) (search : Bytes) where
  -- The location of the entry with depth `s` and the path, or -1; in a sorted catalog -1 says that
  -- there is none.
  abbrev pub Answer : ℤ → Type 0
  Answer z =
      ((j : ℕ) × (j < m.catalog_len) × (z ≡ pos j) × Row m j s search)
      ⊎ ((z ≡ negsuc 0)
          × (DepthSorted m → PathSorted m → (i : ℕ) → i < m.catalog_len → ¬ Row m i s search))

  module _ (lo hi j : ℕ) (p : Bytes) (lo_j : lo ≤ j) (j_hi : j < hi) (hi_in : hi ≤ m.catalog_len)
      (row : Row m j s p)
      (keeps : DepthSorted m
        → (i : ℕ) (q : Bytes) → i < m.catalog_len
        → Row m i s q
        → (lo ≤ i) × (i < hi)) where
    module _ (y z : ℤ) (low : Lowest m s lo j y) (high : Highest m s hi j z) where
      -- The entries between the two edges have the depth.
      between : (t : ℕ) → low.a ≤ t → t < high.b → (q : Bytes) × Row m t s q
      between t u v = elim (dec_le t j) [
        | yes before ↦ low.all t u before
        | no behind ↦ high.all t (omega arith) v
      ]

      -- In a sorted catalog no other entry does.
      from_low : DepthSorted m → (i : ℕ) (q : Bytes) → i < m.catalog_len → Row m i s q → low.a ≤ i
      from_low sorted i q inside r = elim (dec_lt i low.a) [
        | no ge ↦ omega arith
        | yes lt ↦ elim low.edge [
          | inl at_bound ↦ absurd (omega (arith, (keeps sorted i q inside r).0))
          | inr (t, d, p', next, r', other) ↦ absurd (
              other (
                eq_of_parts d s (
                  omega (
                    arith,
                    sorted i t s d q p' (omega arith) (omega (arith, low.a_le)) r r',
                    sorted t j d s p' p (omega (arith, low.a_le)) (omega arith) r' row,
                  ))))
        ]
      ]

      to_high : DepthSorted m → (i : ℕ) (q : Bytes) → i < m.catalog_len → Row m i s q → i < high.b
      to_high sorted i q inside r = elim (dec_lt i high.b) [
        | yes lt ↦ lt
        | no ge ↦ elim high.edge [
          | inl at_bound ↦ absurd (omega (arith, (keeps sorted i q inside r).1))
          | inr (d, p', r', other) ↦ absurd (
              other (
                eq_of_parts d s (
                  omega (
                    arith,
                    sorted high.b i d s p' q (omega arith) inside r' r,
                    sorted j high.b s d p p' (omega (arith, high.i_le)) (omega arith) row r',
                  ))))
        ]
      ]

      answer_of_placed : (w : ℤ) → Placed m s search low.a high.b w → Answer w
      answer_of_placed w (inl (i, u, v, e, r)) = inl (i, omega (arith, high.b_le), e, r)
      answer_of_placed w (inr (e, none)) = inr (
        e,
        λ ds ps i inside r.
            none ps i (from_low ds i search inside r) (to_high ds i search inside r) r,
      )

      edges_ordered : low.a ≤ high.b
      edges_ordered = elim high.edge [
        | inl at_bound ↦ omega (arith, low.a_le)
        | inr (d, p', r', other) ↦ elim (dec_lt j high.b) [
          | yes lt ↦ omega (arith, low.a_le)
          | no ge ↦
              let same : high.b ≡ j = omega (arith, high.i_le) in
              let r = subst (λ t. Row m t d p') same r' in
              let same_depth : d ≡ s = cc in absurd (other same_depth)
        ]
      ]

      find_between : Ends m Answer (find_path m search (y +ℤ pos 1) (z -ℤ pos 1))
      find_between =
          let e : y +ℤ pos 1 ≡ pos low.a = ap (λ x. x +ℤ pos 1) low.is_below ∙ below-next low.a in
          let e' : z -ℤ pos 1 ≡ below high.b = ap (λ x. x -ℤ pos 1) high.is_pos ∙ pos-prev high.b in
          rw (e, e')
            (mono
              (find_path-Ends m s search low.a high.b (omega (arith, high.b_le)) between
                edges_ordered)
              answer_of_placed)

  nothing_left :
      (lo hi : ℕ) (mid d : ℤ)
      → hi ≤ lo
      → search_depth m search s (record { low = pos lo; high = below hi; mid = mid; depth = d })
        ≡ ok (negsuc 0)
  unfolding search_depth
  nothing_left lo hi mid d empty =
      let e : leb hi lo ≡ true = ground arith in rw (ltb-below hi lo, e)

  search_from :
      (lo hi j : ℕ) (p : Bytes)
      → lo ≤ j
      → j < hi
      → hi ≤ m.catalog_len
      → Row m j s p
      → (DepthSorted m
          → (i : ℕ) (q : Bytes) → i < m.catalog_len
          → Row m i s q
          → (lo ≤ i) × (i < hi))
      → Ends m Answer (
          search_depth m search s
            (record { low = pos lo; high = below hi; mid = pos j; depth = s }))
  unfolding search_depth
  search_from lo hi j p u v inside row keeps =
      let e : leb hi lo ≡ false = ground arith in
      rw (ltb-below hi lo, e)
        (bind (find_lowest_index-Ends m s lo j (below hi) p u (omega arith) row) λ w (y, e, low).
          rw e (
            bind (find_highest_index-Ends m s hi j (y +ℤ pos 1) p v inside row)
              λ w' (z, e', high). rw e' (find_between lo hi j p u v inside row keeps y z low high)))

  search_depth-Ends :
      (st : Cursor) → Narrowed m s 0 m.catalog_len st → Ends m Answer (search_depth m search s st)
  search_depth-Ends st nw = elim nw.hit [
    | inl empty ↦
        let e = nothing_left nw.lo nw.hi st.mid st.depth empty in
        subst (Ends m Answer)
          (sym (
            ap (search_depth m search s) (λ i. record {
              low = nw.low_eq i;
              high = nw.high_eq i;
              mid = st.mid;
              depth = st.depth;
            })
            ∙ e))
          (returns _ (
            inr (
              refl,
              λ ds ps i inside r.
                  absurd (omega (arith, nw.keeps ds i search (omega arith) inside r)),
            )))
    | inr (j, p, u, v, mid, depth, row) ↦
        subst (λ c. Ends m Answer (search_depth m search s c))
          (λ i. record {
            low = sym nw.low_eq i;
            high = sym nw.high_eq i;
            mid = sym mid i;
            depth = sym depth i;
          })
          (search_from nw.lo nw.hi j p u v nw.hi_inside row
            (λ ds i q inside r. nw.keeps ds i q (omega arith) inside r))
  ]

  -- The part of `binSearch` between its first test and its `return`.
  pub search_all-Ends : Ends m Answer (do
    st ← find_index m s (record {
      low = pos 0;
      high = pos m.catalog_len -ℤ pos 1;
      mid = m.stale_mid;
      depth = pos 1;
    })
    search_depth m search s st)
  search_all-Ends = rw pos-prev (
      bind (find_index-Ends m s 0 m.catalog_len m.stale_mid (pos 1) (omega arith) (omega arith))
        search_depth-Ends)

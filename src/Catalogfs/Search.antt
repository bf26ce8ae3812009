-- ===== src/Catalogfs/Search.antt =====
-- catalogfs.c: `binSearch` and the loops that it is made of. Indices are `long int`; each loop is given one
-- round more than the indices between its bounds.
pub mod Bounds
pub mod Ends
pub mod Index
pub mod Lowest
pub mod Highest
pub mod Path
pub mod Parts
pub mod Correct
pub mod Listed
use catalog_file_system.Base.{
  ℕ, zero, suc, true, false, Ordering, if◌then◌else◌, ℤ, pos, negsuc, ◌+ℤ◌, ◌-ℤ◌, half, beq_ℤ,
  compare_ℤ, ltb_ℤ, leb_ℤ, rounds, to_int, to_long_int, Outcome, ok, err, out_of_fuel, ◌>>=◌,
  on_error,
}
use catalog_file_system.Clib.Text.{Bytes, strcmp}
use catalog_file_system.Catalogfs.Reader.{Reader, path_at}
use catalog_file_system.Catalogfs.Entry.{find_depth}

-- `calculateMid` as it runs on `long`: each operation keeps the low 64 bits.
unfoldable pub calculate_mid_long : ℤ → ℤ → ℤ
unfolding to_long_int
calculate_mid_long low high = to_long_int (low +ℤ half (to_long_int (high -ℤ low)))

-- The same on integers, for the loops, whose indices a `long` holds.
unfoldable pub calculate_mid : ℤ → ℤ → ℤ
calculate_mid low high = low +ℤ half (high -ℤ low)

-- The variables of `binSearch` that `find_index` is handed.
pub record Cursor : Type 0 where
  pub low : ℤ
  pub high : ℤ
  pub mid : ℤ
  pub depth : ℤ

unfoldable pub find_index_loop : ℕ → Reader → ℤ → Cursor → Outcome Cursor
find_index_loop zero m s st = out_of_fuel
find_index_loop (suc k) m s st = elim (leb_ℤ st.low st.high) [
  | false ↦ ok st
  | true ↦ do
    let mid = calculate_mid st.low st.high
    (d, path) ← m.entry_at mid
    elim (compare_ℤ d s) [
      | Ordering.eq ↦ ok (record st { mid = mid; depth = d })
      | Ordering.lt ↦
          find_index_loop k m s
            (record { low = mid +ℤ pos 1; high = st.high; mid = mid; depth = d })
      | Ordering.gt ↦
          find_index_loop k m s (record { low = st.low; high = mid -ℤ pos 1; mid = mid; depth = d })
    ]
]

-- Looks for an entry of depth `s` between the bounds.
unfoldable pub find_index : Reader → ℤ → Cursor → Outcome Cursor
unfolding find_index_loop
find_index m s st = on_error (find_index_loop (rounds (st.high -ℤ st.low +ℤ pos 2)) m s st) (err 1)

-- The `while` of `find_lowest_index`, over its index and `*depth`.
unfoldable pub lowest_loop : ℕ → Reader → ℤ → ℤ → ℤ → ℤ → Outcome ℤ
lowest_loop zero m s low i d = out_of_fuel
lowest_loop (suc k) m s low i d = elim (beq_ℤ d s) [
  | false ↦ ok i
  | true ↦ elim (ltb_ℤ (i -ℤ pos 1) low) [
    | true ↦ ok (i -ℤ pos 1)
    | false ↦ do (d', path) ← m.entry_at (i -ℤ pos 1); lowest_loop k m s low (i -ℤ pos 1) d'
  ]
]

-- The new `*low`.
unfoldable pub find_lowest_index : Reader → ℤ → Cursor → Outcome ℤ
unfolding lowest_loop
find_lowest_index m s st = do
  i ← on_error (lowest_loop (rounds (st.mid -ℤ st.low +ℤ pos 2)) m s st.low st.mid st.depth) (err 1)
  ok (i +ℤ pos 1)

unfoldable pub highest_loop : ℕ → Reader → ℤ → ℤ → ℤ → ℤ → Outcome ℤ
highest_loop zero m s high i d = out_of_fuel
highest_loop (suc k) m s high i d = elim (beq_ℤ d s) [
  | false ↦ ok i
  | true ↦ elim (ltb_ℤ high (i +ℤ pos 1)) [
    | true ↦ ok (i +ℤ pos 1)
    | false ↦ do (d', path) ← m.entry_at (i +ℤ pos 1); highest_loop k m s high (i +ℤ pos 1) d'
  ]
]

-- The new `*high`.
unfoldable pub find_highest_index : Reader → ℤ → Cursor → Outcome ℤ
unfolding highest_loop
find_highest_index m s st = do
  i ←
      on_error (highest_loop (rounds (st.high -ℤ st.mid +ℤ pos 2)) m s st.high st.mid st.depth)
        (err 1)
  ok (i -ℤ pos 1)

-- The last loop of `binSearch`: the location of the path between the bounds, or -1.
unfoldable pub find_path_loop : ℕ → Reader → Bytes → ℤ → ℤ → Outcome ℤ
find_path_loop zero m search low high = out_of_fuel
find_path_loop (suc k) m search low high = elim (leb_ℤ low high) [
  | false ↦ ok (negsuc 0)
  | true ↦ do
    let mid = calculate_mid low high
    path ← path_at m mid
    elim (strcmp path search) [
      | Ordering.eq ↦ ok mid
      | Ordering.lt ↦ find_path_loop k m search (mid +ℤ pos 1) high
      | Ordering.gt ↦ find_path_loop k m search low (mid -ℤ pos 1)
    ]
]

unfoldable pub find_path : Reader → Bytes → ℤ → ℤ → Outcome ℤ
unfolding find_path_loop
find_path m search low high = find_path_loop (rounds (high -ℤ low +ℤ pos 2)) m search low high

-- What follows `find_index` in `binSearch`.
unfoldable pub search_depth : Reader → Bytes → ℤ → Cursor → Outcome ℤ
unfolding find_lowest_index find_highest_index find_path
search_depth m search s st = if ltb_ℤ st.high st.low then ok (negsuc 0) else do
  low ← find_lowest_index m s st
  high ← find_highest_index m s (record st { low = low; depth = s })
  find_path m search low high

-- `binSearch` returns an `int`, and -1 after any error below it.
unfoldable pub bin_search : Reader → Bytes → Outcome ℤ
unfolding search_depth find_index
bin_search m search =
    let s = find_depth search in
    if leb_ℤ s (pos 0) then ok (negsuc 0) else do
      result ←
          on_error
            (do
              st ← find_index m s (record {
                low = pos 0;
                high = pos m.catalog_len -ℤ pos 1;
                mid = m.stale_mid;
                depth = pos 1;
              })
              search_depth m search s st)
            (ok (negsuc 0))
      ok (to_int result)

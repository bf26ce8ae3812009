-- ===== src/Binsearch/Search.antt =====
-- binsearchinfile.c: `binSearch` and the loops that it is made of. The indices of the two loops that
-- look for the ends of a depth are `int`, all others `long int`. Each loop is given one round more
-- than the indices between its bounds.
pub mod Equal
pub mod Same
use catalog_file_system.Base.{
  ℕ, zero, suc, true, false, Ordering, if◌then◌else◌, ℤ, pos, negsuc, ◌+ℤ◌, ◌-ℤ◌, half, beq_ℤ,
  compare_ℤ, ltb_ℤ, leb_ℤ, rounds, to_int, Outcome, ok, err, out_of_fuel, ◌>>=◌, on_error,
}
use catalog_file_system.Clib.Text.{Bytes, strcmp}
use catalog_file_system.Catalogfs.Search.{Cursor}
use catalog_file_system.Binsearch.Entry.{
  Disk, catalog_len, find_depth, get_entry_depth_filepath, get_entry_file_path,
}

unfoldable pub calculate_mid : ℤ → ℤ → ℤ
unfolding half ◌+ℤ◌ ◌-ℤ◌
calculate_mid low high = low +ℤ half (high -ℤ low)

unfoldable pub find_index_loop : ℕ → Disk → ℤ → Cursor → Outcome Cursor
unfolding calculate_mid leb_ℤ compare_ℤ get_entry_depth_filepath
find_index_loop zero d s st = out_of_fuel
find_index_loop (suc k) d s st = elim (leb_ℤ st.low st.high) [
  | false ↦ ok st
  | true ↦ do
    let mid = calculate_mid st.low st.high
    (depth, path) ← get_entry_depth_filepath d mid
    elim (compare_ℤ depth s) [
      | Ordering.eq ↦ ok (record st { mid = mid; depth = depth })
      | Ordering.lt ↦
          find_index_loop k d s
            (record { low = mid +ℤ pos 1; high = st.high; mid = mid; depth = depth })
      | Ordering.gt ↦
          find_index_loop k d s
            (record { low = st.low; high = mid -ℤ pos 1; mid = mid; depth = depth })
    ]
]

unfoldable pub find_index : Disk → ℤ → Cursor → Outcome Cursor
unfolding find_index_loop
find_index d s st = on_error (find_index_loop (rounds (st.high -ℤ st.low +ℤ pos 2)) d s st) (err 1)

unfoldable pub lowest_loop : ℕ → Disk → ℤ → ℤ → ℤ → ℤ → Outcome ℤ
unfolding beq_ℤ ltb_ℤ get_entry_depth_filepath
lowest_loop zero d s low i depth = out_of_fuel
lowest_loop (suc k) d s low i depth = elim (beq_ℤ depth s) [
  | false ↦ ok i
  | true ↦ elim (ltb_ℤ (i -ℤ pos 1) low) [
    | true ↦ ok (i -ℤ pos 1)
    | false ↦ do
      (depth', path) ← get_entry_depth_filepath d (i -ℤ pos 1)
      lowest_loop k d s low (i -ℤ pos 1) depth'
  ]
]

-- The new `*low`, from an `int` copy of `*mid`.
unfoldable pub find_lowest_index : Disk → ℤ → Cursor → Outcome ℤ
unfolding lowest_loop to_int
find_lowest_index d s st = do
  i ←
      on_error
        (lowest_loop (rounds (to_int st.mid -ℤ st.low +ℤ pos 2)) d s st.low (to_int st.mid)
          st.depth)
        (err 1)
  ok (i +ℤ pos 1)

unfoldable pub highest_loop : ℕ → Disk → ℤ → ℤ → ℤ → ℤ → Outcome ℤ
unfolding beq_ℤ ltb_ℤ get_entry_depth_filepath
highest_loop zero d s high i depth = out_of_fuel
highest_loop (suc k) d s high i depth = elim (beq_ℤ depth s) [
  | false ↦ ok i
  | true ↦ elim (ltb_ℤ high (i +ℤ pos 1)) [
    | true ↦ ok (i +ℤ pos 1)
    | false ↦ do
      (depth', path) ← get_entry_depth_filepath d (i +ℤ pos 1)
      highest_loop k d s high (i +ℤ pos 1) depth'
  ]
]

unfoldable pub find_highest_index : Disk → ℤ → Cursor → Outcome ℤ
unfolding highest_loop to_int
find_highest_index d s st = do
  i ←
      on_error
        (highest_loop (rounds (st.high -ℤ to_int st.mid +ℤ pos 2)) d s st.high (to_int st.mid)
          st.depth)
        (err 1)
  ok (i -ℤ pos 1)

-- The last loop of `binSearch`.
unfoldable pub find_path_loop : ℕ → Disk → Bytes → ℤ → ℤ → Outcome ℤ
unfolding calculate_mid leb_ℤ strcmp get_entry_file_path
find_path_loop zero d search low high = out_of_fuel
find_path_loop (suc k) d search low high = elim (leb_ℤ low high) [
  | false ↦ ok (negsuc 0)
  | true ↦ do
    let mid = calculate_mid low high
    path ← get_entry_file_path d mid
    elim (strcmp path search) [
      | Ordering.eq ↦ ok mid
      | Ordering.lt ↦ find_path_loop k d search (mid +ℤ pos 1) high
      | Ordering.gt ↦ find_path_loop k d search low (mid -ℤ pos 1)
    ]
]

-- What follows `find_index` in `binSearch`.
unfoldable pub search_depth : Disk → Bytes → ℤ → Cursor → Outcome ℤ
unfolding find_lowest_index find_highest_index find_path_loop
search_depth d search s st = if ltb_ℤ st.high st.low then ok (negsuc 0) else do
  low ← find_lowest_index d s st
  high ← find_highest_index d s (record st { low = low; depth = s })
  find_path_loop (rounds (high -ℤ low +ℤ pos 2)) d search low high

-- `binSearch` returns the `int` `result`, and -1 after any error below it.
unfoldable pub bin_search : Disk → Bytes → Outcome ℤ
unfolding search_depth find_index find_depth
bin_search d search =
    let s = find_depth search in
    if leb_ℤ s (pos 0) then ok (negsuc 0) else do
      result ←
          on_error
            (do
              st ← find_index d s (record {
                low = pos 0;
                high = pos catalog_len -ℤ pos 1;
                mid = d.stale_mid;
                depth = pos 1;
              })
              search_depth d search s st)
            (ok (negsuc 0))
      ok (to_int result)

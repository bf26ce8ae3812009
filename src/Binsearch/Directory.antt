-- ===== src/Binsearch/Directory.antt =====
-- binsearchinfile.c: `get_directory_contents`.
pub mod Same
use catalog_file_system.Base.{
  ℕ, zero, suc, Bool, true, false, ◌&&◌, ◌||◌, not, ◌==◌, if◌then◌else◌, is_eq, ℤ, pos, negsuc,
  ◌+ℤ◌, ◌-ℤ◌, beq_ℤ, ltb_ℤ, leb_ℤ, rounds, to_int, Outcome, ok, err, out_of_fuel, ◌>>=◌, on_error,
  length,
}
use catalog_file_system.Clib.Text.{Bytes, last_byte, strncmp}
use catalog_file_system.Binsearch.Entry.{Disk, catalog_len, find_depth, get_entry_depth_filepath}
use catalog_file_system.Binsearch.Search.{bin_search}

-- The test of an entry in the loop.
unfoldable pub is_content : ℤ → Bytes → ℤ → Bytes → Bool
unfolding beq_ℤ strncmp
is_content depth dir entry_depth entry_file_path =
    beq_ℤ entry_depth depth && is_eq (strncmp dir entry_file_path (length dir))

-- The `do … while (1)` loop, from the index before the next entry to the one where it breaks.
unfoldable pub contents_loop : ℕ → Disk → ℤ → Bytes → ℤ → Outcome ℤ
unfolding is_content leb_ℤ get_entry_depth_filepath
contents_loop zero d depth dir i = out_of_fuel
contents_loop (suc k) d depth dir i = elim (leb_ℤ (pos catalog_len) (i +ℤ pos 1)) [
  | true ↦ ok (i +ℤ pos 1)
  | false ↦ do
    (entry_depth, path) ← get_entry_depth_filepath d (i +ℤ pos 1)
    elim (is_content depth dir entry_depth path) [
      | true ↦ contents_loop k d depth dir (i +ℤ pos 1)
      | false ↦ ok (i +ℤ pos 1)
    ]
]

-- The return value, and what `*low` and `*high` hold then.
pub record Range : Type 0 where
  pub ret : ℤ
  pub low : ℤ
  pub high : ℤ

-- What follows `binSearch`.
unfoldable pub contents_from : Disk → Bytes → (high low : ℤ) → Outcome Range
unfolding contents_loop ltb_ℤ find_depth to_int
contents_from d dir high low =
    if ltb_ℤ low (pos 0)
    then ok (record { ret = negsuc 0; low = low; high = high })
    else if leb_ℤ (find_depth dir) (pos 0)
    then ok (record { ret = negsuc 0; low = low; high = high })
    else on_error
        (do
          i ←
              contents_loop (rounds (pos catalog_len -ℤ to_int low +ℤ pos 1)) d (find_depth dir) dir
                (to_int low)
          ok (record { ret = pos 0; low = low; high = i -ℤ pos 1 }))
        (ok (record { ret = negsuc 0; low = low; high = high }))

unfoldable pub get_directory_contents : Disk → Bytes → (high : ℤ) → Outcome Range
unfolding contents_from last_byte bin_search
get_directory_contents d dir high =
    if length dir == 0 || not (last_byte dir == b'/')
    then ok (record { ret = negsuc 0; low = negsuc 0; high = negsuc 0 })
    else do low ← bin_search d dir; contents_from d dir high low

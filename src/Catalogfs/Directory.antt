-- ===== src/Catalogfs/Directory.antt =====
-- catalogfs.c: `get_directory_contents`.
pub mod Contents
pub mod Inside
pub mod Range
pub mod Correct
pub mod Halting
use catalog_file_system.Base.{
  ℕ, zero, suc, Bool, true, false, ◌&&◌, ◌||◌, not, ◌==◌, if◌then◌else◌, is_eq, ℤ, pos, negsuc,
  ◌+ℤ◌, ◌-ℤ◌, beq_ℤ, ltb_ℤ, leb_ℤ, rounds, Outcome, ok, err, out_of_fuel, ◌>>=◌, on_error, length,
  List, [],
}
use catalog_file_system.Clib.Text.{Bytes, last_byte, strncmp}
use catalog_file_system.Catalogfs.Reader.{Reader, path_at}
use catalog_file_system.Catalogfs.Entry.{find_depth}
use catalog_file_system.Catalogfs.Search.{bin_search}

-- The test of an entry in the loop: the depth of the directory, and its path in front.
unfoldable pub is_content : Bytes → ℤ → Bytes → Bool
unfolding strncmp
is_content dir d p = beq_ℤ d (find_depth dir) && is_eq (strncmp dir p (length dir))

-- The `do … while (1)` loop, from the index before the next entry to the one where it breaks.
unfoldable pub contents_loop : ℕ → Reader → Bytes → ℤ → Outcome ℤ
contents_loop zero m dir i = out_of_fuel
contents_loop (suc k) m dir i = elim (leb_ℤ (pos m.catalog_len) (i +ℤ pos 1)) [
  | true ↦ ok (i +ℤ pos 1)
  | false ↦ do
    (d, p) ← m.entry_at (i +ℤ pos 1)
    elim (is_content dir d p) [
      | true ↦ contents_loop k m dir (i +ℤ pos 1)
      | false ↦ ok (i +ℤ pos 1)
    ]
]

-- What follows `binSearch`: the directory's own location and that of its last entry.
unfoldable pub contents_from : Reader → Bytes → ℤ → Outcome (ℤ × ℤ)
unfolding contents_loop
contents_from m dir low =
    if ltb_ℤ low (pos 0) then err 2 else if leb_ℤ (find_depth dir) (pos 0) then err 2 else do
      i ← on_error (contents_loop (rounds (pos m.catalog_len -ℤ low +ℤ pos 1)) m dir low) (err 2)
      ok (low, i -ℤ pos 1)

-- The return value -1, for a path that does not end in '/', is `err 1`; -ENOENT is `err 2`.
unfoldable pub get_directory_contents : Reader → Bytes → Outcome (ℤ × ℤ)
unfolding last_byte contents_from
get_directory_contents m dir =
    if length dir == 0 || not (last_byte dir == b'/')
    then err 1
    else do low ← bin_search m dir; contents_from m dir low

-- ===== src/Catalogfs/Handlers.antt =====
-- catalogfs.c: the handlers that read the catalog.
pub mod Attributes
pub mod Listing
pub mod Halting
pub mod Agreement
use catalog_file_system.Catalogfs.Reader.{Reader, reader}
use catalog_file_system.Base.{
  ℕ, zero, suc, ◌+◌, ◌-◌, ◌%◌, ◌^◌, Bool, true, false, Ordering, ◌==◌, if◌then◌else◌, ◌||◌, is_eq,
  List, [], ◌∷◌, ◌++◌, ℤ, pos, ◌+ℤ◌, ◌-ℤ◌, ltb_ℤ, leb_ℤ, rounds, to_int, Option, none, some,
  Outcome, ok, err, exit, out_of_fuel, ◌>>=◌, on_error,
}
use catalog_file_system.Clib.Text.{Bytes, basename, strcmp, strncpy}
use catalog_file_system.Catalogfs.Mount.{Mount, Stat}
use catalog_file_system.Catalogfs.Entry.{deref, get_entry_from_catalog, get_entry_filepath}
use catalog_file_system.Catalogfs.Search.{bin_search}
use catalog_file_system.Catalogfs.Directory.{get_directory_contents}

unfoldable pub getattr_by_location : Mount → ℤ → Outcome Stat
getattr_by_location m location = do
  e ← on_error (get_entry_from_catalog m location) (err 2)
  ok e.st_data

-- -ENOENT is `err 2`.
unfoldable pub getattr_by_path : Mount → Bytes → Outcome Stat
unfolding getattr_by_location
getattr_by_path m path = do
  location ← bin_search (reader m) path
  if ltb_ℤ location (pos 0) then err 2 else on_error (getattr_by_location m location) (err 2)

-- The fields that `memset` clears and nothing sets are not in the model's `Stat`.
unfoldable pub catalog_getattr : Mount → Bytes → Outcome Stat
unfolding getattr_by_path
catalog_getattr m path = getattr_by_path m path

-- What `readdir` hands to `filler`: a name, and the attributes if there are any.
pub record Item : Type 0 where
  pub name : Bytes
  pub attributes : Option Stat

-- `filler` belongs to FUSE: its answer, whether the buffer is full, to a call behind earlier calls.
abbrev pub Filler : Type 0
Filler = List Item → Item → Bool

-- One round of the loop: both reads, and the entry's name if both succeed. A call that ends the
-- process is `exit`.
abbrev both_read : Outcome Stat → Outcome Bytes → Outcome (Option Item)
both_read exit p = exit
both_read out_of_fuel p = out_of_fuel
both_read (ok a) (ok p) = ok (some (record { name = basename p; attributes = some a }))
both_read (ok a) (err e) = ok none
both_read (ok a) exit = exit
both_read (ok a) out_of_fuel = out_of_fuel
both_read (err e) (ok p) = ok none
both_read (err e) (err e') = ok none
both_read (err e) exit = exit
both_read (err e) out_of_fuel = out_of_fuel

unfoldable pub read_item : Mount → ℤ → Outcome (Option Item)
unfolding getattr_by_location get_entry_filepath basename
read_item m location = both_read (getattr_by_location m location) (get_entry_filepath m location)

-- The `for` loop, over the calls of `filler` that were made. `location` is an `int`, `high` a `long`.
unfoldable pub list_loop : ℕ → Mount → Filler → ℤ → ℤ → List Item → Outcome (List Item)
list_loop zero m full location high out = out_of_fuel
list_loop (suc k) m full location high out = elim (leb_ℤ location high) [
  | false ↦ ok out
  | true ↦ do
    item ← read_item m location
    elim item [
      | none ↦ list_loop k m full (to_int (location +ℤ pos 1)) high out
      | some x ↦ elim (full out x) [
        | true ↦ ok (out ++ x ∷ [])
        | false ↦ list_loop k m full (to_int (location +ℤ pos 1)) high (out ++ x ∷ [])
      ]
    ]
]

abbrev pub dots : List Item
dots =
    record { name = b'.' ∷ []; attributes = none }
    ∷ record { name = b'.' ∷ b'.' ∷ []; attributes = none }
    ∷ []

-- The path with the '/' that `strcat` puts behind every path but the root's.
unfoldable pub directory_path : Bytes → Bytes
unfolding strcmp
directory_path path = if is_eq (strcmp path (b'/' ∷ [])) then path else path ++ b'/' ∷ []

-- `catalog_readdir`: the calls of `filler`. Its answers to "." and ".." are not looked at, and
-- with an error code those two calls have been made too.
unfoldable pub catalog_readdir : Mount → Filler → Bytes → Outcome (List Item)
unfolding list_loop directory_path
catalog_readdir m full path = do
  (low, high) ← on_error (get_directory_contents (reader m) (directory_path path)) (err 2)
  if ltb_ℤ low (pos 0) || ltb_ℤ high (pos 0)
      then err 2
      else list_loop (suc (rounds (high -ℤ to_int (low +ℤ pos 1) +ℤ pos 1))) m full
          (to_int (low +ℤ pos 1)) high dots

-- `size - 1` is computed in `size_t`.
unfoldable pub catalog_readlink : Mount → Bytes → ℕ → Outcome Bytes
unfolding strncpy
catalog_readlink m path size = do
  location ← bin_search (reader m) path
  if ltb_ℤ location (pos 0) then err 2 else do
    e ← on_error (get_entry_from_catalog m location) (err 2)
    ok (strncpy (deref m.left_frame_after_printf e.link_dest) ((size + 2 ^ 64 - 1) % 2 ^ 64))

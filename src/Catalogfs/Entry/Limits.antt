-- ===== src/Catalogfs/Entry/Limits.antt =====
-- catalogfs.c: the offset that `getEntry_from_catalog` stores in an `int`.
use catalog_file_system.Base.{ℕ, ◌*◌, ◌≤◌, ◌<◌, ◌≡◌, arith, true, pos, pos_mul, to_int, ltb_ℤ, err}
use catalog_file_system.Clib.Text.{Bytes}
use catalog_file_system.Catalogfs.Mount.{Mount, holds}
use catalog_file_system.Catalogfs.Entry.{get_entry_from_catalog}

to_int_large : (n : ℕ) → 0x8000_0000 ≤ n → n < 0x1_0000_0000 → ltb_ℤ (to_int (pos n)) (pos 0) ≡ true
unfolding to_int ltb_ℤ
to_int_large n low high = ground arith

-- An entry that begins between 2 GiB and 4 GiB into a readable catalog cannot be read: the offset
-- wraps to a negative `int`, `lseek` refuses it, and the result is the error code -1.
pub get_entry_from_catalog-far :
    (m : Mount) (i : ℕ) (bs : Bytes)
    → m.catalog_file ≡ holds bs
    → 0x8000_0000 ≤ m.entry_size * i
    → m.entry_size * i < 0x1_0000_0000
    → get_entry_from_catalog m (pos i) ≡ err 1
unfolding get_entry_from_catalog
get_entry_from_catalog-far m i bs file low high =
    rw (file, pos_mul m.entry_size i, to_int_large (m.entry_size * i) low high)

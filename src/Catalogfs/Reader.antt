-- ===== src/Catalogfs/Reader.antt =====
-- What the search asks of a catalog: its length, and the depth and the path of an entry. Each program
-- that searches fills it with its own reading of entries.
use catalog_file_system.Base.{ℕ, ◌≢◌, ℤ, Outcome, ok, out_of_fuel, ◌>>=◌, arith}
use catalog_file_system.Clib.Text.{Bytes}
use catalog_file_system.Catalogfs.Mount.{Mount}
use catalog_file_system.Catalogfs.Entry.{get_entry_depth_filepath, get_entry_from_catalog}

-- `catalog_len` and `getEntry_depth_filepath`, whose loops end; `stale_mid` is what `binSearch` finds
-- in its variable `mid`, which is not initialised.
pub record Reader : Type 0 where
  pub catalog_len : ℕ
  pub stale_mid : ℤ
  pub entry_at : ℤ → Outcome (ℤ × Bytes)
  pub entry_at_ends : (z : ℤ) → entry_at z ≢ out_of_fuel

-- `getEntry_filepath`.
abbrev pub path_at : Reader → ℤ → Outcome Bytes
path_at m location = do e ← m.entry_at location; ok e.1

pub entry-not_out_of_fuel : (m : Mount) (z : ℤ) → get_entry_depth_filepath m z ≢ out_of_fuel
unfolding get_entry_depth_filepath get_entry_from_catalog
entry-not_out_of_fuel m z = ground arith

-- The reading of the file system.
abbrev pub reader : Mount → Reader
reader m = record {
  catalog_len = m.catalog_len;
  stale_mid = m.stale_mid;
  entry_at = get_entry_depth_filepath m;
  entry_at_ends = entry-not_out_of_fuel m;
}

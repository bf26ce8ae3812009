-- ===== src/Catalogfs/Main/Laws.antt =====
-- catalogfs.c: with which globals `main` starts the file system.
use catalog_file_system.Base.{◌≡◌, refl, sym, ap, ◌↔◌, arith, Option, none, some, ℤ, pos, ◌≤ℤ◌}
use catalog_file_system.Clib.Text.{Bytes}
use catalog_file_system.Catalogfs.Main.{Environment, Globals, start, atoi, atol, check_sizes}

check_sizes-bounds :
    (file : Bytes) (size len : ℤ) {g : Globals}
    → check_sizes file size len ≡ some g
    → (g.catalog_file ≡ file)
      × (g.entry_size ≡ size)
      × (g.catalog_len ≡ len)
      × (pos 13 ≤ℤ size)
      × (pos 1 ≤ℤ len)
unfolding check_sizes
check_sizes-bounds file size len h = ground arith

check_sizes-starts :
    (file : Bytes) (size len : ℤ)
    → pos 13 ≤ℤ size
    → pos 1 ≤ℤ len
    → check_sizes file size len
      ≡ some (record { catalog_file = file; entry_size = size; catalog_len = len })
unfolding check_sizes
check_sizes-starts file size len h k = ground arith

-- The settings of an environment that `main` accepts.
pub record Accepts (env : Environment) (g : Globals) : Type 0 where
  pub size_text : Bytes
  pub len_text : Bytes
  pub has_catalog : env.catalogfs_catalog ≡ some g.catalog_file
  pub has_size : env.catalogfs_entry_size ≡ some size_text
  pub has_len : env.catalogfs_catalog_len ≡ some len_text
  pub size_read : atoi size_text ≡ g.entry_size
  pub len_read : atol len_text ≡ g.catalog_len
  pub size_bound : pos 13 ≤ℤ g.entry_size
  pub len_bound : pos 1 ≤ℤ g.catalog_len

abbrev start_with : Option Bytes → Option Bytes → Option Bytes → Option Globals
start_with c s l =
    start (record { catalogfs_catalog = c; catalogfs_entry_size = s; catalogfs_catalog_len = l })

settings_of_start :
    (c s l : Option Bytes) (g : Globals)
    → start_with c s l ≡ some g
    → Accepts
        (record { catalogfs_catalog = c; catalogfs_entry_size = s; catalogfs_catalog_len = l })
        g
unfolding start
settings_of_start none s l g h = cc
settings_of_start (some c) none l g h = cc
settings_of_start (some c) (some s) none g h = cc
settings_of_start (some c) (some s) (some l) g h =
    let (file, size, len, low, positive) = check_sizes-bounds c (atoi s) (atol l) h in
    record {
      size_text = s;
      len_text = l;
      has_catalog = ap some (sym file);
      has_size = refl;
      has_len = refl;
      size_read = sym size;
      len_read = sym len;
      size_bound = rw size low;
      len_bound = rw len positive;
    }

start_of_Accepts :
    (c s l : Option Bytes) (g : Globals)
    → Accepts
        (record { catalogfs_catalog = c; catalogfs_entry_size = s; catalogfs_catalog_len = l })
        g
    → start_with c s l ≡ some g
unfolding start
start_of_Accepts c s l g a =
    rw (a.has_catalog, a.has_size, a.has_len, a.size_read, a.len_read)
      (check_sizes-starts g.catalog_file g.entry_size g.catalog_len a.size_bound a.len_bound)

-- `main` starts the file system exactly if all three variables are set, the entry size reads as a
-- number from 13 on and the length as a positive one, and the globals are those values.
pub start_iff : (env : Environment) (g : Globals) → (start env ≡ some g) ↔ Accepts env g
start_iff env g = (
  settings_of_start env.catalogfs_catalog env.catalogfs_entry_size env.catalogfs_catalog_len g,
  start_of_Accepts env.catalogfs_catalog env.catalogfs_entry_size env.catalogfs_catalog_len g,
)

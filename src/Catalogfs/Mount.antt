-- ===== src/Catalogfs/Mount.antt =====
-- The state of catalogfs.c: its globals, the catalog file, and what C leaves open in the locals of
-- the functions that read it. Also the structures `stat_wdf` and `struct stat`.
use catalog_file_system.Base.{ℕ, ℤ}
use catalog_file_system.Clib.Text.{Bytes}

-- The fields of `struct stat` that the program uses: `mode_t`, `uid_t` and `gid_t` have 32 bits,
-- `nlink_t` has 64, and the others are signed.
pub record Stat : Type 0 where
  pub st_mode : ℕ
  pub st_nlink : ℕ
  pub st_uid : ℕ
  pub st_gid : ℕ
  pub st_size : ℤ
  pub st_atime : ℤ
  pub st_mtime : ℤ
  pub st_ctime : ℤ

-- A pointer to a literal, or into an array of the function that returned it.
pub data Pointer : Type 0 where
  literal : Bytes → Pointer
  into_frame : Bytes → Pointer

pub record StatWdf : Type 0 where
  pub depth : ℤ
  pub file_path : Pointer
  pub st_data : Stat
  pub link_dest : Pointer

-- The locals that `sscanf` sets.
pub record Locals : Type 0 where
  pub c : ℕ
  pub mode : ℤ
  pub nlink : ℤ
  pub uid : ℤ
  pub gid : ℤ
  pub size : ℤ
  pub atime : ℤ
  pub mtime : ℤ
  pub ctime : ℤ
  pub depth : ℤ
  pub file_path : Bytes

-- What `open` and `read` find under the name `catalogFile`.
pub data File : Type 0 where
  cannot_open : File
  cannot_read : File
  holds : Bytes → File

-- `entry_size`, `catalog_len` and `catalogFile` are the globals; `main` starts the file system only
-- with positive sizes. The `stale` fields are the contents of variables that are not initialised,
-- and the last two are what a pointer into a frame that was left reads, at once and after a `printf`.
pub record Mount : Type 0 where
  pub entry_size : ℕ
  pub catalog_len : ℕ
  pub catalog_file : File
  pub stale_entry : ℕ → ℕ
  pub stale_locals : Locals
  pub stale_link_dest : Bytes
  pub stale_mid : ℤ
  pub left_frame : Bytes → Bytes
  pub left_frame_after_printf : Bytes → Bytes

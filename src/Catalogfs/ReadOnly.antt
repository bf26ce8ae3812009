-- ===== src/Catalogfs/ReadOnly.antt =====
-- catalogfs.c: the handlers that do not read the catalog, and the table of operations.
use Prim.Native.Nat.{bit_or}
use catalog_file_system.Base.{ℕ, Outcome, ok, err, ℤ}
use catalog_file_system.Clib.Text.{Bytes}

-- A handler's return value -e is `err e`: -EPERM is `err 1`, -EROFS is `err 30`.
abbrev pub Reply : Type 0
Reply = Outcome (Unit {0})

abbrev pub erofs : Reply
erofs = err 30

abbrev pub eperm : Reply
eperm = err 1

abbrev pub done : Reply
done = ok tt

unfoldable pub catalog_mknod : Bytes → (mode rdev : ℕ) → Reply
catalog_mknod path mode rdev = erofs

unfoldable pub catalog_mkdir : Bytes → (mode : ℕ) → Reply
catalog_mkdir path mode = erofs

unfoldable pub catalog_unlink : Bytes → Reply
catalog_unlink path = erofs

unfoldable pub catalog_rmdir : Bytes → Reply
catalog_rmdir path = erofs

unfoldable pub catalog_symlink : (from to : Bytes) → Reply
catalog_symlink from to = erofs

unfoldable pub catalog_link : (from to : Bytes) → Reply
catalog_link from to = erofs

unfoldable pub catalog_rename : (from to : Bytes) → Reply
catalog_rename from to = erofs

unfoldable pub catalog_chmod : Bytes → (mode : ℕ) → Reply
catalog_chmod path mode = erofs

unfoldable pub catalog_chown : Bytes → (uid gid : ℕ) → Reply
catalog_chown path uid gid = erofs

unfoldable pub catalog_truncate : Bytes → (size : ℤ) → Reply
catalog_truncate path size = erofs

unfoldable pub catalog_utimens : Bytes → (atime mtime : ℤ) → Reply
catalog_utimens path atime mtime = erofs

unfoldable pub catalog_release : Bytes → Reply
catalog_release path = done

unfoldable pub catalog_releasedir : Bytes → Reply
catalog_releasedir path = done

unfoldable pub catalog_fsync : Bytes → Reply
catalog_fsync path = done

unfoldable pub catalog_fsyncdir : Bytes → Reply
catalog_fsyncdir path = done

unfoldable pub catalog_setxattr : (path name value : Bytes) → (flags : ℕ) → Reply
catalog_setxattr path name value flags = erofs

unfoldable pub catalog_getxattr : (path name : Bytes) → (size : ℕ) → Reply
catalog_getxattr path name size = done

unfoldable pub catalog_listxattr : Bytes → (size : ℕ) → Reply
catalog_listxattr path size = done

unfoldable pub catalog_removexattr : (path name : Bytes) → Reply
catalog_removexattr path name = erofs

unfoldable pub catalog_access : Bytes → (mode : ℕ) → Reply
catalog_access path mode = done

unfoldable pub catalog_open : Bytes → Reply
catalog_open path = eperm

unfoldable pub catalog_read : Bytes → (size : ℕ) → (offset : ℤ) → Reply
catalog_read path size offset = eperm

unfoldable pub catalog_write : (path buf : Bytes) → (offset : ℤ) → Reply
catalog_write path buf offset = erofs

-- It returns nothing.
unfoldable pub catalog_destroy : Reply
catalog_destroy = done

unfoldable pub catalog_opendir : Bytes → Reply
catalog_opendir path = done

-- The fields of `struct statvfs` that `catalog_statfs` sets.
pub record StatVfs : Type 0 where
  pub f_bsize : ℕ
  pub f_frsize : ℕ
  pub f_blocks : ℕ
  pub f_bfree : ℕ
  pub f_bavail : ℕ
  pub f_files : ℕ
  pub f_ffree : ℕ
  pub f_favail : ℕ
  pub f_fsid : ℕ
  pub f_flag : ℕ
  pub f_namemax : ℕ

-- ST_RDONLY is 1, ST_NOSUID 2, ST_NODEV 4 and ST_NOEXEC 8.
unfoldable pub catalog_statfs : Bytes → StatVfs
catalog_statfs path = record {
  f_bsize = 0;
  f_frsize = 0;
  f_blocks = 0;
  f_bfree = 0;
  f_bavail = 0;
  f_files = 0;
  f_ffree = 0;
  f_favail = 0;
  f_fsid = 0;
  f_flag = bit_or (bit_or (bit_or 1 2) 4) 8;
  f_namemax = 255;
}

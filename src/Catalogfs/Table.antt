-- ===== src/Catalogfs/Table.antt =====
-- catalogfs.c: the table `catalog_operations`, as what FUSE calls for each request.
pub mod Laws
use catalog_file_system.Base.{ℕ, List, ℤ, Outcome, ok, ◌>>=◌}
use catalog_file_system.Clib.Text.{Bytes}
use catalog_file_system.Catalogfs.Mount.{Mount, Stat}
use catalog_file_system.Catalogfs.Handlers.{
  Filler, Item, catalog_getattr, catalog_readdir, catalog_readlink,
}
use catalog_file_system.Catalogfs.ReadOnly.{
  Reply, StatVfs, catalog_mknod, catalog_mkdir, catalog_unlink, catalog_rmdir, catalog_symlink,
  catalog_link, catalog_rename, catalog_chmod, catalog_chown, catalog_truncate, catalog_utimens,
  catalog_release, catalog_releasedir, catalog_fsync, catalog_fsyncdir, catalog_setxattr,
  catalog_getxattr, catalog_listxattr, catalog_removexattr, catalog_access, catalog_destroy,
  catalog_open, catalog_read, catalog_write, catalog_opendir, catalog_statfs,
}

-- A request of FUSE, with the arguments that it passes.
pub data Request : Type 0 where
  getattr : Bytes → Request
  access : Bytes → ℕ → Request
  destroy : Request
  open_file : Bytes → Request
  read : Bytes → ℕ → ℤ → Request
  write : Bytes → Bytes → ℤ → Request
  rename : Bytes → Bytes → Request
  statfs : Bytes → Request
  release : Bytes → Request
  releasedir : Bytes → Request
  fsync : Bytes → Request
  fsyncdir : Bytes → Request
  opendir : Bytes → Request
  readdir : Bytes → Filler → Request
  mkdir : Bytes → ℕ → Request
  rmdir : Bytes → Request
  link : Bytes → Bytes → Request
  readlink : Bytes → ℕ → Request
  symlink : Bytes → Bytes → Request
  unlink : Bytes → Request
  mknod : Bytes → ℕ → ℕ → Request
  chmod : Bytes → ℕ → Request
  chown : Bytes → ℕ → ℕ → Request
  utimens : Bytes → ℤ → ℤ → Request
  truncate : Bytes → ℤ → Request
  setxattr : Bytes → Bytes → Bytes → ℕ → Request
  getxattr : Bytes → Bytes → ℕ → Request
  listxattr : Bytes → ℕ → Request
  removexattr : Bytes → Bytes → Request

-- What a handler gives back beside its return value 0.
pub data Answer : Type 0 where
  nothing : Answer
  attributes : Stat → Answer
  items : List Item → Answer
  text : Bytes → Answer
  volume : StatVfs → Answer

abbrev plain : Reply → Outcome Answer
plain r = do _ ← r; ok nothing

unfoldable pub catalog_operations : Mount → Request → Outcome Answer
unfolding catalog_mknod catalog_mkdir catalog_unlink catalog_rmdir catalog_symlink catalog_link
    catalog_rename catalog_chmod catalog_chown catalog_truncate catalog_utimens catalog_release
    catalog_releasedir catalog_fsync catalog_fsyncdir catalog_setxattr catalog_getxattr
    catalog_listxattr catalog_removexattr catalog_access catalog_open catalog_read catalog_write
    catalog_opendir catalog_statfs catalog_destroy
catalog_operations m (getattr p) = do a ← catalog_getattr m p; ok (attributes a)
catalog_operations m (access p mode) = plain (catalog_access p mode)
catalog_operations m destroy = plain catalog_destroy
catalog_operations m (open_file p) = plain (catalog_open p)
catalog_operations m (read p size offset) = plain (catalog_read p size offset)
catalog_operations m (write p buf offset) = plain (catalog_write p buf offset)
catalog_operations m (rename from to) = plain (catalog_rename from to)
catalog_operations m (statfs p) = ok (volume (catalog_statfs p))
catalog_operations m (release p) = plain (catalog_release p)
catalog_operations m (releasedir p) = plain (catalog_releasedir p)
catalog_operations m (fsync p) = plain (catalog_fsync p)
catalog_operations m (fsyncdir p) = plain (catalog_fsyncdir p)
catalog_operations m (opendir p) = plain (catalog_opendir p)
catalog_operations m (readdir p full) = do l ← catalog_readdir m full p; ok (items l)
catalog_operations m (mkdir p mode) = plain (catalog_mkdir p mode)
catalog_operations m (rmdir p) = plain (catalog_rmdir p)
catalog_operations m (link from to) = plain (catalog_link from to)
catalog_operations m (readlink p size) = do t ← catalog_readlink m p size; ok (text t)
catalog_operations m (symlink from to) = plain (catalog_symlink from to)
catalog_operations m (unlink p) = plain (catalog_unlink p)
catalog_operations m (mknod p mode dev) = plain (catalog_mknod p mode dev)
catalog_operations m (chmod p mode) = plain (catalog_chmod p mode)
catalog_operations m (chown p uid gid) = plain (catalog_chown p uid gid)
catalog_operations m (utimens p a t) = plain (catalog_utimens p a t)
catalog_operations m (truncate p size) = plain (catalog_truncate p size)
catalog_operations m (setxattr p name value flags) = plain (catalog_setxattr p name value flags)
catalog_operations m (getxattr p name size) = plain (catalog_getxattr p name size)
catalog_operations m (listxattr p size) = plain (catalog_listxattr p size)
catalog_operations m (removexattr p name) = plain (catalog_removexattr p name)

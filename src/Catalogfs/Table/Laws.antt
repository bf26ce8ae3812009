-- ===== src/Catalogfs/Table/Laws.antt =====
-- catalogfs.c: how the table answers requests that would change a file system.
use catalog_file_system.Base.{ℕ, ◌<◌, Option, some, none, ◌≡◌, err, Halts, Halts-bind}
use catalog_file_system.Catalogfs.Mount.{Mount}
use catalog_file_system.Catalogfs.Table
use catalog_file_system.Catalogfs.Handlers.Halting.{
  catalog_getattr-Halts, catalog_readdir-Halts, catalog_readlink-Halts,
}

-- The code with which a request must be refused in a file system without contents that cannot be
-- changed: -EROFS (30) if it would change names, contents, attributes or extended attributes, -EPERM
-- (1) if it asks for the contents of a file, and none for the other requests.
abbrev pub refusal : Table.Request → Option ℕ
refusal (Table.mkdir p mode) = some 30
refusal (Table.rmdir p) = some 30
refusal (Table.write p buf offset) = some 30
refusal (Table.rename from to) = some 30
refusal (Table.link from to) = some 30
refusal (Table.symlink from to) = some 30
refusal (Table.unlink p) = some 30
refusal (Table.mknod p mode dev) = some 30
refusal (Table.chmod p mode) = some 30
refusal (Table.chown p uid gid) = some 30
refusal (Table.utimens p a t) = some 30
refusal (Table.truncate p size) = some 30
refusal (Table.setxattr p name value flags) = some 30
refusal (Table.removexattr p name) = some 30
refusal (Table.open_file p) = some 1
refusal (Table.read p size offset) = some 1
refusal _ = none

-- Every request that would change the file system is answered -EROFS, and every request for the
-- contents of a file -EPERM, whatever its arguments and the catalog are.
pub catalog_operations-refuses :
    (m : Mount) (q : Table.Request) (e : ℕ)
    → refusal q ≡ some e
    → Table.catalog_operations m q ≡ err e
unfolding Table.catalog_operations
catalog_operations-refuses m (Table.mkdir p mode) e h = cc
catalog_operations-refuses m (Table.rmdir p) e h = cc
catalog_operations-refuses m (Table.write p buf offset) e h = cc
catalog_operations-refuses m (Table.rename from to) e h = cc
catalog_operations-refuses m (Table.link from to) e h = cc
catalog_operations-refuses m (Table.symlink from to) e h = cc
catalog_operations-refuses m (Table.unlink p) e h = cc
catalog_operations-refuses m (Table.mknod p mode dev) e h = cc
catalog_operations-refuses m (Table.chmod p mode) e h = cc
catalog_operations-refuses m (Table.chown p uid gid) e h = cc
catalog_operations-refuses m (Table.utimens p a t) e h = cc
catalog_operations-refuses m (Table.truncate p size) e h = cc
catalog_operations-refuses m (Table.setxattr p name value flags) e h = cc
catalog_operations-refuses m (Table.removexattr p name) e h = cc
catalog_operations-refuses m (Table.open_file p) e h = cc
catalog_operations-refuses m (Table.read p size offset) e h = cc
catalog_operations-refuses m q e h = cc

-- In a catalog of less than 2^31 entries no loop of a handler runs out of rounds, whatever the catalog
-- file holds: for every request the handler returns, or the process ends where the catalog file cannot
-- be opened.
pub catalog_operations-Halts :
    (m : Mount) (q : Table.Request)
    → m.catalog_len < 0x8000_0000
    → Halts (Table.catalog_operations m q)
unfolding Table.catalog_operations
catalog_operations-Halts m (Table.getattr p) few =
    Halts-bind _ _ (catalog_getattr-Halts m p) (λ a h b. cc)
catalog_operations-Halts m (Table.readdir p full) few =
    Halts-bind _ _ (catalog_readdir-Halts m full p few) (λ a h b. cc)
catalog_operations-Halts m (Table.readlink p size) few =
    Halts-bind _ _ (catalog_readlink-Halts m p size) (λ a h b. cc)
catalog_operations-Halts m _ few = λ b. cc

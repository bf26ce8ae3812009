-- ===== src/Catalogfs.antt =====
-- catalogfs.c: the file system that serves a catalog file.
pub mod Mount
pub mod Entry
pub mod Reader
pub mod Search
pub mod Directory
pub mod Handlers
pub mod ReadOnly
pub mod Table
pub mod Spec
pub mod Main

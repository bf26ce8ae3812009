-- ===== src/Helper.antt =====
-- helper/: small programs that try the calls which the file system and the generator make.
pub mod Scanf
pub mod Stat
pub mod Statfs

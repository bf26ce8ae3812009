-- ===== src/Binsearch.antt =====
-- binsearchinfile.c: the stand-alone search over a catalog of 14 entries.
pub mod Entry
pub mod Search
pub mod Directory
pub mod Main

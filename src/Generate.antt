-- ===== src/Generate.antt =====
-- generate_catalog.c: the program that writes a catalog file for a directory.
pub mod Queue
pub mod Entry
pub mod Pad
pub mod Listing
pub mod Tree
pub mod Rounds
pub mod Order
pub mod Main

-- ===== src/RoundTrip.antt =====
-- generate_catalog.c and catalogfs.c together: the file system reads what the generator wrote.
pub mod Fields
pub mod Mode
pub mod Lines
pub mod Entry
pub mod File
pub mod Catalog
pub mod Steps
pub mod Walk
pub mod Program
pub mod Ends
pub mod Before
pub mod Ordered
pub mod Answers
pub mod Whole
pub mod Start
pub mod Listing
pub mod Serves
pub mod Sizes
pub mod Mounting

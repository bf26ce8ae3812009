-- ===== src/Lib.antt =====
-- Catalogfs: a read-only FUSE file system over a catalog, a text file with one line for each file of
-- a directory tree, and the generator that writes such catalogs.
--
-- The parts, and the files that model them:
--   * catalogfs.c, the file system. Its globals (`catalogFile`, `entry_size`, `catalog_len`) and the
--     catalog file are the record `Mount` of Catalogfs/Mount. Catalogfs/Entry reads an entry
--     (`getEntry_from_catalog`, `getEntry_depth_filepath`, `getEntry_filepath`, `findDepth`).
--     Catalogfs/Reader is the interface between the reading and the search: the length, and the depth
--     and path of an entry. Catalogfs/Search is `binSearch` with `find_index`, `find_lowest_index`,
--     `find_highest_index` and `calculateMid`; Catalogfs/Directory is `get_directory_contents`;
--     Catalogfs/Handlers has `catalog_getattr`, `catalog_readdir` and `catalog_readlink`;
--     Catalogfs/ReadOnly has the other handlers, Catalogfs/Table the table `catalog_operations`, and
--     Catalogfs/Main the function `main` up to `fuse_main`. Catalogfs/Spec is what the file system is
--     to be: the answers of a tree of files to the requests, without a catalog.
--   * generate_catalog.c, the generator. Generate/Entry is `print_entry_to_catalog` and
--     `print_to_catalog`, Generate/Pad is `pad_each_line`, Generate/Queue is the breadth-first queue
--     on the heap, Generate/Listing is `filter` and `catalog_listing`, and Generate/Main is `main`.
--     Generate/Tree says without the queue in which order a tree is printed, Generate/Rounds which
--     trees are finite, Generate/Order how the directories in the queue are ordered, and
--     Generate/Queue/Trace compares any sequence of the queue's calls with a queue of names.
--   * binsearchinfile.c (and its copy in helper/), a program that searches a catalog of fixed size.
--     Binsearch/Entry reads an entry, Binsearch/Search is `binSearch` with its loops,
--     Binsearch/Directory is `get_directory_contents`, and Binsearch/Main is the table `catalog` and
--     `main`. Binsearch/Search/Equal fills the interface of Catalogfs/Reader for this program.
--   * bytecount.c, which the script catalogfsmount calls to see whether all lines of a catalog have
--     one length, is Bytecount. The script itself is Catalogfsmount, up to its call of `catalogfs`;
--     Catalogfsmount/Tools says what it relies on of the shell's expansion of unquoted values, and of
--     `expr`, `sort`, `wc`, `ls`, `[` and `eval`, which are a parameter; Catalogfsmount/Words is about the
--     words that the script hands to them.
--   * generate_catalog.old.c, a draft of the generator that lists one directory, is Draft.
--   * helper/scanf.c, stat.c and statfs.c, trials of `sscanf` and `stat`, are Helper.
--   * RoundTrip puts the programs together. RoundTrip/Mode, Fields, Entry, Lines and File follow an
--     entry from `fprintf` through `pad_each_line` to `sscanf`; Steps, Walk, Ends, Before and Ordered
--     follow the walk over the directories, with its queue on the heap, to the list of paths;
--     Program is the generator's `main`, and Start that of the file system; Catalog, Answers, Listing,
--     Serves and Whole are about the file system that is started on a generated catalog, and Sizes
--     and Mounting about the script that starts it.
--   * Base has the helpers (tests, lists, signed integers, outcomes); Clib has what the programs call
--     of the C library (`strcmp`, `strncmp`, `strncpy`, `basename`, `sscanf`, `fprintf`). Examples has
--     a catalog of four entries, a directory for the generator, one in which the order of the walk is
--     not that of the search (Examples/Unordered), the runs of the programs of helper/, and the theorems
--     applied to them.
--
-- Conventions. A text is a list of bytes without its final NUL. A function returns an `Outcome`: `ok`
-- with its outputs, `err e` for the return value -e, `exit` where the process ends, and `out_of_fuel`
-- for a loop that was given too few rounds. Loops take as fuel one round more than the indices between
-- their bounds, which is enough since each round moves a bound; the theorems on termination show it.
-- The walk over a tree takes its rounds as an argument, since a tree has no bound.
-- `int` and `long` are integers, cut to 32 bits where the code stores a `long` in an `int`, casts to
-- `int` or counts in one (the offset of an entry, the loop of `readdir`, the padding). `calculateMid`
-- is also there with the wrap of 64 bits, beside the one on integers that the loops use. Memory that
-- is not initialised, and what a pointer into a frame that was left reads, are fields of `Mount` and
-- `Files`, so that a theorem that needs them to be kept says so.
--
-- Parameters: the answers of FUSE's `filler` (a function of the calls so far), of `lstat`, `stat`,
-- `readlink` and `scandir` (with `alphasort`), of `malloc` for the queue, `ctime`, the shell's expansion
-- and the programs that the script calls, and whether `fopen` and `rename` succeed.
-- The files that the walk finds do not change while it runs.
--
-- Not modelled: FUSE itself, messages on the terminal of the file system and the generators, file
-- descriptors and memory that are not given back, a failing `malloc` outside the queues, the bounds of the buffers other than those of
-- `getEntry_from_catalog` (Catalogfs/Entry/Buffers), and the options for FUSE that catalogfsmount
-- passes on. other_fs/ has copies of other projects.
pub mod Base
pub mod Clib
pub mod Bytecount
pub mod Catalogfsmount
pub mod Catalogfs
pub mod Binsearch
pub mod Generate
pub mod Draft
pub mod Helper
pub mod RoundTrip
pub mod Examples

-- ===== src/Helper/Stat.antt =====
-- helper/stat.c: what `stat` says of a file.
pub mod Types
use Prim.Native.Nat.{bit_and}
use catalog_file_system.Base.{
  ℕ, ◌==◌, if◌then◌else◌, Option, none, some, List, [], ◌∷◌, ◌++◌, ℤ, pos,
}
use catalog_file_system.Clib.Text.{Bytes, codes, joined}
use catalog_file_system.Clib.Print.{print_natural, print_integer}
use catalog_file_system.Catalogfs.Mount
use catalog_file_system.Generate.Entry.{to_long}

-- The fields of `struct stat` that only this program prints.
pub record FileStat : Type 0 where
  pub st_data : Mount.Stat
  pub st_ino : ℕ
  pub st_blksize : ℤ
  pub st_blocks : ℤ

-- The argument of `exit`, and what went to the standard output.
pub record Ended : Type 0 where
  pub status : ℤ
  pub printed : Bytes

-- The `switch` on `sb.st_mode & S_IFMT`.
unfoldable pub file_type : ℕ → Bytes
file_type st_mode =
    let t = bit_and st_mode 0o170000 in
    if t == 0o060000
    then codes "block device"
    else if t == 0o020000
    then codes "character device"
    else if t == 0o040000
    then codes "directory"
    else if t == 0o010000
    then codes "FIFO/pipe"
    else if t == 0o120000
    then codes "symlink"
    else if t == 0o100000
    then codes "regular file"
    else if t == 0o140000
    then codes "socket"
    else codes "unknown?"

-- The calls of `printf`. `ctime` gives a line with its newline.
unfoldable pub report : (ctime : ℤ → Bytes) → FileStat → Bytes
unfolding file_type print_natural print_integer to_long
report ctime sb = joined (
    codes "File type:                "
    ∷ file_type sb.st_data.st_mode
    ∷ (10 ∷ codes "I-node number:            ")
    ∷ print_integer (to_long sb.st_ino)
    ∷ (10 ∷ codes "Mode:                     ")
    ∷ print_natural 8 sb.st_data.st_mode
    ∷ codes " (octal)"
    ∷ (10 ∷ codes "Link count:               ")
    ∷ print_integer (to_long sb.st_data.st_nlink)
    ∷ (10 ∷ codes "Ownership:                UID=")
    ∷ print_natural 10 sb.st_data.st_uid
    ∷ codes "   GID="
    ∷ print_natural 10 sb.st_data.st_gid
    ∷ (10 ∷ codes "Preferred I/O block size: ")
    ∷ print_integer sb.st_blksize
    ∷ codes " bytes"
    ∷ (10 ∷ codes "File size:                ")
    ∷ print_integer sb.st_data.st_size
    ∷ codes " bytes"
    ∷ (10 ∷ codes "Blocks allocated:         ")
    ∷ print_integer sb.st_blocks
    ∷ (10 ∷ codes "Last inode change:        ")
    ∷ ctime sb.st_data.st_ctime
    ∷ codes "Last file access:         "
    ∷ ctime sb.st_data.st_atime
    ∷ codes "Last file modification:   "
    ∷ ctime sb.st_data.st_mtime
    ∷ [])

abbrev show : (ctime : ℤ → Bytes) → Option FileStat → Ended
show ctime none = record { status = pos 0; printed = [] }
show ctime (some sb) = record { status = pos 0; printed = report ctime sb }

abbrev usage : Ended
usage = record { status = pos 1; printed = [] }

-- `main`: after a failed `stat`, too, it ends with EXIT_SUCCESS.
unfoldable pub main : (ctime : ℤ → Bytes) → (Bytes → Option FileStat) → List Bytes → Ended
unfolding report
main ctime stat (program ∷ path ∷ []) = show ctime (stat path)
main ctime stat [] = usage
main ctime stat (program ∷ []) = usage
main ctime stat (program ∷ path ∷ more ∷ rest) = usage

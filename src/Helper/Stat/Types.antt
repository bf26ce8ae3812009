-- ===== src/Helper/Stat/Types.antt =====
-- helper/stat.c: the types of file, against those of the catalog's programs.
use Prim.Native.Nat.{bit_and}
use catalog_file_system.Base.{
  ℕ, ◌+◌, ◌*◌, ◌<◌, ◌≡◌, refl, Bool, true, ◌==◌, ==_iff, passes_under, passes_under-at,
}
use catalog_file_system.Clib.Text.{Bytes, codes}
use catalog_file_system.Helper.Stat.{file_type}
use catalog_file_system.RoundTrip.Mode.{Kind, fifo, chr, dir, blk, reg, lnk, sock, number}

abbrev pub name_of : Kind → Bytes
name_of fifo = codes "FIFO/pipe"
name_of chr = codes "character device"
name_of dir = codes "directory"
name_of blk = codes "block device"
name_of reg = codes "regular file"
name_of lnk = codes "symlink"
name_of sock = codes "socket"

abbrev check : ℕ → ℕ → Bool
check k p = bit_and (k * 4096 + p) 0o170000 == k * 4096

checked : (k : Kind) → passes_under (check (number k)) 4096 ≡ true
unfolding passes_under
checked fifo = refl
checked chr = refl
checked dir = refl
checked blk = refl
checked reg = refl
checked lnk = refl
checked sock = refl

type_bits_of :
    (k : Kind) (p : ℕ) → p < 4096 → bit_and (number k * 4096 + p) 0o170000 ≡ number k * 4096
type_bits_of k p h = (==_iff _ _).0 (passes_under-at (check (number k)) 4096 (checked k) p h)

-- Each type that the generator and the file system know is named, whatever the permissions are.
pub file_type-number : (k : Kind) (p : ℕ) → p < 4096 → file_type (number k * 4096 + p) ≡ name_of k
unfolding file_type
file_type-number fifo p h = rw (type_bits_of fifo p h) refl
file_type-number chr p h = rw (type_bits_of chr p h) refl
file_type-number dir p h = rw (type_bits_of dir p h) refl
file_type-number blk p h = rw (type_bits_of blk p h) refl
file_type-number reg p h = rw (type_bits_of reg p h) refl
file_type-number lnk p h = rw (type_bits_of lnk p h) refl
file_type-number sock p h = rw (type_bits_of sock p h) refl

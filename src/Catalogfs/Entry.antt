-- ===== src/Catalogfs/Entry.antt =====
-- `getEntry_from_catalog`, `getEntry_depth_filepath`, `getEntry_filepath` and `findDepth`.
pub mod Limits
pub mod Buffers
use Prim.Native.Nat.{bit_or}
use catalog_file_system.Base.{
  ℕ, zero, suc, ◌+◌, List, [], ◌∷◌, ◌==◌, if◌then◌else◌, ℤ, pos, negsuc, ◌*ℤ◌, ltb_ℤ, to_unsigned,
  to_int, Outcome, ok, err, exit, ◌>>=◌, drop, on_error,
}
use catalog_file_system.Clib.Text.{Bytes, c_string, count_byte}
use catalog_file_system.Clib.Scan.{
  Directive, byte, integer, until, spaces, literal, sscanf, split_at,
}
use catalog_file_system.Catalogfs.Mount.{
  Stat, Pointer, into_frame, StatWdf, Locals, cannot_open, cannot_read, holds, Mount,
}

-- The number of '/' in a path that starts with one, -1 for any other.
unfoldable pub find_depth : Bytes → ℤ
unfolding count_byte
find_depth [] = negsuc 0
find_depth (b ∷ bs) = if b == b'/' then pos (count_byte b'/' (b ∷ bs)) else negsuc 0

-- `read` of `n` bytes: at the end of the file the rest of the buffer stays what it was.
unfoldable pub read_into : ℕ → Bytes → (ℕ → ℕ) → ℕ → Bytes
read_into zero bs stale i = []
read_into (suc n) [] stale i = stale i ∷ read_into n [] stale (i + 1)
read_into (suc n) (b ∷ bs) stale i = b ∷ read_into n bs stale (i + 1)

abbrev pub drop_bytes : ℤ → Bytes → Bytes
drop_bytes (pos n) bs = drop n bs
drop_bytes (negsuc n) bs = bs

-- `open`, `lseek` and `read`.
unfoldable pub read_entry : Mount → ℤ → Outcome Bytes
unfolding read_into ltb_ℤ
read_entry m offset = elim m.catalog_file [
  | cannot_open ↦ exit
  | cannot_read ↦ err 1
  | holds bs ↦
      if ltb_ℤ offset (pos 0)
      then err 1
      else ok (read_into m.entry_size (drop_bytes offset bs) m.stale_entry 0)
]

-- "%c %lo %ld %ld %ld %lld %lld %lld %lld %d \1%[^\1]s\1\n"
abbrev pub entry_format : List (Directive Locals)
entry_format =
    byte (λ v s. record s { c = v })
    ∷ spaces
    ∷ integer 8 (λ v s. record s { mode = v })
    ∷ spaces
    ∷ integer 10 (λ v s. record s { nlink = v })
    ∷ spaces
    ∷ integer 10 (λ v s. record s { uid = v })
    ∷ spaces
    ∷ integer 10 (λ v s. record s { gid = v })
    ∷ spaces
    ∷ integer 10 (λ v s. record s { size = v })
    ∷ spaces
    ∷ integer 10 (λ v s. record s { atime = v })
    ∷ spaces
    ∷ integer 10 (λ v s. record s { mtime = v })
    ∷ spaces
    ∷ integer 10 (λ v s. record s { ctime = v })
    ∷ spaces
    ∷ integer 10 (λ v s. record s { depth = v })
    ∷ spaces
    ∷ literal 1
    ∷ until 1 (λ v s. record s { file_path = v })
    ∷ literal b's'
    ∷ literal 1
    ∷ spaces
    ∷ []

-- The `switch` on the type letter: the `S_IF…` bits, none for another letter.
unfoldable pub type_bits : ℕ → ℕ
type_bits c =
    if c == b'd'
    then 0o040000
    else if c == b'l'
    then 0o120000
    else if c == b'f'
    then 0o100000
    else if c == b'b'
    then 0o060000
    else if c == b'c'
    then 0o020000
    else if c == b'p'
    then 0o010000
    else if c == b's'
    then 0o140000
    else 0

-- The assignments to `st_wdf->st_data`, with the conversions to the types of its fields.
unfoldable pub stat_of_locals : Locals → Stat
unfolding type_bits to_unsigned
stat_of_locals s = record {
  st_mode = bit_or (type_bits s.c) (to_unsigned 32 s.mode);
  st_nlink = to_unsigned 64 s.nlink;
  st_uid = to_unsigned 32 s.uid;
  st_gid = to_unsigned 32 s.gid;
  st_size = s.size;
  st_atime = s.atime;
  st_mtime = s.mtime;
  st_ctime = s.ctime;
}

-- `strcpy(link_dest, file_path + i)`, made only if the separator \2 was found.
abbrev pub link_part : Bytes → Bytes → Bytes
link_part stale [] = stale
link_part stale (_ ∷ target) = target

-- What follows `sscanf`: a link's text is cut at its \2.
unfoldable pub entry_of_locals : Bytes → Locals → StatWdf
unfolding stat_of_locals split_at
entry_of_locals stale s =
    if s.c == b'l'
    then record {
      depth = s.depth;
      file_path = into_frame (split_at 2 s.file_path).0;
      st_data = stat_of_locals s;
      link_dest = into_frame (link_part stale (split_at 2 s.file_path).1);
    }
    else record {
      depth = s.depth;
      file_path = into_frame s.file_path;
      st_data = stat_of_locals s;
      link_dest = Pointer.literal [];
    }

-- The offset is computed in `long` and stored in an `int`.
unfoldable pub get_entry_from_catalog : Mount → ℤ → Outcome StatWdf
unfolding read_entry entry_of_locals
get_entry_from_catalog m location = do
  entry ← read_entry m (to_int (pos m.entry_size *ℤ location))
  ok (entry_of_locals m.stale_link_dest (sscanf entry_format m.stale_locals (c_string entry)))

-- What a string function reads through a pointer after the call returned.
abbrev pub deref : (Bytes → Bytes) → Pointer → Bytes
deref frame (Pointer.literal s) = s
deref frame (into_frame s) = frame s

unfoldable pub get_entry_depth_filepath : Mount → ℤ → Outcome (ℤ × Bytes)
get_entry_depth_filepath m location = do
  e ← on_error (get_entry_from_catalog m location) (err 1)
  ok (e.depth, deref m.left_frame e.file_path)

unfoldable pub get_entry_filepath : Mount → ℤ → Outcome Bytes
get_entry_filepath m location = do e ← get_entry_depth_filepath m location; ok e.1

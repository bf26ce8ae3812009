-- ===== src/Binsearch/Entry.antt =====
-- binsearchinfile.c: `findDepth`, `getEntry_from_catalog`, `getEntry_depth_filepath` and
-- `getEntry_file_path`.
use catalog_file_system.Base.{
  ℕ, ◌+◌, List, [], ◌∷◌, ◌==◌, if◌then◌else◌, ℤ, pos, negsuc, ◌*ℤ◌, ltb_ℤ, to_int, Outcome, ok, err,
  exit, ◌>>=◌, on_error,
}
use catalog_file_system.Clib.Text.{Bytes, c_string}
use catalog_file_system.Clib.Scan.{Directive, byte, integer, until, spaces, literal, sscanf}
use catalog_file_system.Catalogfs.Mount.{Stat, Locals, File, cannot_open, cannot_read, holds}
use catalog_file_system.Catalogfs.Entry.{read_into, drop_bytes, stat_of_locals}

-- ENTRY_SIZE and CATALOG_LEN.
abbrev pub entry_size : ℕ
entry_size = 84

abbrev pub catalog_len : ℕ
catalog_len = 14

-- `file_path` points into the frame of `getEntry_from_catalog`.
pub record StatWdf : Type 0 where
  pub depth : ℤ
  pub file_path : Bytes
  pub st_data : Stat

-- The file catalog.list, and what C leaves open: the bytes of `entry` that `read` does not set, the
-- variables that `sscanf` does not set, `mid` in `binSearch`, and a frame that was left.
pub record Disk : Type 0 where
  pub catalog_list : File
  pub stale_entry : ℕ → ℕ
  pub stale_locals : Locals
  pub stale_mid : ℤ
  pub left_frame : Bytes → Bytes

-- The loop of `findDepth`.
unfoldable pub count_slashes : Bytes → ℕ → ℕ
count_slashes [] count = count
count_slashes (b ∷ bs) count = count_slashes bs (if b == b'/' then count + 1 else count)

unfoldable pub find_depth : Bytes → ℤ
unfolding count_slashes
find_depth [] = negsuc 0
find_depth (b ∷ bs) = if b == b'/' then pos (count_slashes (b ∷ bs) 0) else negsuc 0

-- `open`, `lseek` and `read`.
unfoldable pub read_entry : Disk → ℤ → Outcome Bytes
unfolding read_into ltb_ℤ
read_entry d offset = elim d.catalog_list [
  | cannot_open ↦ exit
  | cannot_read ↦ err 1
  | holds bs ↦
      if ltb_ℤ offset (pos 0)
      then err 1
      else ok (read_into entry_size (drop_bytes offset bs) d.stale_entry 0)
]

-- "%c %lo %ld %ld %ld %lld %lld %lld %lld %d \13%[^\13]s\13\n": \13 is the vertical tab, which
-- `sscanf` takes for white space.
abbrev pub entry_format : List (Directive Locals)
entry_format =
    byte (λ v s. record s { c = v })
    ∷ spaces
    ∷ integer 8 (λ v s. record s { mode = v })
    ∷ spaces
    ∷ integer 10 (λ v s. record s { nlink = v })
    ∷ spaces
    ∷ integer 10 (λ v s. record s { uid = v })
    ∷ spaces
    ∷ integer 10 (λ v s. record s { gid = v })
    ∷ spaces
    ∷ integer 10 (λ v s. record s { size = v })
    ∷ spaces
    ∷ integer 10 (λ v s. record s { atime = v })
    ∷ spaces
    ∷ integer 10 (λ v s. record s { mtime = v })
    ∷ spaces
    ∷ integer 10 (λ v s. record s { ctime = v })
    ∷ spaces
    ∷ integer 10 (λ v s. record s { depth = v })
    ∷ spaces
    ∷ spaces
    ∷ until 11 (λ v s. record s { file_path = v })
    ∷ literal b's'
    ∷ spaces
    ∷ spaces
    ∷ []

-- The `switch` and the assignments behind it, which are those of catalogfs.c without the links.
unfoldable pub entry_of_locals : Locals → StatWdf
unfolding stat_of_locals
entry_of_locals s = record { depth = s.depth; file_path = s.file_path; st_data = stat_of_locals s }

unfoldable pub get_entry_from_catalog : Disk → ℤ → Outcome StatWdf
unfolding read_entry entry_of_locals sscanf c_string to_int ◌*ℤ◌
get_entry_from_catalog d location = do
  entry ← read_entry d (to_int (pos entry_size *ℤ location))
  ok (entry_of_locals (sscanf entry_format d.stale_locals (c_string entry)))

unfoldable pub get_entry_depth_filepath : Disk → ℤ → Outcome (ℤ × Bytes)
unfolding get_entry_from_catalog
get_entry_depth_filepath d location = do
  e ← on_error (get_entry_from_catalog d location) (err 1)
  ok (e.depth, d.left_frame e.file_path)

unfoldable pub get_entry_file_path : Disk → ℤ → Outcome Bytes
unfolding get_entry_depth_filepath
get_entry_file_path d location = do e ← get_entry_depth_filepath d location; ok e.1

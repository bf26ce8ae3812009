-- ===== src/Generate/Pad.antt =====
-- generate_catalog.c: `pad_each_line`.
pub mod Laws
pub mod Sizes
use catalog_file_system.Base.{
  ℕ, zero, suc, ◌-◌, ◌==◌, ltb, if◌then◌else◌, ℤ, pos, negsuc, ◌-ℤ◌, rounds, to_int, List, [], ◌∷◌,
  ◌++◌, length, take, replicate,
}
use catalog_file_system.Clib.Text.{Bytes}

-- `getline` until the end of the file: each line with its newline, and a last one without, if bytes
-- follow the last newline.
abbrev add_byte : ℕ → List Bytes → List Bytes
add_byte b [] = (b ∷ []) ∷ []
add_byte b (l ∷ ls) = (b ∷ l) ∷ ls

unfoldable pub getlines : Bytes → List Bytes
getlines [] = []
getlines (b ∷ bs) = if b == 10 then (10 ∷ []) ∷ getlines bs else add_byte b (getlines bs)

-- The first loop: the length of the longest line.
unfoldable pub longest : ℕ → List Bytes → ℕ
longest max_len [] = max_len
longest max_len (l ∷ ls) = longest (if ltb max_len (length l) then length l else max_len) ls

-- `%.*s`: the precision is an `int`, and a negative one is as if it were not there.
abbrev pub precise : ℤ → Bytes → Bytes
precise (pos n) line = take n line
precise (negsuc n) line = line

-- The bound of the `for` loop, a difference of two values cut to `int`.
unfoldable pub missing : ℕ → ℕ → ℕ
unfolding to_int ◌-ℤ◌
missing max_len len = rounds (to_int (to_int (pos max_len) -ℤ to_int (pos len)))

-- One round of the second loop: the line without its last byte, the bytes \1 that are missing, and a
-- newline.
unfoldable pub pad_line : ℕ → Bytes → Bytes
unfolding missing to_int ◌-ℤ◌
pad_line max_len line =
    precise (to_int (pos (length line) -ℤ pos 1)) line
    ++ (replicate (missing max_len (length line)) 1 ++ 10 ∷ [])

unfoldable pub pad_lines : ℕ → List Bytes → Bytes
unfolding pad_line
pad_lines max_len [] = []
pad_lines max_len (l ∷ ls) = pad_line max_len l ++ pad_lines max_len ls

-- The contents of the file `.temp` for those of the catalog file.
unfoldable pub pad_each_line : Bytes → Bytes
unfolding getlines longest pad_lines
pad_each_line file = pad_lines (longest 0 (getlines file)) (getlines file)

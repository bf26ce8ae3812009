-- ===== src/Bytecount/Laws.antt =====
-- bytecount.c: the counts of a padded file.
use catalog_file_system.Base.{
  ℕ, ◌≤◌, zero, suc, ◌+◌, ◌-◌, ◌<◌, ◌≡◌, refl, sym, ap, ◌∙◌, false, arith, Option, some, List, [],
  ◌∷◌, ◌++◌, append_assoc, length, replicate, pos, to_int_small, ok,
}
use catalog_file_system.Clib.Text.{Bytes, has_byte}
use catalog_file_system.Generate.Pad.{getlines, longest, pad_line, pad_lines, pad_each_line}
use catalog_file_system.Generate.Pad.Laws.{
  file_of, with_newlines, OneLine, AllOneLine, Fit, getlines-file_of, pad_line-text,
  length-pad_line, longest-Fit,
}
use catalog_file_system.Bytecount.{count_lines, main}

-- The texts between the newlines of the padded file.
abbrev padded_text : ℕ → Bytes → Bytes
padded_text n l = l ++ replicate (n - (length l + 1)) 1

abbrev padded_texts : ℕ → List Bytes → List Bytes
padded_texts n [] = []
padded_texts n (l ∷ ls) = padded_text n l ∷ padded_texts n ls

pad_line-padded_text :
    (n : ℕ) (l : Bytes)
    → length l + 1 ≤ n
    → n < 0x8000_0000
    → pad_line n (l ++ 10 ∷ []) ≡ padded_text n l ++ 10 ∷ []
pad_line-padded_text n l h small =
    pad_line-text n l h small ∙ sym (append_assoc l (replicate (n - (length l + 1)) 1) (10 ∷ []))

pad_lines-file_of :
    (n : ℕ) (ls : List Bytes)
    → Fit n ls
    → n < 0x8000_0000
    → pad_lines n (with_newlines ls) ≡ file_of (padded_texts n ls)
unfolding pad_lines with_newlines file_of
pad_lines-file_of n [] fit small = refl
pad_lines-file_of n (l ∷ ls) fit small =
    rw (pad_line-padded_text n l fit.0 small, pad_lines-file_of n ls fit.1 small)
      (append_assoc (padded_text n l) (10 ∷ []) (file_of (padded_texts n ls)))

has_byte-replicate : (k : ℕ) → has_byte 10 (replicate k 1) ≡ false
unfolding has_byte
has_byte-replicate zero = refl
has_byte-replicate (suc k) = has_byte-replicate k

padded_text-OneLine : (l : Bytes) (k : ℕ) → OneLine l → OneLine (l ++ replicate k 1)
unfolding has_byte
padded_text-OneLine [] k h = has_byte-replicate k
padded_text-OneLine (b ∷ bs) k h = ground (arith, padded_text-OneLine bs k)

padded_texts-AllOneLine : (n : ℕ) (ls : List Bytes) → AllOneLine ls → AllOneLine (padded_texts n ls)
padded_texts-AllOneLine n [] h = tt
padded_texts-AllOneLine n (l ∷ ls) h =
    (padded_text-OneLine l (n - (length l + 1)) h.0, padded_texts-AllOneLine n ls h.1)

count_lines-padded :
    (n : ℕ) (ls : List Bytes)
    → Fit n ls
    → n < 0x8000_0000
    → count_lines (with_newlines (padded_texts n ls)) ≡ replicate (length ls) (pos n)
unfolding count_lines with_newlines
count_lines-padded n [] fit small = refl
count_lines-padded n (l ∷ ls) fit small =
    let e : length (padded_text n l ++ 10 ∷ []) ≡ n =
      ap length (sym (pad_line-padded_text n l fit.0 small)) ∙ length-pad_line n l fit.0 small in
    rw (e, to_int_small n small, count_lines-padded n ls fit.1 small) refl

-- Let the file that is opened be what `pad_each_line` makes of lines without newlines inside, the
-- longest below 2 GiB with its newline, and let the message be printed. Then `main` returns 0 and
-- prints one and the same number for every line, the length of the longest.
pub main-pad_each_line :
    (text program name : Bytes) (fopen : Bytes → Option Bytes) (ls : List Bytes)
    → AllOneLine ls
    → longest 0 (with_newlines ls) < 0x8000_0000
    → fopen name ≡ some (pad_each_line (file_of ls))
    → main (some text) fopen (program ∷ name ∷ [])
      ≡ ok (record {
        status = pos 0;
        printed = replicate (length ls) (pos (longest 0 (with_newlines ls)));
      })
unfolding main pad_each_line
main-pad_each_line text program name fopen ls clean small found =
    let n = longest 0 (with_newlines ls) in
    let lines : getlines (pad_lines n (with_newlines ls)) ≡ with_newlines (padded_texts n ls) =
      ap getlines (pad_lines-file_of n ls (longest-Fit ls 0 n (omega arith)) small)
      ∙ getlines-file_of (padded_texts n ls) (padded_texts-AllOneLine n ls clean) in
    rw
      (
        found,
        getlines-file_of ls clean,
        lines,
        count_lines-padded n ls (longest-Fit ls 0 n (omega arith)) small,
      )
      refl

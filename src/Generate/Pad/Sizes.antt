-- ===== src/Generate/Pad/Sizes.antt =====
-- generate_catalog.c: how many bytes and lines the file has that `pad_each_line` leaves.
use catalog_file_system.Base.{
  ◌<◌, ◌≤◌, ℕ, zero, suc, ◌+◌, ◌-◌, ◌*◌, ◌≡◌, refl, ap, arith, List, [], ◌∷◌, ◌++◌, length,
  length-append, replicate,
}
use catalog_file_system.Clib.Text.{Bytes, has_byte, count_byte}
use catalog_file_system.Clib.Text.Count.{count_byte-append}
use catalog_file_system.Generate.Pad.{longest, pad_line, pad_lines, pad_each_line}
use catalog_file_system.Generate.Pad.Laws.{
  file_of, with_newlines, OneLine, AllOneLine, Fit, getlines-file_of, pad_line-text,
  length-pad_line, longest-Fit,
}

length-pad_lines :
    (n : ℕ) (ls : List Bytes)
    → Fit n ls
    → n < 0x8000_0000
    → length (pad_lines n (with_newlines ls)) ≡ length ls * n
unfolding pad_lines with_newlines
length-pad_lines n [] fit small = omega arith
length-pad_lines n (l ∷ ls) fit small =
    let e = length-append (pad_line n (l ++ 10 ∷ [])) (pad_lines n (with_newlines ls)) in
    let e' = length-pad_line n l fit.0 small in
    let e'' = length-pad_lines n ls fit.1 small in grind (arith, e, e', e'')

count_byte-OneLine : (l : Bytes) → OneLine l → count_byte 10 l ≡ 0
unfolding count_byte has_byte
count_byte-OneLine [] h = refl
count_byte-OneLine (b ∷ bs) h = ground (arith, count_byte-OneLine bs)

count_byte-replicate : (k : ℕ) → count_byte 10 (replicate k 1) ≡ 0
unfolding count_byte
count_byte-replicate zero = refl
count_byte-replicate (suc k) = omega (arith, count_byte-replicate k)

count_byte-pad_line :
    (n : ℕ) (l : Bytes)
    → OneLine l
    → length l + 1 ≤ n
    → n < 0x8000_0000
    → count_byte 10 (pad_line n (l ++ 10 ∷ [])) ≡ 1
unfolding count_byte
count_byte-pad_line n l h fits small =
    let k = n - (length l + 1) in
    let e = count_byte-append 10 l (replicate k 1 ++ 10 ∷ []) in
    let e' = count_byte-append 10 (replicate k 1) (10 ∷ []) in
    let e'' = count_byte-OneLine l h in
    let e3 = count_byte-replicate k in
    rw (pad_line-text n l fits small) (omega (arith, e, e', e'', e3))

count_byte-pad_lines :
    (n : ℕ) (ls : List Bytes)
    → AllOneLine ls
    → Fit n ls
    → n < 0x8000_0000
    → count_byte 10 (pad_lines n (with_newlines ls)) ≡ length ls
unfolding pad_lines with_newlines count_byte
count_byte-pad_lines n [] h fit small = refl
count_byte-pad_lines n (l ∷ ls) h fit small =
    let e = count_byte-append 10 (pad_line n (l ++ 10 ∷ [])) (pad_lines n (with_newlines ls)) in
    let e' = count_byte-pad_line n l h.0 fit.0 small in
    let e'' = count_byte-pad_lines n ls h.1 fit.1 small in omega (arith, e, e', e'')

pub length-pad_each_line :
    (ls : List Bytes)
    → AllOneLine ls
    → longest 0 (with_newlines ls) < 0x8000_0000
    → length (pad_each_line (file_of ls)) ≡ length ls * longest 0 (with_newlines ls)
unfolding pad_each_line
length-pad_each_line ls clean small =
    let n = longest 0 (with_newlines ls) in
    rw (getlines-file_of ls clean) (length-pad_lines n ls (longest-Fit ls 0 n (omega arith)) small)

pub count_byte-pad_each_line :
    (ls : List Bytes)
    → AllOneLine ls
    → longest 0 (with_newlines ls) < 0x8000_0000
    → count_byte 10 (pad_each_line (file_of ls)) ≡ length ls
unfolding pad_each_line
count_byte-pad_each_line ls clean small =
    let n = longest 0 (with_newlines ls) in
    rw (getlines-file_of ls clean)
      (count_byte-pad_lines n ls clean (longest-Fit ls 0 n (omega arith)) small)

pub length-with_newlines : (ls : List Bytes) → length (with_newlines ls) ≡ length ls
unfolding with_newlines
length-with_newlines [] = refl
length-with_newlines (l ∷ ls) = ap (λ n. suc n) (length-with_newlines ls)

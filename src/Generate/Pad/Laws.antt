-- ===== src/Generate/Pad/Laws.antt =====
-- generate_catalog.c: `pad_each_line` on a file whose lines all end in a newline.
use catalog_file_system.Base.{
  ℕ, zero, suc, ◌+◌, ◌-◌, ◌*◌, ◌≤◌, ◌≡◌, refl, subst, ap, ◌∙◌, ◌<◌, pos, ◌-ℤ◌, rounds, to_int,
  to_int_small, true, false, arith, dec_lt, some, List, [], ◌∷◌, ◌++◌, if◌then◌else◌, ltb, length,
  length-append, length-replicate, take-append, drop, drop-add_length, replicate, get_elem?,
}
use catalog_file_system.Clib.Text.{Bytes, has_byte}
use catalog_file_system.Generate.Pad.{
  precise, missing, getlines, longest, pad_line, pad_lines, pad_each_line,
}

-- A file of lines, each a text without newlines and a newline.
unfoldable pub file_of : List Bytes → Bytes
file_of [] = []
file_of (l ∷ ls) = l ++ (10 ∷ file_of ls)

-- The lines as `getline` returns them.
unfoldable pub with_newlines : List Bytes → List Bytes
with_newlines [] = []
with_newlines (l ∷ ls) = (l ++ 10 ∷ []) ∷ with_newlines ls

abbrev pub OneLine : Bytes → Type 0
OneLine l = has_byte 10 l ≡ false

abbrev pub AllOneLine : List Bytes → Type 0
AllOneLine [] = Unit {0}
AllOneLine (l ∷ ls) = OneLine l × AllOneLine ls

getlines-line :
    (l rest : Bytes) → OneLine l → getlines (l ++ (10 ∷ rest)) ≡ (l ++ 10 ∷ []) ∷ getlines rest
unfolding getlines has_byte
getlines-line [] rest h = refl
getlines-line (b ∷ bs) rest h = ground (arith, getlines-line bs rest)

pub getlines-file_of : (ls : List Bytes) → AllOneLine ls → getlines (file_of ls) ≡ with_newlines ls
unfolding file_of with_newlines
getlines-file_of [] h = unfold getlines in refl
getlines-file_of (l ∷ ls) h = rw (getlines-line l (file_of ls) h.0, getlines-file_of ls h.1)

longest-ge : (n : ℕ) (ls : List Bytes) → n ≤ longest n ls
unfolding longest
longest-ge n [] = omega arith
longest-ge n (l ∷ ls) = elim (dec_lt n (length l)) [
  | yes more ↦
      let e : ltb n (length l) ≡ true = ground arith in
      rw e (omega (arith, longest-ge (length l) ls))
  | no other ↦ let e : ltb n (length l) ≡ false = ground arith in rw e (longest-ge n ls)
]

-- No line is longer than the length that the first loop finds.
pub length-le-longest :
    (ls : List Bytes) (i n : ℕ) {l : Bytes} → get_elem? ls i ≡ some l → length l ≤ longest n ls
unfolding longest
length-le-longest [] i n h = cc
length-le-longest (x ∷ xs) zero n {l} h =
    let e : x ≡ l = cc in
    let m = if ltb n (length x) then length x else n in
    let le : length x ≤ m = ground arith in
    subst (λ t. length t ≤ longest m xs) e (omega (arith, longest-ge m xs, le))
length-le-longest (x ∷ xs) (suc i) n h =
    length-le-longest xs i (if ltb n (length x) then length x else n) h

get_elem?-with_newlines :
    (ls : List Bytes) (i : ℕ) {l : Bytes}
    → get_elem? ls i ≡ some l
    → get_elem? (with_newlines ls) i ≡ some (l ++ 10 ∷ [])
unfolding with_newlines
get_elem?-with_newlines [] i h = cc
get_elem?-with_newlines (l ∷ ls) zero h = cc
get_elem?-with_newlines (l ∷ ls) (suc i) h = get_elem?-with_newlines ls i h

pub length-le-longest_text :
    (ls : List Bytes) (i : ℕ) {l : Bytes}
    → get_elem? ls i ≡ some l
    → length l + 1 ≤ longest 0 (with_newlines ls)
length-le-longest_text ls i {l} h =
    let le = length-le-longest (with_newlines ls) i 0 (get_elem?-with_newlines ls i h) in
    omega (arith, le, length-append l (10 ∷ []))

difference-small : (n k : ℕ) → k ≤ n → n < 0x8000_0000 → rounds (to_int (pos n -ℤ pos k)) ≡ n - k
unfolding ◌-ℤ◌ to_int
difference-small n k order small = ground arith

last_off : (n k : ℕ) → n ≡ k + 1 → pos n -ℤ pos 1 ≡ pos k
unfolding ◌-ℤ◌
last_off n k e = ground arith

missing-small : (n k : ℕ) → k ≤ n → n < 0x8000_0000 → missing n k ≡ n - k
unfolding missing ◌-ℤ◌
missing-small n k order small =
    let low : k < 0x8000_0000 = omega (arith, order, small) in
    rw (to_int_small n small, to_int_small k low) (difference-small n k order small)

precise-text :
    (l : Bytes)
    → length l + 1 < 0x8000_0000
    → precise (to_int (pos (length (l ++ 10 ∷ [])) -ℤ pos 1)) (l ++ 10 ∷ []) ≡ l
precise-text l small =
    let e : pos (length (l ++ 10 ∷ [])) -ℤ pos 1 ≡ pos (length l) =
      last_off (length (l ++ 10 ∷ [])) (length l) (length-append l (10 ∷ [])) in
    rw (e, to_int_small (length l) (omega (arith, small))) (take-append l (10 ∷ []))

-- A line of the file becomes one of `max_len` bytes: its text, \1 bytes, and the newline.
pub pad_line-text :
    (n : ℕ) (l : Bytes)
    → length l + 1 ≤ n
    → n < 0x8000_0000
    → pad_line n (l ++ 10 ∷ []) ≡ l ++ (replicate (n - (length l + 1)) 1 ++ 10 ∷ [])
unfolding pad_line
pad_line-text n l h small =
    let e : length (l ++ 10 ∷ []) ≡ length l + 1 = length-append l (10 ∷ []) in
    let e' : missing n (length (l ++ 10 ∷ [])) ≡ n - (length l + 1) =
      ap (missing n) e ∙ missing-small n (length l + 1) h small in
    rw (precise-text l (omega (arith, h, small)), e') refl

pub length-pad_line :
    (n : ℕ) (l : Bytes)
    → length l + 1 ≤ n
    → n < 0x8000_0000
    → length (pad_line n (l ++ 10 ∷ [])) ≡ n
length-pad_line n l h small =
    let m = n - (length l + 1) in
    let e = length-append {A = ℕ} l (replicate m 1 ++ 10 ∷ []) in
    let e' = length-append {A = ℕ} (replicate m 1) (10 ∷ []) in
    let e'' = length-replicate {A = ℕ} m 1 in
    rw (pad_line-text n l h small) (omega (arith, e, e', e'', h))

-- Every line is at most `n` bytes long with its newline.
abbrev pub Fit : ℕ → List Bytes → Type 0
Fit n [] = Unit {0}
Fit n (l ∷ ls) = (length l + 1 ≤ n) × Fit n ls

-- In the padded file the line `i` begins at the byte `n * i`.
pub drop-pad_lines :
    (n : ℕ) (ls : List Bytes) (i : ℕ) {l : Bytes}
    → Fit n ls
    → n < 0x8000_0000
    → get_elem? ls i ≡ some l
    → (rest : Bytes) × (drop (n * i) (pad_lines n (with_newlines ls))
        ≡ pad_line n (l ++ 10 ∷ []) ++ rest)
unfolding pad_lines with_newlines
drop-pad_lines n [] i fit small h = cc
drop-pad_lines n (x ∷ xs) zero {l} fit small h =
    let e : x ≡ l = cc in
    let z : n * 0 ≡ 0 = omega arith in (pad_lines n (with_newlines xs), rw (z, e) refl)
drop-pad_lines n (x ∷ xs) (suc i) {l} fit small h =
    let ih = drop-pad_lines n xs i fit.1 small h in
    let z : n * suc i ≡ length (pad_line n (x ++ 10 ∷ [])) + n * i =
      rw (length-pad_line n x fit.0 small) (grind arith) in
    (
      ih.0,
      rw (z, drop-add_length (pad_line n (x ++ 10 ∷ [])) (pad_lines n (with_newlines xs)) (n * i))
          ih.1,
    )

pub longest-Fit : (ls : List Bytes) (k n : ℕ) → longest k (with_newlines ls) ≤ n → Fit n ls
unfolding longest with_newlines
longest-Fit [] k n h = tt
longest-Fit (x ∷ xs) k n h =
    let t = length (x ++ 10 ∷ []) in
    let m = if ltb k t then t else k in
    let le : t ≤ m = ground arith in
    (
      omega (arith, longest-ge m (with_newlines xs), le, h, length-append x (10 ∷ [])),
      longest-Fit xs m n h,
    )

-- Let no line hold a newline inside, and let the longest be below 2 GiB with its newline. What `lseek`
-- to the record `i` of the padded file finds is the text of line `i`, \1 bytes to the length of the
-- longest line, and a newline, before the records that follow.
pub drop-pad_each_line :
    (ls : List Bytes) (i : ℕ) {l : Bytes}
    → AllOneLine ls
    → longest 0 (with_newlines ls) < 0x8000_0000
    → get_elem? ls i ≡ some l
    → let n = longest 0 (with_newlines ls) in
      (rest : Bytes) × (drop (n * i) (pad_each_line (file_of ls))
        ≡ (l ++ (replicate (n - (length l + 1)) 1 ++ 10 ∷ [])) ++ rest)
unfolding pad_each_line
drop-pad_each_line ls i {l} clean small h =
    let n = longest 0 (with_newlines ls) in
    let (rest, e) = drop-pad_lines n ls i (longest-Fit ls 0 n (omega arith)) small h in
    let text = pad_line-text n l (length-le-longest_text ls i h) small in
    (rest, rw (getlines-file_of ls clean) (e ∙ ap (λ t. t ++ rest) text))

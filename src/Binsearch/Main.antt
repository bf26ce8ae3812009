-- ===== src/Binsearch/Main.antt =====
-- binsearchinfile.c: the table of entries in the program, and `main`.
pub mod Laws
pub mod Table
use catalog_file_system.Base.{ℕ, List, [], ◌∷◌, ◌++◌, replicate, ℤ, pos, Outcome, ok, ◌>>=◌}
use catalog_file_system.Clib.Text.{Bytes, codes}
use catalog_file_system.Clib.Scan.{Directive, integer, until, spaces, literal, skip_word, sscanf}
use catalog_file_system.Binsearch.Entry.{Disk}
use catalog_file_system.Binsearch.Directory.{get_directory_contents}

-- The fields, the path between vertical tabs, and a newline.
abbrev pub row : Bytes → Bytes → ℕ → Bytes
row fields path tabs = fields ++ (11 ∷ (path ++ (replicate tabs 11 ++ 10 ∷ [])))

-- `catalog[]`.
abbrev pub catalog : List Bytes
catalog =
    row (codes "d 0755 2 1001 1001 1000 1213101162 1213101161 1213113161 1 ") (codes "/") 22
    ∷ row (codes "f 0701 1 0 1 2000 1213102162 1213102161 1213112161 1 ") (codes "/.hidden file 1")
        14
    ∷ row (codes "c 0760 1 111 121 22222 1213112162 1213112161 1213101161 1 ")
        (codes "/character special file") 1
    ∷ row (codes "d 0702 2 108 7 3000 1213103162 1213103161 1213111161 1 ") (codes "/dir1") 22
    ∷ row (codes "d 0705 2 122 127 6000 1213106162 1213106161 1213108161 1 ") (codes "/dir2") 20
    ∷ row (codes "d 0702 2 108 7 3000 1213103162 1213103161 1213111161 2 ") (codes "/dir1/") 21
    ∷ row (codes "f 0726 1 115 125 7000 1213107162 1213107161 1213107161 2 ")
        (codes "/dir1/.hidden file 2") 5
    ∷ row (codes "p 0750 1 110 120 11111 1213111162 1213111161 1213102161 2 ")
        (codes "/dir1/fifo file") 9
    ∷ row (codes "f 0703 1 1002 1002 4000 1213104162 1213104161 1213110161 2 ")
        (codes "/dir1/file 1") 11
    ∷ row (codes "f 0704 1 41 41 5000 1213105162 1213105161 1213109111 2 ") (codes "/dir1/file 2")
        15
    ∷ row (codes "l 0710 1 119 29 9000 1213109162 1213109161 1213105161 2 ")
        (codes "/dir1/link file") 11
    ∷ row (codes "d 0705 2 122 127 6000 1213106162 1213106161 1213108161 2 ") (codes "/dir2/") 19
    ∷ row (codes "f 0747 1 117 126 8000 1213108162 1213108161 1213106161 2 ")
        (codes "/dir2/hello 2") 12
    ∷ row (codes "s 0740 1 113 124 10000 1213110162 1213110161 1213103161 2 ")
        (codes "/dir2/semaphore file") 4
    ∷ []

-- "%*s%*s%*s%*s%*s%*s%*s%*s%*s%*d\13%[^\13]s\13"
abbrev pub path_format : List (Directive Bytes)
path_format =
    skip_word
    ∷ skip_word
    ∷ skip_word
    ∷ skip_word
    ∷ skip_word
    ∷ skip_word
    ∷ skip_word
    ∷ skip_word
    ∷ skip_word
    ∷ integer 10 (λ v s. s)
    ∷ spaces
    ∷ until 11 (λ v s. v)
    ∷ literal b's'
    ∷ spaces
    ∷ []

-- The line "directory contents indices …" of one round.
pub record Printed : Type 0 where
  pub file_path : Bytes
  pub low : ℤ
  pub high : ℤ

-- The loop of `main`. `file_path` and `high` keep what they held where nothing sets them.
unfoldable pub main_loop :
    Disk → List Bytes → (file_path : Bytes) → (high : ℤ) → Outcome (List Printed)
unfolding get_directory_contents sscanf
main_loop d [] file_path high = ok []
main_loop d (entry ∷ rest) file_path high = do
  let path = sscanf path_format file_path entry
  range ← get_directory_contents d path high
  lines ← main_loop d rest path range.high
  ok (record { file_path = path; low = range.low; high = range.high } ∷ lines)

-- `main`, with what its variables hold before they are set.
unfoldable pub main : Disk → (file_path : Bytes) → (high : ℤ) → Outcome (List Printed)
unfolding main_loop
main d file_path high = main_loop d catalog file_path high

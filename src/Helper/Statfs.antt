-- ===== src/Helper/Statfs.antt =====
-- helper/statfs.c: `sscanf` and `printf` on an entry of an earlier form of the catalog, in which \13
-- is the separator.
use catalog_file_system.Base.{ℕ, Option, none, some, List, [], ◌∷◌, ◌++◌, get_elem?, to_unsigned}
use catalog_file_system.Clib.Text.{Bytes, codes, joined}
use catalog_file_system.Clib.Print.{print_natural, print_integer}
use catalog_file_system.Clib.Scan.{Directive, byte, integer, until, spaces, literal, sscanf}
use catalog_file_system.Catalogfs.Mount.{Locals}

abbrev pub entries : List Bytes
entries =
    (codes "d 0755 2 1001 1001 1000 1213101162 1213101161 1213113161 /" ++ (10 ∷ []))
    ∷ (codes "f 0701 1 0 1 2000 1213102162 1213102161 1213112161 /.hidden file 1" ++ (10 ∷ []))
    ∷ (codes "d 0702 2 108 7 3000 1213103162 1213103161 1213111161 /dir1" ++ (10 ∷ []))
    ∷ (codes "f 0703 1 1002 1002 4000 1213104162 1213104161 1213110161 /dir1/file 1" ++ (10 ∷ []))
    ∷ (codes "f 0704 1 41 41 5000 1213105162 1213105161 1213109111 /dir1/file 2" ++ (10 ∷ []))
    ∷ (codes "d 0705 2 122 127 6000 1213106162 1213106161 1213108161 /dir2" ++ (10 ∷ []))
    ∷ (codes "f 0726 1 115 125 7000 1213107162 1213107161 1213107161 /dir1/.hidden file 2"
        ++ (10 ∷ []))
    ∷ (codes "f 0747 1 117 126 8000 1213108162 1213108161 1213106161 /dir2/hello 2" ++ (10 ∷ []))
    ∷ (codes "l 0710 1 119 29 9000 1213109162 1213109161 1213105161 /dir1/link file" ++ (10 ∷ []))
    ∷ (codes "s 0740 1 113 124 10000 1213110162 1213110161 1213103161 /dir2/semaphore file"
        ++ (10 ∷ []))
    ∷ (codes "p 0750 1 110 120 11111 1213111162 1213111161 1213102161 /dir1/fifo file" ++ (10 ∷ []))
    ∷ (codes "c 0760 1 111 121 22222 1213112162 1213112161 1213101161 /character special file"
        ++ (10 ∷ []))
    ∷ []

-- "%c %lo %ld %ld %ld %lld %lld %lld %lld %[^\13]s\n"
abbrev pub format : List (Directive Locals)
format =
    byte (λ v s. record s { c = v })
    ∷ spaces
    ∷ integer 8 (λ v s. record s { mode = v })
    ∷ spaces
    ∷ integer 10 (λ v s. record s { nlink = v })
    ∷ spaces
    ∷ integer 10 (λ v s. record s { uid = v })
    ∷ spaces
    ∷ integer 10 (λ v s. record s { gid = v })
    ∷ spaces
    ∷ integer 10 (λ v s. record s { size = v })
    ∷ spaces
    ∷ integer 10 (λ v s. record s { atime = v })
    ∷ spaces
    ∷ integer 10 (λ v s. record s { mtime = v })
    ∷ spaces
    ∷ integer 10 (λ v s. record s { ctime = v })
    ∷ spaces
    ∷ until 11 (λ v s. record s { file_path = v })
    ∷ literal b's'
    ∷ spaces
    ∷ []

-- The second `printf`.
unfoldable pub report : Locals → Bytes
unfolding print_natural print_integer to_unsigned
report s = joined (
    codes "c="
    ∷ (s.c ∷ [])
    ∷ codes " mode="
    ∷ print_natural 8 (to_unsigned 64 s.mode)
    ∷ codes " nlink="
    ∷ print_integer s.nlink
    ∷ codes " uid="
    ∷ print_integer s.uid
    ∷ codes " gid="
    ∷ print_integer s.gid
    ∷ codes " size="
    ∷ print_integer s.size
    ∷ codes " atime="
    ∷ print_integer s.atime
    ∷ codes " mtime="
    ∷ print_integer s.mtime
    ∷ codes " ctime="
    ∷ print_integer s.ctime
    ∷ codes " path=abc"
    ∷ s.file_path
    ∷ codes "abc"
    ∷ [])

abbrev show : Locals → Option Bytes → Bytes
show stale none = []
show stale (some text) = text ++ (10 ∷ report (sscanf format stale text))

-- What `main` prints for the entry of the index `i`, which is 10 in the source.
unfoldable pub main : Locals → ℕ → Bytes
unfolding sscanf report
main stale i = show stale (get_elem? entries i)

-- ===== src/Binsearch/Main/Table.antt =====
-- binsearchinfile.c: the program's own table as the file that it searches.
use catalog_file_system.Base.{
  ◌+◌, ℕ, zero, suc, ◌≡◌, refl, ap, ◌∙◌, subst, arith, some, List, [], ◌∷◌, ◌++◌, get_elem?, pos,
  ok,
}
use catalog_file_system.Clib.Text.{Bytes, codes, count_byte, strcmp}
use catalog_file_system.Catalogfs.Mount.{holds}
use catalog_file_system.Catalogfs.Entry
use catalog_file_system.Catalogfs.Search.Correct.{IsCatalog}
use catalog_file_system.Catalogfs.Search.Listed.{Ascending, listed-IsCatalog}
use catalog_file_system.Binsearch.Entry.{Disk, get_entry_depth_filepath}
use catalog_file_system.Binsearch.Search.Equal.{reader}
use catalog_file_system.Binsearch.Main.{catalog}

abbrev concat : List Bytes → Bytes
concat [] = []
concat (x ∷ xs) = x ++ concat xs

-- The file catalog.list that holds the table.
abbrev pub with_table : Disk → Disk
with_table d = record d { catalog_list = holds (concat catalog) }

abbrev pub paths : List Bytes
paths =
    codes "/"
    ∷ codes "/.hidden file 1"
    ∷ codes "/character special file"
    ∷ codes "/dir1"
    ∷ codes "/dir2"
    ∷ codes "/dir1/"
    ∷ codes "/dir1/.hidden file 2"
    ∷ codes "/dir1/fifo file"
    ∷ codes "/dir1/file 1"
    ∷ codes "/dir1/file 2"
    ∷ codes "/dir1/link file"
    ∷ codes "/dir2/"
    ∷ codes "/dir2/hello 2"
    ∷ codes "/dir2/semaphore file"
    ∷ []

-- The entries from `i` on read as these paths and their depths.
abbrev AllRead : Disk → ℕ → List Bytes → Type 0
AllRead d i [] = Unit {0}
AllRead d i (p ∷ ps) =
    (get_entry_depth_filepath (with_table d) (pos i) ≡ ok (Entry.find_depth p, d.left_frame p))
    × AllRead d (suc i) ps

all_read : (d : Disk) → AllRead d 0 paths
unfolding get_entry_depth_filepath Entry.find_depth count_byte
all_read d = (
  refl,
  (
    refl,
    (
      refl,
      (refl, (refl, (refl, (refl, (refl, (refl, (refl, (refl, (refl, (refl, (refl, tt))))))))))),
    ),
  ),
)

read_at :
    (d : Disk) (ps : List Bytes) (k i : ℕ) {p : Bytes}
    → AllRead d k ps
    → get_elem? ps i ≡ some p
    → get_entry_depth_filepath (with_table d) (pos (k + i))
      ≡ ok (Entry.find_depth p, d.left_frame p)
read_at d [] k i h e = cc
read_at d (q ∷ qs) k zero {p} h e =
    let same : q ≡ p = cc in
    let at : k ≡ k + 0 = omega arith in
    subst
      (λ t.
        get_entry_depth_filepath (with_table d) (pos t) ≡ ok (Entry.find_depth p, d.left_frame p))
      at
      (subst
        (λ t.
          get_entry_depth_filepath (with_table d) (pos k) ≡ ok (Entry.find_depth t, d.left_frame t))
        same h.0)
read_at d (q ∷ qs) k (suc i) {p} h e =
    let at : suc k + i ≡ k + suc i = omega arith in
    subst
      (λ t.
        get_entry_depth_filepath (with_table d) (pos t) ≡ ok (Entry.find_depth p, d.left_frame p))
      at (read_at d qs (suc k) i h.1 e)

table-Ascending : Ascending paths
unfolding Entry.find_depth count_byte strcmp
table-Ascending = ground arith

-- If the file catalog.list holds the program's table, and a frame keeps its text after the return,
-- the file is one in which the search finds every entry and only those: each entry is read with the
-- depth of its path, whatever the variables held before, and the entries ascend.
pub table-IsCatalog :
    (d : Disk) → ((b : Bytes) → d.left_frame b ≡ b) → IsCatalog (reader (with_table d))
table-IsCatalog d kept =
    listed-IsCatalog (reader (with_table d)) paths refl (omega arith) table-Ascending
      (λ i p inside found.
        let at : 0 + i ≡ i = omega arith in
        subst
          (λ t.
            get_entry_depth_filepath (with_table d) (pos t)
            ≡ ok (Entry.find_depth p, d.left_frame p))
          at (read_at d paths 0 i (all_read d) found)
        ∙ ap (λ t. ok (Entry.find_depth p, t)) (kept p))

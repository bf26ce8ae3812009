-- ===== src/Examples/Helper.antt =====
-- The programs of helper/ on the entries that stand in them.
use catalog_file_system.Base.{◌≡◌, refl, none, [], ◌∷◌, ◌++◌, pos, drop, length}
use catalog_file_system.Clib.Text.{codes}
use catalog_file_system.Helper.Scanf
use catalog_file_system.Helper.Stat
use catalog_file_system.Helper.Statfs
use catalog_file_system.Examples.{stale}

-- Behind the entry itself.
scanned :
    drop (length (codes "entry=" ++ Scanf.entry)) (Scanf.main stale.stale_locals Scanf.entry)
    ≡ codes "depth=3"
      ++ (10 ∷ codes "variables read successfully=11"
          ++ (10 ∷ codes "file_path=/dir1/link file abc"
              ++ (10 ∷ codes "link_dest=/dir2 kkdskl xyz" ++ (10 ∷ []))))
unfolding Scanf.main
scanned = refl

-- The newline stands in the path, since the entry has no separator.
read_by_statfs :
    Statfs.main stale.stale_locals 10
    ≡ codes "p 0750 1 110 120 11111 1213111162 1213111161 1213102161 /dir1/fifo file"
      ++ (10
            ∷ 10
            ∷ codes
                "c=p mode=750 nlink=1 uid=110 gid=120 size=11111 atime=1213111162 mtime=1213111161 "
          ++ (codes "ctime=1213102161 path=abc/dir1/fifo file" ++ (10 ∷ codes "abc")))
unfolding Statfs.main
read_by_statfs = refl

no_file :
    Stat.main (λ t. []) (λ name. none) (codes "stat" ∷ codes "/x" ∷ [])
    ≡ record { status = pos 0; printed = [] }
unfolding Stat.main
no_file = refl

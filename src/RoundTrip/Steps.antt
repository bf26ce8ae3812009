-- ===== src/RoundTrip/Steps.antt =====
-- generate_catalog.c: what one round of `catalog_listing` prints and puts in the queue.
use catalog_file_system.Base.{
  ◌≡◌, ◌≢◌, refl, sym, ap, ◌∙◌, subst, Bool-cases, inl, inr, ◌==◌, if◌then◌else◌, Option, none,
  some, List, [], ◌∷◌, ◌++◌, append_assoc, append-nil, Outcome, ok, exit, ◌>>=◌,
}
use catalog_file_system.Clib.Text.{Bytes}
use catalog_file_system.Generate.Entry.{print_to_catalog}
use catalog_file_system.Generate.Queue.{Store}
use catalog_file_system.Generate.Queue.Refines.{Represents, insert_queue-Represents}
use catalog_file_system.Generate.Listing.{
  Dirent, System, filter, insert_directory, list_entries, list_directory,
}
use catalog_file_system.Generate.Pad.Laws.{file_of}
use catalog_file_system.RoundTrip.File.{text_at, texts, print_to_catalog-text}
use catalog_file_system.Generate.Tree.{contents, subdirectories, found, Mallocs}

module _ (sys : System) (dir : Bytes) (mallocs : Mallocs sys) (filled : dir ≢ []) where
  abbrev pub fulls : List Bytes → List Bytes
  fulls [] = []
  fulls (r ∷ rs) = (dir ++ r) ∷ fulls rs

  fulls-append : (rs ts : List Bytes) → fulls (rs ++ ts) ≡ fulls rs ++ fulls ts
  fulls-append [] ts = refl
  fulls-append (r ∷ rs) ts = ap (λ zs. (dir ++ r) ∷ zs) (fulls-append rs ts)

  abbrev Stored : Option (Store × Outcome (Unit {0})) → Outcome Store
  Stored o = elim o [ none ↦ exit | some (q', code) ↦ ok q' ]

  pub insert_directory-Represents :
      (path : Bytes) (q : Store) (names : List Bytes)
      → Represents q names
      → (q' : Store) × (insert_directory sys path q ≡ ok q') × Represents q' (names ++ path ∷ [])
  unfolding insert_directory
  insert_directory-Represents path q names r =
      let (q', e, r') =
        insert_queue-Represents q (sys.malloc q) path names r (mallocs q).0 (mallocs q).1 in
      (q', ap Stored e, r')

  -- The queue behind one entry.
  abbrev queued : Bytes → Dirent → List Bytes
  queued r ent = if ent.d_type == 4 then (r ++ b'/' ∷ ent.d_name) ∷ [] else []

  subdirectories-cons :
      (r : Bytes) (ent : Dirent) (rest : List Dirent)
      → subdirectories r (ent ∷ rest) ≡ queued r ent ++ subdirectories r rest
  subdirectories-cons r ent rest = elim (Bool-cases (ent.d_type == 4)) [
    | inl yes_dir ↦ rw yes_dir
    | inr no_dir ↦ rw no_dir
  ]

  enter :
      (r : Bytes) (ent : Dirent) (q : Store) (rs : List Bytes)
      → Represents q (fulls rs)
      → (q' : Store) × ((if ent.d_type == 4
            then insert_directory sys ((dir ++ r) ++ b'/' ∷ ent.d_name) q
            else ok q)
          ≡ ok q')
        × Represents q' (fulls (rs ++ queued r ent))
  enter r ent q rs h = elim (Bool-cases (ent.d_type == 4)) [
    | inl yes_dir ↦
        let (q', e, h') =
          insert_directory-Represents ((dir ++ r) ++ b'/' ∷ ent.d_name) q (fulls rs) h in
        (
          q',
          rw yes_dir e,
          rw
              (
                yes_dir,
                fulls-append rs ((r ++ b'/' ∷ ent.d_name) ∷ []),
                ← append_assoc dir r (b'/' ∷ ent.d_name),
              )
              h',
        )
    | inr no_dir ↦ (q, rw no_dir, rw (no_dir, append-nil rs) h)
  ]

  abbrev Entering : Bytes → Dirent → List Dirent → Store → Outcome Bytes → Outcome (Store × Bytes)
  Entering cur ent rest q o = o >>= λ file.
      (if ent.d_type == 4 then insert_directory sys (cur ++ b'/' ∷ ent.d_name) q else ok q)
      >>= λ q'. list_entries sys dir cur rest q' file

  abbrev Behind : Bytes → List Dirent → Bytes → Outcome Store → Outcome (Store × Bytes)
  Behind cur rest file o = o >>= λ q'. list_entries sys dir cur rest q' file

  print_below :
      (file r name : Bytes)
      → print_to_catalog sys.files file ((dir ++ r) ++ name) dir
        ≡ ok (file ++ (text_at sys.files dir (r ++ name) ++ 10 ∷ []))
  print_below file r name =
      ap (λ t. print_to_catalog sys.files file t dir) (append_assoc dir r name)
      ∙ print_to_catalog-text sys.files dir file (r ++ name) filled

  list_entries_lem :
      (r : Bytes) (entries : List Dirent) (q : Store) (rs : List Bytes) (file : Bytes)
      → Represents q (fulls rs)
      → (q' : Store) × (list_entries sys dir (dir ++ r) entries q file
          ≡ ok (q', file ++ file_of (texts sys.files dir (contents r entries))))
        × Represents q' (fulls (rs ++ subdirectories r entries))
  unfolding list_entries file_of
  list_entries_lem r [] q rs file h = (
    q,
    ap (λ f. ok (q, f)) (sym (append-nil file)),
    subst (λ t. Represents q (fulls t)) (sym (append-nil rs)) h,
  )
  list_entries_lem r (ent ∷ rest) q rs file h =
      let name = b'/' ∷ ent.d_name in
      let file' = file ++ (text_at sys.files dir (r ++ name) ++ 10 ∷ []) in
      let (q', e, h') = enter r ent q rs h in
      let (q'', e', h'') = list_entries_lem r rest q' (rs ++ queued r ent) file' h' in
      (
        q'',
        ap (Entering (dir ++ r) ent rest q) (print_below file r name)
            ∙ ap (Behind (dir ++ r) rest file') e
            ∙ e'
            ∙ ap (λ f. ok (q'', f)) (simp append_assoc),
        subst (λ t. Represents q'' (fulls t))
            (append_assoc rs (queued r ent) (subdirectories r rest)
              ∙ ap (λ t. rs ++ t) (sym (subdirectories-cons r ent rest)))
            h'',
      )

  abbrev Scanned : Bytes → Store → Bytes → Option (List Dirent) → Outcome (Store × Bytes)
  Scanned cur q file o = elim o [
    | none ↦ ok (q, file)
    | some entries ↦ list_entries sys dir cur entries q file
  ]

  scanned :
      (r : Bytes) (o : Option (List Dirent)) (q : Store) (rs : List Bytes) (file : Bytes)
      → Represents q (fulls rs)
      → (q' : Store) × (Scanned (dir ++ r) q file o
          ≡ ok (q', file ++ file_of (texts sys.files dir (contents r (found o)))))
        × Represents q' (fulls (rs ++ subdirectories r (found o)))
  unfolding file_of
  scanned r none q rs file h = (
    q,
    ap (λ f. ok (q, f)) (sym (append-nil file)),
    subst (λ t. Represents q (fulls t)) (sym (append-nil rs)) h,
  )
  scanned r (some entries) q rs file h = list_entries_lem r entries q rs file h

  pub list_directory_lem :
      (r : Bytes) (q : Store) (rs : List Bytes) (file : Bytes)
      → Represents q (fulls rs)
      → let entries = found (sys.scandir filter (dir ++ r)) in
        (q' : Store) × (list_directory sys dir (dir ++ r) q file
          ≡ ok (q', file ++ file_of (texts sys.files dir ((r ++ b'/' ∷ []) ∷ contents r entries))))
        × Represents q' (fulls (rs ++ subdirectories r entries))
  unfolding list_directory file_of
  list_directory_lem r q rs file h =
      let name = b'/' ∷ [] in
      let file' = file ++ (text_at sys.files dir (r ++ name) ++ 10 ∷ []) in
      let (q', e, h') = scanned r (sys.scandir filter (dir ++ r)) q rs file' h in
      (
        q',
        ap (λ o. o >>= λ f. Scanned (dir ++ r) q f (sys.scandir filter (dir ++ r)))
              (print_below file r name)
            ∙ e
            ∙ ap (λ f. ok (q', f)) (simp append_assoc),
        h',
      )

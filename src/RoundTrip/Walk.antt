-- ===== src/RoundTrip/Walk.antt =====
-- generate_catalog.c: the order in which `catalog_listing` prints a tree.
use catalog_file_system.Base.{
  Bool, ℕ, zero, suc, ◌≡◌, ◌≢◌, refl, sym, ap, ◌∙◌, subst, true, false, Option, none, some, List,
  [], ◌∷◌, ◌++◌, append_assoc, append-nil, Outcome, ok, exit, ◌>>=◌, result_of_bind,
}
use catalog_file_system.Clib.Text.{Bytes}
use catalog_file_system.Generate.Queue.{Store, remove_queue, init_queue}
use catalog_file_system.Generate.Queue.Refines.{
  Represents, remove_queue-Represents, head-Represents, head-Represents_end, init_queue-Represents,
}
use catalog_file_system.Generate.Listing.{
  System, filter, list_directory, listing_loop, catalog_listing,
}
use catalog_file_system.Generate.Pad.Laws.{file_of}
use catalog_file_system.RoundTrip.File.{print_paths, texts, print_paths-texts}
use catalog_file_system.Generate.Tree.{contents, subdirectories, found, breadth_first, Mallocs}
use catalog_file_system.RoundTrip.Steps.{fulls, insert_directory-Represents, list_directory_lem}

module _ (sys : System) (dir : Bytes) (mallocs : Mallocs sys) (filled : dir ≢ []) where
  file_of-append :
      (ps ts : List Bytes)
      → file_of (texts sys.files dir (ps ++ ts))
        ≡ file_of (texts sys.files dir ps) ++ file_of (texts sys.files dir ts)
  unfolding file_of
  file_of-append [] ts = refl
  file_of-append (p ∷ ps) ts = rw (file_of-append ps ts) (simp append_assoc)

  abbrev Tested : ℕ → Store → Bytes → Option (Store × Option Bytes) → Bool → Outcome Bytes
  Tested k q file o b = elim b [
    | true ↦ ok file
    | false ↦ elim o [
      | none ↦ exit
      | some (q', none) ↦ exit
      | some (q', some cur) ↦ do
        (q'', file') ← list_directory sys dir cur q' file
        listing_loop k sys dir q'' file'
    ]
  ]

  abbrev Walked : ℕ → Outcome (Store × Bytes) → Outcome Bytes
  Walked k o = o >>= λ r. listing_loop k sys dir r.0 r.1

  listing_loop_lem :
      (k : ℕ) (rs : List Bytes) (q : Store) (file : Bytes) {ps : List Bytes}
      → Represents q (fulls sys dir mallocs filled rs)
      → breadth_first k sys dir rs ≡ ok ps
      → listing_loop k sys dir q file ≡ ok (file ++ file_of (texts sys.files dir ps))
  unfolding listing_loop breadth_first file_of
  listing_loop_lem zero rs q file h e = cc
  listing_loop_lem (suc k) [] q file {ps} h e =
      let none_left : [] ≡ ps = cc in
      ap (Tested k q file (remove_queue (sys.malloc q) q)) (head-Represents_end q h)
      ∙ ap ok (sym (append-nil file))
      ∙ ap (λ t. ok (file ++ file_of (texts sys.files dir t))) none_left
  listing_loop_lem (suc k) (r ∷ rs) q file {ps} h e =
      let entries = found (sys.scandir filter (dir ++ r)) in
      let (t, e', same) =
        result_of_bind (breadth_first k sys dir (rs ++ subdirectories r entries))
          (λ t. (r ++ b'/' ∷ []) ∷ (contents r entries ++ t)) e in
      let (q', removed, h') =
        remove_queue-Represents (sys.malloc q) q (fulls sys dir mallocs filled (r ∷ rs)) h
          (mallocs q).0 in
      let (q'', listed, h'') = list_directory_lem sys dir mallocs filled r q' rs file h' in
      let file' = file ++ file_of (texts sys.files dir ((r ++ b'/' ∷ []) ∷ contents r entries)) in
      ap (Tested k q file (remove_queue (sys.malloc q) q))
        (head-Represents q (dir ++ r) (fulls sys dir mallocs filled rs) h)
      ∙ ap (λ o. Tested k q file o false) removed
      ∙ ap (Walked k) listed
      ∙ listing_loop_lem k (rs ++ subdirectories r entries) q'' file' h'' e'
      ∙ ap ok (
          append_assoc file _ _
          ∙ ap (λ t. file ++ t) (sym (file_of-append ((r ++ b'/' ∷ []) ∷ contents r entries) t))
          ∙ ap (λ t. file ++ file_of (texts sys.files dir t)) same)

  -- Let `malloc` never fail and give the address of no node in use, and let the input directory's
  -- name not be empty. If the breadth-first order of its tree ends within the rounds, then
  -- `catalog_listing` prints the paths of the tree in that order: the file is the one that
  -- `print_to_catalog` writes for them one after the other.
  pub catalog_listing-breadth_first :
      (k : ℕ) (q : Store) (file : Bytes) (ps : List Bytes)
      → breadth_first k sys dir ([] ∷ []) ≡ ok ps
      → catalog_listing k sys dir q file ≡ print_paths sys.files dir file ps
  unfolding catalog_listing
  catalog_listing-breadth_first k q file ps e =
      let (q', inserted, h) =
        insert_directory-Represents sys dir mallocs filled dir (init_queue q) []
          (init_queue-Represents q) in
      let h' = subst (λ t. Represents q' (t ∷ [])) (sym (append-nil dir)) h in
      ap (λ o. o >>= λ q'. listing_loop k sys dir q' file) inserted
      ∙ listing_loop_lem k ([] ∷ []) q' file h' e
      ∙ sym (print_paths-texts sys.files dir file ps filled)

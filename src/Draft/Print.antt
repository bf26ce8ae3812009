-- ===== src/Draft/Print.antt =====
-- generate_catalog.old.c: what `main` prints.
use catalog_file_system.Base.{
  Bool, exit, ℕ, zero, suc, ◌<◌, ◌≤◌, ◌≡◌, refl, ap, ◌∙◌, arith, true, false, ◌==◌, if◌then◌else◌,
  Bool-cases, inl, inr, Option, none, some, List, [], ◌∷◌, length, pos, Outcome, ok, ◌>>=◌,
}
use catalog_file_system.Clib.Text.{Bytes}
use catalog_file_system.Generate.Queue.{Ptr}
use catalog_file_system.Generate.Listing.{Dirent, filter}
use catalog_file_system.Generate.Tree.{found}
use catalog_file_system.Draft.{
  DirEntries, Nodes, node_at, directory_listing_sorted, print_entries, Ended, print_listing, main,
}
use catalog_file_system.Draft.Laws.{Allocates, kept, lines, Linked, not_null, read_entries-Linked}

length-kept : (call : ℕ) (entries : List Dirent) → length (kept call entries) ≤ length entries
length-kept call [] = omega arith
length-kept call (ent ∷ rest) = elim (Bool-cases (filter ent)) [
  | inl entry ↦ rw entry (omega (arith, length-kept (suc call) rest))
  | inr no_entry ↦ rw no_entry (omega (arith, length-kept (suc call) rest))
]

module _ (names : ℕ → Bytes) (nodes : Nodes) where
  abbrev Printing : ℕ → Option DirEntries → Outcome (List (Bytes × ℕ))
  Printing k o = elim o [
    | none ↦ exit
    | some node ↦ do
      rest ← print_entries k names nodes node.next
      ok ((names node.entry_name, node.entry_type) ∷ rest)
  ]

  abbrev Ending : ℕ → Ptr → Bool → Outcome (List (Bytes × ℕ))
  Ending k p b = elim b [ true ↦ ok [] | false ↦ Printing k (node_at nodes p) ]

  print_entries-lines :
      (ns : List (ℕ × ℕ)) (k : ℕ) (p : Ptr)
      → Linked nodes p ns
      → length ns < k
      → print_entries k names nodes p ≡ ok (lines names ns)
  unfolding print_entries
  print_entries-lines ns zero p h few = absurd (omega arith)
  print_entries-lines [] (suc k) p h few = ap (λ t. Ending k p (t == 0)) h
  print_entries-lines (n ∷ ns) (suc k) p (some_node, q, at, linked) few =
      ap (Ending k p) (not_null p some_node)
      ∙ ap (Printing k) at
      ∙ ap (λ o. o >>= λ rest. ok ((names n.0, n.1) ∷ rest))
          (print_entries-lines ns k q linked (omega arith))

-- What `main` returns and prints for the entries that are kept.
abbrev pub ended_with : (ℕ → Bytes) → List (ℕ × ℕ) → Ended
ended_with names [] = record { status = pos 1; printed = [] }
ended_with names (n ∷ ns) = record { status = pos 0; printed = lines names (n ∷ ns) }

abbrev Listed : ℕ → (ℕ → Bytes) → Nodes → Ptr → Bool → Outcome Ended
Listed k names nodes head b = if b then ok (record { status = pos 1; printed = [] }) else do
  printed ← print_entries k names nodes head
  ok (record { status = pos 0; printed = printed })

print_listing-ended_with :
    (k : ℕ) (names : ℕ → Bytes) (head : Ptr) (nodes : Nodes) (ns : List (ℕ × ℕ))
    → Linked nodes head ns
    → length ns < k
    → print_listing k names (head, nodes) ≡ ok (ended_with names ns)
unfolding print_listing
print_listing-ended_with k names head nodes [] h few =
    ap (λ t. Listed k names nodes head (t == 0)) h
print_listing-ended_with k names head nodes (n ∷ ns) h few =
    ap (Listed k names nodes head) (not_null head h.0)
    ∙ ap (λ o. o >>= λ printed. ok (record { status = pos 0; printed = printed }))
        (print_entries-lines names nodes (n ∷ ns) k head h few)

-- Let `malloc` never fail and give the address of no node in use. Then `main` prints, in the order of
-- `readdir`, the type of every entry other than "." and "..", with what the record of its call holds
-- by then for its name, and returns 0. It returns 1 if there is none, or `opendir` fails.
pub main-ended_with :
    (malloc : Nodes → Ptr) (o : Option (List Dirent)) (names : ℕ → Bytes) (stale_current : Ptr)
    → Allocates malloc
    → main malloc o names stale_current ≡ ok (ended_with names (kept 0 (found o)))
unfolding main directory_listing_sorted
main-ended_with malloc none names stale_current allocates =
    print_listing-ended_with 1 names 0 [] [] refl (omega arith)
main-ended_with malloc (some entries) names stale_current allocates =
    let (head, after, e, linked) =
      read_entries-Linked malloc allocates entries 0 stale_current [] in
    ap (λ r. r >>= λ listing. print_listing (suc (length entries)) names listing) e
    ∙ print_listing-ended_with (suc (length entries)) names head after (kept 0 entries) linked
        (omega (arith, length-kept 0 entries))

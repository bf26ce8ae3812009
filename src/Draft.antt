-- ===== src/Draft.antt =====
-- generate_catalog.old.c: a draft of the generator, which prints the entries of one directory.
pub mod Laws
pub mod Print
use catalog_file_system.Base.{
  ℕ, zero, suc, Bool, true, false, ◌==◌, if◌then◌else◌, Option, none, some, List, [], ◌∷◌, length,
  ℤ, pos, Outcome, ok, exit, out_of_fuel, ◌>>=◌,
}
use catalog_file_system.Clib.Text.{Bytes}
use catalog_file_system.Generate.Queue.{Ptr}
use catalog_file_system.Generate.Listing.{Dirent, filter}

-- `entry_name` points into the record that a call of `readdir` returned: it is the number of that
-- call, from 0.
pub record DirEntries : Type 0 where
  pub entry_name : ℕ
  pub entry_type : ℕ
  pub next : Ptr

-- The nodes with their addresses: the first entry of an address is its content.
abbrev pub Nodes : Type 0
Nodes = List (Ptr × DirEntries)

unfoldable pub node_at : Nodes → Ptr → Option DirEntries
node_at [] p = none
node_at ((q, node) ∷ nodes) p = if p == q then some node else node_at nodes p

-- `current->next = temp;`
abbrev pub link : Nodes → Ptr → Ptr → Option DirEntries → Outcome Nodes
link nodes current temp none = exit
link nodes current temp (some node) = ok ((current, record node { next = temp }) ∷ nodes)

abbrev pub fresh_node : ℕ → Dirent → DirEntries
fresh_node call ent = record { entry_name = call; entry_type = ent.d_type; next = 0 }

-- The loop over `readdir`, for what its calls from `call` on return. `malloc` may depend on the nodes
-- in use; a write through NULL is `exit`.
unfoldable pub read_entries :
    (malloc : Nodes → Ptr)
    → List Dirent
    → (call : ℕ) → (head current : Ptr) → Nodes
    → Outcome (Ptr × Nodes)
unfolding node_at filter
read_entries malloc [] call head current nodes = ok (head, nodes)
read_entries malloc (ent ∷ rest) call head current nodes =
    let temp = malloc nodes in
    let nodes' = (temp, fresh_node call ent) ∷ nodes in
    elim (filter ent) [
      | false ↦ read_entries malloc rest (suc call) head current nodes
      | true ↦ elim (temp == 0) [
        | true ↦ exit
        | false ↦ elim (head == 0) [
          | true ↦ read_entries malloc rest (suc call) temp temp nodes'
          | false ↦ do
            linked ← link nodes' current temp (node_at nodes' current)
            read_entries malloc rest (suc call) head temp linked
        ]
      ]
    ]

-- `directory_listing_sorted`, NULL if `opendir` fails. `current` is not set before the first entry.
unfoldable pub directory_listing_sorted :
    (malloc : Nodes → Ptr)
    → Option (List Dirent)
    → (stale_current : Ptr) → Nodes
    → Outcome (Ptr × Nodes)
unfolding read_entries
directory_listing_sorted malloc none stale_current nodes = ok (0, nodes)
directory_listing_sorted malloc (some entries) stale_current nodes =
    read_entries malloc entries 0 0 stale_current nodes

-- The loop that prints, for what the records of `readdir` hold by then.
unfoldable pub print_entries : ℕ → (ℕ → Bytes) → Nodes → Ptr → Outcome (List (Bytes × ℕ))
unfolding node_at
print_entries zero names nodes current = out_of_fuel
print_entries (suc k) names nodes current = elim (current == 0) [
  | true ↦ ok []
  | false ↦ elim (node_at nodes current) [
    | none ↦ exit
    | some node ↦ do
      lines ← print_entries k names nodes node.next
      ok ((names node.entry_name, node.entry_type) ∷ lines)
  ]
]

-- What `main` returns, and the names and types that it prints.
pub record Ended : Type 0 where
  pub status : ℤ
  pub printed : List (Bytes × ℕ)

unfoldable pub print_listing : ℕ → (ℕ → Bytes) → Ptr × Nodes → Outcome Ended
unfolding print_entries
print_listing k names listing =
    if listing.0 == 0 then ok (record { status = pos 1; printed = [] }) else do
      lines ← print_entries k names listing.1 listing.0
      ok (record { status = pos 0; printed = lines })

-- `main`, for what `opendir` and `readdir` find in /tmp/temp. The list has at most one node for each
-- entry, so the loop that prints is given one round more than those.
unfoldable pub main :
    (malloc : Nodes → Ptr)
    → Option (List Dirent)
    → (names : ℕ → Bytes) → (stale_current : Ptr) → Outcome Ended
unfolding directory_listing_sorted print_listing
main malloc found names stale_current = do
  listing ← directory_listing_sorted malloc found stale_current []
  print_listing (suc (elim found [ none ↦ 0 | some entries ↦ length entries ])) names listing

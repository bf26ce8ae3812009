-- ===== src/Draft/Laws.antt =====
-- generate_catalog.old.c: the linked list and the calls of `readdir`.
use catalog_file_system.Base.{
  Bool, exit, ℕ, suc, ◌≡◌, ◌≢◌, refl, sym, ap, ◌∙◌, subst, arith, true, false, ◌==◌, if◌then◌else◌,
  Bool-cases, inl, inr, Option, none, some, List, [], ◌∷◌, Outcome, ok, ◌>>=◌,
}
use catalog_file_system.Clib.Text.{Bytes}
use catalog_file_system.Generate.Queue.{Ptr}
use catalog_file_system.Generate.Listing.{Dirent, filter}
use catalog_file_system.Draft.{DirEntries, Nodes, node_at, link, fresh_node, read_entries}

-- The entries that are kept, each with the number of the call that returned it.
abbrev pub kept : ℕ → List Dirent → List (ℕ × ℕ)
kept call [] = []
kept call (ent ∷ rest) =
    if filter ent then (call, ent.d_type) ∷ kept (suc call) rest else kept (suc call) rest

abbrev pub lines : (ℕ → Bytes) → List (ℕ × ℕ) → List (Bytes × ℕ)
lines names [] = []
lines names (n ∷ ns) = (names n.0, n.1) ∷ lines names ns

-- From the address on, the nodes are linked in this order.
abbrev pub Linked : Nodes → Ptr → List (ℕ × ℕ) → Type 0
Linked nodes p [] = p ≡ 0
Linked nodes p (n ∷ ns) =
    (p ≢ 0)
    × (q : Ptr) × (node_at nodes p ≡ some (record { entry_name = n.0; entry_type = n.1; next = q }))
    × Linked nodes q ns

-- `malloc` never fails, and gives the address of no node in use.
abbrev pub Allocates : (Nodes → Ptr) → Type 0
Allocates malloc = (nodes : Nodes) → (malloc nodes ≢ 0) × (node_at nodes (malloc nodes) ≡ none)

node_at-same :
    (p : Ptr) (node : DirEntries) (nodes : Nodes) → node_at ((p, node) ∷ nodes) p ≡ some node
unfolding node_at
node_at-same p node nodes = ground arith

node_at-other :
    (p q : Ptr) (node : DirEntries) (nodes : Nodes)
    → p ≢ q
    → node_at ((q, node) ∷ nodes) p ≡ node_at nodes p
unfolding node_at
node_at-other p q node nodes differ = ground arith

-- A node in use stands at another address than a free one.
in_use :
    (nodes : Nodes) (p q : Ptr) {node : DirEntries}
    → node_at nodes p ≡ some node
    → node_at nodes q ≡ none
    → p ≢ q
in_use nodes p q h k = λ e. let same = ap (node_at nodes) e in cc

pub not_null : (p : Ptr) → p ≢ 0 → (p == 0) ≡ false
not_null p h = ground arith

-- What the loop leaves of the nodes that it does not write to.
abbrev Frame : Nodes → Nodes → Ptr → Type 0
Frame before after current =
    (a : Ptr) (node : DirEntries)
    → a ≢ current
    → node_at before a ≡ some node
    → node_at after a ≡ some node

module _ (malloc : Nodes → Ptr) (allocates : Allocates malloc) where
  module _ (ent : Dirent) (rest : List Dirent) (call : ℕ) (head current : Ptr) (nodes : Nodes) where
    abbrev grown : Nodes
    grown = (malloc nodes, fresh_node call ent) ∷ nodes

    abbrev Linking : Option DirEntries → Outcome (Ptr × Nodes)
    Linking o = do
      linked ← link grown current (malloc nodes) o
      read_entries malloc rest (suc call) head (malloc nodes) linked

    abbrev Placed : Bool → Outcome (Ptr × Nodes)
    Placed b = elim b [
      | true ↦ read_entries malloc rest (suc call) (malloc nodes) (malloc nodes) grown
      | false ↦ Linking (node_at grown current)
    ]

    abbrev Allocated : Bool → Outcome (Ptr × Nodes)
    Allocated b = elim b [ true ↦ exit | false ↦ Placed (head == 0) ]

    abbrev Filtered : Bool → Outcome (Ptr × Nodes)
    Filtered b = elim b [
      | false ↦ read_entries malloc rest (suc call) head current nodes
      | true ↦ Allocated (malloc nodes == 0)
    ]

    skips :
        filter ent ≡ false
        → read_entries malloc (ent ∷ rest) call head current nodes
          ≡ read_entries malloc rest (suc call) head current nodes
    unfolding read_entries
    skips h = ap Filtered h

    takes :
        filter ent ≡ true
        → read_entries malloc (ent ∷ rest) call head current nodes ≡ Placed (head == 0)
    unfolding read_entries
    takes h = ap Filtered h ∙ ap Allocated (not_null (malloc nodes) (allocates nodes).0)

    keeps_entry :
        filter ent ≡ true → kept call (ent ∷ rest) ≡ (call, ent.d_type) ∷ kept (suc call) rest
    keeps_entry h =
        ap (λ b. if b then (call, ent.d_type) ∷ kept (suc call) rest else kept (suc call) rest) h

    drops_entry : filter ent ≡ false → kept call (ent ∷ rest) ≡ kept (suc call) rest
    drops_entry h =
        ap (λ b. if b then (call, ent.d_type) ∷ kept (suc call) rest else kept (suc call) rest) h

  -- With `current` the last node, entries are linked behind it, and no other node changes.
  abbrev Behind : Ptr → Ptr → Nodes → DirEntries → List (ℕ × ℕ) → Outcome (Ptr × Nodes) → Type 0
  Behind head current nodes node ns o =
      (after : Nodes) × (o ≡ ok (head, after))
      × ((q : Ptr) × (node_at after current ≡ some (record node { next = q })) × Linked after q ns)
      × Frame nodes after current

  read_entries-Behind :
      (entries : List Dirent) (call : ℕ) (head current : Ptr) (nodes : Nodes) (node : DirEntries)
      → head ≢ 0
      → node_at nodes current ≡ some node
      → node.next ≡ 0
      → Behind head current nodes node
          (kept call entries)
          (read_entries malloc entries call head current nodes)
  read_entries-Behind [] call head current nodes node some_head at ends = (
    nodes,
    unfold read_entries in refl,
    (0, at ∙ ap (λ t. some (record node { next = t })) ends, refl),
    λ a n other h. h,
  )
  read_entries-Behind (ent ∷ rest) call head current nodes node some_head at ends =
      elim (Bool-cases (filter ent)) [
        | inr no_entry ↦
            let (after, e, linked, frame) =
              read_entries-Behind rest (suc call) head current nodes node some_head at ends in
            (
              after,
              skips ent rest call head current nodes no_entry ∙ e,
              subst
                  (λ ns.
                    (q : Ptr) × (node_at after current ≡ some (record node { next = q }))
                    × Linked after q ns)
                  (sym (drops_entry ent rest call head current nodes no_entry)) linked,
              frame,
            )
        | inl entry ↦
            let temp = malloc nodes in
            let new = fresh_node call ent in
            let more = grown ent rest call head current nodes in
            let apart : current ≢ temp = in_use nodes current temp at (allocates nodes).1 in
            let at' = node_at-other current temp new nodes apart ∙ at in
            let relinked = (current, record node { next = temp }) ∷ more in
            let (after, e, (q, last, linked), frame) =
              read_entries-Behind rest (suc call) head temp relinked new some_head
                (node_at-other temp current (record node { next = temp }) more (λ e. apart (sym e))
                  ∙ node_at-same temp new nodes)
                refl in
            (
              after,
              takes ent rest call head current nodes entry
                  ∙ ap (Placed ent rest call head current nodes) (not_null head some_head)
                  ∙ ap (Linking ent rest call head current nodes) at'
                  ∙ e,
              subst
                  (λ ns.
                    (q : Ptr) × (node_at after current ≡ some (record node { next = q }))
                    × Linked after q ns)
                  (sym (keeps_entry ent rest call head current nodes entry))
                  (
                    temp,
                    frame current (record node { next = temp }) apart
                        (node_at-same current (record node { next = temp }) more),
                    ((allocates nodes).0, q, last, linked),
                  ),
              λ a n other h. frame a n (in_use nodes a temp h (allocates nodes).1) (
                  node_at-other a current (record node { next = temp }) more other
                  ∙ node_at-other a temp new nodes (in_use nodes a temp h (allocates nodes).1)
                  ∙ h),
            )
      ]

  pub read_entries-Linked :
      (entries : List Dirent) (call : ℕ) (current : Ptr) (nodes : Nodes)
      → (head : Ptr) × (after : Nodes) × (read_entries malloc entries call 0 current nodes
          ≡ ok (head, after))
        × Linked after head (kept call entries)
  read_entries-Linked [] call current nodes = (0, nodes, unfold read_entries in refl, refl)
  read_entries-Linked (ent ∷ rest) call current nodes = elim (Bool-cases (filter ent)) [
    | inr no_entry ↦
        let (head, after, e, linked) = read_entries-Linked rest (suc call) current nodes in
        (
          head,
          after,
          skips ent rest call 0 current nodes no_entry ∙ e,
          subst (Linked after head) (sym (drops_entry ent rest call 0 current nodes no_entry))
              linked,
        )
    | inl entry ↦
        let temp = malloc nodes in
        let new = fresh_node call ent in
        let (after, e, (q, last, linked), frame) =
          read_entries-Behind rest (suc call) temp temp (grown ent rest call 0 current nodes) new
            (allocates nodes).0 (node_at-same temp new nodes) refl in
        (
          temp,
          after,
          takes ent rest call 0 current nodes entry ∙ e,
          subst (Linked after temp) (sym (keeps_entry ent rest call 0 current nodes entry))
              ((allocates nodes).0, q, last, linked),
        )
  ]

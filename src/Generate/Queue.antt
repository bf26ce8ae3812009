-- ===== src/Generate/Queue.antt =====
-- generate_catalog.c: the breadth-first queue, a linked list between the globals `head` and `tail`.
pub mod Chain
pub mod Refines
pub mod Trace
pub mod Print
use catalog_file_system.Base.{
  ℕ, zero, suc, true, false, List, [], ◌∷◌, ◌++◌, ◌==◌, ◌>>=◌, exit, out_of_fuel, if◌then◌else◌,
  Option, none, some, Outcome, ok,
}
use catalog_file_system.Clib.Text.{Bytes, codes}

-- 0 is NULL.
abbrev pub Ptr : Type 0
Ptr = ℕ

pub record BfQueue : Type 0 where
  pub dirname : Bytes
  pub next : Ptr

-- The nodes in use with their addresses: the first entry of an address is its content.
abbrev pub Heap : Type 0
Heap = List (Ptr × BfQueue)

unfoldable pub lookup : Heap → Ptr → Option BfQueue
lookup [] p = none
lookup ((q, cell) ∷ heap) p = if p == q then some cell else lookup heap p

unfoldable pub free : Heap → Ptr → Heap
free [] p = []
free ((q, cell) ∷ heap) p = if q == p then free heap p else (q, cell) ∷ free heap p

-- The globals and the heap. A step that reads through a pointer to no node is `none`.
pub record Store : Type 0 where
  pub head : Ptr
  pub tail : Ptr
  pub heap : Heap

-- `init_queue`: nodes that are still linked are forgotten, not freed.
unfoldable pub init_queue : Store → Store
init_queue s = record s { head = 0; tail = 0 }

-- `tail->next = temp; tail = tail->next;`
unfoldable pub link_tail : Store → Ptr → Option BfQueue → Option Store
link_tail s fresh none = none
link_tail s fresh (some last) =
    some (record {
      head = s.head;
      tail = fresh;
      heap = (s.tail, record last { next = fresh }) ∷ s.heap;
    })

-- The line for a node.
abbrev pub debug_line : Bytes → Bytes
debug_line dirname = codes "DEBUG:printing queue=" ++ (dirname ++ (10 ∷ []))

-- The `while` loop of `print_queue`. On nodes that are linked in a circle it does not end.
unfoldable pub print_nodes : ℕ → Heap → Ptr → Outcome Bytes
unfolding lookup
print_nodes zero heap current = out_of_fuel
print_nodes (suc k) heap current = elim (current == 0) [
  | true ↦ ok []
  | false ↦ elim (lookup heap current) [
    | none ↦ exit
    | some node ↦ do printed ← print_nodes k heap node.next; ok (debug_line node.dirname ++ printed)
  ]
]

-- `print_queue`, which nothing calls: what it prints.
unfoldable pub print_queue : ℕ → Store → Outcome Bytes
unfolding print_nodes
print_queue k s = print_nodes k s.heap s.head

-- `insert_queue`. `fresh` is what `malloc` returns, NULL if it fails: then the code is -1 and
-- nothing changes.
unfoldable pub insert_queue : Ptr → Bytes → Store → Option (Store × Outcome (Unit {0}))
unfolding link_tail lookup
insert_queue fresh dirname s =
    if fresh == 0
    then some (s, Outcome.err 1)
    else let s' = record s { heap = (fresh, record { dirname = dirname; next = 0 }) ∷ s.heap } in
      if s.head == 0
      then some (record s' { head = fresh; tail = fresh }, ok tt)
      else elim (link_tail s' fresh (lookup s'.heap s'.tail)) [
        | none ↦ none
        | some s'' ↦ some (s'', ok tt)
      ]

-- The first node taken out. `tail` keeps the address of a node that may be freed here.
unfoldable pub take_head : Store → Option BfQueue → Option (Store × Option Bytes)
unfolding free
take_head s none = none
take_head s (some first) =
    some
      (record { head = first.next; tail = s.tail; heap = free s.heap s.head }, some first.dirname)

-- `remove_queue`: NULL (`none`) for an empty queue. `dirname` is what `malloc` returns for the copy of
-- the name; where it is NULL, the program prints a message, goes on and copies to NULL.
unfoldable pub remove_queue : Ptr → Store → Option (Store × Option Bytes)
unfolding take_head lookup
remove_queue dirname s =
    if s.head == 0
    then some (s, none)
    else if dirname == 0
    then none
    else take_head s (lookup s.heap s.head)

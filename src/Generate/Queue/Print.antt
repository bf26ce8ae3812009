-- ===== src/Generate/Queue/Print.antt =====
-- generate_catalog.c: what `print_queue` prints.
use catalog_file_system.Base.{
  ℕ, zero, suc, ◌<◌, ◌≡◌, ap, ◌∙◌, arith, Bool, true, false, ◌==◌, Option, none, some, List, [],
  ◌∷◌, ◌++◌, length, Outcome, ok, exit, ◌>>=◌,
}
use catalog_file_system.Clib.Text.{Bytes}
use catalog_file_system.Generate.Queue.{
  Ptr, BfQueue, Heap, lookup, Store, debug_line, print_nodes, print_queue,
}
use catalog_file_system.Generate.Queue.Chain.{Chain}
use catalog_file_system.Generate.Queue.Refines.{Represents}

abbrev pub debug_lines : List Bytes → Bytes
debug_lines [] = []
debug_lines (x ∷ xs) = debug_line x ++ debug_lines xs

abbrev PrintRound : ℕ → Heap → Bool → Option BfQueue → Outcome Bytes
PrintRound k heap b o = elim b [
  | true ↦ ok []
  | false ↦ elim o [
    | none ↦ exit
    | some node ↦ do printed ← print_nodes k heap node.next; ok (debug_line node.dirname ++ printed)
  ]
]

print_nodes-Chain :
    (k : ℕ) (heap : Heap) (p : Ptr) (qs : List Ptr) (names : List Bytes)
    → Chain (lookup heap) p qs names
    → length names < k
    → print_nodes k heap p ≡ ok (debug_lines names)
unfolding print_nodes
print_nodes-Chain zero heap p qs names chain fuel = absurd (omega arith)
print_nodes-Chain (suc k) heap p [] [] chain fuel =
    let last : (p == 0) ≡ true = ground arith in ap (λ b. PrintRound k heap b (lookup heap p)) last
print_nodes-Chain (suc k) heap p [] (x ∷ xs) chain fuel = absurd chain
print_nodes-Chain (suc k) heap p (a ∷ qs) [] chain fuel = absurd chain
print_nodes-Chain (suc k) heap p (a ∷ qs) (x ∷ xs) (same, filled, next, node, away, rest) fuel =
    let more : (p == 0) ≡ false = ground arith in
    (λ i. PrintRound k heap (more i) ((ap (lookup heap) same ∙ node) i))
    ∙ ap (λ o. o >>= λ printed. ok (debug_line x ++ printed))
        (print_nodes-Chain k heap next qs xs rest (omega (arith, fuel)))

-- On a queue of names `print_queue` ends, given more rounds than there are names, and prints a line
-- for each name, in the order of the queue.
pub print_queue-Represents :
    (k : ℕ) (s : Store) (names : List Bytes)
    → Represents s names
    → length names < k
    → print_queue k s ≡ ok (debug_lines names)
unfolding print_queue
print_queue-Represents k s names r fuel =
    print_nodes-Chain k s.heap s.head r.addresses names r.chain fuel

-- ===== src/Examples/Draft.antt =====
-- The draft of the generator on a directory with a file, and the theorem applied to it.
use catalog_file_system.Base.{suc, ◌+◌, ◌≤◌, ◌≡◌, refl, arith, none, some, List, [], ◌∷◌, ok}
use catalog_file_system.Clib.Text.{codes}
use catalog_file_system.Generate.Queue.{Ptr}
use catalog_file_system.Generate.Listing.{Dirent}
use catalog_file_system.Generate.Tree.{found}
use catalog_file_system.Draft.{Nodes, node_at, main}
use catalog_file_system.Draft.Laws.{Allocates, kept}
use catalog_file_system.Draft.Print.{ended_with, main-ended_with}

abbrev beyond : Nodes → Ptr
beyond [] = 1
beyond ((p, node) ∷ nodes) = suc p + beyond nodes

beyond-positive : (nodes : Nodes) → 1 ≤ beyond nodes
beyond-positive [] = omega arith
beyond-positive ((p, node) ∷ nodes) = omega (arith, beyond-positive nodes)

beyond-free : (nodes : Nodes) (k : Ptr) → beyond nodes ≤ k → node_at nodes k ≡ none
unfolding node_at
beyond-free [] k h = refl
beyond-free ((p, node) ∷ nodes) k h = ground (arith, beyond-free nodes k)

beyond-Allocates : Allocates beyond
beyond-Allocates nodes = (
  λ e. absurd (omega (arith, beyond-positive nodes, e)),
  beyond-free nodes (beyond nodes) (omega arith),
)

abbrev three_entries : List Dirent
three_entries =
    record { d_type = 4; d_name = codes "." }
    ∷ record { d_type = 4; d_name = codes ".." }
    ∷ record { d_type = 8; d_name = codes "a" }
    ∷ []

main-ended_with_example :
    main beyond (some three_entries) (λ call. codes "a") 0
    ≡ ok (ended_with (λ call. codes "a") (kept 0 (found (some three_entries))))
main-ended_with_example =
    main-ended_with beyond (some three_entries) (λ call. codes "a") 0 beyond-Allocates

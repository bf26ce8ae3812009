-- ===== src/Generate/Queue/Refines.antt =====
-- generate_catalog.c: the linked list between `head` and `tail` as a queue of names.
use catalog_file_system.Base.{
  ◌≡◌, ◌≢◌, refl, sym, ◌∙◌, ap, subst, true, false, arith, Option, none, some, List, [], ◌∷◌, ◌++◌,
  ◌==◌, Outcome, ok,
}
use catalog_file_system.Clib.Text.{Bytes}
use catalog_file_system.Generate.Queue.{
  Ptr, BfQueue, Heap, lookup, free, Store, init_queue, link_tail, insert_queue, take_head,
  remove_queue,
}
use catalog_file_system.Generate.Queue.Chain.{
  Away, Chain, Tail, lookup-write, lookup-assign, lookup-free, write-same, write-Chain, free-Away,
  linked, Tail-append,
}

pub record Represents (s : Store) (names : List Bytes) : Type 0 where
  pub addresses : List Ptr
  pub chain : Chain (lookup s.heap) s.head addresses names
  pub ends : Tail s.tail addresses

not_null : (p : Ptr) → p ≢ 0 → (p == 0) ≡ false
not_null p h = ground arith

null : (p : Ptr) → p ≡ 0 → (p == 0) ≡ true
null p h = ground arith

abbrev Inserted : Store → Ptr → Bytes → List Bytes → Type 0
Inserted s fresh name names =
    (s' : Store) × (insert_queue fresh name s ≡ some (s', ok tt))
    × Represents s' (names ++ name ∷ [])

abbrev answered : Option Store → Option (Store × Outcome (Unit {0}))
answered o = elim o [ none ↦ none | some s' ↦ some (s', ok tt) ]

inserted :
    (s : Store) (fresh : Ptr) (name : Bytes) (qs : List Ptr) (names : List Bytes)
    → fresh ≢ 0
    → lookup s.heap fresh ≡ none
    → Chain (lookup s.heap) s.head qs names
    → Tail s.tail qs
    → Inserted s fresh name names
unfolding insert_queue link_tail
inserted s fresh name [] [] live unused h e =
    let cell : BfQueue = record { dirname = name; next = 0 } in
    (
      record { head = fresh; tail = fresh; heap = (fresh, cell) ∷ s.heap },
      rw (not_null fresh live, null s.head h),
      record {
        addresses = fresh ∷ [];
        chain = (
          refl,
          live,
          0,
          lookup-write s.heap fresh cell fresh ∙ write-same (lookup s.heap) fresh (some cell),
          tt,
          refl,
        );
        ends = refl;
      },
    )
inserted s fresh name [] (x ∷ xs) live unused h e = absurd h
inserted s fresh name (a ∷ qs) [] live unused h e = absurd h
inserted s fresh name (a ∷ qs) (x ∷ xs) live unused h e =
    let cell : BfQueue = record { dirname = name; next = 0 } in
    let heap : Heap = (fresh, cell) ∷ s.heap in
    let away = free-Away (lookup s.heap) fresh s.head (a ∷ qs) (x ∷ xs) unused h in
    let kept : Chain (lookup heap) s.head (a ∷ qs) (x ∷ xs) =
      subst (λ node. Chain node s.head (a ∷ qs) (x ∷ xs)) (sym (lookup-assign s.heap fresh cell))
        (write-Chain (lookup s.heap) fresh (some cell) s.head (a ∷ qs) (x ∷ xs) away h) in
    let (last, found, chain) =
      linked (lookup heap) s.tail fresh name s.head a qs (x ∷ xs) live
        (lookup-write s.heap fresh cell fresh ∙ write-same (lookup s.heap) fresh (some cell)) away e
        kept in
    let head_live : s.head ≢ 0 = λ z. h.1 (sym h.0 ∙ z) in
    let last' : BfQueue = record last { next = fresh } in
    (
      record { head = s.head; tail = fresh; heap = (s.tail, last') ∷ heap },
      rw (not_null fresh live, not_null s.head head_live)
          (ap (λ o. answered (link_tail (record s { heap = heap }) fresh o)) found),
      record {
        addresses = a ∷ (qs ++ fresh ∷ []);
        chain =
            subst (λ node. Chain node s.head (a ∷ (qs ++ fresh ∷ [])) ((x ∷ xs) ++ name ∷ []))
              (sym (lookup-assign heap s.tail last')) chain;
        ends = Tail-append fresh a qs;
      },
    )

-- In a queue of names, a call of `insert_queue` for which `malloc` gives the address of no node
-- succeeds, and puts the name behind the others.
pub insert_queue-Represents :
    (s : Store) (fresh : Ptr) (name : Bytes) (names : List Bytes)
    → Represents s names
    → fresh ≢ 0
    → lookup s.heap fresh ≡ none
    → (s' : Store) × (insert_queue fresh name s ≡ some (s', ok tt))
      × Represents s' (names ++ name ∷ [])
insert_queue-Represents s fresh name names r live unused =
    inserted s fresh name r.addresses names live unused r.chain r.ends

-- What `remove_queue` does for these names: the first is taken out and returned, or NULL is
-- returned with nothing changed.
abbrev pub Removed : Ptr → Store → List Bytes → Type 0
Removed dirname s [] = remove_queue dirname s ≡ some (s, none)
Removed dirname s (x ∷ xs) =
    (s' : Store) × (remove_queue dirname s ≡ some (s', some x)) × Represents s' xs

Tail-rest : (t a : Ptr) (qs : List Ptr) → Tail t (a ∷ qs) → Tail t qs
Tail-rest t a [] e = tt
Tail-rest t a (b ∷ bs) e = e

removed :
    (dirname : Ptr) (s : Store) (qs : List Ptr) (names : List Bytes)
    → Chain (lookup s.heap) s.head qs names
    → Tail s.tail qs
    → dirname ≢ 0
    → Removed dirname s names
unfolding remove_queue take_head
removed dirname s [] [] h e given = rw (null s.head h)
removed dirname s [] (x ∷ xs) h e given = absurd h
removed dirname s (a ∷ qs) [] h e given = absurd h
removed dirname s (a ∷ qs) (x ∷ xs) (here, live, next, cell, apart, rest) e given =
    let head_live : s.head ≢ 0 = λ z. live (sym here ∙ z) in
    let found : lookup s.heap s.head ≡ some (record { dirname = x; next = next }) =
      ap (lookup s.heap) here ∙ cell in
    (
      record { head = next; tail = s.tail; heap = free s.heap s.head },
      rw (not_null s.head head_live, not_null dirname given, found),
      record {
        addresses = qs;
        chain =
            subst (λ node. Chain node next qs xs) (sym (lookup-free s.heap s.head))
              (write-Chain (lookup s.heap) s.head none next qs xs
                (subst (λ t. Away t qs) (sym here) apart) rest);
        ends = Tail-rest s.tail a qs e;
      },
    )

-- In a queue of names, a call of `remove_queue` for which `malloc` does not fail takes out and returns
-- the first name, and returns NULL with nothing changed if there is none.
pub remove_queue-Represents :
    (dirname : Ptr) (s : Store) (names : List Bytes)
    → Represents s names
    → dirname ≢ 0
    → Removed dirname s names
remove_queue-Represents dirname s names r given =
    removed dirname s r.addresses names r.chain r.ends given

head_of_Chain :
    (s : Store) (qs : List Ptr) (x : Bytes) (xs : List Bytes)
    → Chain (lookup s.heap) s.head qs (x ∷ xs)
    → (s.head == 0) ≡ false
head_of_Chain s [] x xs h = absurd h
head_of_Chain s (a ∷ qs) x xs h = not_null s.head (λ z. h.1 (sym h.0 ∙ z))

-- The test of the loop of `catalog_listing`.
pub head-Represents :
    (s : Store) (x : Bytes) (xs : List Bytes) → Represents s (x ∷ xs) → (s.head == 0) ≡ false
head-Represents s x xs r = head_of_Chain s r.addresses x xs r.chain

end_of_Chain :
    (s : Store) (qs : List Ptr) → Chain (lookup s.heap) s.head qs [] → (s.head == 0) ≡ true
end_of_Chain s [] h = null s.head h
end_of_Chain s (a ∷ qs) h = absurd h

pub head-Represents_end : (s : Store) → Represents s [] → (s.head == 0) ≡ true
head-Represents_end s r = end_of_Chain s r.addresses r.chain

pub init_queue-Represents : (s : Store) → Represents (init_queue s) []
unfolding init_queue
init_queue-Represents s = record { addresses = []; chain = refl; ends = tt }

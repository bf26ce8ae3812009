-- ===== src/Generate/Queue/Trace.antt =====
-- generate_catalog.c: any sequence of calls of the queue's functions.
use catalog_file_system.Base.{
  ◌≡◌, ◌≢◌, ◌⊎◌, inl, inr, refl, ap, subst, sym, Bool, ◌∙◌, true, Option, none, some, List, [], ◌∷◌,
  ◌++◌, Outcome, ok, err, exit, out_of_fuel,
}
use catalog_file_system.Clib.Text.{Bytes}
use catalog_file_system.Generate.Queue.{Ptr, lookup, Store, init_queue, insert_queue, remove_queue}
use catalog_file_system.Generate.Queue.Refines.{
  Represents, insert_queue-Represents, remove_queue-Represents,
}

pub data Operation : Type 0 where
  insert : Bytes → Operation
  remove : Operation

-- What a call returns: 0 or -1 from `insert_queue`, a name or NULL from `remove_queue`.
pub data Answer : Type 0 where
  accepted : Answer
  refused : Answer
  removed : Option Bytes → Answer

abbrev status : Outcome (Unit {0}) → Answer
status (ok u) = accepted
status (err e) = refused
status exit = refused
status out_of_fuel = refused

abbrev inserting : Option (Store × Outcome (Unit {0})) → Option (Store × Answer)
inserting none = none
inserting (some (s, o)) = some (s, status o)

abbrev removing : Option (Store × Option Bytes) → Option (Store × Answer)
removing none = none
removing (some (s, o)) = some (s, removed o)

abbrev call : (malloc malloc_name : Store → Ptr) → Operation → Store → Option (Store × Answer)
call malloc malloc_name (insert name) s = inserting (insert_queue (malloc s) name s)
call malloc malloc_name remove s = removing (remove_queue (malloc_name s) s)

abbrev with_answer : Answer → Option (Store × List Answer) → Option (Store × List Answer)
with_answer a none = none
with_answer a (some (s, answers)) = some (s, a ∷ answers)

-- The calls behind one another, each in the state that the one before left: with the answers of
-- `malloc` for the nodes, and for the names that `remove_queue` copies.
unfoldable pub run :
    (malloc malloc_name : Store → Ptr) → List Operation → Store → Option (Store × List Answer)
unfolding insert_queue remove_queue
run malloc malloc_name [] s = some (s, [])
run malloc malloc_name (o ∷ os) s = elim (call malloc malloc_name o s) [
  | none ↦ none
  | some (s', a) ↦ with_answer a (run malloc malloc_name os s')
]

-- A queue of names, which refuses another one only where `malloc` may fail.
pub data Step : Bool → List Bytes → Operation → Answer → List Bytes → Type 0 where
  puts :
      {b : Bool} (names : List Bytes) (x : Bytes)
      → Step b names (insert x) accepted (names ++ x ∷ [])
  full : (names : List Bytes) (x : Bytes) → Step true names (insert x) refused names
  takes :
      {b : Bool} (names : List Bytes) (x : Bytes)
      → Step b (x ∷ names) remove (removed (some x)) names
  none_left : {b : Bool} → Step b [] remove (removed none) []

pub data Steps : Bool → List Bytes → List Operation → List Answer → List Bytes → Type 0 where
  done : {b : Bool} (names : List Bytes) → Steps b names [] [] names
  next :
      {b : Bool} {names after last : List Bytes} {o : Operation} {a : Answer} {os : List Operation}
      {answers : List Answer}
      → Step b names o a after
      → Steps b after os answers last
      → Steps b names (o ∷ os) (a ∷ answers) last

-- `malloc` fails, if it may, or gives the address of no node in use.
abbrev pub Allocates : Bool → (Store → Ptr) → Type 0
Allocates may_fail malloc =
    (s : Store)
    → ((malloc s ≡ 0) × (may_fail ≡ true)) ⊎ ((malloc s ≢ 0) × (lookup s.heap (malloc s) ≡ none))

abbrev Called : Bool → (malloc malloc_name : Store → Ptr) → Operation → Store → List Bytes → Type 0
Called b malloc malloc_name o s names =
    (s' : Store) × (a : Answer) × (after : List Bytes) × (call malloc malloc_name o s
      ≡ some (s', a))
    × Step b names o a after
    × Represents s' after

insert_fails :
    (s : Store) (fresh : Ptr) (x : Bytes) → fresh ≡ 0 → insert_queue fresh x s ≡ some (s, err 1)
unfolding insert_queue
insert_fails s fresh x e = rw e refl

call-Step :
    (b : Bool) (malloc malloc_name : Store → Ptr) (o : Operation) (s : Store) (names : List Bytes)
    → Allocates b malloc
    → ((t : Store) → malloc_name t ≢ 0)
    → Represents s names
    → Called b malloc malloc_name o s names
call-Step b malloc malloc_name (insert x) s names alloc copied r = elim (alloc s) [
  | inl (fails, may) ↦ (
    s,
    refused,
    names,
    ap inserting (insert_fails s (malloc s) x fails),
    subst (λ t. Step t names (insert x) refused names) (sym may) (full names x),
    r,
  )
  | inr (fresh, unused) ↦
      let (s', e, r') = insert_queue-Represents s (malloc s) x names r fresh unused in
      (s', accepted, names ++ x ∷ [], ap inserting e, puts names x, r')
]
call-Step b malloc malloc_name remove s [] alloc copied r = (
  s,
  removed none,
  [],
  ap removing (remove_queue-Represents (malloc_name s) s [] r (copied s)),
  none_left,
  r,
)
call-Step b malloc malloc_name remove s (x ∷ xs) alloc copied r =
    let (s', e, r') = remove_queue-Represents (malloc_name s) s (x ∷ xs) r (copied s) in
    (s', removed (some x), xs, ap removing e, takes xs x, r')

-- The call's result, and the rest of the run.
abbrev goes_on :
    (malloc malloc_name : Store → Ptr)
    → List Operation
    → Option (Store × Answer)
    → Option (Store × List Answer)
goes_on malloc malloc_name os o = elim o [
  | none ↦ none
  | some (s', a) ↦ with_answer a (run malloc malloc_name os s')
]

run-Steps_from :
    (b : Bool) (malloc malloc_name : Store → Ptr) (os : List Operation) (s : Store)
    (names : List Bytes)
    → Allocates b malloc
    → ((t : Store) → malloc_name t ≢ 0)
    → Represents s names
    → (s' : Store) × (answers : List Answer) × (last : List Bytes) × (run malloc malloc_name os s
        ≡ some (s', answers))
      × Steps b names os answers last
      × Represents s' last
unfolding run
run-Steps_from b malloc malloc_name [] s names alloc copied r = (s, [], names, refl, done names, r)
run-Steps_from b malloc malloc_name (o ∷ os) s names alloc copied r =
    let (s', a, after, e, step, r') = call-Step b malloc malloc_name o s names alloc copied r in
    let (s'', answers, last, e', steps, r'') =
      run-Steps_from b malloc malloc_name os s' after alloc copied r' in
    (
      s'',
      a ∷ answers,
      last,
      ap (goes_on malloc malloc_name os) e ∙ ap (with_answer a) e',
      next step steps,
      r'',
    )

empty-Represents : (s : Store) → Represents (init_queue s) []
unfolding init_queue
empty-Represents s = record { addresses = []; chain = refl; ends = tt }

-- Let `malloc` of a node give the address of no node in use or, where it may, fail, and let `malloc` of
-- the name that `remove_queue` returns not fail. Then from `init_queue` on every sequence of calls of `insert_queue` and `remove_queue` runs without an access outside the nodes, its results are
-- those of a queue of names, which takes the names out in the order in which they were put in and
-- refuses another one only if `malloc` may fail, and the list on the heap represents that queue.
pub run-Steps :
    (b : Bool) (malloc malloc_name : Store → Ptr) (operations : List Operation) (s : Store)
    → Allocates b malloc
    → ((t : Store) → malloc_name t ≢ 0)
    → (s' : Store) × (answers : List Answer) × (names : List Bytes) × (run malloc malloc_name
          operations
          (init_queue s)
        ≡ some (s', answers))
      × Steps b [] operations answers names
      × Represents s' names
run-Steps b malloc malloc_name operations s alloc copied =
    run-Steps_from b malloc malloc_name operations (init_queue s) [] alloc copied
      (empty-Represents s)

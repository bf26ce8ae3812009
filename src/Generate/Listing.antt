-- ===== src/Generate/Listing.antt =====
-- generate_catalog.c: `filter` and `catalog_listing`, the walk over the directories in the order of
-- the queue. An access that would end the process by a fault is `exit`.
use catalog_file_system.Base.{
  ℕ, zero, suc, Bool, true, false, not, ◌||◌, ◌==◌, if◌then◌else◌, is_eq, Option, none, some, List,
  [], ◌∷◌, ◌++◌, Outcome, ok, exit, out_of_fuel, ◌>>=◌,
}
use catalog_file_system.Clib.Text.{Bytes, strcmp}
use catalog_file_system.Generate.Queue.{Ptr, Store, init_queue, insert_queue, remove_queue}
use catalog_file_system.Generate.Entry.{Files, print_to_catalog}

-- The fields of `struct dirent` that the program uses.
pub record Dirent : Type 0 where
  pub d_type : ℕ
  pub d_name : Bytes

-- What `scandir` is given: not "." and "..".
unfoldable pub filter : Dirent → Bool
unfolding strcmp
filter ent =
    not (is_eq (strcmp ent.d_name (b'.' ∷ [])) || is_eq (strcmp ent.d_name (b'.' ∷ b'.' ∷ [])))

-- The filter for directories, which nothing uses. DT_DIR is 4.
unfoldable pub filter_dir : Dirent → Bool
filter_dir ent = ent.d_type == 4

-- The calls of the C library: `lstat` and `readlink`, `scandir` with a filter and `alphasort`
-- (`none` if it fails), and `malloc`, whose answer may depend on the nodes in use: for a node, and
-- for the copy of a name that `remove_queue` returns.
pub record System : Type 0 where
  pub files : Files
  pub scandir : (Dirent → Bool) → Bytes → Option (List Dirent)
  pub malloc : Store → Ptr

-- `insert_queue` of a subdirectory; its code is only reported.
unfoldable pub insert_directory : System → Bytes → Store → Outcome Store
unfolding insert_queue
insert_directory sys path q = elim (insert_queue (sys.malloc q) path q) [
  | none ↦ exit
  | some (q', code) ↦ ok q'
]

-- The `for` loop over what `scandir` found.
unfoldable pub list_entries :
    System → (input_dir current_dir : Bytes) → List Dirent → Store → Bytes → Outcome (Store × Bytes)
unfolding insert_directory print_to_catalog
list_entries sys input_dir current_dir [] q file = ok (q, file)
list_entries sys input_dir current_dir (ent ∷ rest) q file = do
  file' ← print_to_catalog sys.files file (current_dir ++ b'/' ∷ ent.d_name) input_dir
  q' ← if ent.d_type == 4 then insert_directory sys (current_dir ++ b'/' ∷ ent.d_name) q else ok q
  list_entries sys input_dir current_dir rest q' file'

-- The body of the `while` loop for a directory.
unfoldable pub list_directory :
    System → (input_dir current_dir : Bytes) → Store → Bytes → Outcome (Store × Bytes)
unfolding list_entries print_to_catalog filter
list_directory sys input_dir current_dir q file = do
  file' ← print_to_catalog sys.files file (current_dir ++ b'/' ∷ []) input_dir
  elim (sys.scandir filter current_dir) [
    | none ↦ ok (q, file')
    | some entries ↦ list_entries sys input_dir current_dir entries q file'
  ]

-- The `while` loop, until the queue is empty.
unfoldable pub listing_loop : ℕ → System → Bytes → Store → Bytes → Outcome Bytes
unfolding list_directory remove_queue
listing_loop zero sys input_dir q file = out_of_fuel
listing_loop (suc k) sys input_dir q file = elim (q.head == 0) [
  | true ↦ ok file
  | false ↦ elim (remove_queue (sys.malloc q) q) [
    | none ↦ exit
    | some (q', none) ↦ exit
    | some (q', some current_dir) ↦ do
      (q'', file') ← list_directory sys input_dir current_dir q' file
      listing_loop k sys input_dir q'' file'
  ]
]

-- The catalog file behind what it held. The first number bounds the rounds of the loop: on a tree
-- that never ends the program does not return either.
unfoldable pub catalog_listing : ℕ → System → Bytes → Store → Bytes → Outcome Bytes
unfolding listing_loop insert_directory init_queue
catalog_listing k sys input_dir q file = do
  q' ← insert_directory sys input_dir (init_queue q)
  listing_loop k sys input_dir q' file

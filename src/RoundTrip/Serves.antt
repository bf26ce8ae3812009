-- ===== src/RoundTrip/Serves.antt =====
-- generate_catalog.c and catalogfs.c together: the table of operations against the abstract tree.
use catalog_file_system.Base.{
  ℕ, suc, ◌*◌, ◌≤◌, ◌<◌, ◌^◌, ◌≡◌, ◌≢◌, inl, inr, refl, sym, ap, ◌∙◌, arith, some, List, [], ◌++◌,
  length, ok, ◌>>=◌,
}
use catalog_file_system.Clib.Text.{Bytes}
use catalog_file_system.Catalogfs.Mount.{Mount, Stat}
use catalog_file_system.Catalogfs.Handlers.{Item, Filler, directory_path}
use catalog_file_system.Catalogfs.Table
use catalog_file_system.Catalogfs.Search.Listed.{Ascending}
use catalog_file_system.Catalogfs.Spec.{Tree, shown, children, answer}
use catalog_file_system.Catalogfs.Spec.Children.{
  has-get_elem?, has-absent, shown-append, append_of_shown, children_of_places, listed_as_lem,
}
use catalog_file_system.Generate.Entry.{Files, stat_at, target_at}
use catalog_file_system.Generate.Pad.{getlines, longest}
use catalog_file_system.RoundTrip.File.{print_paths, mounted, AllEntries}
use catalog_file_system.RoundTrip.Answers.{catalog_getattr-Answers, catalog_readlink-Answers}
use catalog_file_system.RoundTrip.Listing.{ShowsTree, catalog_readdir-ShowsTree}

-- The tree of the printed paths, below the input directory.
abbrev pub tree_of : Files → Bytes → List Bytes → Tree
tree_of w dir ps = record {
  paths = ps;
  stat = λ p. stat_at w (dir ++ p);
  target = λ p. target_at w (dir ++ p);
}

-- A buffer for a link's target has from 1 to 2^64 - 1 bytes.
abbrev pub Admissible : Table.Request → Type 0
Admissible (Table.readlink p size) = (1 ≤ size) × (size < 2 ^ 64)
Admissible _ = Unit {0}

item_eq :
    (x : Item) (name : Bytes) (st : Stat)
    → x.name ≡ name
    → x.attributes ≡ some st
    → x ≡ record { name = name; attributes = some st }
item_eq x name st e e' = λ i. record { name = e i; attributes = e' i }

ShowsTree-children :
    (w : Files) (dir : Bytes) (ps : List Bytes) (dp : Bytes) (items : List Item)
    → ShowsTree w dir ps dp items
    → children (λ p. stat_at w (dir ++ p)) dp ps ≡ items
ShowsTree-children w dir ps dp items s =
    let stat : Bytes → Stat = λ p. stat_at w (dir ++ p) in
    children_of_places stat dp ps items (suc s.own)
      (λ j x at.
        let (found, named, plain, attributes) = s.only j x at in
        (
          dp ++ x.name,
          found,
          shown-append stat dp x.name named plain
              ∙ ap some (sym (item_eq x x.name (stat (dp ++ x.name)) refl attributes)),
        ))
      (λ i p y found sh.
        let (path, named, plain) = append_of_shown stat dp p sh in
        let (j, x, place, at, name) = s.every i y.name (found ∙ ap some path) named plain in
        let standing : Item = record { name = y.name; attributes = some (stat (dp ++ y.name)) } in
        let (found', named', plain', attributes) = s.only j x at in
        let x_is : x ≡ standing =
          item_eq x y.name (stat (dp ++ y.name)) name
            (attributes ∙ ap (λ t. some (stat (dp ++ t))) name) in
        let y_is : some y ≡ some standing =
          sym sh ∙ ap (shown stat dp) path ∙ shown-append stat dp y.name named plain in
        (j, place, at ∙ ap some x_is ∙ sym y_is))

module _ (w : Files) (dir : Bytes) (ps : List Bytes) (m : Mount) (file : Bytes) (filled : dir ≢ [])
    (all : AllEntries w dir ps) (printed : print_paths w dir [] ps ≡ ok file) (order : Ascending ps)
    (kept : (b : Bytes) → m.left_frame b ≡ b)
    (kept_after : (b : Bytes) → m.left_frame_after_printf b ≡ b)
    (small : longest 0 (getlines file) * length ps < 0x8000_0000)
    (few : length ps < 0x8000_0000) where
  abbrev here : Mount
  here = mounted m file

  abbrev tree : Tree
  tree = tree_of w dir ps

  getattr_answer :
      (p : Bytes) → Table.catalog_operations here (Table.getattr p) ≡ answer tree (Table.getattr p)
  unfolding Table.catalog_operations answer
  getattr_answer p =
      elim (catalog_getattr-Answers w dir ps m file filled all printed order kept small
        (omega (arith, few)) p) [
          | inl (i, listed, e) ↦
              rw (has-get_elem? ps i listed) (ap (λ o. o >>= λ a. ok (Table.attributes a)) e)
          | inr (e, absent) ↦
              rw (has-absent ps p absent) (ap (λ o. o >>= λ a. ok (Table.attributes a)) e)
        ]

  readlink_answer :
      (p : Bytes) (size : ℕ)
      → 1 ≤ size
      → size < 2 ^ 64
      → Table.catalog_operations here (Table.readlink p size) ≡ answer tree (Table.readlink p size)
  unfolding Table.catalog_operations answer
  readlink_answer p size low high =
      elim (catalog_readlink-Answers w dir ps m file filled all printed order kept small
        (omega (arith, few)) p size low high kept_after) [
          | inl (i, listed, e) ↦
              rw (has-get_elem? ps i listed) (ap (λ o. o >>= λ t. ok (Table.text t)) e)
          | inr (e, absent) ↦ rw (has-absent ps p absent) (ap (λ o. o >>= λ t. ok (Table.text t)) e)
        ]

  readdir_answer :
      (p : Bytes) (full : Filler)
      → Table.catalog_operations here (Table.readdir p full) ≡ answer tree (Table.readdir p full)
  unfolding Table.catalog_operations answer
  readdir_answer p full =
      let same = listed_as_lem p in
      elim (catalog_readdir-ShowsTree w dir ps m file filled all printed order kept small few full
        p) [
          | inl (items, e, shows) ↦
              let e' = ShowsTree-children w dir ps (directory_path p) items shows in
              rw (← same, has-get_elem? ps shows.own shows.own_at, e')
                (ap (λ o. o >>= λ l. ok (Table.items l)) e)
          | inr (e, absent) ↦
              rw (← same, has-absent ps (directory_path p) absent)
                (ap (λ o. o >>= λ l. ok (Table.items l)) e)
        ]

  -- Let the generator print well-formed files, whose paths ascend by depth and `strcmp`, let the padded
  -- file be below 2 GiB with less than 2^31 entries, and let a frame keep its text, also across a
  -- `printf`. Then every request, a `readlink` with a buffer of 1 to 2^64 - 1 bytes, is answered by the
  -- table of the file system that is started on it as the abstract tree of the printed paths answers it.
  pub catalog_operations-answer :
      (q : Table.Request) → Admissible q → Table.catalog_operations here q ≡ answer tree q
  unfolding Table.catalog_operations answer
  catalog_operations-answer (Table.getattr p) h = getattr_answer p
  catalog_operations-answer (Table.readlink p size) (low, high) = readlink_answer p size low high
  catalog_operations-answer (Table.readdir p full) h = readdir_answer p full
  catalog_operations-answer q h = refl

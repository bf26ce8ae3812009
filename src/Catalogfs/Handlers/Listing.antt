-- ===== src/Catalogfs/Handlers/Listing.antt =====
-- catalogfs.c: `readdir` in a sorted catalog.
use catalog_file_system.Catalogfs.Reader.{reader}
use catalog_file_system.Base.{
  ℕ, zero, suc, ◌+◌, ◌-◌, ◌<◌, ◌≤◌, ◌≡◌, refl, sym, ap, subst, ◌∙◌, ◌⊎◌, inl, inr, true, false,
  Bool, if◌then◌else◌, arith, dec_lt, List, [], ◌∷◌, ◌++◌, length, Option, none, some, ℤ, pos, ◌+ℤ◌,
  ◌-ℤ◌, to_int, to_int_small, rounds, Outcome, ok, err, ◌>>=◌,
}
use catalog_file_system.Clib.Text.{Bytes, basename, count_byte, last_byte}
use catalog_file_system.Clib.Text.Order.{strcmp-eq}
use catalog_file_system.Clib.Text.Basename.{basename-append}
use catalog_file_system.Catalogfs.Mount.{Mount, StatWdf}
use catalog_file_system.Catalogfs.Entry.{get_entry_from_catalog}
use catalog_file_system.Catalogfs.Search.Bounds.{pos-next}
use catalog_file_system.Catalogfs.Search.Ends.{Row}
use catalog_file_system.Catalogfs.Search.Correct.{IsCatalog}
use catalog_file_system.Catalogfs.Directory.{get_directory_contents}
use catalog_file_system.Catalogfs.Directory.Contents.{pos_nonneg, leb-pos_true, leb-pos_false}
use catalog_file_system.Catalogfs.Directory.Correct.{Lists, get_directory_contents-Lists}
use catalog_file_system.Catalogfs.Directory.Inside.{InDirectory}
use catalog_file_system.Catalogfs.Handlers.Attributes.{Row-entry, Missing}
use catalog_file_system.Catalogfs.Handlers.{
  Item, Filler, dots, read_item, list_loop, directory_path, catalog_readdir,
}

-- The item that stands for the entry at `i`, which is directly in the directory: the rest of its
-- path behind the directory's, and its attributes.
pub record Shows (m : Mount) (dir : Bytes) (i : ℕ) (x : Item) : Type 0 where
  pub entry : StatWdf
  pub read : get_entry_from_catalog m (pos i) ≡ ok entry
  pub row : Row (reader m) i entry.depth (dir ++ x.name)
  pub one_part : count_byte b'/' x.name ≡ 0
  pub attributes : x.attributes ≡ some entry.st_data

-- The items are those of the entries from `i` on, one for each, in their order.
abbrev pub AllShown : Mount → Bytes → ℕ → List Item → Type 0
AllShown m dir i [] = Unit {0}
AllShown m dir i (x ∷ xs) = Shows m dir i x × AllShown m dir (suc i) xs

-- The calls of `filler`, behind those that were made, for a list of items: the first one that it
-- answers with a full buffer is the last.
abbrev pub given : Filler → List Item → List Item → List Item
given full out [] = out
given full out (x ∷ xs) =
    let rest = given full (out ++ x ∷ []) xs in if full out x then out ++ x ∷ [] else rest

module _ (m : Mount) (dir : Bytes) (slash : last_byte dir ≡ b'/') where
  read_item-Shows :
      (i : ℕ) {d : ℤ} {p : Bytes}
      → Row (reader m) i d p
      → InDirectory dir p
      → (x : Item) × (read_item m (pos i) ≡ ok (some x)) × Shows m dir i x
  unfolding read_item
  read_item-Shows i {d} {p} row (name, path, one) =
      let (e, read, depth, its) = Row-entry m i row in
      let last : basename p ≡ name = ap basename path ∙ basename-append dir name slash one in
      (
        record { name = name; attributes = some e.st_data },
        rw (read, row, last),
        record {
          entry = e;
          read = read;
          row =
              subst (λ t. Row (reader m) i t (dir ++ name)) (sym depth)
                (subst (λ t. Row (reader m) i d t) path row);
          one_part = one;
          attributes = refl;
        },
      )

  module _ (full : Filler) (lo hi : ℕ) (few : suc hi < 0x8000_0000)
      (inside : (i : ℕ) → i ≤ hi → (d : ℤ) × (p : Bytes) × Row (reader m) i d p)
      (content : (i : ℕ) (d : ℤ) (p : Bytes)
        → lo ≤ i
        → i ≤ hi
        → Row (reader m) i d p
        → InDirectory dir p) where
    abbrev Tail : ℕ → ℤ → List Item → Item → Bool → Outcome (List Item)
    Tail k z out x b = elim b [
      | true ↦ ok (out ++ x ∷ [])
      | false ↦ list_loop k m full z (pos hi) (out ++ x ∷ [])
    ]

    abbrev Body : ℕ → ℤ → List Item → Outcome (Option Item) → Outcome (List Item)
    Body k z out o = o >>= λ item. elim item [
      | none ↦ list_loop k m full z (pos hi) out
      | some x ↦ Tail k z out x (full out x)
    ]

    abbrev Round : ℕ → ℕ → List Item → Bool → Outcome (List Item)
    Round k l out b = elim b [
      | false ↦ ok out
      | true ↦ Body k (to_int (pos l +ℤ pos 1)) out (read_item m (pos l))
    ]

    round :
        (k l : ℕ) (out : List Item) (x : Item)
        → l ≤ hi
        → read_item m (pos l) ≡ ok (some x)
        → list_loop (suc k) m full (pos l) (pos hi) out ≡ Tail k (pos (suc l)) out x (full out x)
    unfolding list_loop
    round k l out x order e =
        ap (Round k l out) (leb-pos_true l hi order)
        ∙ ap (Body k (to_int (pos l +ℤ pos 1)) out) e
        ∙ ap (λ z. Tail k z out x (full out x))
            (ap to_int (pos-next l) ∙ to_int_small (suc l) (omega arith))

    tail_filled :
        (k : ℕ) (z : ℤ) (out : List Item) (x : Item) (b : Bool) {rest : List Item}
        → list_loop k m full z (pos hi) (out ++ x ∷ []) ≡ ok rest
        → Tail k z out x b ≡ ok (if b then out ++ x ∷ [] else rest)
    tail_filled k z out x true e = refl
    tail_filled k z out x false e = e

    finished :
        (k l : ℕ) (out : List Item)
        → l ≡ suc hi
        → list_loop (suc k) m full (pos l) (pos hi) out ≡ ok out
    unfolding list_loop
    finished k l out e = ap (Round k l out) (leb-pos_false l hi (omega arith))

    pub list_loop-AllShown :
        (k l : ℕ) (out : List Item)
        → lo ≤ l
        → l ≤ suc hi
        → suc hi - l < k
        → (items : List Item) × (list_loop k m full (pos l) (pos hi) out
            ≡ ok (given full out items))
          × AllShown m dir l items
          × (length items ≡ suc hi - l)
    list_loop-AllShown zero l out above order fuel = absurd (omega arith)
    list_loop-AllShown (suc k) l out above order fuel = elim (dec_lt hi l) [
      | yes end ↦ ([], finished k l out (omega arith), tt, omega arith)
      | no ge ↦
          let (d, p, row) = inside l (omega arith) in
          let (x, e, shown) = read_item-Shows l row (content l d p above (omega arith) row) in
          let (items, e', all, count) =
            list_loop-AllShown k (suc l) (out ++ x ∷ []) (omega arith) (omega arith)
              (omega arith) in
          (
            x ∷ items,
            round k l out x (omega arith) e ∙ tail_filled k (pos (suc l)) out x (full out x) e',
            (shown, all),
            omega arith,
          )
    ]

-- `readdir` asks for the contents of a path that ends in '/'.
ends_in_slash : (path : Bytes) → last_byte (path ++ b'/' ∷ []) ≡ b'/'
unfolding last_byte
ends_in_slash [] = refl
ends_in_slash (b ∷ []) = refl
ends_in_slash (b ∷ c ∷ cs) = ends_in_slash (c ∷ cs)

directory_path-slash : (path : Bytes) → last_byte (directory_path path) ≡ b'/'
unfolding directory_path last_byte
directory_path-slash path = ground (arith, strcmp-eq path (b'/' ∷ []), ends_in_slash path)

rounds-high : (lo hi : ℕ) → rounds (pos hi -ℤ pos lo +ℤ pos 1) ≡ hi + 1 - lo
unfolding ◌+ℤ◌ ◌-ℤ◌
rounds-high lo hi = ground arith

module _ (m : Mount) (full : Filler) (path : Bytes) (cat : IsCatalog (reader m))
    (small : m.catalog_len < 0x8000_0000) where
  listed :
      (l : Lists
        (reader m)
        (directory_path path)
        (get_directory_contents (reader m) (directory_path path)))
      → catalog_readdir m full path
        ≡ list_loop (suc (l.hi + 1 - suc l.lo)) m full (pos (suc l.lo)) (pos l.hi) dots
  unfolding catalog_readdir
  listed l =
      let e : to_int (pos l.lo +ℤ pos 1) ≡ pos (suc l.lo) =
        ap to_int (pos-next l.lo) ∙ to_int_small (suc l.lo) (omega (arith, l.lo_hi, l.hi_in)) in
      rw (l.result, pos_nonneg l.lo, pos_nonneg l.hi, e, rounds-high)

  missing :
      get_directory_contents (reader m) (directory_path path) ≡ err 2
      → catalog_readdir m full path ≡ err 2
  unfolding catalog_readdir
  missing e = rw e

  -- In a sorted catalog of less than 2^31 entries `readdir` of a directory calls `filler` for ".",
  -- "..", and then, until it answers that the buffer is full, for one item for each entry directly
  -- in the directory, in the order of the catalog: the rest of the entry's path as its name, and the
  -- entry's attributes. It returns -ENOENT if no entry has the directory's path with a '/' at its end.
  pub catalog_readdir-Lists :
      ((l : Lists
          (reader m)
          (directory_path path)
          (get_directory_contents (reader m) (directory_path path)))
        × (items : List Item) × (catalog_readdir m full path ≡ ok (given full dots items))
        × AllShown m (directory_path path) (suc l.lo) items
        × (length items ≡ l.hi - l.lo))
      ⊎ ((catalog_readdir m full path ≡ err 2) × Missing m (directory_path path))
  catalog_readdir-Lists =
      elim (get_directory_contents-Lists (reader m) (directory_path path) cat
        (directory_path-slash path)) [
          | inr (code, absent) ↦ inr (missing code, absent)
          | inl l ↦
              let (items, e, all, count) =
                list_loop-AllShown m (directory_path path) (directory_path-slash path) full l.lo
                  l.hi (omega (arith, l.hi_in))
                  (λ i u. let (r, row) = cat.readable i (omega (arith, l.hi_in)) in (r.0, r.1, row))
                  (λ i d p u v row. (l.entries i d p (omega (arith, l.hi_in)) row).0 (u, v))
                  (suc (l.hi + 1 - suc l.lo)) (suc l.lo) dots (omega arith) (omega (arith, l.lo_hi))
                  (omega (arith, l.lo_hi)) in
              inl (l, items, listed l ∙ e, all, omega (arith, count))
        ]

-- ===== src/Catalogfs/Spec.antt =====
-- What the file system is to be: a tree of files that can be looked at and not changed. The answers
-- are stated on a list of paths, without a catalog, a search or a format of entries.
pub mod Children
use catalog_file_system.Base.{
  ℕ, ◌-◌, Bool, true, false, ◌||◌, ◌==◌, if◌then◌else◌, is_eq, Option, none, some, List, [], ◌∷◌,
  ◌++◌, length, replicate, take, Outcome, ok, err,
}
use catalog_file_system.Clib.Text.{Bytes, strcmp, count_byte}
use catalog_file_system.Catalogfs.Mount.{Stat}
use catalog_file_system.Catalogfs.Handlers.{Item, Filler, dots}
use catalog_file_system.Catalogfs.Handlers.Listing.{given}
use catalog_file_system.Catalogfs.ReadOnly.{catalog_statfs}
use catalog_file_system.Catalogfs.Table
use catalog_file_system.Catalogfs.Table.Laws.{refusal}

-- The paths of the tree, a directory's with and without '/' at the end; the attributes of a path; and
-- the target of a link, which is empty for any other file.
pub record Tree : Type 0 where
  pub paths : List Bytes
  pub stat : Bytes → Stat
  pub target : Bytes → Bytes

unfoldable pub has : List Bytes → Bytes → Bool
unfolding strcmp
has [] p = false
has (q ∷ qs) p = is_eq (strcmp q p) || has qs p

-- What follows `dir` in a path that begins with it.
unfoldable pub behind : Bytes → Bytes → Option Bytes
behind [] p = some p
behind (b ∷ bs) [] = none
behind (b ∷ bs) (c ∷ cs) = if b == c then behind bs cs else none

-- The name of what is directly in the directory `dir`, which ends in '/'.
unfoldable pub proper : Option Bytes → Option Bytes
unfolding count_byte
proper none = none
proper (some []) = none
proper (some (b ∷ bs)) = if count_byte b'/' (b ∷ bs) == 0 then some (b ∷ bs) else none

abbrev pub item_of : (Bytes → Stat) → Bytes → Option Bytes → Option Item
item_of stat p none = none
item_of stat p (some name) = some (record { name = name; attributes = some (stat p) })

abbrev pub shown : (Bytes → Stat) → Bytes → Bytes → Option Item
shown stat dir p = item_of stat p (proper (behind dir p))

-- One item for each path directly in the directory, in their order.
abbrev pub prepend : Option Item → List Item → List Item
prepend none items = items
prepend (some x) items = x ∷ items

unfoldable pub children : (Bytes → Stat) → Bytes → List Bytes → List Item
unfolding behind proper
children stat dir [] = []
children stat dir (p ∷ ps) = prepend (shown stat dir p) (children stat dir ps)

-- The root's path ends in '/'; any other directory is listed under its path with a '/' behind it.
unfoldable pub listed_as : Bytes → Bytes
listed_as [] = b'/' ∷ []
listed_as (b ∷ []) = if b == b'/' then b ∷ [] else b ∷ b'/' ∷ []
listed_as (b ∷ c ∷ cs) = b ∷ c ∷ (cs ++ b'/' ∷ [])

-- The code with which a request is refused, or nothing to say.
abbrev pub refused_with : Option ℕ → Outcome Table.Answer
refused_with none = ok Table.nothing
refused_with (some e) = err e

-- -ENOENT is `err 2`.
unfoldable pub answer : Tree → Table.Request → Outcome Table.Answer
unfolding has children listed_as catalog_statfs
answer t (Table.getattr p) = if has t.paths p then ok (Table.attributes (t.stat p)) else err 2
answer t (Table.readdir p full) =
    if has t.paths (listed_as p)
    then ok (Table.items (given full dots (children t.stat (listed_as p) t.paths)))
    else err 2
answer t (Table.readlink p size) =
    if has t.paths p
    then ok (Table.text (take (size - 1) (t.target p ++ replicate (size - 1) 0)))
    else err 2
answer t (Table.statfs p) = ok (Table.volume (catalog_statfs p))
answer t q = refused_with (refusal q)

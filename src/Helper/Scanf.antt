-- ===== src/Helper/Scanf.antt =====
-- helper/scanf.c: reading one entry of a catalog, and taking a link's text apart.
use catalog_file_system.Base.{[], ◌∷◌, ◌++◌, ℤ, pos, negsuc}
use catalog_file_system.Clib.Text.{Bytes, codes, joined}
use catalog_file_system.Clib.Print.{print_integer}
use catalog_file_system.Clib.Scan.{sscanf, sscanf_value, split_at}
use catalog_file_system.Catalogfs.Mount.{Locals}
use catalog_file_system.Catalogfs.Entry.{entry_format, link_part}

-- The global of that name.
abbrev pub entry : Bytes
entry =
    codes "l 0710 1 119 29 9000 1213109162 1213109161 1213105161 3 "
    ++ (1 ∷ codes "/dir1/link file" ++ (2 ∷ codes "/dir2 kkdskl" ++ (1 ∷ 1 ∷ 1 ∷ 1 ∷ 10 ∷ [])))

-- The result of `sscanf`, EOF for an empty text.
unfoldable pub value : Locals → Bytes → ℤ
unfolding sscanf_value
value s [] = negsuc 0
value s (b ∷ bs) = pos (sscanf_value entry_format s (b ∷ bs))

-- What `main` prints for the locals as they stand and a text in `entry`. It looks for \2 whatever the
-- type letter is.
unfoldable pub main : Locals → Bytes → Bytes
unfolding value sscanf split_at print_integer
main stale text =
    let s = sscanf entry_format stale text in
    let temp = (split_at 2 s.file_path).0 in
    let link_dest = link_part (codes "kgn") (split_at 2 s.file_path).1 in
    joined (
      codes "entry="
      ∷ text
      ∷ codes "depth="
      ∷ print_integer s.depth
      ∷ (10 ∷ codes "variables read successfully=")
      ∷ print_integer (value stale text)
      ∷ (10 ∷ codes "file_path=")
      ∷ temp
      ∷ codes " abc"
      ∷ (10 ∷ codes "link_dest=")
      ∷ link_dest
      ∷ codes " xyz"
      ∷ (10 ∷ [])
      ∷ [])

-- ===== src/Catalogfs/Directory/Inside.antt =====
-- catalogfs.c: what `get_directory_contents` takes for an entry of a directory.
use catalog_file_system.Base.{
  ◌+◌, ◌≡◌, ◌≢◌, sym, ap, ◌∙◌, true, false, arith, Ordering, [], ◌∷◌, ◌++◌, length, beq_ℤ,
  eq_of_beq, ℤ, pos, ◌≤ℤ◌,
}
use catalog_file_system.Clib.Text.{Bytes, count_byte, strncmp}
use catalog_file_system.Clib.Text.Count.{count_byte-append}
use catalog_file_system.Catalogfs.Entry.{find_depth}
use catalog_file_system.Catalogfs.Directory.{is_content}

-- The directory's own path, with the '/' at its end, or the path of something directly in it.
abbrev pub InDirectory : Bytes → Bytes → Type 0
InDirectory dir p = (name : Bytes) × (p ≡ dir ++ name) × (count_byte b'/' name ≡ 0)

pub content-true :
    (dir : Bytes) (d : ℤ) (p : Bytes)
    → is_content dir d p ≡ true
    → (d ≡ find_depth dir) × (strncmp dir p (length dir) ≡ Ordering.eq)
unfolding is_content
content-true dir d p h = ground (arith, eq_of_beq d (find_depth dir))

pub content-false :
    (dir : Bytes) (d : ℤ) (p : Bytes)
    → is_content dir d p ≡ false
    → d ≡ find_depth dir
    → strncmp dir p (length dir) ≢ Ordering.eq
unfolding is_content beq_ℤ
content-false dir d p h e e' = ground (arith, e, e')

find_depth-append :
    (dir name : Bytes)
    → pos 1 ≤ℤ find_depth dir
    → find_depth (dir ++ name) ≡ pos (count_byte b'/' dir + count_byte b'/' name)
unfolding find_depth
find_depth-append [] name h = absurd (omega arith)
find_depth-append (b ∷ bs) name h = ground (arith, count_byte-append b'/' (b ∷ bs) name)

find_depth-count :
    (dir : Bytes) → pos 1 ≤ℤ find_depth dir → find_depth dir ≡ pos (count_byte b'/' dir)
unfolding find_depth
find_depth-count [] h = absurd (omega arith)
find_depth-count (b ∷ bs) h = ground arith

pub slashless :
    (dir rest : Bytes)
    → pos 1 ≤ℤ find_depth dir
    → find_depth (dir ++ rest) ≡ find_depth dir
    → count_byte b'/' rest ≡ 0
slashless dir rest h e =
    let e' = sym (find_depth-append dir rest h) ∙ e ∙ find_depth-count dir h in
    let same : count_byte b'/' dir + count_byte b'/' rest ≡ count_byte b'/' dir = cc in omega arith

pub same_depth :
    (dir name : Bytes)
    → pos 1 ≤ℤ find_depth dir
    → count_byte b'/' name ≡ 0
    → find_depth (dir ++ name) ≡ find_depth dir
same_depth dir name h e =
    find_depth-append dir name h ∙ ap pos (omega (arith, e)) ∙ sym (find_depth-count dir h)

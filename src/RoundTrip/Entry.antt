-- ===== src/RoundTrip/Entry.antt =====
-- One entry, from `lstat`'s answer through its line in the catalog to what the file system reads.
use Prim.Native.Nat.{bit_and, bit_or}
use catalog_file_system.Base.{
  ℕ, inl, inr, Bool-cases, ◌+◌, ◌%◌, ◌*◌, ◌^◌, ◌≤◌, ◌<◌, ◌≡◌, ◌≢◌, refl, ap, ◌∙◌, false, arith, [],
  ◌∷◌, ◌++◌, append_assoc, ◌==◌, if◌then◌else◌, ℤ, to_unsigned,
}
use catalog_file_system.Clib.Text.{Bytes, has_byte, c_string}
use catalog_file_system.Clib.Scan.{sscanf}
use catalog_file_system.Clib.Scan.Printed.{split_at-append}
use catalog_file_system.Catalogfs.Mount.{Stat, Pointer, into_frame, StatWdf, Locals}
use catalog_file_system.Catalogfs.Entry.{
  find_depth, entry_format, type_bits, stat_of_locals, entry_of_locals,
}
use catalog_file_system.Generate.Entry.{d_type, type_letter, print_fields, print_text, to_long}
use catalog_file_system.RoundTrip.Fields.{locals_of, sscanf-print_fields}
use catalog_file_system.RoundTrip.Lines.{
  has_byte-append, print_fields-lacks, print_fields-append, c_string-whole,
}
use catalog_file_system.RoundTrip.Mode.{Kind, number, mode_back}

-- A text that neither ends a string or a line nor holds one of the separators \\1 and \\2.
pub record IsPlain (text : Bytes) : Type 0 where
  pub no_nul : has_byte 0 text ≡ false
  pub no_one : has_byte 1 text ≡ false
  pub no_two : has_byte 2 text ≡ false
  pub no_newline : has_byte 10 text ≡ false

-- An answer of `lstat`: a known type, and numbers that their C types hold.
pub record IsStat (st : Stat) : Type 0 where
  pub kind : Kind
  pub permissions : ℕ
  pub permissions_small : permissions < 4096
  pub mode : st.st_mode ≡ number kind * 4096 + permissions
  pub nlink_small : st.st_nlink < 2 ^ 64
  pub uid_small : st.st_uid < 2 ^ 32
  pub gid_small : st.st_gid < 2 ^ 32

pub record IsEntry (st : Stat) (path dest : Bytes) : Type 0 where
  pub known : IsStat st
  pub named : path ≢ []
  pub plain_path : IsPlain path
  pub plain_dest : IsPlain dest

abbrev pub letter : Stat → ℕ
letter st = type_letter (d_type st.st_mode)

-- The entry as the file system sees it.
unfoldable pub read_back : Stat → Bytes → Bytes → StatWdf
unfolding find_depth
read_back st path dest = record {
  depth = find_depth path;
  file_path = into_frame path;
  st_data = st;
  link_dest = if letter st == b'l' then into_frame dest else Pointer.literal [];
}

long_back : (n : ℕ) → n < 2 ^ 64 → to_unsigned 64 (to_long n) ≡ n
unfolding to_unsigned to_long
long_back n h = ground arith

stat_back :
    (st : Stat) (depth : ℤ) (text : Bytes)
    → IsStat st
    → stat_of_locals (locals_of (letter st) (bit_and st.st_mode 0o7777) st depth text) ≡ st
unfolding stat_of_locals to_unsigned
stat_back st depth text h =
    let back = mode_back h.kind h.permissions h.permissions_small in
    let m = h.mode in
    let perm : bit_and st.st_mode 0o7777 ≡ h.permissions = rw m back.1 in
    let small : h.permissions % 2 ^ 32 ≡ h.permissions = grind (arith, h.permissions_small) in
    let bits : bit_or (type_bits (letter st)) h.permissions ≡ st.st_mode = rw (m, back.0) back.2 in
    let nlink = long_back st.st_nlink h.nlink_small in
    let uid : st.st_uid % 2 ^ 32 ≡ st.st_uid = grind (arith, h.uid_small) in
    let gid : st.st_gid % 2 ^ 32 ≡ st.st_gid = grind (arith, h.gid_small) in
    rw (perm, small, bits, nlink, uid, gid)

abbrev with_stat : ℤ → Pointer → Pointer → Stat → StatWdf
with_stat depth path dest st = record {
  depth = depth;
  file_path = path;
  st_data = st;
  link_dest = dest;
}

-- The second half of `getEntry_from_catalog` undoes what was made of the path and the target.
pub entry_of_locals-locals_of :
    (stale : Bytes) (st : Stat) (path dest : Bytes)
    → IsEntry st path dest
    → entry_of_locals stale (
        locals_of
          (letter st)
          (bit_and st.st_mode 0o7777)
          st
          (find_depth path)
          (print_text (letter st) path dest))
      ≡ read_back st path dest
unfolding entry_of_locals print_text read_back
entry_of_locals-locals_of stale st path dest h = elim (Bool-cases (letter st == b'l')) [
  | inl link ↦
      let same = stat_back st (find_depth path) (path ++ 2 ∷ dest) h.known in
      rw (link, split_at-append 2 path dest h.plain_path.no_two)
        (ap (with_stat (find_depth path) (into_frame path) (into_frame dest)) (rw link at same))
  | inr other ↦
      let same = stat_back st (find_depth path) path h.known in
      rw other
        (ap (with_stat (find_depth path) (into_frame path) (Pointer.literal [])) (rw other at same))
]

letter-ge : (st : Stat) → 32 ≤ letter st
unfolding type_letter
letter-ge st = ground arith

print_text-lacks :
    (b c : ℕ) (path dest : Bytes)
    → has_byte b path ≡ false
    → has_byte b (2 ∷ dest) ≡ false
    → has_byte b (print_text c path dest) ≡ false
unfolding print_text
print_text-lacks b c path dest h k = ground (arith, has_byte-append b path (2 ∷ dest))

print_text-named : (c : ℕ) (path dest : Bytes) → path ≢ [] → print_text c path dest ≢ []
unfolding print_text
print_text-named c [] dest h = absurd (h refl)
print_text-named c (b ∷ bs) dest h = elim (Bool-cases (c == b'l')) [
  | inl link ↦ rw link (λ e. cc)
  | inr other ↦ rw other (λ e. cc)
]

-- An entry's line without its newline.
abbrev pub line_text : Stat → Bytes → Bytes → Bytes → Bytes
line_text st path dest rest =
    print_fields (letter st) (bit_and st.st_mode 0o7777) st (find_depth path)
      (print_text (letter st) path dest ++ 1 ∷ rest)

line_text-lacks :
    (b : ℕ) (st : Stat) (path dest rest : Bytes)
    → b < 32
    → (b == 1) ≡ false
    → has_byte b path ≡ false
    → has_byte b (2 ∷ dest) ≡ false
    → has_byte b rest ≡ false
    → has_byte b (line_text st path dest rest) ≡ false
unfolding has_byte
line_text-lacks b st path dest rest low one h k r =
    let text = print_text (letter st) path dest in
    print_fields-lacks b (letter st) _ st (find_depth path) _ low (letter-ge st)
    ∙ ground
        (arith, has_byte-append b text (1 ∷ rest), print_text-lacks b (letter st) path dest h k)

-- The record that `pad_each_line` makes of the entry's line.
pub sscanf-line_text :
    (s : Locals) (st : Stat) (path dest rest : Bytes)
    → IsEntry st path dest
    → has_byte 0 rest ≡ false
    → sscanf entry_format s (c_string (line_text st path dest rest))
      ≡ locals_of
          (letter st)
          (bit_and st.st_mode 0o7777)
          st
          (find_depth path)
          (print_text (letter st) path dest)
unfolding has_byte
sscanf-line_text s st path dest rest h clean =
    let c = letter st in
    let lacks0 =
      line_text-lacks 0 st path dest rest (omega arith) refl h.plain_path.no_nul h.plain_dest.no_nul
        clean in
    let lacks1 = print_text-lacks 1 c path dest h.plain_path.no_one h.plain_dest.no_one in
    rw (c_string-whole (line_text st path dest rest) lacks0) (
      sscanf-print_fields s c _ st (find_depth path) (print_text c path dest) rest
        (print_text-named c path dest h.named) lacks1)

-- The line is one line.
pub line_text-one_line :
    (st : Stat) (path dest : Bytes)
    → IsEntry st path dest
    → has_byte 10 (line_text st path dest []) ≡ false
unfolding has_byte
line_text-one_line st path dest h =
    line_text-lacks 10 st path dest [] (omega arith) refl h.plain_path.no_newline
      h.plain_dest.no_newline refl

pub line_text-append :
    (st : Stat) (path dest rest more : Bytes)
    → line_text st path dest rest ++ more ≡ line_text st path dest (rest ++ more)
line_text-append st path dest rest more =
    print_fields-append (letter st) _ st (find_depth path) _ more
    ∙ ap (print_fields (letter st) _ st (find_depth path))
        (append_assoc (print_text (letter st) path dest) (1 ∷ rest) more)

-- ===== src/Catalogfs/Entry/Buffers.antt =====
-- catalogfs.c: the texts that `getEntry_from_catalog` writes into its buffers of MAXPATHLEN bytes.
use catalog_file_system.Base.{
  ℕ, zero, suc, ap, ok, err, pos, Bool, ltb_ℤ, exit, result_of_bind, to_int, ◌*ℤ◌, subst,
  if◌then◌else◌, ◌+◌, ◌<◌, ◌≤◌, ◌≡◌, refl, arith, true, false, ◌==◌, if◌then◌else◌, List, [], ◌∷◌,
  length, ℤ, ok, drop,
}
use catalog_file_system.Clib.Text.{Bytes, c_string}
use catalog_file_system.Clib.Scan.{Directive, sscanf, split_at}
use catalog_file_system.Clib.Scan.Sizes.{
  AllGuards, sscanf-AllGuards, length-c_string, length-split_at,
}
use catalog_file_system.Catalogfs.Mount.{
  File, cannot_open, cannot_read, holds, Mount, Locals, StatWdf, Pointer,
}
use catalog_file_system.Catalogfs.Entry.{
  drop_bytes, read_into, read_entry, entry_format, entry_of_locals, link_part,
  get_entry_from_catalog,
}

-- MAXPATHLEN.
abbrev pub maxpathlen : ℕ
maxpathlen = 4096

-- The string that a pointer was set to.
unfoldable pub pointee : Pointer → Bytes
pointee (Pointer.literal s) = s
pointee (Pointer.into_frame s) = s

-- A string and its NUL fit into a buffer.
abbrev pub Short : Bytes → Type 0
Short s = length s < maxpathlen

length-read_into :
    (n : ℕ) (bs : Bytes) (stale : ℕ → ℕ) (i : ℕ) → length (read_into n bs stale i) ≡ n
unfolding read_into
length-read_into zero bs stale i = refl
length-read_into (suc n) [] stale i = ap (λ k. suc k) (length-read_into n [] stale (i + 1))
length-read_into (suc n) (b ∷ bs) stale i = ap (λ k. suc k) (length-read_into n bs stale (i + 1))

abbrev Kept : Locals → Type 0
Kept s = Short s.file_path

-- The format behind its first conversion, which takes a byte.
abbrev fields : List (Directive Locals)
fields = drop 1 entry_format

fields-AllGuards : AllGuards maxpathlen Kept fields
unfolding AllGuards
fields-AllGuards = ground arith

sscanf-Short :
    (s : Locals) (cs : Bytes)
    → Short s.file_path
    → length cs ≤ maxpathlen
    → Short (sscanf entry_format s cs).file_path
unfolding sscanf
sscanf-Short s [] h le = h
sscanf-Short s (c ∷ cs) h le =
    sscanf-AllGuards maxpathlen Kept fields (record s { c = c }) cs fields-AllGuards h
      (omega (arith, le))

link_part-Short : (stale rest : Bytes) → Short stale → Short rest → Short (link_part stale rest)
link_part-Short stale [] h k = h
link_part-Short stale (b ∷ target) h k = omega (arith, k)

-- What an entry's pointers were set to fits.
abbrev Fits : StatWdf → Type 0
Fits e = Short (pointee e.file_path) × Short (pointee e.link_dest)

if-Fits : (b : Bool) (x y : StatWdf) → Fits x → Fits y → Fits (if b then x else y)
if-Fits true x y h k = h
if-Fits false x y h k = k

entry_of_locals-Fits :
    (stale : Bytes) (s : Locals) → Short stale → Short s.file_path → Fits (entry_of_locals stale s)
unfolding entry_of_locals pointee
entry_of_locals-Fits stale s h k =
    let parts = length-split_at 2 s.file_path in
    if-Fits (s.c == b'l') _ _
      (
        omega (arith, parts, k),
        link_part-Short stale (split_at 2 s.file_path).1 h (omega (arith, parts, k)),
      )
      (k, omega arith)

chosen :
    (b : Bool) (bytes : Bytes) {entry : Bytes} {n : ℕ}
    → length bytes ≡ n
    → (if b then err 1 else ok bytes) ≡ ok entry
    → length entry ≡ n
chosen true bytes e h = cc
chosen false bytes e h = cc

file_bytes :
    (m : Mount) (offset : ℤ) (f : File) {entry : Bytes}
    → (elim f [
      | cannot_open ↦ exit
      | cannot_read ↦ err 1
      | holds bs ↦
          if ltb_ℤ offset (pos 0)
          then err 1
          else ok (read_into m.entry_size (drop_bytes offset bs) m.stale_entry 0)
    ])
      ≡ ok entry
    → length entry ≡ m.entry_size
file_bytes m offset cannot_open h = cc
file_bytes m offset cannot_read h = cc
file_bytes m offset (holds bs) h =
    chosen (ltb_ℤ offset (pos 0)) _
      (length-read_into m.entry_size (drop_bytes offset bs) m.stale_entry 0) h

length-read_entry :
    (m : Mount) (offset : ℤ) {entry : Bytes}
    → read_entry m offset ≡ ok entry
    → length entry ≡ m.entry_size
unfolding read_entry
length-read_entry m offset h = file_bytes m offset m.catalog_file h

-- Let an entry have at most MAXPATHLEN bytes, and let the variables that are not initialised hold
-- strings that fit into their buffers. Then what `getEntry_from_catalog` reads at any location of any
-- file leaves every buffer within its MAXPATHLEN bytes: the text that `sscanf` sets, which has no
-- width, and the path and the target of a link that are cut from it, each with its NUL.
pub get_entry_from_catalog-Short :
    (m : Mount) (location : ℤ) (e : StatWdf)
    → m.entry_size ≤ maxpathlen
    → Short m.stale_locals.file_path
    → Short m.stale_link_dest
    → get_entry_from_catalog m location ≡ ok e
    → (entry : Bytes) × (read_entry m (to_int (pos m.entry_size *ℤ location)) ≡ ok entry)
      × Short (sscanf entry_format m.stale_locals (c_string entry)).file_path
      × Short (pointee e.file_path)
      × Short (pointee e.link_dest)
unfolding get_entry_from_catalog
get_entry_from_catalog-Short m location e small fits fits' read =
    let (entry, found, same) =
      result_of_bind (read_entry m (to_int (pos m.entry_size *ℤ location))) _ read in
    let locals = sscanf entry_format m.stale_locals (c_string entry) in
    let short = sscanf-Short m.stale_locals (c_string entry) fits (
      omega (
        arith,
        length-c_string entry,
        length-read_entry m (to_int (pos m.entry_size *ℤ location)) found,
        small,
      )) in
    let within = entry_of_locals-Fits m.stale_link_dest locals fits' short in
    let (path, target) = subst Fits same within in (entry, found, short, path, target)

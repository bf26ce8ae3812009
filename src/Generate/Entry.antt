-- ===== src/Generate/Entry.antt =====
-- generate_catalog.c: `print_entry_to_catalog` and `print_to_catalog`.
use Prim.Native.Nat.{bit_and}
use catalog_file_system.Base.{
  ℕ, ◌-◌, ◌/◌, ltb, negsuc, ◌==◌, if◌then◌else◌, Option, none, some, [], ◌∷◌, ◌++◌, ℤ, pos, drop,
  length, Outcome, ok, exit,
}
use catalog_file_system.Clib.Text.{Bytes}
use catalog_file_system.Clib.Print.{print_natural, print_integer}
use catalog_file_system.Catalogfs.Mount.{Stat}
use catalog_file_system.Catalogfs.Entry.{find_depth}

-- `stat_wdf` of this program; its `depth` is computed and not used.
pub record StatWdf : Type 0 where
  pub file_path : Bytes
  pub st_data : Stat
  pub link_dest : Bytes

-- `((st_mode) & 0170000) >> 12`
unfoldable pub d_type : ℕ → ℕ
d_type st_mode = bit_and st_mode 0o170000 / 4096

-- The `switch` on it. DT_FIFO is 1, DT_CHR 2, DT_DIR 4, DT_BLK 6, DT_REG 8, DT_LNK 10, DT_SOCK 12.
unfoldable pub type_letter : ℕ → ℕ
type_letter t =
    if t == 1
    then b'p'
    else if t == 2
    then b'c'
    else if t == 4
    then b'd'
    else if t == 6
    then b'b'
    else if t == 8
    then b'f'
    else if t == 10
    then b'l'
    else if t == 12
    then b's'
    else b'f'

-- `(long) st_nlink`, from 64 bits without a sign.
unfoldable pub to_long : ℕ → ℤ
to_long n = if ltb n 0x8000_0000_0000_0000 then pos n else negsuc (0xffff_ffff_ffff_ffff - n)

-- "%c %lo %ld %ld %ld %lld %lld %lld %lld %d \1", and the text behind it.
unfoldable pub print_fields : ℕ → ℕ → Stat → ℤ → Bytes → Bytes
unfolding print_natural print_integer to_long
print_fields c mode st depth rest =
    c
    ∷ b' '
    ∷ (print_natural 8 mode
        ++ (b' '
            ∷ (print_integer (to_long st.st_nlink)
                ++ (b' '
                    ∷ (print_integer (pos st.st_uid)
                        ++ (b' '
                            ∷ (print_integer (pos st.st_gid)
                                ++ (b' '
                                    ∷ (print_integer st.st_size
                                        ++ (b' '
                                            ∷ (print_integer st.st_atime
                                                ++ (b' '
                                                    ∷ (print_integer st.st_mtime
                                                        ++ (b' '
                                                            ∷ (print_integer st.st_ctime
                                                            ++ (b' '
                                                            ∷ (print_integer depth
                                                            ++ (b' ' ∷ 1 ∷ rest))))))))))))))))))

-- What stands between the separators: "%s\2%s" for a link, "%s" for another entry.
unfoldable pub print_text : ℕ → Bytes → Bytes → Bytes
print_text c path dest = if c == b'l' then path ++ 2 ∷ dest else path

-- The line of an entry. `path` is the file's path without the input directory in front.
unfoldable pub entry_line : StatWdf → Bytes → Bytes
unfolding d_type type_letter print_fields print_text find_depth
entry_line e path =
    let c = type_letter (d_type e.st_data.st_mode) in
    print_fields c (bit_and e.st_data.st_mode 0o7777) e.st_data (find_depth path)
      (print_text c path e.link_dest ++ 1 ∷ 10 ∷ [])

-- `print_entry_to_catalog` appends the line to the catalog file; an empty `input_dir` ends the
-- program.
unfoldable pub print_entry_to_catalog : Bytes → StatWdf → Bytes → Outcome Bytes
unfolding entry_line
print_entry_to_catalog file e input_dir =
    if length input_dir == 0
    then exit
    else ok (file ++ entry_line e (drop (length input_dir) e.file_path))

-- `lstat`, and `readlink` into a buffer of MAXPATHLEN bytes, which fail with `none`, and what the
-- memory of `malloc` and the buffer of `readlink` hold then.
pub record Files : Type 0 where
  pub lstat : Bytes → Option Stat
  pub readlink : Bytes → Option Bytes
  pub stale_stat : Stat
  pub stale_link : Bytes

abbrev or_stale {ℓ} : {A : Type ℓ} → Option A → A → A
or_stale none a = a
or_stale (some x) a = x

abbrev pub stat_at : Files → Bytes → Stat
stat_at w path = or_stale (w.lstat path) w.stale_stat

unfoldable pub target_at : Files → Bytes → Bytes
unfolding d_type
target_at w path =
    if d_type (stat_at w path).st_mode == 10 then or_stale (w.readlink path) w.stale_link else []

-- `print_to_catalog`: a failed `lstat` or `readlink` is reported, and the entry is printed all the
-- same.
unfoldable pub print_to_catalog : Files → Bytes → Bytes → Bytes → Outcome Bytes
unfolding print_entry_to_catalog target_at
print_to_catalog w file path input_dir =
    print_entry_to_catalog file
      (record { file_path = path; st_data = stat_at w path; link_dest = target_at w path })
      input_dir

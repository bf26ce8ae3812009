-- ===== src/RoundTrip/Fields.antt =====
-- The fields of a line, from `fprintf` to `sscanf`.
use catalog_file_system.Base.{ℕ, ◌≡◌, ◌≢◌, refl, ◌∙◌, false, arith, [], ◌∷◌, ◌++◌, List, ℤ, pos}
use catalog_file_system.Clib.Text.{Bytes, has_byte}
use catalog_file_system.Clib.Scan.{Directive, byte, spaces, literal, sscanf}
use catalog_file_system.Clib.Scan.Printed.{
  scan_integer-print_natural, scan_integer-print_integer, sscanf-integer, sscanf-until,
}
use catalog_file_system.Catalogfs.Mount.{Stat, Locals}
use catalog_file_system.Catalogfs.Entry.{entry_format}
use catalog_file_system.Generate.Entry.{print_fields, to_long}

-- The locals of `getEntry_from_catalog` after `sscanf`.
abbrev pub locals_of : ℕ → ℕ → Stat → ℤ → Bytes → Locals
locals_of c mode st depth text = record {
  c = c;
  mode = pos mode;
  nlink = to_long st.st_nlink;
  uid = pos st.st_uid;
  gid = pos st.st_gid;
  size = st.st_size;
  atime = st.st_atime;
  mtime = st.st_mtime;
  ctime = st.st_ctime;
  depth = depth;
  file_path = text;
}

module _ {S : Type 0} where
  read_byte :
      (f : ℕ → S → S) (ds : List (Directive S)) (s : S) (c : ℕ) (cs : Bytes)
      → sscanf (byte f ∷ ds) s (c ∷ cs) ≡ sscanf ds (f c s) cs
  unfolding sscanf
  read_byte f ds s c cs = refl

  read_separator :
      (ds : List (Directive S)) (s : S) (cs : Bytes)
      → sscanf (spaces ∷ literal 1 ∷ ds) s (b' ' ∷ 1 ∷ cs) ≡ sscanf ds s cs
  unfolding sscanf
  read_separator ds s cs = refl

  -- The `s` of the format stands where a \1 follows, so it ends the call.
  read_end :
      (ds : List (Directive S)) (s : S) (cs : Bytes) → sscanf (literal b's' ∷ ds) s (1 ∷ cs) ≡ s
  unfolding sscanf
  read_end ds s cs = refl

-- Whatever the locals held, `sscanf` sets them to the printed values, and the path to the text between
-- the separators, if that text is not empty and holds no separator \1.
pub sscanf-print_fields :
    (s : Locals) (c mode : ℕ) (st : Stat) (depth : ℤ) (text rest : Bytes)
    → text ≢ []
    → has_byte 1 text ≡ false
    → sscanf entry_format s (print_fields c mode st depth (text ++ 1 ∷ rest))
      ≡ locals_of c mode st depth text
unfolding print_fields
sscanf-print_fields s c mode st depth text rest full clean =
    read_byte _ _ s c _
    ∙ sscanf-integer 8 _ _ _ _ _ _ (scan_integer-print_natural 8 mode _ (omega arith) (omega arith))
    ∙ sscanf-integer 10 _ _ _ _ _ _ (scan_integer-print_integer (to_long st.st_nlink) _)
    ∙ sscanf-integer 10 _ _ _ _ _ _ (scan_integer-print_integer (pos st.st_uid) _)
    ∙ sscanf-integer 10 _ _ _ _ _ _ (scan_integer-print_integer (pos st.st_gid) _)
    ∙ sscanf-integer 10 _ _ _ _ _ _ (scan_integer-print_integer st.st_size _)
    ∙ sscanf-integer 10 _ _ _ _ _ _ (scan_integer-print_integer st.st_atime _)
    ∙ sscanf-integer 10 _ _ _ _ _ _ (scan_integer-print_integer st.st_mtime _)
    ∙ sscanf-integer 10 _ _ _ _ _ _ (scan_integer-print_integer st.st_ctime _)
    ∙ sscanf-integer 10 _ _ _ _ _ _ (scan_integer-print_integer depth _)
    ∙ read_separator _ _ _
    ∙ sscanf-until _ _ _ text rest full clean
    ∙ read_end _ _ rest

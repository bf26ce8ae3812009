-- ===== src/Catalogfs/Main.antt =====
-- catalogfs.c: `main`, up to the call of `fuse_main`.
pub mod Laws
use catalog_file_system.Base.{
  ℕ, zero, suc, ◌+◌, Bool, true, false, ◌||◌, Option, none, some, [], ◌∷◌, if◌then◌else◌, ℤ, pos,
  negsuc, ltb_ℤ, leb_ℤ, to_int,
}
use catalog_file_system.Clib.Text.{Bytes}
use catalog_file_system.Clib.Scan.{scan_integer}

-- `atol`: the number at the start of a text, 0 if there is none.
abbrev number_of : Option (ℤ × Bytes) → ℤ
number_of none = pos 0
number_of (some (z, rest)) = z

unfoldable pub atol : Bytes → ℤ
unfolding scan_integer
atol s = number_of (scan_integer 10 s)

-- `atoi` is `atol` cut to an `int`.
unfoldable pub atoi : Bytes → ℤ
unfolding atol to_int
atoi s = to_int (atol s)

-- The environment variables that `main` reads.
pub record Environment : Type 0 where
  pub catalogfs_catalog : Option Bytes
  pub catalogfs_entry_size : Option Bytes
  pub catalogfs_catalog_len : Option Bytes

-- The globals with which `fuse_main` is called.
pub record Globals : Type 0 where
  pub catalog_file : Bytes
  pub entry_size : ℤ
  pub catalog_len : ℤ

-- The last two tests.
unfoldable pub check_sizes : Bytes → ℤ → ℤ → Option Globals
unfolding ltb_ℤ leb_ℤ
check_sizes file size len =
    if ltb_ℤ size (pos 13)
    then none
    else if leb_ℤ len (pos 0)
    then none
    else some (record { catalog_file = file; entry_size = size; catalog_len = len })

-- `none` is `exit(1)`.
unfoldable pub start : Environment → Option Globals
unfolding check_sizes atoi
start env = elim env.catalogfs_catalog [
  | none ↦ none
  | some file ↦ elim env.catalogfs_entry_size [
    | none ↦ none
    | some size ↦ elim env.catalogfs_catalog_len [
      | none ↦ none
      | some len ↦ check_sizes file (atoi size) (atol len)
    ]
  ]
]

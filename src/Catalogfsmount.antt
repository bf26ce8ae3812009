-- ===== src/Catalogfsmount.antt =====
-- catalogfsmount: the script that checks a catalog, exports the variables and starts the file system.
-- The programs that the script calls, beside those of the repository, are a parameter.
pub mod Tools
pub mod Words
use catalog_file_system.Base.{
  ℕ, Bool, true, false, ◌==◌, if◌then◌else◌, Option, none, some, List, [], ◌∷◌, ◌++◌, ℤ, Outcome,
  ok, err, exit, out_of_fuel, ◌>>=◌,
}
use catalog_file_system.Clib.Text.{Bytes, codes}
use catalog_file_system.Catalogfs.Main.{Environment, Globals, start}
use catalog_file_system.Bytecount.{Ended}
use catalog_file_system.Bytecount

-- `expand` is what the shell makes of the value of a variable outside quotes: its words, after
-- splitting and the expansion of patterns. `sort -u | wc -l` of a column of numbers;
-- `wc -l … | awk '{print $1}'` and `ls -lH … | awk '{printf $5}'` of the files of that host with these
-- words; `expr` with its words; and whether `[` with these words (without the last, `]`) succeeds. `evals` is whether
-- `eval ./catalogfs $DEBUG $FILESYSTEM_PARAMETERS $mount_point` runs `catalogfs` for a mount point.
pub record Commands : Type 0 where
  pub expand : Bytes → List Bytes
  pub sort_wc : List ℤ → ℕ
  pub wc : (Bytes → Option Bytes) → List Bytes → Bytes
  pub ls : (Bytes → Option Bytes) → List Bytes → Bytes
  pub expr : List Bytes → Bytes
  pub test : List Bytes → Bool
  pub evals : Bytes → Bool

-- The host: whether the kernel has the module, the user is root, and `modprobe` loads the module.
pub record Host : Type 0 where
  pub has_fuse : Bool
  pub is_root : Bool
  pub modprobe : Bool

-- What the script does: one of its messages, or `catalogfs`, whose `main` may refuse to start, or a last
-- line that is another command.
pub data Result : Type 0 where
  usage : Result
  no_module : Result
  different_sizes : Result
  unexpected_size : Result
  called : Option Globals → Result
  not_called : Result

-- What `bytecount` prints, nothing if it crashes.
unfoldable pub printed_by : Outcome Ended → List ℤ
printed_by (ok e) = e.printed
printed_by (err e) = []
printed_by exit = []
printed_by out_of_fuel = []

-- The words of a variable outside quotes: none if it is not set.
abbrev pub words : Commands → Option Bytes → List Bytes
words c none = []
words c (some value) = c.expand value

-- The test of the file's size, and the last line. If `[` fails, because of its words or since the
-- sizes are equal, `catalogfs` is called.
unfoldable pub check_size : Commands → (file_size expected_file_size : Bytes) → Environment → Result
unfolding start
check_size c file_size expected_file_size env =
    if c.test (c.expand file_size ++ (codes "!=" ∷ c.expand expected_file_size))
    then unexpected_size
    else called (start env)

-- The script behind the line that loads the kernel module. `minlen` is the variable of that name in its
-- environment: no line sets it.
unfoldable pub mount_catalog :
    Commands → (stale_file minlen : Option Bytes) → (Bytes → Option Bytes) → Bytes → Result
unfolding printed_by check_size Bytecount.main
mount_catalog c stale_file minlen fopen catalog_file =
    let files = c.expand catalog_file in
    let nl =
      c.sort_wc (printed_by (Bytecount.main stale_file fopen (codes "./bytecount" ∷ files))) in
    let catalogfs_entry_size = c.expr (words c minlen ++ (codes "+" ∷ codes "1" ∷ [])) in
    let catalogfs_catalog_len = c.wc fopen files in
    let file_size = c.ls fopen files in
    let expected_file_size =
      c.expr (c.expand catalogfs_catalog_len ++ (codes "*" ∷ c.expand catalogfs_entry_size)) in
    if nl == 1
    then check_size c file_size expected_file_size (record {
      catalogfs_catalog = some catalog_file;
      catalogfs_entry_size = some catalogfs_entry_size;
      catalogfs_catalog_len = some catalogfs_catalog_len;
    })
    else different_sizes

-- The last line, if it is reached: what `eval` makes of the mount point.
abbrev pub last_line : Commands → (mount_point : Bytes) → Result → Result
last_line c mount_point (called started) =
    if c.evals mount_point then called started else not_called
last_line c mount_point result = result

-- The check of the module.
abbrev pub module_ready : Host → Bool
module_ready h = if h.has_fuse then true else if h.is_root then h.modprobe else false

-- The whole script with its arguments. The mount point is handed to `catalogfs`, after `mkdir -p`,
-- whose result is not looked at.
unfoldable pub catalogfsmount :
    Host
    → Commands
    → (stale_file minlen : Option Bytes) → (Bytes → Option Bytes)
    → List Bytes
    → Result
unfolding mount_catalog
catalogfsmount h c stale_file minlen fopen (catalog_file ∷ mount_point ∷ []) =
    if module_ready h
    then last_line c mount_point (mount_catalog c stale_file minlen fopen catalog_file)
    else no_module
catalogfsmount h c stale_file minlen fopen [] = usage
catalogfsmount h c stale_file minlen fopen (catalog_file ∷ []) = usage
catalogfsmount h c stale_file minlen fopen (catalog_file ∷ mount_point ∷ more ∷ rest) = usage

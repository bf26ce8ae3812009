-- ===== src/Examples.antt =====
-- A catalog of four entries, made by the generator's model and mounted by the file system's, and
-- runs of the definitions on it.
pub mod Tree
pub mod World
pub mod Unordered
pub mod Programs
pub mod Draft
pub mod Helper
pub mod Served
pub mod Witnesses
pub mod Mounting
use catalog_file_system.Catalogfs.Reader.{Reader, reader}
use Prim.Native.Nat.{bit_and}
use catalog_file_system.Base.{
  suc, zero, ◌≤◌, ℕ, ◌+◌, ◌*◌, ◌<◌, ◌≡◌, ◌≢◌, refl, arith, Option, some, none, List, [], ◌∷◌, ◌++◌,
  ◌==◌, if◌then◌else◌, length, ℤ, pos, negsuc, Bool, false, Outcome, ok, err, leb_ℤ, ltb_ℤ,
  compare_ℤ, beq_ℤ, ◌+ℤ◌, ◌-ℤ◌, ◌*ℤ◌, to_int, half,
}
use catalog_file_system.Clib.Text.{Bytes, codes}
use catalog_file_system.Catalogfs.Mount.{Stat, Locals, Mount, cannot_open}
use catalog_file_system.Catalogfs.Search.{bin_search, calculate_mid}
use catalog_file_system.Catalogfs.Search.Correct.{IsCatalog}
use catalog_file_system.Catalogfs.Directory.{get_directory_contents}
use catalog_file_system.Catalogfs.Handlers.{
  Item, Filler, catalog_getattr, catalog_readdir, catalog_readlink,
}
use catalog_file_system.Generate.Entry.{
  Files, stat_at, target_at, print_fields, type_letter, d_type, print_text,
}
use catalog_file_system.Catalogfs.Entry.{
  find_depth, get_entry_depth_filepath, get_entry_from_catalog, get_entry_filepath,
}
use catalog_file_system.Clib.Text.{has_byte, count_byte, strcmp, c_string}
use catalog_file_system.Clib.Scan.{sscanf}
use catalog_file_system.Generate.Pad.{getlines, longest, pad_each_line}
use catalog_file_system.Generate.Pad.Laws.{file_of}
use catalog_file_system.Generate.Queue.{Ptr, Heap, Store, lookup}
use catalog_file_system.Generate.Listing.{Dirent, System, filter}
use catalog_file_system.RoundTrip.Mode.{Kind, number}
use catalog_file_system.RoundTrip.Entry.{IsPlain, IsStat, IsEntry}
use catalog_file_system.RoundTrip.File.{print_paths, mounted, AllEntries, texts, print_paths-texts}
use catalog_file_system.RoundTrip.Catalog.{mounted-IsCatalog}
use catalog_file_system.Catalogfs.Search.Listed.{Ascending}

abbrev pub stat_with : ℕ → Stat
stat_with mode = record {
  st_mode = mode;
  st_nlink = 1;
  st_uid = 1000;
  st_gid = 100;
  st_size = pos 7;
  st_atime = pos 30;
  st_mtime = pos 20;
  st_ctime = negsuc 0;
}

-- The input directory /r with a directory, a file, a link and a file below another directory, told
-- apart by the lengths of their paths.
abbrev pub files : Files
files = record {
  lstat = λ path.
      let n = length path in
      some (stat_with (if n == 3 then 0o040755 else if n == 5 then 0o120777 else 0o100644));
  readlink = λ path. some (codes "a");
  stale_stat = stat_with 0;
  stale_link = [];
}

abbrev pub input_dir : Bytes
input_dir = codes "/r"

abbrev pub paths : List Bytes
paths = codes "/" ∷ codes "/a" ∷ codes "/ln" ∷ codes "/d/x" ∷ []

abbrev pub stale : Mount
stale = record {
  entry_size = 0;
  catalog_len = 0;
  catalog_file = cannot_open;
  stale_entry = λ i. 0;
  stale_locals = record {
    c = 0;
    mode = pos 0;
    nlink = pos 0;
    uid = pos 0;
    gid = pos 0;
    size = pos 0;
    atime = pos 0;
    mtime = pos 0;
    ctime = pos 0;
    depth = pos 0;
    file_path = [];
  };
  stale_link_dest = [];
  stale_mid = pos 0;
  left_frame = λ b. b;
  left_frame_after_printf = λ b. b;
}

abbrev pub written : Bytes
written = file_of (texts files input_dir paths)

pub filled : input_dir ≢ []
filled e = cc

pub printed : print_paths files input_dir [] paths ≡ ok written
printed = print_paths-texts files input_dir [] paths filled

pub longest_line : longest 0 (getlines written) ≡ 38
unfolding longest getlines file_of print_fields type_letter d_type find_depth print_text target_at
longest_line = refl

abbrev pub entry_ok :
    (k : Kind) (p : ℕ)
    → p < 4096
    → (mode : ℕ) → mode ≡ number k * 4096 + p
    → IsStat (stat_with mode)
entry_ok k p small mode e = record {
  kind = k;
  permissions = p;
  permissions_small = small;
  mode = e;
  nlink_small = omega arith;
  uid_small = omega arith;
  gid_small = omega arith;
}

pub all_entries : AllEntries files input_dir paths
unfolding has_byte target_at d_type
all_entries =
    let no_text : IsPlain [] = record {
      no_nul = refl;
      no_one = refl;
      no_two = refl;
      no_newline = refl;
    } in
    let target : IsPlain (codes "a") = record {
      no_nul = refl;
      no_one = refl;
      no_two = refl;
      no_newline = refl;
    } in
    (
      record {
        known = entry_ok Kind.dir 0o755 (omega arith) _ refl;
        named = λ e. cc;
        plain_path = record { no_nul = refl; no_one = refl; no_two = refl; no_newline = refl };
        plain_dest = no_text;
      },
      (
        record {
          known = entry_ok Kind.reg 0o644 (omega arith) _ refl;
          named = λ e. cc;
          plain_path = record { no_nul = refl; no_one = refl; no_two = refl; no_newline = refl };
          plain_dest = no_text;
        },
        (
          record {
            known = entry_ok Kind.lnk 0o777 (omega arith) _ refl;
            named = λ e. cc;
            plain_path = record { no_nul = refl; no_one = refl; no_two = refl; no_newline = refl };
            plain_dest = target;
          },
          (
            record {
              known = entry_ok Kind.reg 0o644 (omega arith) _ refl;
              named = λ e. cc;
              plain_path = record {
                no_nul = refl;
                no_one = refl;
                no_two = refl;
                no_newline = refl;
              };
              plain_dest = no_text;
            },
            tt,
          ),
        ),
      ),
    )

pub ascending : Ascending paths
unfolding find_depth count_byte strcmp
ascending = ground arith

pub catalog : IsCatalog (reader (mounted stale written))
catalog =
    mounted-IsCatalog files input_dir paths stale written filled all_entries printed ascending
      (λ b. refl) (rw longest_line (omega arith)) (omega arith)

pub few : (mounted stale written).catalog_len < 0x8000_0000
unfolding mounted getlines file_of print_fields type_letter d_type find_depth print_text target_at
few = omega arith

abbrev pub never_full : Filler
never_full = λ out x. false

-- Runs.
pub finds_file : bin_search (reader (mounted stale written)) (codes "/ln") ≡ ok (pos 2)
unfolding bin_search mounted leb_ℤ find_depth ◌+ℤ◌ ◌-ℤ◌ file_of print_fields type_letter d_type
    print_text target_at get_entry_depth_filepath get_entry_from_catalog to_int ◌*ℤ◌ calculate_mid
    half compare_ℤ get_entry_filepath sscanf c_string count_byte strcmp getlines longest
    pad_each_line beq_ℤ
finds_file = refl

misses : bin_search (reader (mounted stale written)) (codes "/b") ≡ ok (negsuc 0)
unfolding bin_search mounted leb_ℤ find_depth ◌+ℤ◌ ◌-ℤ◌ file_of print_fields type_letter d_type
    print_text target_at get_entry_depth_filepath get_entry_from_catalog to_int ◌*ℤ◌ calculate_mid
    half compare_ℤ get_entry_filepath sscanf c_string count_byte strcmp getlines longest
    pad_each_line beq_ℤ
misses = refl

target_read :
    catalog_readlink (mounted stale written) (codes "/ln") 4 ≡ ok (codes "a" ++ 0 ∷ 0 ∷ [])
unfolding catalog_readlink bin_search mounted leb_ℤ find_depth ◌+ℤ◌ ◌-ℤ◌ file_of print_fields
    type_letter d_type print_text target_at get_entry_depth_filepath get_entry_from_catalog to_int
    ◌*ℤ◌ calculate_mid half compare_ℤ get_entry_filepath sscanf c_string count_byte strcmp getlines
    longest pad_each_line beq_ℤ
target_read = refl

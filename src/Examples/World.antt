-- ===== src/Examples/World.antt =====
-- A world for the generator's `main`: the directory /r with a file and a directory of one file, told
-- apart by the lengths of their paths.
use catalog_file_system.Base.{
  ◌≡◌, refl, inl, inr, arith, true, Bool-cases, ◌==◌, ◌||◌, if◌then◌else◌, some, none, List, [],
  ◌∷◌, ◌++◌, length, Option, ok,
}
use catalog_file_system.Clib.Text.{Bytes, codes, has_byte, strcmp, count_byte}
use catalog_file_system.Catalogfs.Entry.{find_depth}
use catalog_file_system.Generate.Entry.{
  Files, print_fields, type_letter, d_type, print_text, target_at,
}
use catalog_file_system.Generate.Listing.{Dirent, System, filter}
use catalog_file_system.Generate.Tree.{Mallocs, found, breadth_first}
use catalog_file_system.Generate.Rounds.{Size, none_waits, directory}
use catalog_file_system.Generate.Order.{InOrder}
use catalog_file_system.Generate.Pad.{getlines, longest}
use catalog_file_system.Generate.Pad.Laws.{file_of}
use catalog_file_system.Generate.Main.{Disk, World}
use catalog_file_system.RoundTrip.Mode.{Kind}
use catalog_file_system.RoundTrip.File.{print_paths, AllEntries, texts, print_paths-texts}
use catalog_file_system.Examples.{stat_with, entry_ok, input_dir, filled}
use catalog_file_system.Examples.Tree.{system, system-Mallocs}

abbrev pub known_files : Files
known_files = record {
  lstat = λ path.
      let n = length path in some (stat_with (if (n == 4 || n == 7) then 0o100644 else 0o040755));
  readlink = λ path. none;
  stale_stat = stat_with 0;
  stale_link = [];
}

abbrev scanned : Bytes → Option (List Dirent)
scanned path =
    if length path == 2
    then some (
        record { d_type = 8; d_name = codes "a" } ∷ record { d_type = 4; d_name = codes "bb" } ∷ [])
    else if length path == 5
    then some (record { d_type = 8; d_name = codes "x" } ∷ [])
    else none

abbrev pub walked : System
walked = record { files = known_files; scandir = λ test path. scanned path; malloc = system.malloc }

abbrev pub world : World
world = record {
  sys = walked;
  stat = λ path. some (stat_with 0o040755);
  opens = λ path. true;
  renames = λ from to. true;
}

abbrev pub no_files : Disk
no_files = λ name. none

pub walked-Mallocs : Mallocs walked
walked-Mallocs = system-Mallocs

abbrev pub walk : List Bytes
walk = codes "/" ∷ codes "/a" ∷ codes "/bb" ∷ codes "/bb/" ∷ codes "/bb/x" ∷ []

pub walk_in_order : breadth_first 3 walked input_dir ([] ∷ []) ≡ ok walk
unfolding breadth_first
walk_in_order = refl

pub walked-Size : Size walked input_dir ([] ∷ []) 2
walked-Size = directory [] (directory (codes "/bb") none_waits none_waits) none_waits

pub walked-InOrder : (r : Bytes) → InOrder (found (walked.scandir filter (input_dir ++ r)))
unfolding count_byte strcmp
walked-InOrder r = elim (Bool-cases (length (input_dir ++ r) == 2)) [
  | inl top ↦
      rw top
        (λ e. cc, refl, ((refl, λ t t'. absurd (omega (arith, t))), tt), (λ e. cc, refl, tt, tt))
  | inr lower ↦ elim (Bool-cases (length (input_dir ++ r) == 5)) [
    | inl below ↦ rw (lower, below) (λ e. cc, refl, tt, tt)
    | inr elsewhere ↦ rw (lower, elsewhere) tt
  ]
]

pub walk-AllEntries : AllEntries known_files input_dir walk
unfolding has_byte target_at d_type
walk-AllEntries = (
  record {
    known = entry_ok Kind.dir 0o755 (omega arith) _ refl;
    named = λ e. cc;
    plain_path = record { no_nul = refl; no_one = refl; no_two = refl; no_newline = refl };
    plain_dest = record { no_nul = refl; no_one = refl; no_two = refl; no_newline = refl };
  },
  (
    record {
      known = entry_ok Kind.reg 0o644 (omega arith) _ refl;
      named = λ e. cc;
      plain_path = record { no_nul = refl; no_one = refl; no_two = refl; no_newline = refl };
      plain_dest = record { no_nul = refl; no_one = refl; no_two = refl; no_newline = refl };
    },
    (
      record {
        known = entry_ok Kind.dir 0o755 (omega arith) _ refl;
        named = λ e. cc;
        plain_path = record { no_nul = refl; no_one = refl; no_two = refl; no_newline = refl };
        plain_dest = record { no_nul = refl; no_one = refl; no_two = refl; no_newline = refl };
      },
      (
        record {
          known = entry_ok Kind.dir 0o755 (omega arith) _ refl;
          named = λ e. cc;
          plain_path = record { no_nul = refl; no_one = refl; no_two = refl; no_newline = refl };
          plain_dest = record { no_nul = refl; no_one = refl; no_two = refl; no_newline = refl };
        },
        (
          record {
            known = entry_ok Kind.reg 0o644 (omega arith) _ refl;
            named = λ e. cc;
            plain_path = record { no_nul = refl; no_one = refl; no_two = refl; no_newline = refl };
            plain_dest = record { no_nul = refl; no_one = refl; no_two = refl; no_newline = refl };
          },
          tt,
        ),
      ),
    ),
  ),
)

abbrev pub walk_written : Bytes
walk_written = file_of (texts known_files input_dir walk)

pub walk_printed : print_paths known_files input_dir [] walk ≡ ok walk_written
walk_printed = print_paths-texts known_files input_dir [] walk filled

pub walk_longest : longest 0 (getlines walk_written) ≡ 38
unfolding longest getlines file_of print_fields type_letter d_type find_depth print_text target_at
walk_longest = refl

-- ===== src/Catalogfsmount/Tools.antt =====
-- What the script relies on of the shell and of the programs that it calls.
use catalog_file_system.Base.{
  ℕ, suc, Bool, true, not, ◌&&◌, ◌||◌, ◌==◌, is_eq, leb, ◌*◌, ◌≡◌, ◌≢◌, Option, some, [], ◌∷◌,
  length, replicate, ℤ,
}
use catalog_file_system.Clib.Text.{Bytes, codes, count_byte, strcmp}
use catalog_file_system.Clib.Print.{print_natural}
use catalog_file_system.Catalogfsmount.{Commands}

-- The bytes at which the shell would split a value (tab, newline, blank), and those of a pattern.
abbrev pub is_special : ℕ → Bool
is_special b = b == 9 || b == 10 || b == 32 || b == b'*' || b == b'?' || b == b'[' || b == 92

abbrev pub is_plain : Bytes → Bool
is_plain [] = true
is_plain (b ∷ bs) = let rest = is_plain bs in not (is_special b) && rest

-- A name that begins with '/', as the script's comment asks, and is one word.
abbrev pub Absolute : Bytes → Type 0
Absolute name = (rest : Bytes) × (name ≡ b'/' ∷ rest) × (is_plain name ≡ true)

-- Letters, digits, '/', '.', '_' and '-', which `eval` reads as they are.
abbrev pub is_name_byte : ℕ → Bool
is_name_byte b =
    leb b'a' b && leb b b'z' || leb b'A' b && leb b b'Z' || leb b'-' b && leb b b'9' || b == b'_'

abbrev pub is_name : Bytes → Bool
is_name [] = true
is_name (b ∷ bs) = let rest = is_name bs in is_name_byte b && rest

-- A value that is not empty and has none of the special bytes is one word. `sort -u` keeps one of equal
-- lines, `wc -l` counts newlines, `ls -l` shows the number of bytes, `expr` adds and multiplies, with
-- `expr + TOKEN` the string TOKEN, `[` compares strings by `!=`, and
-- `eval` runs the command that the line says if the mount point is a plain absolute name.
pub record Documented (c : Commands) : Type 0 where
  pub one_word : (value : Bytes) → value ≢ [] → is_plain value ≡ true → c.expand value ≡ value ∷ []
  pub one_line : (n : ℕ) (z : ℤ) → c.sort_wc (replicate (suc n) z) ≡ 1
  pub newlines :
      (fopen : Bytes → Option Bytes) (name file : Bytes)
      → Absolute name
      → fopen name ≡ some file
      → c.wc fopen (name ∷ []) ≡ print_natural 10 (count_byte 10 file)
  pub bytes :
      (fopen : Bytes → Option Bytes) (name file : Bytes)
      → Absolute name
      → fopen name ≡ some file
      → c.ls fopen (name ∷ []) ≡ print_natural 10 (length file)
  pub token : c.expr (codes "+" ∷ codes "1" ∷ []) ≡ codes "1"
  pub sum :
      (n : ℕ) → c.expr (print_natural 10 n ∷ codes "+" ∷ codes "1" ∷ []) ≡ print_natural 10 (suc n)
  pub product :
      (n k : ℕ)
      → c.expr (print_natural 10 n ∷ codes "*" ∷ print_natural 10 k ∷ []) ≡ print_natural 10 (n * k)
  pub other : (s t : Bytes) → c.test (s ∷ codes "!=" ∷ t ∷ []) ≡ not (is_eq (strcmp s t))
  pub evaluated : (rest : Bytes) → is_name rest ≡ true → c.evals (b'/' ∷ rest) ≡ true

-- ===== src/Clib/Text.antt =====
-- C strings are lists of bytes without their closing NUL.
pub mod Count
pub mod Copy
pub mod Basename
pub mod Order
pub mod Splits
use Prim.Native.Char.{code}
use Prim.Native.String.{String}
use catalog_file_system.Base.{
  ℕ, zero, suc, ◌+◌, compare, Ordering, Bool, true, false, List, [], ◌∷◌, ◌++◌, ◌==◌, if◌then◌else◌,
}

abbrev pub Bytes : Type 0
Bytes = List ℕ

-- The bytes of an ASCII literal.
abbrev pub codes : String → Bytes
codes String.[] = []
codes (String.◌∷◌ c s) = code c ∷ codes s

-- The string that starts a buffer: what stands before its first NUL.
unfoldable pub c_string : Bytes → Bytes
c_string [] = []
c_string (b ∷ bs) = if b == 0 then [] else b ∷ c_string bs

-- Texts behind one another.
abbrev pub joined : List Bytes → Bytes
joined [] = []
joined (t ∷ ts) = t ++ joined ts

-- The sign of `strcmp`.
unfoldable pub strcmp : Bytes → Bytes → Ordering
strcmp [] [] = Ordering.eq
strcmp [] (_ ∷ _) = Ordering.lt
strcmp (_ ∷ _) [] = Ordering.gt
strcmp (x ∷ xs) (y ∷ ys) = elim (compare x y) [
  | Ordering.lt ↦ Ordering.lt
  | Ordering.eq ↦ strcmp xs ys
  | Ordering.gt ↦ Ordering.gt
]

-- The sign of `strncmp`, which reads at most `n` bytes.
unfoldable pub strncmp : Bytes → Bytes → ℕ → Ordering
strncmp xs ys zero = Ordering.eq
strncmp [] [] (suc n) = Ordering.eq
strncmp [] (_ ∷ _) (suc n) = Ordering.lt
strncmp (_ ∷ _) [] (suc n) = Ordering.gt
strncmp (x ∷ xs) (y ∷ ys) (suc n) = elim (compare x y) [
  | Ordering.lt ↦ Ordering.lt
  | Ordering.eq ↦ strncmp xs ys n
  | Ordering.gt ↦ Ordering.gt
]

-- `strncpy(buf, src, n)`: the `n` bytes that it writes, padded with NUL.
unfoldable pub strncpy : Bytes → ℕ → Bytes
strncpy src zero = []
strncpy [] (suc n) = 0 ∷ strncpy [] n
strncpy (b ∷ src) (suc n) = b ∷ strncpy src n

-- The number of bytes that are `b`.
unfoldable pub count_byte : ℕ → Bytes → ℕ
count_byte b [] = 0
count_byte b (c ∷ cs) = (if c == b then 1 else 0) + count_byte b cs

-- Whether a byte occurs.
unfoldable pub has_byte : ℕ → Bytes → Bool
has_byte b [] = false
has_byte b (c ∷ cs) = if c == b then true else has_byte b cs

-- The last byte of a string, 0 for the empty one.
unfoldable pub last_byte : Bytes → ℕ
last_byte [] = 0
last_byte (b ∷ []) = b
last_byte (b ∷ c ∷ cs) = last_byte (c ∷ cs)

-- GNU `basename`, the one that `string.h` declares under `_GNU_SOURCE`: what follows the last '/'.
unfoldable pub basename : Bytes → Bytes
unfolding has_byte
basename [] = []
basename (b ∷ bs) =
    let rest = basename bs in if has_byte b'/' bs then rest else if b == b'/' then bs else b ∷ bs

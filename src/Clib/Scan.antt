-- ===== src/Clib/Scan.antt =====
-- `sscanf`, for the directives that the catalog's format string has. A directive that does not
-- match ends the call, and the targets behind it keep what they held.
pub mod Printed
pub mod Sizes
use catalog_file_system.Base.{
  ℕ, ◌+◌, ◌-◌, ◌*◌, Bool, true, false, ◌||◌, ◌&&◌, Option, none, some, List, [], ◌∷◌, leb, ltb,
  ◌==◌, if◌then◌else◌, ℤ, pos, sub_ℕ,
}
use catalog_file_system.Clib.Text.{Bytes}

-- `isspace` of the C locale.
unfoldable pub is_space : ℕ → Bool
is_space c = c == b' ' || (leb 9 c && leb c 13)

unfoldable pub skip_spaces : Bytes → Bytes
unfolding is_space
skip_spaces [] = []
skip_spaces (c ∷ cs) = if is_space c then skip_spaces cs else c ∷ cs

-- Reads digits of the base behind the value `acc`. Numbers are not cut to a width here: a text
-- beyond the range of `long` is not one that the standard gives a meaning to.
unfoldable pub scan_digits : ℕ → ℕ → Bytes → ℕ × Bytes
scan_digits base acc [] = (acc, [])
scan_digits base acc (c ∷ cs) =
    let next = scan_digits base (acc * base + (c - b'0')) cs in
    if leb b'0' c && ltb c (b'0' + base) then next else (acc, c ∷ cs)

-- At least one digit is wanted.
unfoldable pub scan_natural : ℕ → Bytes → Option (ℕ × Bytes)
unfolding scan_digits
scan_natural base [] = none
scan_natural base (c ∷ cs) =
    if leb b'0' c && ltb c (b'0' + base) then some (scan_digits base (c - b'0') cs) else none

abbrev pub with_sign : Bool → Option (ℕ × Bytes) → Option (ℤ × Bytes)
with_sign negative none = none
with_sign false (some (n, rest)) = some (pos n, rest)
with_sign true (some (n, rest)) = some (sub_ℕ 0 n, rest)

unfoldable pub scan_signed : ℕ → Bytes → Option (ℤ × Bytes)
unfolding scan_natural
scan_signed base [] = none
scan_signed base (c ∷ cs) =
    if c == b'-'
    then with_sign true (scan_natural base cs)
    else if c == b'+'
    then with_sign false (scan_natural base cs)
    else with_sign false (scan_natural base (c ∷ cs))

-- `%ld`, `%lld`, `%d` (base 10) and `%lo` (base 8).
unfoldable pub scan_integer : ℕ → Bytes → Option (ℤ × Bytes)
unfolding skip_spaces scan_signed
scan_integer base cs = scan_signed base (skip_spaces cs)

-- The longest run without `stop`, and the rest.
unfoldable pub split_at : ℕ → Bytes → Bytes × Bytes
split_at stop [] = ([], [])
split_at stop (c ∷ cs) =
    let rest = split_at stop cs in if c == stop then ([], c ∷ cs) else (c ∷ rest.0, rest.1)

-- The longest run without a space, which `%s` takes, and the rest.
unfoldable pub split_word : Bytes → Bytes × Bytes
unfolding is_space
split_word [] = ([], [])
split_word (c ∷ cs) =
    let rest = split_word cs in if is_space c then ([], c ∷ cs) else (c ∷ rest.0, rest.1)

-- A directive of a format string over targets `S`: a conversion names the target that it sets.
pub data Directive (S : Type 0) : Type 0 where
  byte : (ℕ → S → S) → Directive S
  integer : ℕ → (ℤ → S → S) → Directive S
  until : ℕ → (Bytes → S → S) → Directive S
  spaces : Directive S
  literal : ℕ → Directive S
  skip_word : Directive S

module _ {S : Type 0} where
  abbrev pub set_integer : (ℤ → S → S) → S → Option (ℤ × Bytes) → Option (S × Bytes)
  set_integer f s none = none
  set_integer f s (some (z, rest)) = some (f z s, rest)

  -- `%[^x]` wants one byte at least.
  abbrev pub set_text : (Bytes → S → S) → S → Bytes × Bytes → Option (S × Bytes)
  set_text f s ([], rest) = none
  set_text f s (c ∷ cs, rest) = some (f (c ∷ cs) s, rest)

  -- `%*s` wants one byte at least, and sets nothing.
  abbrev pub skip_text : S → Bytes × Bytes → Option (S × Bytes)
  skip_text s ([], rest) = none
  skip_text s (c ∷ cs, rest) = some (s, rest)

  unfoldable pub scan_directive : Directive S → S → Bytes → Option (S × Bytes)
  unfolding scan_integer split_at split_word
  scan_directive (byte f) s [] = none
  scan_directive (byte f) s (c ∷ cs) = some (f c s, cs)
  scan_directive (integer base f) s cs = set_integer f s (scan_integer base cs)
  scan_directive (until stop f) s cs = set_text f s (split_at stop cs)
  scan_directive spaces s cs = some (s, skip_spaces cs)
  scan_directive (literal b) s [] = none
  scan_directive (literal b) s (c ∷ cs) = if c == b then some (s, cs) else none
  scan_directive skip_word s cs = skip_text s (split_word (skip_spaces cs))

  unfoldable pub sscanf : List (Directive S) → S → Bytes → S
  unfolding scan_directive
  sscanf [] s cs = s
  sscanf (d ∷ ds) s cs = elim (scan_directive d s cs) [
    | none ↦ s
    | some (s', rest) ↦ sscanf ds s' rest
  ]

  -- The conversions that set a target.
  abbrev assigns : Directive S → ℕ
  assigns (byte f) = 1
  assigns (integer base f) = 1
  assigns (until stop f) = 1
  assigns spaces = 0
  assigns (literal b) = 0
  assigns skip_word = 0

  -- What `sscanf` returns for an input that is not empty: the number of targets that it set.
  unfoldable pub sscanf_value : List (Directive S) → S → Bytes → ℕ
  unfolding scan_directive
  sscanf_value [] s cs = 0
  sscanf_value (d ∷ ds) s cs = elim (scan_directive d s cs) [
    | none ↦ 0
    | some (s', rest) ↦ assigns d + sscanf_value ds s' rest
  ]

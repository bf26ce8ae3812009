-- ===== src/Base/Int.antt =====
-- Signed integers over the native numbers: C's `int` and `long`, with the conversions between widths.
use Prim.Native.Nat.{ℕ, suc, ◌+◌, ◌-◌, ◌*◌, ◌/◌, ◌%◌, ◌^◌, ◌≤◌, ◌<◌, compare, Ordering}
use mathlib.Core.Path.{◌≡◌}
use mathlib.Core.Bool.{Bool, true, false}
use mathlib.Core.Logic.{◌≢◌}
use native.Mathlib.Omega.{arith}
use catalog_file_system.Base.Tests.{ltb, leb, is_eq, if◌then◌else◌}

-- `negsuc n` is -(n + 1).
pub data ℤ : Type 0 where
  pos : ℕ → ℤ
  negsuc : ℕ → ℤ

abbrev pub pos_part : ℤ → ℕ
pos_part (pos n) = n
pos_part (negsuc n) = 0

abbrev pub neg_part : ℤ → ℕ
neg_part (pos n) = 0
neg_part (negsuc n) = suc n

abbrev pub sub_ℕ : ℕ → ℕ → ℤ
sub_ℕ a b = if leb b a then pos (a - b) else negsuc (b - a - 1)

infixl 65 ◌+ℤ◌ ◌-ℤ◌
infixl 70 ◌*ℤ◌
infix 50 ◌≤ℤ◌ ◌<ℤ◌
unfoldable pub ◌+ℤ◌ : ℤ → ℤ → ℤ
a +ℤ b = sub_ℕ (pos_part a + pos_part b) (neg_part a + neg_part b)

unfoldable pub ◌-ℤ◌ : ℤ → ℤ → ℤ
a -ℤ b = sub_ℕ (pos_part a + neg_part b) (neg_part a + pos_part b)

unfoldable pub ◌*ℤ◌ : ℤ → ℤ → ℤ
a *ℤ b =
    sub_ℕ (pos_part a * pos_part b + neg_part a * neg_part b)
      (pos_part a * neg_part b + neg_part a * pos_part b)

abbrev pub ◌≤ℤ◌ : ℤ → ℤ → Type 0
a ≤ℤ b = pos_part a + neg_part b ≤ pos_part b + neg_part a

abbrev pub ◌<ℤ◌ : ℤ → ℤ → Type 0
a <ℤ b = pos_part a + neg_part b < pos_part b + neg_part a

unfoldable pub compare_ℤ : ℤ → ℤ → Ordering
compare_ℤ a b = compare (pos_part a + neg_part b) (pos_part b + neg_part a)

unfoldable pub ltb_ℤ : ℤ → ℤ → Bool
ltb_ℤ a b = ltb (pos_part a + neg_part b) (pos_part b + neg_part a)

unfoldable pub leb_ℤ : ℤ → ℤ → Bool
leb_ℤ a b = leb (pos_part a + neg_part b) (pos_part b + neg_part a)

unfoldable pub beq_ℤ : ℤ → ℤ → Bool
unfolding compare_ℤ
beq_ℤ a b = is_eq (compare_ℤ a b)

-- C's `z / 2`, which rounds towards zero.
unfoldable pub half : ℤ → ℤ
half (pos n) = pos (n / 2)
half (negsuc n) = if ltb n 1 then pos 0 else negsuc (suc n / 2 - 1)

-- The number of steps from 0 to `z`, and none below 0.
abbrev pub rounds : ℤ → ℕ
rounds = pos_part

-- Conversion to an unsigned type of `w` bits.
unfoldable pub to_unsigned : ℕ → ℤ → ℕ
to_unsigned w (pos n) = n % 2 ^ w
to_unsigned w (negsuc n) = 2 ^ w - 1 - n % 2 ^ w

-- Conversion to `int`, which keeps the low 32 bits.
unfoldable pub to_int : ℤ → ℤ
unfolding to_unsigned
to_int z = let u = to_unsigned 32 z in if ltb u 0x8000_0000 then pos u else negsuc (0xffff_ffff - u)

-- Conversion to `long`, which keeps the low 64 bits.
unfoldable pub to_long_int : ℤ → ℤ
unfolding to_unsigned
to_long_int z =
    let u = to_unsigned 64 z in
    if ltb u 0x8000_0000_0000_0000 then pos u else negsuc (0xffff_ffff_ffff_ffff - u)

pub eq_of_parts : (a b : ℤ) → pos_part a + neg_part b ≡ pos_part b + neg_part a → a ≡ b
eq_of_parts a b h = ground arith

pub eq_of_compare : (a b : ℤ) → compare_ℤ a b ≡ Ordering.eq → a ≡ b
unfolding compare_ℤ
eq_of_compare a b h = eq_of_parts a b (ground arith)

pub lt_of_compare : (a b : ℤ) → compare_ℤ a b ≡ Ordering.lt → a <ℤ b
unfolding compare_ℤ
lt_of_compare a b h = ground arith

pub gt_of_compare : (a b : ℤ) → compare_ℤ a b ≡ Ordering.gt → b <ℤ a
unfolding compare_ℤ
gt_of_compare a b h = ground arith

pub le_of_leb : (a b : ℤ) → leb_ℤ a b ≡ true → a ≤ℤ b
unfolding leb_ℤ
le_of_leb a b h = ground arith

pub eq_of_beq : (a b : ℤ) → beq_ℤ a b ≡ true → a ≡ b
unfolding beq_ℤ
eq_of_beq a b h = eq_of_parts a b (ground arith)

pub ne_of_beq : (a b : ℤ) → beq_ℤ a b ≡ false → a ≢ b
unfolding beq_ℤ
ne_of_beq a b h e = ground arith

pub to_int_small : (n : ℕ) → n < 0x8000_0000 → to_int (pos n) ≡ pos n
unfolding to_int
to_int_small n h = ground arith

pub pos_mul : (a b : ℕ) → pos a *ℤ pos b ≡ pos (a * b)
unfolding ◌*ℤ◌
pos_mul a b = ground arith

-- ===== src/Catalogfs/Search/Bounds.antt =====
-- The index arithmetic of `binSearch`. A range of indices is written with its first one and the one
-- behind its last, so that `high` is `below h` and never leaves -1 and up.
use catalog_file_system.Base.{
  ◌∙◌, sym, ap, refl, to_long_int, ◌≤◌, ℕ, zero, suc, ◌+◌, ◌-◌, ◌/◌, ◌<◌, ◌≡◌, arith, ltb, leb, ℤ,
  pos, negsuc, ◌+ℤ◌, ◌-ℤ◌, half, ltb_ℤ, leb_ℤ, rounds,
}
use catalog_file_system.Catalogfs.Search.{calculate_mid, calculate_mid_long}

-- h - 1
abbrev pub below : ℕ → ℤ
below zero = negsuc 0
below (suc h) = pos h

-- The middle of l, …, h - 1.
abbrev pub middle : ℕ → ℕ → ℕ
middle l h = l + (h - 1 - l) / 2

pub leb-below : (l h : ℕ) → leb_ℤ (pos l) (below h) ≡ ltb l h
unfolding leb_ℤ
leb-below l zero = ground arith
leb-below l (suc h) = ground arith

pub ltb-below : (h l : ℕ) → ltb_ℤ (below h) (pos l) ≡ leb h l
unfolding ltb_ℤ
ltb-below zero l = ground arith
ltb-below (suc h) l = ground arith

pub mid-below : (l h : ℕ) → l < h → calculate_mid (pos l) (below h) ≡ pos (middle l h)
unfolding calculate_mid ◌+ℤ◌ ◌-ℤ◌ half
mid-below l zero p = absurd (omega arith)
mid-below l (suc h) p = ground arith

pub pos-next : (j : ℕ) → pos j +ℤ pos 1 ≡ pos (suc j)
unfolding ◌+ℤ◌
pos-next j = ground arith

pub pos-prev : (j : ℕ) → pos j -ℤ pos 1 ≡ below j
unfolding ◌-ℤ◌
pos-prev zero = ground arith
pos-prev (suc j) = ground arith

pub below-next : (a : ℕ) → below a +ℤ pos 1 ≡ pos a
unfolding ◌+ℤ◌
below-next zero = ground arith
below-next (suc a) = ground arith

-- The rounds that each loop is given are enough.
pub rounds-below : (l h : ℕ) → rounds (below h -ℤ pos l +ℤ pos 2) ≡ h + 1 - l
unfolding ◌+ℤ◌ ◌-ℤ◌
rounds-below l zero = ground arith
rounds-below l (suc h) = ground arith

pub rounds-pos : (l j : ℕ) → rounds (pos j -ℤ pos l +ℤ pos 2) ≡ j + 2 - l
unfolding ◌+ℤ◌ ◌-ℤ◌
rounds-pos l j = ground arith

long_exact : (n : ℕ) → n < 0x8000_0000_0000_0000 → to_long_int (pos n) ≡ pos n
unfolding to_long_int
long_exact n h = ground arith

difference : (low high : ℕ) → low ≤ high → pos high -ℤ pos low ≡ pos (high - low)
unfolding ◌-ℤ◌
difference low high h = ground arith

half-pos : (n : ℕ) → half (pos n) ≡ pos (n / 2)
unfolding half
half-pos n = refl

pos-add : (a b : ℕ) → pos a +ℤ pos b ≡ pos (a + b)
unfolding ◌+ℤ◌
pos-add a b = ground arith

-- For any two indices that a `long` holds, the first not above the second, `calculateMid` in 64 bits
-- is what it is on integers, and is exactly the middle of the two, rounded down.
pub calculate_mid_long_exact :
    (low high : ℕ)
    → low ≤ high
    → high < 0x8000_0000_0000_0000
    → (calculate_mid_long (pos low) (pos high) ≡ calculate_mid (pos low) (pos high))
      × (calculate_mid_long (pos low) (pos high) ≡ pos ((low + high) / 2))
unfolding calculate_mid_long calculate_mid
calculate_mid_long_exact low high order fits =
    let d : high - low < 0x8000_0000_0000_0000 = omega (arith, fits) in
    let s : low + (high - low) / 2 < 0x8000_0000_0000_0000 = omega (arith, order, fits) in
    let e : low + (high - low) / 2 ≡ (low + high) / 2 = omega (arith, order) in
    let whole : calculate_mid_long (pos low) (pos high) ≡ pos (low + (high - low) / 2) =
      rw
        (
          difference low high order,
          long_exact (high - low) d,
          half-pos (high - low),
          pos-add low ((high - low) / 2),
        )
        (long_exact (low + (high - low) / 2) s) in
    let plain : calculate_mid (pos low) (pos high) ≡ pos (low + (high - low) / 2) =
      rw (difference low high order, half-pos (high - low)) (pos-add low ((high - low) / 2)) in
    (whole ∙ sym plain, whole ∙ ap pos e)

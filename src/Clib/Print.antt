-- ===== src/Clib/Print.antt =====
-- The conversions of `printf` that the sources use.
use catalog_file_system.Base.{
  ℕ, zero, suc, ◌+◌, ◌/◌, ◌%◌, [], ◌∷◌, ltb, if◌then◌else◌, ℤ, pos, negsuc,
}
use catalog_file_system.Clib.Text.{Bytes}

-- The digits of `n`, least significant last, in front of `out`. Each round divides by the base, so
-- `n + 1` rounds are enough in every base from 2.
unfoldable pub put_digits : ℕ → ℕ → ℕ → Bytes → Bytes
put_digits zero base n out = out
put_digits (suc k) base n out =
    let rest = put_digits k base (n / base) ((b'0' + n % base) ∷ out) in
    if ltb n base then (b'0' + n) ∷ out else rest

-- `%lo` (base 8) and `%ld` of a number that is not negative.
unfoldable pub print_natural : ℕ → ℕ → Bytes
unfolding put_digits
print_natural base n = put_digits (n + 1) base n []

-- `%ld`, `%lld` and `%d`.
unfoldable pub print_integer : ℤ → Bytes
unfolding print_natural
print_integer (pos n) = print_natural 10 n
print_integer (negsuc n) = b'-' ∷ print_natural 10 (suc n)

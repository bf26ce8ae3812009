-- ===== src/Clib/Text/Count.antt =====
-- Counting bytes, and the depth that counts the slashes of a path.
use catalog_file_system.Base.{ℕ, ◌+◌, ◌≡◌, arith, [], ◌∷◌, ◌++◌}
use catalog_file_system.Clib.Text.{Bytes, count_byte}

pub count_byte-append :
    (b : ℕ) (xs ys : Bytes) → count_byte b (xs ++ ys) ≡ count_byte b xs + count_byte b ys
unfolding count_byte
count_byte-append b [] ys = omega arith
count_byte-append b (x ∷ xs) ys = omega (arith, count_byte-append b xs ys)

-- ===== src/Clib/Text/Copy.antt =====
-- `strncpy`.
use catalog_file_system.Base.{
  zero, suc, ℕ, ◌≤◌, ◌≡◌, refl, ap, arith, [], ◌∷◌, ◌++◌, replicate, take,
}
use catalog_file_system.Clib.Text.{Bytes, strncpy}

strncpy-padded : (src : Bytes) (n k : ℕ) → n ≤ k → strncpy src n ≡ take n (src ++ replicate k 0)
unfolding strncpy
strncpy-padded src zero k h = refl
strncpy-padded [] (suc n) zero h = absurd (omega arith)
strncpy-padded [] (suc n) (suc k) h = ap (λ t. 0 ∷ t) (strncpy-padded [] n k (omega arith))
strncpy-padded (b ∷ bs) (suc n) k h = ap (λ t. b ∷ t) (strncpy-padded bs n k (omega arith))

-- The bytes written are the first `n` of the string with NUL bytes behind it.
pub strncpy_lem : (src : Bytes) (n : ℕ) → strncpy src n ≡ take n (src ++ replicate n 0)
strncpy_lem src n = strncpy-padded src n n (omega arith)

-- ===== src/Clib/Text/Basename.antt =====
-- `basename` of a path below a directory.
use catalog_file_system.Base.{ℕ, ◌≡◌, refl, true, false, arith, [], ◌∷◌, ◌++◌}
use catalog_file_system.Clib.Text.{Bytes, basename, count_byte, has_byte, last_byte}

no_byte : (b : ℕ) (xs : Bytes) → count_byte b xs ≡ 0 → has_byte b xs ≡ false
unfolding count_byte has_byte
no_byte b [] h = refl
no_byte b (x ∷ xs) h = ground (arith, no_byte b xs)

ends_with_byte :
    (b : ℕ) (x : ℕ) (xs ys : Bytes) → last_byte (x ∷ xs) ≡ b → has_byte b ((x ∷ xs) ++ ys) ≡ true
unfolding last_byte has_byte
ends_with_byte b x [] ys h = ground arith
ends_with_byte b x (y ∷ xs) ys h = ground (arith, ends_with_byte b y xs ys h)

-- A directory's path ends in '/', and the name that follows has none: `basename` is that name.
pub basename-append :
    (dir name : Bytes)
    → last_byte dir ≡ b'/'
    → count_byte b'/' name ≡ 0
    → basename (dir ++ name) ≡ name
unfolding basename last_byte
basename-append [] name h e = absurd (omega arith)
basename-append (b ∷ []) name h e = ground (arith, no_byte b'/' name e)
basename-append (b ∷ c ∷ cs) name h e =
    rw (ends_with_byte b'/' c cs name h, basename-append (c ∷ cs) name h e)

-- ===== src/RoundTrip/Lines.antt =====
-- The bytes of a printed line: no NUL and no newline but the one at its end.
use catalog_file_system.Base.{
  ℕ, zero, suc, ◌+◌, ◌/◌, ◌%◌, ◌≤◌, ◌<◌, ◌≡◌, refl, ◌∙◌, false, ◌||◌, arith, [], ◌∷◌, ◌++◌,
  append_assoc, ℤ, pos, negsuc,
}
use catalog_file_system.Clib.Text.{Bytes, has_byte, c_string}
use catalog_file_system.Clib.Print.{put_digits, print_natural, print_integer}
use catalog_file_system.Catalogfs.Mount.{Stat}
use catalog_file_system.Generate.Entry.{print_fields, to_long}

pub has_byte-append :
    (b : ℕ) (xs ys : Bytes) → has_byte b (xs ++ ys) ≡ (has_byte b xs || has_byte b ys)
unfolding has_byte
has_byte-append b [] ys = refl
has_byte-append b (x ∷ xs) ys = ground (arith, has_byte-append b xs ys)

digits_lack :
    (b k base n : ℕ) (out : Bytes)
    → b < 32
    → has_byte b out ≡ false
    → has_byte b (put_digits k base n out) ≡ false
unfolding put_digits has_byte
digits_lack b zero base n out low h = h
digits_lack b (suc k) base n out low h =
    ground (arith, digits_lack b k base (n / base) ((b'0' + n % base) ∷ out))

natural_lacks : (b base n : ℕ) → b < 32 → has_byte b (print_natural base n) ≡ false
unfolding print_natural has_byte
natural_lacks b base n low = digits_lack b (n + 1) base n [] low refl

integer_lacks : (b : ℕ) (z : ℤ) → b < 32 → has_byte b (print_integer z) ≡ false
unfolding print_integer has_byte
integer_lacks b (pos n) low = natural_lacks b 10 n low
integer_lacks b (negsuc n) low = ground (arith, natural_lacks b 10 (suc n) low)

-- One printed field, a space, and the rest.
field_lacks :
    (b : ℕ) (field rest : Bytes)
    → b < 32
    → has_byte b field ≡ false
    → has_byte b (field ++ (b' ' ∷ rest)) ≡ has_byte b rest
unfolding has_byte
field_lacks b field rest low h = ground (arith, has_byte-append b field (b' ' ∷ rest), h)

skip_letter :
    (b c : ℕ) (rest : Bytes) → b < 32 → 32 ≤ c → has_byte b (c ∷ b' ' ∷ rest) ≡ has_byte b rest
unfolding has_byte
skip_letter b c rest low high = ground arith

-- A control byte other than \\1 stands in a line only if it stands in the text.
pub print_fields-lacks :
    (b c mode : ℕ) (st : Stat) (depth : ℤ) (rest : Bytes)
    → b < 32
    → 32 ≤ c
    → has_byte b (print_fields c mode st depth rest) ≡ has_byte b (1 ∷ rest)
unfolding print_fields
print_fields-lacks b c mode st depth rest low high =
    skip_letter b c _ low high
    ∙ field_lacks b (print_natural 8 mode) _ low (natural_lacks b 8 mode low)
    ∙ field_lacks b (print_integer (to_long st.st_nlink)) _ low
        (integer_lacks b (to_long st.st_nlink) low)
    ∙ field_lacks b (print_integer (pos st.st_uid)) _ low (integer_lacks b (pos st.st_uid) low)
    ∙ field_lacks b (print_integer (pos st.st_gid)) _ low (integer_lacks b (pos st.st_gid) low)
    ∙ field_lacks b (print_integer st.st_size) _ low (integer_lacks b st.st_size low)
    ∙ field_lacks b (print_integer st.st_atime) _ low (integer_lacks b st.st_atime low)
    ∙ field_lacks b (print_integer st.st_mtime) _ low (integer_lacks b st.st_mtime low)
    ∙ field_lacks b (print_integer st.st_ctime) _ low (integer_lacks b st.st_ctime low)
    ∙ field_lacks b (print_integer depth) _ low (integer_lacks b depth low)

-- Text behind the fields stays behind them.
pub print_fields-append :
    (c mode : ℕ) (st : Stat) (depth : ℤ) (rest more : Bytes)
    → print_fields c mode st depth rest ++ more ≡ print_fields c mode st depth (rest ++ more)
unfolding print_fields
print_fields-append c mode st depth rest more = simp append_assoc

pub c_string-whole : (xs : Bytes) → has_byte 0 xs ≡ false → c_string xs ≡ xs
unfolding c_string has_byte
c_string-whole [] h = refl
c_string-whole (x ∷ xs) h = ground (arith, c_string-whole xs)

-- ===== src/RoundTrip/Mode.antt =====
-- File types and permission bits: `st_mode`, the letter and octal number in the catalog, and back.
use Prim.Native.Nat.{bit_and, bit_or}
use catalog_file_system.Base.{
  ℕ, ◌+◌, ◌*◌, ◌<◌, ◌≡◌, refl, Bool, true, ◌&&◌, arith, ◌==◌, passes_under, passes_under-at,
}
use catalog_file_system.Catalogfs.Entry.{type_bits}
use catalog_file_system.Generate.Entry.{d_type, type_letter}

-- The types of file that both programs know.
pub data Kind : Type 0 where
  fifo chr dir blk reg lnk sock : Kind

-- The number of a type in the upper bits of `st_mode`, `DT_…`.
abbrev pub number : Kind → ℕ
number fifo = 1
number chr = 2
number dir = 4
number blk = 6
number reg = 8
number lnk = 10
number sock = 12

abbrev check : ℕ → ℕ → Bool
check k p =
    (d_type (k * 4096 + p) == k)
    && ((bit_and (k * 4096 + p) 0o7777 == p)
        && (bit_or (type_bits (type_letter k)) p == k * 4096 + p))

checked : (k : Kind) → passes_under (check (number k)) 4096 ≡ true
unfolding passes_under d_type type_bits type_letter
checked fifo = refl
checked chr = refl
checked dir = refl
checked blk = refl
checked reg = refl
checked lnk = refl
checked sock = refl

-- For a type that both programs know and permissions below 4096, the generator takes the type and the
-- permissions out of `st_mode`, and the file system puts them together to the same number.
pub mode_back :
    (k : Kind) (p : ℕ)
    → p < 4096
    → (d_type (number k * 4096 + p) ≡ number k)
      × (bit_and (number k * 4096 + p) 0o7777 ≡ p)
      × (bit_or (type_bits (type_letter (number k))) p ≡ number k * 4096 + p)
mode_back k p h =
    let e = passes_under-at (check (number k)) 4096 (checked k) p h in ground (arith, e)

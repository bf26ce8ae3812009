-- ===== src/Catalogfsmount/Words.antt =====
-- The words that the script hands to the programs: the catalog's name and the numbers.
use catalog_file_system.Base.{
  ℕ, zero, suc, ◌+◌, ◌/◌, ◌%◌, ◌<◌, ◌≡◌, ◌≢◌, subst, refl, arith, dec_lt, true, false, ltb, [], ◌∷◌,
}
use catalog_file_system.Clib.Text.{Bytes}
use catalog_file_system.Clib.Print.{put_digits, print_natural}
use catalog_file_system.Catalogfsmount.{Commands}
use catalog_file_system.Catalogfsmount.Tools.{is_special, is_plain, Absolute, Documented}

digit-special : (d : ℕ) → d < 10 → is_special (b'0' + d) ≡ false
digit-special d h = ground arith

-- Digits, and nothing special.
record Number (s : Bytes) : Type 0 where
  filled : s ≢ []
  plain : is_plain s ≡ true

digit-Number : (d : ℕ) (s : Bytes) → d < 10 → is_plain s ≡ true → Number ((b'0' + d) ∷ s)
digit-Number d s h plain = record { filled = λ e. cc; plain = rw (digit-special d h, plain) refl }

put_digits-Number_round :
    (k n : ℕ) (out : Bytes)
    → is_plain out ≡ true
    → Number (put_digits k 10 (n / 10) ((b'0' + n % 10) ∷ out))
    → Number (put_digits (suc k) 10 n out)
unfolding put_digits
put_digits-Number_round k n out plain rest = elim (dec_lt n 10) [
  | no large ↦ let e : ltb n 10 ≡ false = ground arith in rw e rest
  | yes small ↦ let e : ltb n 10 ≡ true = ground arith in rw e (digit-Number n out small plain)
]

put_digits-Number :
    (k n : ℕ) (out : Bytes) → is_plain out ≡ true → Number (put_digits (suc k) 10 n out)
unfolding put_digits
put_digits-Number zero n out plain =
    put_digits-Number_round 0 n out plain (digit-Number (n % 10) out (omega arith) plain)
put_digits-Number (suc k) n out plain =
    let later = digit-Number (n % 10) out (omega arith) plain in
    put_digits-Number_round (suc k) n out plain
      (put_digits-Number k (n / 10) ((b'0' + n % 10) ∷ out) later.plain)

print_natural-Number : (n : ℕ) → Number (print_natural 10 n)
unfolding print_natural
print_natural-Number n =
    let e : suc n ≡ n + 1 = omega arith in
    subst (λ k. Number (put_digits k 10 n [])) e (put_digits-Number n n [] refl)

module _ (c : Commands) (tools : Documented c) where
  pub expand-print_natural : (n : ℕ) → c.expand (print_natural 10 n) ≡ print_natural 10 n ∷ []
  expand-print_natural n =
      let h = print_natural-Number n in tools.one_word (print_natural 10 n) h.filled h.plain

  pub expand-Absolute : (name : Bytes) → Absolute name → c.expand name ≡ name ∷ []
  expand-Absolute name (rest, e, plain) = tools.one_word name (λ empty. cc) plain

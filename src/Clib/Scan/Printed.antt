-- ===== src/Clib/Scan/Printed.antt =====
-- `sscanf` on what `printf` writes.
use native.Mathlib.Nat.{div-lt_self}
use catalog_file_system.Base.{
  ℕ, zero, suc, ◌+◌, ◌-◌, ◌*◌, ◌/◌, ◌%◌, ◌≤◌, ◌<◌, ◌≡◌, ◌≢◌, refl, ap, ◌∙◌, true, false, ◌&&◌,
  arith, dec_lt, Option, none, some, [], ◌∷◌, ◌++◌, List, leb, ltb, ◌==◌, ℤ, pos, negsuc,
}
use catalog_file_system.Clib.Text.{Bytes, has_byte}
use catalog_file_system.Clib.Print.{put_digits, print_natural, print_integer}
use catalog_file_system.Clib.Scan.{
  Directive, integer, until, spaces, skip_spaces, scan_digits, scan_natural, scan_signed,
  scan_integer, split_at, sscanf, with_sign, set_integer, set_text,
}

put_digits-append :
    (k base n : ℕ) (out rest : Bytes)
    → put_digits k base n out ++ rest ≡ put_digits k base n (out ++ rest)
unfolding put_digits
put_digits-append zero base n out rest = refl
put_digits-append (suc k) base n out rest =
    ground (arith, put_digits-append k base (n / base) ((b'0' + n % base) ∷ out) rest)

quotient_fits : (k base n : ℕ) → 2 ≤ base → base ≤ n → n < suc k → n / base < k
quotient_fits k base n big large h =
    let q : n / base < n = div-lt_self (omega arith) big in omega arith

-- The text begins with a digit.
abbrev Starts : ℕ → Bytes → Type 0
Starts base [] = ⊥
Starts base (c ∷ cs) = (b'0' ≤ c) × (c < b'0' + base)

put_digits-Starts :
    (k base n : ℕ) (out : Bytes) → 2 ≤ base → n < k → Starts base (put_digits k base n out)
unfolding put_digits
put_digits-Starts zero base n out big h = absurd (omega arith)
put_digits-Starts (suc k) base n out big h = elim (dec_lt n base) [
  | yes small ↦ let e : ltb n base ≡ true = ground arith in rw e (omega arith)
  | no large ↦
      let e : ltb n base ≡ false = ground arith in
      rw e (put_digits-Starts k base (n / base) _ big (quotient_fits k base n big (omega arith) h))
]

scan_digit :
    (base a d : ℕ) (cs : Bytes)
    → d < base
    → scan_digits base a ((b'0' + d) ∷ cs) ≡ scan_digits base (a * base + d) cs
unfolding scan_digits
scan_digit base a d cs h =
    let e : leb b'0' (b'0' + d) && ltb (b'0' + d) (b'0' + base) ≡ true = ground arith in
    let e' : b'0' + d - b'0' ≡ d = omega arith in rw (e, e')

scan_digits-put_digits :
    (k base n : ℕ) (out : Bytes)
    → 2 ≤ base
    → n < k
    → scan_digits base 0 (put_digits k base n out) ≡ scan_digits base n out
unfolding put_digits
scan_digits-put_digits zero base n out big h = absurd (omega arith)
scan_digits-put_digits (suc k) base n out big h = elim (dec_lt n base) [
  | yes small ↦
      let e : ltb n base ≡ true = ground arith in
      let e' : 0 * base + n ≡ n = omega arith in rw (e, scan_digit base 0 n out small, e')
  | no large ↦
      let e : ltb n base ≡ false = ground arith in
      let e' : n / base * base + n % base ≡ n = grind arith in
      rw (
        e,
        scan_digits-put_digits k base (n / base) ((b'0' + n % base) ∷ out) big
            (quotient_fits k base n big (omega arith) h),
        scan_digit base (n / base) (n % base) out (grind arith),
        e',
      )
]

head_spaces : (base : ℕ) (cs : Bytes) → base ≤ 10 → Starts base cs → skip_spaces cs ≡ cs
unfolding skip_spaces
head_spaces base [] small h = absurd h
head_spaces base (c ∷ cs) small h = ground arith

head_natural :
    (base : ℕ) (cs : Bytes)
    → base ≤ 10
    → Starts base cs
    → scan_natural base cs ≡ some (scan_digits base 0 cs)
unfolding scan_natural
head_natural base [] small h = absurd h
head_natural base (c ∷ cs) small h =
    let e : leb b'0' c && ltb c (b'0' + base) ≡ true = ground arith in
    let e' : 0 * base + (c - b'0') ≡ c - b'0' = omega arith in rw (e, e')

head_signed :
    (base : ℕ) (cs : Bytes)
    → base ≤ 10
    → Starts base cs
    → scan_signed base cs ≡ with_sign false (scan_natural base cs)
unfolding scan_signed
head_signed base [] small h = absurd h
head_signed base (c ∷ cs) small h =
    let e : (c == b'-') ≡ false = ground arith in
    let e' : (c == b'+') ≡ false = ground arith in rw (e, e')

scan_digits-stop : (base n : ℕ) (r : Bytes) → scan_digits base n (b' ' ∷ r) ≡ (n, b' ' ∷ r)
unfolding scan_digits
scan_digits-stop base n r = refl

printed_natural :
    (base n : ℕ) (r : Bytes)
    → 2 ≤ base
    → print_natural base n ++ (b' ' ∷ r) ≡ put_digits (n + 1) base n (b' ' ∷ r)
unfolding print_natural
printed_natural base n r big = put_digits-append (n + 1) base n [] (b' ' ∷ r)

scan-natural :
    (base n : ℕ) (r : Bytes)
    → 2 ≤ base
    → base ≤ 10
    → scan_natural base (print_natural base n ++ (b' ' ∷ r)) ≡ some (n, b' ' ∷ r)
scan-natural base n r big small =
    let starts = put_digits-Starts (n + 1) base n (b' ' ∷ r) big (omega arith) in
    rw (
      printed_natural base n r big,
      head_natural base _ small starts,
      scan_digits-put_digits (n + 1) base n (b' ' ∷ r) big (omega arith),
      scan_digits-stop,
    )

-- A number that `%lo` or `%ld` prints in front of a space is read back, and the space is left.
pub scan_integer-print_natural :
    (base n : ℕ) (r : Bytes)
    → 2 ≤ base
    → base ≤ 10
    → scan_integer base (print_natural base n ++ (b' ' ∷ r)) ≡ some (pos n, b' ' ∷ r)
unfolding scan_integer
scan_integer-print_natural base n r big small =
    let starts = put_digits-Starts (n + 1) base n (b' ' ∷ r) big (omega arith) in
    let e = printed_natural base n r big in
    rw (
      e,
      head_spaces base _ small starts,
      head_signed base _ small starts,
      ← e,
      scan-natural base n r big small,
    )

-- A text that is only the number is read back too.
pub scan_integer-whole : (n : ℕ) → scan_integer 10 (print_natural 10 n) ≡ some (pos n, [])
unfolding scan_integer print_natural scan_digits
scan_integer-whole n =
    let starts = put_digits-Starts (n + 1) 10 n [] (omega arith) (omega arith) in
    rw (
      head_spaces 10 _ (omega arith) starts,
      head_signed 10 _ (omega arith) starts,
      head_natural 10 _ (omega arith) starts,
      scan_digits-put_digits (n + 1) 10 n [] (omega arith) (omega arith),
    )

pub scan_integer-print_integer :
    (z : ℤ) (r : Bytes) → scan_integer 10 (print_integer z ++ (b' ' ∷ r)) ≡ some (z, b' ' ∷ r)
unfolding print_integer
scan_integer-print_integer (pos n) r = scan_integer-print_natural 10 n r (omega arith) (omega arith)
scan_integer-print_integer (negsuc n) r =
    unfold scan_integer in rw (scan-natural 10 (suc n) r (omega arith) (omega arith)) (ground arith)

skip_spaces-skip_spaces : (cs : Bytes) → skip_spaces (skip_spaces cs) ≡ skip_spaces cs
unfolding skip_spaces
skip_spaces-skip_spaces [] = refl
skip_spaces-skip_spaces (c ∷ cs) = ground (arith, skip_spaces-skip_spaces cs)

pub split_at-append :
    (b : ℕ) (t r : Bytes) → has_byte b t ≡ false → split_at b (t ++ b ∷ r) ≡ (t, b ∷ r)
unfolding split_at has_byte
split_at-append b [] r h = ground arith
split_at-append b (c ∷ cs) r h =
    let e : (c == b) ≡ false = ground arith in
    let ih = split_at-append b cs r (rw e at h) in rw (e, ih)

module _ {S : Type 0} where
  -- What `sscanf` does behind a directive.
  abbrev Rest : List (Directive S) → S → Option (S × Bytes) → S
  Rest ds s o = elim o [ none ↦ s | some (s', rest) ↦ sscanf ds s' rest ]

  -- A space and a number, for the directives " %ld" and the like.
  pub sscanf-integer :
      (base : ℕ) (f : ℤ → S → S) (ds : List (Directive S)) (s : S) (t r : Bytes) (z : ℤ)
      → scan_integer base t ≡ some (z, r)
      → sscanf (spaces ∷ integer base f ∷ ds) s (b' ' ∷ t) ≡ sscanf ds (f z s) r
  unfolding sscanf scan_integer
  sscanf-integer base f ds s t r z e =
      ap (λ cs. Rest ds s (set_integer f s (scan_signed base cs))) (skip_spaces-skip_spaces t)
      ∙ ap (λ o. Rest ds s (set_integer f s o)) e

  -- The text up to the separator \1.
  pub sscanf-until :
      (f : Bytes → S → S) (ds : List (Directive S)) (s : S) (t r : Bytes)
      → t ≢ []
      → has_byte 1 t ≡ false
      → sscanf (until 1 f ∷ ds) s (t ++ 1 ∷ r) ≡ sscanf ds (f t s) (1 ∷ r)
  unfolding sscanf has_byte
  sscanf-until f ds s [] r full h = absurd (full refl)
  sscanf-until f ds s (c ∷ cs) r full h =
      ap (λ p. Rest ds s (set_text f s p)) (split_at-append 1 (c ∷ cs) r h)

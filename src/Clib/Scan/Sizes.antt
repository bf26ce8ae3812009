-- ===== src/Clib/Scan/Sizes.antt =====
-- `sscanf`: how much of the input is left, and how long a text can be that it sets.
use catalog_file_system.Base.{
  ℕ, suc, ◌+◌, ◌-◌, ◌*◌, ◌<◌, ◌≤◌, ◌≡◌, refl, arith, Bool, true, false, ◌==◌, if◌then◌else◌, Option,
  none, some, List, [], ◌∷◌, length, ℤ,
}
use catalog_file_system.Clib.Text.{Bytes, c_string}
use catalog_file_system.Clib.Scan.{
  Directive, byte, integer, until, spaces, literal, skip_word, skip_spaces, scan_digits,
  scan_natural, scan_signed, scan_integer, split_at, split_word, with_sign, set_integer, set_text,
  skip_text, scan_directive, sscanf,
}

pub length-c_string : (bs : Bytes) → length (c_string bs) ≤ length bs
unfolding c_string
length-c_string [] = omega arith
length-c_string (b ∷ bs) = ground (arith, length-c_string bs)

length-skip_spaces : (cs : Bytes) → length (skip_spaces cs) ≤ length cs
unfolding skip_spaces
length-skip_spaces [] = omega arith
length-skip_spaces (c ∷ cs) = ground (arith, length-skip_spaces cs)

pub length-split_at :
    (stop : ℕ) (cs : Bytes) → length (split_at stop cs).0 + length (split_at stop cs).1 ≡ length cs
unfolding split_at
length-split_at stop [] = refl
length-split_at stop (c ∷ cs) = ground (arith, length-split_at stop cs)

length-split_word : (cs : Bytes) → length (split_word cs).1 ≤ length cs
unfolding split_word
length-split_word [] = omega arith
length-split_word (c ∷ cs) = ground (arith, length-split_word cs)

length-scan_digits : (base acc : ℕ) (cs : Bytes) → length (scan_digits base acc cs).1 ≤ length cs
unfolding scan_digits
length-scan_digits base acc [] = omega arith
length-scan_digits base acc (c ∷ cs) =
    ground (arith, length-scan_digits base (acc * base + (c - b'0')) cs)

-- What a scan leaves is at most `n` bytes.
abbrev Left : {A : Type 0} → ℕ → Option (A × Bytes) → Type 0
Left n none = Unit {0}
Left n (some (a, rest)) = length rest ≤ n

if-Left :
    {A : Type 0} (n : ℕ) (b : Bool) (x y : Option (A × Bytes))
    → Left n x
    → Left n y
    → Left n (if b then x else y)
if-Left n true x y h k = h
if-Left n false x y h k = k

Left-suc : {A : Type 0} (n : ℕ) (o : Option (A × Bytes)) → Left n o → Left (suc n) o
Left-suc n none h = tt
Left-suc n (some (a, rest)) h = omega (arith, h)

scan_natural-Left : (base : ℕ) (cs : Bytes) → Left (length cs) (scan_natural base cs)
unfolding scan_natural
scan_natural-Left base [] = tt
scan_natural-Left base (c ∷ cs) =
    if-Left (suc (length cs)) _ (some (scan_digits base (c - b'0') cs)) none
      (omega (arith, length-scan_digits base (c - b'0') cs)) tt

with_sign-Left :
    (n : ℕ) (negative : Bool) (o : Option (ℕ × Bytes)) → Left n o → Left n (with_sign negative o)
with_sign-Left n negative none h = tt
with_sign-Left n false (some (k, rest)) h = h
with_sign-Left n true (some (k, rest)) h = h

scan_signed-Left : (base : ℕ) (cs : Bytes) → Left (length cs) (scan_signed base cs)
unfolding scan_signed
scan_signed-Left base [] = tt
scan_signed-Left base (c ∷ cs) =
    let behind_sign : (negative : Bool)
        → Left (suc (length cs)) (with_sign negative (scan_natural base cs)) =
      λ negative.
        Left-suc (length cs) _
          (with_sign-Left (length cs) negative _ (scan_natural-Left base cs)) in
    if-Left (suc (length cs)) (c == b'-') _ _ (behind_sign true) (
      if-Left (suc (length cs)) (c == b'+') _ _ (behind_sign false)
        (with_sign-Left (suc (length cs)) false _ (scan_natural-Left base (c ∷ cs))))

Left-trans : {A : Type 0} (n k : ℕ) (o : Option (A × Bytes)) → n ≤ k → Left n o → Left k o
Left-trans n k none h l = tt
Left-trans n k (some (a, rest)) h l = omega (arith, h, l)

scan_integer-Left : (base : ℕ) (cs : Bytes) → Left (length cs) (scan_integer base cs)
unfolding scan_integer
scan_integer-Left base cs =
    Left-trans (length (skip_spaces cs)) (length cs) _ (length-skip_spaces cs)
      (scan_signed-Left base (skip_spaces cs))

-- A directive keeps `P` of the targets if it reads from less than `n` bytes.
unfoldable pub Guards : {S : Type 0} → ℕ → (S → Type 0) → Directive S → Type 0
Guards {S} n P (byte f) = (c : ℕ) (s : S) → P s → P (f c s)
Guards {S} n P (integer base f) = (z : ℤ) (s : S) → P s → P (f z s)
Guards {S} n P (until stop f) = (t : Bytes) (s : S) → length t < n → P s → P (f t s)
Guards {S} n P spaces = Unit {0}
Guards {S} n P (literal b) = Unit {0}
Guards {S} n P skip_word = Unit {0}

unfoldable pub AllGuards : {S : Type 0} → ℕ → (S → Type 0) → List (Directive S) → Type 0
unfolding Guards
AllGuards n P [] = Unit {0}
AllGuards n P (d ∷ ds) = Guards n P d × AllGuards n P ds

module _ {S : Type 0} (n : ℕ) (P : S → Type 0) where
  -- The targets after a directive, and the bytes that it leaves.
  abbrev Goes : Option (S × Bytes) → Type 0
  Goes none = Unit {0}
  Goes (some (s, rest)) = P s × (length rest < n)

  set_integer-Goes :
      (f : ℤ → S → S) (s : S) (k : ℕ) (o : Option (ℤ × Bytes))
      → ((z : ℤ) → P (f z s))
      → Left k o
      → k < n
      → Goes (set_integer f s o)
  set_integer-Goes f s k none h l lt = tt
  set_integer-Goes f s k (some (z, rest)) h l lt = (h z, omega (arith, l, lt))

  set_text-Goes :
      (f : Bytes → S → S) (s : S) (r : Bytes × Bytes)
      → ((t : Bytes) → length t < n → P (f t s))
      → length r.0 + length r.1 < n
      → Goes (set_text f s r)
  set_text-Goes f s ([], rest) h lt = tt
  set_text-Goes f s (c ∷ cs, rest) h lt = (h (c ∷ cs) (omega (arith, lt)), omega (arith, lt))

  skip_text-Goes : (s : S) (r : Bytes × Bytes) → P s → length r.1 < n → Goes (skip_text s r)
  skip_text-Goes s ([], rest) h lt = tt
  skip_text-Goes s (c ∷ cs, rest) h lt = (h, lt)

  if-Goes : (b : Bool) (x : Option (S × Bytes)) → Goes x → Goes (if b then x else none)
  if-Goes true x h = h
  if-Goes false x h = tt

  scan_directive-Goes :
      (d : Directive S) (s : S) (cs : Bytes)
      → Guards n P d
      → P s
      → length cs < n
      → Goes (scan_directive d s cs)
  unfolding scan_directive Guards
  scan_directive-Goes (byte f) s [] g h lt = tt
  scan_directive-Goes (byte f) s (c ∷ cs) g h lt = (g c s h, omega (arith, lt))
  scan_directive-Goes (integer base f) s cs g h lt =
      set_integer-Goes f s (length cs) (scan_integer base cs) (λ z. g z s h)
        (scan_integer-Left base cs) lt
  scan_directive-Goes (until stop f) s cs g h lt =
      set_text-Goes f s (split_at stop cs) (λ t short. g t s short h)
        (omega (arith, length-split_at stop cs, lt))
  scan_directive-Goes spaces s cs g h lt = (h, omega (arith, length-skip_spaces cs, lt))
  scan_directive-Goes (literal b) s [] g h lt = tt
  scan_directive-Goes (literal b) s (c ∷ cs) g h lt =
      if-Goes (c == b) (some (s, cs)) (h, omega (arith, lt))
  scan_directive-Goes skip_word s cs g h lt =
      skip_text-Goes s (split_word (skip_spaces cs)) h
        (omega (arith, length-split_word (skip_spaces cs), length-skip_spaces cs, lt))

  continues :
      (ds : List (Directive S)) (s : S) (o : Option (S × Bytes))
      → P s
      → Goes o
      → ((s' : S) (rest : Bytes) → P s' → length rest < n → P (sscanf ds s' rest))
      → P (elim o [ none ↦ s | some (s', rest) ↦ sscanf ds s' rest ])
  continues ds s none h k l = h
  continues ds s (some (s', rest)) h k l = l s' rest k.0 k.1

  pub sscanf-AllGuards :
      (ds : List (Directive S)) (s : S) (cs : Bytes)
      → AllGuards n P ds
      → P s
      → length cs < n
      → P (sscanf ds s cs)
  unfolding sscanf AllGuards
  sscanf-AllGuards [] s cs g h lt = h
  sscanf-AllGuards (d ∷ ds) s cs g h lt =
      continues ds s (scan_directive d s cs) h (scan_directive-Goes d s cs g.0 h lt)
        (λ s' rest k lt'. sscanf-AllGuards ds s' rest g.1 k lt')

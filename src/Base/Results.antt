-- ===== src/Base/Results.antt =====
-- What a C function does: it returns with its outputs, returns a negative code, or ends the process.
use Prim.Native.Nat.{ℕ}
use mathlib.Core.Path.{◌≡◌, refl}
use mathlib.Core.Logic.{◌≢◌}

-- `err e` is the return value -e. `out_of_fuel` is a loop that was given too few rounds.
pub data Outcome {ℓ} (A : Type ℓ) : Type ℓ where
  ok : A → Outcome A
  err : ℕ → Outcome A
  exit : Outcome A
  out_of_fuel : Outcome A

infixl 5 ◌>>=◌
abbrev pub ◌>>=◌ {ℓ κ} : {A : Type ℓ} {B : Type κ} → Outcome A → (A → Outcome B) → Outcome B
ok a >>= f = f a
err e >>= f = err e
exit >>= f = exit
out_of_fuel >>= f = out_of_fuel

-- `if (ret < 0) return r;` after a call: every error code is answered by one result.
abbrev pub on_error {ℓ} : {A : Type ℓ} → Outcome A → Outcome A → Outcome A
on_error (ok a) r = ok a
on_error (err e) r = r
on_error exit r = exit
on_error out_of_fuel r = out_of_fuel

-- A call that has rounds enough in all its loops.
abbrev pub Halts {ℓ} : {A : Type ℓ} → Outcome A → Type ℓ
Halts {A} o = ◌≢◌ {A = Outcome A} o out_of_fuel

pub Halts-bind {ℓ κ} :
    {A : Type ℓ} {B : Type κ} (o : Outcome A) (f : A → Outcome B)
    → Halts o
    → ((a : A) → o ≡ ok a → Halts (f a))
    → Halts (o >>= f)
Halts-bind (ok a) f h k = k a refl
Halts-bind (err e) f h k = λ b. cc
Halts-bind exit f h k = λ b. cc
Halts-bind out_of_fuel f h k = λ b. h refl

pub Halts-on_error {ℓ} : {A : Type ℓ} (o r : Outcome A) → Halts o → Halts r → Halts (on_error o r)
Halts-on_error (ok a) r h k = h
Halts-on_error (err e) r h k = k
Halts-on_error exit r h k = λ b. cc
Halts-on_error out_of_fuel r h k = λ b. h refl

pub result_of_bind {ℓ κ} :
    {A : Type ℓ} {B : Type κ} (o : Outcome A) (f : A → B) {b : B}
    → ◌≡◌ {A = Outcome B} (o >>= λ a. ok (f a)) (ok b)
    → (a : A) × (◌≡◌ {A = Outcome A} o (ok a)) × (◌≡◌ {A = B} (f a) b)
result_of_bind (ok a) f h = (a, refl, cc)
result_of_bind (err e) f h = cc
result_of_bind exit f h = cc
result_of_bind out_of_fuel f h = cc

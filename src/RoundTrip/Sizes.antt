-- ===== src/RoundTrip/Sizes.antt =====
-- catalogfsmount: the test of the size of a catalog file.
use catalog_file_system.Base.{
  is_eq, not, ℕ, zero, suc, ◌*◌, ◌≤◌, ◌≡◌, ◌≢◌, refl, sym, ap, ◌∙◌, arith, inl, inr, Ordering-cases,
  if◌then◌else◌, List, ◌∷◌, ◌++◌, pos,
}
use catalog_file_system.Clib.Text.{Bytes, codes, strcmp}
use catalog_file_system.Clib.Text.Order.{strcmp_refl, strcmp-eq}
use catalog_file_system.Clib.Print.{print_natural}
use catalog_file_system.Catalogfs.Main.{Environment, start, atol}
use catalog_file_system.Catalogfsmount.{Commands, Result, unexpected_size, called, check_size}
use catalog_file_system.Catalogfsmount.Tools.{Documented}
use catalog_file_system.Catalogfsmount.Words.{expand-print_natural}
use catalog_file_system.RoundTrip.Start.{atol-print_natural}

print_natural_injective : (n k : ℕ) → print_natural 10 n ≡ print_natural 10 k → n ≡ k
print_natural_injective n k e =
    let same : pos n ≡ pos k = sym (atol-print_natural n) ∙ ap atol e ∙ atol-print_natural k in cc

-- The test of two sizes, each of which is one word.
module _ (c : Commands) (tools : Documented c) (env : Environment) where
  abbrev Checked : List Bytes → Result
  Checked ws = if c.test ws then unexpected_size else called (start env)

  check_size-numbers :
      (n k : ℕ)
      → check_size c (print_natural 10 n) (print_natural 10 k) env ≡ (
          if not (is_eq (strcmp (print_natural 10 n) (print_natural 10 k)))
          then unexpected_size
          else called (start env))
  unfolding check_size
  check_size-numbers n k =
      (λ i.
        Checked
          (expand-print_natural c tools n i ++ (codes "!=" ∷ expand-print_natural c tools k i)))
      ∙ ap (λ b. if b then unexpected_size else called (start env))
          (tools.other (print_natural 10 n) (print_natural 10 k))

  pub check_size-same :
      (n : ℕ) → check_size c (print_natural 10 n) (print_natural 10 n) env ≡ called (start env)
  check_size-same n = check_size-numbers n n ∙ rw (strcmp_refl (print_natural 10 n)) refl

  pub check_size-other :
      (n k : ℕ)
      → n ≢ k
      → check_size c (print_natural 10 n) (print_natural 10 k) env ≡ unexpected_size
  check_size-other n k other =
      check_size-numbers n k
      ∙ elim (Ordering-cases (strcmp (print_natural 10 n) (print_natural 10 k))) [
        | inl less ↦ rw less refl
        | inr (inl equal) ↦ absurd (other (print_natural_injective n k (strcmp-eq _ _ equal)))
        | inr (inr greater) ↦ rw greater refl
      ]

mul_le : (n k : ℕ) → 13 ≤ k → suc n * 13 ≤ suc n * k
mul_le n k l = grind arith

pub products_differ : (n k : ℕ) → 1 ≤ n → 13 ≤ k → n * k ≢ n * 1
products_differ zero k h l = absurd (omega (arith, h))
products_differ (suc n) k h l =
    λ e. let more : suc n * 13 ≤ suc n * k = mul_le n k l in omega (arith, e, more)

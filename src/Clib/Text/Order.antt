-- ===== src/Clib/Text/Order.antt =====
-- The order of `strcmp`, and prefixes by `strncmp`.
use catalog_file_system.Base.{
  ◌≡◌, ◌≢◌, refl, inl, inr, arith, compare, Ordering, Ordering-cases, [], ◌∷◌, ◌++◌, length,
}
use catalog_file_system.Clib.Text.{Bytes, strcmp, strncmp}

pub strcmp_refl : (xs : Bytes) → strcmp xs xs ≡ Ordering.eq
unfolding strcmp
strcmp_refl [] = refl
strcmp_refl (x ∷ xs) = ground (arith, strcmp_refl xs)

pub strcmp-eq : (xs ys : Bytes) → strcmp xs ys ≡ Ordering.eq → xs ≡ ys
unfolding strcmp
strcmp-eq [] [] h = refl
strcmp-eq [] (y ∷ ys) h = cc
strcmp-eq (x ∷ xs) [] h = cc
strcmp-eq (x ∷ xs) (y ∷ ys) h = ground (arith, strcmp-eq xs ys)

pub strcmp-lt_gt : (xs ys : Bytes) → strcmp xs ys ≡ Ordering.lt → strcmp ys xs ≡ Ordering.gt
unfolding strcmp
strcmp-lt_gt [] [] h = cc
strcmp-lt_gt [] (y ∷ ys) h = refl
strcmp-lt_gt (x ∷ xs) [] h = cc
strcmp-lt_gt (x ∷ xs) (y ∷ ys) h = ground (arith, strcmp-lt_gt xs ys)

pub strcmp_trans :
    (xs ys zs : Bytes)
    → strcmp xs ys ≡ Ordering.lt
    → strcmp ys zs ≡ Ordering.lt
    → strcmp xs zs ≡ Ordering.lt
unfolding strcmp
strcmp_trans [] [] zs h k = cc
strcmp_trans [] (y ∷ ys) [] h k = cc
strcmp_trans [] (y ∷ ys) (z ∷ zs) h k = refl
strcmp_trans (x ∷ xs) [] zs h k = cc
strcmp_trans (x ∷ xs) (y ∷ ys) [] h k = cc
strcmp_trans (x ∷ xs) (y ∷ ys) (z ∷ zs) h k = ground (arith, strcmp_trans xs ys zs)

-- `strncmp dir p (length dir)` is zero exactly on the strings that begin with `dir`.
pub strncmp-append : (dir rest : Bytes) → strncmp dir (dir ++ rest) (length dir) ≡ Ordering.eq
unfolding strncmp
strncmp-append [] rest = refl
strncmp-append (x ∷ xs) rest = ground (arith, strncmp-append xs rest)

pub append_of_strncmp :
    (dir p : Bytes) → strncmp dir p (length dir) ≡ Ordering.eq → (rest : Bytes) × (p ≡ dir ++ rest)
unfolding strncmp
append_of_strncmp [] p h = (p, refl)
append_of_strncmp (x ∷ xs) [] h = cc
append_of_strncmp (x ∷ xs) (y ∷ ys) h = elim (Ordering-cases (compare x y)) [
  | inl lt ↦ absurd (ground (arith, lt))
  | inr (inl same) ↦
      let (rest, e) = append_of_strncmp xs ys (ground (arith, same)) in
      (rest, ground (arith, same, e))
  | inr (inr gt) ↦ absurd (ground (arith, gt))
]

-- A string between a prefix and a string with that prefix has the prefix.
pub prefix_between :
    (dir q p : Bytes)
    → strcmp dir q ≡ Ordering.lt
    → strcmp q p ≡ Ordering.lt
    → strncmp dir p (length dir) ≡ Ordering.eq
    → strncmp dir q (length dir) ≡ Ordering.eq
unfolding strcmp strncmp
prefix_between [] q p h k e = refl
prefix_between (x ∷ xs) [] p h k e = cc
prefix_between (x ∷ xs) (y ∷ ys) [] h k e = cc
prefix_between (x ∷ xs) (y ∷ ys) (z ∷ zs) h k e = ground (arith, prefix_between xs ys zs)

-- No string with the prefix stands in front of the prefix itself.
pub prefix_first :
    (dir p : Bytes) → strncmp dir p (length dir) ≡ Ordering.eq → strcmp p dir ≢ Ordering.lt
unfolding strcmp strncmp
prefix_first [] [] e = λ b. cc
prefix_first [] (y ∷ ys) e = λ b. cc
prefix_first (x ∷ xs) [] e = λ b. cc
prefix_first (x ∷ xs) (y ∷ ys) e = ground (arith, prefix_first xs ys)

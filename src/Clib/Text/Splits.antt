-- ===== src/Clib/Text/Splits.antt =====
-- Strings that differ within both: whatever is put behind them, `strcmp` tells them apart there.
use catalog_file_system.Base.{ℕ, dec_lt, subst, ◌<◌, ◌≡◌, ◌≢◌, refl, arith, Ordering, [], ◌∷◌, ◌++◌}
use catalog_file_system.Clib.Text.{Bytes, strcmp, count_byte}

-- The first byte in which they differ is less in the first string.
pub data Splits : Bytes → Bytes → Type 0 where
  here : {x y : ℕ} {xs ys : Bytes} → x < y → Splits (x ∷ xs) (y ∷ ys)
  there : (x : ℕ) {xs ys : Bytes} → Splits xs ys → Splits (x ∷ xs) (x ∷ ys)

pub Splits-append : (us vs : Bytes) {xs ys : Bytes} → Splits xs ys → Splits (xs ++ us) (ys ++ vs)
Splits-append us vs (here lt) = here lt
Splits-append us vs (there x s) = there x (Splits-append us vs s)

pub Splits-prefix : (ps : Bytes) {xs ys : Bytes} → Splits xs ys → Splits (ps ++ xs) (ps ++ ys)
Splits-prefix [] s = s
Splits-prefix (p ∷ ps) s = there p (Splits-prefix ps s)

pub Splits-strcmp : {xs ys : Bytes} → Splits xs ys → strcmp xs ys ≡ Ordering.lt
unfolding strcmp
Splits-strcmp (here lt) = ground (arith, lt)
Splits-strcmp (there x s) = ground (arith, Splits-strcmp s)

pub strcmp-prefix :
    (ps xs ys : Bytes) → strcmp xs ys ≡ Ordering.lt → strcmp (ps ++ xs) (ps ++ ys) ≡ Ordering.lt
unfolding strcmp
strcmp-prefix [] xs ys h = h
strcmp-prefix (p ∷ ps) xs ys h = ground (arith, strcmp-prefix ps xs ys)

pub strcmp-longer : (ps xs : Bytes) → xs ≢ [] → strcmp ps (ps ++ xs) ≡ Ordering.lt
unfolding strcmp
strcmp-longer [] [] h = absurd (h refl)
strcmp-longer [] (x ∷ xs) h = refl
strcmp-longer (p ∷ ps) xs h = ground (arith, strcmp-longer ps xs)

-- Names without '/' in them that are in order with '/' behind them.
pub strcmp-Splits :
    (xs ys : Bytes)
    → count_byte b'/' xs ≡ 0
    → count_byte b'/' ys ≡ 0
    → strcmp (xs ++ b'/' ∷ []) (ys ++ b'/' ∷ []) ≡ Ordering.lt
    → Splits (xs ++ b'/' ∷ []) (ys ++ b'/' ∷ [])
unfolding strcmp count_byte
strcmp-Splits [] [] h k e = cc
strcmp-Splits [] (y ∷ ys) h k e = let lt : b'/' < y = ground arith in here lt
strcmp-Splits (x ∷ xs) [] h k e = let lt : x < b'/' = ground arith in here lt
strcmp-Splits (x ∷ xs) (y ∷ ys) h k e = elim (dec_lt x y) [
  | yes lt ↦ here lt
  | no ge ↦
      let same : x ≡ y = ground arith in
      let rest : strcmp (xs ++ b'/' ∷ []) (ys ++ b'/' ∷ []) ≡ Ordering.lt = ground arith in
      let plain : count_byte b'/' xs ≡ 0 = ground arith in
      let plain' : count_byte b'/' ys ≡ 0 = ground arith in
      subst (λ t. Splits (x ∷ (xs ++ b'/' ∷ [])) (t ∷ (ys ++ b'/' ∷ []))) same
        (there x (strcmp-Splits xs ys plain plain' rest))
]

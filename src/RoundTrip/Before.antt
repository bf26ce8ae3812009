-- ===== src/RoundTrip/Before.antt =====
-- generate_catalog.c and catalogfs.c: when one path stands before another, by the directories that they
-- are in.
use catalog_file_system.Base.{
  suc, ◌≤◌, ◌<◌, ◌≡◌, ◌⊎◌, inl, inr, sym, ap, ◌∙◌, subst, arith, true, if◌then◌else◌, negsuc, ◌==◌,
  ==_iff, Ordering, [], ◌∷◌, ◌++◌, append_assoc, pos, pos_part,
}
use catalog_file_system.Clib.Text.{Bytes, strcmp, count_byte}
use catalog_file_system.Clib.Text.Splits.{Splits, Splits-append, Splits-strcmp, strcmp-prefix}
use catalog_file_system.Catalogfs.Entry.{find_depth}
use catalog_file_system.Catalogfs.Search.Listed.{Before}
use catalog_file_system.Generate.Order.{slashes, closed, slashes-below, Rooted}

abbrev pub Plain : Bytes → Type 0
Plain x = count_byte b'/' x ≡ 0

pub depth_below :
    (r x : Bytes) → Rooted r → Plain x → find_depth (r ++ b'/' ∷ x) ≡ pos (suc (slashes r))
unfolding find_depth
depth_below [] x rooted plain = ap pos (slashes-below [] x plain)
depth_below (b ∷ bs) x rooted plain =
    let slash : (b == b'/') ≡ true = (==_iff b b'/').1 rooted in
    ap (λ t. if t then pos (slashes ((b ∷ bs) ++ b'/' ∷ x)) else negsuc 0) slash
    ∙ ap pos (slashes-below (b ∷ bs) x plain)

-- What is in `q` is printed after what is in `r`.
abbrev pub Later : Bytes → Bytes → Type 0
Later r q = (slashes r < slashes q) ⊎ ((slashes r ≡ slashes q) × Splits (closed r) (closed q))

Before-below :
    (r q x y : Bytes)
    → Rooted r
    → Rooted q
    → Plain x
    → Plain y
    → slashes r ≤ slashes q
    → (slashes r ≡ slashes q → strcmp (r ++ b'/' ∷ x) (q ++ b'/' ∷ y) ≡ Ordering.lt)
    → Before (r ++ b'/' ∷ x) (q ++ b'/' ∷ y)
Before-below r q x y rooted rooted' plain plain' le split =
    let d = depth_below r x rooted plain in
    let d' = depth_below q y rooted' plain' in
    (
      rw (d, d') (omega (arith, le)),
      λ same.
          let parts : pos_part (pos (suc (slashes r))) ≡ pos_part (pos (suc (slashes q))) =
            ap pos_part (sym d ∙ same ∙ d') in
          split (omega (arith, parts)),
    )

pub Later-Before :
    (r q x y : Bytes)
    → Rooted r
    → Rooted q
    → Plain x
    → Plain y
    → Later r q
    → Before (r ++ b'/' ∷ x) (q ++ b'/' ∷ y)
Later-Before r q x y rooted rooted' plain plain' (inl lt) =
    Before-below r q x y rooted rooted' plain plain' (omega (arith, lt))
      (λ same. absurd (omega (arith, lt, same)))
Later-Before r q x y rooted rooted' plain plain' (inr (same, s)) =
    Before-below r q x y rooted rooted' plain plain' (omega (arith, same)) (λ e.
      subst (λ t. strcmp t (q ++ b'/' ∷ y) ≡ Ordering.lt) (append_assoc r (b'/' ∷ []) x)
        (subst (λ t. strcmp (closed r ++ x) t ≡ Ordering.lt) (append_assoc q (b'/' ∷ []) y)
          (Splits-strcmp (Splits-append x y s))))

pub sibling-Before :
    (r x y : Bytes)
    → Rooted r
    → Plain x
    → Plain y
    → strcmp x y ≡ Ordering.lt
    → Before (r ++ b'/' ∷ x) (r ++ b'/' ∷ y)
unfolding strcmp
sibling-Before r x y rooted plain plain' lt =
    Before-below r r x y rooted rooted plain plain' (omega arith)
      (λ e. strcmp-prefix r (b'/' ∷ x) (b'/' ∷ y) (strcmp-prefix (b'/' ∷ []) x y lt))

-- ===== src/Catalogfs/Search/Listed.antt =====
-- catalogfs.c: the search's precondition for a catalog whose paths are given as a list.
use catalog_file_system.Base.{
  ℕ, zero, suc, ◌≤◌, ◌<◌, ◌≡◌, sym, ◌∙◌, subst, arith, dec_lt, Ordering, some, List, [], ◌∷◌,
  length, get_elem?-below, get_elem?, ℤ, pos, ◌≤ℤ◌, Outcome, ok,
}
use catalog_file_system.Clib.Text.{Bytes, strcmp}
use catalog_file_system.Catalogfs.Entry.{find_depth}
use catalog_file_system.Catalogfs.Reader.{Reader}
use catalog_file_system.Catalogfs.Search.Ends.{Row}
use catalog_file_system.Catalogfs.Search.Correct.{IsCatalog}

-- `p` may stand before `q`: it is less deep, or as deep and less by `strcmp`.
abbrev pub Before : Bytes → Bytes → Type 0
Before p q =
    (find_depth p ≤ℤ find_depth q) × (find_depth p ≡ find_depth q → strcmp p q ≡ Ordering.lt)

abbrev pub BeforeAll : Bytes → List Bytes → Type 0
BeforeAll p [] = Unit {0}
BeforeAll p (q ∷ qs) = Before p q × BeforeAll p qs

-- The paths begin with '/' and ascend.
abbrev pub Ascending : List Bytes → Type 0
Ascending [] = Unit {0}
Ascending (p ∷ ps) = (pos 1 ≤ℤ find_depth p) × BeforeAll p ps × Ascending ps

get_elem?-BeforeAll :
    (p : Bytes) (qs : List Bytes) (j : ℕ) {q : Bytes}
    → BeforeAll p qs
    → get_elem? qs j ≡ some q
    → Before p q
get_elem?-BeforeAll p [] j h e = cc
get_elem?-BeforeAll p (x ∷ xs) zero {q} h e = let same : x ≡ q = cc in subst (Before p) same h.0
get_elem?-BeforeAll p (x ∷ xs) (suc j) h e = get_elem?-BeforeAll p xs j h.1 e

pub get_elem?-Ascending :
    (ps : List Bytes) (i j : ℕ) {p q : Bytes}
    → Ascending ps
    → i < j
    → get_elem? ps i ≡ some p
    → get_elem? ps j ≡ some q
    → Before p q
get_elem?-Ascending [] i j h lt e e' = cc
get_elem?-Ascending (x ∷ xs) i zero h lt e e' = absurd (omega arith)
get_elem?-Ascending (x ∷ xs) zero (suc j) {p} {q} h lt e e' =
    let same : x ≡ p = cc in subst (λ t. Before t q) same (get_elem?-BeforeAll x xs j h.1 e')
get_elem?-Ascending (x ∷ xs) (suc i) (suc j) h lt e e' =
    get_elem?-Ascending xs i j h.2 (omega arith) e e'

depths_ascend :
    (ps : List Bytes) (i j : ℕ) {p q : Bytes}
    → Ascending ps
    → i ≤ j
    → get_elem? ps i ≡ some p
    → get_elem? ps j ≡ some q
    → find_depth p ≤ℤ find_depth q
depths_ascend ps i j {p} {q} h le e e' = elim (dec_lt i j) [
  | yes lt ↦ (get_elem?-Ascending ps i j h lt e e').0
  | no ge ↦
      let same : i ≡ j = omega arith in
      let same' : p ≡ q = cc in subst (λ t. find_depth p ≤ℤ find_depth t) same' (omega arith)
]

get_elem?-deep :
    (ps : List Bytes) (i : ℕ) {p : Bytes}
    → Ascending ps
    → get_elem? ps i ≡ some p
    → pos 1 ≤ℤ find_depth p
get_elem?-deep [] i h e = cc
get_elem?-deep (x ∷ xs) zero {p} h e =
    let same : x ≡ p = cc in subst (λ t. pos 1 ≤ℤ find_depth t) same h.0
get_elem?-deep (x ∷ xs) (suc i) h e = get_elem?-deep xs i h.2 e

module _ (m : Reader) (ps : List Bytes) (len : m.catalog_len ≡ length ps)
    (few : length ps ≤ 0x8000_0000) (order : Ascending ps)
    (rows : (i : ℕ) (p : Bytes)
      → i < length ps
      → get_elem? ps i ≡ some p
      → Row m i (find_depth p) p) where
  -- What any location below the length reads as.
  reads_as :
      (i : ℕ) (d : ℤ) (p : Bytes)
      → i < m.catalog_len
      → Row m i d p
      → (get_elem? ps i ≡ some p) × (d ≡ find_depth p)
  reads_as i d p inside row =
      let i_in : i < length ps = subst (λ n. i < n) len inside in
      let (q, found) = get_elem?-below ps i i_in in
      let same : ◌≡◌ {A = Outcome (ℤ × Bytes)} (ok (d, p)) (ok (find_depth q, q)) =
        sym row ∙ rows i q i_in found in
      let path : p ≡ q = cc in let depth : d ≡ find_depth q = cc in (cc, cc)

  pub listed-IsCatalog : IsCatalog m
  listed-IsCatalog = record {
    readable = λ i inside.
        let i_in : i < length ps = subst (λ n. i < n) len inside in
        let (q, found) = get_elem?-below ps i i_in in ((find_depth q, q), rows i q i_in found);
    small = subst (λ n. n ≤ 0x8000_0000) (sym len) few;
    depths = λ i d p inside row.
        let (found, depth) = reads_as i d p inside row in
        (depth, subst (λ t. pos 1 ≤ℤ t) (sym depth) (get_elem?-deep ps i order found));
    depth_sorted = λ i j d d' p p' le inside row row'.
        let (found, depth) = reads_as i d p (omega arith) row in
        let (found', depth') = reads_as j d' p' inside row' in
        subst (λ t. t ≤ℤ d') (sym depth)
          (subst (λ t. find_depth p ≤ℤ t) (sym depth')
            (depths_ascend ps i j order le found found'));
    path_sorted = λ i j d p p' lt inside row row'.
        let (found, depth) = reads_as i d p (omega arith) row in
        let (found', depth') = reads_as j d p' inside row' in
        (get_elem?-Ascending ps i j order lt found found').1 (sym depth ∙ depth');
  }

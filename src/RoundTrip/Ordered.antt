-- ===== src/RoundTrip/Ordered.antt =====
-- generate_catalog.c and catalogfs.c: the order of the paths that the walk prints.
use catalog_file_system.Base.{
  All, All-append, All-map, ℕ, zero, suc, ◌≡◌, ◌≢◌, inl, inr, refl, subst, arith, Ordering, List,
  [], ◌∷◌, ◌++◌, ok, result_of_bind,
}
use catalog_file_system.Clib.Text.{Bytes, strcmp, count_byte}
use catalog_file_system.Catalogfs.Search.Listed.{Before, BeforeAll, Ascending}
use catalog_file_system.Generate.Listing.{Dirent, System, filter}
use catalog_file_system.Generate.Tree.{contents, subdirectories, found, breadth_first}
use catalog_file_system.Generate.Order.{
  InOrder, NamedBefore, closed, slashes-below, WaitsBefore, Rooted, Waiting, plain_names,
  subdirectories-All, Waiting-round,
}
use catalog_file_system.RoundTrip.Before.{Plain, depth_below, Later, Later-Before, sibling-Before}

strcmp-first : (x : Bytes) → x ≢ [] → strcmp [] x ≡ Ordering.lt
unfolding strcmp
strcmp-first [] filled = absurd (filled refl)
strcmp-first (x ∷ xs) filled = refl

BeforeAll-append :
    (p : Bytes) (xs ys : List Bytes) → BeforeAll p xs → BeforeAll p ys → BeforeAll p (xs ++ ys)
BeforeAll-append p [] ys h k = k
BeforeAll-append p (x ∷ xs) ys h k = (h.0, BeforeAll-append p xs ys h.1 k)

abbrev PlainName : Dirent → Type 0
PlainName ent = Plain ent.d_name

contents-BeforeAll :
    (p q : Bytes) (entries : List Dirent)
    → All (λ ent. Before p (q ++ b'/' ∷ ent.d_name)) entries
    → BeforeAll p (contents q entries)
contents-BeforeAll p q [] h = tt
contents-BeforeAll p q (ent ∷ rest) h = (h.0, contents-BeforeAll p q rest h.1)

-- The entries of `q` stand behind what is in `r`.
entries_behind :
    (r q x : Bytes) (entries : List Dirent)
    → Rooted r
    → Rooted q
    → Plain x
    → Later r q
    → InOrder entries
    → BeforeAll (r ++ b'/' ∷ x) (contents q entries)
entries_behind r q x entries rooted rooted' plain later ordered =
    contents-BeforeAll (r ++ b'/' ∷ x) q entries (
      All-map PlainName (λ ent. Before (r ++ b'/' ∷ x) (q ++ b'/' ∷ ent.d_name)) entries
        (λ ent plain'. Later-Before r q x ent.d_name rooted rooted' plain plain' later)
        (plain_names entries ordered))

Later-below : (r q name : Bytes) → Plain name → Later r q → Later r (q ++ b'/' ∷ name)
Later-below r q name plain (inl lt) = inl (omega (arith, lt, slashes-below q name plain))
Later-below r q name plain (inr (same, s)) = inl (omega (arith, same, slashes-below q name plain))

round_behind :
    (r q : Bytes) (rs : List Bytes) (entries : List Dirent)
    → Later r q
    → All (Later r) rs
    → InOrder entries
    → All (Later r) (rs ++ subdirectories q entries)
round_behind r q rs entries later laters ordered =
    All-append (Later r) rs (subdirectories q entries) laters (
      subdirectories-All (Later r) q entries (
        All-map PlainName (λ ent. ent.d_type ≡ 4 → Later r (q ++ b'/' ∷ ent.d_name)) entries
          (λ ent plain is_dir. Later-below r q ent.d_name plain later)
          (plain_names entries ordered)))

-- The directories that wait behind `r`, and its own subdirectories, are printed after what is in it.
WaitsBefore-Later : (r q : Bytes) → WaitsBefore r q → Later r q
WaitsBefore-Later r q (inl same) = inr same
WaitsBefore-Later r q (inr (deeper, s)) = inl (omega (arith, deeper))

subdirectories-Later :
    (r : Bytes) (entries : List Dirent) → InOrder entries → All (Later r) (subdirectories r entries)
subdirectories-Later r entries ordered = subdirectories-All (Later r) r entries (
    All-map PlainName (λ ent. ent.d_type ≡ 4 → Later r (r ++ b'/' ∷ ent.d_name)) entries
      (λ ent plain is_dir. inl (omega (arith, slashes-below r ent.d_name plain)))
      (plain_names entries ordered))

-- The entries of one directory ascend, with '/' in front of them.
own_contents :
    (r : Bytes) (entries : List Dirent)
    → Rooted r
    → InOrder entries
    → BeforeAll (closed r) (contents r entries)
own_contents r [] rooted ordered = tt
own_contents r (ent ∷ rest) rooted (filled, plain, before, ordered) = (
  sibling-Before r [] ent.d_name rooted (unfold count_byte in refl) plain
      (strcmp-first ent.d_name filled),
  own_contents r rest rooted ordered,
)

siblings-Before :
    (r : Bytes) (ent : Dirent) (rest : List Dirent)
    → Rooted r
    → Plain ent.d_name
    → All (NamedBefore ent) rest
    → All PlainName rest
    → BeforeAll (r ++ b'/' ∷ ent.d_name) (contents r rest)
siblings-Before r ent [] rooted plain before plains = tt
siblings-Before r ent (other ∷ rest) rooted plain before plains = (
  sibling-Before r ent.d_name other.d_name rooted plain plains.0 before.0.0,
  siblings-Before r ent rest rooted plain before.1 plains.1,
)

contents-Ascending :
    (r : Bytes) (entries : List Dirent) (rest : List Bytes)
    → Rooted r
    → InOrder entries
    → ((x : Bytes) → Plain x → BeforeAll (r ++ b'/' ∷ x) rest)
    → Ascending rest
    → Ascending (contents r entries ++ rest)
contents-Ascending r [] rest rooted ordered behind h = h
contents-Ascending r (ent ∷ ents) rest rooted (filled, plain, before, ordered) behind h = (
  rw (depth_below r ent.d_name rooted plain) (omega arith),
  BeforeAll-append (r ++ b'/' ∷ ent.d_name) (contents r ents) rest
      (siblings-Before r ent ents rooted plain before (plain_names ents ordered))
      (behind ent.d_name plain),
  contents-Ascending r ents rest rooted ordered behind h,
)

module _ (sys : System) (dir : Bytes)
    (ordered : (r : Bytes) → InOrder (found (sys.scandir filter (dir ++ r)))) where
  abbrev entries : Bytes → List Dirent
  entries r = found (sys.scandir filter (dir ++ r))

  outputs_behind :
      (k : ℕ) (r x : Bytes) (rs : List Bytes) {ps : List Bytes}
      → Rooted r
      → Plain x
      → All (Later r) rs
      → Waiting rs
      → breadth_first k sys dir rs ≡ ok ps
      → BeforeAll (r ++ b'/' ∷ x) ps
  unfolding breadth_first
  outputs_behind zero r x rs rooted plain later waiting e = cc
  outputs_behind (suc k) r x [] {ps} rooted plain later waiting e =
      let same : [] ≡ ps = cc in subst (BeforeAll (r ++ b'/' ∷ x)) same tt
  outputs_behind (suc k) r x (q ∷ rs) {ps} rooted plain later waiting e =
      let (t, e', same) =
        result_of_bind (breadth_first k sys dir (rs ++ subdirectories q (entries q)))
          (λ t. closed q ∷ (contents q (entries q) ++ t)) e in
      subst (BeforeAll (r ++ b'/' ∷ x)) same (
        Later-Before r q x [] rooted waiting.0 plain (unfold count_byte in refl) later.0,
        BeforeAll-append (r ++ b'/' ∷ x) (contents q (entries q)) t
            (entries_behind r q x (entries q) rooted waiting.0 plain later.0 (ordered q))
            (outputs_behind k r x (rs ++ subdirectories q (entries q)) rooted plain
              (round_behind r q rs (entries q) later.0 later.1 (ordered q))
              (Waiting-round q rs (entries q) waiting (ordered q)) e'),
      )

  walk-Ascending :
      (k : ℕ) (rs : List Bytes) {ps : List Bytes}
      → Waiting rs
      → breadth_first k sys dir rs ≡ ok ps
      → Ascending ps
  unfolding breadth_first
  walk-Ascending zero rs waiting e = cc
  walk-Ascending (suc k) [] {ps} waiting e = let same : [] ≡ ps = cc in subst Ascending same tt
  walk-Ascending (suc k) (r ∷ rs) {ps} (rooted, before, waiting) e =
      let (t, e', same) =
        result_of_bind (breadth_first k sys dir (rs ++ subdirectories r (entries r)))
          (λ t. closed r ∷ (contents r (entries r) ++ t)) e in
      let waiting' = Waiting-round r rs (entries r) (rooted, before, waiting) (ordered r) in
      let later =
        All-append (Later r) rs (subdirectories r (entries r))
          (All-map (WaitsBefore r) (Later r) rs (WaitsBefore-Later r) before)
          (subdirectories-Later r (entries r) (ordered r)) in
      let behind = λ (x : Bytes) (plain : Plain x).
        outputs_behind k r x (rs ++ subdirectories r (entries r)) rooted plain later waiting' e' in
      let none_in : Plain [] = unfold count_byte in refl in
      subst Ascending same (
        rw (depth_below r [] rooted none_in) (omega arith),
        BeforeAll-append (closed r) (contents r (entries r)) t
            (own_contents r (entries r) rooted (ordered r)) (behind [] none_in),
        contents-Ascending r (entries r) t rooted (ordered r) behind
            (walk-Ascending k (rs ++ subdirectories r (entries r)) waiting' e'),
      )

  -- Let `scandir` give the entries of each directory ascending by `strcmp`, with names that are not
  -- empty and hold no '/', and let two directories beside one another ascend also when '/'
  -- is put behind their names. Then the paths that are printed for the tree ascend, by depth and, at
  -- one depth, by `strcmp`.
  pub breadth_first-Ascending :
      (k : ℕ) (ps : List Bytes) → breadth_first k sys dir ([] ∷ []) ≡ ok ps → Ascending ps
  breadth_first-Ascending k ps e = walk-Ascending k ([] ∷ []) (tt, tt, tt) e

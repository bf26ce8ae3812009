-- ===== src/Catalogfs/Search/Correct.antt =====
-- catalogfs.c: what `binSearch` returns.
use catalog_file_system.Base.{
  ℕ, ◌<◌, ◌≤◌, ◌≡◌, ◌≢◌, refl, sym, subst, ap, ◌∙◌, ◌⊎◌, inl, inr, Bool-cases, arith, ℤ, pos,
  negsuc, ◌≤ℤ◌, leb_ℤ, to_int, to_int_small, le_of_leb, Outcome, ok, err, exit, out_of_fuel,
  on_error, ◌>>=◌,
}
use catalog_file_system.Clib.Text.{Bytes}
use catalog_file_system.Catalogfs.Reader.{Reader}
use catalog_file_system.Catalogfs.Entry.{find_depth}
use catalog_file_system.Catalogfs.Search.{bin_search}
use catalog_file_system.Catalogfs.Search.Ends.{
  Row, Readable, DepthSorted, PathSorted, Ends, returns, bind, recover, mono, Ends-total, Ends-ok,
  Ends-post,
}
use catalog_file_system.Catalogfs.Search.Parts.{search_all-Ends}

-- What `binSearch` reads and returns if the catalog is one that it is meant for: every entry reads,
-- an `int` holds its index, its depth is that of its path, and the entries ascend by depth and, at
-- one depth, by path.
pub record IsCatalog (m : Reader) : Type 0 where
  pub readable : Readable m
  pub small : m.catalog_len ≤ 0x8000_0000
  pub depths :
      (i : ℕ) (d : ℤ) (p : Bytes)
      → i < m.catalog_len
      → Row m i d p
      → (d ≡ find_depth p) × (pos 1 ≤ℤ d)
  pub depth_sorted : DepthSorted m
  pub path_sorted : PathSorted m

-- `o` is the location of the entry with this path, or -1 if the catalog has none.
abbrev pub Locates : Reader → Bytes → Outcome ℤ → Type 0
Locates m path o =
    ((i : ℕ) × (i < m.catalog_len) × (o ≡ ok (pos i)) × Row m i (find_depth path) path)
    ⊎ ((o ≡ ok (negsuc 0)) × ((i : ℕ) (d : ℤ) → i < m.catalog_len → ¬ Row m i d path))

-- What is known of the result in any catalog.
abbrev Result : Reader → Bytes → ℤ → Type 0
Result m path z =
    ((w : ℤ) × (z ≡ to_int w)
      × (((j : ℕ) × (j < m.catalog_len) × (w ≡ pos j) × Row m j (find_depth path) path)
          ⊎ ((w ≡ negsuc 0)
              × (Readable m
                  → DepthSorted m
                  → PathSorted m
                  → (i : ℕ) → i < m.catalog_len
                  → ¬ Row m i (find_depth path) path))))
    ⊎ ((z ≡ negsuc 0) × (find_depth path ≤ℤ pos 0))

bin_search-Ends : (m : Reader) (path : Bytes) → Ends m (Result m path) (bin_search m path)
unfolding bin_search
bin_search-Ends m path = elim (Bool-cases (leb_ℤ (find_depth path) (pos 0))) [
  | inl shallow ↦ rw shallow (returns _ (inr (refl, le_of_leb (find_depth path) (pos 0) shallow)))
  | inr deep ↦ rw deep (
      bind
        (recover
          (mono (search_all-Ends m (find_depth path) path)
            (λ w. elim [ inl f ↦ inl f | inr (e, none) ↦ inr (e, λ _. none) ]))
          (λ u. returns _ (inr (refl, λ readable. absurd (u readable)))))
        (λ w a. returns _ (inl (w, refl, a))))
]

-- `binSearch` returns for every catalog file and every path: its loops end, whatever the file holds.
pub bin_search_total : (m : Reader) (path : Bytes) → bin_search m path ≢ out_of_fuel
bin_search_total m path = Ends-total (bin_search-Ends m path)

recovered :
    (o : Outcome ℤ) (e : ℕ)
    → ◌≢◌ {A = Outcome ℤ} (on_error o (ok (negsuc 0)) >>= λ r. ok (to_int r)) (err e)
recovered (ok a) e = λ b. cc
recovered (err k) e = λ b. cc
recovered exit e = λ b. cc
recovered out_of_fuel e = λ b. cc

to_int-le : (j i : ℕ) → to_int (pos j) ≡ pos i → i ≤ j
unfolding to_int
to_int-le j i e = ground arith

inside_of_Result :
    (m : Reader) (path : Bytes) (z : ℤ) (i : ℕ) → z ≡ pos i → Result m path z → i < m.catalog_len
unfolding to_int
inside_of_Result m path z i e (inr (e', low)) = cc
inside_of_Result m path z i e (inl (w, e', inr (minus, none))) =
    let e'' : to_int w ≡ negsuc 0 = ap to_int minus in cc
inside_of_Result m path z i e (inl (w, e', inl (j, inside, found, row))) =
    omega (arith, to_int-le j i (sym (ap to_int found) ∙ sym e' ∙ e))

-- A location that `binSearch` returns is below the catalog's length, also if an `int` cannot hold
-- every index.
pub bin_search_inside :
    (m : Reader) (path : Bytes) (i : ℕ) → bin_search m path ≡ ok (pos i) → i < m.catalog_len
bin_search_inside m path i e =
    inside_of_Result m path (pos i) i refl (Ends-post (bin_search-Ends m path) e)

-- It has no error code of its own.
pub bin_search-ne-err : (m : Reader) (path : Bytes) (e : ℕ) → bin_search m path ≢ err e
unfolding bin_search
bin_search-ne-err m path e = elim (Bool-cases (leb_ℤ (find_depth path) (pos 0))) [
  | inl shallow ↦ rw shallow (λ b. cc)
  | inr deep ↦ rw deep (recovered _ e)
]

sound_of_Result :
    (m : Reader) (path : Bytes) (z : ℤ) (i : ℕ)
    → m.catalog_len ≤ 0x8000_0000
    → z ≡ pos i
    → Result m path z
    → (i < m.catalog_len) × Row m i (find_depth path) path
unfolding to_int
sound_of_Result m path z i small e (inr (e', low)) = cc
sound_of_Result m path z i small e (inl (w, e', inr (minus, none))) =
    let e'' : to_int w ≡ negsuc 0 = ap to_int minus in cc
sound_of_Result m path z i small e (inl (w, e', inl (j, inside, found, row))) =
    let e'' : to_int w ≡ pos j = ap to_int found ∙ to_int_small j (omega arith) in
    let same : pos j ≡ pos i = sym e'' ∙ sym e' ∙ e in
    let same' : j ≡ i = cc in (omega arith, subst (λ t. Row m t (find_depth path) path) same' row)

-- If an `int` can hold the indices, a location that `binSearch` returns is below the catalog's
-- length, and the entry there reads as the path and its depth, in a sorted catalog and in any other.
pub bin_search_sound :
    (m : Reader) (path : Bytes) (i : ℕ)
    → m.catalog_len ≤ 0x8000_0000
    → bin_search m path ≡ ok (pos i)
    → (i < m.catalog_len) × Row m i (find_depth path) path
bin_search_sound m path i small e =
    sound_of_Result m path (pos i) i small refl (Ends-post (bin_search-Ends m path) e)

located_of_Result :
    (m : Reader) (path : Bytes) (z : ℤ) (o : Outcome ℤ)
    → IsCatalog m
    → o ≡ ok z
    → Result m path z
    → Locates m path o
unfolding to_int
located_of_Result m path z o cat e (inr (minus, low)) = inr (
  e ∙ ap ok minus,
  λ i d inside row.
      let (same, positive) = cat.depths i d path inside row in
      let positive' = subst (λ t. pos 1 ≤ℤ t) same positive in omega arith,
)
located_of_Result m path z o cat e (inl (w, e', inr (minus, none))) = inr (
  e ∙ ap ok (e' ∙ ap to_int minus),
  λ i d inside row.
      none cat.readable cat.depth_sorted cat.path_sorted i inside
        (subst (λ t. Row m i t path) (cat.depths i d path inside row).0 row),
)
located_of_Result m path z o cat e (inl (w, e', inl (j, inside, found, row))) =
    inl
      (j, inside, e ∙ ap ok (e' ∙ ap to_int found ∙ to_int_small j (omega (arith, cat.small))), row)

-- In a catalog that is sorted as the search supposes, `binSearch` returns the location of the entry
-- with the given path, and -1 exactly when no entry has it.
pub bin_search-Locates :
    (m : Reader) (path : Bytes) → IsCatalog m → Locates m path (bin_search m path)
bin_search-Locates m path cat =
    let (z, e, r) = Ends-ok cat.readable (bin_search-Ends m path) in
    located_of_Result m path z (bin_search m path) cat e r

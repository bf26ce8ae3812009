-- ===== src/Binsearch/Search/Equal.antt =====
-- binsearchinfile.c and catalogfs.c: the loops of the two searches, on what the first program reads.
use catalog_file_system.Base.{
  ℕ, zero, suc, ◌+◌, ◌≡◌, ◌≢◌, refl, ap, true, false, arith, Ordering, [], ◌∷◌, ◌==◌, if◌then◌else◌,
  ℤ, pos, negsuc, ◌+ℤ◌, ◌-ℤ◌, beq_ℤ, compare_ℤ, ltb_ℤ, leb_ℤ, Outcome, ok, out_of_fuel, ◌>>=◌,
}
use catalog_file_system.Clib.Text.{Bytes, strcmp, count_byte}
use catalog_file_system.Catalogfs.Entry
use catalog_file_system.Catalogfs.Reader.{Reader, path_at}
use catalog_file_system.Catalogfs.Search
use catalog_file_system.Catalogfs.Search.{Cursor}
use catalog_file_system.Binsearch.Entry.{
  Disk, catalog_len, count_slashes, find_depth, get_entry_from_catalog, get_entry_depth_filepath,
  get_entry_file_path,
}
use catalog_file_system.Binsearch.Search.{
  calculate_mid, find_index_loop, lowest_loop, highest_loop, find_path_loop,
}

pub entry-not_out_of_fuel : (d : Disk) (z : ℤ) → get_entry_depth_filepath d z ≢ out_of_fuel
unfolding get_entry_depth_filepath get_entry_from_catalog
entry-not_out_of_fuel d z = ground arith

-- The reading of this program, for the search of the file system.
abbrev pub reader : Disk → Reader
reader d = record {
  catalog_len = catalog_len;
  stale_mid = d.stale_mid;
  entry_at = get_entry_depth_filepath d;
  entry_at_ends = entry-not_out_of_fuel d;
}

count_slashes-add : (bs : Bytes) (count : ℕ) → count_slashes bs count ≡ count + count_byte b'/' bs
unfolding count_slashes count_byte
count_slashes-add [] count = omega arith
count_slashes-add (b ∷ bs) count =
    ground (arith, count_slashes-add bs (if b == b'/' then count + 1 else count))

pub find_depth_same : (path : Bytes) → find_depth path ≡ Entry.find_depth path
unfolding find_depth Entry.find_depth
find_depth_same [] = refl
find_depth_same (b ∷ bs) = rw (count_slashes-add (b ∷ bs) 0) (ground arith)

calculate_mid_same : (low high : ℤ) → calculate_mid low high ≡ Search.calculate_mid low high
unfolding calculate_mid Search.calculate_mid
calculate_mid_same low high = refl

module _ (d : Disk) (s : ℤ) where
  -- One round of `find_index`, over what the rest of the loop does.
  abbrev IndexRound : (Cursor → Outcome Cursor) → Cursor → Outcome Cursor
  IndexRound rest st = elim (leb_ℤ st.low st.high) [
    | false ↦ ok st
    | true ↦ do
      let mid = Search.calculate_mid st.low st.high
      (depth, path) ← get_entry_depth_filepath d mid
      elim (compare_ℤ depth s) [
        | Ordering.eq ↦ ok (record st { mid = mid; depth = depth })
        | Ordering.lt ↦
            rest (record { low = mid +ℤ pos 1; high = st.high; mid = mid; depth = depth })
        | Ordering.gt ↦
            rest (record { low = st.low; high = mid -ℤ pos 1; mid = mid; depth = depth })
      ]
  ]

  pub find_index_loop_same :
      (k : ℕ) (st : Cursor) → find_index_loop k d s st ≡ Search.find_index_loop k (reader d) s st
  unfolding find_index_loop Search.find_index_loop calculate_mid Search.calculate_mid
  find_index_loop_same zero st = refl
  find_index_loop_same (suc k) st =
      ap (λ rest. IndexRound rest st) (λ i c. find_index_loop_same k c i)

  abbrev LowestRound : ℤ → (ℤ → ℤ → Outcome ℤ) → ℤ → ℤ → Outcome ℤ
  LowestRound low rest i depth = elim (beq_ℤ depth s) [
    | false ↦ ok i
    | true ↦ elim (ltb_ℤ (i -ℤ pos 1) low) [
      | true ↦ ok (i -ℤ pos 1)
      | false ↦ do
        (depth', path) ← get_entry_depth_filepath d (i -ℤ pos 1)
        rest (i -ℤ pos 1) depth'
    ]
  ]

  pub lowest_loop_same :
      (k : ℕ) (low i depth : ℤ)
      → lowest_loop k d s low i depth ≡ Search.lowest_loop k (reader d) s low i depth
  unfolding lowest_loop Search.lowest_loop
  lowest_loop_same zero low i depth = refl
  lowest_loop_same (suc k) low i depth =
      ap (λ rest. LowestRound low rest i depth) (λ t i' depth'. lowest_loop_same k low i' depth' t)

  abbrev HighestRound : ℤ → (ℤ → ℤ → Outcome ℤ) → ℤ → ℤ → Outcome ℤ
  HighestRound high rest i depth = elim (beq_ℤ depth s) [
    | false ↦ ok i
    | true ↦ elim (ltb_ℤ high (i +ℤ pos 1)) [
      | true ↦ ok (i +ℤ pos 1)
      | false ↦ do
        (depth', path) ← get_entry_depth_filepath d (i +ℤ pos 1)
        rest (i +ℤ pos 1) depth'
    ]
  ]

  pub highest_loop_same :
      (k : ℕ) (high i depth : ℤ)
      → highest_loop k d s high i depth ≡ Search.highest_loop k (reader d) s high i depth
  unfolding highest_loop Search.highest_loop
  highest_loop_same zero high i depth = refl
  highest_loop_same (suc k) high i depth =
      ap (λ rest. HighestRound high rest i depth)
        (λ t i' depth'. highest_loop_same k high i' depth' t)

module _ (d : Disk) (search : Bytes) where
  abbrev PathRound : (ℤ → ℤ → Outcome ℤ) → ℤ → ℤ → Outcome ℤ
  PathRound rest low high = elim (leb_ℤ low high) [
    | false ↦ ok (negsuc 0)
    | true ↦ do
      let mid = Search.calculate_mid low high
      path ← path_at (reader d) mid
      elim (strcmp path search) [
        | Ordering.eq ↦ ok mid
        | Ordering.lt ↦ rest (mid +ℤ pos 1) high
        | Ordering.gt ↦ rest low (mid -ℤ pos 1)
      ]
  ]

  pub find_path_loop_same :
      (k : ℕ) (low high : ℤ)
      → find_path_loop k d search low high ≡ Search.find_path_loop k (reader d) search low high
  unfolding find_path_loop Search.find_path_loop calculate_mid Search.calculate_mid
      get_entry_file_path
  find_path_loop_same zero low high = refl
  find_path_loop_same (suc k) low high =
      ap (λ rest. PathRound rest low high) (λ t low' high'. find_path_loop_same k low' high' t)

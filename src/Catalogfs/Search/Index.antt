-- ===== src/Catalogfs/Search/Index.antt =====
-- `find_index`.
use catalog_file_system.Base.{
  ℕ, zero, suc, ◌-◌, ◌<◌, ◌≤◌, ◌≡◌, refl, sym, subst, ◌⊎◌, inl, inr, Bool, true, false, arith,
  leb_ℤ, Ordering, ℤ, pos, compare_ℤ, eq_of_compare, lt_of_compare, gt_of_compare, ◌+ℤ◌, ◌-ℤ◌, ◌<ℤ◌,
  dec_lt, Outcome, ok, err, exit, out_of_fuel, ◌>>=◌,
}
use catalog_file_system.Clib.Text.{Bytes}
use catalog_file_system.Catalogfs.Reader.{Reader}
use catalog_file_system.Catalogfs.Search.{Cursor, find_index_loop, find_index, calculate_mid}
use catalog_file_system.Catalogfs.Search.Bounds.{
  below, middle, leb-below, mid-below, pos-next, pos-prev, rounds-below,
}
use catalog_file_system.Catalogfs.Search.Ends.{
  Row, DepthSorted, Ends, returns, fails, exits, recover, mono, unread, read-not_out_of_fuel,
}

abbrev cursor : ℕ → ℕ → ℤ → ℤ → Cursor
cursor l h mid d = record { low = pos l; high = below h; mid = mid; depth = d }

module _ (m : Reader) (s : ℤ) where
  -- The bounds narrow to lo, …, hi - 1, which is empty or has an entry of depth `s` at the middle,
  -- and if the depths ascend, no entry of that depth is left out.
  pub record Narrowed (l h : ℕ) (st : Cursor) : Type 0 where
    pub lo : ℕ
    pub hi : ℕ
    pub low_eq : st.low ≡ pos lo
    pub high_eq : st.high ≡ below hi
    pub lo_inside : l ≤ lo
    pub hi_inside : hi ≤ h
    pub hit :
        (hi ≤ lo)
        ⊎ ((j : ℕ) × (p : Bytes) × (lo ≤ j)
            × (j < hi)
            × (st.mid ≡ pos j)
            × (st.depth ≡ s)
            × Row m j s p)
    pub keeps :
        DepthSorted m → (i : ℕ) (p : Bytes) → l ≤ i → i < h → Row m i s p → (lo ≤ i) × (i < hi)

  -- What the body of the loop does with the comparison of the depth that it read.
  abbrev Turn : ℕ → ℕ → ℕ → ℤ → ℤ → Ordering → Outcome Cursor
  Turn k l h z d o = elim o [
    | Ordering.eq ↦ ok (record { low = pos l; high = below h; mid = z; depth = d })
    | Ordering.lt ↦
        find_index_loop k m s (record { low = z +ℤ pos 1; high = below h; mid = z; depth = d })
    | Ordering.gt ↦
        find_index_loop k m s (record { low = pos l; high = z -ℤ pos 1; mid = z; depth = d })
  ]

  abbrev Body : ℕ → ℕ → ℕ → ℤ → Outcome (ℤ × Bytes) → Outcome Cursor
  Body k l h z o = o >>= λ r. Turn k l h z r.0 (compare_ℤ r.0 s)

  -- A round of the loop, by the result of its test.
  abbrev Round : ℕ → ℕ → ℕ → ℤ → ℤ → Bool → Outcome Cursor
  Round k l h mid d b = elim b [
    | false ↦ ok (cursor l h mid d)
    | true ↦
        Body k l h (calculate_mid (pos l) (below h)) (m.entry_at (calculate_mid (pos l) (below h)))
  ]

  module _ (l h : ℕ) (p : l < h) (inside : h ≤ m.catalog_len) where
    -- The entry at the middle is above or below the depth: the half on its other side is left.
    after_low :
        (d : ℤ) (path : Bytes) (st : Cursor)
        → Row m (middle l h) d path
        → d <ℤ s
        → Narrowed (suc (middle l h)) h st
        → Narrowed l h st
    after_low d path st row lt nw = record {
      lo = nw.lo;
      hi = nw.hi;
      low_eq = nw.low_eq;
      high_eq = nw.high_eq;
      lo_inside = omega (arith, nw.lo_inside);
      hi_inside = nw.hi_inside;
      hit = nw.hit;
      keeps = λ sorted i q a b r. elim (dec_lt (middle l h) i) [
        | yes beyond ↦ nw.keeps sorted i q beyond b r
        | no before ↦
            absurd
              (omega (arith, sorted i (middle l h) s d q path (omega arith) (omega arith) r row))
      ];
    }

    after_high :
        (d : ℤ) (path : Bytes) (st : Cursor)
        → Row m (middle l h) d path
        → s <ℤ d
        → Narrowed l (middle l h) st
        → Narrowed l h st
    after_high d path st row lt nw = record {
      lo = nw.lo;
      hi = nw.hi;
      low_eq = nw.low_eq;
      high_eq = nw.high_eq;
      lo_inside = nw.lo_inside;
      hi_inside = omega (arith, nw.hi_inside);
      hit = nw.hit;
      keeps = λ sorted i q a b r. elim (dec_lt i (middle l h)) [
        | yes before ↦ nw.keeps sorted i q a before r
        | no beyond ↦
            absurd
              (omega (arith, sorted (middle l h) i d s path q (omega arith) (omega arith) row r))
      ];
    }

    hit_here :
        (d : ℤ) (path : Bytes)
        → Row m (middle l h) d path
        → d ≡ s
        → Narrowed l h (cursor l h (pos (middle l h)) d)
    hit_here d path row same = record {
      lo = l;
      hi = h;
      low_eq = refl;
      high_eq = refl;
      lo_inside = omega arith;
      hi_inside = omega arith;
      hit = inr (middle l h, path, omega arith, omega arith, refl, same, rw same at row);
      keeps = λ sorted i q a b r. (a, b);
    }

    after_read :
        (k : ℕ) (o : Outcome (ℤ × Bytes))
        → m.entry_at (pos (middle l h)) ≡ o
        → ((mid d : ℤ)
            → Ends m
                (Narrowed (suc (middle l h)) h)
                (find_index_loop k m s (cursor (suc (middle l h)) h mid d)))
        → ((mid d : ℤ)
            → Ends m
                (Narrowed l (middle l h))
                (find_index_loop k m s (cursor l (middle l h) mid d)))
        → Ends m (Narrowed l h) (Body k l h (pos (middle l h)) o)
    after_read k (ok (d, path)) row up down =
        (elim (compare_ℤ d s)
            as (λ o.
              compare_ℤ d s ≡ o → Ends m (Narrowed l h) (Turn k l h (pos (middle l h)) d o)) [
                | Ordering.lt ↦ λ e.
                    rw pos-next (mono (up _ d) λ st. after_low d path st row (lt_of_compare d s e))
                | Ordering.eq ↦ λ e. returns _ (hit_here d path row (eq_of_compare d s e))
                | Ordering.gt ↦ λ e.
                    rw pos-prev
                      (mono (down _ d) λ st. after_high d path st row (gt_of_compare d s e))
              ])
          refl
    after_read k (err e) row up down = fails e (unread m row (λ r. λ b. cc) (omega arith))
    after_read k exit row up down = exits (unread m row (λ r. λ b. cc) (omega arith))
    after_read k out_of_fuel row up down = absurd (read-not_out_of_fuel m _ row)

  find_index_loop-Ends :
      (k l h : ℕ) (mid d : ℤ)
      → h ≤ m.catalog_len
      → h - l < k
      → Ends m (Narrowed l h) (find_index_loop k m s (cursor l h mid d))
  unfolding find_index_loop
  find_index_loop-Ends zero l h mid d inside fuel = absurd (omega arith)
  find_index_loop-Ends (suc k) l h mid d inside fuel = elim (dec_lt l h) [
    | no empty ↦
        let e : leb_ℤ (pos l) (below h) ≡ false = rw (leb-below l h) (ground arith) in
        subst (λ b. Ends m (Narrowed l h) (Round k l h mid d b)) (sym e)
          (returns _ (record {
            lo = l;
            hi = h;
            low_eq = refl;
            high_eq = refl;
            lo_inside = omega arith;
            hi_inside = omega arith;
            hit = inl (omega arith);
            keeps = λ sorted i q a b r. (a, b);
          }))
    | yes lt ↦
        let e : leb_ℤ (pos l) (below h) ≡ true = rw (leb-below l h) (ground arith) in
        subst (λ b. Ends m (Narrowed l h) (Round k l h mid d b)) (sym e)
          (subst (λ z. Ends m (Narrowed l h) (Body k l h z (m.entry_at z))) (sym (mid-below l h lt))
            (after_read l h lt inside k _ refl
              (λ mid' d'. find_index_loop-Ends k (suc (middle l h)) h mid' d' inside (omega arith))
              (λ mid' d'.
                find_index_loop-Ends k l (middle l h) mid' d' (omega arith) (omega arith))))
  ]

  -- `find_index` narrows the bounds to entries around one of the wanted depth, or to none. It
  -- always ends, and fails only if an entry cannot be read.
  pub find_index-Ends :
      (l h : ℕ) (mid d : ℤ)
      → l ≤ h
      → h ≤ m.catalog_len
      → Ends m (Narrowed l h) (find_index m s (cursor l h mid d))
  unfolding find_index
  find_index-Ends l h mid d order inside =
      recover (find_index_loop-Ends _ l h mid d inside (rw rounds-below (omega arith)))
        (λ u. fails 1 u)

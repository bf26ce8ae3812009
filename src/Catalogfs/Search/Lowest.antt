-- ===== src/Catalogfs/Search/Lowest.antt =====
-- catalogfs.c: `find_lowest_index`.
use native.Mathlib.Decide.{dec_le}
use catalog_file_system.Base.{
  ℕ, zero, suc, ◌-◌, ◌<◌, ◌≤◌, ◌≡◌, ◌≢◌, refl, sym, subst, ◌⊎◌, inl, inr, Bool, true, false, arith,
  Bool-cases, dec_lt, ℤ, pos, ◌+ℤ◌, ◌-ℤ◌, beq_ℤ, ltb_ℤ, eq_of_beq, ne_of_beq, Outcome, ok, err,
  exit, out_of_fuel, ◌>>=◌,
}
use catalog_file_system.Clib.Text.{Bytes}
use catalog_file_system.Catalogfs.Reader.{Reader}
use catalog_file_system.Catalogfs.Search.{lowest_loop, find_lowest_index}
use catalog_file_system.Catalogfs.Search.Bounds.{below, ltb-below, pos-prev, rounds-pos}
use catalog_file_system.Catalogfs.Search.Ends.{
  Row, Ends, returns, fails, exits, bind, recover, mono, unread, read-not_out_of_fuel,
}

module _ (m : Reader) (s : ℤ) where
  -- `z` stands for a - 1: the entries from `a` to `i` have depth `s`, and the one in front of them
  -- has another, unless `a` is the bound.
  pub record Lowest (l i : ℕ) (z : ℤ) : Type 0 where
    pub a : ℕ
    pub is_below : z ≡ below a
    pub le_a : l ≤ a
    pub a_le : a ≤ suc i
    pub all : (t : ℕ) → a ≤ t → t ≤ i → (p : Bytes) × Row m t s p
    pub edge : (a ≡ l) ⊎ ((t : ℕ) × (d : ℤ) × (p : Bytes) × (suc t ≡ a) × Row m t d p × (d ≢ s))

  abbrev LowTail : ℕ → ℕ → ℤ → Bool → Outcome ℤ
  LowTail k l z b = elim b [
    | true ↦ ok z
    | false ↦ m.entry_at z >>= λ r. lowest_loop k m s (pos l) z r.0
  ]

  abbrev LowRound : ℕ → ℕ → ℕ → Bool → Outcome ℤ
  LowRound k l i b = elim b [
    | false ↦ ok (pos i)
    | true ↦ LowTail k l (pos i -ℤ pos 1) (ltb_ℤ (pos i -ℤ pos 1) (pos l))
  ]

  downward_more :
      (l i : ℕ) (p : Bytes) (z : ℤ) → l ≤ i → Row m (suc i) s p → Lowest l i z → Lowest l (suc i) z
  downward_more l i p z order row low = record {
    a = low.a;
    is_below = low.is_below;
    le_a = low.le_a;
    a_le = omega (arith, low.a_le);
    all = λ t u v. elim (dec_le t i) [
      | yes old ↦ low.all t u old
      | no new ↦ let e : suc i ≡ t = omega arith in (p, subst (λ k. Row m k s p) e row)
    ];
    edge = low.edge;
  }

  downward_read :
      (k l i : ℕ) (p : Bytes) (o : Outcome (ℤ × Bytes))
      → l ≤ i
      → i < m.catalog_len
      → Row m (suc i) s p
      → m.entry_at (pos i) ≡ o
      → ((d : ℤ) (q : Bytes)
          → Row m i d q
          → Ends m (Lowest l i) (lowest_loop k m s (pos l) (pos i) d))
      → Ends m (Lowest l (suc i)) (o >>= λ r. lowest_loop k m s (pos l) (pos i) r.0)
  downward_read k l i p (ok (d, q)) order inside row e ih =
      mono (ih d q e) (λ z. downward_more l i p z order row)
  downward_read k l i p (err c) order inside row e ih = fails c (unread m e (λ r b. cc) inside)
  downward_read k l i p exit order inside row e ih = exits (unread m e (λ r b. cc) inside)
  downward_read k l i p out_of_fuel order inside row e ih = absurd (read-not_out_of_fuel m _ e)

  downward_stop : (l i : ℕ) (p : Bytes) → i ≡ l → Row m i s p → Lowest l i (below i)
  downward_stop l i p e row = record {
    a = i;
    is_below = refl;
    le_a = omega arith;
    a_le = omega arith;
    all = λ t u v. let same : i ≡ t = omega arith in (p, subst (λ k. Row m k s p) same row);
    edge = inl e;
  }

  downward_tail :
      (k l i : ℕ) (p : Bytes)
      → l ≤ i
      → i < m.catalog_len
      → Row m i s p
      → ((j : ℕ) (d : ℤ) (q : Bytes)
          → suc j ≡ i
          → l ≤ j
          → Row m j d q
          → Ends m (Lowest l j) (lowest_loop k m s (pos l) (pos j) d))
      → Ends m (Lowest l i) (LowTail k l (below i) (ltb_ℤ (below i) (pos l)))
  downward_tail k l zero p order inside row ih =
      let e : ltb_ℤ (below 0) (pos l) ≡ true = rw (ltb-below 0 l) (ground arith) in
      subst (λ b. Ends m (Lowest l 0) (LowTail k l (below 0) b)) (sym e)
        (returns _ (downward_stop l 0 p (omega arith) row))
  downward_tail k l (suc i) p order inside row ih = elim (dec_lt i l) [
    | yes lt ↦
        let e : ltb_ℤ (pos i) (pos l) ≡ true = rw (ltb-below (suc i) l) (ground arith) in
        subst (λ b. Ends m (Lowest l (suc i)) (LowTail k l (pos i) b)) (sym e)
          (returns _ (downward_stop l (suc i) p (omega arith) row))
    | no ge ↦
        let e : ltb_ℤ (pos i) (pos l) ≡ false = rw (ltb-below (suc i) l) (ground arith) in
        subst (λ b. Ends m (Lowest l (suc i)) (LowTail k l (pos i) b)) (sym e)
          (downward_read k l i p _ (omega arith) (omega arith) row refl
            (λ d q r. ih i d q refl (omega arith) r))
  ]

  lowest_loop-Ends :
      (k l i : ℕ) (d : ℤ) (p : Bytes)
      → l ≤ i
      → i < m.catalog_len
      → Row m i d p
      → i - l < k
      → Ends m (Lowest l i) (lowest_loop k m s (pos l) (pos i) d)
  unfolding lowest_loop
  lowest_loop-Ends zero l i d p order inside row fuel = absurd (omega arith)
  lowest_loop-Ends (suc k) l i d p order inside row fuel = elim (Bool-cases (beq_ℤ d s)) [
    | inr other ↦
        subst (λ b. Ends m (Lowest l i) (LowRound k l i b)) (sym other)
          (returns _ (record {
            a = suc i;
            is_below = refl;
            le_a = omega arith;
            a_le = omega arith;
            all = λ t u v. absurd (omega arith);
            edge = inr (i, d, p, refl, row, ne_of_beq d s other);
          }))
    | inl same ↦
        subst (λ b. Ends m (Lowest l i) (LowRound k l i b)) (sym same)
          (subst (λ z. Ends m (Lowest l i) (LowTail k l z (ltb_ℤ z (pos l)))) (sym (pos-prev i))
            (downward_tail k l i p order inside (subst (λ e. Row m i e p) (eq_of_beq d s same) row)
              (λ j d' q e o r. lowest_loop-Ends k l j d' q o (omega arith) r (omega arith))))
  ]

  -- With `mid` at an entry of depth `s`, the new `*low` is the first of the entries of that depth
  -- that reach up to it.
  pub find_lowest_index-Ends :
      (l j : ℕ) (high : ℤ) (p : Bytes)
      → l ≤ j
      → j < m.catalog_len
      → Row m j s p
      → Ends m
          (λ z. (y : ℤ) × (z ≡ y +ℤ pos 1) × Lowest l j y)
          (find_lowest_index m s (record { low = pos l; high = high; mid = pos j; depth = s }))
  unfolding find_lowest_index
  find_lowest_index-Ends l j high p order inside row =
      bind
        (recover (lowest_loop-Ends _ l j s p order inside row (rw rounds-pos (omega arith)))
          (λ u. fails 1 u))
        (λ z low. returns _ (z, refl, low))

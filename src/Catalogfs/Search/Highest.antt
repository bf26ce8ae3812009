-- ===== src/Catalogfs/Search/Highest.antt =====
-- catalogfs.c: `find_highest_index`.
use catalog_file_system.Base.{
  ℕ, zero, suc, ◌-◌, ◌<◌, ◌≤◌, ◌≡◌, ◌≢◌, refl, sym, subst, ◌⊎◌, inl, inr, Bool, true, false, arith,
  Bool-cases, dec_lt, ℤ, pos, ◌+ℤ◌, ◌-ℤ◌, beq_ℤ, ltb_ℤ, eq_of_beq, ne_of_beq, Outcome, ok, err,
  exit, out_of_fuel, ◌>>=◌,
}
use catalog_file_system.Clib.Text.{Bytes}
use catalog_file_system.Catalogfs.Reader.{Reader}
use catalog_file_system.Catalogfs.Search.{highest_loop, find_highest_index}
use catalog_file_system.Catalogfs.Search.Bounds.{below, ltb-below, pos-next, rounds-below}
use catalog_file_system.Catalogfs.Search.Ends.{
  Row, Ends, returns, fails, exits, bind, recover, mono, unread, read-not_out_of_fuel,
}

module _ (m : Reader) (s : ℤ) where
  -- `z` stands for the first index behind `i` that is the bound or has
  -- another depth; the entries from `i` up to it have depth `s`.
  pub record Highest (h i : ℕ) (z : ℤ) : Type 0 where
    pub b : ℕ
    pub is_pos : z ≡ pos b
    pub i_le : i ≤ b
    pub b_le : b ≤ h
    pub all : (t : ℕ) → i ≤ t → t < b → (p : Bytes) × Row m t s p
    pub edge : (b ≡ h) ⊎ ((d : ℤ) × (p : Bytes) × Row m b d p × (d ≢ s))

  abbrev HighTail : ℕ → ℕ → ℤ → Bool → Outcome ℤ
  HighTail k h z b = elim b [
    | true ↦ ok z
    | false ↦ m.entry_at z >>= λ r. highest_loop k m s (below h) z r.0
  ]

  abbrev HighRound : ℕ → ℕ → ℕ → Bool → Outcome ℤ
  HighRound k h i b = elim b [
    | false ↦ ok (pos i)
    | true ↦ HighTail k h (pos i +ℤ pos 1) (ltb_ℤ (below h) (pos i +ℤ pos 1))
  ]

  upward_more : (h i : ℕ) (p : Bytes) (z : ℤ) → Row m i s p → Highest h (suc i) z → Highest h i z
  upward_more h i p z row high = record {
    b = high.b;
    is_pos = high.is_pos;
    i_le = omega (arith, high.i_le);
    b_le = high.b_le;
    all = λ t u v. elim (dec_lt i t) [
      | yes old ↦ high.all t old v
      | no new ↦ let e : i ≡ t = omega arith in (p, subst (λ k. Row m k s p) e row)
    ];
    edge = high.edge;
  }

  upward_read :
      (k h i : ℕ) (p : Bytes) (o : Outcome (ℤ × Bytes))
      → suc i < m.catalog_len
      → Row m i s p
      → m.entry_at (pos (suc i)) ≡ o
      → ((d : ℤ) (q : Bytes)
          → Row m (suc i) d q
          → Ends m (Highest h (suc i)) (highest_loop k m s (below h) (pos (suc i)) d))
      → Ends m (Highest h i) (o >>= λ r. highest_loop k m s (below h) (pos (suc i)) r.0)
  upward_read k h i p (ok (d, q)) inside row e ih = mono (ih d q e) (λ z. upward_more h i p z row)
  upward_read k h i p (err c) inside row e ih = fails c (unread m e (λ r b. cc) inside)
  upward_read k h i p exit inside row e ih = exits (unread m e (λ r b. cc) inside)
  upward_read k h i p out_of_fuel inside row e ih = absurd (read-not_out_of_fuel m _ e)

  upward_stop : (h i : ℕ) (p : Bytes) → suc i ≡ h → Row m i s p → Highest h i (pos (suc i))
  upward_stop h i p e row = record {
    b = suc i;
    is_pos = refl;
    i_le = omega arith;
    b_le = omega arith;
    all = λ t u v. let same : i ≡ t = omega arith in (p, subst (λ k. Row m k s p) same row);
    edge = inl e;
  }

  upward_tail :
      (k h i : ℕ) (p : Bytes)
      → i < h
      → h ≤ m.catalog_len
      → Row m i s p
      → ((d : ℤ) (q : Bytes)
          → suc i < h
          → Row m (suc i) d q
          → Ends m (Highest h (suc i)) (highest_loop k m s (below h) (pos (suc i)) d))
      → Ends m (Highest h i) (HighTail k h (pos (suc i)) (ltb_ℤ (below h) (pos (suc i))))
  upward_tail k h i p order inside row ih = elim (dec_lt (suc i) h) [
    | no end ↦
        let e : ltb_ℤ (below h) (pos (suc i)) ≡ true = rw (ltb-below h (suc i)) (ground arith) in
        subst (λ b. Ends m (Highest h i) (HighTail k h (pos (suc i)) b)) (sym e)
          (returns _ (upward_stop h i p (omega arith) row))
    | yes more ↦
        let e : ltb_ℤ (below h) (pos (suc i)) ≡ false = rw (ltb-below h (suc i)) (ground arith) in
        subst (λ b. Ends m (Highest h i) (HighTail k h (pos (suc i)) b)) (sym e)
          (upward_read k h i p _ (omega arith) row refl (λ d q r. ih d q more r))
  ]

  highest_loop-Ends :
      (k h i : ℕ) (d : ℤ) (p : Bytes)
      → i < h
      → h ≤ m.catalog_len
      → Row m i d p
      → h - i < k
      → Ends m (Highest h i) (highest_loop k m s (below h) (pos i) d)
  unfolding highest_loop
  highest_loop-Ends zero h i d p order inside row fuel = absurd (omega arith)
  highest_loop-Ends (suc k) h i d p order inside row fuel = elim (Bool-cases (beq_ℤ d s)) [
    | inr other ↦
        subst (λ b. Ends m (Highest h i) (HighRound k h i b)) (sym other)
          (returns _ (record {
            b = i;
            is_pos = refl;
            i_le = omega arith;
            b_le = omega arith;
            all = λ t u v. absurd (omega arith);
            edge = inr (d, p, row, ne_of_beq d s other);
          }))
    | inl same ↦
        subst (λ b. Ends m (Highest h i) (HighRound k h i b)) (sym same)
          (subst (λ z. Ends m (Highest h i) (HighTail k h z (ltb_ℤ (below h) z))) (sym (pos-next i))
            (upward_tail k h i p order inside (subst (λ e. Row m i e p) (eq_of_beq d s same) row)
              (λ d' q lt r. highest_loop-Ends k h (suc i) d' q lt inside r (omega arith))))
  ]

  -- With `mid` at an entry of depth `s`, the new `*high` is the last of the entries of that
  -- depth that reach down to it.
  pub find_highest_index-Ends :
      (h j : ℕ) (low : ℤ) (p : Bytes)
      → j < h
      → h ≤ m.catalog_len
      → Row m j s p
      → Ends m
          (λ z. (y : ℤ) × (z ≡ y -ℤ pos 1) × Highest h j y)
          (find_highest_index m s (record { low = low; high = below h; mid = pos j; depth = s }))
  unfolding find_highest_index
  find_highest_index-Ends h j low p order inside row =
      bind
        (recover (highest_loop-Ends _ h j s p order inside row (rw rounds-below (omega arith)))
          (λ u. fails 1 u))
        (λ z high. returns _ (z, refl, high))

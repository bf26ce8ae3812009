-- ===== src/Catalogfs/Directory/Contents.antt =====
-- catalogfs.c: the loop of `get_directory_contents`, in any catalog.
use catalog_file_system.Base.{
  ℕ, zero, suc, ◌+◌, ◌-◌, ◌<◌, ◌≤◌, ◌≡◌, refl, sym, subst, ◌⊎◌, inl, inr, Bool, Bool-cases, true,
  false, arith, dec_lt, leb, ℤ, pos, ◌+ℤ◌, ◌-ℤ◌, leb_ℤ, ltb_ℤ, rounds, Outcome, ok, err, exit,
  out_of_fuel, ◌>>=◌,
}
use catalog_file_system.Clib.Text.{Bytes}
use catalog_file_system.Catalogfs.Reader.{Reader}
use catalog_file_system.Catalogfs.Search.Bounds.{pos-next}
use catalog_file_system.Catalogfs.Search.Ends.{
  Row, Ends, returns, fails, exits, mono, unread, read-not_out_of_fuel,
}
use catalog_file_system.Catalogfs.Directory.{is_content, contents_loop}

pub pos_nonneg : (n : ℕ) → ltb_ℤ (pos n) (pos 0) ≡ false
unfolding ltb_ℤ
pos_nonneg n = ground arith

pub leb-pos : (a b : ℕ) → leb_ℤ (pos a) (pos b) ≡ leb a b
unfolding leb_ℤ
leb-pos a b = ground arith

pub leb-pos_true : (a b : ℕ) → a ≤ b → leb_ℤ (pos a) (pos b) ≡ true
leb-pos_true a b h = rw leb-pos (ground arith)

pub leb-pos_false : (a b : ℕ) → b < a → leb_ℤ (pos a) (pos b) ≡ false
leb-pos_false a b h = rw leb-pos (ground arith)

pub rounds-contents : (n l : ℕ) → rounds (pos n -ℤ pos l +ℤ pos 1) ≡ n + 1 - l
unfolding ◌+ℤ◌ ◌-ℤ◌
rounds-contents n l = ground arith

module _ (m : Reader) (dir : Bytes) where
  -- `z` is the first index behind `i` that is the catalog's length or has an entry which is no
  -- content of the directory.
  pub record Contents (i : ℕ) (z : ℤ) : Type 0 where
    pub b : ℕ
    pub is_pos : z ≡ pos b
    pub lt_b : i < b
    pub b_le : b ≤ m.catalog_len
    pub all :
        (t : ℕ) → i < t → t < b → (d : ℤ) × (p : Bytes) × Row m t d p × (is_content dir d p ≡ true)
    pub edge :
        (b ≡ m.catalog_len) ⊎ ((d : ℤ) × (p : Bytes) × Row m b d p × (is_content dir d p ≡ false))

  abbrev Tail : ℕ → ℤ → ℤ → Bool → Outcome ℤ
  Tail k z d b = elim b [ true ↦ contents_loop k m dir z | false ↦ ok z ]

  abbrev Body : ℕ → ℤ → Outcome (ℤ × Bytes) → Outcome ℤ
  Body k z o = o >>= λ r. Tail k z r.0 (is_content dir r.0 r.1)

  abbrev Round : ℕ → ℤ → Bool → Outcome ℤ
  Round k z b = elim b [ true ↦ ok z | false ↦ Body k z (m.entry_at z) ]

  more :
      (i : ℕ) (d : ℤ) (p : Bytes) (z : ℤ)
      → Row m (suc i) d p
      → is_content dir d p ≡ true
      → Contents (suc i) z
      → Contents i z
  more i d p z row content c = record {
    b = c.b;
    is_pos = c.is_pos;
    lt_b = omega (arith, c.lt_b);
    b_le = c.b_le;
    all = λ t u v. elim (dec_lt (suc i) t) [
      | yes old ↦ c.all t old v
      | no new ↦ let e : suc i ≡ t = omega arith in (d, p, subst (λ k. Row m k d p) e row, content)
    ];
    edge = c.edge;
  }

  stop :
      (i : ℕ)
      → suc i ≤ m.catalog_len
      → ((suc i ≡ m.catalog_len)
          ⊎ ((d : ℤ) × (p : Bytes) × Row m (suc i) d p × (is_content dir d p ≡ false)))
      → Contents i (pos (suc i))
  stop i inside edge = record {
    b = suc i;
    is_pos = refl;
    lt_b = omega arith;
    b_le = inside;
    all = λ t u v. absurd (omega arith);
    edge = edge;
  }

  after_read :
      (k i : ℕ) (o : Outcome (ℤ × Bytes))
      → suc i < m.catalog_len
      → m.entry_at (pos (suc i)) ≡ o
      → Ends m (Contents (suc i)) (contents_loop k m dir (pos (suc i)))
      → Ends m (Contents i) (Body k (pos (suc i)) o)
  after_read k i (ok (d, p)) inside row ih = elim (Bool-cases (is_content dir d p)) [
    | inl content ↦
        subst (λ b. Ends m (Contents i) (Tail k (pos (suc i)) d b)) (sym content)
          (mono ih (λ z. more i d p z row content))
    | inr other ↦
        subst (λ b. Ends m (Contents i) (Tail k (pos (suc i)) d b)) (sym other)
          (returns _ (stop i (omega arith) (inr (d, p, row, other))))
  ]
  after_read k i (err c) inside row ih = fails c (unread m row (λ r w. cc) inside)
  after_read k i exit inside row ih = exits (unread m row (λ r w. cc) inside)
  after_read k i out_of_fuel inside row ih = absurd (read-not_out_of_fuel m _ row)

  pub contents_loop-Ends :
      (k i : ℕ)
      → i < m.catalog_len
      → m.catalog_len - i ≤ k
      → Ends m (Contents i) (contents_loop k m dir (pos i))
  unfolding contents_loop
  contents_loop-Ends zero i inside fuel = absurd (omega arith)
  contents_loop-Ends (suc k) i inside fuel =
      subst (λ z. Ends m (Contents i) (Round k z (leb_ℤ (pos m.catalog_len) z))) (sym (pos-next i))
        (elim (dec_lt (suc i) m.catalog_len) [
          | no end ↦
              let e : leb_ℤ (pos m.catalog_len) (pos (suc i)) ≡ true = rw leb-pos (ground arith) in
              subst (λ b. Ends m (Contents i) (Round k (pos (suc i)) b)) (sym e)
                (returns _ (stop i (omega arith) (inl (omega arith))))
          | yes lt ↦
              let e : leb_ℤ (pos m.catalog_len) (pos (suc i)) ≡ false = rw leb-pos (ground arith) in
              subst (λ b. Ends m (Contents i) (Round k (pos (suc i)) b)) (sym e)
                (after_read k i _ lt refl (contents_loop-Ends k (suc i) lt (omega arith)))
        ])

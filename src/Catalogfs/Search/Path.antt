-- ===== src/Catalogfs/Search/Path.antt =====
-- catalogfs.c: the last loop of `binSearch`, over entries of one depth.
use catalog_file_system.Base.{
  ℕ, zero, suc, ◌-◌, ◌<◌, ◌≤◌, ◌≡◌, refl, sym, subst, ap, ◌⊎◌, inl, inr, Bool, true, false, arith,
  dec_lt, Ordering, ℤ, pos, negsuc, ◌+ℤ◌, ◌-ℤ◌, leb_ℤ, Outcome, ok, err, exit, out_of_fuel, ◌>>=◌,
}
use catalog_file_system.Clib.Text.{Bytes, strcmp}
use catalog_file_system.Clib.Text.Order.{strcmp_refl, strcmp-eq, strcmp-lt_gt}
use catalog_file_system.Catalogfs.Reader.{Reader}
use catalog_file_system.Catalogfs.Search.{find_path_loop, find_path, calculate_mid}
use catalog_file_system.Catalogfs.Search.Bounds.{
  below, middle, leb-below, mid-below, pos-next, pos-prev, rounds-below,
}
use catalog_file_system.Catalogfs.Search.Ends.{
  Row, PathSorted, Ends, returns, fails, exits, mono, unread, read-not_out_of_fuel,
}

module _ (m : Reader) (s : ℤ) (search : Bytes) where
  -- `z` is the location of the path, or -1; if the paths ascend, -1 says that there is none.
  abbrev pub Placed : ℕ → ℕ → ℤ → Type 0
  Placed l h z =
      ((j : ℕ) × (l ≤ j) × (j < h) × (z ≡ pos j) × Row m j s search)
      ⊎ ((z ≡ negsuc 0) × (PathSorted m → (i : ℕ) → l ≤ i → i < h → ¬ Row m i s search))

  module _ (a b : ℕ) (inside : b ≤ m.catalog_len)
      (all : (t : ℕ) → a ≤ t → t < b → (p : Bytes) × Row m t s p) where
    abbrev Turn : ℕ → ℕ → ℕ → ℤ → Ordering → Outcome ℤ
    Turn k l h z o = elim o [
      | Ordering.eq ↦ ok z
      | Ordering.lt ↦ find_path_loop k m search (z +ℤ pos 1) (below h)
      | Ordering.gt ↦ find_path_loop k m search (pos l) (z -ℤ pos 1)
    ]

    abbrev Body : ℕ → ℕ → ℕ → ℤ → Outcome (ℤ × Bytes) → Outcome ℤ
    Body k l h z o = (o >>= λ r. ok r.1) >>= λ path. Turn k l h z (strcmp path search)

    abbrev Round : ℕ → ℕ → ℕ → Bool → Outcome ℤ
    Round k l h t = elim t [
      | false ↦ ok (negsuc 0)
      | true ↦
          Body k l h (calculate_mid (pos l) (below h))
            (m.entry_at (calculate_mid (pos l) (below h)))
    ]

    same_depth : (j : ℕ) (d : ℤ) (q : Bytes) → a ≤ j → j < b → Row m j d q → Row m j s q
    same_depth j d q u v row = let (p, r) = all j u v in cc

    after_low :
        (l h j : ℕ) (q : Bytes) (z : ℤ)
        → l ≤ j
        → j < b
        → Row m j s q
        → strcmp q search ≡ Ordering.lt
        → Placed (suc j) h z
        → Placed l h z
    after_low l h j q z u v row lt (inl (i, x, y, e, r)) = inl (i, omega arith, y, e, r)
    after_low l h j q z u v row lt (inr (e, none)) = inr (
      e,
      λ sorted i x y r. elim (dec_lt j i) [
        | yes beyond ↦ none sorted i beyond y r
        | no before ↦ elim (dec_lt i j) [
          | yes less ↦
              let g = strcmp-lt_gt search q (sorted i j s search q less (omega arith) r row) in cc
          | no equal ↦
              let here : i ≡ j = omega arith in
              let e' = subst (λ t. Row m t s search) here r in
              let g = strcmp_refl search in
              let q' : q ≡ search = cc in cc (ap (λ t. strcmp t search) q')
        ]
      ],
    )

    after_high :
        (l h j : ℕ) (q : Bytes) (z : ℤ)
        → j < h
        → h ≤ b
        → Row m j s q
        → strcmp q search ≡ Ordering.gt
        → Placed l j z
        → Placed l h z
    after_high l h j q z u v row gt (inl (i, x, y, e, r)) = inl (i, x, omega arith, e, r)
    after_high l h j q z u v row gt (inr (e, none)) = inr (
      e,
      λ sorted i x y r. elim (dec_lt i j) [
        | yes before ↦ none sorted i x before r
        | no other ↦ elim (dec_lt j i) [
          | yes more ↦ let g = sorted j i s q search more (omega arith) row r in cc
          | no equal ↦
              let here : i ≡ j = omega arith in
              let e' = subst (λ t. Row m t s search) here r in
              let g = strcmp_refl search in
              let q' : q ≡ search = cc in cc (ap (λ t. strcmp t search) q')
        ]
      ],
    )

    module _ (l h : ℕ) (lt : l < h) (h_in : h ≤ b) (l_in : a ≤ l) where
      after_read :
          (k : ℕ) (o : Outcome (ℤ × Bytes))
          → m.entry_at (pos (middle l h)) ≡ o
          → Ends m
              (Placed (suc (middle l h)) h)
              (find_path_loop k m search (pos (suc (middle l h))) (below h))
          → Ends m (Placed l (middle l h)) (find_path_loop k m search (pos l) (below (middle l h)))
          → Ends m (Placed l h) (Body k l h (pos (middle l h)) o)
      after_read k (ok (d, q)) row up down =
          let r = same_depth (middle l h) d q (omega arith) (omega arith) row in
          (elim (strcmp q search)
              as (λ o.
                strcmp q search ≡ o → Ends m (Placed l h) (Turn k l h (pos (middle l h)) o)) [
                  | Ordering.lt ↦ λ e. rw pos-next (
                      mono up (λ z. after_low l h (middle l h) q z (omega arith) (omega arith) r e))
                  | Ordering.eq ↦ λ e. returns _ (
                      inl (
                        middle l h,
                        omega arith,
                        omega arith,
                        refl,
                        subst (λ t. Row m (middle l h) s t) (strcmp-eq q search e) r,
                      ))
                  | Ordering.gt ↦ λ e.
                      rw pos-prev
                        (mono down (λ z. after_high l h (middle l h) q z (omega arith) h_in r e))
                ])
            refl
      after_read k (err c) row up down = fails c (unread m row (λ r w. cc) (omega arith))
      after_read k exit row up down = exits (unread m row (λ r w. cc) (omega arith))
      after_read k out_of_fuel row up down = absurd (read-not_out_of_fuel m _ row)

    find_path_loop-Ends :
        (k l h : ℕ)
        → a ≤ l
        → h ≤ b
        → h - l < k
        → Ends m (Placed l h) (find_path_loop k m search (pos l) (below h))
    unfolding find_path_loop
    find_path_loop-Ends zero l h u v fuel = absurd (omega arith)
    find_path_loop-Ends (suc k) l h u v fuel = elim (dec_lt l h) [
      | no empty ↦
          let e : leb_ℤ (pos l) (below h) ≡ false = rw (leb-below l h) (ground arith) in
          subst (λ t. Ends m (Placed l h) (Round k l h t)) (sym e)
            (returns _ (inr (refl, λ sorted i x y r. absurd (omega arith))))
      | yes lt ↦
          let e : leb_ℤ (pos l) (below h) ≡ true = rw (leb-below l h) (ground arith) in
          subst (λ t. Ends m (Placed l h) (Round k l h t)) (sym e)
            (subst (λ z. Ends m (Placed l h) (Body k l h z (m.entry_at z))) (sym (mid-below l h lt))
              (after_read l h lt v u k _ refl
                (find_path_loop-Ends k (suc (middle l h)) h (omega arith) v (omega arith))
                (find_path_loop-Ends k l (middle l h) u (omega arith) (omega arith))))
    ]

    -- Among the entries from `a` up to `b`, which have one depth, the loop finds the path.
    pub find_path-Ends : a ≤ b → Ends m (Placed a b) (find_path m search (pos a) (below b))
    unfolding find_path
    find_path-Ends order =
        find_path_loop-Ends _ a b (omega arith) (omega arith) (rw rounds-below (omega arith))

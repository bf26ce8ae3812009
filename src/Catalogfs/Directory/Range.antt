-- ===== src/Catalogfs/Directory/Range.antt =====
-- catalogfs.c: the loop of `get_directory_contents` in a sorted catalog.
use catalog_file_system.Base.{
  ℕ, ◌+◌, ◌-◌, ◌<◌, ◌≤◌, ◌≡◌, ◌≢◌, refl, sym, subst, ap, ◌∙◌, inl, inr, Bool-cases, false, arith,
  dec_lt, Ordering, [], append-nil, length, eq_of_parts, ℤ, pos, ◌-ℤ◌, ◌≤ℤ◌, leb_ℤ, le_of_leb, ok,
  err, ◌>>=◌, on_error,
}
use catalog_file_system.Clib.Text.{Bytes, count_byte, strncmp}
use catalog_file_system.Clib.Text.Order.{
  strncmp-append, append_of_strncmp, prefix_between, prefix_first,
}
use catalog_file_system.Catalogfs.Reader.{Reader}
use catalog_file_system.Catalogfs.Entry.{find_depth}
use catalog_file_system.Catalogfs.Search.Ends.{Row}
use catalog_file_system.Catalogfs.Search.Correct.{IsCatalog}
use catalog_file_system.Catalogfs.Directory.{is_content, contents_loop, contents_from}
use catalog_file_system.Catalogfs.Directory.Inside.{
  InDirectory, content-true, content-false, slashless, same_depth,
}
use catalog_file_system.Catalogfs.Directory.Contents.{Contents, pos_nonneg, rounds-contents}

module _ (m : Reader) (dir : Bytes) (cat : IsCatalog m) (lo : ℕ) (lo_in : lo < m.catalog_len)
    (own : Row m lo (find_depth dir) dir) where
  rooted : pos 1 ≤ℤ find_depth dir
  rooted = (cat.depths lo _ dir lo_in own).1

  module _ (z : ℤ) (c : Contents m dir lo z) where
    pub is_in :
        (i : ℕ) (d : ℤ) (p : Bytes)
        → i < m.catalog_len
        → Row m i d p
        → lo ≤ i
        → i < c.b
        → InDirectory dir p
    unfolding count_byte
    is_in i d p inside row u v = elim (dec_lt lo i) [
      | yes lt ↦
          let (d', p', r', content) = c.all i lt v in
          let (e, prefix) = content-true dir d' p' content in
          let (rest, e') = append_of_strncmp dir p' prefix in
          let same : p' ≡ p = cc in
          let deep = sym (cat.depths i d' p' inside r').0 ∙ e in
          (
            rest,
            sym same ∙ e',
            slashless dir rest rooted (subst (λ q. find_depth q ≡ find_depth dir) e' deep),
          )
      | no ge ↦
          let here : lo ≡ i = omega arith in
          let r = subst (λ t. Row m t (find_depth dir) dir) here own in
          let same : p ≡ dir = cc in (([]), same ∙ sym (append-nil dir), refl)
    ]

    module _ (i : ℕ) (p : Bytes) (inside : i < m.catalog_len) (row : Row m i (find_depth dir) p)
        (prefix : strncmp dir p (length dir) ≡ Ordering.eq) where
      not_before : lo ≤ i
      not_before = elim (dec_lt i lo) [
        | yes lt ↦ absurd (
            prefix_first dir p prefix
              (cat.path_sorted i lo (find_depth dir) p dir lt lo_in row own))
        | no ge ↦ omega arith
      ]

      -- An entry between two of the directory's depth has it too, and its path the prefix.
      not_break : c.b ≤ i → (d : ℤ) (q : Bytes) → Row m c.b d q → is_content dir d q ≢ false
      not_break u d q r other =
          let D = find_depth dir in
          let same : d ≡ D = eq_of_parts d D (
            omega (
              arith,
              cat.depth_sorted lo c.b D d dir q (omega (arith, c.lt_b)) (omega arith) own r,
              cat.depth_sorted c.b i d D q p u inside r row,
            )) in
          let r' = subst (λ t. Row m c.b t q) same r in
          let first = cat.path_sorted lo c.b D dir q c.lt_b (omega arith) own r' in
          content-false dir d q other same (elim (dec_lt c.b i) [
            | yes lt ↦
                prefix_between dir q p first (cat.path_sorted c.b i D q p lt inside r' row) prefix
            | no ge ↦
                let here : c.b ≡ i = omega arith in
                let r'' = subst (λ t. Row m t D q) here r' in
                let same_path : p ≡ q = cc in
                subst (λ t. strncmp dir t (length dir) ≡ Ordering.eq) same_path prefix
          ])

      not_behind : i < c.b
      not_behind = elim (dec_lt i c.b) [
        | yes lt ↦ lt
        | no ge ↦ elim c.edge [
          | inl end ↦ absurd (omega arith)
          | inr (d, q, r, other) ↦ absurd (not_break (omega arith) d q r other)
        ]
      ]

    pub in_range :
        (i : ℕ) (d : ℤ) (p : Bytes)
        → i < m.catalog_len
        → Row m i d p
        → InDirectory dir p
        → (lo ≤ i) × (i < c.b)
    in_range i d p inside row (name, e, no_slash) =
        let deep : d ≡ find_depth dir =
          (cat.depths i d p inside row).0 ∙ ap find_depth e ∙ same_depth dir name rooted no_slash in
        let row' = subst (λ t. Row m i t p) deep row in
        let prefix =
          subst (λ t. strncmp dir t (length dir) ≡ Ordering.eq) (sym e) (strncmp-append dir name) in
        (not_before i p inside row' prefix, not_behind i p inside row' prefix)

  pub found_from : contents_from m dir (pos lo) ≡ (do
    i ← on_error (contents_loop (m.catalog_len + 1 - lo) m dir (pos lo)) (err 2)
    ok (pos lo, i -ℤ pos 1))
  unfolding contents_from
  found_from = rw (pos_nonneg lo, leb_ℤ_rooted, rounds-contents)
    where
      leb_ℤ_rooted : leb_ℤ (find_depth dir) (pos 0) ≡ false
      leb_ℤ_rooted = elim (Bool-cases (leb_ℤ (find_depth dir) (pos 0))) [
        | inl bad ↦ absurd (omega (arith, le_of_leb (find_depth dir) (pos 0) bad, rooted))
        | inr good ↦ good
      ]

-- ===== src/Catalogfs/Spec/Children.antt =====
-- What the tree has, and what is in a directory of it, by the places in the list of paths.
use catalog_file_system.Base.{
  ℕ, zero, suc, ◌+◌, ◌≡◌, ◌≢◌, inl, inr, refl, sym, ap, ◌∙◌, subst, arith, true, false, ◌==◌,
  if◌then◌else◌, Bool-cases, ==_iff, ==_refl, Ordering, Ordering-cases, Option, none, some, List,
  [], ◌∷◌, ◌++◌, get_elem?,
}
use catalog_file_system.Clib.Text.{Bytes, strcmp, count_byte}
use catalog_file_system.Clib.Text.Order.{strcmp_refl, strcmp-eq}
use catalog_file_system.Catalogfs.Mount.{Stat}
use catalog_file_system.Catalogfs.Handlers.{Item, directory_path}
use catalog_file_system.Catalogfs.Spec.{
  has, behind, proper, item_of, shown, prepend, children, listed_as,
}

pub has-get_elem? :
    (ps : List Bytes) (i : ℕ) {p : Bytes} → get_elem? ps i ≡ some p → has ps p ≡ true
unfolding has
has-get_elem? [] i h = cc
has-get_elem? (q ∷ qs) zero {p} h =
    let same : q ≡ p = cc in
    let e : strcmp q p ≡ Ordering.eq = subst (λ t. strcmp q t ≡ Ordering.eq) same (strcmp_refl q) in
    rw e refl
has-get_elem? (q ∷ qs) (suc i) h = ground (arith, has-get_elem? qs i h)

pub has-absent :
    (ps : List Bytes) (p : Bytes) → ((i : ℕ) → get_elem? ps i ≢ some p) → has ps p ≡ false
unfolding has
has-absent [] p absent = refl
has-absent (q ∷ qs) p absent = elim (Ordering-cases (strcmp q p)) [
  | inl lt ↦ rw lt (has-absent qs p (λ i. absent (suc i)))
  | inr (inl same) ↦ absurd (absent zero (ap some (strcmp-eq q p same)))
  | inr (inr gt) ↦ rw gt (has-absent qs p (λ i. absent (suc i)))
]

behind-append : (dir name : Bytes) → behind dir (dir ++ name) ≡ some name
unfolding behind
behind-append [] name = refl
behind-append (b ∷ bs) name = rw (==_refl b) (behind-append bs name)

append_of_behind : (dir p : Bytes) {name : Bytes} → behind dir p ≡ some name → p ≡ dir ++ name
unfolding behind
append_of_behind [] p h = cc
append_of_behind (b ∷ bs) [] h = cc
append_of_behind (b ∷ bs) (c ∷ cs) {name} h = elim (Bool-cases (b == c)) [
  | inl same ↦
      let rest : behind bs cs ≡ some name =
        sym (ap (λ t. if t then behind bs cs else none) same) ∙ h in
      let head : b ≡ c = (==_iff b c).0 same in let tail = append_of_behind bs cs rest in cc
  | inr other ↦
      let none_left : none ≡ some name =
        sym (ap (λ t. if t then behind bs cs else none) other) ∙ h in
      cc
]

proper-some : (name : Bytes) → name ≢ [] → count_byte b'/' name ≡ 0 → proper (some name) ≡ some name
unfolding proper
proper-some [] filled plain = absurd (filled refl)
proper-some (b ∷ bs) filled plain = ground (arith, plain)

some_of_proper :
    (o : Option Bytes) {name : Bytes}
    → proper o ≡ some name
    → (o ≡ some name) × (name ≢ []) × (count_byte b'/' name ≡ 0)
unfolding proper
some_of_proper none h = cc
some_of_proper (some []) h = cc
some_of_proper (some (b ∷ bs)) {name} h = elim (Bool-cases (count_byte b'/' (b ∷ bs) == 0)) [
  | inl plain ↦
      let e : some (b ∷ bs) ≡ some name =
        sym (ap (λ t. if t then some (b ∷ bs) else none) plain) ∙ h in
      let same : b ∷ bs ≡ name = cc in
      (
        e,
        λ empty. let bad : b ∷ bs ≡ [] = same ∙ empty in cc,
        subst (λ t. count_byte b'/' t ≡ 0) same ((==_iff (count_byte b'/' (b ∷ bs)) 0).0 plain),
      )
  | inr inner ↦
      let e : none ≡ some name = sym (ap (λ t. if t then some (b ∷ bs) else none) inner) ∙ h in cc
]

some_of_item :
    (stat : Bytes → Stat) (p : Bytes) (o : Option Bytes) {y : Item}
    → item_of stat p o ≡ some y
    → o ≡ some y.name
some_of_item stat p none h = cc
some_of_item stat p (some name) {y} h =
    let same : record { name = name; attributes = some (stat p) } ≡ y = cc in
    ap (λ t. some t.name) same

-- What is shown of a path directly in the directory.
pub shown-append :
    (stat : Bytes → Stat) (dir name : Bytes)
    → name ≢ []
    → count_byte b'/' name ≡ 0
    → shown stat dir (dir ++ name)
      ≡ some (record { name = name; attributes = some (stat (dir ++ name)) })
shown-append stat dir name filled plain =
    ap (λ o. item_of stat (dir ++ name) (proper o)) (behind-append dir name)
    ∙ ap (item_of stat (dir ++ name)) (proper-some name filled plain)

-- A path of which something is shown is directly in the directory.
pub append_of_shown :
    (stat : Bytes → Stat) (dir p : Bytes) {y : Item}
    → shown stat dir p ≡ some y
    → (p ≡ dir ++ y.name) × (y.name ≢ []) × (count_byte b'/' y.name ≡ 0)
append_of_shown stat dir p {y} h =
    let (found, filled, plain) =
      some_of_proper (behind dir p) (some_of_item stat p (proper (behind dir p)) h) in
    (append_of_behind dir p found, filled, plain)

not_some : (o : Option Item) → ((y : Item) → o ≢ some y) → o ≡ none
not_some none h = refl
not_some (some y) h = absurd (h y refl)

next_place :
    {x y : Item} (xs : List Item) (i : ℕ)
    → (j : ℕ) × (suc i ≡ 0 + j) × (get_elem? (x ∷ xs) j ≡ some y)
    → (j : ℕ) × (i ≡ 0 + j) × (get_elem? xs j ≡ some y)
next_place xs i (zero, at, e) = absurd (omega (arith, at))
next_place xs i (suc j, at, e) = (j, omega (arith, at), e)

nothing_shown :
    (stat : Bytes → Stat) (dir p : Bytes)
    → ((y : Item) → shown stat dir p ≢ some y)
    → shown stat dir p ≡ none
nothing_shown stat dir p h = not_some (shown stat dir p) h

abbrev ShownAt : (Bytes → Stat) → Bytes → List Bytes → ℕ → Item → Type 0
ShownAt stat dir ps i x = (p : Bytes) × (get_elem? ps i ≡ some p) × (shown stat dir p ≡ some x)

place_behind :
    (stat : Bytes → Stat) (dir p : Bytes) (ps : List Bytes) (i j : ℕ) (x : Item)
    → i ≡ suc j
    → ShownAt stat dir (p ∷ ps) i x
    → ShownAt stat dir ps j x
place_behind stat dir p ps i j x at = subst (λ t. ShownAt stat dir (p ∷ ps) t x) at

-- Items that stand together in the list of paths, and are all that is shown of them.
pub children_of_places :
    (stat : Bytes → Stat) (dir : Bytes) (ps : List Bytes) (items : List Item) (first : ℕ)
    → ((j : ℕ) (x : Item) → get_elem? items j ≡ some x → ShownAt stat dir ps (first + j) x)
    → ((i : ℕ) (p : Bytes) (y : Item)
        → get_elem? ps i ≡ some p
        → shown stat dir p ≡ some y
        → (j : ℕ) × (i ≡ first + j) × (get_elem? items j ≡ some y))
    → children stat dir ps ≡ items
unfolding children
children_of_places stat dir [] [] first only every = refl
children_of_places stat dir [] (x ∷ xs) first only every =
    let (p, found, rest) = only 0 x refl in cc
children_of_places stat dir (p ∷ ps) items (suc first) only every =
    ap (λ o. prepend o (children stat dir ps))
      (nothing_shown stat dir p
        (λ y s. let (j, at, rest) = every 0 p y refl s in absurd (omega (arith, at))))
    ∙ children_of_places stat dir ps items first
        (λ j x e.
          place_behind stat dir p ps (suc first + j) (first + j) x (omega arith) (only j x e))
        (λ i q y found s. let (j, at, e) = every (suc i) q y found s in (j, omega (arith, at), e))
children_of_places stat dir (p ∷ ps) [] zero only every =
    ap (λ o. prepend o (children stat dir ps))
      (nothing_shown stat dir p (λ y s. let (j, at, e) = every 0 p y refl s in cc))
    ∙ children_of_places stat dir ps [] zero (λ j x e. cc)
        (λ i q y found s. let (j, at, e) = every (suc i) q y found s in cc)
children_of_places stat dir (p ∷ ps) (x ∷ xs) zero only every =
    let (q, found, s) = only 0 x refl in
    let same : q ≡ p = cc in
    ap (λ o. prepend o (children stat dir ps)) (subst (λ t. shown stat dir t ≡ some x) same s)
    ∙ ap (λ t. x ∷ t)
        (children_of_places stat dir ps xs zero
          (λ j y e.
            place_behind stat dir p ps (0 + suc j) (0 + j) y (omega arith) (only (suc j) y e))
          (λ i r y found s. next_place xs i (every (suc i) r y found s)))

pub listed_as_lem : (path : Bytes) → directory_path path ≡ listed_as path
unfolding directory_path listed_as strcmp
listed_as_lem [] = refl
listed_as_lem (b ∷ []) = ground arith
listed_as_lem (b ∷ c ∷ cs) = ground arith

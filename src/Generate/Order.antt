-- ===== src/Generate/Order.antt =====
-- generate_catalog.c: the order of the directories that wait, and of what is printed for them.
use catalog_file_system.Base.{
  All, All-append, All-map, ℕ, suc, ◌≡◌, ◌≢◌, ◌⊎◌, inl, inr, refl, sym, ap, ◌∙◌, subst, arith,
  Bool-cases, ◌==◌, ==_iff, Ordering, List, [], ◌∷◌, ◌++◌, append_assoc, append-nil,
}
use catalog_file_system.Clib.Text.{Bytes, strcmp, count_byte}
use catalog_file_system.Clib.Text.Count.{count_byte-append}
use catalog_file_system.Clib.Text.Splits.{strcmp-Splits, Splits, Splits-append, Splits-prefix}
use catalog_file_system.Generate.Listing.{Dirent}
use catalog_file_system.Generate.Tree.{subdirectories}

-- `a` stands before `b` in a directory: by `strcmp`, and, if both are directories, by `strcmp` also when
-- '/' is put behind their names.
abbrev pub NamedBefore : Dirent → Dirent → Type 0
NamedBefore a b =
    (strcmp a.d_name b.d_name ≡ Ordering.lt)
    × (a.d_type ≡ 4
        → b.d_type ≡ 4
        → strcmp (a.d_name ++ b'/' ∷ []) (b.d_name ++ b'/' ∷ []) ≡ Ordering.lt)

-- What `scandir` finds is in this order, and the names are names of files.
abbrev pub InOrder : List Dirent → Type 0
InOrder [] = Unit {0}
InOrder (ent ∷ rest) =
    (ent.d_name ≢ []) × (count_byte b'/' ent.d_name ≡ 0) × All (NamedBefore ent) rest × InOrder rest

abbrev pub slashes : Bytes → ℕ
slashes r = count_byte b'/' r

abbrev pub closed : Bytes → Bytes
closed r = r ++ b'/' ∷ []

-- `r` waits in front of `q`.
abbrev pub WaitsBefore : Bytes → Bytes → Type 0
WaitsBefore r q =
    ((slashes r ≡ slashes q) × Splits (closed r) (closed q))
    ⊎ ((slashes q ≡ suc (slashes r)) × Splits (closed q) (closed r))

-- The input directory, or a path that begins with '/'.
abbrev pub Rooted : Bytes → Type 0
Rooted [] = Unit {0}
Rooted (b ∷ bs) = b ≡ b'/'

-- The directories that wait are in order.
abbrev pub Waiting : List Bytes → Type 0
Waiting [] = Unit {0}
Waiting (r ∷ rs) = Rooted r × All (WaitsBefore r) rs × Waiting rs

Rooted-below : (r name : Bytes) → Rooted r → Rooted (r ++ b'/' ∷ name)
Rooted-below [] name h = refl
Rooted-below (b ∷ bs) name h = h

pub slashes-below :
    (r name : Bytes) → count_byte b'/' name ≡ 0 → slashes (r ++ b'/' ∷ name) ≡ suc (slashes r)
unfolding count_byte
slashes-below r name h = omega (arith, h, count_byte-append b'/' r (b'/' ∷ name))

closed-below : (r name : Bytes) → closed (r ++ b'/' ∷ name) ≡ closed r ++ closed name
closed-below r name =
    append_assoc r (b'/' ∷ name) (b'/' ∷ []) ∙ sym (append_assoc r (b'/' ∷ []) (closed name))

-- A subdirectory of `r` is split from `q` where `r` is.
Splits-left :
    (r name q : Bytes)
    → Splits (closed r) (closed q)
    → Splits (closed (r ++ b'/' ∷ name)) (closed q)
Splits-left r name q s =
    subst (λ t. Splits t (closed q)) (sym (closed-below r name))
      (subst (λ t. Splits (closed r ++ closed name) t) (append-nil (closed q))
        (Splits-append (closed name) [] s))

Splits-right :
    (r name q : Bytes)
    → Splits (closed q) (closed r)
    → Splits (closed q) (closed (r ++ b'/' ∷ name))
Splits-right r name q s =
    subst (λ t. Splits (closed q) t) (sym (closed-below r name))
      (subst (λ t. Splits t (closed r ++ closed name)) (append-nil (closed q))
        (Splits-append [] (closed name) s))

-- What waits behind a directory waits before its subdirectories.
WaitsBefore-below :
    (r q name : Bytes)
    → count_byte b'/' name ≡ 0
    → WaitsBefore r q
    → WaitsBefore q (r ++ b'/' ∷ name)
WaitsBefore-below r q name plain (inl (same, s)) =
    inr (slashes-below r name plain ∙ ap suc same, Splits-left r name q s)
WaitsBefore-below r q name plain (inr (deeper, s)) =
    inl (deeper ∙ sym (slashes-below r name plain), Splits-right r name q s)

pub subdirectories-All :
    (P : Bytes → Type 0) (r : Bytes) (entries : List Dirent)
    → All (λ ent. ent.d_type ≡ 4 → P (r ++ b'/' ∷ ent.d_name)) entries
    → All P (subdirectories r entries)
subdirectories-All P r [] h = tt
subdirectories-All P r (ent ∷ rest) h = elim (Bool-cases (ent.d_type == 4)) [
  | inl yes_dir ↦
      rw yes_dir (h.0 ((==_iff ent.d_type 4).0 yes_dir), subdirectories-All P r rest h.1)
  | inr no_dir ↦ rw no_dir (subdirectories-All P r rest h.1)
]

-- Names that hold no '/'.
pub plain_names :
    (entries : List Dirent) → InOrder entries → All (λ ent. count_byte b'/' ent.d_name ≡ 0) entries
plain_names [] h = tt
plain_names (ent ∷ rest) (filled, plain, before, h) = (plain, plain_names rest h)

subdirectories-wait :
    (r q : Bytes) (entries : List Dirent)
    → InOrder entries
    → WaitsBefore r q
    → All (WaitsBefore q) (subdirectories r entries)
subdirectories-wait r q entries h w = subdirectories-All (WaitsBefore q) r entries (
    All-map (λ ent. count_byte b'/' ent.d_name ≡ 0)
      (λ ent. ent.d_type ≡ 4 → WaitsBefore q (r ++ b'/' ∷ ent.d_name)) entries
      (λ ent plain is_dir. WaitsBefore-below r q ent.d_name plain w) (plain_names entries h))

siblings :
    (r : Bytes) (ent other : Dirent)
    → count_byte b'/' ent.d_name ≡ 0
    → count_byte b'/' other.d_name ≡ 0
    → Splits (closed ent.d_name) (closed other.d_name)
    → WaitsBefore (r ++ b'/' ∷ ent.d_name) (r ++ b'/' ∷ other.d_name)
siblings r ent other plain plain' s = inl (
  slashes-below r ent.d_name plain ∙ sym (slashes-below r other.d_name plain'),
  subst (λ t. Splits t (closed (r ++ b'/' ∷ other.d_name))) (sym (closed-below r ent.d_name))
      (subst (λ t. Splits (closed r ++ closed ent.d_name) t) (sym (closed-below r other.d_name))
        (Splits-prefix (closed r) s)),
)

siblings_wait :
    (r : Bytes) (ent : Dirent) (rest : List Dirent)
    → ent.d_type ≡ 4
    → count_byte b'/' ent.d_name ≡ 0
    → All (NamedBefore ent) rest
    → All (λ other. count_byte b'/' other.d_name ≡ 0) rest
    → All
        (λ other.
          other.d_type ≡ 4 → WaitsBefore (r ++ b'/' ∷ ent.d_name) (r ++ b'/' ∷ other.d_name))
        rest
siblings_wait r ent [] is_dir plain before plains = tt
siblings_wait r ent (other ∷ rest) is_dir plain before plains = (
  λ other_dir.
      siblings r ent other plain plains.0
        (strcmp-Splits ent.d_name other.d_name plain plains.0 (before.0.1 is_dir other_dir)),
  siblings_wait r ent rest is_dir plain before.1 plains.1,
)

subdirectories-Waiting :
    (r : Bytes) (entries : List Dirent)
    → Rooted r
    → InOrder entries
    → Waiting (subdirectories r entries)
subdirectories-Waiting r [] rooted h = tt
subdirectories-Waiting r (ent ∷ rest) rooted (filled, plain, before, h) =
    let ih = subdirectories-Waiting r rest rooted h in
    elim (Bool-cases (ent.d_type == 4)) [
      | inl yes_dir ↦
          let is_dir = (==_iff ent.d_type 4).0 yes_dir in
          rw yes_dir (
            Rooted-below r ent.d_name rooted,
            subdirectories-All (WaitsBefore (r ++ b'/' ∷ ent.d_name)) r rest
                (siblings_wait r ent rest is_dir plain before (plain_names rest h)),
            ih,
          )
      | inr no_dir ↦ rw no_dir ih
    ]

Waiting-append :
    (rs ts : List Bytes)
    → Waiting rs
    → Waiting ts
    → All (λ q. All (WaitsBefore q) ts) rs
    → Waiting (rs ++ ts)
Waiting-append [] ts h k cross = k
Waiting-append (r ∷ rs) ts (rooted, before, h) k cross =
    (rooted, All-append (WaitsBefore r) rs ts before cross.0, Waiting-append rs ts h k cross.1)

-- One round of the walk keeps the order: the first directory leaves, and its subdirectories come
-- in behind the others.
pub Waiting-round :
    (r : Bytes) (rs : List Bytes) (entries : List Dirent)
    → Waiting (r ∷ rs)
    → InOrder entries
    → Waiting (rs ++ subdirectories r entries)
Waiting-round r rs entries (rooted, before, h) ordered =
    Waiting-append rs (subdirectories r entries) h (subdirectories-Waiting r entries rooted ordered)
      (All-map (WaitsBefore r) (λ q. All (WaitsBefore q) (subdirectories r entries)) rs
        (λ q w. subdirectories-wait r q entries ordered w) before)

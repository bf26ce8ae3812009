-- ===== src/Generate/Queue/Chain.antt =====
-- generate_catalog.c: nodes on the heap, linked by their pointers.
use catalog_file_system.Base.{
  ◌≡◌, ◌≢◌, refl, sym, ◌∙◌, ap, subst, false, arith, Option, none, some, List, [], ◌∷◌, ◌++◌, ◌==◌,
  if◌then◌else◌,
}
use catalog_file_system.Clib.Text.{Bytes}
use catalog_file_system.Generate.Queue.{Ptr, BfQueue, Heap, lookup, free}

-- The heap as a function, with one address changed.
abbrev pub write : (Ptr → Option BfQueue) → Ptr → Option BfQueue → Ptr → Option BfQueue
write node p cell q = if q == p then cell else node q

pub lookup-write :
    (heap : Heap) (p : Ptr) (c : BfQueue) (a : Ptr)
    → lookup ((p, c) ∷ heap) a ≡ write (lookup heap) p (some c) a
unfolding lookup
lookup-write heap p c a = refl

lookup-free_at : (heap : Heap) (p a : Ptr) → lookup (free heap p) a ≡ write (lookup heap) p none a
unfolding lookup free
lookup-free_at [] p a = ground arith
lookup-free_at ((q, c) ∷ heap) p a = ground (arith, lookup-free_at heap p a)

pub lookup-free : (heap : Heap) (p : Ptr) → lookup (free heap p) ≡ write (lookup heap) p none
lookup-free heap p = λ i a. lookup-free_at heap p a i

pub lookup-assign :
    (heap : Heap) (p : Ptr) (c : BfQueue) → lookup ((p, c) ∷ heap) ≡ write (lookup heap) p (some c)
lookup-assign heap p c = λ i a. lookup-write heap p c a i

-- `a` is none of the addresses.
abbrev pub Away : Ptr → List Ptr → Type 0
Away a [] = Unit {0}
Away a (b ∷ bs) = (a ≢ b) × Away a bs

-- From `p` on the nodes here these addresses are linked up to NULL, and hold these names.
abbrev pub Chain : (Ptr → Option BfQueue) → Ptr → List Ptr → List Bytes → Type 0
Chain node p [] [] = p ≡ 0
Chain node p [] (x ∷ xs) = ⊥
Chain node p (a ∷ qs) [] = ⊥
Chain node p (a ∷ qs) (x ∷ xs) =
    (p ≡ a)
    × (a ≢ 0)
    × (next : Ptr) × (node a ≡ some (record { dirname = x; next = next }))
    × Away a qs
    × Chain node next qs xs

-- `t` is the last address, or any pointer if there is none.
abbrev pub Tail : Ptr → List Ptr → Type 0
Tail t [] = Unit {0}
Tail t (a ∷ []) = t ≡ a
Tail t (a ∷ b ∷ bs) = Tail t (b ∷ bs)

pub write-same : (node : Ptr → Option BfQueue) (p : Ptr) (c : Option BfQueue) → write node p c p ≡ c
write-same node p c = ground arith

write-other :
    (node : Ptr → Option BfQueue) (p a : Ptr) (c : Option BfQueue)
    → p ≢ a
    → write node p c a ≡ node a
write-other node p a c h = let e : (a == p) ≡ false = ground arith in rw e

pub write-Chain :
    (node : Ptr → Option BfQueue) (q : Ptr) (c : Option BfQueue) (p : Ptr) (qs : List Ptr)
    (xs : List Bytes)
    → Away q qs
    → Chain node p qs xs
    → Chain (write node q c) p qs xs
write-Chain node q c p [] [] away h = h
write-Chain node q c p [] (x ∷ xs) away h = absurd h
write-Chain node q c p (a ∷ qs) [] away h = absurd h
write-Chain node q c p (a ∷ qs) (x ∷ xs) away (here, live, next, cell, apart, rest) = (
  here,
  live,
  next,
  write-other node q a c away.0 ∙ cell,
  apart,
  write-Chain node q c next qs xs away.1 rest,
)

pub free-Away :
    (node : Ptr → Option BfQueue) (f p : Ptr) (qs : List Ptr) (xs : List Bytes)
    → node f ≡ none
    → Chain node p qs xs
    → Away f qs
free-Away node f p [] [] unused h = tt
free-Away node f p [] (x ∷ xs) unused h = absurd h
free-Away node f p (a ∷ qs) [] unused h = absurd h
free-Away node f p (a ∷ qs) (x ∷ xs) unused (here, live, next, cell, apart, rest) = (
  λ e. let same : node a ≡ none = subst (λ t. node t ≡ none) e unused in cc,
  free-Away node f next qs xs unused rest,
)

Away-append : (a f : Ptr) (qs : List Ptr) → Away a qs → a ≢ f → Away a (qs ++ f ∷ [])
Away-append a f [] h ne = (ne, tt)
Away-append a f (b ∷ bs) h ne = (h.0, Away-append a f bs h.1 ne)

Away-Tail : (a t b : Ptr) (bs : List Ptr) → Away a (b ∷ bs) → Tail t (b ∷ bs) → t ≢ a
Away-Tail a t b [] h e = λ e'. h.0 (sym e' ∙ e)
Away-Tail a t b (c ∷ cs) h e = Away-Tail a t c cs h.1 e

-- A node behind the last one.
pub linked :
    (node : Ptr → Option BfQueue) (t f : Ptr) (y : Bytes) (p a : Ptr) (qs : List Ptr)
    (xs : List Bytes)
    → f ≢ 0
    → node f ≡ some (record { dirname = y; next = 0 })
    → Away f (a ∷ qs)
    → Tail t (a ∷ qs)
    → Chain node p (a ∷ qs) xs
    → (last : BfQueue) × (node t ≡ some last)
      × Chain (write node t (some (record last { next = f }))) p (a ∷ (qs ++ f ∷ [])) (xs ++ y ∷ [])
linked node t f y p a [] [] live cell away e h = absurd h
linked node t f y p a (b ∷ bs) [] live cell away e h = absurd h
linked node t f y p a [] (x ∷ []) live cell away e (here, live', next, cell', apart, rest) = (
  record { dirname = x; next = next },
  ap node e ∙ cell',
  (
    here,
    live',
    f,
    ap (write node t _) (sym e) ∙ write-same node t _,
    (λ e. away.0 (sym e), tt),
    (refl, live, 0, write-other node t f _ (λ e'. away.0 (sym (sym e ∙ e'))) ∙ cell, tt, refl),
  ),
)
linked node t f y p a (b ∷ bs) (x ∷ xs) live cell away e (here, live', next, cell', apart, rest) =
    let (last, at_tail, chain) = linked node t f y next b bs xs live cell away.1 e rest in
    (
      last,
      at_tail,
      (
        here,
        live',
        next,
        write-other node t a _ (Away-Tail a t b bs apart e) ∙ cell',
        Away-append a f (b ∷ bs) apart (λ e. away.0 (sym e)),
        chain,
      ),
    )
linked node t f y p a [] (x ∷ x' ∷ xs) live cell away e (here, live', next, cell', apart, rest) =
    absurd rest

pub Tail-append : (f a : Ptr) (qs : List Ptr) → Tail f (a ∷ (qs ++ f ∷ []))
Tail-append f a [] = refl
Tail-append f a (b ∷ bs) = Tail-append f b bs

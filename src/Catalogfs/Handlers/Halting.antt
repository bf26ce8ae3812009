-- ===== src/Catalogfs/Handlers/Halting.antt =====
-- catalogfs.c: the loops of the handlers, in any catalog file.
use catalog_file_system.Catalogfs.Reader.{reader}
use catalog_file_system.Base.{
  ℕ, zero, suc, ◌-◌, ◌<◌, ap, ◌∙◌, dec_lt, to_int_small, ◌≡◌, sym, subst, Bool, true, false, arith,
  List, [], ◌∷◌, ◌++◌, Option, none, some, ℤ, pos, ◌+ℤ◌, ◌-ℤ◌, to_int, ltb_ℤ, rounds, Outcome, ok,
  err, ◌>>=◌, Halts, ◌||◌, Halts-bind, Halts-on_error,
}
use catalog_file_system.Clib.Text.{Bytes}
use catalog_file_system.Catalogfs.Mount.{Mount}
use catalog_file_system.Catalogfs.Entry.{get_entry_from_catalog, get_entry_filepath}
use catalog_file_system.Catalogfs.Search.Bounds.{pos-next}
use catalog_file_system.Catalogfs.Search.Ends.{read-not_out_of_fuel}
use catalog_file_system.Catalogfs.Search.Correct.{bin_search_total}
use catalog_file_system.Catalogfs.Directory.Contents.{rounds-contents, leb-pos_true, leb-pos_false}
use catalog_file_system.Catalogfs.Directory.Halting.{
  Halts-if, post_error, get_directory_contents-Halts, get_directory_contents-Inside,
}
use catalog_file_system.Catalogfs.Handlers.{
  Item, Filler, dots, read_item, list_loop, getattr_by_location, catalog_getattr, catalog_readdir,
  catalog_readlink,
}

entry-Halts : (m : Mount) (z : ℤ) → Halts (get_entry_from_catalog m z)
unfolding get_entry_from_catalog
entry-Halts m z = ground arith

filepath-Halts : (m : Mount) (z : ℤ) → Halts (get_entry_filepath m z)
unfolding get_entry_filepath
filepath-Halts m z = Halts-bind _ _ (read-not_out_of_fuel (reader m) z) (λ e h b. cc)

attributes-Halts : (m : Mount) (z : ℤ) → Halts (getattr_by_location m z)
unfolding getattr_by_location
attributes-Halts m z = Halts-bind _ _ (Halts-on_error _ _ (entry-Halts m z) (λ b. cc)) (λ e h b. cc)

pub catalog_getattr-Halts : (m : Mount) (path : Bytes) → Halts (catalog_getattr m path)
unfolding catalog_getattr
catalog_getattr-Halts m path =
    Halts-bind _ _ (bin_search_total (reader m) path)
      (λ z h. Halts-if _ (err 2) _ (λ b. cc) (Halts-on_error _ _ (attributes-Halts m z) (λ b. cc)))

pub catalog_readlink-Halts :
    (m : Mount) (path : Bytes) (size : ℕ) → Halts (catalog_readlink m path size)
unfolding catalog_readlink
catalog_readlink-Halts m path size = Halts-bind _ _ (bin_search_total (reader m) path) (λ z h.
    Halts-if _ (err 2) _ (λ b. cc)
      (Halts-bind _ _ (Halts-on_error _ _ (entry-Halts m z) (λ b. cc)) (λ e h' b. cc)))

item-Halts : (m : Mount) (z : ℤ) → Halts (read_item m z)
unfolding read_item
item-Halts m z = ground (arith, attributes-Halts m z, filepath-Halts m z)

module _ (m : Mount) (full : Filler) (hi : ℕ) (few : suc hi < 0x8000_0000) where
  abbrev Tail : ℕ → ℤ → List Item → Item → Bool → Outcome (List Item)
  Tail k z out x b = elim b [
    | true ↦ ok (out ++ x ∷ [])
    | false ↦ list_loop k m full z (pos hi) (out ++ x ∷ [])
  ]

  abbrev Body : ℕ → ℤ → List Item → Option Item → Outcome (List Item)
  Body k z out item = elim item [
    | none ↦ list_loop k m full z (pos hi) out
    | some x ↦ Tail k z out x (full out x)
  ]

  abbrev Round : ℕ → ℤ → List Item → Bool → Outcome (List Item)
  Round k z out b = elim b [
    | false ↦ ok out
    | true ↦ read_item m z >>= Body k (to_int (z +ℤ pos 1)) out
  ]

  tail-Halts :
      (k : ℕ) (z : ℤ) (out : List Item) (x : Item) (b : Bool)
      → ((out' : List Item) → Halts (list_loop k m full z (pos hi) out'))
      → Halts (Tail k z out x b)
  tail-Halts k z out x true rest = λ b. cc
  tail-Halts k z out x false rest = rest _

  body-Halts :
      (k : ℕ) (z : ℤ) (out : List Item) (item : Option Item)
      → ((out' : List Item) → Halts (list_loop k m full z (pos hi) out'))
      → Halts (Body k z out item)
  body-Halts k z out none rest = rest out
  body-Halts k z out (some x) rest = tail-Halts k z out x (full out x) rest

  list_loop-Halts :
      (k l : ℕ) (out : List Item) → suc hi - l < k → Halts (list_loop k m full (pos l) (pos hi) out)
  unfolding list_loop
  list_loop-Halts zero l out fuel = absurd (omega arith)
  list_loop-Halts (suc k) l out fuel = elim (dec_lt hi l) [
    | yes end ↦ subst (λ b. Halts (Round k (pos l) out b)) (sym (leb-pos_false l hi end)) (λ b. cc)
    | no more ↦
        let e : to_int (pos l +ℤ pos 1) ≡ pos (suc l) =
          ap to_int (pos-next l) ∙ to_int_small (suc l) (omega arith) in
        subst (λ b. Halts (Round k (pos l) out b)) (sym (leb-pos_true l hi (omega arith)))
          (Halts-bind _ _ (item-Halts m (pos l)) (λ item h.
            body-Halts k (to_int (pos l +ℤ pos 1)) out item (λ out'.
              subst (λ z. Halts (list_loop k m full z (pos hi) out')) (sym e)
                (list_loop-Halts k (suc l) out' (omega arith)))))
  ]

pub catalog_readdir-Halts :
    (m : Mount) (full : Filler) (path : Bytes)
    → m.catalog_len < 0x8000_0000
    → Halts (catalog_readdir m full path)
unfolding catalog_readdir
catalog_readdir-Halts m full path few =
    Halts-bind _ _ (Halts-on_error _ _ (get_directory_contents-Halts (reader m) _) (λ b. cc))
      (λ r h.
        let s = get_directory_contents-Inside (reader m) _ r (post_error _ 2 h) in
        let e : to_int (r.0 +ℤ pos 1) ≡ pos (suc s.first) =
          ap (λ z. to_int (z +ℤ pos 1)) s.first_is
          ∙ ap to_int (pos-next s.first)
          ∙ to_int_small (suc s.first) (omega (arith, s.first_in)) in
        let within : Halts (
            list_loop (suc (rounds (r.1 -ℤ to_int (r.0 +ℤ pos 1) +ℤ pos 1))) m full
              (to_int (r.0 +ℤ pos 1)) r.1 dots) =
          rw (s.last_is, e)
            (list_loop-Halts m full s.last (omega (arith, s.last_in))
              (suc (rounds (pos s.last -ℤ pos (suc s.first) +ℤ pos 1))) (suc s.first) dots
              (rw rounds-contents (omega arith))) in
        Halts-if (ltb_ℤ r.0 (pos 0) || ltb_ℤ r.1 (pos 0)) (err 2) _ (λ b. cc) within)

-- ===== src/Catalogfs/Directory/Halting.antt =====
-- catalogfs.c: `get_directory_contents` in any catalog file: its loop ends, and its range is inside.
use catalog_file_system.Catalogfs.Reader.{Reader}
use catalog_file_system.Base.{
  ℕ, ◌-◌, ◌<◌, ap, ◌∙◌, on_error, exit, out_of_fuel, ◌≡◌, sym, Bool, true, false, arith, ℤ, pos,
  negsuc, ◌+ℤ◌, ◌-ℤ◌, ltb_ℤ, leb_ℤ, rounds, if◌then◌else◌, Outcome, ok, err, ◌>>=◌, Halts, ◌==◌,
  ◌||◌, not, length, refl, Halts-bind, Halts-on_error, result_of_bind,
}
use catalog_file_system.Clib.Text.{Bytes, last_byte}
use catalog_file_system.Catalogfs.Entry.{find_depth}
use catalog_file_system.Catalogfs.Search.{bin_search}
use catalog_file_system.Catalogfs.Search.Ends.{Ends-total, Ends-post}
use catalog_file_system.Catalogfs.Search.Correct.{bin_search_total, bin_search_inside}
use catalog_file_system.Catalogfs.Directory.{contents_from, get_directory_contents}
use catalog_file_system.Catalogfs.Directory.Contents.{contents_loop-Ends, rounds-contents}

pub Halts-if :
    {A : Type 0} (b : Bool) (x y : Outcome A) → Halts x → Halts y → Halts (if b then x else y)
Halts-if true x y h k = h
Halts-if false x y h k = k

pub err-Halts : {A : Type 0} (e : ℕ) → Halts {A = A} (err e)
err-Halts e b = cc

below_zero : (n : ℕ) → ltb_ℤ (negsuc n) (pos 0) ≡ true
unfolding ltb_ℤ
below_zero n = ground arith

abbrev pair_with : ℤ → Outcome ℤ → Outcome (ℤ × ℤ)
pair_with low o = do i ← o; ok (low, i -ℤ pos 1)

pair-Halts : (o : Outcome ℤ) (low : ℤ) → Halts o → Halts (pair_with low o)
pair-Halts o low h = Halts-bind o (λ i. ok (low, i -ℤ pos 1)) h (λ e h b. cc)

contents-Halts :
    (m : Reader) (dir : Bytes) (z : ℤ) → bin_search m dir ≡ ok z → Halts (contents_from m dir z)
unfolding contents_from
contents-Halts m dir (negsuc n) found = rw (below_zero n) (err-Halts 2)
contents-Halts m dir (pos i) found =
    let inside = bin_search_inside m dir i found in
    Halts-if _ (err 2) _ (err-Halts 2) (
      Halts-if _ (err 2) _ (err-Halts 2) (
        pair-Halts _ (pos i) (
          Halts-on_error _ _
            (Ends-total (
              contents_loop-Ends m dir (rounds (pos m.catalog_len -ℤ pos i +ℤ pos 1)) i inside
                (rw rounds-contents (omega arith))))
            (err-Halts 2))))

pub get_directory_contents-Halts : (m : Reader) (dir : Bytes) → Halts (get_directory_contents m dir)
unfolding get_directory_contents
get_directory_contents-Halts m dir =
    Halts-if _ (err 1) _ (λ b. cc) (Halts-bind _ _ (bin_search_total m dir) (contents-Halts m dir))

-- What the range of a directory is, in any catalog.
pub record Inside (m : Reader) (r : ℤ × ℤ) : Type 0 where
  pub first : ℕ
  pub last : ℕ
  pub first_is : r.0 ≡ pos first
  pub last_is : r.1 ≡ pos last
  pub first_in : first < m.catalog_len
  pub last_in : last < m.catalog_len

not_refused :
    {A : Type 0} (b : Bool) (e : ℕ) (o : Outcome A) {a : A}
    → (if b then err e else o) ≡ ok a
    → o ≡ ok a
not_refused true e o same = cc
not_refused false e o same = same

bound_result :
    {A B : Type 0} (o : Outcome A) (f : A → Outcome B) {b : B}
    → (o >>= f) ≡ ok b
    → (a : A) × (o ≡ ok a) × (f a ≡ ok b)
bound_result (ok a) f h = (a, refl, h)
bound_result (err e) f h = cc
bound_result exit f h = cc
bound_result out_of_fuel f h = cc

refused_if :
    {A B : Type 0} (b : Bool) (e : ℕ) (o : Outcome A) {a : A}
    → b ≡ true
    → (if b then err e else o) ≡ ok a
    → B
refused_if true e o h same = cc
refused_if false e o h same = cc

pub post_error : {A : Type 0} (o : Outcome A) (e : ℕ) {a : A} → on_error o (err e) ≡ ok a → o ≡ ok a
post_error (ok a) e h = h
post_error (err c) e h = cc
post_error exit e h = cc
post_error out_of_fuel e h = cc

one_less : (n : ℕ) → 0 < n → pos n -ℤ pos 1 ≡ pos (n - 1)
unfolding ◌-ℤ◌ ◌+ℤ◌
one_less n h = ground arith

contents-Inside :
    (m : Reader) (dir : Bytes) (z : ℤ) (r : ℤ × ℤ)
    → bin_search m dir ≡ ok z
    → contents_from m dir z ≡ ok r
    → Inside m r
unfolding contents_from
contents-Inside m dir (negsuc n) r found e = refused_if _ 2 _ (below_zero n) e
contents-Inside m dir (pos i) r found e =
    let inside = bin_search_inside m dir i found in
    let listed =
      not_refused (leb_ℤ (find_depth dir) (pos 0)) 2 _
        (not_refused (ltb_ℤ (pos i) (pos 0)) 2 _ e) in
    let (z, ended, same) = result_of_bind _ (λ z. (pos i, z -ℤ pos 1)) listed in
    let c =
      Ends-post
        (contents_loop-Ends m dir (rounds (pos m.catalog_len -ℤ pos i +ℤ pos 1)) i inside
          (rw rounds-contents (omega (arith, inside))))
        (post_error _ 2 ended) in
    record {
      first = i;
      last = c.b - 1;
      first_is = ap (λ p. p.0) (sym same);
      last_is =
          ap (λ p. p.1) (sym same)
          ∙ ap (λ t. t -ℤ pos 1) c.is_pos
          ∙ one_less c.b (omega (arith, c.lt_b));
      first_in = inside;
      last_in = omega (arith, c.lt_b, c.b_le);
    }

pub get_directory_contents-Inside :
    (m : Reader) (dir : Bytes) (r : ℤ × ℤ) → get_directory_contents m dir ≡ ok r → Inside m r
unfolding get_directory_contents
get_directory_contents-Inside m dir r e =
    let (z, found, h) =
      bound_result _ _ (not_refused (length dir == 0 || not (last_byte dir == b'/')) 1 _ e) in
    contents-Inside m dir z r found h

-- ===== src/Cli/Sort.antt =====
-- sort.Strings, which orders strings by their bytes. Its result does not depend on the order in which
-- the strings come.
use mathlib.Core.List.{Permᴰ}
use broadcast.Common.{
  ◌≡◌, refl, ◌∙◌, ap, Bool, true, false, ◌&&◌, ◌||◌, List, [], ◌∷◌, arith, Bytes, ltb, ◌==◌,
  if◌then◌else◌,
}

unfoldable pub leb_bytes : Bytes → Bytes → Bool
leb_bytes [] t = true
leb_bytes (x ∷ s) [] = false
leb_bytes (x ∷ s) (y ∷ t) = ltb x y || (x == y && leb_bytes s t)

unfoldable pub insert_sorted : Bytes → List Bytes → List Bytes
unfolding leb_bytes
insert_sorted a [] = a ∷ []
insert_sorted a (b ∷ s) =
    let rest = insert_sorted a s in if leb_bytes a b then a ∷ b ∷ s else b ∷ rest

unfoldable pub sort : List Bytes → List Bytes
unfolding insert_sorted
sort [] = []
sort (a ∷ s) = insert_sorted a (sort s)

leb_bytes_total : (s t : Bytes) → (leb_bytes s t || leb_bytes t s) ≡ true
unfolding leb_bytes
leb_bytes_total [] t = refl
leb_bytes_total (x ∷ s) [] = refl
leb_bytes_total (x ∷ s) (y ∷ t) = ground (arith, leb_bytes_total s t)

leb_bytes_antisym : (s t : Bytes) → leb_bytes s t ≡ true → leb_bytes t s ≡ true → s ≡ t
unfolding leb_bytes
leb_bytes_antisym [] [] h k = refl
leb_bytes_antisym [] (y ∷ t) h k = cc
leb_bytes_antisym (x ∷ s) [] h k = cc
leb_bytes_antisym (x ∷ s) (y ∷ t) h k = ground (arith, leb_bytes_antisym s t)

leb_bytes_trans :
    (s t u : Bytes) → leb_bytes s t ≡ true → leb_bytes t u ≡ true → leb_bytes s u ≡ true
unfolding leb_bytes
leb_bytes_trans [] t u h k = refl
leb_bytes_trans (x ∷ s) [] u h k = cc
leb_bytes_trans (x ∷ s) (y ∷ t) [] h k = cc
leb_bytes_trans (x ∷ s) (y ∷ t) (z ∷ u) h k = ground (arith, leb_bytes_trans s t u)

insert_sorted_comm :
    (a b : Bytes) (s : List Bytes)
    → insert_sorted a (insert_sorted b s) ≡ insert_sorted b (insert_sorted a s)
unfolding insert_sorted
insert_sorted_comm a b [] = ground (arith, leb_bytes_total a b, leb_bytes_antisym a b)
insert_sorted_comm a b (x ∷ s) = ground (
  arith,
  leb_bytes_total a b,
  leb_bytes_antisym a b,
  leb_bytes_total a x,
  leb_bytes_total b x,
  leb_bytes_trans a b x,
  leb_bytes_trans b a x,
  leb_bytes_trans x a b,
  leb_bytes_trans x b a,
  insert_sorted_comm a b s,
)

-- Lists of the same strings are sorted to the same list.
pub sort-Perm : {s t : List Bytes} → Permᴰ s t → sort s ≡ sort t
unfolding sort
sort-Perm Permᴰ.nil = refl
sort-Perm (Permᴰ.cons {a} {b} e r) = rw e (ap (insert_sorted b) (sort-Perm r))
sort-Perm (Permᴰ.swap {a} {b} {a'} {b'} {l} e f) = rw (e, f) (insert_sorted_comm b' a' (sort l))
sort-Perm (Permᴰ.trans r s) = sort-Perm r ∙ sort-Perm s

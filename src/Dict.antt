-- ===== src/Dict.antt =====
-- Go's maps keyed by strings, as association lists. A map is iterated in the order of the list,
-- which stands for the unspecified order of Go.
pub mod Keys
pub mod Distinct
pub mod Each
use broadcast.Common.{
  ℕ, ◌≡◌, refl, Option, none, some, Bool, true, false, List, [], ◌∷◌, arith, Bytes, same, same_iff,
  if◌then◌else◌,
}

abbrev pub Dict {ℓ} : Type ℓ → Type ℓ
Dict V = List (Bytes × V)

module _ {ℓ} {V : Type ℓ} where
  -- v, ok := d[k]
  unfoldable pub lookup : Bytes → Dict V → Option V
  lookup k [] = none
  lookup k ((j, v) ∷ d) = if same j k then some v else lookup k d

  -- d[k] = v
  unfoldable pub insert : Bytes → V → Dict V → Dict V
  insert k v [] = (k, v) ∷ []
  insert k v ((j, w) ∷ d) = if same j k then (j, v) ∷ d else (j, w) ∷ insert k v d

  -- delete(d, k)
  unfoldable pub remove : Bytes → Dict V → Dict V
  remove k [] = []
  remove k ((j, w) ∷ d) = let rest = remove k d in if same j k then rest else (j, w) ∷ rest

  unfoldable pub keys : Dict V → List Bytes
  keys [] = []
  keys ((j, w) ∷ d) = j ∷ keys d

  -- _, ok := d[k]
  unfoldable pub has : Bytes → Dict V → Bool
  has k d = elim (lookup k d) [ none ↦ false | some _ ↦ true ]

  pub lookup-insert :
      (k j : Bytes) (v : V) (d : Dict V)
      → lookup j (insert k v d) ≡ (if same k j then some v else lookup j d)
  unfolding lookup insert
  lookup-insert k j v [] = refl
  lookup-insert k j v ((i, w) ∷ d) =
      ground (arith, same_iff k j, same_iff i k, same_iff i j, lookup-insert k j v d)

  pub lookup-remove :
      (k j : Bytes) (d : Dict V) → lookup j (remove k d) ≡ (if same k j then none else lookup j d)
  unfolding lookup remove
  lookup-remove k j [] = ground arith
  lookup-remove k j ((i, w) ∷ d) =
      ground (arith, lookup-remove k j d, same_iff i k, same_iff i j, same_iff k j)

  pub has-lookup : (k : Bytes) (d : Dict V) (v : V) → lookup k d ≡ some v → has k d ≡ true
  unfolding has
  has-lookup k d v h = rw (h, has)

pub has-insert {ℓ} :
    {V : Type ℓ} (k j : Bytes) (v : V) (d : Dict V)
    → has j (insert k v d) ≡ (if same k j then true else has j d)
unfolding has
has-insert k j v d = ground (arith, lookup-insert k j v d)

pub has-remove {ℓ} :
    {V : Type ℓ} (k j : Bytes) (d : Dict V)
    → has j (remove k d) ≡ (if same k j then false else has j d)
unfolding has
has-remove k j d = ground (arith, lookup-remove k j d)

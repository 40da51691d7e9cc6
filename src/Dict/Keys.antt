-- ===== src/Dict/Keys.antt =====
-- The keys of a map, and what a loop over them visits.
use broadcast.Common.{◌≡◌, refl, Bool, false, ◌||◌, List, [], ◌∷◌, arith, Bytes, same, length}
use broadcast.Dict.{Dict, lookup, keys, has}

-- Is the string one of the list?
unfoldable pub among : Bytes → List Bytes → Bool
among k [] = false
among k (j ∷ js) = same j k || among k js

module _ {ℓ} {V : Type ℓ} where
  -- A loop over a map visits exactly the keys that a lookup finds.
  pub among-keys : (k : Bytes) (d : Dict V) → among k (keys d) ≡ has k d
  unfolding among keys has lookup
  among-keys k [] = refl
  among-keys k ((j, w) ∷ d) = ground (arith, among-keys k d)

  pub length-keys : (d : Dict V) → length (keys d) ≡ length d
  unfolding keys
  length-keys [] = refl
  length-keys ((j, w) ∷ d) = omega (arith, length-keys d)

  pub has-empty : (d : Dict V) (j : Bytes) → length d ≡ 0 → has j d ≡ false
  unfolding has lookup
  has-empty [] j h = refl
  has-empty (e ∷ d) j h = absurd (omega arith)

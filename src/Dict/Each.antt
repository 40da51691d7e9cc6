-- ===== src/Dict/Each.antt =====
-- A property of every value of a map.
use broadcast.Common.{◌≡◌, inl, inr, Bool-cases, some, [], arith, Bytes, same}
use mathlib.Core.Path.{subst}
use broadcast.Dict.{Dict, lookup, insert, remove, lookup-insert, lookup-remove}

pub record Each {ℓ} {V : Type ℓ} (P : V → Type 0) (d : Dict V) : Type ℓ where
  pub at : (k : Bytes) (v : V) → lookup k d ≡ some v → P v

module _ {ℓ} {V : Type ℓ} {P : V → Type 0} where
  pub Each-nil : Each P []
  unfolding lookup
  Each-nil = record { at = λ k v e. cc }

  pub Each-insert : (k : Bytes) (v : V) (d : Dict V) → P v → Each P d → Each P (insert k v d)
  Each-insert k v d p h = record {
    at = λ j w e. elim (Bool-cases (same k j)) [
      | inl t ↦ let q : v ≡ w = ground (arith, lookup-insert k j v d) in subst P q p
      | inr f ↦ h.at j w (ground (arith, lookup-insert k j v d))
    ];
  }

  pub Each-remove : (k : Bytes) (d : Dict V) → Each P d → Each P (remove k d)
  Each-remove k d h = record { at = λ j w e. h.at j w (ground (arith, lookup-remove k j d)) }

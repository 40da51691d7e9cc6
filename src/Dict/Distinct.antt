-- ===== src/Dict/Distinct.antt =====
-- No key stands twice in a map, so the length of the list is Go's `len`.
use broadcast.Common.{◌+◌, ◌≡◌, refl, false, [], ◌∷◌, arith, Bytes, same_iff, length, if◌then◌else◌}
use broadcast.Dict.{Dict, lookup, insert, remove, has, has-insert, has-remove}

module _ {ℓ} {V : Type ℓ} where
  abbrev pub IsDistinct : Dict V → Type 0
  IsDistinct [] = Unit
  IsDistinct ((j, w) ∷ d) = (has j d ≡ false) × IsDistinct d

  pub insert-IsDistinct :
      (k : Bytes) (v : V) (d : Dict V) → IsDistinct d → IsDistinct (insert k v d)
  unfolding insert
  insert-IsDistinct k v [] h = (unfold has lookup in refl, tt)
  insert-IsDistinct k v ((j, w) ∷ d) h =
      ground (arith, insert-IsDistinct k v d, has-insert k j v d, same_iff j k, same_iff k j)

  pub remove-IsDistinct : (k : Bytes) (d : Dict V) → IsDistinct d → IsDistinct (remove k d)
  unfolding remove
  remove-IsDistinct k [] h = tt
  remove-IsDistinct k ((j, w) ∷ d) h = ground (arith, remove-IsDistinct k d, has-remove k j d)

  remove_absent : (k : Bytes) (d : Dict V) → has k d ≡ false → remove k d ≡ d
  unfolding remove has lookup
  remove_absent k [] h = refl
  remove_absent k ((j, w) ∷ d) h = ground (arith, remove_absent k d)

  -- A new key makes the map longer by one, an old one leaves its length.
  pub length-insert :
      (k : Bytes) (v : V) (d : Dict V)
      → length (insert k v d) ≡ (if has k d then length d else length d + 1)
  unfolding insert has lookup
  length-insert k v [] = ground arith
  length-insert k v ((j, w) ∷ d) = ground (arith, length-insert k v d)

  pub length-remove :
      (k : Bytes) (d : Dict V)
      → IsDistinct d
      → length (remove k d) + (if has k d then 1 else 0) ≡ length d
  unfolding remove has lookup
  length-remove k [] h = ground arith
  length-remove k ((j, w) ∷ d) h =
      ground (arith, length-remove k d, remove_absent k d, same_iff j k)

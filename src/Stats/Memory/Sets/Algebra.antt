-- ===== src/Stats/Memory/Sets/Algebra.antt =====
-- What SUNION and SDIFF compute, by membership.
use broadcast.Common.{
  ◌≡◌, refl, none, some, Bool, false, not, ◌&&◌, ◌||◌, List, [], ◌∷◌, arith, Bytes, ok, same_iff,
  ◌∙◌, inl, inr, Option-cases,
}
use broadcast.Dict.{Dict, lookup, has, has-insert}
use broadcast.Stats.Memory.{MemoryBackend, Set}
use broadcast.Stats.Memory.Sets.{select, sdiff, union, sunion}

-- Is the value in the set of that name? A missing set has no members.
unfoldable pub is_in : Dict Set → Bytes → Bytes → Bool
is_in sets j name = elim (lookup name sets) [ some s ↦ has j s | none ↦ false ]

-- Is the value in one of the sets?
unfoldable pub in_some : Dict Set → Bytes → List Bytes → Bool
in_some sets j [] = false
in_some sets j (v ∷ names) = is_in sets j v || in_some sets j names

pub has-nil : (j : Bytes) → has {V = Unit {0}} j [] ≡ false
unfolding has lookup
has-nil j = refl

-- The loop over a map with a test keeps what was there, and adds what passes the test.
pub has-select :
    (p : Bytes → Bool) (s results : Set) (j : Bytes)
    → has j (select p s results) ≡ (has j results || (has j s && p j))
unfolding select
has-select p [] results j = rw has-nil (ground arith)
has-select p ((k, u) ∷ s) results j =
    has-select p s _ j
    ∙ unfold has lookup in ground (arith, has-insert k j tt results, same_iff k j)

-- SDIFF removes exactly the members of the named set, and a missing set removes nothing.
pub sdiff_members :
    (result_set : Set) (name : Bytes) (mem : MemoryBackend)
    → (r : Set) × (sdiff result_set name mem ≡ (ok r, mem))
      × ((j : Bytes) → has j r ≡ (has j result_set && not (is_in mem.sets j name)))
unfolding sdiff is_in
sdiff_members result_set name mem = elim (Option-cases (lookup name mem.sets)) [
  | inl e ↦ (result_set, ground arith, λ j. ground arith)
  | inr (s, e) ↦ (
    select (λ k. not (has k s)) result_set [],
    ground arith,
    λ j. rw (has-select, has-nil) (ground arith),
  )
]

has-union :
    (sets : Dict Set) (names : List Bytes) (results : Set) (j : Bytes)
    → has j (union sets names results) ≡ (has j results || in_some sets j names)
unfolding union in_some is_in
has-union sets [] results j = ground arith
has-union sets (v ∷ names) results j =
    has-union sets names _ j ∙ elim (Option-cases (lookup v sets)) [
      | inl e ↦ ground arith
      | inr (s, e) ↦ rw e (rw has-select (ground arith))
    ]

-- SUNION returns exactly the values that are in one of the named sets; missing sets are skipped.
pub sunion_members :
    (names : List Bytes) (mem : MemoryBackend)
    → (r : Set) × (sunion names mem ≡ (ok r, mem))
      × ((j : Bytes) → has j r ≡ in_some mem.sets j names)
unfolding sunion
sunion_members names mem =
    (union mem.sets names [], refl, λ j. has-union mem.sets names [] j ∙ rw has-nil refl)

-- ===== src/Stats/Memory/Sets/Count.antt =====
-- What SADD and SREM do to the members of a set, and how their replies relate to its size.
use broadcast.Common.{
  ℕ, ◌+◌, ◌≡◌, inl, inr, Option-cases, none, some, not, ◌&&◌, ◌||◌, [], arith, Bytes, ok, same,
  same_iff, same_refl, length, if◌then◌else◌,
}
use broadcast.Common.Int.{pos, negsuc}
use broadcast.Dict.{
  Dict, lookup, insert, remove, has, has-lookup, lookup-insert, has-insert, has-remove,
}
use broadcast.Dict.Distinct.{length-insert, length-remove}
use broadcast.Stats.Memory.{MemoryBackend, Set}
use broadcast.Stats.Memory.Sets.{sadd, srem}
use broadcast.Stats.Memory.Sets.Algebra.{is_in, has-nil}
use broadcast.Stats.Memory.Sets.Steps.{sadd_missing, sadd_held}
use broadcast.Stats.Memory.Valid.{IsValid}

-- The number of members, 0 for a missing set.
unfoldable pub card : Dict Set → Bytes → ℕ
card sets name = elim (lookup name sets) [ some s ↦ length s | none ↦ 0 ]

-- SADD replies 1 for a new member and 0 for an old one. Afterwards the value is in the set, the
-- other members of all sets are as before, and the set has grown by the reply.
pub sadd_adds :
    (name value other j : Bytes) (mem : MemoryBackend)
    → ((sadd name value mem).0 ≡ ok (pos (if is_in mem.sets value name then 0 else 1)))
      × (is_in (sadd name value mem).1.sets j other
          ≡ ((same name other && same value j) || is_in mem.sets j other))
      × (card (sadd name value mem).1.sets name
          ≡ card mem.sets name + (if is_in mem.sets value name then 0 else 1))
unfolding is_in card
sadd_adds name value other j mem = elim (Option-cases (lookup name mem.sets)) [
  | inl e ↦
      let created = insert name [] mem.sets in
      let one : Set = insert value tt [] in
      rw (sadd_missing name value mem e) (
        ground arith,
        ground (
          arith,
          lookup-insert name other one created,
          lookup-insert name other [] mem.sets,
          has-insert {0} value j tt [],
          has-nil j,
          same_iff name other,
        ),
        ground (
          arith,
          lookup-insert name name one created,
          length-insert {0} value tt [],
          has-nil value,
          same_refl name,
        ),
      )
  | inr (s, e) ↦ rw (sadd_held name value s mem e) (
    ground arith,
    ground (
      arith,
      lookup-insert name other (insert value tt s) mem.sets,
      has-insert value j tt s,
      same_iff name other,
      same_iff value j,
    ),
    ground (
      arith,
      lookup-insert name name (insert value tt s) mem.sets,
      length-insert value tt s,
      same_refl name,
    ),
  )
]

-- In a state whose maps hold no key twice SREM replies -1 for a missing set, 1 for a member, which
-- it removes, and 0 for any other value. The other members of all sets are as before, and the set
-- has shrunk by 1 exactly after a reply of 1.
pub srem_removes :
    (name value other j : Bytes) (mem : MemoryBackend)
    → IsValid mem
    → ((srem name value mem).0
        ≡ ok (
            if not (has name mem.sets)
            then negsuc 0
            else if is_in mem.sets value name
            then pos 1
            else pos 0))
      × (is_in (srem name value mem).1.sets j other
          ≡ (not (same name other && same value j) && is_in mem.sets j other))
      × (card (srem name value mem).1.sets name + (if is_in mem.sets value name then 1 else 0)
          ≡ card mem.sets name)
unfolding srem is_in card
srem_removes name value other j mem h = elim (Option-cases (lookup name mem.sets)) [
  | inl e ↦ (unfold has in ground arith, ground (arith, same_iff name other), ground arith)
  | inr (s, e) ↦ (
    ground (arith, has-lookup name mem.sets s e),
    ground (
      arith,
      lookup-insert name other (remove value s) mem.sets,
      has-remove value j s,
      same_iff name other,
      same_iff value j,
    ),
    ground (
      arith,
      lookup-insert name name (remove value s) mem.sets,
      length-remove value s (h.members_distinct.at name s e),
      same_refl name,
    ),
  )
]

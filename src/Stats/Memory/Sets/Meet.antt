-- ===== src/Stats/Memory/Sets/Meet.antt =====
-- What SINTER answers: nil when a set is missing, else the common members.
use broadcast.Common.{
  ℕ, ◌<◌, ◌≡◌, ◌≢◌, refl, Option, none, some, Bool, true, false, ◌&&◌, List, [], ◌∷◌, arith, Bytes,
  ok, ◌∙◌, inl, inr, Option-cases, length, get_elem?,
}
use broadcast.Dict.{Dict, lookup, has}
use broadcast.Stats.Memory.{MemoryBackend, Set}
use broadcast.Stats.Memory.Sets.{select, slot, gather, in_others, meet, sinter}
use broadcast.Stats.Memory.Sets.Algebra.{is_in, has-select, has-nil}
use broadcast.Stats.Memory.Sets.Inter.{
  IsSmallest-one, gather-collect, in_others-all_have, get_elem?-inside, collect, all_have,
}

-- Is there a set of each name?
unfoldable pub all_present : Dict Set → List Bytes → Bool
all_present sets [] = true
all_present sets (v ∷ names) = has v sets && all_present sets names

-- Is the value in the set of each name?
unfoldable pub in_all : Dict Set → Bytes → List Bytes → Bool
in_all sets j [] = true
in_all sets j (v ∷ names) = is_in sets j v && in_all sets j names

collect-none :
    (sets : Dict Set) (names : List Bytes)
    → collect sets names ≡ none
    → all_present sets names ≡ false
unfolding collect all_present has
collect-none sets [] h = cc
collect-none sets (v ∷ names) h = ground (arith, collect-none sets names)

collect-some :
    (sets : Dict Set) (names : List Bytes) (values : List Set)
    → collect sets names ≡ some values
    → (all_present sets names ≡ true) × ((j : Bytes) → all_have j values ≡ in_all sets j names)
unfolding collect all_present has in_all is_in all_have
collect-some sets [] values h = (refl, λ j. ground arith)
collect-some sets (v ∷ names) values h = elim (Option-cases (lookup v sets)) [
  | inl e ↦ absurd (ground arith)
  | inr (s, e) ↦ elim (Option-cases (collect sets names)) [
    | inl e' ↦ absurd (ground arith)
    | inr (rest, e') ↦
        let (present, members) = collect-some sets names rest e' in
        (ground arith, λ j. ground (arith, members j))
  ]
]

-- What SINTER should answer: nil when a set is missing, else the common members.
abbrev pub IsMeet : Dict Set → List Bytes → Option Set → Type 0
IsMeet sets names none = all_present sets names ≡ false
IsMeet sets names (some r) =
    (all_present sets names ≡ true) × ((j : Bytes) → has j r ≡ in_all sets j names)

meet_members :
    (values : List Set) (m : ℕ)
    → m < length values
    → (r : Set) × (meet (values, m) ≡ ok (some r)) × ((j : Bytes) → has j r ≡ all_have j values)
unfolding meet slot
meet_members values m h = elim (Option-cases (get_elem? values m)) [
  | inl e ↦ absurd (get_elem?-inside values m h e)
  | inr (s, e) ↦ (
    select (λ k. in_others k m 0 values) s [],
    ground arith,
    λ j.
        rw (has-select, has-nil)
          (ground (arith, in_others-all_have j m 0 m values h (omega arith))),
  )
]

gather_first :
    (sets : Dict Set) (v : Bytes) (names : List Bytes) (s : Set)
    → lookup v sets ≡ some s
    → gather sets (v ∷ names) [] 0 ≡ gather sets names (s ∷ []) 0
unfolding gather slot
gather_first sets v names s e = ground arith

-- For at least one name SINTER does not panic and changes nothing. It answers nil exactly when a
-- set is missing, and otherwise the set of the values that are in every named set.
pub sinter_members :
    (names : List Bytes) (mem : MemoryBackend)
    → names ≢ []
    → (o : Option Set) × (sinter names mem ≡ (ok o, mem)) × IsMeet mem.sets names o
unfolding sinter
sinter_members [] mem h = absurd (h refl)
sinter_members (v ∷ names) mem h = elim (Option-cases (lookup v mem.sets)) [
  | inl e ↦ (none, unfold gather in ground arith, unfold all_present has in ground arith)
  | inr (s, e) ↦
      let first = gather_first mem.sets v names s e in
      elim (gather-collect mem.sets names (s ∷ []) 0 (IsSmallest-one s 0 refl)) [
        | inl (c, g) ↦ (
          none,
          ground (arith, first),
          unfold all_present has in ground (arith, collect-none mem.sets names c),
        )
        | inr (rest, n, c, g, small) ↦
            let (r, met, members) = meet_members (s ∷ rest) n small.inside in
            let (present, all) = collect-some mem.sets names rest c in
            (
              some r,
              ground (arith, first),
              (
                unfold all_present has in ground arith,
                λ j. members j ∙ unfold all_have in_all is_in in ground (arith, all j),
              ),
            )
      ]
]

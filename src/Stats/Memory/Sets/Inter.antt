-- ===== src/Stats/Memory/Sets/Inter.antt =====
-- What SINTER computes: the optimised loops against the plain intersection.
use native.Mathlib.Decide.{dec_lt}
use broadcast.Common.{
  ℕ, zero, suc, ◌+◌, ◌<◌, ◌≤◌, ◌≡◌, ◌≢◌, refl, Option, none, some, Bool, true, ◌&&◌, List, [], ◌∷◌,
  ◌++◌, arith, Bytes, ◌∙◌, inl, inr, ◌⊎◌, Option-cases, Bool-cases, length, length-append,
  append-nil, append_assoc, get_elem?, ltb, if◌then◌else◌,
}
use broadcast.Dict.{Dict, lookup, has}
use broadcast.Stats.Memory.{Set}
use broadcast.Stats.Memory.Sets.{slot, gather, in_others}

-- The sets of all the names, or `none` when one is missing.
unfoldable pub collect : Dict Set → List Bytes → Option (List Set)
collect sets [] = some []
collect sets (v ∷ names) = elim (lookup v sets) [
  | none ↦ none
  | some s ↦ elim (collect sets names) [ none ↦ none | some rest ↦ some (s ∷ rest) ]
]

-- The index is one of a set, and of a smallest one.
pub record IsSmallest (values : List Set) (m : ℕ) : Type 0 where
  pub inside : m < length values
  pub least : (i : ℕ) → i < length values → length (slot values m) ≤ length (slot values i)

slot-append_left :
    (values : List Set) (s : Set) (i : ℕ)
    → i < length values
    → slot (values ++ s ∷ []) i ≡ slot values i
unfolding slot
slot-append_left [] s i h = absurd (omega arith)
slot-append_left (v ∷ values) s zero h = refl
slot-append_left (v ∷ values) s (suc i) h = slot-append_left values s i (omega arith)

slot-append_right :
    (values : List Set) (s : Set) (i : ℕ) → i ≡ length values → slot (values ++ s ∷ []) i ≡ s
unfolding slot
slot-append_right [] s zero h = refl
slot-append_right [] s (suc i) h = absurd (omega arith)
slot-append_right (v ∷ values) s zero h = absurd (omega arith)
slot-append_right (v ∷ values) s (suc i) h = slot-append_right values s i (omega arith)

-- Is the value in all of the sets?
unfoldable pub all_have : Bytes → List Set → Bool
all_have k [] = true
all_have k (v ∷ values) = has k v && all_have k values

pub get_elem?-inside : (values : List Set) (m : ℕ) → m < length values → get_elem? values m ≢ none
get_elem?-inside [] m h = absurd (omega arith)
get_elem?-inside (v ∷ values) zero h = λ e. cc
get_elem?-inside (v ∷ values) (suc m) h = get_elem?-inside values m (omega arith)

in_others_past :
    (k : Bytes) (m i : ℕ) (values : List Set) → m < i → in_others k m i values ≡ all_have k values
unfolding in_others all_have
in_others_past k m i [] h = refl
in_others_past k m i (v ∷ values) h = ground (arith, in_others_past k m (suc i) values)

-- The set at index `m` and the others together are all the sets.
pub in_others-all_have :
    (k : Bytes) (m i d : ℕ) (values : List Set)
    → d < length values
    → m ≡ i + d
    → (has k (slot values d) && in_others k m i values) ≡ all_have k values
unfolding in_others all_have slot
in_others-all_have k m i d [] h e = absurd (omega arith)
in_others-all_have k m i zero (v ∷ values) h e = ground (arith, in_others_past k m (suc i) values)
in_others-all_have k m i (suc d) (v ∷ values) h e =
    ground (arith, in_others-all_have k m (suc i) d values)

slot-last : (values : List Set) (s : Set) → slot (values ++ s ∷ []) (length values) ≡ s
slot-last values s = slot-append_right values s (length values) refl

-- A bound for the lengths of all the sets and of one more.
bound-append :
    (b : ℕ) (values : List Set) (s : Set)
    → ((i : ℕ) → i < length values → b ≤ length (slot values i))
    → b ≤ length s
    → (i : ℕ) → i < length (values ++ s ∷ [])
    → b ≤ length (slot (values ++ s ∷ []) i)
bound-append b values s h k i inside = elim (dec_lt i (length values)) [
  | yes p ↦ rw (slot-append_left values s i p) (h i p)
  | no p ↦ rw (slot-append_right values s i (omega (arith, length-append values (s ∷ [])))) k
]

-- One round of the first loop keeps the index at a smallest set.
pub IsSmallest-append :
    (values : List Set) (m : ℕ) (s : Set)
    → IsSmallest values m
    → IsSmallest
        (values ++ s ∷ [])
        (if ltb (length s) (length (slot (values ++ s ∷ []) m)) then length values else m)
IsSmallest-append values m s h =
    let old : slot (values ++ s ∷ []) m ≡ slot values m = slot-append_left values s m h.inside in
    rw old (elim (Bool-cases (ltb (length s) (length (slot values m)))) [
      | inl shorter ↦ rw shorter (record {
        inside = omega (arith, length-append values (s ∷ []));
        least =
            rw slot-last
              (bound-append _ values s (λ i b. ground (arith, h.least i b)) (omega arith));
      })
      | inr longer ↦ rw longer (record {
        inside = omega (arith, length-append values (s ∷ []), h.inside);
        least = rw old (bound-append _ values s h.least (ground arith));
      })
    ])

pub IsSmallest-one : (s : Set) (m : ℕ) → m ≡ 0 → IsSmallest (s ∷ []) m
unfolding slot
IsSmallest-one s zero e = record {
  inside = omega arith;
  least = λ i b. let z : i ≡ 0 = omega arith in rw z (omega arith);
}
IsSmallest-one s (suc m) e = absurd (omega arith)

-- The first loop collects the sets behind those it has, and ends at the index of a smallest one.
pub gather-collect :
    (sets : Dict Set) (names : List Bytes) (values : List Set) (m : ℕ)
    → IsSmallest values m
    → ((collect sets names ≡ none) × (gather sets names values m ≡ none))
      ⊎ ((rest : List Set) × (n : ℕ) × (collect sets names ≡ some rest)
          × (gather sets names values m ≡ some (values ++ rest, n))
          × IsSmallest (values ++ rest) n)
unfolding collect gather
gather-collect sets [] values m h = inr ([], m, refl, rw append-nil, rw append-nil h)
gather-collect sets (v ∷ names) values m h = elim (Option-cases (lookup v sets)) [
  | inl e ↦ inl (ground arith, ground arith)
  | inr (s, e) ↦
      elim (gather-collect sets names (values ++ s ∷ []) _ (IsSmallest-append values m s h)) [
        | inl (c, g) ↦ inl (ground arith, ground arith)
        | inr (rest, n, c, g, small) ↦ inr (
          s ∷ rest,
          n,
          ground arith,
          rw (e, gather) (g ∙ rw append_assoc),
          rw append_assoc at small,
        )
      ]
]

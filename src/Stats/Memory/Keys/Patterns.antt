-- ===== src/Stats/Memory/Keys/Patterns.antt =====
-- Which keys KEYS returns for a pattern.
use mathlib.Core.List.{tail}
use broadcast.Common.{
  ℕ, ◌≡◌, ◌≢◌, refl, ◌∙◌, inl, inr, Option-cases, ap, none, some, Bool, true, false, ◌&&◌, List, [],
  ◌∷◌, ◌++◌, arith, Bytes, codes, ok, All, same, same_iff,
}
use broadcast.Dict.{keys, has}
use broadcast.Dict.Keys.{among, among-keys}
use broadcast.Stats.Memory.{MemoryBackend}
use broadcast.Stats.Memory.Keys.{has_prefix, find, split, matches, pick, keys_by, keys_of}
use broadcast.Stats.Memory.Keys.Split.{split_from-end, split_from-cut}

abbrev pub star : ℕ
star = b'*'

abbrev pub NoStar : Bytes → Type 0
NoStar = All (λ c. c ≢ star)

among-pick :
    (p : Bytes → Bool) (k : Bytes) (ks : List Bytes) → among k (pick p ks) ≡ (among k ks && p k)
unfolding among pick
among-pick p k [] = refl
among-pick p k (j ∷ ks) = ground (arith, among-pick p k ks, same_iff j k)

-- Does the text stand somewhere in the key?
abbrev pub contains : Bytes → Bytes → Bool
contains k q = elim (find k q) [ none ↦ false | some _ ↦ true ]

append-cons-ne-nil : (p : Bytes) (c : ℕ) (q : Bytes) → p ++ c ∷ q ≢ []
append-cons-ne-nil [] c q e = cc
append-cons-ne-nil (d ∷ p) c q e = cc

append-star-ne-nil : (p q : Bytes) → p ++ star ∷ q ≢ []
append-star-ne-nil p q = append-cons-ne-nil p star q

star_is_star : ¬ NoStar (codes "*")
star_is_star h = h.0 refl

-- A pattern that is not empty and not a single star goes through the split.
keys_of-split :
    (pattern : Bytes) (mem : MemoryBackend)
    → pattern ≢ []
    → pattern ≢ codes "*"
    → keys_of pattern mem ≡ (ok (keys_by pattern (split pattern star) (keys mem.values)), mem)
unfolding keys_of
keys_of-split pattern mem h k =
    ground (arith, same_iff pattern [], same_iff pattern (codes "*"), h, k)

-- A pattern with no star returns the stored key that equals it, if there is one.
keys_of_exact :
    (pattern : Bytes) (mem : MemoryBackend)
    → pattern ≢ []
    → NoStar pattern
    → (r : List Bytes) × (keys_of pattern mem ≡ (ok r, mem))
      × ((k : Bytes) → among k r ≡ (has k mem.values && same k pattern))
unfolding keys_by split
keys_of_exact pattern mem h n = (
  pick (λ k. same k pattern) (keys mem.values),
  keys_of-split pattern mem h (λ e. absurd (star_is_star (rw e at n)))
      ∙ rw (split_from-end star pattern [] n) refl,
  λ k. among-pick (λ j. same j pattern) k (keys mem.values) ∙ rw among-keys,
)

ne-star : (p q : Bytes) → p ++ q ≢ [] → p ++ star ∷ q ≢ codes "*"
ne-star [] q h e = h (ap tail e)
ne-star (c ∷ p) q h e = append-star-ne-nil p q (ap tail e)

split-two : (p q : Bytes) → NoStar p → NoStar q → split (p ++ star ∷ q) star ≡ p ∷ q ∷ []
unfolding split
split-two p q hp hq = split_from-cut star p [] q hp ∙ rw (split_from-end star q [] hq)

-- A pattern `p*q`, of parts with no star that are not both empty, returns the stored keys that
-- begin with `p` and hold `q` somewhere, be it within `p`.
pub keys_of-star :
    (p q : Bytes) (mem : MemoryBackend)
    → p ++ q ≢ []
    → NoStar p
    → NoStar q
    → (r : List Bytes) × (keys_of (p ++ star ∷ q) mem ≡ (ok r, mem))
      × ((k : Bytes) → among k r ≡ (has k mem.values && (has_prefix k p && contains k q)))
unfolding keys_by matches
keys_of-star p q mem h hp hq = (
  pick (λ k. matches k k (p ∷ q ∷ [])) (keys mem.values),
  keys_of-split _ mem (append-star-ne-nil p q) (ne-star p q h) ∙ rw (split-two p q hp hq) refl,
  λ k.
      among-pick (λ j. matches j j (p ∷ q ∷ [])) k (keys mem.values) ∙ rw among-keys (ground arith),
)

find-prefix : (k q s : Bytes) → find k q ≡ some s → has_prefix s q ≡ true
unfolding find
find-prefix [] q s h = ground arith
find-prefix (c ∷ k) q s h = ground (arith, find-prefix k q s)

two_heads :
    (s : Bytes) (c d : ℕ) (q r : Bytes)
    → c ≢ d
    → has_prefix s (c ∷ q) ≡ true
    → has_prefix s (d ∷ r) ≡ false
unfolding has_prefix
two_heads [] c d q r n h = refl
two_heads (b ∷ s) c d q r n h = ground (arith, n)

matches-three :
    (k p : Bytes) (c d : ℕ) (q r : Bytes) → c ≢ d → matches k k (p ∷ (c ∷ q) ∷ (d ∷ r) ∷ []) ≡ false
unfolding matches
matches-three k p c d q r n = elim (Option-cases (find k (c ∷ q))) [
  | inl e ↦ ground arith
  | inr (s, e) ↦ ground (arith, two_heads s c d q r n (find-prefix k (c ∷ q) s e))
]

pick-none : (p : Bytes → Bool) (ks : List Bytes) → ((k : Bytes) → p k ≡ false) → pick p ks ≡ []
unfolding pick
pick-none p [] h = refl
pick-none p (k ∷ ks) h = ground (arith, h k, pick-none p ks h)

split-three :
    (p : Bytes) (c d : ℕ) (q r : Bytes)
    → NoStar p
    → NoStar (c ∷ q)
    → NoStar (d ∷ r)
    → split (p ++ star ∷ ((c ∷ q) ++ star ∷ d ∷ r)) star ≡ p ∷ (c ∷ q) ∷ (d ∷ r) ∷ []
unfolding split
split-three p c d q r hp hq hr =
    split_from-cut star p [] _ hp
    ∙ ap (◌∷◌ p) (split_from-cut star (c ∷ q) [] _ hq)
    ∙ ap (λ (t : List Bytes). p ∷ (c ∷ q) ∷ t) (split_from-end star (d ∷ r) [] hr)

-- A pattern `p*q*r` whose last two parts begin with different bytes returns no key, whatever
-- is stored: the third part is compared with the text where the second was found.
pub keys_of_two_stars :
    (p : Bytes) (c d : ℕ) (q r : Bytes) (mem : MemoryBackend)
    → c ≢ d
    → NoStar p
    → NoStar (c ∷ q)
    → NoStar (d ∷ r)
    → keys_of (p ++ star ∷ ((c ∷ q) ++ star ∷ d ∷ r)) mem ≡ (ok [], mem)
unfolding keys_by
keys_of_two_stars p c d q r mem n hp hq hr =
    keys_of-split _ mem (append-star-ne-nil p _) (ne-star p _ (append-cons-ne-nil p _ _))
    ∙ rw (split-three p c d q r hp hq hr)
        (rw (pick-none _ (keys mem.values) (λ k. matches-three k p c d q r n)))

-- ===== src/Stats/Memory/Sets.antt =====
-- backends/stats/memorybackend.go: the set methods. A set is created empty on the first SAdd and
-- is never removed.
pub mod Algebra
mod Inter
pub mod Meet
pub mod Steps
pub mod Count
use broadcast.Common.{
  ℕ, zero, suc, ◌+◌, ◌≡◌, Option, none, some, Bool, true, false, not, List, [], ◌∷◌, ◌++◌, Bytes,
  Result, ok, panic, length, get_elem?, ltb, ◌==◌, if◌then◌else◌,
}
use broadcast.Common.Int.{ℤ, pos, negsuc}
use broadcast.Dict.{Dict, lookup, insert, remove, has}
use broadcast.Stats.Memory.{MemoryBackend, Method, Set}

-- mem.sets[name], made when it is missing
set_or_new : Bytes → MemoryBackend → Set × MemoryBackend
set_or_new name mem = elim (lookup name mem.sets) [
  | some s ↦ (s, mem)
  | none ↦ ([], record mem { sets = insert name [] mem.sets })
]

unfoldable pub sadd : Bytes → Bytes → Method ℤ
unfolding set_or_new
sadd name value mem =
    let (s, mem') = set_or_new name mem in
    if has value s
    then (ok (pos 0), mem')
    else (ok (pos 1), record mem' { sets = insert name (insert value tt s) mem'.sets })

unfoldable pub srem : Bytes → Bytes → Method ℤ
srem name value mem = elim (lookup name mem.sets) [
  | none ↦ (ok (negsuc 0), mem)
  | some s ↦
      if has value s
      then (ok (pos 1), record mem { sets = insert name (remove value s) mem.sets })
      else (ok (pos 0), mem)
]

unfoldable pub scard : Bytes → Method ℤ
scard name mem = elim (lookup name mem.sets) [
  | some s ↦ (ok (pos (length s)), mem)
  | none ↦ (ok (pos 0), mem)
]

-- A nil map is `none`.
unfoldable pub smembers : Bytes → Method (Option Set)
smembers name mem = (ok (lookup name mem.sets), mem)

-- for k, _ := range s { if p k { results[k] = empty } }
unfoldable pub select : (Bytes → Bool) → Set → Set → Set
select p [] results = results
select p ((k, _) ∷ s) results = select p s (if p k then insert k tt results else results)

unfoldable pub sdiff : Set → Bytes → Method Set
sdiff result_set name mem = elim (lookup name mem.sets) [
  | none ↦ (ok result_set, mem)
  | some s ↦ (ok (select (λ k. not (has k s)) result_set []), mem)
]

unfoldable pub sismember : Bytes → Bytes → Method ℤ
sismember name value mem = elim (lookup name mem.sets) [
  | some s ↦ if has value s then (ok (pos 1), mem) else (ok (pos 0), mem)
  | none ↦ (ok (pos 0), mem)
]

union : Dict Set → List Bytes → Set → Set
unfolding select
union sets [] results = results
union sets (v ∷ names) results =
    union sets names
      (elim (lookup v sets) [ some s ↦ select (λ k. true) s results | none ↦ results ])

unfoldable pub sunion : List Bytes → Method Set
unfolding union
sunion names mem = (ok (union mem.sets names []), mem)

-- values[m], where the slots that are not yet filled are nil maps
pub slot : List Set → ℕ → Set
slot values m = elim (get_elem? values m) [ some s ↦ s | none ↦ [] ]

-- The first loop of SInter fills `values` and finds the index of a smallest set; `none` is its
-- return on a missing key.
pub gather : Dict Set → List Bytes → List Set → ℕ → Option (List Set × ℕ)
unfolding slot
gather sets [] values m = some (values, m)
gather sets (v ∷ names) values m = elim (lookup v sets) [
  | none ↦ none
  | some s ↦
      let filled = values ++ s ∷ [] in
      gather sets names filled
        (if ltb (length s) (length (slot filled m)) then length values else m)
]

-- Is `k` in every set but the one at index `m`? The first set has index `i`.
pub in_others : Bytes → ℕ → ℕ → List Set → Bool
in_others k m i [] = true
in_others k m i (v ∷ values) =
    let rest = in_others k m (suc i) values in
    if i == m then rest else if has k v then rest else false

-- With no names `values[minimalSetIndex]` is out of range.
pub meet : List Set × ℕ → Result (Option Set)
unfolding in_others select
meet (values, m) = elim (get_elem? values m) [
  | none ↦ panic
  | some smallest ↦ ok (some (select (λ k. in_others k m 0 values) smallest []))
]

unfoldable pub sinter : List Bytes → Method (Option Set)
unfolding gather meet
sinter names mem = elim (gather mem.sets names [] 0) [
  | none ↦ (ok none, mem)
  | some gathered ↦ (meet gathered, mem)
]

-- ===== src/Tests/Memory.antt =====
-- The memory backend at concrete inputs.
use broadcast.Common.{
  ℕ, ◌+◌, ◌-◌, ◌^◌, ◌≡◌, refl, not, ◌&&◌, Option, some, List, [], ◌∷◌, ◌++◌, arith, Bytes, codes,
  same, ok, if◌then◌else◌,
}
use mathlib.Core.Option
use broadcast.Common.Int.{ℤ, pos, negsuc, add64, sub64, ◌+ℤ◌, ◌-ℤ◌, wrap64}
use broadcast.Dict.{Dict, lookup, insert, remove, has, keys}
use broadcast.Dict.Keys.{among}
use broadcast.Stats.Memory.{
  MemoryBackend, new_memory_backend, incr_by, decr_by, decr, del, get, flush_counters, counter_by,
  set,
}
use broadcast.Stats.Memory.Sets.{sadd, srem, sunion, sinter, scard, smembers, sdiff}
use broadcast.Stats.Memory.Sets.Algebra
use broadcast.Stats.Memory.Sets.Algebra.{is_in, in_some}
use broadcast.Stats.Memory.Sets.Count
use broadcast.Stats.Memory.Sets.Count.{card}
use broadcast.Stats.Memory.Sets.Meet
use broadcast.Stats.Memory.Sets.Meet.{IsMeet}
use broadcast.Stats.Memory.Keys.{keys_of, has_prefix}
use broadcast.Stats.Memory.Keys.Every
use broadcast.Stats.Memory.Keys.Every.{every_key}
use broadcast.Stats.Memory.Keys.Patterns
use broadcast.Stats.Memory.Keys.Patterns.{contains}
use broadcast.Stats.Memory.Invariant
use broadcast.Stats.Memory.Invariant.{Call, run}
use broadcast.Stats.Memory.Valid.{IsValid}
use broadcast.Stats.Memory.Rates
use broadcast.Stats.Memory.Rates.{flushed}
use broadcast.Stats.Memory.Values
use broadcast.Stats.Memory.Values.{OnlyValue, value_or_zero, found, present}

opened : Unit {0}
unfolding new_memory_backend incr_by decr_by decr del get set flush_counters counter_by sadd srem
    sunion sinter scard smembers sdiff keys_of lookup insert remove has keys run add64 sub64 ◌+ℤ◌
    ◌-ℤ◌ wrap64 same
opened = tt

abbrev script : List Call
script =
    Call.set (codes "ab") (pos 1)
    ∷ Call.set (codes "b") (pos 2)
    ∷ Call.counter_by (codes "hits") (pos 3)
    ∷ Call.sadd (codes "s") (codes "x")
    ∷ Call.sadd (codes "s") (codes "y")
    ∷ Call.sadd (codes "t") (codes "y")
    ∷ []

abbrev mem : MemoryBackend
mem = run script (new_memory_backend 0)

-- DECR of a missing key replies 5 and stores -5.
decr_mismatch :
    ((decr_by (codes "n") (pos 5) mem).0 ≡ ok (pos 5))
    × ((get (codes "n") (decr_by (codes "n") (pos 5) mem).1).0 ≡ ok (negsuc 4))
unfolding opened
decr_mismatch = (refl, refl)

overflow_wraps :
    (incr_by (codes "m") (pos 1) (record mem { values = (codes "m", pos (2 ^ 63 - 1)) ∷ [] })).0
    ≡ ok (negsuc (2 ^ 63 - 1))
unfolding opened
overflow_wraps = refl

common_member : (sinter (codes "s" ∷ codes "t" ∷ []) mem).0 ≡ ok (some ((codes "y", tt) ∷ []))
unfolding opened
common_member = refl

-- Of two keys KEYS returns the last and an empty string.
keys_lost : (keys_of (codes "*") mem).0 ≡ ok (codes "b" ∷ [] ∷ [])
unfolding opened
keys_lost = refl

keys_star : (keys_of (codes "a*b") mem).0 ≡ ok (codes "ab" ∷ [])
unfolding opened
keys_star = refl

run-IsValid_example : IsValid (run script (new_memory_backend 7))
run-IsValid_example = Invariant.run-IsValid 7 script (omega arith)

sinter_members_example :
    (o : Option (Dict Unit)) × (sinter (codes "s" ∷ codes "t" ∷ []) mem ≡ (ok o, mem))
    × IsMeet mem.sets (codes "s" ∷ codes "t" ∷ []) o
sinter_members_example = Meet.sinter_members (codes "s" ∷ codes "t" ∷ []) mem (cc)

sunion_members_example :
    (r : Dict Unit) × (sunion (codes "s" ∷ codes "u" ∷ []) mem ≡ (ok r, mem))
    × ((j : Bytes) → has j r ≡ in_some mem.sets j (codes "s" ∷ codes "u" ∷ []))
sunion_members_example = Algebra.sunion_members (codes "s" ∷ codes "u" ∷ []) mem

srem_removes_example :
    ((srem (codes "s") (codes "x") mem).0
      ≡ ok (
          if not (has (codes "s") mem.sets)
          then negsuc 0
          else if is_in mem.sets (codes "x") (codes "s")
          then pos 1
          else pos 0))
    × (is_in (srem (codes "s") (codes "x") mem).1.sets (codes "y") (codes "s") ≡ (
        not (same (codes "s") (codes "s") && same (codes "x") (codes "y"))
        && is_in mem.sets (codes "y") (codes "s")))
    × (card (srem (codes "s") (codes "x") mem).1.sets (codes "s")
          + (if is_in mem.sets (codes "x") (codes "s") then 1 else 0)
        ≡ card mem.sets (codes "s"))
srem_removes_example =
    Count.srem_removes (codes "s") (codes "x") (codes "s") (codes "y") mem
      (Invariant.run-IsValid 0 script (omega arith))

decr_by_stores_example :
    ((decr_by (codes "b") (pos 3) mem).0
      ≡ ok (
          if present (lookup (codes "b") mem.values)
          then sub64 (value_or_zero (lookup (codes "b") mem.values)) (pos 3)
          else pos 3))
    × (lookup (codes "b") (decr_by (codes "b") (pos 3) mem).1.values
        ≡ some (sub64 (value_or_zero (lookup (codes "b") mem.values)) (pos 3)))
    × OnlyValue (codes "b") mem (decr_by (codes "b") (pos 3) mem).1
decr_by_stores_example = Values.decr_by_stores (codes "b") (pos 3) mem

abbrev rate : ℤ → ℕ → ℕ → ℕ
rate v t u = u - t

flush_counters_resets_example :
    (lookup (codes "hits") (flush_counters rate 9 mem).1.counters
      ≡ Option.map
          (λ c. flushed mem.max_counter_history (rate c.value mem.last_time_stamp 9) c)
          (lookup (codes "hits") mem.counters))
    × ((flush_counters rate 9 mem).1.values ≡ mem.values)
    × ((flush_counters rate 9 mem).1.sets ≡ mem.sets)
flush_counters_resets_example = Rates.flush_counters_resets rate 9 (codes "hits") mem

keys_of_all_example :
    (keys_of [] mem ≡ (ok (every_key (keys mem.values)), mem))
    × (keys_of (codes "*") mem ≡ (ok (every_key (keys mem.values)), mem))
keys_of_all_example = Every.keys_of_all mem

keys_of-star_example :
    (r : List Bytes) × (keys_of (codes "a" ++ b'*' ∷ codes "b") mem ≡ (ok r, mem))
    × ((k : Bytes)
        → among k r ≡ (has k mem.values && (has_prefix k (codes "a") && contains k (codes "b"))))
keys_of-star_example =
    Patterns.keys_of-star (codes "a") (codes "b") mem (cc) (omega arith) (omega arith)

keys_of_two_stars_example :
    keys_of (codes "a" ++ b'*' ∷ (codes "b" ++ b'*' ∷ codes "c")) mem ≡ (ok [], mem)
keys_of_two_stars_example =
    Patterns.keys_of_two_stars (codes "a") b'b' b'c' [] [] mem (omega arith) (omega arith)
      (omega arith) (omega arith)

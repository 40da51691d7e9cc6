-- ===== src/Stats/Memory/Invariant/Methods.antt =====
-- Each method keeps the memory backend well-formed.
use broadcast.Common.{ℕ, inl, inr, Option-cases, Bool-cases, [], arith, Bytes}
use broadcast.Common.Int.{ℤ, IsInt64, add64-IsInt64, sub64-IsInt64}
use broadcast.Dict.{lookup, has}
use broadcast.Dict.Distinct.{insert-IsDistinct, remove-IsDistinct}
use broadcast.Dict.Each.{Each-remove}
use broadcast.Stats.Memory.{
  MemoryBackend, counter_by, incr_by, decr_by, del_value, del_counter, del, set_nx, flush_counters,
}
use broadcast.Stats.Memory.Sets.{sadd, srem}
use broadcast.Stats.Memory.Sets.Steps.{sadd_missing, sadd_held}
use broadcast.Stats.Memory.Rates.{flush_all-IsDistinct}
use broadcast.Stats.Memory.Valid.{
  IsValid, storing-IsValid, counting-IsValid, holding-IsValid, flush_all-Each,
}

pub counter_by-IsValid :
    (name : Bytes) (count : ℤ) {mem : MemoryBackend}
    → IsInt64 count
    → IsValid mem
    → IsValid (counter_by name count mem).1
unfolding counter_by
counter_by-IsValid name count {mem} b h = elim (Option-cases (lookup name mem.counters)) [
  | inl e ↦ rw (e, counter_by) (counting-IsValid name _ (b, omega arith) h)
  | inr (c, e) ↦
      rw (e, counter_by)
        (counting-IsValid name _ (add64-IsInt64 c.value count, (h.counters_fit.at name c e).1) h)
]

pub incr_by-IsValid :
    (name : Bytes) (count : ℤ) {mem : MemoryBackend}
    → IsInt64 count
    → IsValid mem
    → IsValid (incr_by name count mem).1
unfolding incr_by
incr_by-IsValid name count {mem} b h = elim (Option-cases (lookup name mem.values)) [
  | inl e ↦ rw (e, incr_by) (storing-IsValid name _ b h)
  | inr (v, e) ↦ rw (e, incr_by) (storing-IsValid name _ (add64-IsInt64 v count) h)
]

pub decr_by-IsValid :
    (name : Bytes) (count : ℤ) {mem : MemoryBackend}
    → IsValid mem
    → IsValid (decr_by name count mem).1
unfolding decr_by
decr_by-IsValid name count {mem} h = elim (Option-cases (lookup name mem.values)) [
  | inl e ↦ rw (e, decr_by) (storing-IsValid name _ (sub64-IsInt64 _ count) h)
  | inr (v, e) ↦ rw (e, decr_by) (storing-IsValid name _ (sub64-IsInt64 v count) h)
]

pub set_nx-IsValid :
    (name : Bytes) (value : ℤ) {mem : MemoryBackend}
    → IsInt64 value
    → IsValid mem
    → IsValid (set_nx name value mem).1
unfolding set_nx
set_nx-IsValid name value {mem} b h = elim (Option-cases (lookup name mem.values)) [
  | inl e ↦ rw (e, set_nx) (storing-IsValid name value b h)
  | inr (v, e) ↦ rw (e, set_nx) h
]

del_value-IsValid :
    (name : Bytes) {mem : MemoryBackend} → IsValid mem → IsValid (del_value name mem).1
unfolding del_value
del_value-IsValid name {mem} h = elim (Option-cases (lookup name mem.values)) [
  | inl e ↦ rw (e, del_value) h
  | inr (v, e) ↦
      rw (e, del_value)
        (record {
          counters_distinct = h.counters_distinct;
          values_distinct = remove-IsDistinct name mem.values h.values_distinct;
          sets_distinct = h.sets_distinct;
          counters_fit = h.counters_fit;
          values_fit = Each-remove name mem.values h.values_fit;
          members_distinct = h.members_distinct;
        })
]

del_counter-IsValid :
    (name : Bytes) {mem : MemoryBackend} → IsValid mem → IsValid (del_counter name mem).1
unfolding del_counter
del_counter-IsValid name {mem} h = elim (Option-cases (lookup name mem.counters)) [
  | inl e ↦ rw (e, del_counter) h
  | inr (v, e) ↦
      rw (e, del_counter)
        (record {
          counters_distinct = remove-IsDistinct name mem.counters h.counters_distinct;
          values_distinct = h.values_distinct;
          sets_distinct = h.sets_distinct;
          counters_fit = Each-remove name mem.counters h.counters_fit;
          values_fit = h.values_fit;
          members_distinct = h.members_distinct;
        })
]

pub del-IsValid : (name : Bytes) {mem : MemoryBackend} → IsValid mem → IsValid (del name mem).1
unfolding del
del-IsValid name h = del_counter-IsValid name (del_value-IsValid name h)

pub sadd-IsValid :
    (name value : Bytes) {mem : MemoryBackend} → IsValid mem → IsValid (sadd name value mem).1
sadd-IsValid name value {mem} h = elim (Option-cases (lookup name mem.sets)) [
  | inl e ↦
      rw (sadd_missing name value mem e)
        (holding-IsValid name _ (insert-IsDistinct value tt [] tt) (holding-IsValid name [] tt h))
  | inr (s, e) ↦ elim (Bool-cases (has value s)) [
    | inl old ↦ rw (sadd_held name value s mem e, old) h
    | inr new ↦
        rw (sadd_held name value s mem e, new)
          (holding-IsValid name _ (insert-IsDistinct value tt s (h.members_distinct.at name s e)) h)
  ]
]

pub srem-IsValid :
    (name value : Bytes) {mem : MemoryBackend} → IsValid mem → IsValid (srem name value mem).1
unfolding srem
srem-IsValid name value {mem} h = elim (Option-cases (lookup name mem.sets)) [
  | inl e ↦ rw (e, srem) h
  | inr (s, e) ↦ elim (Bool-cases (has value s)) [
    | inl old ↦
        rw (e, srem, old)
          (holding-IsValid name _ (remove-IsDistinct value s (h.members_distinct.at name s e)) h)
    | inr new ↦ rw (e, srem, new) h
  ]
]

pub flush_counters-IsValid :
    (per_second : ℤ → ℕ → ℕ → ℕ) (now : ℕ) {mem : MemoryBackend}
    → IsValid mem
    → IsValid (flush_counters per_second now mem).1
unfolding flush_counters
flush_counters-IsValid per_second now {mem} h = record {
  counters_distinct = flush_all-IsDistinct _ _ mem.counters h.counters_distinct;
  values_distinct = h.values_distinct;
  sets_distinct = h.sets_distinct;
  counters_fit = flush_all-Each _ _ mem.counters;
  values_fit = h.values_fit;
  members_distinct = h.members_distinct;
}

-- ===== src/Stats/Memory/Valid.antt =====
-- The well-formedness of the memory backend: what a write to one of its maps keeps, and a flush.
use broadcast.Common.{ℕ, ◌≤◌, ◌≡◌, inl, inr, Option-cases, arith, Bytes, length}
use broadcast.Common.Int.{ℤ, IsInt64}
use broadcast.Dict.{Dict, lookup, insert}
use broadcast.Dict.Distinct.{IsDistinct, insert-IsDistinct}
use broadcast.Dict.Each.{Each, Each-insert}
use broadcast.Stats.Memory.{MemoryBackend, Counter, Set, flush_all, flush_counter}
use broadcast.Stats.Memory.Rates.{length-trim-le, lookup-flush_all}

-- A counter holds an int64 and its history has at most `limit` entries.
abbrev pub IsCounter : ℕ → Counter → Type 0
IsCounter limit c = IsInt64 c.value × (length c.rate.avg_history ≤ limit)

-- Maps hold no key twice, values are int64s, and histories are within their limit.
pub record IsValid (mem : MemoryBackend) : Type 0 where
  pub counters_distinct : IsDistinct mem.counters
  pub values_distinct : IsDistinct mem.values
  pub sets_distinct : IsDistinct mem.sets
  pub counters_fit : Each (IsCounter mem.max_counter_history) mem.counters
  pub values_fit : Each IsInt64 mem.values
  pub members_distinct : Each IsDistinct mem.sets

pub storing-IsValid :
    (name : Bytes) (v : ℤ) {mem : MemoryBackend}
    → IsInt64 v
    → IsValid mem
    → IsValid (record mem { values = insert name v mem.values })
storing-IsValid name v {mem} b h = record {
  counters_distinct = h.counters_distinct;
  values_distinct = insert-IsDistinct name v mem.values h.values_distinct;
  sets_distinct = h.sets_distinct;
  counters_fit = h.counters_fit;
  values_fit = Each-insert name v mem.values b h.values_fit;
  members_distinct = h.members_distinct;
}

pub counting-IsValid :
    (name : Bytes) (c : Counter) {mem : MemoryBackend}
    → IsCounter mem.max_counter_history c
    → IsValid mem
    → IsValid (record mem { counters = insert name c mem.counters })
counting-IsValid name c {mem} b h = record {
  counters_distinct = insert-IsDistinct name c mem.counters h.counters_distinct;
  values_distinct = h.values_distinct;
  sets_distinct = h.sets_distinct;
  counters_fit = Each-insert name c mem.counters b h.counters_fit;
  values_fit = h.values_fit;
  members_distinct = h.members_distinct;
}

pub holding-IsValid :
    (name : Bytes) (s : Set) {mem : MemoryBackend}
    → IsDistinct s
    → IsValid mem
    → IsValid (record mem { sets = insert name s mem.sets })
holding-IsValid name s {mem} b h = record {
  counters_distinct = h.counters_distinct;
  values_distinct = h.values_distinct;
  sets_distinct = insert-IsDistinct name s mem.sets h.sets_distinct;
  counters_fit = h.counters_fit;
  values_fit = h.values_fit;
  members_distinct = Each-insert name s mem.sets b h.members_distinct;
}

pub flush_all-Each :
    (limit : ℕ) (rate : ℤ → ℕ) (d : Dict Counter) → Each (IsCounter limit) (flush_all limit rate d)
unfolding flush_counter
flush_all-Each limit rate d = record {
  at = λ k c e. elim (Option-cases (lookup k d)) [
    | inl absent ↦ absurd (ground (arith, lookup-flush_all limit rate k d))
    | inr (c', there) ↦
        let q : c ≡ flush_counter limit (rate c'.value) c' =
          ground (arith, lookup-flush_all limit rate k d) in
        rw q (unfold flush_counter in ((omega arith, omega arith), length-trim-le limit _))
  ];
}

-- ===== src/Stats/Memory.antt =====
-- backends/stats/memorybackend.go: counters and values. Each method is atomic under its lock and
-- takes the state to its result and the next state; a nil error is `ok`. A float64 is its 64 bits,
-- and time stamps are numbers that only the rate reads.
pub mod Sets
pub mod Keys
pub mod Values
pub mod Rates
pub mod Valid
pub mod Invariant
use broadcast.Common.{
  ℕ, ◌+◌, ◌-◌, ◌≡◌, Option, none, some, Bool, true, false, List, [], ◌∷◌, ◌++◌, Bytes, Result, ok,
  err, panic, key_not_found, length, drop, ltb, if◌then◌else◌,
}
use broadcast.Common.Int.{ℤ, pos, negsuc, add64, sub64}
use broadcast.Dict.{Dict, lookup, insert, remove}

abbrev pub Set : Type 0
Set = Dict (Unit {0})

pub record CounterRate : Type 0 where
  pub rate_per_second : ℕ
  pub avg_history : List ℕ

pub record Counter : Type 0 where
  pub value : ℤ
  pub rate : CounterRate

pub record MemoryBackend : Type 0 where
  pub counters : Dict Counter
  pub values : Dict ℤ
  pub sets : Dict Set
  pub max_counter_history : ℕ
  pub last_time_stamp : ℕ

abbrev pub Method : Type 0 → Type 0
Method A = MemoryBackend → Result A × MemoryBackend

-- The bits of the float64 zero.
abbrev pub zero_rate : ℕ
zero_rate = 0

unfoldable pub new_memory_backend : ℕ → MemoryBackend
new_memory_backend now = record {
  counters = [];
  values = [];
  sets = [];
  max_counter_history = 100;
  last_time_stamp = now;
}

-- Keeps the last `limit` entries.
unfoldable pub trim : ℕ → List ℕ → List ℕ
trim limit history =
    let l = length history in if ltb limit l then drop (l - limit) history else history

-- What one round of `FlushCounters` makes of a counter, at the new rate.
unfoldable pub flush_counter : ℕ → ℕ → Counter → Counter
unfolding trim
flush_counter limit rate c = record {
  value = pos 0;
  rate = record {
    rate_per_second = rate;
    avg_history = trim limit (c.rate.avg_history ++ c.rate.rate_per_second ∷ []);
  };
}

unfoldable pub flush_all : ℕ → (ℤ → ℕ) → Dict Counter → Dict Counter
flush_all limit rate [] = []
flush_all limit rate ((k, c) ∷ d) =
    (k, flush_counter limit (rate c.value) c) ∷ flush_all limit rate d

-- `per_second v t u` is the float64 quotient of `v` by the seconds from `t` to `u`.
unfoldable pub flush_counters : (ℤ → ℕ → ℕ → ℕ) → ℕ → Method (Unit {0})
flush_counters per_second now mem = (
  ok tt,
  record mem {
    counters =
        flush_all mem.max_counter_history (λ v. per_second v mem.last_time_stamp now) mem.counters;
    last_time_stamp = now;
  },
)

unfoldable pub counters : Method (Dict Counter)
counters mem = (ok mem.counters, mem)

unfoldable pub counter_by : Bytes → ℤ → Method ℤ
counter_by name count mem = elim (lookup name mem.counters) [
  | some c ↦
      let v = add64 c.value count in
      (ok v, record mem { counters = insert name (record c { value = v }) mem.counters })
  | none ↦
      let rate : CounterRate = record { rate_per_second = zero_rate; avg_history = [] } in
      let c : Counter = record { value = count; rate = rate } in
      (ok count, record mem { counters = insert name c mem.counters })
]

unfoldable pub counter : Bytes → Method ℤ
unfolding counter_by
counter name = counter_by name (pos 1)

unfoldable pub incr_by : Bytes → ℤ → Method ℤ
incr_by name count mem = elim (lookup name mem.values) [
  | some v ↦ let w = add64 v count in (ok w, record mem { values = insert name w mem.values })
  | none ↦ (ok count, record mem { values = insert name count mem.values })
]

unfoldable pub incr : Bytes → Method ℤ
unfolding incr_by
incr name = incr_by name (pos 1)

-- A missing key is stored as `-1 * count`, and the reply is `count`.
unfoldable pub decr_by : Bytes → ℤ → Method ℤ
decr_by name count mem = elim (lookup name mem.values) [
  | some v ↦ let w = sub64 v count in (ok w, record mem { values = insert name w mem.values })
  | none ↦ (ok count, record mem { values = insert name (sub64 (pos 0) count) mem.values })
]

unfoldable pub decr : Bytes → Method ℤ
unfolding decr_by
decr name = decr_by name (pos 1)

pub del_value : Bytes → MemoryBackend → ℕ × MemoryBackend
del_value name mem = elim (lookup name mem.values) [
  | some _ ↦ (1, record mem { values = remove name mem.values })
  | none ↦ (0, mem)
]

pub del_counter : Bytes → MemoryBackend → ℕ × MemoryBackend
del_counter name mem = elim (lookup name mem.counters) [
  | some _ ↦ (1, record mem { counters = remove name mem.counters })
  | none ↦ (0, mem)
]

unfoldable pub del : Bytes → Method ℤ
unfolding del_value del_counter
del name mem =
    let (n, mem') = del_value name mem in
    let (m, mem'') = del_counter name mem' in (ok (pos (n + m)), mem'')

unfoldable pub exists : Bytes → Method ℤ
exists name mem = elim (lookup name mem.values) [
  | some _ ↦ (ok (pos 1), mem)
  | none ↦ (ok (pos 0), mem)
]

unfoldable pub get : Bytes → Method ℤ
get name mem = elim (lookup name mem.values) [
  | some v ↦ (ok v, mem)
  | none ↦ (err key_not_found, mem)
]

unfoldable pub set : Bytes → ℤ → Method ℤ
set name value mem = (ok (pos 1), record mem { values = insert name value mem.values })

unfoldable pub set_nx : Bytes → ℤ → Method ℤ
set_nx name value mem = elim (lookup name mem.values) [
  | none ↦ (ok (pos 1), record mem { values = insert name value mem.values })
  | some _ ↦ (ok (negsuc 0), mem)
]

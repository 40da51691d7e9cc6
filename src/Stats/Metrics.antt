-- ===== src/Stats/Metrics.antt =====
-- The interface Metrics of backends/stats/metrics.go, and the memory backend as one.
use broadcast.Common.{ℕ, Option, List, Bytes, Result}
use broadcast.Common.Int.{ℤ}
use broadcast.Dict.{Dict}
use broadcast.Stats.Memory
use broadcast.Stats.Memory.{MemoryBackend, Counter, Set}
use broadcast.Stats.Memory.Sets
use broadcast.Stats.Memory.Keys

-- A method takes the state to its result and the next state.
pub record Metrics (S : Type 0) : Type 0 where
  pub counter : Bytes → S → Result ℤ × S
  pub counter_by : Bytes → ℤ → S → Result ℤ × S
  pub flush_counters : ℕ → S → Result (Unit {0}) × S
  pub counters : S → Result (Dict Counter) × S
  pub incr : Bytes → S → Result ℤ × S
  pub incr_by : Bytes → ℤ → S → Result ℤ × S
  pub decr : Bytes → S → Result ℤ × S
  pub decr_by : Bytes → ℤ → S → Result ℤ × S
  pub del : Bytes → S → Result ℤ × S
  pub exists : Bytes → S → Result ℤ × S
  pub get : Bytes → S → Result ℤ × S
  pub set : Bytes → ℤ → S → Result ℤ × S
  pub set_nx : Bytes → ℤ → S → Result ℤ × S
  pub sadd : Bytes → Bytes → S → Result ℤ × S
  pub srem : Bytes → Bytes → S → Result ℤ × S
  pub scard : Bytes → S → Result ℤ × S
  pub smembers : Bytes → S → Result (Option Set) × S
  pub sdiff : Set → Bytes → S → Result Set × S
  pub sismember : Bytes → Bytes → S → Result ℤ × S
  pub sinter : List Bytes → S → Result (Option Set) × S
  pub sunion : List Bytes → S → Result Set × S
  pub keys : Bytes → S → Result (List Bytes) × S

-- MemoryBackend implements it, for a rate per second.
abbrev pub memory : (ℤ → ℕ → ℕ → ℕ) → Metrics MemoryBackend
memory per_second = record {
  counter = Memory.counter;
  counter_by = Memory.counter_by;
  flush_counters = Memory.flush_counters per_second;
  counters = Memory.counters;
  incr = Memory.incr;
  incr_by = Memory.incr_by;
  decr = Memory.decr;
  decr_by = Memory.decr_by;
  del = Memory.del;
  exists = Memory.exists;
  get = Memory.get;
  set = Memory.set;
  set_nx = Memory.set_nx;
  sadd = Sets.sadd;
  srem = Sets.srem;
  scard = Sets.scard;
  smembers = Sets.smembers;
  sdiff = Sets.sdiff;
  sismember = Sets.sismember;
  sinter = Sets.sinter;
  sunion = Sets.sunion;
  keys = Keys.keys_of;
}

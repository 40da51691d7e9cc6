-- ===== src/Stats/Commands/Keeps/Memory.antt =====
-- Every command keeps the memory backend well-formed.
use broadcast.Common.{◌≡◌, ℕ, List, [], Bytes, arith}
use broadcast.Common.Int.{ℤ, pos, IsInt64}
use broadcast.Stats.Memory
use broadcast.Stats.Memory.{MemoryBackend, Set}
use broadcast.Stats.Memory.Sets
use broadcast.Stats.Memory.Keys
use broadcast.Stats.Memory.Valid.{IsValid, storing-IsValid}
use broadcast.Stats.Memory.Invariant.Methods
use broadcast.Stats.Metrics.{Metrics, memory}
use broadcast.Stats.Session.{Data, args}
use broadcast.Stats.Commands.{
  Command, handle, run_command, count, counters, incr, decr, del, exists, get, set, set_nx, keys,
  sadd, srem, scard, smembers, sdiff, sismember, sinter, sunion,
}
use broadcast.Stats.Commands.Keeps.{Laws, KeepsAll}
use broadcast.Stats.Commands.Keeps.Values
use broadcast.Stats.Commands.Keeps.Sets as SetCommands

module _ {S : Type 0} (P : S → Type 0) (m : Metrics S) (laws : Laws P m) where
  handle-Keeps : (c : Command) (d : List Bytes) → KeepsAll P (handle m c d)
  unfolding handle
  handle-Keeps count d = Values.count-Keeps P m laws d
  handle-Keeps counters d = Values.counters-Keeps P m laws d
  handle-Keeps incr d = Values.incr-Keeps P m laws d
  handle-Keeps decr d = Values.decr-Keeps P m laws d
  handle-Keeps del d = Values.del-Keeps P m laws d
  handle-Keeps exists d = Values.exists-Keeps P m laws d
  handle-Keeps get d = Values.get-Keeps P m laws d
  handle-Keeps set d = Values.set-Keeps P m laws d
  handle-Keeps set_nx d = Values.set_nx-Keeps P m laws d
  handle-Keeps keys d = Values.keys-Keeps P m laws d
  handle-Keeps sadd d = SetCommands.sadd-Keeps P m laws d
  handle-Keeps srem d = SetCommands.srem-Keeps P m laws d
  handle-Keeps scard d = SetCommands.scard-Keeps P m laws d
  handle-Keeps smembers d = SetCommands.smembers-Keeps P m laws d
  handle-Keeps sdiff d = SetCommands.sdiff-Keeps P m laws d
  handle-Keeps sismember d = SetCommands.sismember-Keeps P m laws d
  handle-Keeps sinter d = SetCommands.sinter-Keeps P m laws d
  handle-Keeps sunion d = SetCommands.sunion-Keeps P m laws d

  -- A command keeps every property that the methods of the metrics keep.
  pub run_command-Keeps : (c : Command) (d : Data) → KeepsAll P (run_command m c d)
  unfolding run_command
  run_command-Keeps c d = handle-Keeps c (args d)

module _ (k : Bytes) (mem : MemoryBackend) where
  get-state : (Memory.get k mem).1 ≡ mem
  unfolding Memory.get
  get-state = ground arith

  exists-state : (Memory.exists k mem).1 ≡ mem
  unfolding Memory.exists
  exists-state = ground arith

  scard-state : (Sets.scard k mem).1 ≡ mem
  unfolding Sets.scard
  scard-state = ground arith

  sdiff-state : (r : Set) → (Sets.sdiff r k mem).1 ≡ mem
  unfolding Sets.sdiff
  sdiff-state r = ground arith

  sismember-state : (v : Bytes) → (Sets.sismember k v mem).1 ≡ mem
  unfolding Sets.sismember
  sismember-state v = ground arith

  sinter-state : (ks : List Bytes) → (Sets.sinter ks mem).1 ≡ mem
  unfolding Sets.sinter
  sinter-state ks = ground arith

  keys_of-state : (Keys.keys_of k mem).1 ≡ mem
  unfolding Keys.keys_of
  keys_of-state = ground arith

one-IsInt64 : IsInt64 (pos 1)
one-IsInt64 = omega arith

-- MemoryBackend keeps its well-formedness as a Metrics.
pub memory-Laws : (per_second : ℤ → ℕ → ℕ → ℕ) → Laws IsValid (memory per_second)
unfolding Memory.counters Memory.set Sets.smembers Sets.sunion
memory-Laws per_second = record {
  counter = λ k s h. unfold Memory.counter in Methods.counter_by-IsValid k (pos 1) one-IsInt64 h;
  counter_by = λ k n b s h. Methods.counter_by-IsValid k n b h;
  flush_counters = λ now s h. Methods.flush_counters-IsValid per_second now h;
  counters = λ s h. h;
  incr = λ k s h. unfold Memory.incr in Methods.incr_by-IsValid k (pos 1) one-IsInt64 h;
  incr_by = λ k n b s h. Methods.incr_by-IsValid k n b h;
  decr = λ k s h. unfold Memory.decr in Methods.decr_by-IsValid k (pos 1) h;
  decr_by = λ k n b s h. Methods.decr_by-IsValid k n h;
  del = λ k s h. Methods.del-IsValid k h;
  exists = λ k s h. rw (exists-state k s) h;
  get = λ k s h. rw (get-state k s) h;
  set = λ k n b s h. storing-IsValid k n b h;
  set_nx = λ k n b s h. Methods.set_nx-IsValid k n b h;
  sadd = λ k v s h. Methods.sadd-IsValid k v h;
  srem = λ k v s h. Methods.srem-IsValid k v h;
  scard = λ k s h. rw (scard-state k s) h;
  smembers = λ k s h. h;
  sdiff = λ r k s h. rw (sdiff-state k s r) h;
  sismember = λ k v s h. rw (sismember-state k s v) h;
  sinter = λ ks s h. rw (sinter-state [] s ks) h;
  sunion = λ ks s h. h;
  keys = λ pattern' s h. rw (keys_of-state pattern' s) h;
}

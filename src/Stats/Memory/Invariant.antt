-- ===== src/Stats/Memory/Invariant.antt =====
-- The well-formedness of the memory backend, and that every method keeps it.
pub mod Methods
use broadcast.Common.{ℕ, ◌≤◌, ◌≡◌, List, [], ◌∷◌, arith, Bytes, All}
use broadcast.Common.Int.{ℤ, IsInt64}
use broadcast.Stats.Memory
use broadcast.Stats.Memory.{MemoryBackend, new_memory_backend}
use broadcast.Stats.Memory.Sets
use broadcast.Stats.Memory.Valid.{IsValid, storing-IsValid}
use broadcast.Dict.Each.{Each-nil}
use Methods

-- The calls that change the state; the others return it as it is.
pub data Call : Type 0 where
  counter_by incr_by decr_by set set_nx : Bytes → ℤ → Call
  del : Bytes → Call
  sadd srem : Bytes → Bytes → Call
  flush : (ℤ → ℕ → ℕ → ℕ) → ℕ → Call

apply : Call → MemoryBackend → MemoryBackend
apply (counter_by name count) mem = (Memory.counter_by name count mem).1
apply (incr_by name count) mem = (Memory.incr_by name count mem).1
apply (decr_by name count) mem = (Memory.decr_by name count mem).1
apply (set name value) mem = (Memory.set name value mem).1
apply (set_nx name value) mem = (Memory.set_nx name value mem).1
apply (del name) mem = (Memory.del name mem).1
apply (sadd name value) mem = (Sets.sadd name value mem).1
apply (srem name value) mem = (Sets.srem name value mem).1
apply (flush per_second now) mem = (Memory.flush_counters per_second now mem).1

unfoldable pub run : List Call → MemoryBackend → MemoryBackend
unfolding apply
run [] mem = mem
run (c ∷ calls) mem = run calls (apply c mem)

-- The numbers that a client hands over are int64s.
abbrev pub IsCall : Call → Type 0
IsCall (counter_by name count) = IsInt64 count
IsCall (incr_by name count) = IsInt64 count
IsCall (decr_by name count) = IsInt64 count
IsCall (set name value) = IsInt64 value
IsCall (set_nx name value) = IsInt64 value
IsCall _ = Unit

apply-IsValid : (c : Call) {mem : MemoryBackend} → IsCall c → IsValid mem → IsValid (apply c mem)
unfolding apply
apply-IsValid (counter_by name count) b h = Methods.counter_by-IsValid name count b h
apply-IsValid (incr_by name count) b h = Methods.incr_by-IsValid name count b h
apply-IsValid (decr_by name count) b h = Methods.decr_by-IsValid name count h
apply-IsValid (set name value) b h = unfold Memory.set in storing-IsValid name value b h
apply-IsValid (set_nx name value) b h = Methods.set_nx-IsValid name value b h
apply-IsValid (del name) b h = Methods.del-IsValid name h
apply-IsValid (sadd name value) b h = Methods.sadd-IsValid name value h
apply-IsValid (srem name value) b h = Methods.srem-IsValid name value h
apply-IsValid (flush per_second now) b h = Methods.flush_counters-IsValid per_second now h

pub new_memory_backend-IsValid : (now : ℕ) → IsValid (new_memory_backend now)
unfolding new_memory_backend
new_memory_backend-IsValid now = record {
  counters_distinct = tt;
  values_distinct = tt;
  sets_distinct = tt;
  counters_fit = Each-nil;
  values_fit = Each-nil;
  members_distinct = Each-nil;
}

run-keeps :
    (calls : List Call) {mem : MemoryBackend}
    → All IsCall calls
    → IsValid mem
    → IsValid (run calls mem)
unfolding run
run-keeps [] b h = h
run-keeps (c ∷ calls) (b, bs) h = run-keeps calls bs (apply-IsValid c b h)

-- After any sequence of calls with int64 arguments on a new backend no map holds a key twice, every
-- stored number is an int64, and no counter's history passes its limit.
pub run-IsValid :
    (now : ℕ) (calls : List Call) → All IsCall calls → IsValid (run calls (new_memory_backend now))
run-IsValid now calls b = run-keeps calls b (new_memory_backend-IsValid now)

-- ===== src/Stats/Memory/Rates.antt =====
-- What FlushCounters does to each counter.
use broadcast.Common.{
  ℕ, ◌+◌, ◌-◌, ◌≤◌, ◌≡◌, refl, ◌∙◌, ap, inl, inr, Bool-cases, List, [], ◌∷◌, ◌++◌, arith, Bytes,
  length, length-append, length-drop, drop, ltb,
}
use mathlib.Core.Option
use mathlib.Core.Path.{fun_ext}
use broadcast.Common.Int.{ℤ, pos}
use broadcast.Dict.{Dict, lookup, has}
use broadcast.Dict.Distinct.{IsDistinct}
use broadcast.Stats.Memory.{MemoryBackend, Counter, trim, flush_counter, flush_all, flush_counters}

pub length-trim-le : (limit : ℕ) (history : List ℕ) → length (trim limit history) ≤ limit
unfolding trim
length-trim-le limit history = ground (arith, length-drop (length history - limit) history)

pub lookup-flush_all :
    (limit : ℕ) (rate : ℤ → ℕ) (k : Bytes) (d : Dict Counter)
    → lookup k (flush_all limit rate d)
      ≡ Option.map (λ c. flush_counter limit (rate c.value) c) (lookup k d)
unfolding flush_all lookup
lookup-flush_all limit rate k [] = refl
lookup-flush_all limit rate k ((j, c) ∷ d) = ground (arith, lookup-flush_all limit rate k d)

has-flush_all :
    (limit : ℕ) (rate : ℤ → ℕ) (k : Bytes) (d : Dict Counter)
    → has k (flush_all limit rate d) ≡ has k d
unfolding has
has-flush_all limit rate k d = ground (arith, lookup-flush_all limit rate k d)

pub flush_all-IsDistinct :
    (limit : ℕ) (rate : ℤ → ℕ) (d : Dict Counter)
    → IsDistinct d
    → IsDistinct (flush_all limit rate d)
unfolding flush_all
flush_all-IsDistinct limit rate [] h = tt
flush_all-IsDistinct limit rate ((j, c) ∷ d) (absent, h) =
    (has-flush_all limit rate j d ∙ absent, flush_all-IsDistinct limit rate d h)

-- The history is cut to its last entries, whether the test fires or not.
trim-drop :
    (limit : ℕ) (history : List ℕ) → trim limit history ≡ drop (length history - limit) history
unfolding trim
trim-drop limit history = elim (Bool-cases (ltb limit (length history))) [
  | inl long ↦ rw long refl
  | inr short ↦ let z : length history - limit ≡ 0 = ground arith in rw (short, z) refl
]

-- A counter after a flush, at the rate that the flush computed.
abbrev pub flushed : ℕ → ℕ → Counter → Counter
flushed limit rate c = record {
  value = pos 0;
  rate = record {
    rate_per_second = rate;
    avg_history =
        drop (length c.rate.avg_history + 1 - limit)
          (c.rate.avg_history ++ c.rate.rate_per_second ∷ []);
  };
}

flush_counter-flushed :
    (limit rate : ℕ) (c : Counter) → flush_counter limit rate c ≡ flushed limit rate c
unfolding flush_counter
flush_counter-flushed limit rate c = rw (trim-drop, length-append) refl

-- A flush sets each counter to 0 at the rate of its old value, appends the old rate to its history
-- and keeps of that the last entries up to the limit. It makes and removes no counter, and leaves
-- the values and the sets.
pub flush_counters_resets :
    (per_second : ℤ → ℕ → ℕ → ℕ) (now : ℕ) (k : Bytes) (mem : MemoryBackend)
    → (lookup k (flush_counters per_second now mem).1.counters
        ≡ Option.map
            (λ c. flushed mem.max_counter_history (per_second c.value mem.last_time_stamp now) c)
            (lookup k mem.counters))
      × ((flush_counters per_second now mem).1.values ≡ mem.values)
      × ((flush_counters per_second now mem).1.sets ≡ mem.sets)
unfolding flush_counters
flush_counters_resets per_second now k mem = (
  lookup-flush_all _ _ k mem.counters
      ∙ ap (λ (f : Counter → Counter). Option.map f (lookup k mem.counters))
          (fun_ext λ c. flush_counter-flushed _ _ c),
  refl,
  refl,
)

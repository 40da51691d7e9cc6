-- ===== src/Tests/Handlers.antt =====
-- The stats handlers over the memory backend at concrete inputs.
use broadcast.Common.{ℕ, ◌+◌, ◌≡◌, refl, not, ◌&&◌, ◌||◌, [], ◌∷◌, arith, Bytes, codes, same, ok}
use broadcast.Common.Int.{ℤ, pos, negsuc, add64, ◌+ℤ◌, wrap64}
use broadcast.Decimal.{parse_int}
use broadcast.Dict.{Dict, lookup, insert, has, keys}
use broadcast.Dict.Keys.{among}
use broadcast.Stats.Memory.{MemoryBackend, new_memory_backend}
use broadcast.Stats.Memory.Sets
use broadcast.Stats.Memory.Sets.Algebra.{is_in, in_some}
use broadcast.Stats.Memory.Sets.Count.{card}
use broadcast.Stats.Metrics.{memory}
use broadcast.Stats.Session.{bulk, Session, ClientCall}
use broadcast.Stats.SetHandlers
use broadcast.Stats.Commands.{Command, handle, run_command}
use broadcast.Stats.Commands.Values.{replying}
use broadcast.Stats.Commands.Sets as SetCommands
use broadcast.Stats.Commands.Sets.{listing}

abbrev pub rate : ℤ → ℕ → ℕ → ℕ
rate v t u = u

abbrev pub start : Session MemoryBackend
start = record {
  state = record (new_memory_backend 0) {
    sets =
        (codes "s", (codes "x", tt) ∷ (codes "y", tt) ∷ [])
        ∷ (codes "t", (codes "y", tt) ∷ [])
        ∷ [];
  };
  calls = [];
}

twice_added :
    (run_command
      (memory rate)
      Command.sadd
      (bulk (codes "s" ∷ codes "z" ∷ codes "z" ∷ codes "x" ∷ []))
      start).1.calls
    ≡ ClientCall.write_int64 (pos 1) ∷ ClientCall.flush ∷ []
unfolding run_command handle SetHandlers.sadd Sets.sadd lookup insert has same add64 ◌+ℤ◌ wrap64
    new_memory_backend
twice_added = refl

twelve : parse_int (codes "-12") ≡ ok (negsuc 11)
unfolding parse_int
twelve = refl

sadd_counts_example :
    (n : ℕ) × (mem' : MemoryBackend) × (run_command
        (memory rate)
        Command.sadd
        (bulk (codes "s" ∷ codes "z" ∷ codes "x" ∷ []))
        start
      ≡ (ok tt, replying start (pos n) mem'))
    × (card mem'.sets (codes "s") ≡ card start.state.sets (codes "s") + n)
    × ((other j : Bytes)
        → is_in mem'.sets j other ≡ (
            (same (codes "s") other && among j (codes "z" ∷ codes "x" ∷ []))
            || is_in start.state.sets j other))
sadd_counts_example =
    SetCommands.sadd_counts rate (codes "s") (codes "z") (codes "x" ∷ []) start (omega arith)

sdiff_replies_example :
    (r : Dict (Unit {0})) × (run_command
        (memory rate)
        Command.sdiff
        (bulk (codes "s" ∷ codes "t" ∷ []))
        start
      ≡ (ok tt, listing start (keys r)))
    × ((j : Bytes)
        → has {0} j r ≡ (
            has {0} j ((codes "x", tt) ∷ (codes "y", tt) ∷ [])
            && not (in_some start.state.sets j (codes "t" ∷ []))))
unfolding lookup same
sdiff_replies_example =
    SetCommands.sdiff_replies rate (codes "s") (codes "t") []
      ((codes "x", tt) ∷ (codes "y", tt) ∷ []) start refl

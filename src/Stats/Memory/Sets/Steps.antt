-- ===== src/Stats/Memory/Sets/Steps.antt =====
-- SADD on a missing set and on one that is there.
use broadcast.Common.{◌≡◌, none, some, [], arith, Bytes, ok, if◌then◌else◌}
use broadcast.Common.Int.{pos}
use broadcast.Dict.{lookup, insert, has}
use broadcast.Stats.Memory.{MemoryBackend, Set}
use broadcast.Stats.Memory.Sets.{sadd}

pub sadd_missing :
    (name value : Bytes) (mem : MemoryBackend)
    → lookup name mem.sets ≡ none
    → sadd name value mem ≡ (
      ok (pos 1),
      record mem { sets = insert name (insert value tt []) (insert name [] mem.sets) },
    )
unfolding sadd has lookup
sadd_missing name value mem e = ground arith

pub sadd_held :
    (name value : Bytes) (s : Set) (mem : MemoryBackend)
    → lookup name mem.sets ≡ some s
    → sadd name value mem ≡ (
        if has value s
        then (ok (pos 0), mem)
        else (ok (pos 1), record mem { sets = insert name (insert value tt s) mem.sets }))
unfolding sadd
sadd_held name value s mem e = ground arith

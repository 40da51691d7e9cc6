-- ===== src/Stats/SetHandlers.antt =====
-- The command handlers of backends/stats/metrics.go for sets.
use broadcast.Common.{
  Bool, false, Option, none, some, List, [], ◌∷◌, Bytes, codes, length, ◌==◌, if◌then◌else◌,
}
use broadcast.Common.Int.{ℤ, pos, negsuc, add64}
use broadcast.Dict.{keys}
use broadcast.Stats.Memory.{Set}
use broadcast.Stats.Metrics.{Metrics}
use broadcast.Stats.Session.{Run, pure, method, ◌>>=◌}
use broadcast.Stats.Replies.{flush_int, flush_nil, complain, reply_strings, reply_ints, reply_set}

module _ {S : Type 0} (m : Metrics S) where
  unfoldable pub sadd_each : Bytes → List Bytes → ℤ → Run S ℤ
  unfolding method pure
  sadd_each key [] result = pure result
  sadd_each key (v ∷ members) result = do
    r ← method (m.sadd key v)
    sadd_each key members (add64 result r)

  unfoldable pub sadd : List Bytes → Run S (Unit {0})
  unfolding sadd_each flush_int complain
  sadd (key ∷ v ∷ members) = do result ← sadd_each key (v ∷ members) (pos 0); flush_int result
  sadd _ = complain (codes "SADD takes at least 2 parameters (SADD key member)")

  abbrev pub is_minus_one : ℤ → Bool
  is_minus_one (pos n) = false
  is_minus_one (negsuc n) = n == 0

  -- The first reply of -1 ends the loop and is sent.
  unfoldable pub srem_each : Bytes → List Bytes → ℤ → Run S (Unit {0})
  unfolding method flush_int
  srem_each key [] result = flush_int result
  srem_each key (v ∷ members) result = do
    r ← method (m.srem key v)
    if is_minus_one r then flush_int r else srem_each key members (add64 result r)

  unfoldable pub srem : List Bytes → Run S (Unit {0})
  unfolding srem_each complain
  srem (key ∷ v ∷ members) = srem_each key (v ∷ members) (pos 0)
  srem _ = complain (codes "SREM takes at least 2 parameters (SREM key member)")

  unfoldable pub scard_each : List Bytes → Run S (List ℤ)
  unfolding method pure
  scard_each [] = pure []
  scard_each (v ∷ d) = do r ← method (m.scard v); rs ← scard_each d; pure (r ∷ rs)

  unfoldable pub scard : List Bytes → Run S (Unit {0})
  unfolding scard_each reply_ints complain
  scard [] = complain (codes "SCARD takes at least 1 parameter (SCARD key)")
  scard (k ∷ d) = do results ← scard_each (k ∷ d); reply_ints results

  -- The loop of SDIFF ends early on an empty result.
  unfoldable pub sdiff_each : List Bytes → Set → Run S Set
  unfolding method pure
  sdiff_each [] results = pure results
  sdiff_each (v ∷ d) results = do
    results' ← method (m.sdiff results v)
    if length results' == 0 then pure results' else sdiff_each d results'

  unfoldable pub sdiff_from : List Bytes → Option Set → Run S (Unit {0})
  unfolding flush_nil sdiff_each reply_strings
  sdiff_from d none = flush_nil
  sdiff_from d (some results) = do r ← sdiff_each d results; reply_strings (keys r)

  unfoldable pub sdiff : List Bytes → Run S (Unit {0})
  unfolding method sdiff_from complain
  sdiff (k ∷ v ∷ d) = do results ← method (m.smembers k); sdiff_from (v ∷ d) results
  sdiff _ = complain (codes "SDIFF requires at least 2 parameters (SDIFF key [key ...])")

  unfoldable pub smembers : List Bytes → Run S (Unit {0})
  unfolding method reply_set complain
  smembers [] = complain (codes "SMEMBERS takes 1 parameter (SMEMBERS key)")
  smembers (k ∷ d) = do values ← method (m.smembers k); reply_set values

  unfoldable pub sismember_each : Bytes → List Bytes → Run S (List ℤ)
  unfolding method pure
  sismember_each key [] = pure []
  sismember_each key (v ∷ d) = do
    r ← method (m.sismember key v)
    rs ← sismember_each key d
    pure (r ∷ rs)

  unfoldable pub sismember : List Bytes → Run S (Unit {0})
  unfolding sismember_each reply_ints complain
  sismember (key ∷ v ∷ d) = do results ← sismember_each key (v ∷ d); reply_ints results
  sismember _ = complain (codes "SISMEMBER takes 2 parameters (SISMEMBER key member)")

  unfoldable pub sinter : List Bytes → Run S (Unit {0})
  unfolding method reply_set complain
  sinter (k ∷ v ∷ d) = do results ← method (m.sinter (k ∷ v ∷ d)); reply_set results
  sinter _ = complain (codes "SINTER takes at least 2 parameters (SINTER key [key ...])")

  unfoldable pub sunion : List Bytes → Run S (Unit {0})
  unfolding method reply_strings complain
  sunion (k ∷ v ∷ d) = do results ← method (m.sunion (k ∷ v ∷ d)); reply_strings (keys results)
  sunion _ = complain (codes "SUNION takes at least 2 parameters (SINTER key [key ...])")

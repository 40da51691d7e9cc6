-- ===== src/Stats/Handlers.antt =====
-- The command handlers of backends/stats/metrics.go for values and counters. The tests on the
-- number of arguments are the patterns of the clauses.
use broadcast.Common.{
  Bool, true, false, List, [], ◌∷◌, Bytes, codes, Error, key_not_found, Result, ok, err, panic,
  if◌then◌else◌,
}
use broadcast.Common.Int.{ℤ, pos, add64}
use broadcast.Stats.Metrics.{Metrics}
use broadcast.Stats.Session.{
  flush, write_counters, Run, pure, raise, lift, method, attempt, emit, ◌>>=◌, ◌>>◌,
}
use broadcast.Stats.Replies.{flush_int, flush_nil, complain, read_int64, reply_strings, or_failure}

abbrev pub is_not_found : Error → Bool
is_not_found key_not_found = true
is_not_found _ = false

module _ {S : Type 0} (m : Metrics S) where
  unfoldable pub set : List Bytes → Run S (Unit {0})
  unfolding read_int64 method flush_int complain
  set (key ∷ v ∷ d) = do value ← read_int64 v; i ← method (m.set key value); flush_int i
  set _ = complain (codes "SET takes at least 2 parameters (i.e. key to set and value to set to)")

  unfoldable pub set_nx : List Bytes → Run S (Unit {0})
  unfolding read_int64 method flush_int complain
  set_nx (key ∷ v ∷ d) = do value ← read_int64 v; i ← method (m.set_nx key value); flush_int i
  set_nx _ = complain (
      codes
        "SETNX takes at least 2 parameters (i.e. key to set and value to set to, if not already set)")

  -- if err == ErrNotFound { return stats.FlushNil(client) }
  unfoldable pub answer : Result ℤ → Run S (Unit {0})
  unfolding flush_int flush_nil raise lift
  answer (ok i) = flush_int i
  answer (err e) = if is_not_found e then flush_nil else raise e
  answer panic = lift panic

  unfoldable pub get : List Bytes → Run S (Unit {0})
  unfolding method attempt answer complain
  get (key ∷ d) = do r ← attempt (method (m.get key)); answer r
  get [] = complain (codes "GET takes at least 1 parameter (i.e. key to get)")

  unfoldable pub exists : List Bytes → Run S (Unit {0})
  unfolding method flush_int complain
  exists (key ∷ d) = do i ← method (m.exists key); flush_int i
  exists [] = complain (codes "EXISTS takes at least 1 parameter (i.e. key to find)")

  unfoldable pub del_each : List Bytes → ℤ → Run S ℤ
  unfolding method pure
  del_each [] i = pure i
  del_each (k ∷ d) i = do i2 ← method (m.del k); del_each d (add64 i i2)

  unfoldable pub del : List Bytes → Run S (Unit {0})
  unfolding del_each flush_int complain
  del [] = complain (codes "DEL takes at least 1 parameter (i.e. key to delete)")
  del (k ∷ d) = do i ← del_each (k ∷ d) (pos 0); flush_int i

  unfoldable pub incr : List Bytes → Run S (Unit {0})
  unfolding read_int64 method flush_int complain
  incr [] = complain (codes "INCR takes at least 1 parameter (i.e. key to increment)")
  incr (key ∷ []) = do i ← method (m.incr key); flush_int i
  incr (key ∷ v ∷ d) = do value ← read_int64 v; i ← method (m.incr_by key value); flush_int i

  unfoldable pub decr : List Bytes → Run S (Unit {0})
  unfolding read_int64 method flush_int complain
  decr [] = complain (codes "DECR takes at least 1 parameter (i.e. key to increment)")
  decr (key ∷ []) = do i ← method (m.decr key); flush_int i
  decr (key ∷ v ∷ d) = do value ← read_int64 v; i ← method (m.decr_by key value); flush_int i

  -- COUNT sends nothing unless its arguments are wrong.
  unfoldable pub count : List Bytes → Run S (Unit {0})
  unfolding read_int64 method pure complain
  count [] = complain (codes "COUNTER takes at least 1 parameter (i.e. key to increment)")
  count (key ∷ []) = do _ ← method (m.counter key); pure tt
  count (key ∷ v ∷ d) = do value ← read_int64 v; _ ← method (m.counter_by key value); pure tt

  unfoldable pub counters : List Bytes → Run S (Unit {0})
  unfolding method attempt or_failure emit
  counters d = do
    r ← attempt (method m.counters)
    or_failure r (λ results. do emit (write_counters results); emit flush)

  unfoldable pub keys_handler : List Bytes → Run S (Unit {0})
  unfolding method attempt or_failure reply_strings
  keys_handler [] = do r ← attempt (method (m.keys [])); or_failure r reply_strings
  keys_handler (pattern' ∷ d) = do
    r ← attempt (method (m.keys pattern'))
    or_failure r reply_strings

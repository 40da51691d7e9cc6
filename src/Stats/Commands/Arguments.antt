-- ===== src/Stats/Commands/Arguments.antt =====
-- What the commands do with too few arguments and with texts that are no numbers.
use broadcast.Common.{ℕ, ◌<◌, ◌≡◌, refl, List, [], ◌∷◌, ◌++◌, arith, Bytes, Error, ok, err, length}
use broadcast.Decimal.{parse_int}
use broadcast.Stats.Metrics.{Metrics}
use broadcast.Stats.Session.{Data, bulk, args, Session, write_error, flush}
use broadcast.Stats.Handlers
use broadcast.Stats.SetHandlers
use broadcast.Stats.Commands.{
  Command, handle, run_command, count, counters, incr, decr, del, exists, get, set, set_nx, keys,
  sadd, srem, scard, smembers, sdiff, sismember, sinter, sunion,
}

-- The least number of arguments, as the error messages give it.
abbrev pub arity : Command → ℕ
arity counters = 0
arity keys = 0
arity count = 1
arity incr = 1
arity decr = 1
arity del = 1
arity exists = 1
arity get = 1
arity scard = 1
arity smembers = 1
arity set = 2
arity set_nx = 2
arity sadd = 2
arity srem = 2
arity sdiff = 2
arity sismember = 2
arity sinter = 2
arity sunion = 2

-- The calls of a handler come behind those that were made.
abbrev pub saying : {S : Type 0} → Session S → Bytes → Session S
saying s message = record s { calls = (s.calls ++ write_error message ∷ []) ++ flush ∷ [] }

module _ {S : Type 0} (m : Metrics S) where
  few :
      (c : Command) (d : List Bytes) (s : Session S)
      → length d < arity c
      → (message : Bytes) × (handle m c d s ≡ (ok tt, saying s message))
  unfolding handle Handlers.count Handlers.incr Handlers.decr Handlers.del Handlers.exists
      Handlers.get Handlers.set Handlers.set_nx SetHandlers.sadd SetHandlers.srem SetHandlers.scard
      SetHandlers.smembers SetHandlers.sdiff SetHandlers.sismember SetHandlers.sinter
      SetHandlers.sunion
  few counters d s h = absurd (omega arith)
  few keys d s h = absurd (omega arith)
  few set [] s h = (_, refl)
  few set (k ∷ []) s h = (_, refl)
  few set_nx (k ∷ []) s h = (_, refl)
  few sadd (k ∷ []) s h = (_, refl)
  few srem (k ∷ []) s h = (_, refl)
  few sdiff (k ∷ []) s h = (_, refl)
  few sismember (k ∷ []) s h = (_, refl)
  few sinter (k ∷ []) s h = (_, refl)
  few sunion (k ∷ []) s h = (_, refl)
  few c [] s h = (_, refl)
  few c (k ∷ d) s h = absurd (omega arith)

  -- With too few arguments a command sends an error message and a flush, leaves the metrics as they
  -- are, and returns nil. An []interface{} counts as no arguments.
  pub too_few :
      (c : Command) (data' : Data) (s : Session S)
      → length (args data') < arity c
      → (message : Bytes) × (run_command m c data' s ≡ (ok tt, saying s message))
  unfolding run_command
  too_few c data' s h = few c (args data') s h

  -- SET, SETNX, INCR, DECR and COUNT of a text that is no int64 return the error of ParseInt, send
  -- nothing, and leave the metrics as they are.
  bad_number :
      (key v : Bytes) (d : List Bytes) (e : Error) (s : Session S)
      → parse_int v ≡ err e
      → (run_command m set (bulk (key ∷ v ∷ d)) s ≡ (err e, s))
        × (run_command m set_nx (bulk (key ∷ v ∷ d)) s ≡ (err e, s))
        × (run_command m incr (bulk (key ∷ v ∷ d)) s ≡ (err e, s))
        × (run_command m decr (bulk (key ∷ v ∷ d)) s ≡ (err e, s))
        × (run_command m count (bulk (key ∷ v ∷ d)) s ≡ (err e, s))
  unfolding run_command handle Handlers.set Handlers.set_nx Handlers.incr Handlers.decr
      Handlers.count
  bad_number key v d e s h = (rw h refl, rw h refl, rw h refl, rw h refl, rw h refl)

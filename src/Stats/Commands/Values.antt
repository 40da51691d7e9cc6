-- ===== src/Stats/Commands/Values.antt =====
-- What a client of the memory backend sees of SET, GET, INCR and COUNT.
use broadcast.Common.{ℕ, ◌≡◌, refl, List, [], ◌∷◌, ◌++◌, arith, Bytes, ok, some, same_refl}
use broadcast.Common.Int.{ℤ, pos, IsInt64, add64}
use broadcast.Decimal.{parse_int}
use broadcast.Dict.{lookup, insert, lookup-insert}
use broadcast.Stats.Memory
use broadcast.Stats.Memory.{MemoryBackend}
use broadcast.Stats.Memory.Values.{value_or_zero, storing, incr_by-storing}
use broadcast.Stats.Metrics.{memory}
use broadcast.Stats.Session.{bulk, Session, write_int64, flush}
use broadcast.Stats.Handlers
use broadcast.Stats.Commands.{handle, run_command, set, get, incr}

abbrev pub St : Type 0
St = Session MemoryBackend

-- A number and a flush behind the calls that were made.
abbrev pub replying : St → ℤ → MemoryBackend → St
replying s i mem = record { state = mem; calls = (s.calls ++ write_int64 i ∷ []) ++ flush ∷ [] }

module _ (per_second : ℤ → ℕ → ℕ → ℕ) where
  -- A GET of a key that is there replies with its value.
  pub get_stored :
      (key : Bytes) (d : List Bytes) (z : ℤ) (s : St)
      → lookup key s.state.values ≡ some z
      → run_command (memory per_second) get (bulk (key ∷ d)) s ≡ (ok tt, replying s z s.state)
  unfolding run_command handle Handlers.get Memory.get
  get_stored key d z s h = ground arith

  -- SET of an int64 replies 1, and a GET of the key after it replies with that int64; nothing but the value
  -- of the key has changed.
  pub set_then_get :
      (key v : Bytes) (z : ℤ) (s : St)
      → parse_int v ≡ ok z
      → (run_command (memory per_second) set (bulk (key ∷ v ∷ [])) s
          ≡ (ok tt, replying s (pos 1) (storing key z s.state)))
        × (run_command
              (memory per_second)
              get
              (bulk (key ∷ []))
              (replying s (pos 1) (storing key z s.state))
            ≡ (
              ok tt,
              replying (replying s (pos 1) (storing key z s.state)) z (storing key z s.state),
            ))
  unfolding run_command handle Handlers.set Handlers.get Memory.set Memory.get
  set_then_get key v z s h =
      let there : lookup key (insert key z s.state.values) ≡ some z =
        ground (arith, lookup-insert key key z s.state.values, same_refl key) in
      (rw h refl, ground arith)

  -- INCR by an int64 replies with the sum that it stores, modulo 2^64, where a missing key counts as 0.
  pub incr_replies :
      (key v : Bytes) (d : List Bytes) (z : ℤ) (s : St)
      → parse_int v ≡ ok z
      → IsInt64 z
      → let sum = add64 (value_or_zero (lookup key s.state.values)) z in
        run_command (memory per_second) incr (bulk (key ∷ v ∷ d)) s
        ≡ (ok tt, replying s sum (storing key sum s.state))
  unfolding run_command handle Handlers.incr
  incr_replies key v d z s h b = rw (h, incr_by-storing key z s.state b) refl

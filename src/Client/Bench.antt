-- ===== src/Client/Bench.antt =====
-- cmd/broadcast-benchmark/main.go: what one client of the benchmark does, and how often. What is
-- printed is left out.
pub mod Agree
pub mod Commands
pub mod Main
pub mod Race
use broadcast.Common.{
  ℕ, zero, suc, ◌/◌, List, [], ◌∷◌, Bytes, Bool, true, false, ◌||◌, Result, ok, err, panic, ltb,
  if◌then◌else◌,
}
use broadcast.Common.Int.{ℤ, pos, negsuc}
use broadcast.Wire.{Value, Platform}
use broadcast.Client.{ClientConnection, Network, Client, do_async, do', read, then_do, get, put}

-- c.Read() on its own, and `_, err := c.Do(…)`
abbrev pub ignoring : Result Value × ClientConnection → Result (Unit {0}) × ClientConnection
ignoring (ok v, c) = (ok tt, c)
ignoring (err e, c) = (ok tt, c)
ignoring (panic, c) = (panic, c)

abbrev pub error_of : Result Value × ClientConnection → Result (Unit {0}) × ClientConnection
error_of (ok v, c) = (ok tt, c)
error_of (err e, c) = (err e, c)
error_of (panic, c) = (panic, c)

-- for pipelineCount > 0 { c.Read(); … }
unfoldable pub read_each : Platform → ℕ → ClientConnection → Result (Unit {0}) × ClientConnection
unfolding read then_do
read_each p zero c = (ok tt, c)
read_each p (suc count) c = then_do (ignoring (read p c)) (read_each p count)

module _ (p : Platform) (net : Network) (cmd : Bytes) (args : List Value) where
  -- for i := 0; i < loop; i++ { err := c.DoAsync(cmd, args...); if err != nil { …; return } }
  unfoldable pub send_each : ℕ → ClientConnection → Result (Unit {0}) × ClientConnection
  unfolding then_do do_async
  send_each zero c = (ok tt, c)
  send_each (suc loop) c = then_do (do_async p net cmd args c) (send_each loop)

  -- for i := 0; i < loop; i++ { _, err := c.Do(cmd, args...); if err != nil { …; return } }
  unfoldable pub do_each : ℕ → ClientConnection → Result (Unit {0}) × ClientConnection
  unfolding then_do do'
  do_each zero c = (ok tt, c)
  do_each (suc loop) c = then_do (error_of (do' p net cmd args c)) (do_each loop)

  -- The branches of waitBench, for a connection.
  unfoldable pub requests : Bool → ℕ → ClientConnection → Result (Unit {0}) × ClientConnection
  unfolding send_each read_each do_each then_do
  requests true loop c = then_do (send_each loop c) (read_each p loop)
  requests false loop c = do_each loop c

  -- waitBenchAsync and waitBench: the connection is put back even behind a panic.
  unfoldable pub wait_bench_async : ℕ → ℕ → Client → Result (Unit {0}) × Client
  unfolding get put send_each
  wait_bench_async now loop client =
      let (c, client') = get client in let (r, c') = send_each loop c in (r, put now c' client')

  unfoldable pub wait_bench : ℕ → Bool → ℕ → Client → Result (Unit {0}) × Client
  unfolding get put requests
  wait_bench now pipelined loop client =
      let (c, client') = get client in
      let (r, c') = requests pipelined loop c in (r, put now c' client')

  unfoldable pub setup_bench : ℕ → Client → Result (Unit {0}) × Client
  unfolding get put do'
  setup_bench now client =
      let (c, client') = get client in
      let (r, c') = error_of (do' p net cmd args c) in (r, put now c' client')

-- main: how many requests each client makes
unfoldable pub loop_of : ℤ → ℤ → Result ℕ
loop_of (negsuc n) clients = panic
loop_of (pos zero) clients = panic
loop_of (pos (suc n)) (negsuc m) = panic
loop_of (pos (suc n)) (pos zero) = panic
loop_of (pos (suc n)) (pos (suc m)) = if ltb n m then panic else ok (suc n / suc m)

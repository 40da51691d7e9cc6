-- ===== src/Client/Bench/Race.antt =====
-- cmd/broadcast-benchmark/main.go: bench and its goroutines, which share the pool of one client. The
-- steps of a run are those between which the scheduler can switch: a goroutine has its connection to
-- itself, so that all of its requests are one step. The clock is left out.
pub mod Alone
pub mod Ends
pub mod Pool
use broadcast.Common.{
  ℕ, zero, suc, ◌+◌, ◌≡◌, Bool, if◌then◌else◌, Option, none, some, List, [], ◌∷◌, ◌++◌, Bytes,
  Result,
}
use broadcast.Wire.{Value, Platform}
use broadcast.Client.{ClientConnection, Network, Client, get, put}
use broadcast.Client.Bench.{send_each, requests}
use broadcast.Client.Bench.Commands.{Benchmark, async, command}

-- Where a goroutine stands: before Get, before its requests, before CloseConnection, before wg.Done and
-- behind it. The two deferred calls run in this order after a panic too.
pub data Goroutine : Type 0 where
  started : Goroutine
  holding : ClientConnection → Goroutine
  used : Result (Unit {0}) → ClientConnection → Goroutine
  put_back : Result (Unit {0}) → Goroutine
  finished : Result (Unit {0}) → Goroutine

pub record Race : Type 0 where
  pub client : Client
  pub unstarted : ℕ
  pub wait_group : ℕ
  pub goroutines : List Goroutine

-- wg.Add(*clients)
abbrev pub bench_start : ℕ → Client → Race
bench_start clients client = record {
  client = client;
  unstarted = clients;
  wait_group = clients;
  goroutines = [];
}

module _ (p : Platform) (net : Network) (results n : ℕ) (pipelined : Bool) (loop : ℕ)
    (b : Benchmark) where
  -- The requests of a goroutine, between Get and CloseConnection.
  unfoldable pub work : ClientConnection → Result (Unit {0}) × ClientConnection
  unfolding async command send_each requests
  work c =
      let (cmd, args) = command results n b in
      if async b then send_each p net cmd args loop c else requests p net cmd args pipelined loop c

  -- The next step of a goroutine, with what it makes of the pool and of the counter of the group. Done
  -- panics when the counter is 0.
  unfoldable pub next : ℕ → Goroutine → Client → ℕ → Option (Goroutine × Client × ℕ)
  unfolding get put work
  next now started client wg = let (c, client') = get client in some (holding c, client', wg)
  next now (holding c) client wg = let (r, c') = work c in some (used r c', client, wg)
  next now (used r c) client wg = some (put_back r, put now c client, wg)
  next now (put_back r) client zero = none
  next now (put_back r) client (suc wg) = some (finished r, client, wg)
  next now (finished r) client wg = none

  -- A turn of the loop of bench, or of a goroutine. A panic ends the program at some time after it.
  pub data Step (x : Race) : Race → Type 0 where
    starting :
        (m : ℕ)
        → x.unstarted ≡ suc m
        → Step x (record x { unstarted = m; goroutines = started ∷ x.goroutines })
    running :
        (now : ℕ) (xs ys : List Goroutine) (g g' : Goroutine) (client : Client) (wg : ℕ)
        → x.goroutines ≡ xs ++ g ∷ ys
        → next now g x.client x.wait_group ≡ some (g', client, wg)
        → Step x (record x { client = client; wait_group = wg; goroutines = xs ++ g' ∷ ys })

  -- Runs of so many steps.
  pub data Run (x : Race) : ℕ → Race → Type 0 where
    begun : Run x 0 x
    then_step : {k : ℕ} {y z : Race} → Run x k y → Step y z → Run x (suc k) z

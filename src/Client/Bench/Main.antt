-- ===== src/Client/Bench/Main.antt =====
-- cmd/broadcast-benchmark/main.go: main, from the parsed flags over the benchmarks one after another.
pub mod Begin
pub mod Keeps
use broadcast.Common.{ℕ, ◌≡◌, Bool, List, [], ◌∷◌, Bytes, Option, Error, Result, ok, err, panic}
use broadcast.Common.Int.{ℤ, pos, pos_part}
use broadcast.Wire.{Platform}
use broadcast.Client.{Network, Client, new_client}
use broadcast.Client.Bench.{loop_of}
use broadcast.Client.Bench.Commands.{Benchmark, prepare}
use broadcast.Client.Bench.Race.{Race, bench_start, Run}

pub record Flags : Type 0 where
  pub ip : Bytes
  pub port : ℤ
  pub bprotocol : Bytes
  pub pipelined : Bool
  pub number : ℤ
  pub clients : ℤ

-- What main takes from its tests of the flags and from NewClient, whose error it drops: its client is
-- then nil, and the first Get panics.
unfoldable pub began : Result ℕ → ℕ → Result Client → Result (ℕ × ℕ × Client)
began (ok loop) clients (ok client) = ok (loop, clients, client)
began (ok loop) clients (err e) = panic
began (ok loop) clients panic = panic
began (err e) clients client = err e
began panic clients client = panic

-- The number of requests of a goroutine, that of the goroutines, and the client.
unfoldable pub begin : (Bytes → Option Error) → Flags → Result (ℕ × ℕ × Client)
unfolding loop_of new_client began
begin resolve flags =
    began (loop_of flags.number flags.clients) (pos_part flags.clients)
      (new_client resolve flags.port flags.ip (pos 1) flags.bprotocol)

-- The benchmarks of main that have ended, each with its random number: what runs before the goroutines,
-- and then a run of them after which the group waits no more.
pub data Done (p : Platform) (net : Network) (results : ℕ) (pipelined : Bool) (loop clients : ℕ)
    : List Benchmark → Client → Client → Type 0 where
  none_left : {client : Client} → Done p net results pipelined loop clients [] client client
  one_more :
      (n now : ℕ) {b : Benchmark} {bs : List Benchmark} {k : ℕ} {x : Race} {client client' : Client}
      → Run p net results n pipelined loop b
          (bench_start clients (prepare p net now results n b client))
          k
          x
      → x.wait_group ≡ 0
      → Done p net results pipelined loop clients bs x.client client'
      → Done p net results pipelined loop clients (b ∷ bs) client client'

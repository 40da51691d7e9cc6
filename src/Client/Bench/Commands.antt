-- ===== src/Client/Bench/Commands.antt =====
-- cmd/broadcast-benchmark/main.go: the commands of the benchmarks and the order in which main runs them.
use broadcast.Common.{
  ℕ, ◌+◌, ◌/◌, ◌%◌, Bool, true, false, ◌&&◌, ◌||◌, List, [], ◌∷◌, Bytes, codes, ltb, leb,
  if◌then◌else◌, Result,
}
use broadcast.Common.Int.{pos}
use broadcast.Wire.{Value, Platform, str, int, other}
use broadcast.Client.{Network, Client}
use broadcast.Client.Bench.{wait_bench, wait_bench_async, setup_bench}

-- string(n), the UTF-8 of a code point, and of U+FFFD for a number that is none.
unfoldable pub string_of : ℕ → Bytes
string_of n =
    if ltb n 0x80
    then n ∷ []
    else if ltb n 0x800
    then (0xC0 + n / 64) ∷ (0x80 + n % 64) ∷ []
    else if (leb 0xD800 n && leb n 0xDFFF) || ltb 0x10FFFF n
    then 0xEF ∷ 0xBF ∷ 0xBD ∷ []
    else if ltb n 0x10000
    then (0xE0 + n / 4096) ∷ (0x80 + n / 64 % 64) ∷ (0x80 + n % 64) ∷ []
    else (0xF0 + n / 262144) ∷ (0x80 + n / 4096 % 64) ∷ (0x80 + n / 64 % 64) ∷ (0x80 + n % 64) ∷ []

pub data Benchmark : Type 0 where
  set ping get del incr decr count set_nx sadd srem scard sdiff sismember smembers : Benchmark

-- Whether the goroutines of a benchmark run waitBenchAsync.
unfoldable pub async : Benchmark → Bool
async count = true
async b = false

-- The command of a benchmark, for the random number `n`. `results` stands for the []string of SREM,
-- which is one argument.
unfoldable pub command : ℕ → ℕ → Benchmark → Bytes × List Value
unfolding string_of
command results n set = (codes "SET", str (string_of n) ∷ int (pos n) ∷ [])
command results n ping = (codes "PING", [])
command results n get = (codes "GET", str (codes "foo") ∷ [])
command results n del = (codes "DEL", str (codes "foo") ∷ [])
command results n incr = (codes "INCR", str (string_of n) ∷ int (pos 1) ∷ [])
command results n decr = (codes "DECR", str (string_of n) ∷ int (pos 1) ∷ [])
command results n count = (codes "COUNT", str (codes "foo") ∷ int (pos 1) ∷ [])
command results n set_nx = (codes "SETNX", str (string_of n) ∷ int (pos n) ∷ [])
command results n sadd = (codes "SADD", str (string_of n) ∷ int (pos n) ∷ [])
command results n srem = (codes "SREM", str (string_of n) ∷ other results ∷ [])
command results n scard = (codes "SCARD", str (string_of n) ∷ int (pos n) ∷ [])
command results n sdiff = (codes "SDIFF", str (string_of n) ∷ str (string_of n) ∷ [])
command results n sismember = (codes "SISMEMBER", str (string_of n) ∷ str (string_of n) ∷ [])
command results n smembers = (codes "SMEMBERS", str (string_of n) ∷ [])

-- The benchmarks in the order of main.
abbrev pub benchmarks : List Benchmark
benchmarks =
    set ∷ ping ∷ get ∷ del ∷ incr ∷ decr ∷ count ∷ set_nx ∷ sadd ∷ srem ∷ scard ∷ sdiff ∷ sismember
    ∷ []

module _ (p : Platform) (net : Network) (now results n : ℕ) where
  -- What runs before the goroutines of a benchmark.
  unfoldable pub prepare : Benchmark → Client → Client
  unfolding setup_bench command
  prepare srem client =
      (setup_bench p net (codes "SADD") (str (string_of n) ∷ other results ∷ []) now client).1
  prepare b client = client

  -- One of the goroutines.
  unfoldable pub run_bench : Bool → ℕ → Benchmark → Client → Result (Unit {0}) × Client
  unfolding async wait_bench wait_bench_async command
  run_bench pipelined loop b client =
      let (cmd, args) = command results n b in
      if async b
      then wait_bench_async p net cmd args now loop client
      else wait_bench p net cmd args now pipelined loop client

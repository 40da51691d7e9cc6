-- ===== src/Tests/Bench.antt =====
-- A run of the benchmark program at a concrete input.
use broadcast.Common.{false, [], ◌∷◌, Bytes, Option, none, Error, codes}
use broadcast.Common.Int.{pos}
use broadcast.Client.{Client, get}
use broadcast.Client.Bench.Commands.{ping, run_bench}
use broadcast.Client.Bench.Race.{Race, holding}
use broadcast.Client.Bench.Main.{Flags}
use broadcast.Client.Bench.Main.Keeps
use broadcast.Tests.Client.{printing, down}

abbrev resolved : Bytes → Option Error
resolved addr = none

abbrev flags : Flags
flags = record {
  ip = codes "127.0.0.1";
  port = pos 7331;
  bprotocol = codes "redis";
  pipelined = false;
  number = pos 3;
  clients = pos 1;
}

abbrev flags_client : Client
flags_client = record {
  bprotocol = codes "redis";
  addr = codes "127.0.0.1:7331";
  max_idle = pos 1;
  connections = [];
  created = 0;
}

-- The benchmark of PING is over, and that of SADD has a goroutine with a connection.
abbrev pinged : Client
pinged = (run_bench printing down 5 0 0 false 3 ping flags_client).1

abbrev adding : Race
adding = record {
  client = (get pinged).1;
  unstarted = 0;
  wait_group = 1;
  goroutines = holding (get pinged).0 ∷ [];
}

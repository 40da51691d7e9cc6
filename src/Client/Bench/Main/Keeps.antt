-- ===== src/Client/Bench/Main/Keeps.antt =====
-- Every state of the benchmark program.
use broadcast.Client.{Client}
use broadcast.Client.Bench.Commands as Commands
use broadcast.Client.Bench.Race.{Race}

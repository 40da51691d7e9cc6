-- ===== src/Stats/Commands/Answers.antt =====
-- Every command handler of backends/stats/metrics.go makes the calls of one reply for each request.
mod Values
mod Sets
use broadcast.Common.{Bool, true, false, List, Bytes}
use broadcast.Stats.Metrics.{Metrics}
use broadcast.Stats.Session.{Data, args}
use broadcast.Stats.Session.Answers.{Answers}
use broadcast.Stats.Commands.{
  Command, handle, run_command, count, counters, incr, decr, del, exists, get, set, set_nx, keys,
  sadd, srem, scard, smembers, sdiff, sismember, sinter, sunion,
}
use broadcast.Stats.Commands.Answers.Values
use broadcast.Stats.Commands.Answers.Sets

-- COUNT alone may send nothing.
abbrev pub is_silent : Command → Bool
is_silent count = true
is_silent _ = false

module _ {S : Type 0} (m : Metrics S) where
  handle-Answers : (c : Command) (d : List Bytes) → Answers (is_silent c) (handle m c d)
  unfolding handle
  handle-Answers count = Values.count-Answers m
  handle-Answers counters = Values.counters-Answers m
  handle-Answers incr = Values.incr-Answers m
  handle-Answers decr = Values.decr-Answers m
  handle-Answers del = Values.del-Answers m
  handle-Answers exists = Values.exists-Answers m
  handle-Answers get = Values.get-Answers m
  handle-Answers set = Values.set-Answers m
  handle-Answers set_nx = Values.set_nx-Answers m
  handle-Answers keys = Values.keys-Answers m
  handle-Answers sadd = Sets.sadd-Answers m
  handle-Answers srem = Sets.srem-Answers m
  handle-Answers scard = Sets.scard-Answers m
  handle-Answers smembers = Sets.smembers-Answers m
  handle-Answers sdiff = Sets.sdiff-Answers m
  handle-Answers sismember = Sets.sismember-Answers m
  handle-Answers sinter = Sets.sinter-Answers m
  handle-Answers sunion = Sets.sunion-Answers m

  pub run_command-Answers :
      (c : Command) (data' : Data) → Answers (is_silent c) (run_command m c data')
  unfolding run_command
  run_command-Answers c data' = handle-Answers c (args data')

-- ===== src/Tests/App.antt =====
-- The server as a whole at concrete inputs.
use broadcast.Common.{◌≡◌, refl, true, List, [], ◌∷◌, Bytes, codes}
use broadcast.Common.Int.{pos}
use broadcast.Server.{BroadcastServerStatus, accept}
use broadcast.PubSub
use broadcast.App.{App, Configuration, ProtocolName, written}
use broadcast.App.Invariant
use broadcast.App.Invariant.{
  IsSound, initial, after_request, started, then_step, accepting, requesting, exiting,
}
use broadcast.App.Delivers
use broadcast.Tests.Wire.{platform}
use broadcast.Tests.Handlers.{rate}

abbrev pub runtime : BroadcastServerStatus
runtime = record {
  num_goroutines = 4;
  num_cpu = 1;
  num_cgo_call = pos 0;
  memory = 0;
  num_clients = pos 0;
}

abbrev pub everything : Configuration
everything = record { backend_default = true; backend_stats = true; backend_pubsub = true }

abbrev at_start : App
at_start = initial platform rate runtime everything 0

abbrev pub with_clients : App
with_clients =
    let one = record at_start { server = accept (codes "a") at_start.server } in
    record one { server = accept (codes "b") one.server }

-- The second client sends SADD.
abbrev busy : App
busy =
    after_request platform rate runtime everything (codes "b")
      (codes "sadd" ∷ codes "s" ∷ codes "x" ∷ []) (record { state = with_clients; calls = [] })

with_clients-Reachable : Invariant.Reachable platform rate runtime everything with_clients
with_clients-Reachable =
    then_step (then_step (started 0) (accepting (codes "a"))) (accepting (codes "b"))

Reachable-IsSound_example : IsSound busy
Reachable-IsSound_example = Invariant.Reachable-IsSound platform rate runtime everything (
    then_step with_clients-Reachable
      (requesting (codes "b") (codes "sadd" ∷ codes "s" ∷ codes "x" ∷ []) []))

abbrev subscribed : App
subscribed =
    after_request platform rate runtime everything (codes "a")
      (codes "subscribe" ∷ codes "news" ∷ []) (record { state = with_clients; calls = [] })

-- `a` subscribes, `b` unsubscribes, and then `b` publishes.
abbrev later : App
later =
    after_request platform rate runtime everything (codes "b")
      (codes "unsubscribe" ∷ codes "news" ∷ []) (record { state = subscribed; calls = [] })

-- A later line has taken the place of the arguments.
abbrev forgotten : List Bytes → List Bytes
forgotten d = codes "x" ∷ []

line_overwrites :
    written ProtocolName.line forgotten (codes "a", codes "news" ∷ codes "hi" ∷ [])
    ≡ (codes "a", codes "x" ∷ [])
unfolding written
line_overwrites = refl

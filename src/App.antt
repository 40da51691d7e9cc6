-- ===== src/App.antt =====
-- cmd/broadcast-server/main.go: the server as a whole. Its configuration says which backends are
-- registered, and the state holds what the backends and the connections share.
mod Keeps
mod Requests
pub mod Answers
pub mod Replies
pub mod Reads
pub mod Table
pub mod Invariant
pub mod Waiting
pub mod Delivers
use broadcast.Common.{
  Option, none, some, same, ℕ, Bool, true, false, List, [], ◌∷◌, ◌++◌, Bytes, codes, if◌then◌else◌,
  Result, ok, Error,
}
use broadcast.Common.Int.{ℤ, pos}
use broadcast.Dict.{Dict, has}
use broadcast.Wire.{Platform}
use broadcast.Server.{BroadcastServer, BroadcastServerStatus, CommandInfo}
use broadcast.Server.Context.{BroadcastContext, new_broadcast_context, register_command}
use broadcast.Stats.Memory.{MemoryBackend}
use broadcast.Stats.Metrics.{memory}
use broadcast.Stats.Session.{Data, args, Run, modify, zoom}
use broadcast.Stats.Commands.{Command, run_command, registrations, info}
use broadcast.PubSub
use broadcast.PubSub.{Topics, Delivery}
use broadcast.Protocol.Request.{Handler}
use broadcast.Default

pub record App : Type 0 where
  pub memory : MemoryBackend
  pub topics : Topics
  pub server : BroadcastServer
  pub command_help : Dict CommandInfo
  -- the goroutines that PUBLISH has started, each with a client and the arguments as they were then
  pub deliveries : List Delivery

-- The backends that are enabled. The graph backend is not part of the repository.
pub record Configuration : Type 0 where
  pub backend_default : Bool
  pub backend_stats : Bool
  pub backend_pubsub : Bool

pub data ProtocolName : Type 0 where
  default redis line : ProtocolName

-- The protocol that main chooses, or none, and then it stops.
unfoldable pub choose_protocol : Bytes → Option ProtocolName
choose_protocol bprotocol =
    if same bprotocol []
    then some default
    else if same bprotocol (codes "redis")
    then some redis
    else if same bprotocol (codes "line")
    then some line
    else none

-- The handlers of the PubSubBackend for the client at the address. GetClient finds those that are
-- connected.
module _ (id : Bytes) where
  unfoldable pub subscribe : Handler App
  unfolding modify
  subscribe d = modify λ app. (tt, record app { topics = PubSub.subscribe id (args d) app.topics })

  unfoldable pub unsubscribe : Handler App
  unfolding modify
  unsubscribe d =
      modify λ app. (tt, record app { topics = PubSub.unsubscribe id (args d) app.topics })

  -- The writes are left to goroutines: `written` is what they find.
  unfoldable pub publish : Handler App
  unfolding modify
  publish d = modify λ app.
      let (sent, topics) = PubSub.publish (λ c. has c app.server.clients) (args d) app.topics in
      (tt, record app { topics = topics; deliveries = app.deliveries ++ sent })

-- What a goroutine of PUBLISH writes when it runs. ReadPayload of the redis protocol allocates each argument.
-- An argument of the line protocol is a slice of the buffer that the next line of the publisher is read
-- into: `overwritten` is what such slices hold by then. The default protocol hands over no such arguments.
unfoldable pub written : ProtocolName → (List Bytes → List Bytes) → Delivery → Delivery
written ProtocolName.default overwritten (c, d) = (c, d)
written ProtocolName.redis overwritten (c, d) = (c, d)
written ProtocolName.line overwritten (c, d) = (c, overwritten d)

-- `per_second` is the rate of the counters, and `runtime` what the runtime reports.
module _ (p : Platform) (per_second : ℤ → ℕ → ℕ → ℕ) (runtime : BroadcastServerStatus) where
  -- BroadcastServer.Status
  abbrev pub status : App → BroadcastServerStatus
  status app = record runtime { num_clients = app.server.client_size }

  -- A handler of the StatsBackend.
  abbrev pub stats_handler : Command → Handler App
  stats_handler c d =
      zoom (λ app. app.memory) (λ mem app. record app { memory = mem })
        (run_command (memory per_second) c d)

  abbrev pub register_default : BroadcastContext App → BroadcastContext App
  register_default ctx =
      register_command p (info "CMDS" "List of available commands supported by the server" "" false)
        (Default.help (λ app. app.command_help))
        (register_command p (info "INFO" "Current server status and information" "" false)
          (Default.info status)
          (register_command p (info "ECHO" "Echos back a message sent" "ECHO \"hello world\"" false)
            Default.echo
            (register_command p (info "PING" "Pings the server for a response" "" false)
              Default.ping ctx)))

  abbrev pub register_stats :
      List (CommandInfo × Command) → BroadcastContext App → BroadcastContext App
  register_stats [] ctx = ctx
  register_stats ((cmd, c) ∷ cs) ctx =
      register_stats cs (register_command p cmd (stats_handler c) ctx)

  abbrev pub register_pubsub : Bytes → BroadcastContext App → BroadcastContext App
  register_pubsub id ctx =
      register_command p
        (info "UNSUBSCRIBE" "Unsubscribes from a specified topic" "UNSUBSCRIBE topic [topic ...]"
          true)
        (unsubscribe id)
        (register_command p
          (info "SUBSCRIBE" "Subscribes to a specified topic" "SUBSCRIBE topic [topic ...]" true)
          (subscribe id)
          (register_command p
            (info "PUBLISH" "Publishes to a specified topic given the data/arguments"
              "PUBLISH topic message" true)
            (publish id) ctx))

  -- The context as main sets it up, for the handlers of one client.
  unfoldable pub context : Configuration → Bytes → BroadcastContext App
  context cfg id =
      let ctx = new_broadcast_context in
      let ctx = if cfg.backend_default then register_default ctx else ctx in
      let ctx = if cfg.backend_stats then register_stats registrations ctx else ctx in
      if cfg.backend_pubsub then register_pubsub id ctx else ctx

  -- The context that cmd/broadcast-stats/main.go sets up.
  unfoldable pub stats_context : Bytes → BroadcastContext App
  stats_context id =
      register_pubsub id (register_default (register_stats registrations new_broadcast_context))

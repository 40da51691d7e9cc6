-- ===== src/Tests/Program.antt =====
-- The two servers start at concrete flags, and what they reply.
use broadcast.Common.{
  ◌≡◌, refl, some, true, false, ◌&&◌, ◌||◌, List, [], ◌∷◌, ◌++◌, Bytes, write_failed, Result, ok,
  err, codes, same, All, arith,
}
use broadcast.Common.Int.{pos}
use broadcast.Decimal.{format_int}
use broadcast.Dict.{lookup, insert, has}
use broadcast.Dict.Keys.{among}
use broadcast.Server.{CommandInfo}
use broadcast.Server.Context.{BroadcastContext, register, register_help, register_command}
use broadcast.Protocol.Request
use broadcast.Server.Life.{Backend, checking, Event}
use broadcast.Server.Life.Steps.{Reachable}
use broadcast.Stats.Session.{bulk, Session}
use broadcast.Stats.Session.Answers.{HasSent}
use broadcast.Default
use broadcast.Protocol.{Conn, run_client, serving}
use broadcast.Protocol.Request.{redis}
use broadcast.Protocol.Pipeline.{requests}
use broadcast.App.{App, ProtocolName, choose_protocol, context}
use broadcast.App.Answers
use broadcast.App.Replies
use broadcast.App.Replies.{is_awaited, answered, Replied}
use broadcast.App.Table.Known.{KeepsNames, pubsub_names, stats_names, default_names}
use broadcast.Program.{
  System, Settings, StatsSettings, Flags, Running, serves, prints, server_main, configure,
  start_profile, broadcast_event, error_text, log_line,
}
use broadcast.Program.Loaded.{address, enabled}
use broadcast.Program.Starts
use broadcast.Program.Starts.{IsReady}
use broadcast.Tests.Wire.{platform}
use broadcast.Tests.Handlers.{rate}
use broadcast.Tests.App.{runtime, everything, with_clients}

-- No file can be read or made, and a port is free or not.
abbrev machine : Result (Unit {0}) → System Bytes
machine port = record {
  read_file = λ path. err write_failed;
  create = λ path. err write_failed;
  resolve = λ addr. ok addr;
  listen_tcp = λ addr. port;
}

abbrev settings : Settings
settings = record {
  port = pos 7331;
  host = codes "127.0.0.1";
  bprotocol = codes "redis";
  backends = everything;
  backend_bgraph = false;
}

abbrev stats_settings : StatsSettings
stats_settings = record { port = pos 7331; host = codes "127.0.0.1" }

abbrev flags : Flags Settings
flags = record { settings = settings; config_file = []; cpu_profile = [] }

abbrev stats_flags : Flags StatsSettings
stats_flags = record { settings = stats_settings; config_file = []; cpu_profile = [] }

abbrev decode : {C : Type 0} → Bytes → C → Result C
decode text cfg = ok cfg

-- The graph backend is not there.
abbrev no_graph : Result ((BroadcastContext App → BroadcastContext App) × Backend)
no_graph = err write_failed

server-IsReady : (port : Result (Unit {0})) → IsReady (machine port) decode flags settings
unfolding configure start_profile same
server-IsReady port = record { configured = refl; profiled = refl }

redis_chosen : choose_protocol (codes "redis") ≡ some ProtocolName.redis
unfolding choose_protocol same
redis_chosen = refl

capitals : KeepsNames platform
capitals = ground arith

-- A file that cannot be read ends main.
no_file :
    server_main
      (machine (ok tt))
      platform
      rate
      runtime
      decode
      no_graph
      (record flags { config_file = codes "x" })
    ≡ prints write_failed
unfolding server_main configure same
no_file = refl

a_line :
    log_line
      (λ e. codes "refused")
      (pos 7)
      (codes "now")
      (broadcast_event [] (Event.accept_error write_failed))
    ≡ codes "[7] now ERROR: accept error refused" ++ 10 ∷ []
unfolding log_line broadcast_event error_text format_int same
a_line = refl

server_main-serves_example :
    (r : Running) × (server_main (machine (ok tt)) platform rate runtime decode no_graph flags
      ≡ serves r)
    × Reachable (machine (ok tt)).resolve (machine (ok tt)).listen_tcp r.life
    × (r.life.accepting ≡ checking)
    × (r.life.backends ≡ enabled settings.backends)
    × (has (codes "GET") (r.table (codes "a")).commands ≡ (
        (true && among (codes "GET") pubsub_names)
        || ((true && among (codes "GET") stats_names)
            || (true && among (codes "GET") default_names))))
server_main-serves_example =
    Starts.server_main-serves (machine (ok tt)) platform rate runtime decode no_graph flags settings
      ProtocolName.redis (address (codes "127.0.0.1") (pos 7331)) (codes "a") (codes "GET")
      (server-IsReady (ok tt)) redis_chosen refl refl refl capitals

abbrev at_work : Session App
at_work = record { state = with_clients; calls = [] }

ping_known :
    lookup (codes "PING") (context platform rate runtime everything (codes "a")).commands
    ≡ some Default.ping
unfolding context register_command register register_help Request.register lookup insert same
ping_known = refl

handler_as_announced_example :
    (i : CommandInfo) × (lookup
        (codes "PING")
        (context platform rate runtime everything (codes "a")).command_help
      ≡ some i)
    × HasSent i.fire_forget at_work (Default.ping (bulk []) at_work)
handler_as_announced_example =
    Answers.handler_as_announced platform rate runtime everything (codes "a") (codes "PING")
      Default.ping (bulk []) at_work ping_known

abbrev three_requests : List (List Bytes)
three_requests = (codes "ping" ∷ []) ∷ (codes "get" ∷ codes "k" ∷ []) ∷ (codes "quit" ∷ []) ∷ []

abbrev connection : Conn App
connection = record { session = at_work; events = []; status = serving }

waits :
    All
      (λ r. is_awaited platform (context platform rate runtime everything (codes "a")) r ≡ true)
      three_requests
unfolding is_awaited context register_command register register_help lookup insert same
waits = ground arith

one_reply_each_example :
    Replied connection
      (run_client
        (redis platform (context platform rate runtime everything (codes "a")).commands)
        (requests three_requests)
        connection)
      (answered
        (redis platform (context platform rate runtime everything (codes "a")).commands)
        three_requests
        connection)
one_reply_each_example =
    Replies.one_reply_each platform rate runtime everything (codes "a") three_requests connection
      (omega arith) waits

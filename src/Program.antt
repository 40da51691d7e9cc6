-- ===== src/Program.antt =====
-- cmd/broadcast-server/main.go and cmd/broadcast-stats/main.go: what main does from its flags up to the loop
-- of AcceptConnections, and the lines that it logs. The flags are those behind flag.Parse.
pub mod Loaded
pub mod Process
pub mod Starts
use broadcast.Common.{
  Option, none, some, Bool, true, false, List, [], ◌∷◌, ◌++◌, Bytes, codes, Error, Result, ok, err,
  panic, same, if◌then◌else◌, ℕ,
}
use broadcast.Common.Int.{ℤ}
use broadcast.Decimal.{format_int}
use broadcast.Wire.{Platform}
use broadcast.Server.{BroadcastServerStatus}
use broadcast.Server.Context.{BroadcastContext}
use broadcast.Server.Life.{
  Life, Backend, StatsBackend, Event, plain, stats, header, closing, speaking, listening,
  accept_error, listen_protocol, load_backend, accept_connections,
}
use broadcast.App.{App, Configuration, ProtocolName, choose_protocol, context, stats_context}

-- What main is given: the operating system, the package net and BurntSushi/toml.
pub record System (A : Type 0) : Type 0 where
  pub read_file : Bytes → Result Bytes
  pub create : Bytes → Result (Unit {0})
  pub resolve : Bytes → Result A
  pub listen_tcp : A → Result (Unit {0})

-- The Configuration of broadcast-server: where to listen, the protocol, and the backends.
pub record Settings : Type 0 where
  pub port : ℤ
  pub host : Bytes
  pub bprotocol : Bytes
  pub backends : Configuration
  pub backend_bgraph : Bool

-- The Configuration of broadcast-stats
pub record StatsSettings : Type 0 where
  pub port : ℤ
  pub host : Bytes

-- The flags: the settings, and the paths of the configuration file and of the profile.
pub record Flags (C : Type 0) : Type 0 where
  pub settings : C
  pub config_file : Bytes
  pub cpu_profile : Bytes

-- A server that runs AcceptConnections, with the table of commands for a client at an address.
pub record Running : Type 0 where
  pub life : Life
  pub name : Bytes
  pub version : Bytes
  pub table : Bytes → BroadcastContext App

-- How main gets to AcceptConnections or not: an error is printed, or the process dies of a panic.
pub data Outcome : Type 0 where
  serves : Running → Outcome
  prints : Error → Outcome
  invalid_protocol : Bytes → Outcome
  crashes : Outcome

-- if err != nil { fmt.Println(err); return }
abbrev pub or_print : {A : Type 0} → Result A → (A → Outcome) → Outcome
or_print (ok a) next = next a
or_print (err e) next = prints e
or_print panic next = crashes

-- Name of the protocols
unfoldable pub protocol_name : ProtocolName → Bytes
protocol_name ProtocolName.default = codes "interface"
protocol_name ProtocolName.redis = codes "redis"
protocol_name ProtocolName.line = codes "line"

-- A StatsBackend before Load
abbrev pub new_stats_backend : Backend
new_stats_backend = stats (record { quit_open = none; ticking = false })

module _ {A : Type 0} (sys : System A) where
  -- The configuration file, if there is one. `decode` is toml.Decode into the settings.
  unfoldable pub configure : {C : Type 0} → (Bytes → C → Result C) → Flags C → Result C
  configure decode flags =
      if same flags.config_file []
      then ok flags.settings
      else elim (sys.read_file flags.config_file) [
        | ok text ↦ decode text flags.settings
        | err e ↦ err e
        | panic ↦ panic
      ]

  -- The profile, if one is asked for
  unfoldable pub start_profile : Bytes → Result (Unit {0})
  start_profile path = if same path [] then ok tt else sys.create path

  module _ (p : Platform) (per_second : ℤ → ℕ → ℕ → ℕ) (runtime : BroadcastServerStatus) where
    -- The loads of main, for the backends that are enabled
    unfoldable pub load_enabled : Configuration → Life → Life
    unfolding load_backend
    load_enabled cfg life =
        let one = if cfg.backend_default then load_backend plain life else life in
        let two = if cfg.backend_stats then load_backend new_stats_backend one else one in
        if cfg.backend_pubsub then load_backend plain two else two

    -- main of broadcast-server. `graph` is RegisterBackend of the package broadcast-graph, which is not part
    -- of the repository: it registers commands and returns a backend.
    unfoldable pub server_main :
        (Bytes → Settings → Result Settings)
        → Result ((BroadcastContext App → BroadcastContext App) × Backend)
        → Flags Settings
        → Outcome
    server_main decode graph flags = or_print (configure decode flags) λ cfg.
        elim (choose_protocol cfg.bprotocol) [
          | none ↦ invalid_protocol cfg.bprotocol
          | some name ↦ or_print (start_profile flags.cpu_profile) λ _.
              or_print
                (listen_protocol sys.resolve sys.listen_tcp cfg.port cfg.host (protocol_name name))
                λ life.
                  let loaded = load_enabled cfg.backends life in
                  let table = context p per_second runtime cfg.backends in
                  if cfg.backend_bgraph
                  then or_print graph (λ g. serves (record {
                    life = accept_connections (load_backend g.1 loaded);
                    name = codes "Broadcast";
                    version = codes "0.1.0";
                    table = λ id. g.0 (table id);
                  }))
                  else serves (record {
                    life = accept_connections loaded;
                    name = codes "Broadcast";
                    version = codes "0.1.0";
                    table = table;
                  })
        ]

    -- What main of broadcast-stats does with the results of ListenProtocol. It sets fields of the server
    -- before it looks at the error, and the server is nil then.
    unfoldable pub stats_listening : Result Life → Outcome
    stats_listening (ok life) = serves (record {
      life =
          accept_connections
            (load_backend plain (load_backend plain (load_backend new_stats_backend life)));
      name = codes "Broadcast Stats";
      version = codes "0.1";
      table = stats_context p per_second runtime;
    })
    stats_listening (err e) = crashes
    stats_listening panic = crashes

    -- main of broadcast-stats
    unfoldable pub stats_main :
        (Bytes → StatsSettings → Result StatsSettings) → Flags StatsSettings → Outcome
    stats_main decode flags = or_print (configure decode flags) λ cfg.
        or_print (start_profile flags.cpu_profile) λ _.
          stats_listening
            (listen_protocol sys.resolve sys.listen_tcp cfg.port cfg.host (codes "redis"))

-- server.BroadcastEvent, of which the log shows all but the stack
pub record BroadcastEvent : Type 0 where
  pub level : Bytes
  pub message : Bytes
  pub error : Option Error

-- The events that the server sends. `banner` is the header with its values.
unfoldable pub broadcast_event : Bytes → Event → BroadcastEvent
broadcast_event banner header = record { level = codes "info"; message = banner; error = none }
broadcast_event banner (speaking name) = record {
  level = codes "info";
  message = codes "setting read/write protocol to " ++ name;
  error = none;
}
broadcast_event banner (listening addr) = record {
  level = codes "info";
  message = codes "listening for incoming connections on " ++ addr;
  error = none;
}
broadcast_event banner (accept_error e) = record {
  level = codes "error";
  message = codes "accept error";
  error = some e;
}
broadcast_event banner closing = record {
  level = codes "close";
  message = codes "broadcast server is closing.";
  error = none;
}

-- fmt.Sprintf(" %v", event.Err), if there is an error. `text` is err.Error().
unfoldable pub error_text : (Error → Bytes) → Option Error → Bytes
error_text text none = []
error_text text (some e) = b' ' ∷ text e

-- A line of the log: `now` is the time of the clock in RFC 822.
unfoldable pub log_line : (Error → Bytes) → ℤ → Bytes → BroadcastEvent → Bytes
unfolding format_int error_text
log_line text pid now event =
    let delim = if same event.level (codes "error") then codes "ERROR:" else codes "#" in
    b'[' ∷ format_int pid
    ++ codes "] "
    ++ now
    ++ b' ' ∷ delim
    ++ b' ' ∷ event.message
    ++ error_text text event.error
    ++ 10 ∷ []

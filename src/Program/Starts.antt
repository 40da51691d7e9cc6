-- ===== src/Program/Starts.antt =====
-- How the two servers start.
use broadcast.Common.{◌≡◌, refl, some, true, false, ◌&&◌, ◌||◌, Bytes, codes, Result, ok, ℕ}
use broadcast.Common.Int.{ℤ}
use broadcast.Dict.{has}
use broadcast.Dict.Keys.{among}
use broadcast.Wire.{Platform}
use broadcast.Server.{BroadcastServerStatus}
use broadcast.Server.Context.{BroadcastContext}
use broadcast.Server.Life.{Life, Backend, checking, listen_protocol, accept_connections}
use broadcast.Server.Life.Steps.{Reachable, listening, serving}
use broadcast.App.{App, Configuration, ProtocolName, choose_protocol, context}
use broadcast.App.Table.Known.{KeepsNames, stats_names, default_names, pubsub_names, context-known}
use broadcast.Program.{
  System, Settings, Flags, Running, serves, or_print, protocol_name, configure, start_profile,
  load_enabled, server_main,
}
use broadcast.Program.Loaded.{
  address, enabled, listen_protocol-fresh, load_enabled-Reachable, load_enabled-backends,
}

-- The configuration and the profile of the flags are fine.
pub record IsReady {A C : Type 0} (sys : System A) (decode : Bytes → C → Result C) (flags : Flags C)
    (cfg : C) : Type 0 where
  pub configured : configure sys decode flags ≡ ok cfg
  pub profiled : start_profile sys flags.cpu_profile ≡ ok tt

abbrev pub all_backends : Configuration
all_backends = record { backend_default = true; backend_stats = true; backend_pubsub = true }

module _ {A : Type 0} (sys : System A) where
  module _ (p : Platform) (per_second : ℤ → ℕ → ℕ → ℕ) (runtime : BroadcastServerStatus) where
    module _ (decode : Bytes → Settings → Result Settings)
        (graph : Result ((BroadcastContext App → BroadcastContext App) × Backend)) where
      server_main-running :
          (flags : Flags Settings) (cfg : Settings) (name : ProtocolName) (life : Life)
          → IsReady sys decode flags cfg
          → choose_protocol cfg.bprotocol ≡ some name
          → cfg.backend_bgraph ≡ false
          → listen_protocol sys.resolve sys.listen_tcp cfg.port cfg.host (protocol_name name)
            ≡ ok life
          → server_main sys p per_second runtime decode graph flags
            ≡ serves (record {
              life = accept_connections (load_enabled sys p per_second runtime cfg.backends life);
              name = codes "Broadcast";
              version = codes "0.1.0";
              table = context p per_second runtime cfg.backends;
            })
      unfolding server_main
      server_main-running flags cfg name life h hn hg hl =
          rw (h.configured, or_print, hn, or_print, h.profiled, or_print, hl, or_print, hg) refl

      -- When its flags, its configuration and its profile are fine and the port is free, main of
      -- broadcast-server runs AcceptConnections on a server in a state from which the life of a server goes
      -- on. The server has loaded exactly the backends that are enabled, so that the timer of the stats
      -- backend runs if it is one of them, and knows exactly their commands. The graph backend is not
      -- enabled, and strings.ToUpper keeps the names of the commands.
      pub server_main-serves :
          (flags : Flags Settings) (cfg : Settings) (name : ProtocolName) (a : A) (id k : Bytes)
          → IsReady sys decode flags cfg
          → choose_protocol cfg.bprotocol ≡ some name
          → cfg.backend_bgraph ≡ false
          → sys.resolve (address cfg.host cfg.port) ≡ ok a
          → sys.listen_tcp a ≡ ok tt
          → KeepsNames p
          → (r : Running) × (server_main sys p per_second runtime decode graph flags ≡ serves r)
            × Reachable sys.resolve sys.listen_tcp r.life
            × (r.life.accepting ≡ checking)
            × (r.life.backends ≡ enabled cfg.backends)
            × (has k (r.table id).commands ≡ (
                (cfg.backends.backend_pubsub && among k pubsub_names)
                || ((cfg.backends.backend_stats && among k stats_names)
                    || (cfg.backends.backend_default && among k default_names))))
      unfolding accept_connections
      server_main-serves flags cfg name a id k h hn hg hr hl keeps =
          let (life, made, open_yet, idle, none_yet) =
            listen_protocol-fresh sys cfg.port cfg.host (protocol_name name) a hr hl in
          let (reached, still_open, still_idle) =
            load_enabled-Reachable sys p per_second runtime cfg.backends life
              (listening cfg.port cfg.host (protocol_name name) made, open_yet, idle) in
          (
            record {
              life = accept_connections (load_enabled sys p per_second runtime cfg.backends life);
              name = codes "Broadcast";
              version = codes "0.1.0";
              table = context p per_second runtime cfg.backends;
            },
            server_main-running flags cfg name life h hn hg made,
            serving reached still_idle,
            refl,
            load_enabled-backends sys p per_second runtime cfg.backends life none_yet,
            context-known p per_second runtime cfg.backends id k keeps,
          )

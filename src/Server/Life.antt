-- ===== src/Server/Life.antt =====
-- server/server.go: a server from ListenProtocol to Close, with the loop of AcceptConnections, the
-- goroutines that wait for the exit of a client, and Load and Unload of the backends. The package net is a
-- parameter: what it answers is an argument of the functions here.
pub mod Steps
pub mod Closing
pub mod Clients
pub mod Sane
pub mod Count
pub mod Gone
use broadcast.Common.{
  Option, none, some, Bool, true, false, List, [], ◌∷◌, ◌++◌, Bytes, Error, Result, ok, err, panic,
  ◌>>=◌, ◌⊎◌, inl, inr,
}
use broadcast.Common.Int.{ℤ, pos}
use broadcast.Decimal.{format_int}
use broadcast.Dict.{lookup, insert}
use broadcast.Server.{BroadcastServer, accept, close_channel, close_client, close_server}

-- The channel `quit` of a StatsBackend, none before Load, and whether its ticker and the goroutine of
-- Load run.
pub record StatsBackend : Type 0 where
  pub quit_open : Option Bool
  pub ticking : Bool

-- DefaultBackend and PubSubBackend have nothing to load.
pub data Backend : Type 0 where
  plain : Backend
  stats : StatsBackend → Backend

-- Load of a backend, which returns nil
unfoldable pub load : Backend → Backend
load plain = plain
load (stats b) = stats (record { quit_open = some true; ticking = true })

-- close of a channel that is nil or closed panics.
unfoldable pub unload_stats : Option Bool → StatsBackend → Result StatsBackend
unfolding close_channel
unload_stats none b = panic
unload_stats (some opened) b = do
  quit ← close_channel opened
  ok (record b { quit_open = some quit })

unfoldable pub unload : Backend → Result Backend
unfolding unload_stats
unload plain = ok plain
unload (stats b) = do b' ← unload_stats b.quit_open b; ok (stats b')

-- for _, backend := range app.backends { backend.Unload() }
unfoldable pub unload_all : List Backend → Result (List Backend)
unfolding unload
unload_all [] = ok []
unload_all (b ∷ bs) = do b' ← unload b; bs' ← unload_all bs; ok (b' ∷ bs')

-- What the server sends to Events: the header, the name of the protocol, the address, errors of
-- AcceptConnections, and the closing.
pub data Event : Type 0 where
  header closing : Event
  speaking listening : Bytes → Event
  accept_error : Error → Event

-- Where the loop of AcceptConnections stands: in front of its test, in AcceptTCP, or in
-- HandleConnection with the address of the peer.
pub data Accepting : Type 0 where
  checking waiting returned : Accepting
  handed : Bytes → Accepting

pub record Life : Type 0 where
  pub server : BroadcastServer
  pub addr : Bytes
  pub protocol : Bytes
  pub backends : List Backend
  pub listener_open : Bool
  pub quit_open : Bool
  pub accepting : Accepting
  pub events : List Event

-- ListenProtocol. `resolve` is net.ResolveTCPAddr, and `listen_tcp` is net.ListenTCP.
unfoldable pub listen_protocol :
    {A : Type 0} → (Bytes → Result A) → (A → Result (Unit {0})) → ℤ → Bytes → Bytes → Result Life
unfolding format_int
listen_protocol resolve listen_tcp port host protocol =
    let addr = host ++ 58 ∷ format_int port in
    do
      server_addr ← resolve addr
      listener ← listen_tcp server_addr
      ok (record {
        server = record { clients = []; client_size = pos 0; is_closed = false };
        addr = addr;
        protocol = protocol;
        backends = [];
        listener_open = true;
        quit_open = true;
        accepting = returned;
        events = [];
      })

unfoldable pub load_backend : Backend → Life → Life
unfolding load
load_backend b life = record life { backends = life.backends ++ load b ∷ [] }

-- AcceptConnections up to its loop. Initialize of the protocols returns nil.
unfoldable pub accept_connections : Life → Life
accept_connections life = record life {
  events = life.events ++ header ∷ speaking life.protocol ∷ listening life.addr ∷ [];
  accepting = checking;
}

-- for !app.Closed
unfoldable pub check : Life → Life
check life = record life {
  accepting = elim life.server.is_closed [ true ↦ returned | false ↦ waiting ];
}

-- AcceptTCP returns the connection of a peer with this address, or an error.
unfoldable pub accept_tcp : Bytes ⊎ Error → Life → Life
accept_tcp (inl id) life = record life { accepting = handed id }
accept_tcp (inr e) life = record life {
  accepting = checking;
  events = life.events ++ accept_error e ∷ [];
}

-- HandleConnection and what follows it in the loop
unfoldable pub handle_connection : Option Error → Bytes → Life → Life
unfolding accept
handle_connection none id life = record life {
  server = accept id life.server;
  accepting = checking;
}
handle_connection (some e) id life = record life {
  accepting = checking;
  events = life.events ++ accept_error e ∷ [];
}

-- A RunClient that is running ends: its deferred function closes its client. A client leaves the map only
-- when its channels are closed, and then this Close panics.
unfoldable pub end_client : Bytes → Life → Result Life
unfolding close_client
end_client id life = elim (lookup id life.server.clients) [
  | none ↦ panic
  | some c ↦ do
    c' ← close_client c
    ok (record life { server = record life.server { clients = insert id c' life.server.clients } })
]

-- BroadcastServer.Close
unfoldable pub close : Life → Result Life
unfolding close_server unload_all
close life = elim life.server.is_closed [
  | true ↦ ok life
  | false ↦ do
    server ← close_server life.server
    backends ← unload_all life.backends
    quit ← close_channel life.quit_open
    ok (record life {
      server = server;
      backends = backends;
      listener_open = false;
      quit_open = quit;
      events = life.events ++ closing ∷ [];
    })
]

-- ===== src/Server.antt =====
-- server/server.go and server/client.go: the connected clients, and closing one or all of them. The
-- count of the clients, a Go int, is a whole number.
pub mod Close
pub mod Context
pub mod Life
use broadcast.Common.{
  ℕ, Bool, true, false, List, [], ◌∷◌, Bytes, Result, ok, err, panic, ◌>>=◌, if◌then◌else◌,
}
use broadcast.Common.Int.{ℤ, pos, ◌+ℤ◌, ◌-ℤ◌}
use broadcast.Dict.{Dict, insert, remove}

-- server.Command, of which clients see all in reply to CMDS.
pub record CommandInfo : Type 0 where
  pub name : Bytes
  pub description : Bytes
  pub usage : Bytes
  pub fire_forget : Bool

-- `memory` stands for the runtime's MemStats.
pub record BroadcastServerStatus : Type 0 where
  pub num_goroutines : ℕ
  pub num_cpu : ℕ
  pub num_cgo_call : ℤ
  pub memory : ℕ
  pub num_clients : ℤ

-- What a NetworkClient has for Close: whether Conn is set, the field Closed, and whether the channels
-- RequestError and Quit are open.
pub record NetworkClient : Type 0 where
  pub has_conn : Bool
  pub is_closed : Bool
  pub request_error_open : Bool
  pub quit_open : Bool

-- close(c) panics on a closed channel.
unfoldable pub close_channel : Bool → Result Bool
close_channel true = ok false
close_channel false = panic

-- Close has a value receiver: what it assigns to Closed and Conn is lost, but the channels are shared.
unfoldable pub close_client : NetworkClient → Result NetworkClient
unfolding close_channel
close_client c =
    if c.has_conn
    then (do
      request_error ← close_channel c.request_error_open
      quit ← close_channel c.quit_open
      ok (record c { request_error_open = request_error; quit_open = quit }))
    else ok c

-- A client behind Initialize.
abbrev pub new_client : NetworkClient
new_client = record {
  has_conn = true;
  is_closed = false;
  request_error_open = true;
  quit_open = true;
}

pub record BroadcastServer : Type 0 where
  pub clients : Dict NetworkClient
  pub client_size : ℤ
  pub is_closed : Bool

-- AcceptConnections for a new connection.
unfoldable pub accept : Bytes → BroadcastServer → BroadcastServer
accept id app = record app {
  clients = insert id new_client app.clients;
  client_size = app.client_size +ℤ pos 1;
}

-- The goroutine that waits for the exit of a client.
unfoldable pub exited : Bytes → BroadcastServer → BroadcastServer
exited id app = record app {
  clients = remove id app.clients;
  client_size = app.client_size -ℤ pos 1;
}

-- for _, client := range app.clients { client.Close(); app.ctx.ClientSize-- }
unfoldable pub close_clients : Dict NetworkClient → ℤ → Result (Dict NetworkClient × ℤ)
unfolding close_client
close_clients [] n = ok ([], n)
close_clients ((id, c) ∷ d) n = do
  c' ← close_client c
  (d', n') ← close_clients d (n -ℤ pos 1)
  ok ((id, c') ∷ d', n')

unfoldable pub close_server : BroadcastServer → Result BroadcastServer
unfolding close_clients
close_server app = if app.is_closed then ok app else (do
  (clients, n) ← close_clients app.clients app.client_size
  ok (record { clients = clients; client_size = n; is_closed = true }))

-- ===== src/Server/Life/Steps.antt =====
-- The steps of a server: those of the loop of AcceptConnections, of its clients and of Close.
use broadcast.Common.{inl, inr, ◌≡◌, Option, true, false, Bytes, Error, Result, ok}
use broadcast.Common.Int.{ℤ}
use broadcast.Dict.{lookup, has}
use broadcast.Server.{NetworkClient, exited}
use broadcast.Server.Life.{
  Life, Backend, checking, waiting, handed, returned, listen_protocol, load_backend,
  accept_connections, check, accept_tcp, handle_connection, end_client, close,
}

-- One step. A connected client has an address of its own, and a listener that was closed hands out no
-- connection. The goroutine that waits for a client goes on when its channel is closed.
pub data Step (life : Life) : Life → Type 0 where
  looping : life.accepting ≡ checking → Step life (check life)
  arriving :
      (id : Bytes)
      → life.accepting ≡ waiting
      → life.listener_open ≡ true
      → Step life (accept_tcp (inl id) life)
  refusing : (e : Error) → life.accepting ≡ waiting → Step life (accept_tcp (inr e) life)
  handling :
      (o : Option Error) (id : Bytes)
      → life.accepting ≡ handed id
      → has id life.server.clients ≡ false
      → Step life (handle_connection o id life)
  ending : (id : Bytes) {life' : Life} → end_client id life ≡ ok life' → Step life life'
  exiting :
      (id : Bytes) (c : NetworkClient)
      → lookup id life.server.clients ≡ Option.some c
      → c.quit_open ≡ false
      → Step life (record life { server = exited id life.server })
  closing : {life' : Life} → close life ≡ ok life' → Step life life'

pub data Steps (life : Life) : Life → Type 0 where
  done : Steps life life
  and_then : {life' life'' : Life} → Steps life life' → Step life' life'' → Steps life life''

-- The server that ListenProtocol returns loads its backends, runs AcceptConnections and goes on.
pub data Reachable {A : Type 0} (resolve : Bytes → Result A) (listen_tcp : A → Result (Unit {0}))
    : Life → Type 0 where
  listening :
      (port : ℤ) (host protocol : Bytes) {life : Life}
      → listen_protocol resolve listen_tcp port host protocol ≡ ok life
      → Reachable resolve listen_tcp life
  loading :
      (b : Backend) {life : Life}
      → Reachable resolve listen_tcp life
      → life.server.is_closed ≡ false
      → Reachable resolve listen_tcp (load_backend b life)
  serving :
      {life : Life}
      → Reachable resolve listen_tcp life
      → life.accepting ≡ returned
      → Reachable resolve listen_tcp (accept_connections life)
  going :
      {life life' : Life}
      → Reachable resolve listen_tcp life
      → Step life life'
      → Reachable resolve listen_tcp life'

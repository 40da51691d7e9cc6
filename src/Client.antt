-- ===== src/Client.antt =====
-- client/go/broadcast/client.go: the client library. A connection holds its own state, and the pool
-- holds the idle ones. The n-th call of net.DialTCP for a connection is a parameter: it fails, or it
-- answers with what the network will take and what it will yield.
pub mod Sends
pub mod Pool
pub mod Reuse
pub mod Exchange
pub mod Counting
pub mod Bench
use broadcast.Common.{
  ℕ, suc, ◌+◌, Bool, true, false, Option, none, some, List, [], ◌∷◌, ◌++◌, Bytes, codes, same,
  length, leb, if◌then◌else◌, Result, ok, err, panic, Error, dial_failed,
}
use broadcast.Common.Int.{ℤ, pos_part}
use broadcast.Decimal.{format_int}
use broadcast.Wire.{Value, Platform}
use broadcast.Wire.Write.{Writer, Write, status, write_command}
use broadcast.Wire.Read.{read_interface}
use broadcast.Protocol.Client.{write_redis_command}
use broadcast.Protocol.LineClient.{write_line_command}

-- The types behind server.ProtocolClient.
pub data Kind : Type 0 where
  redis line network : Kind

pub record ProtocolClient : Type 0 where
  pub kind : Kind
  pub writer : Writer
  pub input : Bytes

-- A connection, known by the number of its allocation.
pub record ClientConnection : Type 0 where
  pub id : ℕ
  pub bprotocol : Bytes
  pub net_client : Option ProtocolClient
  pub last_active : ℕ
  pub dials : ℕ

-- The outcomes of the calls of net.DialTCP by connection and number.
abbrev pub Network : Type 0
Network = ℕ → ℕ → Option (Writer × Bytes)

-- The switch of ClientConnection.newClient
unfoldable pub kind_of : Bytes → Kind
kind_of bprotocol =
    if same bprotocol (codes "redis")
    then redis
    else if same bprotocol (codes "line")
    then line
    else network

-- netClient.WriteCommand
unfoldable pub write_kind : Platform → Kind → Bytes → List Value → Write
unfolding write_redis_command write_line_command write_command
write_kind p redis = write_redis_command p
write_kind p line = write_line_command p
write_kind p network = write_command p

unfoldable pub finalize : ClientConnection → ClientConnection
finalize c = record c { net_client = none }

-- The outcome of a dial.
unfoldable pub dialled :
    Option (Writer × Bytes) → ClientConnection → Result (Unit {0}) × ClientConnection
unfolding kind_of
dialled none c = (err dial_failed, record c { dials = suc c.dials })
dialled (some (w, input)) c = (
  ok tt,
  record c {
    dials = suc c.dials;
    net_client = some (record { kind = kind_of c.bprotocol; writer = w; input = input });
  },
)

-- The part of connect behind the test of netClient.
unfoldable pub connect_if :
    Network → Option ProtocolClient → ClientConnection → Result (Unit {0}) × ClientConnection
unfolding dialled
connect_if net (some n) c = (ok tt, c)
connect_if net none c = dialled (net c.id c.dials) c

unfoldable pub connect : Network → ClientConnection → Result (Unit {0}) × ClientConnection
unfolding connect_if
connect net c = connect_if net c.net_client c

-- What DoAsync makes of the outcome of WriteCommand and of the error of Flush.
unfoldable pub flushed :
    Writer × Option Error → ProtocolClient → ClientConnection → Result (Unit {0}) × ClientConnection
unfolding finalize
flushed (w, some failure) n c = (err failure, finalize c)
flushed (w, none) n c = elim (status w) [
  | some failure ↦ (err failure, finalize c)
  | none ↦ (ok tt, record c { net_client = some (record n { writer = w }) })
]

-- The part of DoAsync behind connect, for a netClient. A call of a nil interface panics.
unfoldable pub send_to :
    Platform
    → Bytes
    → List Value
    → Option ProtocolClient
    → ClientConnection
    → Result (Unit {0}) × ClientConnection
unfolding write_kind flushed
send_to p cmd args none c = (panic, c)
send_to p cmd args (some n) c = flushed (write_kind p n.kind cmd args n.writer) n c

unfoldable pub send :
    Platform → Bytes → List Value → ClientConnection → Result (Unit {0}) × ClientConnection
unfolding send_to
send p cmd args c = send_to p cmd args c.net_client c

-- What Read makes of the outcome of ReadInterface.
unfoldable pub received :
    Result (Value × Bytes) → ProtocolClient → ClientConnection → Result Value × ClientConnection
unfolding finalize
received (ok (v, rest)) n c = (ok v, record c { net_client = some (record n { input = rest }) })
received (err failure) n c = (err failure, finalize c)
received panic n c = (panic, c)

unfoldable pub read_from :
    Platform → Option ProtocolClient → ClientConnection → Result Value × ClientConnection
unfolding received
read_from p none c = (panic, c)
read_from p (some n) c = received (read_interface p n.input) n c

unfoldable pub read : Platform → ClientConnection → Result Value × ClientConnection
unfolding read_from
read p c = read_from p c.net_client c

-- `if err := …; err != nil { return err }` in front of the next call
unfoldable pub then_do :
    {A : Type 0}
    → Result (Unit {0}) × ClientConnection
    → (ClientConnection → Result A × ClientConnection)
    → Result A × ClientConnection
then_do (ok tt, c) next = next c
then_do (err e, c) next = (err e, c)
then_do (panic, c) next = (panic, c)

module _ (p : Platform) (net : Network) (cmd : Bytes) (args : List Value) where
  -- ClientConnection.DoAsync
  unfoldable pub do_async : ClientConnection → Result (Unit {0}) × ClientConnection
  unfolding connect then_do send
  do_async c = then_do (connect net c) (send p cmd args)

  -- ClientConnection.Do
  unfoldable pub do' : ClientConnection → Result Value × ClientConnection
  unfolding do_async then_do read
  do' c = then_do (do_async c) (read p)

-- `created` counts the connections that `get` has allocated.
pub record Client : Type 0 where
  pub bprotocol : Bytes
  pub addr : Bytes
  pub max_idle : ℤ
  pub connections : List ClientConnection
  pub created : ℕ

-- NewClient, where `resolve` is the error of net.ResolveTCPAddr.
unfoldable pub new_client : (Bytes → Option Error) → ℤ → Bytes → ℤ → Bytes → Result Client
unfolding format_int
new_client resolve port host max_idle bprotocol =
    let addr = host ++ b':' ∷ format_int port in
    elim (resolve addr) [
      | some e ↦ err e
      | none ↦ ok (record {
        bprotocol = bprotocol;
        addr = addr;
        max_idle = max_idle;
        connections = [];
        created = 0;
      })
    ]

-- Get, by the connections of the pool. The lock lets one call run at a time.
unfoldable pub get_from : List ClientConnection → Client → ClientConnection × Client
get_from [] client = (
  record {
    id = client.created;
    bprotocol = client.bprotocol;
    net_client = none;
    last_active = 0;
    dials = 0;
  },
  record client { created = suc client.created },
)
get_from (c ∷ cs) client = (c, record client { connections = cs })

unfoldable pub get : Client → ClientConnection × Client
unfolding get_from
get client = get_from client.connections client

-- The time comes from time.Now. A connection that is finalized is dropped.
unfoldable pub put : ℕ → ClientConnection → Client → Client
put now c client =
    if leb (pos_part client.max_idle) (length client.connections)
    then client
    else record client { connections = record c { last_active = now } ∷ client.connections }

unfoldable pub close : Client → Client
close client = record client { connections = [] }

-- The end of Do: a connection is put back unless the call panicked.
unfoldable pub put_back :
    {A : Type 0} → ℕ → Result A × ClientConnection → Client → Result A × Client
unfolding put
put_back now (panic, c) client = (panic, client)
put_back now (ok v, c) client = (ok v, put now c client)
put_back now (err e, c) client = (err e, put now c client)

module _ (p : Platform) (net : Network) (cmd : Bytes) (args : List Value) where
  unfoldable pub client_do : ℕ → Client → Result Value × Client
  unfolding get do' put_back
  client_do now client =
      let (c, client') = get client in put_back now (do' p net cmd args c) client'

  -- Client.DoAsync, which does not put the connection back.
  unfoldable pub client_do_async : Client → Result (Unit {0}) × Client
  unfolding get do_async
  client_do_async client = let (c, client') = get client in ((do_async p net cmd args c).0, client')

-- ===== src/Client/Reuse.antt =====
-- What a call leaves behind: whether its connection is there for the next call, and whether it can
-- still be read.
use broadcast.Common.{
  ℕ, ◌+◌, ◌-◌, ◌≤◌, ◌<◌, ◌≡◌, ◌≢◌, refl, ap, List, [], ◌∷◌, none, some, Option, arith, Bytes,
  length, Result, ok, err, panic, Error,
}
use broadcast.Common.Int.{pos_part}
use broadcast.Wire.{Value, Platform}
use broadcast.Wire.Read.{read_interface}
use broadcast.Client.{
  ProtocolClient, ClientConnection, Network, Client, finalize, received, read_from, read, get_from,
  get, put, put_back, do', client_do, client_do_async,
}

received-err :
    (p : Platform) (x : Result (Value × Bytes)) (n : ProtocolClient) (c : ClientConnection)
    (e : Error)
    → (received x n c).0 ≡ err e
    → (read p (received x n c).1).0 ≡ panic
unfolding received finalize read read_from
received-err p (ok (v, rest)) n c e h = cc
received-err p (err f) n c e h = refl
received-err p panic n c e h = cc

read_from-err :
    (p : Platform) (m : Option ProtocolClient) (c : ClientConnection) (e : Error)
    → (read_from p m c).0 ≡ err e
    → (read p (read_from p m c).1).0 ≡ panic
unfolding read_from
read_from-err p none c e h = cc
read_from-err p (some n) c e h = received-err p (read_interface p n.input) n c e h

-- When Read returns an error, a Read of the connection after it panics.
pub read_again :
    (p : Platform) (c : ClientConnection) (e : Error)
    → (read p c).0 ≡ err e
    → (read p (read p c).1).0 ≡ panic
unfolding read
read_again p c e h = read_from-err p c.net_client c e h

get_from-counts :
    (cs : List ClientConnection) (client : Client)
    → client.connections ≡ cs
    → (length (get_from cs client).1.connections ≡ length cs - 1)
      × ((get_from cs client).1.created ≡ client.created + (1 - length cs))
      × ((get_from cs client).1.max_idle ≡ client.max_idle)
unfolding get_from
get_from-counts [] client e = let l = ap length e in (omega arith, omega arith, refl)
get_from-counts (c ∷ cs) client e = (omega arith, omega arith, refl)

-- DoAsync takes a connection out of the pool, or allocates one when there is none, and does not put it
-- back.
pub do_async_drops :
    (p : Platform) (net : Network) (cmd : Bytes) (args : List Value) (client : Client)
    → (length (client_do_async p net cmd args client).1.connections ≡ length client.connections - 1)
      × ((client_do_async p net cmd args client).1.created
          ≡ client.created + (1 - length client.connections))
unfolding client_do_async get
do_async_drops p net cmd args client =
    let (l, c, m) = get_from-counts client.connections client refl in (l, c)

put_back-counts :
    {A : Type 0} (now : ℕ) (x : Result A × ClientConnection) (client : Client)
    → x.0 ≢ panic
    → length client.connections < pos_part client.max_idle
    → (length (put_back now x client).1.connections ≡ length client.connections + 1)
      × ((put_back now x client).1.created ≡ client.created)
unfolding put_back put
put_back-counts now (ok v, c) client h l = (ground arith, ground arith)
put_back-counts now (err e, c) client h l = (ground arith, ground arith)
put_back-counts now (panic, c) client h l = absurd (h refl)

panics :
    {A : Type 0} (now : ℕ) (x : Result A × ClientConnection) (client : Client)
    → x.0 ≡ panic
    → (put_back now x client).0 ≡ panic
unfolding put_back
panics now (ok v, c) client h = cc
panics now (err e, c) client h = cc
panics now (panic, c) client h = refl

-- A Do that does not panic, on a pool that is to hold a connection and holds no more than it is to,
-- leaves a connection there for the next call, and allocates one only when none was there.
pub do_keeps :
    (p : Platform) (net : Network) (cmd : Bytes) (args : List Value) (now : ℕ) (client : Client)
    → (client_do p net cmd args now client).0 ≢ panic
    → 0 < pos_part client.max_idle
    → length client.connections ≤ pos_part client.max_idle
    → (length (client_do p net cmd args now client).1.connections
        ≡ length client.connections - 1 + 1)
      × ((client_do p net cmd args now client).1.created
          ≡ client.created + (1 - length client.connections))
unfolding client_do get put_back
do_keeps p net cmd args now client h some_idle bounded =
    let (l, c, m) = get_from-counts client.connections client refl in
    let (l', c') =
      put_back-counts now (do' p net cmd args (get client).0) (get client).1
        (λ e. h (panics now (do' p net cmd args (get client).0) (get client).1 e))
        (rw m (omega arith)) in
    (omega arith, omega arith)

-- ===== src/Client/Pool.antt =====
-- Connections of the pool have one owner, for users that put each connection back at most once.
pub mod Steps
use broadcast.Common.{
  ℕ, suc, ◌+◌, ◌≤◌, ◌≡◌, refl, ap, ◌∙◌, Bool, true, false, ltb, leb, ◌==◌, Option, none, some, List,
  [], ◌∷◌, ◌++◌, Option-cases, inl, inr, Bool-cases, arith, Bytes, length, if◌then◌else◌, Result,
  ok, err, panic, Error,
}
use broadcast.Common.Int.{pos_part}
use broadcast.Wire.{Value, Platform}
use broadcast.Wire.Write.{Writer, status}
use broadcast.Wire.Read.{read_interface}
use broadcast.Client.{
  ProtocolClient, ClientConnection, Network, Client, write_kind, finalize, connect, connect_if,
  dialled, flushed, send, send_to, received, read, read_from, then_do, do_async, do', get, get_from,
  put, close, put_back, client_do, client_do_async,
}

flushed-id :
    (x : Writer × Option Error) (n : ProtocolClient) (c : ClientConnection)
    → (flushed x n c).1.id ≡ c.id
unfolding flushed finalize
flushed-id (w, some e) n c = refl
flushed-id (w, none) n c = elim (Bool-cases w.failed) [ inl f ↦ rw f refl | inr f ↦ rw f refl ]

send_to-id :
    (p : Platform) (cmd : Bytes) (args : List Value) (m : Option ProtocolClient)
    (c : ClientConnection)
    → (send_to p cmd args m c).1.id ≡ c.id
unfolding send_to
send_to-id p cmd args none c = refl
send_to-id p cmd args (some n) c = flushed-id (write_kind p n.kind cmd args n.writer) n c

dialled-id : (x : Option (Writer × Bytes)) (c : ClientConnection) → (dialled x c).1.id ≡ c.id
unfolding dialled
dialled-id none c = refl
dialled-id (some (w, input)) c = refl

connect_if-id :
    (net : Network) (m : Option ProtocolClient) (c : ClientConnection)
    → (connect_if net m c).1.id ≡ c.id
unfolding connect_if
connect_if-id net none c = dialled-id (net c.id c.dials) c
connect_if-id net (some n) c = refl

received-id :
    (x : Result (Value × Bytes)) (n : ProtocolClient) (c : ClientConnection)
    → (received x n c).1.id ≡ c.id
unfolding received finalize
received-id (ok (v, rest)) n c = refl
received-id (err e) n c = refl
received-id panic n c = refl

pub read_from-id :
    (p : Platform) (m : Option ProtocolClient) (c : ClientConnection)
    → (read_from p m c).1.id ≡ c.id
unfolding read_from
read_from-id p none c = refl
read_from-id p (some n) c = received-id (read_interface p n.input) n c

pub then_do-id :
    {A : Type 0} (i : ℕ) (x : Result (Unit {0}) × ClientConnection)
    (next : ClientConnection → Result A × ClientConnection)
    → x.1.id ≡ i
    → ((c : ClientConnection) → (next c).1.id ≡ c.id)
    → (then_do x next).1.id ≡ i
unfolding then_do
then_do-id i (ok tt, c) next h n = n c ∙ h
then_do-id i (err e, c) next h n = h
then_do-id i (panic, c) next h n = h

module _ (p : Platform) (net : Network) (cmd : Bytes) (args : List Value) where
  pub do_async-id : (c : ClientConnection) → (do_async p net cmd args c).1.id ≡ c.id
  unfolding do_async connect send
  do_async-id c =
      then_do-id c.id (connect net c) (send p cmd args) (connect_if-id net c.net_client c)
        λ x. send_to-id p cmd args x.net_client x

  pub do'-id : (c : ClientConnection) → (do' p net cmd args c).1.id ≡ c.id
  unfolding do' read
  do'-id c =
      then_do-id c.id (do_async p net cmd args c) (read p) (do_async-id c)
        λ x. read_from-id p x.net_client x

-- How often a connection stands in a list.
abbrev pub count : ℕ → List ClientConnection → ℕ
count i [] = 0
count i (c ∷ cs) = (if c.id == i then 1 else 0) + count i cs

pub count-append :
    (i : ℕ) (xs ys : List ClientConnection) → count i (xs ++ ys) ≡ count i xs + count i ys
count-append i [] ys = omega arith
count-append i (x ∷ xs) ys = omega (arith, count-append i xs ys)

-- The pool, and the connections that Get has handed out and that are not put back.
pub record Usage : Type 0 where
  pub client : Client
  pub held : List ClientConnection

-- Connections are owned once, and only those that `get` has allocated; no more are idle than the pool
-- is to hold.
pub record IsOwned (u : Usage) : Type 0 where
  pub once :
      (i : ℕ)
      → count i u.client.connections + count i u.held ≤ (if ltb i u.client.created then 1 else 0)
  pub bounded : length u.client.connections ≤ pos_part u.client.max_idle

-- How often a connection is owned.
abbrev owned : ℕ → Client → List ClientConnection → ℕ
owned i client held = count i client.connections + count i held

get_from-once :
    (cs : List ClientConnection) (client : Client) (held : List ClientConnection) (i : ℕ)
    → client.connections ≡ cs
    → owned i client held ≤ (if ltb i client.created then 1 else 0)
    → owned i (get_from cs client).1 ((get_from cs client).0 ∷ held)
      ≤ (if ltb i (get_from cs client).1.created then 1 else 0)
unfolding get_from
get_from-once [] client held i e h = ground arith
get_from-once (c ∷ cs) client held i e h = let k = ap (count i) e in ground arith

get_from-bounded :
    (cs : List ClientConnection) (client : Client)
    → client.connections ≡ cs
    → length client.connections ≤ pos_part client.max_idle
    → length (get_from cs client).1.connections ≤ pos_part (get_from cs client).1.max_idle
unfolding get_from
get_from-bounded [] client e h = h
get_from-bounded (c ∷ cs) client e h = let k = ap length e in omega arith

pub get-IsOwned :
    (client : Client) (held : List ClientConnection)
    → IsOwned (record { client = client; held = held })
    → IsOwned (record { client = (get client).1; held = (get client).0 ∷ held })
unfolding get
get-IsOwned client held h = record {
  once = λ i. get_from-once client.connections client held i refl (h.once i);
  bounded = get_from-bounded client.connections client refl h.bounded;
}

pub put-IsOwned :
    (now : ℕ) (c : ClientConnection) (client : Client) (held : List ClientConnection)
    → IsOwned (record { client = client; held = c ∷ held })
    → IsOwned (record { client = put now c client; held = held })
unfolding put
put-IsOwned now c client held h = record {
  once = λ i. let k = h.once i in ground arith;
  bounded = let k = h.bounded in ground arith;
}

-- The order of the held connections is of no account, nor what happens to them.
pub shuffle-IsOwned :
    (client : Client) (xs ys : List ClientConnection)
    → ((i : ℕ) → count i ys ≤ count i xs)
    → IsOwned (record { client = client; held = xs })
    → IsOwned (record { client = client; held = ys })
shuffle-IsOwned client xs ys e h = record {
  once = λ i. let k = h.once i in let l = e i in omega arith;
  bounded = h.bounded;
}

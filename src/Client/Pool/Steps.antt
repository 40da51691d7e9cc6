-- ===== src/Client/Pool/Steps.antt =====
-- Users of the pool: calls of the client, and of the connections that Get has handed out.
use broadcast.Common.{ℕ, ◌≡◌, refl, ap, List, [], ◌∷◌, ◌++◌, arith, Bytes, Result, ok, err, panic}
use broadcast.Common.Int.{ℤ}
use broadcast.Wire.{Value, Platform}
use broadcast.Client.{
  ClientConnection, Network, Client, read, do_async, do', get, put, close, put_back, client_do,
  client_do_async,
}
use broadcast.Client.Pool.{
  Usage, IsOwned, count, count-append, do_async-id, do'-id, read_from-id, get-IsOwned, put-IsOwned,
  shuffle-IsOwned,
}

module _ (p : Platform) (net : Network) where
  -- A method of a connection that is called.
  pub data Use (c : ClientConnection) : ClientConnection → Type 0 where
    using_do : (cmd : Bytes) (args : List Value) → Use c (do' p net cmd args c).1
    using_do_async : (cmd : Bytes) (args : List Value) → Use c (do_async p net cmd args c).1
    using_read : Use c (read p c).1

  -- A call of Get, CloseConnection, Do, DoAsync or Close of the client, or of a method of a connection
  -- that is held. CloseConnection gives up the connection.
  pub data Step (u : Usage) : Usage → Type 0 where
    getting : Step u (record { client = (get u.client).1; held = (get u.client).0 ∷ u.held })
    putting :
        (now : ℕ) (xs ys : List ClientConnection) (c : ClientConnection)
        → u.held ≡ xs ++ c ∷ ys
        → Step u (record { client = put now c u.client; held = xs ++ ys })
    using :
        (xs ys : List ClientConnection) {c c' : ClientConnection}
        → u.held ≡ xs ++ c ∷ ys
        → Use c c'
        → Step u (record u { held = xs ++ c' ∷ ys })
    doing :
        (now : ℕ) (cmd : Bytes) (args : List Value)
        → Step u (record u { client = (client_do p net cmd args now u.client).1 })
    doing_async :
        (cmd : Bytes) (args : List Value)
        → Step u (record u { client = (client_do_async p net cmd args u.client).1 })
    closing : Step u (record u { client = close u.client })

  pub data Reachable (bprotocol addr : Bytes) (max_idle : ℤ) : Usage → Type 0 where
    started : Reachable bprotocol addr max_idle (record {
      client = record {
        bprotocol = bprotocol;
        addr = addr;
        max_idle = max_idle;
        connections = [];
        created = 0;
      };
      held = [];
    })
    then_step :
        {u u' : Usage}
        → Reachable bprotocol addr max_idle u
        → Step u u'
        → Reachable bprotocol addr max_idle u'

  Use-id : {c c' : ClientConnection} → Use c c' → c'.id ≡ c.id
  unfolding read
  Use-id {c} (using_do cmd args) = do'-id p net cmd args c
  Use-id {c} (using_do_async cmd args) = do_async-id p net cmd args c
  Use-id {c} using_read = read_from-id p c.net_client c

  -- A connection in the middle counts as one in front.
  count-middle :
      (i : ℕ) (xs ys : List ClientConnection) (c : ClientConnection)
      → count i (xs ++ c ∷ ys) ≡ count i (c ∷ xs ++ ys)
  count-middle i xs ys c = omega (arith, count-append i xs (c ∷ ys), count-append i xs ys)

  put_back-IsOwned :
      (now : ℕ) (x : Result Value × ClientConnection) (client : Client)
      (held : List ClientConnection)
      → IsOwned (record { client = client; held = x.1 ∷ held })
      → IsOwned (record { client = (put_back now x client).1; held = held })
  unfolding put_back
  put_back-IsOwned now (ok v, c) client held h = put-IsOwned now c client held h
  put_back-IsOwned now (err e, c) client held h = put-IsOwned now c client held h
  put_back-IsOwned now (panic, c) client held h =
      shuffle-IsOwned client (c ∷ held) held (λ i. omega arith) h

  Step-IsOwned : {u u' : Usage} → Step u u' → IsOwned u → IsOwned u'
  unfolding client_do client_do_async close
  Step-IsOwned {u} getting h = get-IsOwned u.client u.held h
  Step-IsOwned {u} (putting now xs ys c e) h = put-IsOwned now c u.client (xs ++ ys) (
      shuffle-IsOwned u.client u.held (c ∷ xs ++ ys)
        (λ i. let k = ap (count i) e in omega (arith, count-middle i xs ys c)) h)
  Step-IsOwned {u} (using xs ys {c} {c'} e o) h =
      shuffle-IsOwned u.client u.held (xs ++ c' ∷ ys)
        (λ i.
          let k = ap (count i) e in
          let l : count i (c' ∷ []) ≡ count i (c ∷ []) = rw (Use-id o) refl in
          omega (arith, count-middle i xs ys c, count-middle i xs ys c'))
        h
  Step-IsOwned {u} (doing now cmd args) h =
      let c = (get u.client).0 in
      put_back-IsOwned now (do' p net cmd args c) (get u.client).1 u.held (
        shuffle-IsOwned (get u.client).1 (c ∷ u.held) ((do' p net cmd args c).1 ∷ u.held)
          (λ i. rw (do'-id p net cmd args c) (omega arith)) (get-IsOwned u.client u.held h))
  Step-IsOwned {u} (doing_async cmd args) h =
      shuffle-IsOwned (get u.client).1 ((get u.client).0 ∷ u.held) u.held (λ i. omega arith)
        (get-IsOwned u.client u.held h)
  Step-IsOwned {u} closing h = record {
    once = λ i. let k = h.once i in omega arith;
    bounded = omega arith;
  }

  -- As long as each connection is put back at most once, every connection is idle or held at most once
  -- and by one user, no more of them are idle than the pool is to hold, and only those that were
  -- allocated are around.
  pub Reachable-IsOwned :
      {bprotocol addr : Bytes} {max_idle : ℤ} {u : Usage}
      → Reachable bprotocol addr max_idle u
      → IsOwned u
  Reachable-IsOwned started = record { once = λ i. ground arith; bounded = omega arith }
  Reachable-IsOwned (then_step r s) = Step-IsOwned s (Reachable-IsOwned r)

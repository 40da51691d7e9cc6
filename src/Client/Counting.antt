-- ===== src/Client/Counting.antt =====
-- The numbers of the memory backend, as a client of the library sees them over the wire.
use broadcast.Common.{
  ℕ, ◌≤◌, ◌≡◌, refl, ap, false, some, List, [], ◌∷◌, append-nil, map, arith, Bytes, codes, length,
  length-append, same, ok,
}
use broadcast.Common.Int.{ℤ, pos, IsInt64, add64, add64-IsInt64}
use broadcast.Decimal.{format_int}
use broadcast.Decimal.RoundTrip.{parse_int-format_int, length-format_int}
use broadcast.Dict.{lookup}
use broadcast.Wire.{Value, Platform, int, str, delims}
use broadcast.Wire.Frame.{frame, bulk_frame}
use broadcast.Wire.Bulk.{IsRequest}
use broadcast.Stats.Memory.{MemoryBackend}
use broadcast.Stats.Memory.Values.{storing, value_or_zero, lookup-insert_self}
use broadcast.Stats.Metrics.{memory}
use broadcast.Stats.Session.{Session, bulk}
use broadcast.Stats.Commands.{Command, run_command}
use broadcast.Stats.Commands.Values.{replying, set_then_get, get_stored, incr_replies}
use broadcast.Protocol.{Conn, serving, success}
use broadcast.Protocol.Request.{Commands, handle_bulk}
use broadcast.Protocol.Client.{request}
use broadcast.Protocol.Perform.{Texts}
use broadcast.Client.{ClientConnection, Network, do'}
use broadcast.Client.Sends.{over}
use broadcast.Client.Exchange.{redis_client, sent, answer, served, do_replies}

-- The server's end of a new connection, for the state of the metrics.
abbrev pub conn_at : MemoryBackend → Conn MemoryBackend
conn_at mem = record { session = record { state = mem; calls = [] }; events = []; status = serving }

-- What fmt.Fprint makes of a string and of an int64.
pub record Prints (p : Platform) : Type 0 where
  pub text : (b : Bytes) → p.print (str b) ≡ b
  pub number : (z : ℤ) → p.print (int z) ≡ format_int z

module _ (p : Platform) (t : Texts) (per_second : ℤ → ℕ → ℕ → ℕ)
    (commands : Commands MemoryBackend) where
  -- The command is registered, and strings.ToUpper keeps its name, which is in capitals.
  pub record Offers (name : Bytes) (c : Command) : Type 0 where
    pub upper : p.upper name ≡ name
    pub no_quit : same name (codes "QUIT") ≡ false
    pub registered : lookup name commands ≡ some (run_command (memory per_second) c)

  Offers-handles :
      (name : Bytes) (c : Command) (d : List Bytes) (s s' : Session MemoryBackend)
      → Offers name c
      → run_command (memory per_second) c (bulk d) s ≡ (ok tt, s')
      → handle_bulk p commands (p.upper name ∷ d) s ≡ (success, s')
  unfolding handle_bulk
  Offers-handles name c d s s' o h = rw (o.upper, o.upper, o.no_quit, o.registered, h) refl

  -- A command whose handler replies with a number.
  number_over_wire :
      (net : Network) (name : Bytes) (cmd : Command) (args : List Value) (mem mem' : MemoryBackend)
      (z : ℤ) (c : ClientConnection) (room room' : ℕ)
      → Offers name cmd
      → run_command (memory per_second) cmd (bulk (map p.print args)) (conn_at mem).session
        ≡ (ok tt, replying (conn_at mem).session z mem')
      → IsInt64 z
      → IsRequest (request p name args)
      → length (bulk_frame (request p name args)) ≤ room
      → 24 ≤ room'
      → let wire = sent p name args room in
        ((do' p net name args
            (over c (redis_client room (answer p t commands wire (conn_at mem) room')))).0
          ≡ ok (int z))
        × ((served p commands wire (conn_at mem)).session.state ≡ mem')
  number_over_wire net name cmd args mem mem' z c room room' o h b fits k k' =
      let (reply, left) =
        do_replies p t commands net name args (int z) (conn_at mem)
          (replying (conn_at mem).session z mem') c room room'
          (Offers-handles name cmd (map p.print args) _ _ o h) (append-nil (frame p (int z))) b fits
          k (omega (arith, length-append (format_int z) delims, length-format_int z)) in
      (reply, ap (λ s. s.state) left)

  module _ (prints : Prints p) (net : Network) (c : ClientConnection) (room room' : ℕ)
      (large : 24 ≤ room') where
    -- Over a connection with room for the command and for 24 bytes of reply, Do("INCR", key, z) of a
    -- client of a redis server returns the sum of z and of the stored number, 0 where there is none, modulo
    -- 2^64, and the server has stored it.
    incr_over_wire :
        (key : Bytes) (z : ℤ) (mem : MemoryBackend)
        → Offers (codes "INCR") Command.incr
        → IsInt64 z
        → let args = str key ∷ int z ∷ [] in
          IsRequest (request p (codes "INCR") args)
          → length (bulk_frame (request p (codes "INCR") args)) ≤ room
          → let wire = sent p (codes "INCR") args room in
            let sum = add64 (value_or_zero (lookup key mem.values)) z in
            ((do' p net
                (codes "INCR")
                args
                (over c (redis_client room (answer p t commands wire (conn_at mem) room')))).0
              ≡ ok (int sum))
            × ((served p commands wire (conn_at mem)).session.state ≡ storing key sum mem)
    incr_over_wire key z mem o b fits k =
        let old = value_or_zero (lookup key mem.values) in
        let ran =
          incr_replies per_second key (format_int z) [] z (conn_at mem).session
            (parse_int-format_int z b) b in
        number_over_wire net (codes "INCR") Command.incr (str key ∷ int z ∷ []) mem
          (storing key (add64 old z) mem) (add64 old z) c room room' o
          (rw (prints.text key, prints.number z) ran) (add64-IsInt64 old z) fits k large

    -- Do("SET", key, z) of a client of a redis server returns 1, and a Do("GET", key) of any client on the
    -- state that it leaves returns z, over connections with room for the commands and for 24 bytes of
    -- reply.
    pub set_get_over_wire :
        (key : Bytes) (z : ℤ) (mem : MemoryBackend)
        → Offers (codes "SET") Command.set
        → Offers (codes "GET") Command.get
        → IsInt64 z
        → let args = str key ∷ int z ∷ [] in
          IsRequest (request p (codes "SET") args)
          → length (bulk_frame (request p (codes "SET") args)) ≤ room
          → IsRequest (request p (codes "GET") (str key ∷ []))
          → length (bulk_frame (request p (codes "GET") (str key ∷ []))) ≤ room
          → let wire = sent p (codes "SET") args room in
            let wire' = sent p (codes "GET") (str key ∷ []) room in
            let conn = conn_at (served p commands wire (conn_at mem)).session.state in
            ((do' p net
                (codes "SET")
                args
                (over c (redis_client room (answer p t commands wire (conn_at mem) room')))).0
              ≡ ok (int (pos 1)))
            × ((do' p net
                  (codes "GET")
                  (str key ∷ [])
                  (over c (redis_client room (answer p t commands wire' conn room')))).0
                ≡ ok (int z))
    set_get_over_wire key z mem o o' b fits k fits' k' =
        let ran =
          (set_then_get per_second key (format_int z) z (conn_at mem).session
            (parse_int-format_int z b)).0 in
        let there : lookup key (storing key z mem).values ≡ some z =
          lookup-insert_self key z mem.values in
        let (stored, left) =
          number_over_wire net (codes "SET") Command.set (str key ∷ int z ∷ []) mem
            (storing key z mem) (pos 1) c room room' o (rw (prints.text key, prints.number z) ran)
            (omega arith, omega arith) fits k large in
        let got =
          number_over_wire net (codes "GET") Command.get (str key ∷ []) (storing key z mem)
            (storing key z mem) z c room room' o'
            (rw (prints.text key)
              (get_stored per_second key [] z (conn_at (storing key z mem)).session there))
            b fits' k' large in
        (stored, rw left got.0)

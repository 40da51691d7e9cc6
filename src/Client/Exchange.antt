-- ===== src/Client/Exchange.antt =====
-- The client library against the server: a command over a redis connection, from WriteCommand of the
-- client through RunClient and the handler on the server back to ReadInterface of the client.
use broadcast.Common.{
  ℕ, ◌≤◌, ◌≡◌, refl, sym, ◌∙◌, ap, false, List, [], ◌∷◌, ◌++◌, append-nil, arith, Bytes, length, ok,
}
use broadcast.Wire.{Value, Platform}
use broadcast.Wire.Write.{Writer, put}
use broadcast.Wire.Bulk.{IsRequest}
use broadcast.Wire.RoundTrip.{IsReadable, reply}
use broadcast.Wire.Frame.{frame, bulk_frame}
use broadcast.Stats.Session.{Session}
use broadcast.Protocol.{Conn, success, run_client, after_data, handled}
use broadcast.Protocol.Request.{Commands, redis, handle_bulk}
use broadcast.Protocol.Client.{request, write_redis_command, write_redis_command-bulk_frame}
use broadcast.Protocol.Pipeline.{run_client-requests}
use broadcast.Protocol.Perform.{Texts, perform_all, call_frames, perform_all-frames}
use broadcast.Client.{Kind, ProtocolClient, ClientConnection, Network, do'}
use broadcast.Client.Sends.{over, do'-frame}

-- A writer over a connection that takes so many bytes.
abbrev pub writer : ℕ → Writer
writer budget = record { out = []; budget = budget; failed = false }

writer-takes :
    (budget : ℕ) (b : Bytes)
    → length b ≤ budget
    → ((put b (writer budget)).out ≡ b) × ((put b (writer budget)).failed ≡ false)
unfolding put
writer-takes budget b h = (ground arith, ground arith)

-- The client of the connection, with what the network will yield to it.
abbrev pub redis_client : ℕ → Bytes → ProtocolClient
redis_client budget input = record { kind = Kind.redis; writer = writer budget; input = input }

-- The bytes that the client sends for a command.
abbrev pub sent : Platform → Bytes → List Value → ℕ → Bytes
sent p cmd args room = (write_redis_command p cmd args (writer room)).0.out

-- The server's end of the connection when it has served these bytes.
abbrev pub served : {S : Type 0} → Platform → Commands S → Bytes → Conn S → Conn S
served p commands input conn = run_client (redis p commands) input conn

module _ {S : Type 0} (p : Platform) (t : Texts) (commands : Commands S) where
  -- What the server writes.
  abbrev pub answer : Bytes → Conn S → ℕ → Bytes
  answer input conn room =
      (perform_all p t (served p commands input conn).session.calls (writer room)).out

  served-request :
      (req : List Bytes) (conn : Conn S) (s : Session S)
      → IsRequest req
      → handle_bulk p commands req conn.session ≡ (success, s)
      → (served p commands (bulk_frame req) conn).session ≡ s
  unfolding handled after_data
  served-request req conn s fits h =
      ap (λ b. (served p commands b conn).session) (sym (append-nil (bulk_frame req)))
      ∙ ap (λ c. c.session) (run_client-requests p commands (req ∷ []) conn (fits, tt))
      ∙ rw h refl

  -- When the server has a handler for the command that does not fail and whose calls put one readable
  -- value on the wire, and both directions of the connection take what is sent, then Do of a client
  -- whose redis connection yields what the server writes returns that value, and the server is left in
  -- the state of the handler.
  pub do_replies :
      (net : Network) (cmd : Bytes) (args : List Value) (v : Value) (conn : Conn S) (s : Session S)
      (c : ClientConnection) (room room' : ℕ)
      → handle_bulk p commands (request p cmd args) conn.session ≡ (success, s)
      → call_frames p t s.calls ≡ frame p v
      → IsReadable p v
      → IsRequest (request p cmd args)
      → length (bulk_frame (request p cmd args)) ≤ room
      → length (frame p v) ≤ room'
      → let wire = sent p cmd args room in
        ((do' p net cmd args (over c (redis_client room (answer wire conn room')))).0
          ≡ ok (reply p v))
        × ((served p commands wire conn).session ≡ s)
  do_replies net cmd args v conn s c room room' h one r fits k k' =
      let req = request p cmd args in
      let out : sent p cmd args room ≡ bulk_frame req =
        ap (λ x. x.0.out) (write_redis_command-bulk_frame p cmd args (writer room))
        ∙ (writer-takes room (bulk_frame req) k).0 in
      let left =
        ap (λ b. (served p commands b conn).session) out ∙ served-request req conn s fits h in
      let input : answer (sent p cmd args room) conn room' ≡ frame p v ++ [] =
        ap (λ x. (perform_all p t x.calls (writer room')).out) left
        ∙ ap (λ w. w.out) (perform_all-frames p t s.calls (writer room'))
        ∙ ap (λ b. (put b (writer room')).out) one
        ∙ (writer-takes room' (frame p v) k').0
        ∙ sym (append-nil (frame p v)) in
      (
        ap (λ x. x.0)
            (do'-frame p net cmd args c
              (redis_client room (answer (sent p cmd args room) conn room')) v []
              (writer-takes room (bulk_frame req) k).1 r input),
        left,
      )

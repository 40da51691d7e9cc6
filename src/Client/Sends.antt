-- ===== src/Client/Sends.antt =====
-- What DoAsync sends over a connection, by the type of its client, and what Do answers.
use broadcast.Common.{
  ◌+◌, ◌≡◌, refl, ◌∙◌, ap, Bool-cases, inl, inr, true, false, none, some, List, ◌∷◌, ◌++◌, arith,
  Bytes, length, length-map, Result, ok, err, write_failed, if◌then◌else◌,
}
use broadcast.Wire.{Value, Platform, bytes, delims}
use broadcast.Wire.Write.{Writer, put}
use broadcast.Wire.Read.{read_interface}
use broadcast.Wire.RoundTrip.{IsReadable, reply, read_interface-frame}
use broadcast.Wire.Frame.{
  frame, array_frame, bulk_frame, len_frame, all_bytes, put-append, put-failed, write_command-frame,
}
use broadcast.Protocol.Client.{request, write_redis_command-bulk_frame}
use broadcast.Protocol.LineClient.{spaced, write_line_command}
use broadcast.Client.{
  Kind, redis, line, network, ProtocolClient, ClientConnection, Network, write_kind, finalize,
  flushed, connect, connect_if, send_to, read_from, send, read, received, then_do, do_async, do',
}

-- The bytes of a command.
abbrev pub command_frame : Platform → Kind → Bytes → List Value → Bytes
command_frame p redis cmd args = bulk_frame (request p cmd args)
command_frame p line cmd args = (p.upper cmd ++ spaced p args) ++ delims
command_frame p network cmd args = array_frame p (bytes (p.upper cmd) ∷ args)

failed-append :
    (a b : Bytes) (w : Writer) → (put a w).failed ≡ true → (put (a ++ b) w).failed ≡ true
failed-append a b w h = rw (put-append a b w, put-failed b (put a w) h) h

-- How DoAsync leaves a connection: it drops the client when the writer has failed.
abbrev pub sent_over :
    Bytes → ProtocolClient → ClientConnection → Result (Unit {0}) × ClientConnection
sent_over b n c =
    if (put b n.writer).failed
    then (err write_failed, record c { net_client = none })
    else (ok tt, record c { net_client = some (record n { writer = put b n.writer }) })

write_kind-flushed :
    (p : Platform) (k : Kind) (cmd : Bytes) (args : List Value) (n : ProtocolClient)
    (c : ClientConnection)
    → flushed (write_kind p k cmd args n.writer) n c ≡ sent_over (command_frame p k cmd args) n c
unfolding write_kind write_line_command flushed finalize
write_kind-flushed p redis cmd args n c =
    let head = len_frame b'*' (length args + 1) in
    let one : length args + 1 ≡ length (request p cmd args) =
      omega (arith, length-map args p.print) in
    ap (λ x. flushed x n c) (write_redis_command-bulk_frame p cmd args n.writer)
    ∙ elim (Bool-cases (put head n.writer).failed) [
      | inl f ↦
          let f' = failed-append head (all_bytes (request p cmd args)) n.writer f in
          ground (arith, one)
      | inr f ↦ ground (arith, one)
    ]
write_kind-flushed p line cmd args n c =
    ground (arith, put-append (p.upper cmd ++ spaced p args) delims n.writer)
write_kind-flushed p network cmd args n c =
    ap (λ x. flushed x n c) (write_command-frame p cmd args n.writer)
    ∙ elim (Bool-cases (put (command_frame p network cmd args) n.writer).failed) [
      | inl f ↦ rw f refl
      | inr f ↦ rw f refl
    ]

-- With a client of any type DoAsync sends the frame of the command, and its error is nil exactly when
-- the connection has taken the whole of it; otherwise it drops the client.
pub send-frame :
    (p : Platform) (cmd : Bytes) (args : List Value) (n : ProtocolClient) (c : ClientConnection)
    → c.net_client ≡ some n
    → send p cmd args c ≡ sent_over (command_frame p n.kind cmd args) n c
unfolding send send_to
send-frame p cmd args n c h =
    ap (λ m. send_to p cmd args m c) h ∙ write_kind-flushed p n.kind cmd args n c

-- A connection with a client and this state of it.
abbrev pub over : ClientConnection → ProtocolClient → ClientConnection
over c n = record c { net_client = some n }

module _ (p : Platform) (net : Network) (cmd : Bytes) (args : List Value) where
  pub do_async-taken :
      (c : ClientConnection) (n : ProtocolClient)
      → (put (command_frame p n.kind cmd args) n.writer).failed ≡ false
      → do_async p net cmd args (over c n)
        ≡ (ok tt, over c (record n { writer = put (command_frame p n.kind cmd args) n.writer }))
  unfolding do_async connect connect_if then_do
  do_async-taken c n h = send-frame p cmd args n (over c n) refl ∙ rw h refl

  pub read-frame :
      (c : ClientConnection) (n : ProtocolClient) (v : Value) (rest : Bytes)
      → IsReadable p v
      → n.input ≡ frame p v ++ rest
      → read p (over c n) ≡ (ok (reply p v), over c (record n { input = rest }))
  unfolding read read_from received
  read-frame c n v rest r h =
      ap (λ x. received x n (over c n)) (ap (read_interface p) h ∙ read_interface-frame p v rest r)

  -- Over a connection that takes the whole command, Do answers with the next value that the server has
  -- written, and leaves what is behind it.
  pub do'-frame :
      (c : ClientConnection) (n : ProtocolClient) (v : Value) (rest : Bytes)
      → (put (command_frame p n.kind cmd args) n.writer).failed ≡ false
      → IsReadable p v
      → n.input ≡ frame p v ++ rest
      → do' p net cmd args (over c n) ≡ (
        ok (reply p v),
        over c (record n { writer = put (command_frame p n.kind cmd args) n.writer; input = rest }),
      )
  unfolding do' then_do
  do'-frame c n v rest f r h =
      ap (λ x. then_do x (read p)) (do_async-taken c n f)
      ∙ read-frame c (record n { writer = put (command_frame p n.kind cmd args) n.writer }) v rest r
          h

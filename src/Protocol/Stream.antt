-- ===== src/Protocol/Stream.antt =====
-- Clients that send their requests one behind the other, for any protocol that reads back what they
-- send.
use broadcast.Common.{
  ℕ, zero, suc, ◌+◌, ◌<◌, ◌≤◌, ◌≡◌, refl, List, [], ◌∷◌, ◌++◌, arith, Bytes, All, ok, err, eof,
  length, length-append,
}
use broadcast.Protocol.{
  Protocol, Conn, after_data, after_read, handled, serve_within, run_client, close,
}
use broadcast.Protocol.Serve.{after_data-agree}

-- A request that a client sends is read back, and is not empty on the wire.
pub record ReadsBack {S D : Type 0} (proto : Protocol S D) (sent : D → Bytes) (d : D) : Type 0 where
  pub reads : (rest : Bytes) → proto.read (sent d ++ rest) ≡ ok (d, rest)
  pub some_bytes : 0 < length (sent d)

abbrev pub stream : {D : Type 0} → (D → Bytes) → List D → Bytes
stream sent [] = []
stream sent (d ∷ ds) = sent d ++ stream sent ds

-- One request after the other, each handled in the state that the last one left, until one ends
-- the connection; it is closed when no request is left.
abbrev pub execute_all : {S D : Type 0} → Protocol S D → List D → Conn S → Conn S
execute_all proto [] c = close c
execute_all proto (d ∷ ds) c =
    let (reply, c') = handled proto d c in after_data proto.farewell reply c' (execute_all proto ds)

module _ {S D : Type 0} (proto : Protocol S D) (sent : D → Bytes) where
  serve-execute_all :
      proto.read [] ≡ err eof
      → (fuel : ℕ) (ds : List D) (c : Conn S) → All (ReadsBack proto sent) ds
      → length ds < fuel
      → serve_within proto fuel (stream sent ds) c ≡ execute_all proto ds c
  unfolding serve_within after_read
  serve-execute_all e zero ds c h l = absurd (omega arith)
  serve-execute_all e (suc fuel) [] c h l = rw e refl
  serve-execute_all e (suc fuel) (d ∷ ds) c (h, hs) l = rw (h.reads (stream sent ds)) (
      after_data-agree proto proto.farewell (handled proto d c).0 (handled proto d c).1 _ _
        (λ c'. serve-execute_all e fuel ds c' hs (omega arith)))

  length-stream :
      (ds : List D) → All (ReadsBack proto sent) ds → length ds ≤ length (stream sent ds)
  length-stream [] h = omega arith
  length-stream (d ∷ ds) (h, hs) =
      let k = h.some_bytes in
      omega (arith, length-append (sent d) (stream sent ds), length-stream ds hs)

  -- RunClient handles the requests of a stream, in order, each in the state that the one before left.
  pub run_client-stream :
      proto.read [] ≡ err eof
      → (ds : List D) (c : Conn S) → All (ReadsBack proto sent) ds
      → run_client proto (stream sent ds) c ≡ execute_all proto ds c
  unfolding run_client
  run_client-stream e ds c h =
      serve-execute_all e (length (stream sent ds) + 1) ds c h (omega (arith, length-stream ds h))

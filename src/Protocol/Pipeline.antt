-- ===== src/Protocol/Pipeline.antt =====
-- A redis client that sends its requests one behind the other.
use broadcast.Common.{◌≡◌, List, [], ◌∷◌, arith, Bytes, All}
use broadcast.Wire.{Platform}
use broadcast.Wire.Frame.{bulk_frame}
use broadcast.Wire.Bulk.{IsRequest, read_bulk_payload-bulk_frame}
use broadcast.Wire.Consume.{read_bulk_payload-Consumes}
use broadcast.Protocol.{Conn, run_client}
use broadcast.Protocol.Request.{Commands, redis}
use broadcast.Protocol.Stream.{ReadsBack, stream, execute_all, run_client-stream}

-- The requests as WriteBulk sends them.
abbrev pub requests : List (List Bytes) → Bytes
requests = stream bulk_frame

module _ {S : Type 0} (p : Platform) (commands : Commands S) where
  abbrev pub execute : List (List Bytes) → Conn S → Conn S
  execute = execute_all (redis p commands)

  All-ReadsBack :
      (rs : List (List Bytes)) → All IsRequest rs → All (ReadsBack (redis p commands) bulk_frame) rs
  All-ReadsBack [] h = tt
  All-ReadsBack (r ∷ rs) (h, hs) = (
    record { reads = λ rest. read_bulk_payload-bulk_frame r rest h; some_bytes = omega arith },
    All-ReadsBack rs hs,
  )

  -- On the requests that a client sends with WriteBulk, each of arguments that can be allocated,
  -- RunClient of the redis protocol handles exactly these, in order, each in the state that the one
  -- before left, until one quits or panics, and then closes the connection, unless the program has
  -- crashed.
  pub run_client-requests :
      (rs : List (List Bytes)) (c : Conn S)
      → All IsRequest rs
      → run_client (redis p commands) (requests rs) c ≡ execute rs c
  run_client-requests rs c h =
      run_client-stream (redis p commands) bulk_frame read_bulk_payload-Consumes.ends rs c
        (All-ReadsBack rs h)

-- ===== src/Protocol/Client.antt =====
-- protocols/redis/redisprotocol_client.go: how a redis client sends a command. Flush changes nothing
-- here, since a writer is what the connection takes.
use broadcast.Common.{
  ℕ, ◌+◌, ◌≡◌, refl, sym, ◌∙◌, ap, Option, List, [], ◌∷◌, ◌++◌, arith, Bytes, Error, length,
  length-map, map,
}
use broadcast.Wire.{Value, Platform}
use broadcast.Wire.Write.{Writer, Write, write_len, write_bytes, write_all, put, status}
use broadcast.Wire.Frame.{
  len_frame, all_bytes, bulk_frame, put-append, write_len-frame, write_all-frames,
}

-- The loop over the arguments, which drops the errors.
unfoldable pub write_printed : Platform → List Value → Writer → Writer
unfolding write_bytes
write_printed p [] w = w
write_printed p (v ∷ args) w = write_printed p args (write_bytes (p.print v) w).0

-- RedisProtocolClient.WriteCommand
unfoldable pub write_redis_command : Platform → Bytes → List Value → Write
unfolding write_len write_bytes write_printed
write_redis_command p cmd args w =
    let (w', e) = write_len b'*' (length args + 1) w in
    (write_printed p args (write_bytes (p.upper cmd) w').0, e)

-- The request that a command is.
abbrev pub request : Platform → Bytes → List Value → List Bytes
request p cmd args = p.upper cmd ∷ map p.print args

write_printed-write_all :
    (p : Platform) (args : List Value) (w : Writer)
    → write_printed p args w ≡ write_all (map p.print args) w
unfolding write_printed write_all
write_printed-write_all p [] w = refl
write_printed-write_all p (v ∷ args) w =
    write_printed-write_all p args (write_bytes (p.print v) w).0

-- WriteCommand of the redis client sends the frame that ReadBulkPayload reads as the name in upper
-- case and the prints of the arguments, but its error is that of the first line only.
pub write_redis_command-bulk_frame :
    (p : Platform) (cmd : Bytes) (args : List Value) (w : Writer)
    → write_redis_command p cmd args w
      ≡ (put (bulk_frame (request p cmd args)) w, status (put (len_frame b'*' (length args + 1)) w))
unfolding write_redis_command write_all
write_redis_command-bulk_frame p cmd args w =
    let head = len_frame b'*' (length args + 1) in
    let one : length args + 1 ≡ length (request p cmd args) =
      omega (arith, length-map args p.print) in
    ap
      (λ (x : Writer × Option Error). (write_printed p args (write_bytes (p.upper cmd) x.0).0, x.1))
      (write_len-frame b'*' (length args + 1) w)
    ∙ ap (λ (x : Writer). (x, status (put head w)))
        (write_printed-write_all p args (write_bytes (p.upper cmd) (put head w)).0
          ∙ write_all-frames (request p cmd args) (put head w)
          ∙ sym (put-append head (all_bytes (request p cmd args)) w)
          ∙ ap (λ (n : ℕ). put (len_frame b'*' n ++ all_bytes (request p cmd args)) w) one)

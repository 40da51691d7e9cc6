-- ===== src/Protocol/Perform.antt =====
-- server/client.go: what the calls of a handler on its client put on the wire. Flush changes nothing
-- here, since a writer is what the connection takes.
use broadcast.Common.{
  ◌≡◌, Option, sym, ◌∙◌, ap, none, some, List, [], ◌∷◌, ◌++◌, Bytes, codes, Error, read_request,
  line_format, request_format, bad_bulk_format, cmd_not_found, quit,
}
use broadcast.Dict.{Dict}
use broadcast.Server.{BroadcastServerStatus, CommandInfo}
use broadcast.Stats.Memory.{Counter}
use broadcast.Stats.Session.{ClientCall}
use broadcast.Wire.{Platform, delims, int, null, str}
use broadcast.Wire.Write.{
  Writer, put, write_bytes, write_int64, write_null, write_error, write_string, write_len,
  write_interface, write_array, write_json,
}
use broadcast.Wire.Frame.{
  line, len_frame, frame, array_frame, bytes_frame, put-append, put-nil, put-three, write_len-frame,
  write_interface-frame, write_array-frame, write_bytes-frame,
}

-- What json.Marshal makes of the values that it is called on, and the texts of the errors of Go's
-- library. It refuses counters with a rate that is infinite or not a number, and then its error is in
-- `refused`.
pub record Texts : Type 0 where
  pub counters : Dict Counter → Bytes
  pub refused : Dict Counter → Option Error
  pub status : BroadcastServerStatus → Bytes
  pub help : Dict CommandInfo → Bytes
  pub library : Error → Bytes

-- err.Error()
unfoldable pub message : Texts → Error → Bytes
message t line_format = codes "bad response line format"
message t read_request = codes "invalid request protocol"
message t request_format = codes "invalid request format"
message t bad_bulk_format = codes "bad bulk string format"
message t cmd_not_found = codes "invalid command format"
message t quit = codes "client quit"
message t e = t.library e

module _ (p : Platform) (t : Texts) where
  -- The method of BufferClient that a call runs.
  unfoldable pub perform : ClientCall → Writer → Writer
  unfolding message
  perform (ClientCall.write_int64 n) w = (write_int64 n w).0
  perform ClientCall.write_null w = (write_null w).0
  perform ClientCall.flush w = w
  perform (ClientCall.write_error m) w = (write_error (some m) w).0
  perform (ClientCall.write_string s) w = (write_string s w).0
  perform (ClientCall.write_len prefix n) w = (write_len prefix n w).0
  perform (ClientCall.write_failure e) w = (write_error (some (message t e)) w).0
  perform (ClientCall.write_counters c) w = (write_json (t.counters c) (t.refused c) w).0
  perform (ClientCall.write_status s) w = (write_json (t.status s) none w).0
  perform (ClientCall.write_help h) w = (write_json (t.help h) none w).0
  perform (ClientCall.write_interface v) w = (write_interface p v w).0
  perform (ClientCall.write_array vs) w = (write_array p vs w).0

  unfoldable pub perform_all : List ClientCall → Writer → Writer
  unfolding perform
  perform_all [] w = w
  perform_all (c ∷ cs) w = perform_all cs (perform c w)

  abbrev pub json_frame : Bytes → Bytes
  json_frame b = line b'~' (codes "json") ++ bytes_frame b

  -- The two results of json.Marshal on the wire: nothing is sent of a value that it refuses.
  abbrev pub marshal_frame : Bytes → Option Error → Bytes
  marshal_frame b none = json_frame b
  marshal_frame b (some e) = []

  -- The bytes of a call.
  abbrev pub call_frame : ClientCall → Bytes
  call_frame (ClientCall.write_int64 n) = frame p (int n)
  call_frame ClientCall.write_null = frame p null
  call_frame ClientCall.flush = []
  call_frame (ClientCall.write_error m) = line b'-' (codes "ERR " ++ m)
  call_frame (ClientCall.write_string s) = frame p (str s)
  call_frame (ClientCall.write_len prefix n) = len_frame prefix n
  call_frame (ClientCall.write_failure e) = line b'-' (codes "ERR " ++ message t e)
  call_frame (ClientCall.write_counters c) = marshal_frame (t.counters c) (t.refused c)
  call_frame (ClientCall.write_status s) = json_frame (t.status s)
  call_frame (ClientCall.write_help h) = json_frame (t.help h)
  call_frame (ClientCall.write_interface v) = frame p v
  call_frame (ClientCall.write_array vs) = array_frame p vs

  abbrev pub call_frames : List ClientCall → Bytes
  call_frames [] = []
  call_frames (c ∷ cs) = call_frame c ++ call_frames cs

  write_error-line :
      (m : Bytes) (w : Writer) → (write_error (some m) w).0 ≡ put (line b'-' (codes "ERR " ++ m)) w
  unfolding write_error
  write_error-line m w = put-three (b'-' ∷ []) (codes "ERR " ++ m) delims w

  write_json-frame : (b : Bytes) (w : Writer) → (write_json b none w).0 ≡ put (json_frame b) w
  unfolding write_json
  write_json-frame b w =
      let head = line b'~' (codes "json") in
      ap (λ x. (write_bytes b x).0) (put-three (b'~' ∷ []) (codes "json") delims w)
      ∙ ap (λ x. x.0) (write_bytes-frame b (put head w))
      ∙ sym (put-append head (bytes_frame b) w)

  write_json-marshal :
      (b : Bytes) (e : Option Error) (w : Writer) → (write_json b e w).0 ≡ put (marshal_frame b e) w
  unfolding write_json
  write_json-marshal b none w = write_json-frame b w
  write_json-marshal b (some e) w = sym (put-nil w)

  perform-frame : (c : ClientCall) (w : Writer) → perform c w ≡ put (call_frame c) w
  unfolding perform write_interface
  perform-frame (ClientCall.write_int64 n) w = ap (λ x. x.0) (write_interface-frame p (int n) w)
  perform-frame ClientCall.write_null w = ap (λ x. x.0) (write_interface-frame p null w)
  perform-frame ClientCall.flush w = sym (put-nil w)
  perform-frame (ClientCall.write_error m) w = write_error-line m w
  perform-frame (ClientCall.write_string s) w = ap (λ x. x.0) (write_interface-frame p (str s) w)
  perform-frame (ClientCall.write_len prefix n) w = ap (λ x. x.0) (write_len-frame prefix n w)
  perform-frame (ClientCall.write_failure e) w = write_error-line (message t e) w
  perform-frame (ClientCall.write_counters c) w = write_json-marshal (t.counters c) (t.refused c) w
  perform-frame (ClientCall.write_status s) w = write_json-frame (t.status s) w
  perform-frame (ClientCall.write_help h) w = write_json-frame (t.help h) w
  perform-frame (ClientCall.write_interface v) w = ap (λ x. x.0) (write_interface-frame p v w)
  perform-frame (ClientCall.write_array vs) w = ap (λ x. x.0) (write_array-frame p vs w)

  -- The calls of a handler put their frames on the wire, one after the other.
  pub perform_all-frames :
      (cs : List ClientCall) (w : Writer) → perform_all cs w ≡ put (call_frames cs) w
  unfolding perform_all
  perform_all-frames [] w = sym (put-nil w)
  perform_all-frames (c ∷ cs) w =
      perform_all-frames cs (perform c w)
      ∙ ap (put (call_frames cs)) (perform-frame c w)
      ∙ sym (put-append (call_frame c) (call_frames cs) w)

-- ===== src/Protocol.antt =====
-- What the protocols share: the loop of RunClient in server/protocol.go,
-- protocols/redis/redisprotocol.go and protocols/line/lineprotocol.go, which reads requests off a
-- connection, handles them and answers the errors. A protocol is what they differ in.
pub mod Request
pub mod Serve
pub mod Stream
pub mod Pipeline
pub mod Total
pub mod Usage
pub mod Client
pub mod LineClient
pub mod Perform
pub mod Lines
use broadcast.Common.{
  ℕ, zero, suc, ◌+◌, ◌++◌, Bool, true, false, List, [], ◌∷◌, Bytes, Error, eof, quit, Result, ok,
  err, panic, length, if◌then◌else◌,
}
use broadcast.Wire.Read.{Read}
use broadcast.Stats.Session.{ClientCall, write_failure, flush, Session}

-- The events that the loop sends: `fatal` is a panic that it recovered from.
pub data Event : Type 0 where
  read_error accept_error : Error → Event
  fatal : Event

-- `crashed` is the end of the whole program, by a panic on a goroutine that recovers nothing.
pub data Status : Type 0 where
  serving closed crashed : Status

pub record Conn (S : Type 0) : Type 0 where
  pub session : Session S
  pub events : List Event
  pub status : Status

-- How handleData ends: it returns an error or nil, it panics, or a goroutine that it started does.
pub data Reply : Type 0 where
  success panicked fallen : Reply
  failed : Error → Reply

pub record Protocol (S D : Type 0) : Type 0 where
  pub read : Read D
  pub handle_data : D → Session S → Reply × Session S
  -- the calls on the client when it quits
  pub farewell : List ClientCall

abbrev pub is_eof : Error → Bool
is_eof eof = true
is_eof _ = false

abbrev pub is_quit : Error → Bool
is_quit quit = true
is_quit _ = false

module _ {S : Type 0} where
  abbrev pub say : List ClientCall → Session S → Session S
  say calls s = record s { calls = s.calls ++ calls }

  abbrev pub notify : Event → Conn S → Conn S
  notify e c = record c { events = c.events ++ e ∷ [] }

  abbrev pub close : Conn S → Conn S
  close c = record c { status = closed }

  -- An error of handleData is answered, and the loop goes on.
  abbrev pub complain : Error → Conn S → Conn S
  complain e c =
      notify (accept_error e) (record c { session = say (write_failure e ∷ flush ∷ []) c.session })

  -- The rest of the loop's body after handleData. No handler returns errQuit, which is private to
  -- the package of the protocol.
  unfoldable pub after_data : List ClientCall → Reply → Conn S → (Conn S → Conn S) → Conn S
  after_data farewell success c next = next c
  after_data farewell (failed e) c next =
      if is_quit e
      then close (record c { session = say farewell c.session })
      else next (complain e c)
  after_data farewell panicked c next = close (notify fatal c)
  after_data farewell fallen c next = record c { status = crashed }

module _ {S D : Type 0} (p : Protocol S D) where
  -- handleData on the connection's session.
  unfoldable pub handled : D → Conn S → Reply × Conn S
  handled d c = let (reply, s) = p.handle_data d c.session in (reply, record c { session = s })

  unfoldable pub after_read : Result (D × Bytes) → Conn S → (Bytes → Conn S → Conn S) → Conn S
  unfolding after_data handled
  after_read (err e) c next = close (if is_eof e then c else notify (read_error e) c)
  after_read panic c next = close (notify fatal c)
  after_read (ok (d, rest)) c next =
      let (reply, c') = handled d c in after_data p.farewell reply c' (next rest)

  -- The fuel bounds the number of requests; every request has a byte, so the length of the input
  -- is enough.
  unfoldable pub serve_within : ℕ → Bytes → Conn S → Conn S
  serve_within zero input c = c
  serve_within (suc fuel) input c = after_read (p.read input) c (serve_within fuel)

  -- RunClient on all the bytes that the client sends.
  unfoldable pub run_client : Bytes → Conn S → Conn S
  run_client input c = serve_within (length input + 1) input c

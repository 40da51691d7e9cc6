-- ===== src/Tests/Protocol.antt =====
-- The protocols at concrete inputs.
use broadcast.Common.{
  false, ◌≡◌, ◌≢◌, refl, [], ◌∷◌, ◌++◌, arith, List, Bytes, codes, panic, same, cmd_not_found,
}
use broadcast.Common.Int.{pos}
use broadcast.Dict.{lookup, insert}
use broadcast.Decimal.{parse_int, format_int}
use broadcast.Wire.{bytes, arr, nil, cons, delims}
use broadcast.Wire.Write.{Writer}
use broadcast.Wire.Read.{
  read_slice, at_end, read_line, read_line_invariant, read_full, make_slice, parse_int64,
  read_sized, read_body, read_header, read_payload, read_payloads, read_bulk_payload,
}
use broadcast.Stats.Memory.{MemoryBackend, new_memory_backend, incr}
use broadcast.Stats.Metrics.{memory}
use broadcast.Stats.Session.{ClientCall}
use broadcast.Stats.Handlers
use broadcast.Stats.Commands.{Command, handle, run_command}
use broadcast.Stats.Commands.Arguments.{saying}
use broadcast.Protocol.{
  Conn, serving, success, fatal, run_client, serve_within, after_read, after_data, handled,
}
use broadcast.Protocol.Request.{
  Commands, Handler, register, redis, line, default, handle_bulk, handle_interface, read_bulk_line,
}
use broadcast.Protocol.Pipeline
use broadcast.Protocol.Pipeline.{requests, execute}
use broadcast.Protocol.Stream.{stream, execute_all}
use broadcast.Protocol.Lines
use broadcast.Protocol.Lines.{words_line}
use broadcast.Protocol.Total
use broadcast.Protocol.Usage
use broadcast.Tests.Wire.{platform}
use broadcast.Tests.Handlers.{rate, start}

failing : Handler MemoryBackend
failing d s = (panic, s)

abbrev table : Commands MemoryBackend
table =
    register platform (codes "INCR") (run_command (memory rate) Command.incr)
      (register platform (codes "boom") failing [])

abbrev fresh : Conn MemoryBackend
fresh = record { session = record start { calls = [] }; events = []; status = serving }

-- Opens the loop and its readers for a run.
server : Unit {0}
unfolding read_slice at_end read_line read_line_invariant read_full make_slice parse_int64
    read_sized read_body read_header read_payload read_payloads read_bulk_payload parse_int
    format_int run_client serve_within after_read after_data handled handle_bulk handle_interface
    read_bulk_line register lookup insert same run_command handle Handlers.incr incr
    new_memory_backend
server = tt

abbrev two_requests : List (List Bytes)
two_requests = (codes "incr" ∷ codes "a" ∷ []) ∷ (codes "nope" ∷ []) ∷ []

-- INCR replies with 1, and the unknown command with an error.
two_replies :
    (run_client (redis platform table) (requests two_requests) fresh).session.calls
    ≡ ClientCall.write_int64 (pos 1)
      ∷ ClientCall.flush
      ∷ ClientCall.write_failure cmd_not_found
      ∷ ClientCall.flush
      ∷ []
unfolding server
two_replies = refl

-- The line protocol takes the same command as a line of text, and QUIT sends nothing.
line_session :
    (run_client
      (line platform table)
      (codes "incr a" ++ (delims ++ (codes "quit" ++ delims)))
      fresh).session.calls
    ≡ ClientCall.write_int64 (pos 1) ∷ ClientCall.flush ∷ []
unfolding server
line_session = refl

-- A request of no arguments panics, which closes the connection.
empty_request : (run_client (redis platform table) (codes "*0" ++ delims) fresh).events ≡ fatal ∷ []
unfolding server
empty_request = refl

run_client-requests_example :
    run_client (redis platform table) (requests two_requests) fresh
    ≡ execute platform table two_requests fresh
run_client-requests_example =
    Pipeline.run_client-requests platform table two_requests fresh (omega arith)

protocols_end_example :
    ((run_client (redis platform table) (codes "*1") fresh).status ≢ serving)
    × ((run_client (line platform table) (codes "*1") fresh).status ≢ serving)
    × ((run_client (default platform table) (codes "*1") fresh).status ≢ serving)
protocols_end_example = Total.protocols_end platform table (codes "*1") fresh

default_usage_example :
    (message : Bytes) × (handle_interface platform table
        (arr (cons (bytes (codes "incr")) (cons (bytes (codes "a")) nil)))
        start
      ≡ (success, saying start message))
unfolding register lookup insert same
default_usage_example =
    Usage.default_usage platform table (memory rate) Command.incr (codes "incr")
      (cons (bytes (codes "a")) nil) start refl refl (omega arith)

-- A writer that takes nine bytes.
abbrev narrow : Writer
narrow = record { out = []; budget = 9; failed = false }

abbrev two_lines : List (List Bytes)
two_lines = (codes "incr" ∷ codes "a" ∷ []) ∷ (codes "quit" ∷ []) ∷ []

run_client-lines_example :
    run_client (line platform table) (stream words_line two_lines) fresh
    ≡ execute_all (line platform table) two_lines fresh
run_client-lines_example = Lines.run_client-lines platform table two_lines fresh (omega arith)

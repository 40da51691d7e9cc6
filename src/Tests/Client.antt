-- ===== src/Tests/Client.antt =====
-- The client library, its pool and the benchmark at concrete inputs.
use broadcast.Common.{
  ◌-◌, ◌+◌, ◌≡◌, ◌++◌, refl, true, false, none, List, [], ◌∷◌, arith, Bytes, codes, ok, panic, same,
  length, eof,
}
use broadcast.Common.Int.{pos}
use broadcast.Decimal.{format_int}
use broadcast.Dict.{lookup, insert}
use broadcast.Default.{ping}
use broadcast.Wire.{Value, Platform, str, int}
use broadcast.Wire.Write.{put}
use broadcast.Wire.Read.{read_interface, read_interface_within, read_header, read_line, read_slice}
use broadcast.Wire.Frame.{frames}
use broadcast.Stats.Memory.{MemoryBackend, new_memory_backend}
use broadcast.Stats.Metrics.{memory}
use broadcast.Stats.Session.{ClientCall}
use broadcast.Stats.Commands.{Command, run_command}
use broadcast.Protocol.Request.{Commands, register, handle_bulk}
use broadcast.Protocol.Perform.{Texts}
use broadcast.Client.{
  redis, line, ProtocolClient, ClientConnection, Network, Client, send, read, do', get,
  put as give_back, client_do,
}
use broadcast.Client.Sends
use broadcast.Client.Sends.{command_frame, sent_over, over}
use broadcast.Client.Exchange
use broadcast.Client.Exchange.{writer, redis_client, sent, served, answer}
use broadcast.Client.Counting
use broadcast.Client.Counting.{Offers, Prints, conn_at}
use broadcast.Client.Pool.{IsOwned}
use broadcast.Client.Pool.Steps
use broadcast.Client.Reuse
use broadcast.Client.Bench.{requests}
use broadcast.Client.Bench.Agree
use broadcast.Client.Bench.Agree.{put_times}
use broadcast.Tests.Wire.{platform}
use broadcast.Tests.Handlers.{rate}

-- A platform that prints strings and int64s as fmt.Fprint does.
abbrev pub printing : Platform
printing = record platform { print = printed }
  where
    printed : Value → Bytes
    printed (str b) = b
    printed (int z) = format_int z
    printed v = codes "?"

abbrev pub texts : Texts
texts = record {
  counters = λ c. codes "{}";
  refused = λ c. none;
  status = λ s. codes "{}";
  help = λ h. codes "{}";
  library = λ e. codes "EOF";
}

abbrev metrics_commands : Commands MemoryBackend
metrics_commands = register printing (codes "SET") (run_command (memory rate) Command.set) (
    register printing (codes "GET") (run_command (memory rate) Command.get)
      (register printing (codes "PING") ping []))

abbrev idle : ClientConnection
idle = record { id = 0; bprotocol = codes "redis"; net_client = none; last_active = 0; dials = 0 }

-- A network that answers no call.
abbrev pub down : Network
down i k = none

abbrev set_args : List Value
set_args = str (codes "a") ∷ int (pos 7) ∷ []

do_replies_example :
    ((do' printing down (codes "ping") [] (
        over idle (
          redis_client 100 (
            answer printing texts metrics_commands
              (sent printing (codes "ping") [] 100)
              (conn_at (new_memory_backend 0))
              100)))).0
      ≡ ok (str (codes "PONG")))
    × ((served printing metrics_commands
          (sent printing (codes "ping") [] 100)
          (conn_at (new_memory_backend 0))).session
        ≡ record {
          state = new_memory_backend 0;
          calls = ClientCall.write_string (codes "PONG") ∷ ClientCall.flush ∷ [];
        })
unfolding register lookup insert same handle_bulk ping format_int
do_replies_example =
    Exchange.do_replies printing texts metrics_commands down (codes "ping") [] (str (codes "PONG"))
      (conn_at (new_memory_backend 0))
      (record {
        state = new_memory_backend 0;
        calls = ClientCall.write_string (codes "PONG") ∷ ClientCall.flush ∷ [];
      })
      idle 100 100 refl refl (omega arith, (cc), omega arith) (omega arith) (omega arith)
      (omega arith)

prints : Prints printing
prints = record { text = λ b. refl; number = λ z. refl }

set_get_over_wire_example :
    let wire = sent printing (codes "SET") set_args 100 in
    let wire' = sent printing (codes "GET") (str (codes "a") ∷ []) 100 in
    let conn =
      conn_at
        (served printing metrics_commands wire (conn_at (new_memory_backend 0))).session.state in
    ((do' printing down (codes "SET") set_args (
        over idle (
          redis_client 100
            (answer printing texts metrics_commands wire (conn_at (new_memory_backend 0)) 100)))).0
      ≡ ok (int (pos 1)))
    × ((do' printing down
          (codes "GET")
          (str (codes "a") ∷ [])
          (over idle (redis_client 100 (answer printing texts metrics_commands wire' conn 100)))).0
        ≡ ok (int (pos 7)))
unfolding register lookup insert same format_int
set_get_over_wire_example =
    Counting.set_get_over_wire printing texts rate metrics_commands prints down idle 100 100
      (omega arith) (codes "a") (pos 7) (new_memory_backend 0)
      (record { upper = refl; no_quit = refl; registered = refl })
      (record { upper = refl; no_quit = refl; registered = refl }) (omega arith) (omega arith)
      (omega arith) (omega arith) (omega arith)

-- A line connection with room for 100 bytes.
abbrev line_client : ProtocolClient
line_client = record { kind = line; writer = writer 100; input = codes ":1" ++ (13 ∷ 10 ∷ []) }

send-frame_example :
    send printing (codes "SET") set_args (over idle line_client)
    ≡ sent_over
        (command_frame printing line (codes "SET") set_args)
        line_client
        (over idle line_client)
send-frame_example =
    Sends.send-frame printing (codes "SET") set_args line_client (over idle line_client) refl

-- A connection whose peer has sent nothing and gone.
abbrev ended : ClientConnection
ended = over idle (redis_client 100 [])

read_again_example : (read printing (read printing ended).1).0 ≡ panic
unfolding read read_interface read_interface_within read_header read_line read_slice
read_again_example = Reuse.read_again printing ended eof refl

abbrev pool : Client
pool = record {
  bprotocol = codes "redis";
  addr = codes "127.0.0.1:7331";
  max_idle = pos 1;
  connections = idle ∷ [];
  created = 1;
}

do_keeps_example :
    (length (client_do printing down (codes "PING") [] 5 pool).1.connections
      ≡ length pool.connections - 1 + 1)
    × ((client_do printing down (codes "PING") [] 5 pool).1.created
        ≡ pool.created + (1 - length pool.connections))
unfolding client_do
do_keeps_example =
    Reuse.do_keeps printing down (codes "PING") [] 5 pool (cc) (omega arith) (omega arith)

abbrev empty_pool : Client
empty_pool = record pool { connections = []; created = 0 }

-- A connection is allocated and put back.
Reachable-IsOwned_example :
    IsOwned (record { client = give_back 5 (get empty_pool).0 (get empty_pool).1; held = [] })
Reachable-IsOwned_example = Steps.Reachable-IsOwned printing down (
    Steps.then_step (Steps.then_step Steps.started Steps.getting)
      (Steps.putting 5 [] [] (get empty_pool).0 refl))

-- Two replies of a number.
abbrev two_ones : List Value
two_ones = int (pos 1) ∷ int (pos 1) ∷ []

abbrev answered : ProtocolClient
answered = redis_client 200 (frames printing two_ones)

pipelined_agrees_example :
    let after = over idle (record answered {
      writer = put_times (command_frame printing redis (codes "INCR") set_args) 2 answered.writer;
      input = [];
    }) in
    (requests printing down (codes "INCR") set_args true 2 (over idle answered) ≡ (ok tt, after))
    × (requests printing down (codes "INCR") set_args false 2 (over idle answered) ≡ (ok tt, after))
unfolding put format_int
pipelined_agrees_example =
    Agree.pipelined_agrees printing down (codes "INCR") set_args idle answered two_ones [] refl
      (omega arith) refl

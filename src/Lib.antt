-- ===== src/Lib.antt =====
-- A server that clients talk to over TCP: it reads commands off the wire, hands them to the handlers
-- that its backends registered, and writes the replies back. Beside it stand a client library, a
-- command line client and a benchmark.
--
-- * Wire models server/client.go and server/const.go. Wire.Write has the writing methods of
--   BufferClient, by their names: a bufio.Writer is the bytes that it took, how many more the
--   connection takes, and whether it has failed. Wire.Read has the reading and parsing methods on
--   the list of bytes that the peer sends. Wire.Frame, Outcome, Line, RoundTrip and Fuel have the
--   proofs. What the program uses of strconv on floats, json.Unmarshal, fmt.Fprint and
--   strings.ToUpper is the record Platform, a parameter.
-- * Decimal models strconv.ParseInt and AppendInt in base 10, Dict the maps of Go, and Common has
--   the shared types, lemmas and the int64 arithmetic with its wrap-around.
-- * Stats models backends/stats. Stats.Memory, with Memory.Sets and Memory.Keys, has the methods of
--   MemoryBackend (memorybackend.go) as functions from the state to a result and the next state.
--   Stats.Metrics is the interface that the handlers of metrics.go use, and Stats.Handlers and
--   Stats.SetHandlers are those handlers: a run keeps the state of the metrics and the calls made on
--   the client. Stats.Commands registers and dispatches them.
-- * PubSub models backends/pubsub/pubsub_backend.go: the topics and the three handlers as steps.
--   Default has the handlers of backends/bdefault/backend.go.
-- * Protocol models the loop of RunClient in server/protocol.go, protocols/redis and protocols/line, on
--   a connection that keeps the session of the handlers, the events sent and whether it is closed.
--   Protocol.Request has handleData of each, the reading of a line and the table of commands of
--   server/context.go. A redis or line handler runs on a goroutine of its own and the loop waits for
--   it, so the two are one step. Protocol.Client and Protocol.LineClient have WriteCommand of the two
--   clients, and Protocol.Perform what the calls of a handler put on the wire.
-- * Server models the connected clients of server/server.go with their count, and the closing of a
--   NetworkClient (server/client.go) and of all clients. Server.Life has the life of a server, from
--   ListenProtocol over the loop of AcceptConnections, with its events, to Close, and Load and Unload of
--   the backends; Server.Life.Steps interleaves them with the ends and exits of the clients. A panic ends
--   the program, so no step leads on from it. Server.Context has the tables of server/context.go.
-- * App models the server of cmd/broadcast-server/main.go and, by its context, cmd/broadcast-stats: the
--   state that the backends share and what main registers. App.Invariant has its steps, which are
--   connects, exits, requests and the timer of StatsBackend.Load, in any order. App.Table has which
--   commands it knows, and Stats.Session.Answers, App.Answers and App.Replies the calls that the
--   handlers make, and App.Reads how a client reads what these send.
-- * Program models main of cmd/broadcast-server/main.go and cmd/broadcast-stats/main.go, from the flags to
--   AcceptConnections, and the lines of the log. The operating system, the package net and toml.Decode are
--   parameters. Program.Process has what a signal does and how the process ends.
-- * Client models client/go/broadcast/client.go: a connection with its dials, and the pool. Client.Pool
--   has users of the pool as steps, Client.Exchange and Client.Counting put the library and the
--   server together, and Client.Bench models cmd/broadcast-benchmark/main.go: Client.Bench.Race has the
--   goroutines of a benchmark in any interleaving, and Client.Bench.Main is main.
-- * Cli models cmd/broadcast-cli/main.go: Cli.Tokens splits a line, Cli.Action says what it asks for,
--   Cli.Run does it with the client library, Cli.Session is main with its loop over the lines, and Cli.Print, Cli.Sort and Cli.Help have what is printed.
--   The other modules of Cli have proofs.
-- * Tests runs the definitions on concrete inputs.
--
-- ReadInterface is recursive, so read_interface_within takes fuel for the depth of the nesting; every
-- call reads at least one byte before the next, so more fuel than there are bytes is enough. digits
-- takes fuel 20, the number of digits of 2^64. A buffer for lines holds 128 bytes, as the protocols
-- ask for, and an allocation above 2^48 bytes panics, as the runtime does on 64 bits. An int64
-- wraps around modulo 2^64. A float64 is the number of its bits, and its arithmetic is a parameter.
--
-- A map is iterated in the order of an association list, which stands for the order that Go leaves
-- open: the statements on replies hold for every such order. Methods under a lock are atomic.
-- RunClient takes as much fuel as the input has bytes and one more, since each request has a byte.
-- The tokens of a line take as much fuel as the line has bytes and one more, since each token and
-- each space has a byte. The loop for SUBSCRIBE takes a bound on its rounds.
--
-- What a connection of the client will take and will yield is what net.DialTCP answers, a parameter.
-- What package net answers to the server is an argument of the functions of Server.Life.
-- Not modelled: the options of a socket, the parsing of flags, clocks, and
-- cmd/broadcast-cli/linenoise.go, a copy of another project's bindings to the line editor, which is C
-- code: the lines that it yields are an argument of Cli.Session. The graph backend is not part
-- of the repository.
pub mod Common
pub mod Dict
pub mod Decimal
pub mod Wire
pub mod Stats
pub mod PubSub
pub mod Protocol
pub mod Server
pub mod Default
pub mod App
pub mod Program
pub mod Client
pub mod Cli
mod Tests

-- ===== src/Protocol/Request.antt =====
-- handleData of the three protocols (server/protocol.go, protocols/redis/redisprotocol.go and
-- protocols/line/lineprotocol.go), the reading of a line (lineprotocol_client.go), and the table of
-- commands of server/context.go.
use broadcast.Common.{
  none, some, List, [], ◌∷◌, Bytes, codes, quit, cmd_not_found, request_format, Result, ok, err,
  panic, ◌>>=◌, ◌>>◌, guard, length, leb, same, if◌then◌else◌,
}
use broadcast.Dict.{Dict, lookup, insert}
use broadcast.Wire.{Value, Items, Platform, str, bytes, arr, nil, cons}
use broadcast.Wire.Read.{Read, read_line_invariant, read_bulk_payload, read_interface}
use broadcast.Stats.Memory.Keys.{split}
use broadcast.Stats.Session.{Data, bulk, values, Session, Run, write_string, flush}
use broadcast.Protocol.{Protocol, Reply, success, failed, panicked, fallen}

abbrev pub Handler : Type 0 → Type 0
Handler S = Data → Run S (Unit {0})

abbrev pub Commands : Type 0 → Type 0
Commands S = Dict (Handler S)

-- A handler that runs on the goroutine of RunClient, which recovers from its panic.
abbrev pub here : Result (Unit {0}) → Reply
here (ok u) = success
here (err e) = failed e
here panic = panicked

-- A handler that runs on a goroutine of its own, which does not.
abbrev pub apart : Result (Unit {0}) → Reply
apart (ok u) = success
apart (err e) = failed e
apart panic = fallen

abbrev pub elements : Items → List Value
elements nil = []
elements (cons v vs) = v ∷ elements vs

-- LineProtocolClient.readBulk
unfoldable pub read_bulk_line : Read (List Bytes)
unfolding read_line_invariant split
read_bulk_line s = do
  (line, rest) ← read_line_invariant s
  guard (leb 2 (length line)) request_format
  ok (split line b' ', rest)

module _ {S : Type 0} (p : Platform) where
  -- BroadcastContext.Register
  unfoldable pub register : Bytes → Handler S → Commands S → Commands S
  register cmd handler commands = insert (p.upper cmd) handler commands

  -- handleData of the line and the redis protocol
  unfoldable pub handle_bulk : Commands S → List Bytes → Session S → Reply × Session S
  handle_bulk commands [] s = (panicked, s)
  handle_bulk commands (name ∷ d) s =
      if same (p.upper name) (codes "QUIT")
      then (failed quit, s)
      else elim (lookup (p.upper name) commands) [
        | none ↦ (failed cmd_not_found, s)
        | some handler ↦ let (r, s') = handler (bulk d) s in (apart r, s')
      ]

  -- handleData of the default protocol, from the command's name on
  unfoldable pub handle_named : Commands S → Bytes → List Value → Session S → Reply × Session S
  handle_named commands cmd args s =
      if same cmd (codes "QUIT") then (failed quit, s) else elim (lookup cmd commands) [
        | none ↦ (failed cmd_not_found, s)
        | some handler ↦ let (r, s') = handler (values args) s in (here r, s')
      ]

  -- data[1:] of no data panics, as data[0].(string) of any other value does.
  unfoldable pub handle_interface : Commands S → Value → Session S → Reply × Session S
  unfolding handle_named
  handle_interface commands (arr nil) s = elim (lookup [] commands) [
    | none ↦ (failed cmd_not_found, s)
    | some handler ↦ (panicked, s)
  ]
  handle_interface commands (arr (cons (bytes b) vs)) s =
      handle_named commands (p.upper b) (elements vs) s
  handle_interface commands (arr (cons (str b) vs)) s =
      handle_named commands (p.upper b) (elements vs) s
  handle_interface commands (arr (cons v vs)) s = (panicked, s)
  handle_interface commands v s = (success, s)

  abbrev pub redis : Commands S → Protocol S (List Bytes)
  redis commands = record {
    read = read_bulk_payload;
    handle_data = handle_bulk commands;
    farewell = write_string (codes "OK") ∷ flush ∷ [];
  }

  abbrev pub line : Commands S → Protocol S (List Bytes)
  line commands = record {
    read = read_bulk_line;
    handle_data = handle_bulk commands;
    farewell = [];
  }

  abbrev pub default : Commands S → Protocol S Value
  default commands = record {
    read = read_interface p;
    handle_data = handle_interface commands;
    farewell = write_string (codes "OK") ∷ flush ∷ [];
  }

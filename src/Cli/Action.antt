-- ===== src/Cli/Action.antt =====
-- cmd/broadcast-cli/main.go: what the loop of main does with a line.
use broadcast.Common.{◌||◌, List, [], ◌∷◌, map, Bytes, codes, same, if◌then◌else◌}
use broadcast.Wire.{Value, Platform}
use broadcast.Cli.Tokens.{argument}
use broadcast.Cli.Help.{HelpCommand, is_cmd_async}

-- What the loop of main does with the tokens of a line.
pub data Action : Type 0 where
  nothing show_help show_cmds : Action
  -- Get a connection, DoAsync, and Read for ever
  listen : Bytes → List Value → Action
  send_only send_and_read : Bytes → List Value → Action

-- `lower` is strings.ToLower.
unfoldable pub action : Platform → (Bytes → Bytes) → List HelpCommand → List Bytes → Action
unfolding argument is_cmd_async
action p lower help [] = nothing
action p lower help (name ∷ items) =
    let cmd = p.upper name in
    let args = map (argument p) items in
    if same (lower cmd) (codes "help") || same cmd (codes "?")
    then show_help
    else if same cmd (codes "CMDS")
    then show_cmds
    else if same cmd (codes "SUBSCRIBE")
    then listen cmd args
    else if is_cmd_async help cmd
    then send_only cmd args
    else send_and_read cmd args

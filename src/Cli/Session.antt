-- ===== src/Cli/Session.antt =====
-- cmd/broadcast-cli/main.go: main, from NewClient over the first CMDS to the loop over the lines that the
-- editor yields. The history of the editor is not kept here.
use broadcast.Common.{
  ℕ, Option, none, some, Bool, true, false, List, [], ◌∷◌, ◌++◌, Bytes, codes, Error, Result, ok,
  err, panic,
}
use broadcast.Common.Int.{ℤ}
use broadcast.Dict.{Dict}
use broadcast.Wire.{Value, Platform, json, error}
use broadcast.Server.{CommandInfo}
use broadcast.Client.{Network, Client, new_client, client_do}
use broadcast.Cli.Tokens.{find_all}
use broadcast.Cli.Help.{HelpCommand, load_help}
use broadcast.Cli.Print.{Verbs}
use broadcast.Cli.Action.{action}
use broadcast.Cli.Run.{Ending, running, crashed, Decoder, run_action}

-- The flags
pub record Flags : Type 0 where
  pub host : Bytes
  pub port : ℤ
  pub max_idle : ℤ
  pub bprotocol : Bytes
  pub skip_cmds : Bool

-- What the loop keeps: the client, helpCommands, and what is on the screen.
pub record Cli : Type 0 where
  pub client : Client
  pub help : List HelpCommand
  pub screen : Bytes

unfoldable pub show : Bytes → Cli → Cli
show out cli = record cli { screen = cli.screen ++ out }

-- What the program is given beside the platform: `announced` is the reply to CMDS as its rows, none where
-- a row lacks a field or has one of another type, `lower` is strings.ToLower, and `quit_text` is the error of
-- the editor.
pub record Terminal : Type 0 where
  pub verbs : Verbs
  pub decoder : Decoder
  pub announced : Bytes → Option (Dict CommandInfo)
  pub lower : Bytes → Bytes
  pub quit_text : Bytes

module _ (t : Terminal) where
  -- printReply for the reply to the first CMDS: reply.(error) of any other value panics.
  unfoldable pub take_commands : Value → Cli → Cli × Ending
  unfolding show
  take_commands (json m) cli = elim (t.announced m) [
    | some rows ↦ (record cli { help = load_help rows }, running)
    | none ↦ (cli, crashed)
  ]
  take_commands (error m) cli = (show (m ++ 10 ∷ []) cli, running)
  take_commands v cli = (cli, crashed)

  unfoldable pub first_commands : Result Value → Cli → Cli × Ending
  unfolding take_commands show
  first_commands (ok v) cli = take_commands v cli
  first_commands (err e) cli = (show (t.decoder.message e) cli, running)
  first_commands panic cli = (cli, crashed)

  module _ (p : Platform) (net : Network) (now rounds : ℕ) where
    -- A line: no tokens are skipped, and of the others the first is the command.
    unfoldable pub handle_tokens : List Bytes → Cli → Cli × Ending
    unfolding run_action action show
    handle_tokens [] cli = (cli, running)
    handle_tokens (name ∷ words) cli =
        let act = action p t.lower cli.help (name ∷ words) in
        let ((out, ending), client) =
          run_action t.verbs t.decoder p net now rounds cli.help words act cli.client in
        (show out (record cli { client = client }), ending)

    -- The loop of main over the lines that the editor yields until it returns an error
    unfoldable pub run_lines : List Bytes → Cli → Cli × Ending
    unfolding find_all handle_tokens show
    run_lines [] cli = (show (t.quit_text ++ 10 ∷ []) cli, running)
    run_lines (l ∷ lines) cli =
        let (cli', ending) = handle_tokens (find_all l) cli in
        elim ending [ running ↦ run_lines lines cli' | crashed ↦ (cli', crashed) ]

    -- The first CMDS of main, unless it is skipped.
    unfoldable pub ask_commands : Bool → Cli → Cli × Ending
    unfolding first_commands client_do
    ask_commands true cli = (cli, running)
    ask_commands false cli =
        let (r, client) = client_do p net (codes "cmds") [] now cli.client in
        first_commands r (record cli { client = client })

    -- main. `resolve` is the error of net.ResolveTCPAddr.
    unfoldable pub cli_main : (Bytes → Option Error) → Flags → List Bytes → Result (Cli × Ending)
    unfolding new_client ask_commands run_lines
    cli_main resolve flags lines =
        elim (new_client resolve flags.port flags.host flags.max_idle flags.bprotocol) [
          | ok client ↦
              let (cli, ending) =
                ask_commands flags.skip_cmds (record { client = client; help = []; screen = [] }) in
              ok (elim ending [ running ↦ run_lines lines cli | crashed ↦ (cli, crashed) ])
          | err e ↦ err e
          | panic ↦ panic
        ]

-- ===== src/Tests/Session.antt =====
-- A session of the command line client at concrete lines.
use broadcast.Common.{◌≡◌, ◌++◌, refl, none, true, [], ◌∷◌, List, Bytes, codes, same, length, ok}
use broadcast.Common.Int.{pos}
use broadcast.Decimal.{format_int}
use broadcast.Client.{Client, new_client}
use broadcast.Cli.Tokens.{find_all}
use broadcast.Cli.Help.{HelpCommand, is_cmd_async, generic_help, print_help}
use broadcast.Cli.Action.{action}
use broadcast.Cli.Run.{running, run_action}
use broadcast.Cli.Session.{
  Flags, Cli, Terminal, show, ask_commands, handle_tokens, run_lines, cli_main,
}
use broadcast.Cli.Leak
use broadcast.Cli.Leak.{Leaked, is_sent_only}
use broadcast.Tests.Wire.{platform}
use broadcast.Tests.Cli.{verbs, decoder, keep, one_reply}

abbrev terminal : Terminal
terminal = record {
  verbs = verbs;
  decoder = decoder;
  announced = λ m. none;
  lower = keep;
  quit_text = codes "quited by a signal";
}

abbrev flags : Flags
flags = record {
  host = codes "127.0.0.1";
  port = pos 7331;
  max_idle = pos 1;
  bprotocol = codes "redis";
  skip_cmds = true;
}

abbrev unused : Client
unused = record {
  bprotocol = codes "redis";
  addr = codes "127.0.0.1:7331";
  max_idle = pos 1;
  connections = [];
  created = 0;
}

-- `?` prints the help, and the end of the input ends the program.
asks_for_help :
    cli_main terminal platform one_reply 0 10 (λ addr. none) flags (codes "?" ∷ [])
    ≡ ok (
      record {
        client = unused;
        help = [];
        screen = generic_help ++ (codes "quited by a signal" ++ 10 ∷ []);
      },
      running,
    )
unfolding cli_main new_client ask_commands run_lines find_all handle_tokens show action run_action
    print_help format_int same
asks_for_help = refl

abbrev told : List HelpCommand
told = record { name = codes "COUNT"; usage = []; description = []; async = codes "true" } ∷ []

abbrev session : Cli
session = record { client = unused; help = told; screen = [] }

abbrev counting : List Bytes
counting = codes "count hits" ∷ codes "count hits 2" ∷ []

session-leaks_example :
    ((run_lines terminal platform one_reply 0 10 counting session).1 ≡ running)
    × Leaked
        (length counting)
        unused
        (run_lines terminal platform one_reply 0 10 counting session).0.client
unfolding is_sent_only action is_cmd_async find_all same
session-leaks_example =
    Leak.session-leaks terminal platform one_reply 0 10 counting session (refl, (refl, tt))

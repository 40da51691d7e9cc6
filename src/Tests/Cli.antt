-- ===== src/Tests/Cli.antt =====
-- The command line client at concrete inputs.
use mathlib.Core.List.{Permᴰ}
use broadcast.Common.{
  ◌≡◌, ◌++◌, refl, some, false, ok, List, [], ◌∷◌, map, arith, Bytes, codes, same,
}
use broadcast.Common.Int.{pos, negsuc}
use broadcast.Wire.{int, delims}
use broadcast.Cli.Tokens.{find_all}
use broadcast.Cli.Help.{HelpCommand, is_cmd_async, print_cmds}
use broadcast.Cli.Action.{listen, send_and_read, action}
use broadcast.Cli.Print.{Fields, Verbs, field, no_fields, integer, text, object, print_reply}
use broadcast.Cli.Order
use broadcast.Cli.Order.{entries}
use broadcast.Cli.Lines.{spaced_out}
use broadcast.Cli.Listen
use broadcast.Cli.Sort.{sort}
use broadcast.Cli.Listing
use broadcast.Cli.Listing.{names, each_named}
use broadcast.Dict.Keys.{among}
use broadcast.Cli.Run.{Decoder, crashed, run_action}
use broadcast.Decimal.{format_int}
use broadcast.Wire.Write.{put}
use broadcast.Client.{Network, Client, do_async, get}
use broadcast.Cli.Numbers
use broadcast.Cli.Numbers.{Numeral, bare, inside, value, written}
use broadcast.Dict.{has, lookup}
use broadcast.Tests.Wire.{platform}

abbrev pub verbs : Verbs
verbs = record { float_verb = λ x. codes "1.500000"; quote_verb = λ b. b }

abbrev reply_of : Fields
reply_of = field (codes "b") (integer (pos 1)) (field (codes "a") (text (codes "x")) no_fields)

abbrev reply_turned : Fields
reply_turned = field (codes "a") (text (codes "x")) (field (codes "b") (integer (pos 1)) no_fields)

print_reply-Perm_example :
    print_reply verbs (object reply_of) [] ≡ print_reply verbs (object reply_turned) []
unfolding has lookup same
print_reply-Perm_example =
    Order.print_reply-Perm verbs reply_of reply_turned [] (refl, (refl, tt)) (Permᴰ.swap refl refl)

-- Names are spelled in capitals already.
abbrev pub keep : Bytes → Bytes
keep s = s

abbrev numerals : List Numeral
numerals = bare (negsuc 4) ∷ inside b'"' (pos 12) ∷ []

-- The line `incr -5 "12"`.
action-numbers_example :
    action platform keep [] (find_all (codes "incr" ++ spaced_out (map written numerals)))
    ≡ send_and_read (codes "INCR") (map (λ n. int (value n)) numerals)
unfolding same is_cmd_async
action-numbers_example =
    Numbers.action-numbers platform keep [] (codes "incr") numerals
      (refl, refl, (refl, (refl, (refl, tt)))) (omega arith, ((omega arith, refl), tt))
      (record { no_help = refl; no_mark = refl; no_cmds = refl; no_subscribe = refl; waits = refl })

-- The quotes may hold spaces.
quoted_line : find_all (codes "set \"a b\" 'c") ≡ codes "set" ∷ codes "\"a b\"" ∷ codes "'c" ∷ []
unfolding find_all
quoted_line = refl

-- A server that answers with one number and then closes the connection.
abbrev pub one_reply : Network
one_reply i k = some (record { out = []; budget = 100; failed = false }, codes ":1" ++ delims)

abbrev one_connection : Client
one_connection = record {
  bprotocol = codes "redis";
  addr = codes "127.0.0.1:7331";
  max_idle = pos 1;
  connections = [];
  created = 0;
}

abbrev pub decoder : Decoder
decoder = record { decode = λ b. no_fields; message = λ e. codes "EOF" }

subscribe_crashes_example :
    (run_action verbs decoder platform one_reply 0 10 [] []
      (listen (codes "SUBSCRIBE") [])
      one_connection).0.1
    ≡ crashed
unfolding do_async get same put format_int
subscribe_crashes_example =
    Listen.subscribe_crashes verbs decoder platform one_reply 0 10 [] [] (codes "SUBSCRIBE") []
      one_connection (omega arith)

abbrev announced : List HelpCommand
announced =
    record { name = codes "SET"; usage = codes "SET k v"; description = []; async = codes "false" }
    ∷ record { name = codes "GET"; usage = []; description = []; async = codes "false" }
    ∷ []

print_cmds-each_example : print_cmds announced ≡ ok (each_named announced (sort (names announced)))
unfolding among same
print_cmds-each_example = Listing.print_cmds-each announced (refl, (refl, tt))

-- The listing is sorted.
sorted_names : sort (names announced) ≡ codes "GET" ∷ codes "SET" ∷ []
unfolding sort
sorted_names = refl

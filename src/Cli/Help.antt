-- ===== src/Cli/Help.antt =====
-- cmd/broadcast-cli/main.go: the commands that the server has announced, what is printed about them,
-- and how names are completed.
use broadcast.Common.{
  ℕ, suc, Bool, false, ◌&&◌, ◌||◌, none, some, List, [], ◌∷◌, ◌++◌, map, Bytes, codes, same, length,
  ltb, if◌then◌else◌, Result, ok, err, panic, get_elem?,
}
use broadcast.Dict.{Dict, lookup, insert}
use broadcast.Server.{CommandInfo}
use broadcast.Stats.Memory.Keys.{has_prefix}
use broadcast.Wire.{Platform}
use broadcast.Cli.Sort.{sort}

-- A row of helpCommands: the name, the usage, the description, and whether no reply comes.
pub record HelpCommand : Type 0 where
  pub name : Bytes
  pub usage : Bytes
  pub description : Bytes
  pub async : Bytes

abbrev pub truth : Bool → Bytes
truth b = if b then codes "true" else codes "false"

-- A row of the reply to CMDS, whose keys are the names.
abbrev pub help_command : Bytes × CommandInfo → HelpCommand
help_command (k, cmd) = record {
  name = k;
  usage = cmd.usage;
  description = cmd.description;
  async = truth cmd.fire_forget;
}

-- printReply for the first reply to CMDS
abbrev pub load_help : Dict CommandInfo → List HelpCommand
load_help = map help_command

unfoldable pub is_cmd_async : List HelpCommand → Bytes → Bool
is_cmd_async [] cmd = false
is_cmd_async (v ∷ help) cmd =
    (same v.name cmd && same v.async (codes "true")) || is_cmd_async help cmd

unfoldable pub completion_handler : Platform → List HelpCommand → Bytes → List Bytes
unfolding has_prefix
completion_handler p [] text = []
completion_handler p (i ∷ help) text =
    let rest = completion_handler p help text in
    if has_prefix i.name (p.upper text) then i.name ∷ rest else rest

-- printCommandHelp
unfoldable pub print_command_help : HelpCommand → Bytes
print_command_help h =
    h.name
    ++ 10 ∷ 32 ∷ h.description
    ++ (if ltb 0 (length h.usage) then 10 ∷ codes " usage: " ++ h.usage else [])
    ++ 10 ∷ 10 ∷ []

-- helpCommandsMap: the place of each name, as the loop of printReply fills it.
unfoldable pub places : ℕ → List HelpCommand → Dict ℕ → Dict ℕ
places i [] d = d
places i (h ∷ help) d = places (suc i) help (insert h.name i d)

-- The loop of printCmds over the sorted names. A name that is not there has place 0.
unfoldable pub print_each : List HelpCommand → Dict ℕ → List Bytes → Result Bytes
unfolding print_command_help
print_each help d [] = ok []
print_each help d (k ∷ ks) =
    let rest = print_each help d ks in
    let i : ℕ = elim (lookup k d) [ none ↦ 0 | some i ↦ i ] in
    elim (get_elem? help i) [
      | none ↦ panic
      | some h ↦ elim rest [ ok s ↦ ok (print_command_help h ++ s) | err e ↦ err e | panic ↦ panic ]
    ]

unfoldable pub print_cmds : List HelpCommand → Result Bytes
unfolding print_each places sort
print_cmds help = print_each help (places 0 help []) (sort (map (λ h. h.name) help))

-- printGenericHelp
abbrev pub generic_help : Bytes
generic_help =
    codes "broadcast-cli"
    ++ 10 ∷ codes "Type:   \"help <command>\" for help on <command>"
    ++ 10 ∷ codes "    "
    ++ 10 ∷ []

-- The loop of printHelp over all commands.
unfoldable pub print_named : List HelpCommand → Bytes → Bytes
unfolding print_command_help
print_named [] cmd = []
print_named (h ∷ help) cmd =
    let rest = print_named help cmd in
    if same h.name cmd then print_command_help h ++ rest else rest

-- printHelp, for the words behind the first.
unfoldable pub print_help : Platform → List HelpCommand → List Bytes → Bytes
unfolding print_named
print_help p help [] = generic_help
print_help p help (name ∷ []) = print_named help (p.upper name)
print_help p help (name ∷ other ∷ words) = 10 ∷ []

-- ===== src/Server/Context.antt =====
-- server/context.go: the tables of handlers and of their descriptions. ClientSize is a field of the
-- server here, and Events are those of a connection.
use broadcast.Common.{[], Bytes}
use broadcast.Dict.{Dict, insert}
use broadcast.Wire.{Platform}
use broadcast.Server.{CommandInfo}
use broadcast.Protocol.Request.{Commands, Handler}
use broadcast.Protocol.Request

pub record BroadcastContext (S : Type 0) : Type 0 where
  pub commands : Commands S
  pub command_help : Dict CommandInfo

abbrev pub new_broadcast_context : {S : Type 0} → BroadcastContext S
new_broadcast_context = record { commands = []; command_help = [] }

module _ {S : Type 0} (p : Platform) where
  unfoldable pub register : Bytes → Handler S → BroadcastContext S → BroadcastContext S
  unfolding Request.register
  register cmd handler ctx = record ctx { commands = Request.register p cmd handler ctx.commands }

  unfoldable pub register_help : CommandInfo → BroadcastContext S → BroadcastContext S
  register_help cmd ctx = record ctx {
    command_help = insert (p.upper cmd.name) cmd ctx.command_help;
  }

  unfoldable pub register_command :
      CommandInfo → Handler S → BroadcastContext S → BroadcastContext S
  unfolding register register_help
  register_command cmd handler ctx = register_help cmd (register cmd.name handler ctx)

-- ===== src/Protocol/LineClient.antt =====
-- protocols/line/lineprotocol_client.go: how a line client sends a command. Flush changes nothing
-- here, since a writer is what the connection takes.
use broadcast.Common.{none, List, [], ◌∷◌, ◌++◌, Bytes}
use broadcast.Wire.{Value, Platform, delims}
use broadcast.Wire.Write.{Write, put}

-- The loop over the arguments: a space and the print of each.
unfoldable pub spaced : Platform → List Value → Bytes
spaced p [] = []
spaced p (v ∷ args) = (b' ' ∷ []) ++ p.print v ++ spaced p args

-- LineProtocolClient.WriteCommand, which drops every error
unfoldable pub write_line_command : Platform → Bytes → List Value → Write
unfolding spaced
write_line_command p cmd args w = (put delims (put (p.upper cmd ++ spaced p args) w), none)

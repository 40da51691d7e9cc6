-- ===== src/Protocol/Usage.antt =====
-- What a handler of the stats backend makes of a request of the default protocol.
use broadcast.Common.{◌<◌, ◌≡◌, refl, false, some, Bytes, codes, same}
use broadcast.Dict.{lookup}
use broadcast.Wire.{Items, Platform, bytes, arr, cons}
use broadcast.Stats.Metrics.{Metrics}
use broadcast.Stats.Session.{values, Session}
use broadcast.Stats.Commands.{Command, run_command}
use broadcast.Stats.Commands.Arguments.{arity, saying, too_few}
use broadcast.Protocol.{success}
use broadcast.Protocol.Request.{Commands, elements, handle_interface}

-- Under the default protocol every command of the stats backend that needs an argument, registered
-- under a name other than QUIT, sends an error message and a flush and leaves the metrics as they
-- are, whatever arguments the client sends.
pub default_usage :
    {S : Type 0} (p : Platform) (commands : Commands S) (m : Metrics S) (c : Command) (name : Bytes)
    (vs : Items) (s : Session S)
    → same (p.upper name) (codes "QUIT") ≡ false
    → lookup (p.upper name) commands ≡ some (run_command m c)
    → 0 < arity c
    → (message : Bytes) × (handle_interface p commands (arr (cons (bytes name) vs)) s
        ≡ (success, saying s message))
unfolding handle_interface
default_usage p commands m c name vs s q there needs =
    let (message, run) = too_few m c (values (elements vs)) s needs in
    (message, rw (q, there, run) refl)

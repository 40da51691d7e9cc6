-- ===== src/Program/Process/Signal.antt =====
-- What a signal does to a server.
use broadcast.Server.Life.{Life}
use broadcast.Server.Life.Steps.{Steps}

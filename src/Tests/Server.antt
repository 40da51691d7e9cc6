-- ===== src/Tests/Server.antt =====
-- The count of the clients at concrete inputs.
use broadcast.Common.{◌≡◌, refl, [], codes, false}
use broadcast.Common.Int.{pos, ◌-ℤ◌, ◌+ℤ◌}
use broadcast.Server.{BroadcastServer, accept, exited}

abbrev empty_server : BroadcastServer
empty_server = record { clients = []; client_size = pos 0; is_closed = false }

abbrev two_clients : BroadcastServer
two_clients = accept (codes "b") (accept (codes "a") empty_server)

-- Without a Close the count is right after an exit.
one_left : (exited (codes "a") two_clients).client_size ≡ pos 1
unfolding exited accept ◌+ℤ◌ ◌-ℤ◌
one_left = refl

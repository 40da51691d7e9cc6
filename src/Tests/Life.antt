-- ===== src/Tests/Life.antt =====
-- A server that accepts one connection and is then closed.
use broadcast.Common.{
  ◌≡◌, refl, none, Bool, false, [], ◌∷◌, Bytes, Result, ok, panic, inl, codes, same, length,
}
use broadcast.Common.Int.{pos, ◌-ℤ◌}
use broadcast.Decimal.{format_int}
use broadcast.Dict.{lookup, has, insert}
use broadcast.Server.{
  accept, exited, new_client, close_channel, close_client, close_clients, close_server,
}
use broadcast.Server.Life.{
  Life, returned, stats, listen_protocol, load, load_backend, accept_connections, check, accept_tcp,
  handle_connection, end_client, unload, unload_stats, unload_all, close,
}
use broadcast.Server.Life.Steps.{
  Steps, done, and_then, Reachable, listening, loading, serving, going, looping, arriving, handling,
  exiting,
}
use broadcast.Server.Life.Closing.{shut, closed_life}
use broadcast.Server.Life.Count
use broadcast.Program.Process.Signal

abbrev known_host : Bytes → Result Bytes
known_host addr = ok addr

abbrev free_port : Bytes → Result (Unit {0})
free_port addr = ok tt

abbrev first : Life
first = record {
  server = record { clients = []; client_size = pos 0; is_closed = false };
  addr = codes "localhost:80";
  protocol = codes "redis";
  backends = [];
  listener_open = Bool.true;
  quit_open = Bool.true;
  accepting = returned;
  events = [];
}

-- The stats backend is loaded, and a peer `a` connects.
abbrev with_stats : Life
with_stats = load_backend (stats (record { quit_open = none; ticking = false })) first

abbrev one_client : Life
one_client =
    handle_connection none (codes "a")
      (accept_tcp (inl (codes "a")) (check (accept_connections with_stats)))

one_client-Reachable : Reachable known_host free_port one_client
unfolding listen_protocol format_int load_backend load accept_connections check accept_tcp
    handle_connection has lookup
one_client-Reachable =
    going
      (going
        (going
          (serving
            (loading (stats (record { quit_open = none; ticking = false }))
              (listening (pos 80) (codes "localhost") (codes "redis") {life = first} refl) refl)
            refl)
          (looping refl))
        (arriving (codes "a") refl refl))
      (handling none (codes "a") refl refl)

-- A client whose RunClient has ended, and whose exit is not handled yet, makes Close panic.
abbrev ended : Life
ended = record one_client {
  server = record one_client.server { clients = (codes "a", shut new_client) ∷ [] };
}

ended-close : (end_client (codes "a") one_client ≡ ok ended) × (close ended ≡ panic)
unfolding end_client close close_server close_clients close_client close_channel load_backend load
    accept_connections check accept_tcp handle_connection accept insert lookup same
ended-close = (refl, refl)

closes : close one_client ≡ ok (closed_life one_client)
unfolding close close_server close_clients close_client close_channel unload_all unload unload_stats
    load_backend load accept_connections check accept_tcp handle_connection accept insert same
closes = refl

abbrev later : Life
later = record (closed_life one_client) {
  server = exited (codes "a") (closed_life one_client).server;
}

exits : Steps (closed_life one_client) later
unfolding load_backend load accept_connections check accept_tcp handle_connection accept insert
    lookup same
exits = and_then done (exiting (codes "a") (shut new_client) refl refl)

count_over_life_example :
    later.server.client_size
    ≡ pos (length later.server.clients) -ℤ pos (length one_client.server.clients)
count_over_life_example =
    Count.count_over_life known_host free_port one_client (closed_life one_client) later
      one_client-Reachable
      (unfold load_backend accept_connections check accept_tcp handle_connection accept in refl)
      closes exits

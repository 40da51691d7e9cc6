-- ===== src/Server/Close.antt =====
-- What closing does to a client and to the count of the clients.
use broadcast.Common.{
  ℕ, suc, ◌≡◌, refl, sym, ◌∙◌, ap, true, false, List, [], ◌∷◌, arith, Bytes, ok, panic, length,
}
use broadcast.Common.Int.{ℤ, pos, negsuc, ◌+ℤ◌, ◌-ℤ◌}
use broadcast.Dict.{Dict, keys}
use broadcast.Dict.Keys.{length-keys}
use broadcast.Server.{
  NetworkClient, BroadcastServer, close_client, close_channel, close_clients, close_server, exited,
}

-- A client that was initialized and not closed yet.
record IsOpen (c : NetworkClient) : Type 0 where
  pub conn : c.has_conn ≡ true
  pub request_error : c.request_error_open ≡ true
  pub quit : c.quit_open ≡ true

-- The first Close of an open client succeeds, but IsClosed answers as before, and the second Close
-- panics.
close_client-twice :
    (c : NetworkClient)
    → IsOpen c
    → (c' : NetworkClient) × (close_client c ≡ ok c')
      × (c'.is_closed ≡ c.is_closed)
      × (close_client c' ≡ panic)
unfolding close_client close_channel
close_client-twice c h = (
  record c { request_error_open = false; quit_open = false },
  rw (h.conn, h.request_error, h.quit) refl,
  refl,
  rw h.conn refl,
)

pub sub-sub : (z : ℤ) (n : ℕ) → (z -ℤ pos 1) -ℤ pos n ≡ z -ℤ pos (suc n)
sub-sub (pos m) n = unfold ◌-ℤ◌ ◌+ℤ◌ in ground arith
sub-sub (negsuc m) n = unfold ◌-ℤ◌ ◌+ℤ◌ in ground arith

pub sub-zero : (z : ℤ) → z -ℤ pos 0 ≡ z
unfolding ◌-ℤ◌
sub-zero (pos m) = ground arith
sub-zero (negsuc m) = ground arith

-- Every client of the server is open.
abbrev AllOpen : Dict NetworkClient → Type 0
AllOpen [] = Unit
AllOpen ((id, c) ∷ d) = IsOpen c × AllOpen d

close_clients-count :
    (d : Dict NetworkClient) (n : ℤ)
    → AllOpen d
    → (d' : Dict NetworkClient) × (close_clients d n ≡ ok (d', n -ℤ pos (length d)))
unfolding close_clients
close_clients-count [] n h = ([], ap (λ (z : ℤ). ok ([], z)) (sym (sub-zero n)))
close_clients-count ((id, c) ∷ d) n (h, hs) =
    let (c', first, same_field, second) = close_client-twice c h in
    let (d', others) = close_clients-count d (n -ℤ pos 1) hs in
    (
      (id, c') ∷ d',
      rw (first, others) (ap (λ (z : ℤ). ok ((id, c') ∷ d', z)) (sub-sub n (length d))),
    )

-- The clients exit one after the other.
abbrev exit_all : List Bytes → BroadcastServer → BroadcastServer
exit_all [] app = app
exit_all (id ∷ ids) app = exit_all ids (exited id app)

exit_all-count :
    (ids : List Bytes) (app : BroadcastServer)
    → (exit_all ids app).client_size ≡ app.client_size -ℤ pos (length ids)
unfolding exited
exit_all-count [] app = sym (sub-zero app.client_size)
exit_all-count (id ∷ ids) app =
    exit_all-count ids (exited id app) ∙ sub-sub app.client_size (length ids)

-- When a server that counts its clients right is closed while all of them are open, and each of
-- them then exits, the count ends at minus their number: Close and the exit both count it down.
close_server-count :
    (app : BroadcastServer)
    → app.is_closed ≡ false
    → AllOpen app.clients
    → app.client_size ≡ pos (length app.clients)
    → (app' : BroadcastServer) × (close_server app ≡ ok app')
      × (app'.is_closed ≡ true)
      × ((exit_all (keys app.clients) app').client_size ≡ pos 0 -ℤ pos (length app.clients))
unfolding close_server
close_server-count app serving all_open counted =
    let (d, run) = close_clients-count app.clients app.client_size all_open in
    let n = length app.clients in
    let app' : BroadcastServer = record {
      clients = d;
      client_size = app.client_size -ℤ pos n;
      is_closed = true;
    } in
    let zero_left : pos n -ℤ pos n ≡ pos 0 = unfold ◌-ℤ◌ in ground arith in
    (
      app',
      rw (serving, run) refl,
      refl,
      exit_all-count (keys app.clients) app'
          ∙ ap (λ (k : ℕ). (app.client_size -ℤ pos n) -ℤ pos k) (length-keys app.clients)
          ∙ ap (λ (z : ℤ). (z -ℤ pos n) -ℤ pos n) counted
          ∙ ap (λ (z : ℤ). z -ℤ pos n) zero_left,
    )

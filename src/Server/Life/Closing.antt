-- ===== src/Server/Life/Closing.antt =====
-- What Close does to a server that is listening: an equation for the whole of it.
use broadcast.Common.{
  ◌≡◌, refl, sym, ap, some, Bool, true, false, not, ◌||◌, List, [], ◌∷◌, ◌++◌, ok, panic, length,
  inl, inr, Bool-cases, if◌then◌else◌,
}
use broadcast.Common.Int.{ℤ, pos, ◌-ℤ◌}
use broadcast.Dict.{Dict}
use broadcast.Server.{NetworkClient, close_channel, close_client, close_clients, close_server}
use broadcast.Server.Close.{sub-sub, sub-zero}
use broadcast.Server.Life.{
  Life, Backend, plain, stats, unload, unload_stats, unload_all, close, closing,
}

-- A client behind Initialize has its connection, and its two channels are closed together.
pub record IsTwin (c : NetworkClient) : Type 0 where
  pub conn : c.has_conn ≡ true
  pub channels : c.request_error_open ≡ c.quit_open

abbrev pub AllTwin : Dict NetworkClient → Type 0
AllTwin [] = Unit
AllTwin ((id, c) ∷ d) = IsTwin c × AllTwin d

-- Has a client ended whose exit the server has not handled yet?
abbrev pub any_ended : Dict NetworkClient → Bool
any_ended [] = false
any_ended ((id, c) ∷ d) = not c.quit_open || any_ended d

abbrev pub shut : NetworkClient → NetworkClient
shut c = record c { request_error_open = false; quit_open = false }

abbrev pub shut_all : Dict NetworkClient → Dict NetworkClient
shut_all [] = []
shut_all ((id, c) ∷ d) = (id, shut c) ∷ shut_all d

pub close_client-twin :
    (c : NetworkClient) → IsTwin c → close_client c ≡ (if c.quit_open then ok (shut c) else panic)
unfolding close_client close_channel
close_client-twin c h = elim (Bool-cases c.quit_open) [
  | inl e ↦ rw (h.conn, h.channels, e) refl
  | inr e ↦ rw (h.conn, h.channels, e) refl
]

close_clients-all :
    (d : Dict NetworkClient) (n : ℤ)
    → AllTwin d
    → close_clients d n ≡ (if any_ended d then panic else ok (shut_all d, n -ℤ pos (length d)))
unfolding close_clients
close_clients-all [] n h = ap (λ (z : ℤ). ok ([], z)) (sym (sub-zero n))
close_clients-all ((id, c) ∷ d) n (h, hs) = elim (Bool-cases c.quit_open) [
  | inl e ↦ elim (Bool-cases (any_ended d)) [
    | inl f ↦ rw (close_client-twin c h, e, close_clients-all d (n -ℤ pos 1) hs, f) refl
    | inr f ↦
        rw (close_client-twin c h, e, close_clients-all d (n -ℤ pos 1) hs, f)
          (ap (λ (z : ℤ). ok ((id, shut c) ∷ shut_all d, z)) (sub-sub n (length d)))
  ]
  | inr e ↦ rw (close_client-twin c h, e) refl
]

-- A backend that was loaded and not unloaded.
abbrev pub IsLoaded : Backend → Type 0
IsLoaded plain = Unit
IsLoaded (stats b) = b.quit_open ≡ some true

abbrev pub AllLoaded : List Backend → Type 0
AllLoaded [] = Unit
AllLoaded (b ∷ bs) = IsLoaded b × AllLoaded bs

abbrev pub unloaded : Backend → Backend
unloaded plain = plain
unloaded (stats b) = stats (record b { quit_open = some false })

abbrev pub unloaded_all : List Backend → List Backend
unloaded_all [] = []
unloaded_all (b ∷ bs) = unloaded b ∷ unloaded_all bs

unload_loaded : (b : Backend) → IsLoaded b → unload b ≡ ok (unloaded b)
unfolding unload unload_stats close_channel
unload_loaded plain h = refl
unload_loaded (stats b) h = rw h refl

unload_all-loaded : (bs : List Backend) → AllLoaded bs → unload_all bs ≡ ok (unloaded_all bs)
unfolding unload_all
unload_all-loaded [] h = refl
unload_all-loaded (b ∷ bs) (h, hs) = rw (unload_loaded b h, unload_all-loaded bs hs) refl

abbrev pub closed_life : Life → Life
closed_life life = record life {
  server = record {
    clients = shut_all life.server.clients;
    client_size = life.server.client_size -ℤ pos (length life.server.clients);
    is_closed = true;
  };
  backends = unloaded_all life.backends;
  listener_open = false;
  quit_open = false;
  events = life.events ++ closing ∷ [];
}

-- What a server that is listening has.
pub record IsOpen (life : Life) : Type 0 where
  pub serving : life.server.is_closed ≡ false
  pub twins : AllTwin life.server.clients
  pub loaded : AllLoaded life.backends
  pub quit : life.quit_open ≡ true

pub close-open :
    (life : Life)
    → IsOpen life
    → close life ≡ (if any_ended life.server.clients then panic else ok (closed_life life))
unfolding close close_server close_channel
close-open life h = elim (Bool-cases (any_ended life.server.clients)) [
  | inl e ↦
      rw (h.serving, close_clients-all life.server.clients life.server.client_size h.twins, e) refl
  | inr e ↦
      rw
        (
          h.serving,
          close_clients-all life.server.clients life.server.client_size h.twins,
          e,
          unload_all-loaded life.backends h.loaded,
          h.quit,
        )
        refl
]

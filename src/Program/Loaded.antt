-- ===== src/Program/Loaded.antt =====
-- The server that main has when its backends are loaded.
use broadcast.Common.{
  ◌≡◌, refl, sym, ◌∙◌, ap, some, List, [], append-nil, Bool, true, false, ◌∷◌, ◌++◌, Bytes, ok,
  if◌then◌else◌, ℕ,
}
use broadcast.Common.Int.{ℤ}
use broadcast.Decimal.{format_int}
use broadcast.Wire.{Platform}
use broadcast.Server.{BroadcastServerStatus}
use broadcast.Server.Life.{
  Life, Backend, plain, stats, load, returned, listen_protocol, load_backend,
}
use broadcast.Server.Life.Steps.{Reachable, loading}
use broadcast.Server.Life.Count.{first_life}
use broadcast.App.{Configuration}
use broadcast.Program.{System, new_stats_backend, load_enabled}

-- The address that ListenProtocol listens on
abbrev pub address : Bytes → ℤ → Bytes
address host port = host ++ 58 ∷ format_int port

-- A StatsBackend behind Load: its channel is open, and its ticker runs.
abbrev pub loaded_stats : Backend
loaded_stats = stats (record { quit_open = some true; ticking = true })

-- The backends that are enabled, loaded, in the order of main.
abbrev pub enabled : Configuration → List Backend
enabled cfg =
    (if cfg.backend_default then plain ∷ [] else [])
    ++ (if cfg.backend_stats then loaded_stats ∷ [] else [])
    ++ (if cfg.backend_pubsub then plain ∷ [] else [])

load_if-backends :
    (b : Bool) (backend : Backend) (life : Life)
    → (if b then load_backend backend life else life).backends
      ≡ life.backends ++ (if b then load backend ∷ [] else [])
unfolding load_backend
load_if-backends true backend life = refl
load_if-backends false backend life = sym (append-nil life.backends)

module _ {A : Type 0} (sys : System A) where
  -- What ListenProtocol returns is open, and runs no loop yet.
  pub listen_protocol-fresh :
      (port : ℤ) (host name : Bytes) (a : A)
      → sys.resolve (address host port) ≡ ok a
      → sys.listen_tcp a ≡ ok tt
      → (life : Life) × (listen_protocol sys.resolve sys.listen_tcp port host name ≡ ok life)
        × (life.server.is_closed ≡ false)
        × (life.accepting ≡ returned)
        × (life.backends ≡ [])
  unfolding listen_protocol
  listen_protocol-fresh port host name a h k =
      (first_life (address host port) name, rw (h, k) refl, refl, refl, refl)

  load_if-Reachable :
      (b : Bool) (backend : Backend) (life : Life)
      → Reachable sys.resolve sys.listen_tcp life
        × (life.server.is_closed ≡ false)
        × (life.accepting ≡ returned)
      → let life' = if b then load_backend backend life else life in
        Reachable sys.resolve sys.listen_tcp life'
        × (life'.server.is_closed ≡ false)
        × (life'.accepting ≡ returned)
  unfolding load_backend
  load_if-Reachable true backend life (r, c, e) = (loading backend r c, c, e)
  load_if-Reachable false backend life h = h

  module _ (p : Platform) (per_second : ℤ → ℕ → ℕ → ℕ) (runtime : BroadcastServerStatus) where
    pub load_enabled-Reachable :
        (cfg : Configuration) (life : Life)
        → Reachable sys.resolve sys.listen_tcp life
          × (life.server.is_closed ≡ false)
          × (life.accepting ≡ returned)
        → let life' = load_enabled sys p per_second runtime cfg life in
          Reachable sys.resolve sys.listen_tcp life'
          × (life'.server.is_closed ≡ false)
          × (life'.accepting ≡ returned)
    unfolding load_enabled
    load_enabled-Reachable cfg life h = load_if-Reachable cfg.backend_pubsub plain _ (
        load_if-Reachable cfg.backend_stats new_stats_backend _
          (load_if-Reachable cfg.backend_default plain life h))

    pub load_enabled-backends :
        (cfg : Configuration) (life : Life)
        → life.backends ≡ []
        → (load_enabled sys p per_second runtime cfg life).backends ≡ enabled cfg
    unfolding load_enabled load
    load_enabled-backends cfg life h =
        let one = if cfg.backend_default then load_backend plain life else life in
        let two = if cfg.backend_stats then load_backend new_stats_backend one else one in
        load_if-backends cfg.backend_pubsub plain two
        ∙ ap (λ bs. bs ++ (if cfg.backend_pubsub then plain ∷ [] else []))
            (load_if-backends cfg.backend_stats new_stats_backend one
              ∙ ap (λ bs. bs ++ (if cfg.backend_stats then loaded_stats ∷ [] else []))
                  (load_if-backends cfg.backend_default plain life
                    ∙ ap (λ bs. bs ++ (if cfg.backend_default then plain ∷ [] else [])) h))

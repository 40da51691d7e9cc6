-- ===== src/App/Requests.antt =====
-- A request of a client, under any protocol, keeps every property of the state that the backends keep.
use broadcast.Common.{ℕ, ◌∷◌, List, [], Bytes, codes, inl, inr, Bool-cases, Option-cases, same}
use broadcast.Common.Int.{ℤ}
use broadcast.Dict.{lookup}
use broadcast.Dict.Each.{Each}
use broadcast.Wire.{Platform, Value, str, bytes, arr, nil, cons}
use broadcast.Server.{BroadcastServerStatus}
use broadcast.Stats.Session.{bulk, values, Session}
use broadcast.Protocol.Request.{Commands, handle_bulk, handle_named, handle_interface}
use broadcast.App.{App, Configuration, context}
use broadcast.App.Keeps.{Stable, Safe, AllSafe, context-AllSafe}

module _ (P : App → Type 0) (id : Bytes) (stable : Stable P id) (p : Platform) where
  bulk-keeps :
      (commands : Commands App) (req : List Bytes) (s : Session App)
      → Each (Safe P id stable) commands
      → P s.state
      → P (handle_bulk p commands req s).1.state
  unfolding handle_bulk
  bulk-keeps commands [] s all h = h
  bulk-keeps commands (name ∷ d) s all h = elim (Bool-cases (same (p.upper name) (codes "QUIT"))) [
    | inl quits ↦ rw quits h
    | inr runs ↦ elim (Option-cases (lookup (p.upper name) commands)) [
      | inl e ↦ rw (runs, e, handle_bulk) h
      | inr (handler, e) ↦
          rw (runs, e, handle_bulk) ((all.at (p.upper name) handler e (bulk d)).at s h).0
    ]
  ]

  named-keeps :
      (commands : Commands App) (cmd : Bytes) (vs : List Value) (s : Session App)
      → Each (Safe P id stable) commands
      → P s.state
      → P (handle_named p commands cmd vs s).1.state
  unfolding handle_named
  named-keeps commands cmd vs s all h = elim (Bool-cases (same cmd (codes "QUIT"))) [
    | inl quits ↦ rw quits h
    | inr runs ↦ elim (Option-cases (lookup cmd commands)) [
      | inl e ↦ rw (runs, e, handle_named) h
      | inr (handler, e) ↦ rw (runs, e, handle_named) ((all.at cmd handler e (values vs)).at s h).0
    ]
  ]

  interface-keeps :
      (commands : Commands App) (v : Value) (s : Session App)
      → Each (Safe P id stable) commands
      → P s.state
      → P (handle_interface p commands v s).1.state
  unfolding handle_interface
  interface-keeps commands (arr nil) s all h = elim (Option-cases (lookup [] commands)) [
    | inl e ↦ rw (e, handle_interface) h
    | inr (handler, e) ↦ rw (e, handle_interface) h
  ]
  interface-keeps commands (arr (cons (bytes b) vs)) s all h = named-keeps commands _ _ s all h
  interface-keeps commands (arr (cons (str b) vs)) s all h = named-keeps commands _ _ s all h
  interface-keeps commands (arr (cons v vs)) s all h = h
  interface-keeps commands v s all h = h

  module _ (per_second : ℤ → ℕ → ℕ → ℕ) (runtime : BroadcastServerStatus)
      (cfg : Configuration) where
    -- Whatever the client requests, the property is kept.
    pub request-keeps :
        (req : List Bytes) (s : Session App)
        → P s.state
        → P (handle_bulk p (context p per_second runtime cfg id).commands req s).1.state
    unfolding AllSafe
    request-keeps req s h =
        bulk-keeps (context p per_second runtime cfg id).commands req s
          (context-AllSafe P id stable p per_second runtime cfg) h

    pub value-keeps :
        (v : Value) (s : Session App)
        → P s.state
        → P (handle_interface p (context p per_second runtime cfg id).commands v s).1.state
    unfolding AllSafe
    value-keeps v s h =
        interface-keeps (context p per_second runtime cfg id).commands v s
          (context-AllSafe P id stable p per_second runtime cfg) h

-- ===== src/App/Delivers.antt =====
-- A client that has subscribed waits for a message, whatever the others do, and gets the next one.
use broadcast.Common.{ℕ, ◌≡◌, codes}
use broadcast.Common.Int.{ℤ}
use broadcast.Dict.{Dict}
use broadcast.Wire.{Platform}
use broadcast.Server.{BroadcastServerStatus}
use broadcast.Stats.Session.{Session}
use broadcast.PubSub
use broadcast.App.{App, Configuration}

module _ (p : Platform) (per_second : ℤ → ℕ → ℕ → ℕ) (runtime : BroadcastServerStatus)
    (cfg : Configuration) where
  -- The names of the commands are in capitals, which strings.ToUpper keeps.
  abbrev pub KeepsNames : Type 0
  KeepsNames =
      (p.upper (codes "SUBSCRIBE") ≡ codes "SUBSCRIBE")
      × (p.upper (codes "UNSUBSCRIBE") ≡ codes "UNSUBSCRIBE")
      × (p.upper (codes "PUBLISH") ≡ codes "PUBLISH")

-- ===== src/App/Table/Known.antt =====
-- The table of commands with some backends enabled, and that of the stats server.
use broadcast.Common.{
  ◌≡◌, refl, ◌∙◌, ap, none, true, ◌&&◌, ◌||◌, ◌⊎◌, List, [], ◌∷◌, map, arith, Bytes, codes, All,
  same, inl, inr, Bool-cases, if◌then◌else◌, ℕ,
}
use broadcast.Common.Int.{ℤ}
use broadcast.Dict.{lookup, has}
use broadcast.Dict.Keys.{among}
use broadcast.Wire.{Platform}
use broadcast.Server.{BroadcastServerStatus}
use broadcast.Server.Context.{BroadcastContext, new_broadcast_context}
use broadcast.Stats.Commands.{registrations}
use broadcast.App.{App, Configuration, context, stats_context}
use broadcast.App.Table.{register_all, find_last, Agree, register_all-Agree, swap-Agree}
use broadcast.App.Table.Backends.{
  are_apart, among-apart, find_last-absent, if-known, stats_entries, default_entries,
  pubsub_entries,
}

abbrev pub stats_names : List Bytes
stats_names = map (λ r. (r.0).name) registrations

abbrev pub default_names : List Bytes
default_names = codes "PING" ∷ codes "ECHO" ∷ codes "INFO" ∷ codes "CMDS" ∷ []

abbrev pub pubsub_names : List Bytes
pubsub_names = codes "PUBLISH" ∷ codes "SUBSCRIBE" ∷ codes "UNSUBSCRIBE" ∷ []

-- The names of the commands are in capitals: strings.ToUpper keeps them.
abbrev pub KeepsNames : Platform → Type 0
KeepsNames p =
    All (λ n. p.upper n ≡ n) stats_names
    × All (λ n. p.upper n ≡ n) default_names
    × All (λ n. p.upper n ≡ n) pubsub_names

stats_default_apart : are_apart stats_names default_names ≡ true
unfolding among same
stats_default_apart = refl

module _ (p : Platform) (per_second : ℤ → ℕ → ℕ → ℕ) (runtime : BroadcastServerStatus) where
  -- The server knows exactly the commands of the backends that are enabled.
  pub context-known :
      (cfg : Configuration) (id k : Bytes)
      → KeepsNames p
      → has k (context p per_second runtime cfg id).commands ≡ (
          (cfg.backend_pubsub && among k pubsub_names)
          || ((cfg.backend_stats && among k stats_names)
              || (cfg.backend_default && among k default_names)))
  unfolding context
  context-known cfg id k (us, ud, up) =
      let dflt = default_entries p per_second runtime in
      let stats = stats_entries p per_second runtime registrations in
      let pubsub = pubsub_entries p per_second runtime id in
      let none_yet : BroadcastContext App = new_broadcast_context in
      let one : BroadcastContext App =
        if cfg.backend_default then register_all p dflt none_yet else none_yet in
      let two : BroadcastContext App =
        if cfg.backend_stats then register_all p stats one else one in
      let first : has k one.commands ≡ (cfg.backend_default && among k default_names) =
        if-known p cfg.backend_default dflt none_yet k ud ∙ unfold has lookup in ground arith in
      if-known p cfg.backend_pubsub pubsub two k up
      ∙ ap (λ b. (cfg.backend_pubsub && among k pubsub_names) || b)
          (if-known p cfg.backend_stats stats one k us
            ∙ ap (λ b. (cfg.backend_stats && among k stats_names) || b) first)

  -- The stats server registers its backends in another order, but for each name its tables have the same
  -- handler and the same description as those of the server with all backends enabled.
  pub stats_context-Agree :
      (id k : Bytes)
      → KeepsNames p
      → Agree
          (context p per_second runtime
            (record { backend_default = true; backend_stats = true; backend_pubsub = true })
            id)
          (stats_context p per_second runtime id)
          k
  unfolding context stats_context
  stats_context-Agree id k (us, ud, up) =
      let stats = stats_entries p per_second runtime registrations in
      let dflt = default_entries p per_second runtime in
      let empty : BroadcastContext App = new_broadcast_context in
      let apart : (find_last p k dflt ≡ none) ⊎ (find_last p k stats ≡ none) =
        elim (Bool-cases (among k stats_names)) [
          | inl e ↦ inl (
              find_last-absent p dflt k ud
                (among-apart stats_names default_names k stats_default_apart e))
          | inr e ↦ inr (find_last-absent p stats k us e)
        ] in
      register_all-Agree p (pubsub_entries p per_second runtime id) _ _ k
        (swap-Agree p dflt stats empty k apart)

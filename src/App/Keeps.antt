-- ===== src/App/Keeps.antt =====
-- A request of a client keeps every property of the state that its backends keep.
use broadcast.Common.{◌++◌, ℕ, Bool, true, false, List, [], ◌∷◌, Bytes, if◌then◌else◌}
use broadcast.Common.Int.{ℤ}
use broadcast.Dict.{Dict, has}
use broadcast.Dict.Each.{Each, Each-nil, Each-insert}
use broadcast.Wire.{Platform}
use broadcast.Server.{BroadcastServerStatus, CommandInfo}
use broadcast.Server.Context.{BroadcastContext, new_broadcast_context, register_command}
use broadcast.Stats.Memory.{MemoryBackend}
use broadcast.Stats.Memory.Valid.{IsValid}
use broadcast.Stats.Metrics.{memory}
use broadcast.Stats.Session.{
  Data, args, bulk, ClientCall, flush, write_status, write_help, emit, ◌>>◌,
}
use broadcast.Stats.Session.Keeps.{
  Keeps, Anything, modify-Keeps, emit-Keeps, ask-Keeps, >>=-Keeps, zoom-Keeps,
}
use broadcast.Stats.Commands.{Command, run_command, registrations}
use broadcast.Stats.Commands.Keeps.Memory.{run_command-Keeps, memory-Laws}
use broadcast.PubSub
use broadcast.Default.{ping, info, help, echo}
use broadcast.Protocol.Request.{Handler}
use broadcast.App.{
  App, Configuration, subscribe, unsubscribe, publish, context, register_stats, register_default,
  register_pubsub, stats_handler,
}

-- What the backends may do to the state for the client at the address.
pub record Stable (P : App → Type 0) (id : Bytes) : Type 0 where
  pub well_formed : (app : App) → P app → IsValid app.memory
  pub stores :
      (mem : MemoryBackend) (app : App) → IsValid mem → P app → P (record app { memory = mem })
  pub subscribes :
      (d : List Bytes) (app : App)
      → P app
      → P (record app { topics = PubSub.subscribe id d app.topics })
  pub unsubscribes :
      (d : List Bytes) (app : App)
      → P app
      → P (record app { topics = PubSub.unsubscribe id d app.topics })
  pub publishes :
      (d : List Bytes) (app : App)
      → P app
      → let (sent, topics) = PubSub.publish (λ c. has c app.server.clients) d app.topics in
        P (record app { topics = topics; deliveries = app.deliveries ++ sent })

module _ (P : App → Type 0) (id : Bytes) (stable : Stable P id) where
  abbrev pub Safe : Handler App → Type 0
  Safe h = (d : Data) → Keeps P Anything (h d)

  unfoldable pub AllSafe : BroadcastContext App → Type 0
  AllSafe ctx = Each Safe ctx.commands

  subscribe-Safe : Safe (subscribe id)
  unfolding subscribe
  subscribe-Safe d = modify-Keeps P _ (λ app h. stable.subscribes (args d) app h)

  unsubscribe-Safe : Safe (unsubscribe id)
  unfolding unsubscribe
  unsubscribe-Safe d = modify-Keeps P _ (λ app h. stable.unsubscribes (args d) app h)

  publish-Safe : Safe (publish id)
  unfolding publish
  publish-Safe d = modify-Keeps P _ (λ app h. stable.publishes (args d) app h)

  one_call : (c : ClientCall) → Keeps P Anything (do emit c; emit flush)
  one_call c = >>=-Keeps P Anything Anything _ _ (emit-Keeps P c) (λ _ _. emit-Keeps P flush)

  ping-Safe : Safe ping
  unfolding ping
  ping-Safe d = one_call _

  info-Safe : (f : App → BroadcastServerStatus) → Safe (info f)
  unfolding info
  info-Safe f d =
      >>=-Keeps P Anything Anything _ _ (ask-Keeps P f) (λ s _. one_call (write_status s))

  help-Safe : (f : App → Dict CommandInfo) → Safe (help f)
  unfolding help
  help-Safe f d = >>=-Keeps P Anything Anything _ _ (ask-Keeps P f) (λ h _. one_call (write_help h))

  echo-Safe : Safe echo
  unfolding echo
  echo-Safe (Data.values []) = one_call _
  echo-Safe (Data.values (v ∷ [])) = one_call _
  echo-Safe (Data.values (v ∷ u ∷ vs)) = one_call _
  echo-Safe (bulk []) = one_call _
  echo-Safe (bulk (b ∷ [])) = one_call _
  echo-Safe (bulk (b ∷ c ∷ bs)) = one_call _

  module _ (p : Platform) (per_second : ℤ → ℕ → ℕ → ℕ) (runtime : BroadcastServerStatus) where
    stats-Safe : (c : Command) → Safe (stats_handler p per_second runtime c)
    stats-Safe c d =
        zoom-Keeps P IsValid Anything (λ app. app.memory) (λ mem app. record app { memory = mem })
          (run_command (memory per_second) c d) stable.well_formed
          (λ mem app v h. stable.stores mem app v h)
          (run_command-Keeps IsValid (memory per_second) (memory-Laws per_second) c d)

    register_command-AllSafe :
        (cmd : CommandInfo) (h : Handler App) (ctx : BroadcastContext App)
        → Safe h
        → AllSafe ctx
        → AllSafe (register_command p cmd h ctx)
    unfolding AllSafe register_command
    register_command-AllSafe cmd h ctx safe all =
        Each-insert (p.upper cmd.name) h ctx.commands safe all

    register_stats-AllSafe :
        (cs : List (CommandInfo × Command)) (ctx : BroadcastContext App)
        → AllSafe ctx
        → AllSafe (register_stats p per_second runtime cs ctx)
    register_stats-AllSafe [] ctx all = all
    register_stats-AllSafe ((cmd, c) ∷ cs) ctx all =
        register_stats-AllSafe cs _ (register_command-AllSafe cmd _ ctx (stats-Safe c) all)

    register_default-AllSafe :
        (ctx : BroadcastContext App)
        → AllSafe ctx
        → AllSafe (register_default p per_second runtime ctx)
    register_default-AllSafe ctx all = register_command-AllSafe _ _ _ (help-Safe _) (
        register_command-AllSafe _ _ _ (info-Safe _)
          (register_command-AllSafe _ _ _ echo-Safe (register_command-AllSafe _ _ _ ping-Safe all)))

    register_pubsub-AllSafe :
        (ctx : BroadcastContext App)
        → AllSafe ctx
        → AllSafe (register_pubsub p per_second runtime id ctx)
    register_pubsub-AllSafe ctx all = register_command-AllSafe _ _ _ unsubscribe-Safe (
        register_command-AllSafe _ _ _ subscribe-Safe
          (register_command-AllSafe _ _ _ publish-Safe all))

    if-AllSafe :
        (b : Bool) (c d : BroadcastContext App)
        → AllSafe c
        → AllSafe d
        → AllSafe (if b then c else d)
    if-AllSafe true c d h k = h
    if-AllSafe false c d h k = k

    pub context-AllSafe : (cfg : Configuration) → AllSafe (context p per_second runtime cfg id)
    unfolding context AllSafe
    context-AllSafe cfg =
        let none_yet : AllSafe new_broadcast_context = Each-nil in
        let one =
          if-AllSafe cfg.backend_default _ _
            (register_default-AllSafe new_broadcast_context none_yet) none_yet in
        let two =
          if-AllSafe cfg.backend_stats _ _ (register_stats-AllSafe registrations _ one) one in
        if-AllSafe cfg.backend_pubsub _ _ (register_pubsub-AllSafe _ two) two

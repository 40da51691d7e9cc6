-- ===== src/App/Table/Backends.antt =====
-- The commands of the backends, and what the server knows with some of them enabled.
use broadcast.Common.{
  ◌≡◌, refl, ◌∙◌, ap, none, Bool, true, false, not, ◌&&◌, ◌||◌, List, [], ◌∷◌, arith, Bytes, All,
  same, same_iff, if◌then◌else◌, ℕ,
}
use broadcast.Common.Int.{ℤ}
use broadcast.Dict.{has, has-insert}
use broadcast.Dict.Keys.{among}
use broadcast.Wire.{Platform}
use broadcast.Server.{BroadcastServerStatus, CommandInfo}
use broadcast.Server.Context.{BroadcastContext, register, register_help, register_command}
use broadcast.Protocol.Request
use broadcast.Protocol.Request.{Handler}
use broadcast.Stats.Commands.{Command, info}
use broadcast.Default
use broadcast.App.{
  App, subscribe, unsubscribe, publish, register_stats, register_default, register_pubsub,
  stats_handler, status,
}
use broadcast.App.Table.{Entry, names, register_all, find_last}

-- No name stands in both lists.
abbrev pub are_apart : List Bytes → List Bytes → Bool
are_apart [] ys = true
are_apart (x ∷ xs) ys = not (among x ys) && are_apart xs ys

pub among-apart :
    (xs ys : List Bytes) (k : Bytes)
    → are_apart xs ys ≡ true
    → among k xs ≡ true
    → among k ys ≡ false
unfolding among
among-apart [] ys k h e = cc
among-apart (x ∷ xs) ys k h e = ground (arith, same_iff x k, among-apart xs ys k)

module _ (p : Platform) where
  pub find_last-absent :
      (es : List Entry) (k : Bytes)
      → All (λ n. p.upper n ≡ n) (names es)
      → among k (names es) ≡ false
      → find_last p k es ≡ none
  unfolding among
  find_last-absent [] k u e = refl
  find_last-absent ((cmd, h) ∷ es) k (u, us) e =
      let later : find_last p k es ≡ none = find_last-absent es k us (ground arith) in
      let other : same cmd.name k ≡ false = ground arith in rw (later, u, other) refl

  has-register_command :
      (cmd : CommandInfo) (h : Handler App) (ctx : BroadcastContext App) (k : Bytes)
      → p.upper cmd.name ≡ cmd.name
      → has k (register_command p cmd h ctx).commands ≡ (same cmd.name k || has k ctx.commands)
  unfolding register_command register register_help Request.register
  has-register_command cmd h ctx k u =
      has-insert (p.upper cmd.name) k h ctx.commands
      ∙ ap (λ n. if same n k then true else has k ctx.commands) u
      ∙ ground arith

  has-register_all :
      (es : List Entry) (ctx : BroadcastContext App) (k : Bytes)
      → All (λ n. p.upper n ≡ n) (names es)
      → has k (register_all p es ctx).commands ≡ (among k (names es) || has k ctx.commands)
  unfolding among
  has-register_all [] ctx k u = refl
  has-register_all ((cmd, h) ∷ es) ctx k (u, us) =
      has-register_all es (register_command p cmd h ctx) k us
      ∙ ap (λ b. among k (names es) || b) (has-register_command cmd h ctx k u)
      ∙ ground arith

  pub if-known :
      (b : Bool) (es : List Entry) (ctx : BroadcastContext App) (k : Bytes)
      → All (λ n. p.upper n ≡ n) (names es)
      → has k (if b then register_all p es ctx else ctx).commands
        ≡ ((b && among k (names es)) || has k ctx.commands)
  if-known true es ctx k u = has-register_all es ctx k u
  if-known false es ctx k u = refl

module _ (p : Platform) (per_second : ℤ → ℕ → ℕ → ℕ) (runtime : BroadcastServerStatus) where
  -- The commands of the backends in the order of their registration
  abbrev pub stats_entries : List (CommandInfo × Command) → List Entry
  stats_entries [] = []
  stats_entries ((cmd, c) ∷ cs) = (cmd, stats_handler p per_second runtime c) ∷ stats_entries cs

  abbrev pub default_entries : List Entry
  default_entries =
      (info "PING" "Pings the server for a response" "" false, Default.ping)
      ∷ (info "ECHO" "Echos back a message sent" "ECHO \"hello world\"" false, Default.echo)
      ∷ (
        info "INFO" "Current server status and information" "" false,
        Default.info (status p per_second runtime),
      )
      ∷ (
        info "CMDS" "List of available commands supported by the server" "" false,
        Default.help (λ app. app.command_help),
      )
      ∷ []

  abbrev pub pubsub_entries : Bytes → List Entry
  pubsub_entries id =
      (
        info "PUBLISH" "Publishes to a specified topic given the data/arguments"
            "PUBLISH topic message" true,
        publish id,
      )
      ∷ (
        info "SUBSCRIBE" "Subscribes to a specified topic" "SUBSCRIBE topic [topic ...]" true,
        subscribe id,
      )
      ∷ (
        info "UNSUBSCRIBE" "Unsubscribes from a specified topic" "UNSUBSCRIBE topic [topic ...]"
            true,
        unsubscribe id,
      )
      ∷ []

  pub register_stats-all :
      (cs : List (CommandInfo × Command)) (ctx : BroadcastContext App)
      → register_stats p per_second runtime cs ctx ≡ register_all p (stats_entries cs) ctx
  register_stats-all [] ctx = refl
  register_stats-all ((cmd, c) ∷ cs) ctx = register_stats-all cs _

  register_default-all :
      (ctx : BroadcastContext App)
      → register_default p per_second runtime ctx ≡ register_all p default_entries ctx
  register_default-all ctx = refl

  register_pubsub-all :
      (id : Bytes) (ctx : BroadcastContext App)
      → register_pubsub p per_second runtime id ctx ≡ register_all p (pubsub_entries id) ctx
  register_pubsub-all id ctx = refl

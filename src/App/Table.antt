-- ===== src/App/Table.antt =====
-- Which commands the server knows: the table of handlers as main and RegisterBackend fill it.
pub mod Backends
pub mod Known
use broadcast.Common.{
  ◌≡◌, refl, sym, ◌∙◌, ap, Option, none, some, Bool, true, false, not, ◌&&◌, ◌||◌, List, [], ◌∷◌,
  ◌++◌, map, arith, Bytes, codes, All, same, same_iff, ◌⊎◌, inl, inr, Bool-cases, Option-cases,
  if◌then◌else◌, ℕ,
}
use broadcast.Common.Int.{ℤ}
use broadcast.Dict.{Dict, lookup, insert, has, lookup-insert}
use broadcast.Dict.Keys.{among}
use broadcast.Wire.{Platform}
use broadcast.Server.{BroadcastServerStatus, CommandInfo}
use broadcast.Server.Context.{
  BroadcastContext, new_broadcast_context, register, register_help, register_command,
}
use broadcast.Stats.Commands.{Command, registrations, info}
use broadcast.Default
use broadcast.Protocol.Request
use broadcast.Protocol.Request.{Handler}
use broadcast.App.{
  App, Configuration, subscribe, unsubscribe, publish, context, stats_context, register_stats,
  register_default, register_pubsub, stats_handler, status,
}

-- A command with its handler, as RegisterCommand takes them
abbrev pub Entry : Type 0
Entry = CommandInfo × Handler App

abbrev pub names : List Entry → List Bytes
names = map (λ e. (e.0).name)

-- Two tables that have the same for a name
pub record Agree (c d : BroadcastContext App) (k : Bytes) : Type 0 where
  pub handlers : lookup k c.commands ≡ lookup k d.commands
  pub infos : lookup k c.command_help ≡ lookup k d.command_help

module _ (p : Platform) where
  -- RegisterCommand for each of them, in order
  abbrev pub register_all : List Entry → BroadcastContext App → BroadcastContext App
  register_all [] ctx = ctx
  register_all ((cmd, h) ∷ es) ctx = register_all es (register_command p cmd h ctx)

  -- The last of the entries with this name
  abbrev pub find_last : Bytes → List Entry → Option Entry
  find_last k [] = none
  find_last k ((cmd, h) ∷ es) = elim (find_last k es) [
    | some e ↦ some e
    | none ↦ if same (p.upper cmd.name) k then some (cmd, h) else none
  ]

  abbrev pub or_handler : Option Entry → Option (Handler App) → Option (Handler App)
  or_handler (some e) o = some e.1
  or_handler none o = o

  abbrev pub or_info : Option Entry → Option CommandInfo → Option CommandInfo
  or_info (some e) o = some e.0
  or_info none o = o

  lookup-register_command :
      (cmd : CommandInfo) (h : Handler App) (ctx : BroadcastContext App) (k : Bytes)
      → (lookup k (register_command p cmd h ctx).commands
          ≡ (if same (p.upper cmd.name) k then some h else lookup k ctx.commands))
        × (lookup k (register_command p cmd h ctx).command_help
            ≡ (if same (p.upper cmd.name) k then some cmd else lookup k ctx.command_help))
  unfolding register_command register register_help Request.register
  lookup-register_command cmd h ctx k = (
    lookup-insert (p.upper cmd.name) k h ctx.commands,
    lookup-insert (p.upper cmd.name) k cmd ctx.command_help,
  )

  pub lookup-register_all :
      (es : List Entry) (ctx : BroadcastContext App) (k : Bytes)
      → (lookup k (register_all es ctx).commands
          ≡ or_handler (find_last k es) (lookup k ctx.commands))
        × (lookup k (register_all es ctx).command_help
            ≡ or_info (find_last k es) (lookup k ctx.command_help))
  lookup-register_all [] ctx k = (refl, refl)
  lookup-register_all ((cmd, h) ∷ es) ctx k =
      let (handlers, infos) = lookup-register_all es (register_command p cmd h ctx) k in
      let (found, told) = lookup-register_command cmd h ctx k in
      elim (Option-cases (find_last k es)) [
        | inr (e, f) ↦ (handlers ∙ rw f refl, infos ∙ rw f refl)
        | inl f ↦ elim (Bool-cases (same (p.upper cmd.name) k)) [
          | inl g ↦ (handlers ∙ rw (f, found, g) refl, infos ∙ rw (f, told, g) refl)
          | inr g ↦ (handlers ∙ rw (f, found, g) refl, infos ∙ rw (f, told, g) refl)
        ]
      ]

  pub register_all-Agree :
      (es : List Entry) (c d : BroadcastContext App) (k : Bytes)
      → Agree c d k
      → Agree (register_all es c) (register_all es d) k
  register_all-Agree es c d k a =
      let (ch, ci) = lookup-register_all es c k in
      let (dh, di) = lookup-register_all es d k in
      record {
        handlers = ch ∙ ap (or_handler (find_last k es)) a.handlers ∙ sym dh;
        infos = ci ∙ ap (or_info (find_last k es)) a.infos ∙ sym di;
      }

  -- Blocks of commands without a common name may be registered in either order.
  pub swap-Agree :
      (xs ys : List Entry) (c : BroadcastContext App) (k : Bytes)
      → (find_last k xs ≡ none) ⊎ (find_last k ys ≡ none)
      → Agree (register_all ys (register_all xs c)) (register_all xs (register_all ys c)) k
  swap-Agree xs ys c k apart =
      let (xh, xi) = lookup-register_all xs c k in
      let (yh, yi) = lookup-register_all ys c k in
      let (yxh, yxi) = lookup-register_all ys (register_all xs c) k in
      let (xyh, xyi) = lookup-register_all xs (register_all ys c) k in
      elim apart [
        | inl e ↦ record {
          handlers = yxh ∙ rw (xyh, xh, yh, e) refl;
          infos = yxi ∙ rw (xyi, xi, yi, e) refl;
        }
        | inr e ↦ record {
          handlers = rw (yxh, xyh, xh, yh, e) refl;
          infos = rw (yxi, xyi, xi, yi, e) refl;
        }
      ]

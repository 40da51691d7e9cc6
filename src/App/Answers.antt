-- ===== src/App/Answers.antt =====
-- What the handlers of the server send, against what the server announces of their commands.
use broadcast.Common.{
  ◌≡◌, refl, some, Bool, true, false, List, [], ◌∷◌, arith, Bytes, All, same, inl, inr, Bool-cases,
  if◌then◌else◌,
}
use broadcast.Common.Int.{ℤ}
use broadcast.Common.{ℕ}
use broadcast.Dict.{Dict, lookup, lookup-insert}
use broadcast.Wire.{Platform}
use broadcast.Server.{BroadcastServerStatus, CommandInfo}
use broadcast.Server.Context.{
  BroadcastContext, new_broadcast_context, register, register_help, register_command,
}
use broadcast.Stats.Metrics.{memory}
use broadcast.Stats.Session.{Data, bulk, Session, write_status, write_help}
use broadcast.Stats.Session.Answers.{
  Answers, HasSent, one_call-Answers, >>=-Answers, ask-IsQuiet, modify-IsQuiet, IsQuiet-Answers,
  zoom-Answers,
}
use broadcast.Stats.Commands.{Command, registrations}
use broadcast.Stats.Commands.Answers.{is_silent, run_command-Answers}
use broadcast.Default.{ping, info, help, echo}
use broadcast.Protocol.Request
use broadcast.Protocol.Request.{Handler}
use broadcast.App.{
  App, Configuration, subscribe, unsubscribe, publish, context, register_stats, register_default,
  register_pubsub, stats_handler,
}

abbrev pub AllAnswers : Bool → Handler App → Type 0
AllAnswers silent h = (d : Data) → Answers silent (h d)

-- A command with a handler is announced, and its handler makes no call only if it is announced as one that
-- is not waited for.
pub record IsTrue (ctx : BroadcastContext App) : Type 0 where
  pub at :
      (k : Bytes) (h : Handler App)
      → lookup k ctx.commands ≡ some h
      → (i : CommandInfo) × (lookup k ctx.command_help ≡ some i) × AllAnswers i.fire_forget h

subscribe-Answers : (id : Bytes) → AllAnswers true (subscribe id)
unfolding subscribe
subscribe-Answers id d = IsQuiet-Answers _ (modify-IsQuiet _)

unsubscribe-Answers : (id : Bytes) → AllAnswers true (unsubscribe id)
unfolding unsubscribe
unsubscribe-Answers id d = IsQuiet-Answers _ (modify-IsQuiet _)

publish-Answers : (id : Bytes) → AllAnswers true (publish id)
unfolding publish
publish-Answers id d = IsQuiet-Answers _ (modify-IsQuiet _)

ping-Answers : AllAnswers false ping
unfolding ping
ping-Answers d = one_call-Answers false _ refl

info-Answers : (f : App → BroadcastServerStatus) → AllAnswers false (info f)
unfolding info
info-Answers f d =
    >>=-Answers false _ _ (ask-IsQuiet f) (λ s. one_call-Answers false (write_status s) refl)

help-Answers : (f : App → Dict CommandInfo) → AllAnswers false (help f)
unfolding help
help-Answers f d =
    >>=-Answers false _ _ (ask-IsQuiet f) (λ h. one_call-Answers false (write_help h) refl)

echo-Answers : AllAnswers false echo
unfolding echo
echo-Answers (Data.values []) = one_call-Answers false _ refl
echo-Answers (Data.values (v ∷ [])) = one_call-Answers false _ refl
echo-Answers (Data.values (v ∷ u ∷ vs)) = one_call-Answers false _ refl
echo-Answers (bulk []) = one_call-Answers false _ refl
echo-Answers (bulk (b ∷ [])) = one_call-Answers false _ refl
echo-Answers (bulk (b ∷ c ∷ bs)) = one_call-Answers false _ refl

-- COUNT is the one command of the stats backend that is announced as not waited for.
silent-registrations : All (λ r. is_silent r.1 ≡ (r.0).fire_forget) registrations
silent-registrations = ground arith

module _ (p : Platform) (per_second : ℤ → ℕ → ℕ → ℕ) (runtime : BroadcastServerStatus) where
  register_command-IsTrue :
      (cmd : CommandInfo) (h : Handler App) (ctx : BroadcastContext App)
      → AllAnswers cmd.fire_forget h
      → IsTrue ctx
      → IsTrue (register_command p cmd h ctx)
  unfolding register_command register register_help Request.register
  register_command-IsTrue cmd h ctx a t = record {
    at = λ k g e. elim (Bool-cases (same (p.upper cmd.name) k)) [
      | inl f ↦
          let found = lookup-insert (p.upper cmd.name) k h ctx.commands in
          let told = lookup-insert (p.upper cmd.name) k cmd ctx.command_help in
          let g_is : g ≡ h = ground arith in (cmd, ground arith, rw g_is a)
      | inr f ↦
          let found = lookup-insert (p.upper cmd.name) k h ctx.commands in
          let told = lookup-insert (p.upper cmd.name) k cmd ctx.command_help in
          let (i, there, answers) = t.at k g (ground arith) in (i, ground arith, answers)
    ];
  }

  stats-Answers : (c : Command) → AllAnswers (is_silent c) (stats_handler p per_second runtime c)
  stats-Answers c d = zoom-Answers (is_silent c) _ _ _ (run_command-Answers (memory per_second) c d)

  register_stats-IsTrue :
      (cs : List (CommandInfo × Command)) (ctx : BroadcastContext App)
      → All (λ r. is_silent r.1 ≡ (r.0).fire_forget) cs
      → IsTrue ctx
      → IsTrue (register_stats p per_second runtime cs ctx)
  register_stats-IsTrue [] ctx e t = t
  register_stats-IsTrue ((cmd, c) ∷ cs) ctx (e, es) t =
      register_stats-IsTrue cs _ es
        (register_command-IsTrue cmd _ ctx (rw (← e) (stats-Answers c)) t)

  register_default-IsTrue :
      (ctx : BroadcastContext App) → IsTrue ctx → IsTrue (register_default p per_second runtime ctx)
  register_default-IsTrue ctx t = register_command-IsTrue _ _ _ (help-Answers _) (
      register_command-IsTrue _ _ _ (info-Answers _)
        (register_command-IsTrue _ _ _ echo-Answers (register_command-IsTrue _ _ _ ping-Answers t)))

  register_pubsub-IsTrue :
      (id : Bytes) (ctx : BroadcastContext App)
      → IsTrue ctx
      → IsTrue (register_pubsub p per_second runtime id ctx)
  register_pubsub-IsTrue id ctx t = register_command-IsTrue _ _ _ (unsubscribe-Answers id) (
      register_command-IsTrue _ _ _ (subscribe-Answers id)
        (register_command-IsTrue _ _ _ (publish-Answers id) t))

  if-IsTrue :
      (b : Bool) (c d : BroadcastContext App) → IsTrue c → IsTrue d → IsTrue (if b then c else d)
  if-IsTrue true c d h k = h
  if-IsTrue false c d h k = k

  pub context-IsTrue :
      (cfg : Configuration) (id : Bytes) → IsTrue (context p per_second runtime cfg id)
  unfolding context lookup
  context-IsTrue cfg id =
      let none_yet : IsTrue new_broadcast_context = record { at = λ k h e. cc } in
      let one =
        if-IsTrue cfg.backend_default _ _ (register_default-IsTrue new_broadcast_context none_yet)
          none_yet in
      let two =
        if-IsTrue cfg.backend_stats _ _
          (register_stats-IsTrue registrations _ silent-registrations one) one in
      if-IsTrue cfg.backend_pubsub _ _ (register_pubsub-IsTrue id _ two) two

  -- Every handler that the server has for a name, whatever backends are enabled, is announced under that
  -- name. On every request it returns nil after the calls of one reply on its client: a call that writes a
  -- value, or WriteLen and as many such calls as it announces, and then Flush; or, if the command is
  -- announced as one that is not waited for, it may make no call; or it fails and has made no call. The
  -- texts of the calls may be any, and what they put on the wire is not part of this.
  pub handler_as_announced :
      (cfg : Configuration) (id k : Bytes) (h : Handler App) (d : Data) (s : Session App)
      → lookup k (context p per_second runtime cfg id).commands ≡ some h
      → (i : CommandInfo) × (lookup k (context p per_second runtime cfg id).command_help ≡ some i)
        × HasSent i.fire_forget s (h d s)
  handler_as_announced cfg id k h d s e =
      let (i, there, answers) = (context-IsTrue cfg id).at k h e in (i, there, (answers d).at s)

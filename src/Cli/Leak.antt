-- ===== src/Cli/Leak.antt =====
-- What a session of commands that are not waited for leaves behind.
use broadcast.Common.{
  ℕ, suc, ◌+◌, ◌-◌, ◌≡◌, refl, ◌∙◌, ap, Option, none, some, Bool, true, false, List, [], ◌∷◌, arith,
  Bytes, All, Result, ok, err, panic, Error, length, inl, inr, Option-cases,
}
use broadcast.Wire.{Value, Platform}
use broadcast.Wire.Write.{Writer, status}
use broadcast.Client.{
  ProtocolClient, ClientConnection, Network, Client, do_async, connect, connect_if, dialled,
  kind_of, then_do, send, send_to, flushed, write_kind, client_do_async, get,
}
use broadcast.Client.Reuse.{do_async_drops}
use broadcast.Cli.Tokens.{find_all}
use broadcast.Cli.Help.{HelpCommand}
use broadcast.Cli.Action.{
  Action, action, nothing, show_help, show_cmds, listen, send_only, send_and_read,
}
use broadcast.Cli.Run.{running, run_action, ended, sent_only}
use broadcast.Cli.Session.{Cli, Terminal, show, handle_tokens, run_lines}

-- Does the line ask for a command that is not waited for?
unfoldable pub is_sent_only : Action → Bool
is_sent_only (send_only cmd args) = true
is_sent_only a = false

abbrev panics : {A : Type 0} → Result A → Bool
panics panic = true
panics r = false

flushed-returns :
    (x : Writer × Option Error) (n : ProtocolClient) (c : ClientConnection)
    → panics (flushed x n c).0 ≡ false
unfolding flushed
flushed-returns (w, some e) n c = refl
flushed-returns (w, none) n c = elim (Option-cases (status w)) [
  | inl e ↦ rw (panics, e) refl
  | inr (f, e) ↦ rw (panics, e) refl
]

module _ (p : Platform) (net : Network) (cmd : Bytes) (args : List Value) where
  dialled-returns :
      (d : Option (Writer × Bytes)) (c : ClientConnection)
      → panics (then_do (dialled d c) (send p cmd args)).0 ≡ false
  unfolding then_do dialled send send_to
  dialled-returns none c = refl
  dialled-returns (some (w, input)) c =
      let n : ProtocolClient = record { kind = kind_of c.bprotocol; writer = w; input = input } in
      flushed-returns (write_kind p n.kind cmd args w) n (dialled (some (w, input)) c).1

  connected-returns :
      (n : Option ProtocolClient) (c : ClientConnection)
      → c.net_client ≡ n
      → panics (then_do (connect_if net n c) (send p cmd args)).0 ≡ false
  unfolding then_do connect_if send send_to
  connected-returns none c e = dialled-returns (net c.id c.dials) c
  connected-returns (some n) c e =
      ap (λ m. panics (send_to p cmd args m c).0) e
      ∙ (flushed-returns (write_kind p n.kind cmd args n.writer) n c)

  -- DoAsync never panics.
  do_async-returns : (c : ClientConnection) → panics (do_async p net cmd args c).0 ≡ false
  unfolding do_async connect
  do_async-returns c = connected-returns c.net_client c refl

  client_do_async-returns :
      (client : Client) → panics (client_do_async p net cmd args client).0 ≡ false
  unfolding client_do_async
  client_do_async-returns client = do_async-returns (get client).0

sent_only-runs :
    (t : Terminal) (p : Platform) (r : Result (Unit {0}))
    → panics r ≡ false
    → (ended t.verbs t.decoder p (sent_only t.verbs t.decoder p r)).1 ≡ running
unfolding ended sent_only
sent_only-runs t p (ok u) h = refl
sent_only-runs t p (err e) h = refl
sent_only-runs t p panic h = cc

-- What so many calls of DoAsync do to the pool
pub record Leaked (n : ℕ) (before after : Client) : Type 0 where
  pub idle : length after.connections ≡ length before.connections - n
  pub allocated : after.created ≡ before.created + (n - length before.connections)

module _ (t : Terminal) (p : Platform) (net : Network) (now rounds : ℕ) where
  action-leaks :
      (act : Action) (help : List HelpCommand) (words : List Bytes) (client : Client)
      → is_sent_only act ≡ true
      → let x = run_action t.verbs t.decoder p net now rounds help words act client in
        (x.0.1 ≡ running) × Leaked 1 client x.1
  unfolding is_sent_only run_action
  action-leaks (send_only cmd args) help words client h =
      let (idle, allocated) = do_async_drops p net cmd args client in
      (
        sent_only-runs t p _ (client_do_async-returns p net cmd args client),
        record { idle = idle; allocated = allocated },
      )
  action-leaks nothing help words client h = cc
  action-leaks show_help help words client h = cc
  action-leaks show_cmds help words client h = cc
  action-leaks (listen cmd args) help words client h = cc
  action-leaks (send_and_read cmd args) help words client h = cc

  tokens-leak :
      (tokens : List Bytes) (cli : Cli)
      → is_sent_only (action p t.lower cli.help tokens) ≡ true
      → let x = handle_tokens t p net now rounds tokens cli in
        (x.1 ≡ running) × Leaked 1 cli.client x.0.client × (x.0.help ≡ cli.help)
  unfolding handle_tokens show action is_sent_only
  tokens-leak [] cli h = cc
  tokens-leak (name ∷ words) cli h =
      let act = action p t.lower cli.help (name ∷ words) in
      let (runs, leaked) = action-leaks act cli.help words cli.client h in (runs, leaked, refl)

  -- A session of commands that are not waited for, as the client has been told, ends in no panic, and each
  -- of them takes a connection out of the pool for ever: the idle ones first, and then as many new ones as
  -- there are lines left.
  pub session-leaks :
      (lines : List Bytes) (cli : Cli)
      → All (λ l. is_sent_only (action p t.lower cli.help (find_all l)) ≡ true) lines
      → let x = run_lines t p net now rounds lines cli in
        (x.1 ≡ running) × Leaked (length lines) cli.client x.0.client
  unfolding run_lines show
  session-leaks [] cli h = (refl, record { idle = omega arith; allocated = omega arith })
  session-leaks (l ∷ lines) cli (h, hs) =
      let (runs, first, told) = tokens-leak (find_all l) cli h in
      let next = (handle_tokens t p net now rounds (find_all l) cli).0 in
      let (ends, others) = session-leaks lines next (rw told hs) in
      let all : Leaked (suc (length lines)) cli.client
          (run_lines t p net now rounds lines next).0.client =
        record {
          idle = omega (arith, first.idle, others.idle);
          allocated = omega (arith, first.idle, first.allocated, others.allocated);
        } in
      rw (run_lines, runs) (ends, all)

-- ===== src/Cli/Run.antt =====
-- cmd/broadcast-cli/main.go: what the loop of main does with the tokens of a line, with the client library
-- and on the screen.
use broadcast.Common.{ℕ, zero, suc, List, [], ◌∷◌, ◌++◌, Bytes, Error, Result, ok, err, panic}
use broadcast.Wire.{
  Value, Items, Platform, null, str, bytes, error, json, int, float, byte, other, bool, arr, nil,
  cons,
}
use broadcast.Client.{
  ClientConnection, Network, Client, read, get, do_async, client_do, client_do_async,
}
use broadcast.Cli.Help.{HelpCommand, print_help, print_cmds}
use broadcast.Cli.Action.{Action, nothing, show_help, show_cmds, listen, send_only, send_and_read}
use broadcast.Cli.Print.{Reply, Elements, Fields, Verbs, print_reply}

-- Whether the program goes on, or has died of a panic.
pub data Ending : Type 0 where
  running crashed : Ending

-- The map that a JSON text decodes to, and err.Error().
pub record Decoder : Type 0 where
  pub decode : Bytes → Fields
  pub message : Error → Bytes

module _ (v : Verbs) (t : Decoder) where
  -- The type switch of printReply.
  unfoldable mutual
    pub shown : Value → Reply
    shown null = Reply.nothing_there
    shown (str s) = Reply.text s
    shown (bytes b) = Reply.raw b
    shown (error m) = Reply.failure m
    shown (json m) = Reply.object (t.decode m)
    shown (int n) = Reply.integer n
    shown (float x) = Reply.floating x
    shown (byte b) = Reply.other
    shown (other x) = Reply.other
    shown (bool b) = Reply.truth_value b
    shown (arr vs) = Reply.array (shown_items vs)

    pub shown_items : Items → Elements
    shown_items nil = Elements.no_elements
    shown_items (cons x xs) = Elements.element (shown x) (shown_items xs)

  -- if err != nil { fmt.Printf("%s", err.Error()) } else { printReply(cmd, reply, "") }
  unfoldable pub printed : Result Value → Bytes × Ending
  unfolding shown print_reply
  printed (ok x) = (print_reply v (shown x) [], running)
  printed (err e) = (t.message e, running)
  printed panic = ([], crashed)

  -- The next round of the loop for SUBSCRIBE, unless a Read has panicked.
  unfoldable pub listen_on :
      Result Value × ClientConnection → (ClientConnection → Bytes × Ending) → Bytes × Ending
  unfolding printed
  listen_on (panic, c) next = ([], crashed)
  listen_on (ok x, c) next = ((printed (ok x)).0 ++ (next c).0, (next c).1)
  listen_on (err e, c) next = ((printed (err e)).0 ++ (next c).0, (next c).1)

  module _ (p : Platform) where
    -- The loop for SUBSCRIBE, of so many rounds at most.
    unfoldable pub listen_within : ℕ → ClientConnection → Bytes × Ending
    unfolding listen_on read
    listen_within zero c = ([], running)
    listen_within (suc rounds) c = listen_on (read p c) (listen_within rounds)

    -- c.Get, DoAsync whose error is dropped, and the loop.
    unfoldable pub subscribed : ℕ → Result (Unit {0}) × ClientConnection → Bytes × Ending
    unfolding listen_within
    subscribed rounds (panic, c) = ([], crashed)
    subscribed rounds (ok tt, c) = listen_within rounds c
    subscribed rounds (err e, c) = listen_within rounds c

    -- What follows a line: a newline behind a command that was sent.
    unfoldable pub ended : Bytes × Ending → Bytes × Ending
    ended (out, running) = (out ++ 10 ∷ [], running)
    ended (out, crashed) = (out, crashed)

    -- c.DoAsync, whose error is dropped.
    unfoldable pub sent_only : Result (Unit {0}) → Bytes × Ending
    sent_only (ok tt) = ([], running)
    sent_only (err e) = ([], running)
    sent_only panic = ([], crashed)

    unfoldable pub listed : Result Bytes → Bytes × Ending
    listed (ok out) = (out, running)
    listed (err e) = ([], running)
    listed panic = ([], crashed)

    -- The branches of the loop of main, for the words of a line behind the first.
    unfoldable pub run_action :
        Network
        → ℕ
        → ℕ
        → List HelpCommand
        → List Bytes
        → Action
        → Client
        → (Bytes × Ending) × Client
    unfolding subscribed ended sent_only listed printed get do_async client_do client_do_async
        print_help print_cmds
    run_action net now rounds help words nothing client = (([], running), client)
    run_action net now rounds help words show_help client =
        ((print_help p help words, running), client)
    run_action net now rounds help words show_cmds client = (listed (print_cmds help), client)
    run_action net now rounds help words (listen cmd args) client =
        let (c, client') = get client in (subscribed rounds (do_async p net cmd args c), client')
    run_action net now rounds help words (send_only cmd args) client =
        let (r, client') = client_do_async p net cmd args client in (ended (sent_only r), client')
    run_action net now rounds help words (send_and_read cmd args) client =
        let (r, client') = client_do p net cmd args now client in (ended (printed r), client')

-- ===== src/Cli/Listen.antt =====
-- How the loop for SUBSCRIBE ends.
use broadcast.Common.{
  ℕ, zero, suc, ◌+◌, ◌<◌, ◌≤◌, ◌≡◌, refl, none, some, Option, List, [], ◌∷◌, arith, Bytes, length,
  Result, ok, err, panic,
}
use broadcast.Wire.{Value, Platform}
use broadcast.Wire.Fuel.{left}
use broadcast.Wire.Read.{read_interface}
use broadcast.Protocol.Total.{read_interface-Consumes}
use broadcast.Client.{
  ProtocolClient, ClientConnection, Network, Client, read_from, received, finalize, get, do_async,
}
use broadcast.Cli.Print.{Verbs}
use broadcast.Cli.Run.{Ending, crashed, Decoder, listen_on, listen_within, subscribed, run_action}
use broadcast.Cli.Action.{listen}
use broadcast.Cli.Help.{HelpCommand}

-- How many bytes a connection will still yield, and one more for the end of its input.
abbrev pub yields : Option ProtocolClient → ℕ
yields none = 0
yields (some n) = length n.input + 1

module _ (v : Verbs) (t : Decoder) (p : Platform) where
  received-crashes :
      (x : Result (Value × Bytes)) (n : ProtocolClient) (c : ClientConnection)
      (next : ClientConnection → Bytes × Ending) (bound : ℕ)
      → left x < bound
      → ((c' : ClientConnection) → yields c'.net_client ≤ bound → (next c').1 ≡ crashed)
      → (listen_on v t (received x n c) next).1 ≡ crashed
  unfolding listen_on received finalize
  received-crashes (ok (x, rest)) n c next bound l h = h _ (omega arith)
  received-crashes (err e) n c next bound l h = h _ (omega arith)
  received-crashes panic n c next bound l h = refl

  -- At the end of the input the connection is given up, and the next Read panics.
  input-crashes :
      (input : Bytes) (n : ProtocolClient) (c : ClientConnection)
      (next : ClientConnection → Bytes × Ending)
      → ((c' : ClientConnection) → yields c'.net_client ≤ length input → (next c').1 ≡ crashed)
      → (listen_on v t (received (read_interface p input) n c) next).1 ≡ crashed
  input-crashes [] n c next h =
      rw (read_interface-Consumes p).ends (unfold listen_on received finalize in h _ (omega arith))
  input-crashes (b ∷ input) n c next h =
      received-crashes (read_interface p (b ∷ input)) n c next (length (b ∷ input))
        (let l = (read_interface-Consumes p).shrinks (b ∷ input) in omega arith) h

  from-crashes :
      (rounds : ℕ) (m : Option ProtocolClient) (c : ClientConnection)
      → ((c' : ClientConnection)
          → yields c'.net_client < rounds
          → (listen_within v t p rounds c').1 ≡ crashed)
      → yields m < suc rounds
      → (listen_on v t (read_from p m c) (listen_within v t p rounds)).1 ≡ crashed
  unfolding read_from
  from-crashes rounds none c h l = unfold listen_on in refl
  from-crashes rounds (some n) c h l =
      input-crashes n.input n c (listen_within v t p rounds) λ c' k. h c' (omega arith)

  listen-crashes :
      (rounds : ℕ) (c : ClientConnection)
      → yields c.net_client < rounds
      → (listen_within v t p rounds c).1 ≡ crashed
  unfolding listen_within
  listen-crashes zero c l = absurd (omega arith)
  listen-crashes (suc rounds) c l = from-crashes rounds c.net_client c (listen-crashes rounds) l

  subscribed-crashes :
      (rounds : ℕ) (x : Result (Unit {0}) × ClientConnection)
      → yields x.1.net_client < rounds
      → (subscribed v t p rounds x).1 ≡ crashed
  unfolding subscribed
  subscribed-crashes rounds (ok tt, c) l = listen-crashes rounds c l
  subscribed-crashes rounds (err e, c) l = listen-crashes rounds c l
  subscribed-crashes rounds (panic, c) l = refl

  -- A SUBSCRIBE of the command line client ends in a panic and in nothing else: when the connection that
  -- it uses will yield finitely many bytes, the program has died of a panic after two rounds of its loop
  -- more than these are, or fewer.
  pub subscribe_crashes :
      (net : Network) (now rounds : ℕ) (help : List HelpCommand) (words : List Bytes) (cmd : Bytes)
      (args : List Value) (client : Client)
      → yields (do_async p net cmd args (get client).0).1.net_client < rounds
      → (run_action v t p net now rounds help words (listen cmd args) client).0.1 ≡ crashed
  unfolding run_action
  subscribe_crashes net now rounds help words cmd args client l =
      subscribed-crashes rounds (do_async p net cmd args (get client).0) l

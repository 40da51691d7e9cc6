-- ===== src/Server/Life/Count.antt =====
-- The count of the clients over the life of a server, and every outcome of its Close.
use broadcast.Common.{
  ℕ, ◌≡◌, refl, sym, ◌∙◌, ap, true, false, List, [], ◌∷◌, ◌++◌, Bytes, Result, ok, err, panic,
  ◌>>=◌, length, inl, inr, Bool-cases, if◌then◌else◌,
}
use broadcast.Common.Int.{ℤ, pos, ◌-ℤ◌}
use broadcast.Server.Close.{sub-zero}
use broadcast.Server.Life.{
  Life, Backend, returned, plain, stats, load, load_backend, accept_connections, listen_protocol,
  close,
}
use broadcast.Server.Life.Steps.{
  Step, Steps, done, and_then, Reachable, listening, loading, serving, going,
}
use broadcast.Server.Life.Closing.{AllLoaded, IsLoaded, any_ended, closed_life, close-open}
use broadcast.Server.Life.Clients.{length-shut_all}
use broadcast.Server.Life.Sane.{IsSane, IsLess, loop-Kept, ok-same, Step-cases, closed_life-IsSane}

AllLoaded-append :
    (bs : List Backend) (b : Backend) → AllLoaded bs → IsLoaded b → AllLoaded (bs ++ b ∷ [])
AllLoaded-append [] b hs h = (h, tt)
AllLoaded-append (c ∷ bs) b (hc, hs) h = (hc, AllLoaded-append bs b hs h)

load-IsLoaded : (b : Backend) → IsLoaded (load b)
unfolding load
load-IsLoaded plain = tt
load-IsLoaded (stats b) = refl

bound :
    {A B : Type 0} (r : Result A) (next : A → Result B) (b : B)
    → (r >>= next) ≡ ok b
    → (a : A) × (next a ≡ ok b)
bound (ok a) next b e = (a, e)
bound (err f) next b e = cc
bound panic next b e = cc

-- A server that is listening counts its clients right.
record IsCounted (life : Life) : Type 0 where
  sane : IsSane life
  counted : life.server.is_closed ≡ false → IsLess 0 life

-- What ListenProtocol returns.
abbrev pub first_life : Bytes → Bytes → Life
first_life addr protocol = record {
  server = record { clients = []; client_size = pos 0; is_closed = false };
  addr = addr;
  protocol = protocol;
  backends = [];
  listener_open = true;
  quit_open = true;
  accepting = returned;
  events = [];
}

first-IsCounted : (addr protocol : Bytes) → IsCounted (first_life addr protocol)
unfolding ◌-ℤ◌
first-IsCounted addr protocol = record {
  sane = record { distinct = tt; twins = tt; loaded = λ e. tt; quit = λ e. refl };
  counted = λ e. refl;
}

listening-IsCounted :
    {A : Type 0} (resolve : Bytes → Result A) (listen_tcp : A → Result (Unit {0})) (port : ℤ)
    (host protocol : Bytes) (life : Life)
    → listen_protocol resolve listen_tcp port host protocol ≡ ok life
    → IsCounted life
unfolding listen_protocol
listening-IsCounted resolve listen_tcp port host protocol life e =
    let (a, f) = bound (resolve _) _ life e in
    let (u, g) = bound (listen_tcp a) _ life f in rw (ok-same (sym g)) (first-IsCounted _ protocol)

Step-IsCounted : {life life' : Life} → IsCounted life → Step life life' → IsCounted life'
Step-IsCounted {life} {life'} h s = elim (Step-cases h.sane s) [
  | inl k ↦ record { sane = k.sane; counted = λ e. k.less 0 (h.counted (sym k.same_state ∙ e)) }
  | inr (e, p) ↦ rw p (record { sane = closed_life-IsSane life h.sane; counted = λ f. cc })
]

Reachable-IsCounted :
    {A : Type 0} {resolve : Bytes → Result A} {listen_tcp : A → Result (Unit {0})} {life : Life}
    → Reachable resolve listen_tcp life
    → IsCounted life
unfolding load_backend accept_connections
Reachable-IsCounted {resolve} {listen_tcp} (listening port host protocol {life} e) =
    listening-IsCounted resolve listen_tcp port host protocol life e
Reachable-IsCounted (loading b {life} r still) =
    let h = Reachable-IsCounted r in
    record {
      sane = record {
        distinct = h.sane.distinct;
        twins = h.sane.twins;
        loaded = λ e. AllLoaded-append life.backends (load b) (h.sane.loaded e) (load-IsLoaded b);
        quit = h.sane.quit;
      };
      counted = h.counted;
    }
Reachable-IsCounted (serving {life} r e) =
    let h = Reachable-IsCounted r in
    let k =
      loop-Kept life (accept_connections life).accepting (accept_connections life).events h.sane in
    record { sane = k.sane; counted = h.counted }
Reachable-IsCounted (going r s) = Step-IsCounted (Reachable-IsCounted r) s

-- A closed server stays closed, and its count keeps its distance from the number of clients.
pub record IsShut (gone : ℕ) (life : Life) : Type 0 where
  pub sane : IsSane life
  pub closed : life.server.is_closed ≡ true
  pub quit : life.quit_open ≡ false
  pub less : IsLess gone life

pub Steps-IsShut :
    {gone : ℕ} {life later : Life} → IsShut gone life → Steps life later → IsShut gone later
Steps-IsShut h done = h
Steps-IsShut {gone} {life} {later} h (and_then {life'} ss s) =
    let i = Steps-IsShut h ss in
    elim (Step-cases i.sane s) [
      | inl k ↦ record {
        sane = k.sane;
        closed = k.same_state ∙ i.closed;
        quit = k.same_quit ∙ i.quit;
        less = k.less gone i.less;
      }
      | inr (e, p) ↦ let q : later ≡ life' = cc in rw q i
    ]

-- A server that is listening counts its clients right, whatever they and the loop of AcceptConnections have
-- done. Its Close panics exactly when a client has ended whose exit the server has not handled yet.
-- Otherwise it closes every client, takes their number off the count, unloads every backend, closes the
-- listener and the channel Quit, and sends one event.
pub close-outcome :
    {A : Type 0} (resolve : Bytes → Result A) (listen_tcp : A → Result (Unit {0})) (life : Life)
    → Reachable resolve listen_tcp life
    → life.server.is_closed ≡ false
    → (life.server.client_size ≡ pos (length life.server.clients))
      × (close life ≡ (if any_ended life.server.clients then panic else ok (closed_life life)))
close-outcome resolve listen_tcp life r e =
    let h = Reachable-IsCounted r in
    (
      h.counted e ∙ sub-zero (pos (length life.server.clients)),
      close-open life (record {
        serving = e;
        twins = h.sane.twins;
        loaded = h.sane.loaded e;
        quit = h.sane.quit e;
      }),
    )

pub closed_life-IsShut :
    {A : Type 0} (resolve : Bytes → Result A) (listen_tcp : A → Result (Unit {0})) (life : Life)
    → Reachable resolve listen_tcp life
    → life.server.is_closed ≡ false
    → IsShut (length life.server.clients) (closed_life life)
closed_life-IsShut resolve listen_tcp life r e =
    let n = length life.server.clients in
    let (counted, shape) = close-outcome resolve listen_tcp life r e in
    record {
      sane = closed_life-IsSane life (Reachable-IsCounted r).sane;
      closed = refl;
      quit = refl;
      less =
          ap (λ (z : ℤ). z -ℤ pos n) counted
          ∙ ap (λ (m : ℕ). pos m -ℤ pos n) (sym (length-shut_all life.server.clients));
    }

pub quit-open :
    {A : Type 0} (resolve : Bytes → Result A) (listen_tcp : A → Result (Unit {0})) (life : Life)
    → Reachable resolve listen_tcp life
    → life.server.is_closed ≡ false
    → life.quit_open ≡ true
quit-open resolve listen_tcp life r e = (Reachable-IsCounted r).sane.quit e

-- After a Close that does not panic, of a server that was listening, whatever happens then, the count is
-- lower than the number of the clients by the number of those at the time of the Close: each of these is
-- counted down twice.
pub count_over_life :
    {A : Type 0} (resolve : Bytes → Result A) (listen_tcp : A → Result (Unit {0}))
    (life life' later : Life)
    → Reachable resolve listen_tcp life
    → life.server.is_closed ≡ false
    → close life ≡ ok life'
    → Steps life' later
    → later.server.client_size
      ≡ pos (length later.server.clients) -ℤ pos (length life.server.clients)
count_over_life resolve listen_tcp life life' later r e run ss =
    let n = length life.server.clients in
    let (counted, shape) = close-outcome resolve listen_tcp life r e in
    elim (Bool-cases (any_ended life.server.clients)) [
      | inl f ↦ let dies : close life ≡ panic = rw (shape, f) refl in cc
      | inr f ↦
          let closes : close life ≡ ok (closed_life life) = rw (shape, f) refl in
          let p : life' ≡ closed_life life = ok-same (sym run ∙ closes) in
          let behind : IsShut n life' = rw p (closed_life-IsShut resolve listen_tcp life r e) in
          (Steps-IsShut behind ss).less
    ]

-- ===== src/Server/Life/Gone.antt =====
-- After Close the clients that were connected stay closed.
use broadcast.Common.{
  ℕ, [], ◌∷◌, ◌≡◌, refl, sym, ◌∙◌, Bool, true, false, none, some, Bytes, ok, panic, same, inl, inr,
  Bool-cases, Option-cases, if◌then◌else◌, Option, ap,
}
use broadcast.Dict.{Dict, lookup, lookup-insert, lookup-remove}
use broadcast.Server.{NetworkClient, new_client, accept, exited}
use broadcast.Server.Life.{
  Life, Accepting, checking, waiting, handed, returned, check, accept_tcp, handle_connection,
  end_client, close,
}
use broadcast.Server.Life.Steps.{
  Step, Steps, done, and_then, looping, arriving, refusing, handling, ending, exiting, closing,
}
use broadcast.Server.Life.Closing.{shut, close_client-twin, closed_life, shut_all}
use broadcast.Server.Life.Clients.{lookup-IsTwin}
use broadcast.Server.Life.Sane.{IsSane, end_client-shut, ok-same}
use broadcast.Server.Life.Count.{IsShut, Steps-IsShut}

-- Is the loop of AcceptConnections about to add a client at the address?
abbrev pub is_handed : Bytes → Accepting → Bool
is_handed id checking = false
is_handed id waiting = false
is_handed id returned = false
is_handed id (handed j) = same j id

abbrev is_up : Option NetworkClient → Bool
is_up none = false
is_up (some c) = c.quit_open

record IsGone (id : Bytes) (life : Life) : Type 0 where
  pub closed_listener : life.listener_open ≡ false
  pub not_handed : is_handed id life.accepting ≡ false
  pub down : is_up (lookup id life.server.clients) ≡ false

check-not_handed : (id : Bytes) (life : Life) → is_handed id (check life).accepting ≡ false
unfolding check
check-not_handed id life = elim (Bool-cases life.server.is_closed) [
  | inl e ↦ rw e refl
  | inr e ↦ rw e refl
]

is_up-if :
    (b : Bool) (new old : Option NetworkClient)
    → is_up new ≡ false
    → is_up old ≡ false
    → is_up (if b then new else old) ≡ false
is_up-if true new old h k = h
is_up-if false new old h k = k

Step-IsGone :
    (id : Bytes) {life life' : Life}
    → IsSane life
    → life.server.is_closed ≡ true
    → Step life life'
    → IsGone id life
    → IsGone id life'
unfolding accept_tcp handle_connection accept exited close check
Step-IsGone id {life} s c (looping e) h = record {
  closed_listener = h.closed_listener;
  not_handed = check-not_handed id life;
  down = h.down;
}
Step-IsGone id s c (arriving j e o) h = let l = h.closed_listener in cc
Step-IsGone id s c (refusing x e) h = record {
  closed_listener = h.closed_listener;
  not_handed = refl;
  down = h.down;
}
Step-IsGone id {life} s c (handling none j e new) h =
    let other : same j id ≡ false = ap (is_handed id) (sym e) ∙ h.not_handed in
    record {
      closed_listener = h.closed_listener;
      not_handed = refl;
      down = rw (lookup-insert j id new_client life.server.clients, other) h.down;
    }
Step-IsGone id s c (handling (some x) j e new) h = record {
  closed_listener = h.closed_listener;
  not_handed = refl;
  down = h.down;
}
Step-IsGone id {life} s c (ending j {life'} run) h =
    let (x, there, p) = end_client-shut j life life' run s in
    rw p (record {
      closed_listener = h.closed_listener;
      not_handed = h.not_handed;
      down =
          rw (lookup-insert j id (shut x) life.server.clients)
            (is_up-if (same j id) (some (shut x)) _ refl h.down);
    })
Step-IsGone id {life} s c (exiting j x there gone) h = record {
  closed_listener = h.closed_listener;
  not_handed = h.not_handed;
  down = rw (lookup-remove j id life.server.clients) (is_up-if (same j id) none _ refl h.down);
}
Step-IsGone id {life} s c (closing {life'} run) h =
    let again : close life ≡ ok life = rw c refl in
    let p : life' ≡ life = ok-same (sym run ∙ again) in rw p h

Steps-IsGone :
    {gone : ℕ} (id : Bytes) {life later : Life}
    → IsShut gone life
    → Steps life later
    → IsGone id life
    → IsGone id later
Steps-IsGone id h done g = g
Steps-IsGone id h (and_then ss s) g =
    let i = Steps-IsShut h ss in Step-IsGone id i.sane i.closed s (Steps-IsGone id h ss g)

gone-panics : (id : Bytes) (life : Life) → IsSane life → IsGone id life → end_client id life ≡ panic
unfolding end_client
gone-panics id life s h = elim (Option-cases (lookup id life.server.clients)) [
  | inl e ↦ rw (e, end_client) refl
  | inr (c, e) ↦
      let twin = close_client-twin c (lookup-IsTwin id c life.server.clients s.twins e) in
      let d : c.quit_open ≡ false = sym (ap is_up e) ∙ h.down in rw (end_client, e, twin, d) refl
]

shut_all-down : (id : Bytes) (d : Dict NetworkClient) → is_up (lookup id (shut_all d)) ≡ false
unfolding lookup
shut_all-down id [] = refl
shut_all-down id ((j, c) ∷ d) = is_up-if (same j id) (some (shut c)) _ refl (shut_all-down id d)

-- In every state after Close the end of the RunClient of a client that was connected panics.
pub end_client-panics :
    {gone : ℕ} (id : Bytes) (life : Life) {later : Life}
    → IsShut gone (closed_life life)
    → is_handed id life.accepting ≡ false
    → Steps (closed_life life) later
    → end_client id later ≡ panic
end_client-panics id life {later} h e ss =
    let start : IsGone id (closed_life life) = record {
      closed_listener = refl;
      not_handed = e;
      down = shut_all-down id life.server.clients;
    } in
    gone-panics id later (Steps-IsShut h ss).sane (Steps-IsGone id h ss start)

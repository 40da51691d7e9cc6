-- ===== src/App/Waiting.antt =====
-- A client that is subscribed stays so, whatever the others do.
use broadcast.Common.{ℕ, ◌≡◌, true, false, List, [], ◌∷◌, Bytes, arith, same}
use broadcast.Common.Int.{ℤ}
use broadcast.Dict.{has, has-insert, has-remove}
use broadcast.Wire.{Platform}
use broadcast.Server.{BroadcastServerStatus, accept, exited, new_client}
use broadcast.Stats.Memory.Invariant.Methods.{flush_counters-IsValid}
use broadcast.PubSub
use broadcast.PubSub.Members.{is_subscribed, subscribe_members, unsubscribe_members}
use broadcast.PubSub.Reach.{publish_delivers}
use broadcast.App.{App, Configuration}
use broadcast.App.Keeps.{Stable}
use broadcast.App.Requests.{request-keeps, value-keeps}
use broadcast.App.Invariant.{
  IsSound, IsSound-Stable, Step, accepting, exiting, requesting, requesting_value, ticking,
}

-- The client is connected and subscribed to the topic.
pub record IsWaiting (key a : Bytes) (app : App) : Type 0 where
  pub sound : IsSound app
  pub subscribed : is_subscribed app.topics key a ≡ true
  pub connected : has a app.server.clients ≡ true

module _ (key a id : Bytes) (other : same id a ≡ false) where
  unsubscribed :
      (d : List Bytes) (app : App)
      → IsWaiting key a app
      → is_subscribed (PubSub.unsubscribe id d app.topics) key a ≡ true
  unsubscribed d app h =
      let s = h.subscribed in ground (arith, unsubscribe_members id key a d app.topics)

  published :
      (d : List Bytes) (app : App)
      → IsWaiting key a app
      → is_subscribed (PubSub.publish (λ c. has c app.server.clients) d app.topics).1 key a ≡ true
  unfolding PubSub.publish
  published [] app h = h.subscribed
  published (k ∷ []) app h = h.subscribed
  published (k ∷ m ∷ d) app h =
      let s = h.subscribed in
      let c = h.connected in
      let kept = (publish_delivers (λ c. has c app.server.clients) k m d a key h.sound.topics).1 in
      ground (arith, kept)

  IsWaiting-Stable : Stable (IsWaiting key a) id
  IsWaiting-Stable =
      let stable = IsSound-Stable id in
      record {
        well_formed = λ app h. h.sound.memory;
        stores = λ mem app v h. record {
          sound = stable.stores mem app v h.sound;
          subscribed = h.subscribed;
          connected = h.connected;
        };
        subscribes = λ d app h. record {
          sound = stable.subscribes d app h.sound;
          subscribed =
              let s = h.subscribed in ground (arith, subscribe_members id key a d app.topics);
          connected = h.connected;
        };
        unsubscribes = λ d app h. record {
          sound = stable.unsubscribes d app h.sound;
          subscribed = unsubscribed d app h;
          connected = h.connected;
        };
        publishes = λ d app h. record {
          sound = stable.publishes d app h.sound;
          subscribed = published d app h;
          connected = h.connected;
        };
      }

-- A step that is neither the exit of the client nor one of its requests.
abbrev pub IsOthers :
    {p : Platform} {per_second : ℤ → ℕ → ℕ → ℕ} {runtime : BroadcastServerStatus}
    {cfg : Configuration} {app app' : App}
    → Bytes
    → Step p per_second runtime cfg app app'
    → Type 0
IsOthers a (accepting id) = Unit
IsOthers a (exiting id) = same id a ≡ false
IsOthers a (requesting id req calls) = same id a ≡ false
IsOthers a (requesting_value id v calls) = same id a ≡ false
IsOthers a (ticking now) = Unit

module _ (p : Platform) (per_second : ℤ → ℕ → ℕ → ℕ) (runtime : BroadcastServerStatus)
    (cfg : Configuration) where
  -- Steps of others, one after the other.
  pub data Others (a : Bytes) (app : App) : App → Type 0 where
    stay : Others a app app
    go_on :
        {app' app'' : App}
        → Others a app app'
        → (s : Step p per_second runtime cfg app' app'') → IsOthers a s
        → Others a app app''

  Step-IsWaiting :
      (key a : Bytes) {app app' : App} (s : Step p per_second runtime cfg app app')
      → IsOthers a s
      → IsWaiting key a app
      → IsWaiting key a app'
  unfolding accept exited
  Step-IsWaiting key a {app} (accepting id) o h = record {
    sound = record { memory = h.sound.memory; topics = h.sound.topics };
    subscribed = h.subscribed;
    connected =
        let c = h.connected in ground (arith, has-insert id a new_client app.server.clients);
  }
  Step-IsWaiting key a {app} (exiting id) o h = record {
    sound = record { memory = h.sound.memory; topics = h.sound.topics };
    subscribed = h.subscribed;
    connected = let c = h.connected in ground (arith, has-remove id a app.server.clients);
  }
  Step-IsWaiting key a {app} (requesting id req calls) o h =
      request-keeps (IsWaiting key a) id (IsWaiting-Stable key a id o) p per_second runtime cfg req
        (record { state = app; calls = calls }) h
  Step-IsWaiting key a {app} (requesting_value id v calls) o h =
      value-keeps (IsWaiting key a) id (IsWaiting-Stable key a id o) p per_second runtime cfg v
        (record { state = app; calls = calls }) h
  Step-IsWaiting key a {app} (ticking now) o h = record {
    sound = record {
      memory = flush_counters-IsValid per_second now h.sound.memory;
      topics = h.sound.topics;
    };
    subscribed = h.subscribed;
    connected = h.connected;
  }

  pub Others-IsWaiting :
      (key a : Bytes) {app app' : App}
      → Others a app app'
      → IsWaiting key a app
      → IsWaiting key a app'
  Others-IsWaiting key a stay h = h
  Others-IsWaiting key a (go_on os s o) h = Step-IsWaiting key a s o (Others-IsWaiting key a os h)

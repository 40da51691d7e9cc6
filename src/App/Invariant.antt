-- ===== src/App/Invariant.antt =====
-- Requests of any clients in any order, interleaved with connects, exits and the timer.
use broadcast.Common.{ℕ, false, List, [], Bytes}
use broadcast.Common.Int.{ℤ, pos}
use broadcast.Dict.{has}
use broadcast.Wire.{Platform, Value}
use broadcast.Server.{BroadcastServerStatus, accept, exited}
use broadcast.Stats.Memory.{new_memory_backend, flush_counters}
use broadcast.Stats.Memory.Valid.{IsValid}
use broadcast.Stats.Memory.Invariant.{new_memory_backend-IsValid}
use broadcast.Stats.Memory.Invariant.Methods.{flush_counters-IsValid}
use broadcast.Stats.Session.{ClientCall, Session}
use broadcast.PubSub.Reach
use broadcast.PubSub.Reach.{subscribing, unsubscribing, publishing}
use broadcast.Protocol.Request.{handle_bulk, handle_interface}
use broadcast.App.{App, Configuration, context}
use broadcast.App.Keeps.{Stable}
use broadcast.App.Requests.{request-keeps, value-keeps}

-- The memory backend is well-formed, and the topics are a state that the handlers reach.
pub record IsSound (app : App) : Type 0 where
  pub memory : IsValid app.memory
  pub topics : Reach.Reach app.topics

pub IsSound-Stable : (id : Bytes) → Stable IsSound id
IsSound-Stable id = record {
  well_formed = λ app h. h.memory;
  stores = λ mem app v h. record { memory = v; topics = h.topics };
  subscribes =
      λ d app h. record { memory = h.memory; topics = Reach.next h.topics (subscribing id d) };
  unsubscribes =
      λ d app h. record { memory = h.memory; topics = Reach.next h.topics (unsubscribing id d) };
  publishes = λ d app h. record {
    memory = h.memory;
    topics = Reach.next h.topics (publishing (λ c. has c app.server.clients) d);
  };
}

module _ (p : Platform) (per_second : ℤ → ℕ → ℕ → ℕ) (runtime : BroadcastServerStatus)
    (cfg : Configuration) where
  -- The state when main has set the server up.
  abbrev pub initial : ℕ → App
  initial now = record {
    memory = new_memory_backend now;
    topics = [];
    server = record { clients = []; client_size = pos 0; is_closed = false };
    command_help = (context p per_second runtime cfg []).command_help;
    deliveries = [];
  }

  -- The state behind a request of the client at the address.
  abbrev pub after_request : Bytes → List Bytes → Session App → App
  after_request id req s =
      (handle_bulk p (context p per_second runtime cfg id).commands req s).1.state

  -- The same for a request under the default protocol.
  abbrev pub after_value : Bytes → Value → Session App → App
  after_value id v s =
      (handle_interface p (context p per_second runtime cfg id).commands v s).1.state

  -- One atomic action: a connection is accepted, a client exits, a request is handled (under the redis or
  -- the line protocol, or under the default protocol), or the timer of StatsBackend.Load fires.
  pub data Step (app : App) : App → Type 0 where
    accepting : (id : Bytes) → Step app (record app { server = accept id app.server })
    exiting : (id : Bytes) → Step app (record app { server = exited id app.server })
    requesting :
        (id : Bytes) (req : List Bytes) (calls : List ClientCall)
        → Step app (after_request id req (record { state = app; calls = calls }))
    requesting_value :
        (id : Bytes) (v : Value) (calls : List ClientCall)
        → Step app (after_value id v (record { state = app; calls = calls }))
    ticking :
        (now : ℕ) → Step app (record app { memory = (flush_counters per_second now app.memory).1 })

  pub data Reachable : App → Type 0 where
    started : (now : ℕ) → Reachable (initial now)
    then_step : {app app' : App} → Reachable app → Step app app' → Reachable app'

  Step-IsSound : {app app' : App} → Step app app' → IsSound app → IsSound app'
  Step-IsSound (accepting id) h = record { memory = h.memory; topics = h.topics }
  Step-IsSound (exiting id) h = record { memory = h.memory; topics = h.topics }
  Step-IsSound {app} (requesting id req calls) h =
      request-keeps IsSound id (IsSound-Stable id) p per_second runtime cfg req
        (record { state = app; calls = calls }) h
  Step-IsSound {app} (requesting_value id v calls) h =
      value-keeps IsSound id (IsSound-Stable id) p per_second runtime cfg v
        (record { state = app; calls = calls }) h
  Step-IsSound {app} (ticking now) h = record {
    memory = flush_counters-IsValid per_second now h.memory;
    topics = h.topics;
  }

  -- Whatever the clients request, in any order and interleaved with connects, exits and the timer, the
  -- memory backend stays well-formed, and the topics stay in a state that their handlers reach.
  pub Reachable-IsSound : {app : App} → Reachable app → IsSound app
  Reachable-IsSound (started now) = record {
    memory = new_memory_backend-IsValid now;
    topics = Reach.start;
  }
  Reachable-IsSound (then_step r s) = Step-IsSound s (Reachable-IsSound r)

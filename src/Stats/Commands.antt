-- ===== src/Stats/Commands.antt =====
-- The commands that RegisterBackend of backends/stats/metrics.go registers, and their dispatch.
pub mod Arguments
pub mod Answers
pub mod Values
pub mod Sets
pub mod Keeps
use broadcast.Common.{ℕ, Bool, true, false, List, [], ◌∷◌, Bytes, codes, String}
use broadcast.Server.{CommandInfo}
use broadcast.Stats.Metrics.{Metrics}
use broadcast.Stats.Session.{Data, args, Session, Run}
use broadcast.Stats.Handlers
use broadcast.Stats.SetHandlers

pub data Command : Type 0 where
  count counters incr decr del exists get set set_nx keys : Command
  sadd srem scard smembers sdiff sismember sinter sunion : Command

-- The handler that is registered for a command.
unfoldable pub handle : {S : Type 0} → Metrics S → Command → List Bytes → Run S (Unit {0})
handle m count = Handlers.count m
handle m counters = Handlers.counters m
handle m incr = Handlers.incr m
handle m decr = Handlers.decr m
handle m del = Handlers.del m
handle m exists = Handlers.exists m
handle m get = Handlers.get m
handle m set = Handlers.set m
handle m set_nx = Handlers.set_nx m
handle m keys = Handlers.keys_handler m
handle m sadd = SetHandlers.sadd m
handle m srem = SetHandlers.srem m
handle m scard = SetHandlers.scard m
handle m smembers = SetHandlers.smembers m
handle m sdiff = SetHandlers.sdiff m
handle m sismember = SetHandlers.sismember m
handle m sinter = SetHandlers.sinter m
handle m sunion = SetHandlers.sunion m

unfoldable pub run_command : {S : Type 0} → Metrics S → Command → Data → Run S (Unit {0})
run_command m c data' = handle m c (args data')

-- What a client can learn of a command.
abbrev pub info : String → String → String → Bool → CommandInfo
info name description usage fire_forget = record {
  name = codes name;
  description = codes description;
  usage = codes usage;
  fire_forget = fire_forget;
}

-- The calls of app.RegisterCommand, in order.
abbrev pub registrations : List (CommandInfo × Command)
registrations =
    (
      info "COUNT" "Increments a key that resets itself to 0 on each flush routine."
          "COUNT foo [124]" true,
      count,
    )
    ∷ (info "COUNTERS" "Returns the list of active counters." "" false, counters)
    ∷ (
      info "INCR" "Increments a key by the specified value or by default 1." "INCR key [1]" false,
      incr,
    )
    ∷ (
      info "DECR" "Decrements a key by the specified value or by default 1." "DECR key [1]" false,
      decr,
    )
    ∷ (info "DEL" "Deletes a key from the values or counters list or both." "DEL key" false, del)
    ∷ (
      info "EXISTS" "Determines if the given key exists from the values." "EXISTS key" false,
      exists,
    )
    ∷ (info "GET" "Gets the specified key from the values." "GET key" false, get)
    ∷ (
      info "SET" "Sets the specified key to the specified value in values." "SET key 1234" false,
      set,
    )
    ∷ (
      info "SETNX" "Sets the specified key to the given value only if the key is not already set."
          "SETNX key 1234" false,
      set_nx,
    )
    ∷ (info "KEYS" "Returns the list of keys available or by pattern" "KEYS [pattern]" false, keys)
    ∷ (info "SADD" "Adds one or more members to a set" "SADD key member [member ...]" false, sadd)
    ∷ (
      info "SREM" "Removes one or more members from a set" "SREM key member [member ...]" false,
      srem,
    )
    ∷ (info "SCARD" "Gets the number of members from a set" "SCARD key [key ...]" false, scard)
    ∷ (info "SMEMBERS" "Gets all the members in a set" "SMEMBERS key" false, smembers)
    ∷ (info "SDIFF" "Subtracts multiple sets" "SDIFF key [key ...]" false, sdiff)
    ∷ (
      info "SISMEMBER" "Returns if member is a member of the set"
          "SISMEMBER key member [member ...]" false,
      sismember,
    )
    ∷ (
      info "SINTER"
          "Returns the members of the set resulting from the intersection of all the given sets"
          "SINTER key [key ...]" false,
      sinter,
    )
    ∷ (
      info "SUNION" "Returns the members of the set resulting from the union of all the given sets"
          "SINTER key [key ...]" false,
      sunion,
    )
    ∷ []

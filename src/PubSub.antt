-- ===== src/PubSub.antt =====
-- backends/pubsub/pubsub_backend.go: topics with their subscribed clients. A client is known by
-- its address. The handlers run one after the other here. The size, a Go int, is a whole number:
-- no run makes the 2^63 steps that it would take to wrap around.
pub mod Sizes
pub mod Members
pub mod Publish
pub mod Reach
use broadcast.Common.{
  ℕ, suc, ◌+◌, ◌-◌, Option, none, some, Bool, true, false, List, [], ◌∷◌, ◌++◌, Bytes, length, ltb,
  leb, if◌then◌else◌,
}
use broadcast.Common.Int.{ℤ, pos, negsuc, ◌+ℤ◌, ◌-ℤ◌}
use broadcast.Dict.{Dict, lookup, insert, remove, has, keys}

pub record TopicChannel : Type 0 where
  pub size : ℤ
  pub clients : Dict (Unit {0})

abbrev pub Topics : Type 0
Topics = Dict TopicChannel

-- The body of the loop of `subscribe`, for the client at the address.
unfoldable pub subscribe_to : Bytes → Bytes → Topics → Topics
subscribe_to id key topics = elim (lookup key topics) [
  | some topic ↦
      if has id topic.clients
      then topics
      else insert key (record { size = topic.size +ℤ pos 1; clients = insert id tt topic.clients })
          topics
  | none ↦ insert key (record { size = pos 1; clients = insert id tt [] }) topics
]

unfoldable pub subscribe : Bytes → List Bytes → Topics → Topics
unfolding subscribe_to
subscribe id [] topics = topics
subscribe id (k ∷ d) topics = subscribe id d (subscribe_to id k topics)

unfoldable pub unsubscribe_from : Bytes → Bytes → Topics → Topics
unsubscribe_from id key topics = elim (lookup key topics) [
  | some topic ↦
      if has id topic.clients
      then insert key (record { size = topic.size -ℤ pos 1; clients = remove id topic.clients })
          topics
      else topics
  | none ↦ topics
]

unfoldable pub unsubscribe : Bytes → List Bytes → Topics → Topics
unfolding unsubscribe_from
unsubscribe id [] topics = topics
unsubscribe id (k ∷ d) topics = unsubscribe id d (unsubscribe_from id k topics)

-- A goroutine that `publish` starts for a connected client: the address of the client, and the slice of
-- arguments that it writes when it runs.
abbrev pub Delivery : Type 0
Delivery = Bytes × List Bytes

-- The loop over the clients: whom to write to, and the addresses that are no longer connected.
unfoldable pub deliveries : (Bytes → Bool) → List Bytes → List Bytes → List Delivery
deliveries connected d [] = []
deliveries connected d (c ∷ cs) =
    let rest = deliveries connected d cs in if connected c then (c, d) ∷ rest else rest

unfoldable pub stragglers : (Bytes → Bool) → List Bytes → List Bytes
stragglers connected [] = []
stragglers connected (c ∷ cs) =
    let rest = stragglers connected cs in if connected c then rest else c ∷ rest

-- for _, c := range deletions { delete(topic.clients, c) }
unfoldable pub delete_all : List Bytes → Dict (Unit {0}) → Dict (Unit {0})
delete_all [] clients = clients
delete_all (c ∷ deletions) clients = delete_all deletions (remove c clients)

-- topic.size > 0
abbrev pub positive : ℤ → Bool
positive (pos n) = ltb 0 n
positive (negsuc n) = false

-- The branch of `publish` for a topic that is there.
unfoldable pub publish_topic :
    (Bytes → Bool) → List Bytes → TopicChannel → List Delivery × TopicChannel
unfolding deliveries stragglers delete_all
publish_topic connected d topic =
    if positive topic.size
    then (
      deliveries connected d (keys topic.clients),
      record topic {
        clients = delete_all (stragglers connected (keys topic.clients)) topic.clients;
      },
    )
    else ([], topic)

-- `connected` is whether GetClient finds the address.
unfoldable pub publish : (Bytes → Bool) → List Bytes → Topics → List Delivery × Topics
unfolding publish_topic
publish connected [] topics = ([], topics)
publish connected (key ∷ []) topics = ([], topics)
publish connected (key ∷ m ∷ d) topics = elim (lookup key topics) [
  | none ↦ ([], topics)
  | some topic ↦
      let (sent, topic') = publish_topic connected (key ∷ m ∷ d) topic in
      (sent, insert key topic' topics)
]

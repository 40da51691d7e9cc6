-- ===== src/PubSub/Reach.antt =====
-- The handlers as steps, and what holds in every state that they reach.
use broadcast.Common.{
  ◌≡◌, refl, inl, inr, Bool-cases, Option-cases, Bool, not, ◌&&◌, ◌||◌, List, [], ◌∷◌, arith, Bytes,
  same, same_iff,
}
use broadcast.Common.Int.{pos}
use broadcast.Dict.{lookup, insert, has, lookup-insert}
use broadcast.Dict.Each.{Each, Each-nil, Each-insert}
use broadcast.Dict.Keys.{among}
use broadcast.PubSub.{
  Topics, subscribe_to, subscribe, unsubscribe_from, unsubscribe, publish_topic, publish,
}
use broadcast.PubSub.Sizes.{IsCovered, joined-IsCovered, left-IsCovered}
use broadcast.PubSub.Publish.{publish_topic-IsCovered, publish_topic-members}
use broadcast.PubSub.Members.{is_subscribed, receivers}

-- Every topic is covered.
abbrev pub IsValid : Topics → Type 0
IsValid = Each IsCovered

one-IsCovered : (id : Bytes) → IsCovered (record { size = pos 1; clients = insert id tt [] })
one-IsCovered id = record {
  distinct = unfold insert in ((unfold has lookup in refl), tt);
  nonneg = refl;
  enough = unfold insert in omega arith;
}

subscribe_to-IsValid :
    (id k : Bytes) (topics : Topics) → IsValid topics → IsValid (subscribe_to id k topics)
unfolding subscribe_to
subscribe_to-IsValid id k topics h = elim (Option-cases (lookup k topics)) [
  | inl e ↦ rw (e, subscribe_to) (Each-insert k _ topics (one-IsCovered id) h)
  | inr (topic, e) ↦ elim (Bool-cases (has id topic.clients)) [
    | inl old ↦ rw (e, subscribe_to, old) h
    | inr new ↦
        rw (e, subscribe_to, new)
          (Each-insert k _ topics (joined-IsCovered id topic new (h.at k topic e)) h)
  ]
]

unsubscribe_from-IsValid :
    (id k : Bytes) (topics : Topics) → IsValid topics → IsValid (unsubscribe_from id k topics)
unfolding unsubscribe_from
unsubscribe_from-IsValid id k topics h = elim (Option-cases (lookup k topics)) [
  | inl e ↦ rw (e, unsubscribe_from) h
  | inr (topic, e) ↦ elim (Bool-cases (has id topic.clients)) [
    | inl old ↦
        rw (e, unsubscribe_from, old)
          (Each-insert k _ topics (left-IsCovered id topic old (h.at k topic e)) h)
    | inr new ↦ rw (e, unsubscribe_from, new) h
  ]
]

subscribe-IsValid :
    (id : Bytes) (d : List Bytes) (topics : Topics)
    → IsValid topics
    → IsValid (subscribe id d topics)
unfolding subscribe
subscribe-IsValid id [] topics h = h
subscribe-IsValid id (k ∷ d) topics h =
    subscribe-IsValid id d (subscribe_to id k topics) (subscribe_to-IsValid id k topics h)

unsubscribe-IsValid :
    (id : Bytes) (d : List Bytes) (topics : Topics)
    → IsValid topics
    → IsValid (unsubscribe id d topics)
unfolding unsubscribe
unsubscribe-IsValid id [] topics h = h
unsubscribe-IsValid id (k ∷ d) topics h =
    unsubscribe-IsValid id d (unsubscribe_from id k topics) (unsubscribe_from-IsValid id k topics h)

publish-IsValid :
    (connected : Bytes → Bool) (d : List Bytes) (topics : Topics)
    → IsValid topics
    → IsValid (publish connected d topics).1
unfolding publish
publish-IsValid connected [] topics h = h
publish-IsValid connected (key ∷ []) topics h = h
publish-IsValid connected (key ∷ m ∷ d) topics h = elim (Option-cases (lookup key topics)) [
  | inl e ↦ rw (e, publish) h
  | inr (topic, e) ↦
      rw (e, publish)
        (Each-insert key _ topics
          (publish_topic-IsCovered connected (key ∷ m ∷ d) topic (h.at key topic e)) h)
]

-- A call of a handler, by a client at an address, while some clients are connected.
pub data Step (topics : Topics) : Topics → Type 0 where
  subscribing : (id : Bytes) (d : List Bytes) → Step topics (subscribe id d topics)
  unsubscribing : (id : Bytes) (d : List Bytes) → Step topics (unsubscribe id d topics)
  publishing :
      (connected : Bytes → Bool) (d : List Bytes) → Step topics (publish connected d topics).1

pub data Reach : Topics → Type 0 where
  start : Reach []
  next : {t u : Topics} → Reach t → Step t u → Reach u

Step-IsValid : {t u : Topics} → Step t u → IsValid t → IsValid u
Step-IsValid {t} (subscribing id d) h = subscribe-IsValid id d t h
Step-IsValid {t} (unsubscribing id d) h = unsubscribe-IsValid id d t h
Step-IsValid {t} (publishing connected d) h = publish-IsValid connected d t h

-- In every state that the handlers reach, no address stands twice among the clients of a topic, and the
-- size of the topic is at least the number of its clients.
pub Reach-IsValid : {t : Topics} → Reach t → IsValid t
Reach-IsValid start = Each-nil
Reach-IsValid (next r s) = Step-IsValid s (Reach-IsValid r)

-- In every reachable state a PUBLISH with a topic and a message writes to exactly the clients that are
-- subscribed to the topic and connected, and afterwards exactly these are subscribed to it.
-- The other topics stay.
pub publish_delivers :
    (connected : Bytes → Bool) (key m : Bytes) (d : List Bytes) {topics : Topics} (j other : Bytes)
    → Reach topics
    → (among j (receivers (publish connected (key ∷ m ∷ d) topics).0)
        ≡ (is_subscribed topics key j && connected j))
      × (is_subscribed (publish connected (key ∷ m ∷ d) topics).1 other j
          ≡ (is_subscribed topics other j && (not (same key other) || connected j)))
unfolding publish is_subscribed
publish_delivers connected key m d {topics} j other r = elim (Option-cases (lookup key topics)) [
  | inl e ↦ (unfold among in ground arith, ground (arith, same_iff key other))
  | inr (topic, e) ↦
      let covered = (Reach-IsValid r).at key topic e in
      let (sent, kept) = publish_topic-members connected (key ∷ m ∷ d) topic j covered in
      let after = lookup-insert key other (publish_topic connected (key ∷ m ∷ d) topic).1 topics in
      (ground arith, ground (arith, same_iff key other))
]

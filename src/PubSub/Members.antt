-- ===== src/PubSub/Members.antt =====
-- Who is subscribed to what, and who is written to.
use broadcast.Common.{
  ◌≡◌, refl, ◌∙◌, inl, inr, Option-cases, none, some, Bool, false, not, ◌&&◌, ◌||◌, List, [], ◌∷◌,
  arith, Bytes, same, same_iff, map,
}
use broadcast.Common.Int.{pos, ◌+ℤ◌, ◌-ℤ◌}
use broadcast.Dict.{Dict, lookup, insert, remove, has, lookup-insert, has-insert, has-remove}
use broadcast.Dict.Keys.{among}
use broadcast.PubSub.{
  Topics, subscribe_to, subscribe, unsubscribe_from, unsubscribe, Delivery, deliveries, stragglers,
  delete_all,
}

-- Is the client at the address subscribed to the topic?
unfoldable pub is_subscribed : Topics → Bytes → Bytes → Bool
is_subscribed topics key id = elim (lookup key topics) [
  | some topic ↦ has id topic.clients
  | none ↦ false
]

has-one : (id j : Bytes) → has {0} j (insert id tt []) ≡ same id j
unfolding has lookup insert
has-one id j = ground arith

subscribe_to-members :
    (id k key j : Bytes) (topics : Topics)
    → is_subscribed (subscribe_to id k topics) key j
      ≡ ((same id j && same k key) || is_subscribed topics key j)
unfolding subscribe_to is_subscribed
subscribe_to-members id k key j topics = elim (Option-cases (lookup k topics)) [
  | inl e ↦ ground (
    arith,
    lookup-insert k key (record { size = pos 1; clients = insert id tt [] }) topics,
    has-one id j,
    same_iff k key,
  )
  | inr (topic, e) ↦ ground (
    arith,
    lookup-insert k key
        (record { size = topic.size +ℤ pos 1; clients = insert id tt topic.clients }) topics,
    has-insert id j tt topic.clients,
    same_iff k key,
    same_iff id j,
  )
]

-- SUBSCRIBE subscribes the client to exactly the named topics, new ones too, and changes no other
-- subscription.
pub subscribe_members :
    (id key j : Bytes) (d : List Bytes) (topics : Topics)
    → is_subscribed (subscribe id d topics) key j
      ≡ ((same id j && among key d) || is_subscribed topics key j)
unfolding subscribe among
subscribe_members id key j [] topics = ground arith
subscribe_members id key j (k ∷ d) topics =
    subscribe_members id key j d (subscribe_to id k topics)
    ∙ ground (arith, subscribe_to-members id k key j topics)

unsubscribe_from-members :
    (id k key j : Bytes) (topics : Topics)
    → is_subscribed (unsubscribe_from id k topics) key j
      ≡ (not (same id j && same k key) && is_subscribed topics key j)
unfolding unsubscribe_from is_subscribed
unsubscribe_from-members id k key j topics = elim (Option-cases (lookup k topics)) [
  | inl e ↦ ground (arith, same_iff k key)
  | inr (topic, e) ↦ ground (
    arith,
    lookup-insert k key (record { size = topic.size -ℤ pos 1; clients = remove id topic.clients })
        topics,
    has-remove id j topic.clients,
    same_iff k key,
    same_iff id j,
  )
]

-- UNSUBSCRIBE ends exactly the subscriptions of the client to the named topics.
pub unsubscribe_members :
    (id key j : Bytes) (d : List Bytes) (topics : Topics)
    → is_subscribed (unsubscribe id d topics) key j
      ≡ (not (same id j && among key d) && is_subscribed topics key j)
unfolding unsubscribe among
unsubscribe_members id key j [] topics = ground arith
unsubscribe_members id key j (k ∷ d) topics =
    unsubscribe_members id key j d (unsubscribe_from id k topics)
    ∙ ground (arith, unsubscribe_from-members id k key j topics)

-- The addresses that are written to.
abbrev pub receivers : List Delivery → List Bytes
receivers = map (λ x. x.0)

pub among-receivers :
    (connected : Bytes → Bool) (d cs : List Bytes) (j : Bytes)
    → among j (receivers (deliveries connected d cs)) ≡ (among j cs && connected j)
unfolding deliveries among
among-receivers connected d [] j = refl
among-receivers connected d (c ∷ cs) j =
    ground (arith, among-receivers connected d cs j, same_iff c j)

pub among-stragglers :
    (connected : Bytes → Bool) (cs : List Bytes) (j : Bytes)
    → among j (stragglers connected cs) ≡ (among j cs && not (connected j))
unfolding stragglers among
among-stragglers connected [] j = refl
among-stragglers connected (c ∷ cs) j =
    ground (arith, among-stragglers connected cs j, same_iff c j)

pub has-delete_all :
    (cs : List Bytes) (clients : Dict (Unit {0})) (j : Bytes)
    → has j (delete_all cs clients) ≡ (not (among j cs) && has j clients)
unfolding delete_all among
has-delete_all [] clients j = ground arith
has-delete_all (c ∷ cs) clients j =
    has-delete_all cs (remove c clients) j ∙ ground (arith, has-remove c j clients)

-- ===== src/Tests/PubSub.antt =====
-- The publish and subscribe backend at concrete inputs.
use broadcast.Common.{
  ◌<◌, ◌≡◌, refl, Bool, not, ◌&&◌, ◌||◌, List, [], ◌∷◌, Bytes, codes, same, length,
}
use broadcast.Common.Int.{pos, pos_part, ◌+ℤ◌}
use broadcast.Dict.{lookup, insert, remove, has, keys}
use broadcast.Dict.Keys.{among}
use broadcast.PubSub.{Topics, TopicChannel, subscribe, publish, publish_topic}
use broadcast.PubSub.Members.{is_subscribed, receivers}
use broadcast.PubSub.Sizes.{IsExact}
use broadcast.PubSub.Publish
use broadcast.PubSub.Reach
use broadcast.PubSub.Reach.{IsValid, Step, subscribing, start, next}

-- Only `a` is connected.
abbrev only_a : Bytes → Bool
only_a c = same c (codes "a")

abbrev two_subscribers : Topics
two_subscribers =
    subscribe (codes "b") (codes "news" ∷ []) (subscribe (codes "a") (codes "news" ∷ []) [])

abbrev news : List Bytes
news = codes "news" ∷ codes "hi" ∷ []

-- The message goes to `a`; `b` is dropped, and the size stays 2.
one_delivery : publish only_a news two_subscribers ≡ (
  (codes "a", news) ∷ [],
  (codes "news", record { size = pos 2; clients = (codes "a", tt) ∷ [] }) ∷ [],
)
unfolding publish subscribe lookup insert remove has keys same ◌+ℤ◌
one_delivery = refl

two_subscribers-Reach : Reach.Reach two_subscribers
two_subscribers-Reach =
    next (next start (subscribing (codes "a") (codes "news" ∷ [])))
      (subscribing (codes "b") (codes "news" ∷ []))

publish_delivers_example :
    (among (codes "b") (receivers (publish only_a news two_subscribers).0)
      ≡ (is_subscribed two_subscribers (codes "news") (codes "b") && only_a (codes "b")))
    × (is_subscribed (publish only_a news two_subscribers).1 (codes "news") (codes "b") ≡ (
        is_subscribed two_subscribers (codes "news") (codes "b")
        && (not (same (codes "news") (codes "news")) || only_a (codes "b"))))
publish_delivers_example =
    Reach.publish_delivers only_a (codes "news") (codes "hi") [] (codes "b") (codes "news")
      two_subscribers-Reach

abbrev topic : TopicChannel
topic = record { size = pos 2; clients = (codes "a", tt) ∷ (codes "b", tt) ∷ [] }

topic-IsExact : IsExact topic
unfolding has lookup same
topic-IsExact = record { distinct = (refl, (refl, tt)); counted = refl }

publish_topic-stale_example :
    ((publish_topic only_a news topic).1.size ≡ topic.size)
    × (length (publish_topic only_a news topic).1.clients < pos_part topic.size)
unfolding has lookup same
publish_topic-stale_example =
    Publish.publish_topic-stale only_a news topic (codes "b") topic-IsExact refl refl

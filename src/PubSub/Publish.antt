-- ===== src/PubSub/Publish.antt =====
-- What PUBLISH does to a topic.
use broadcast.Common.{
  ◌≤◌, ◌<◌, ◌≡◌, inl, inr, Bool-cases, Option-cases, refl, All, Bool, true, false, ◌&&◌, List, [],
  ◌∷◌, arith, Bytes, same_iff, length,
}
use broadcast.Common.Int.{pos_part}
use broadcast.Dict.{Dict, lookup, remove, has, keys, has-remove}
use broadcast.Dict.Distinct.{IsDistinct, remove-IsDistinct, length-remove}
use broadcast.Dict.Keys.{among, among-keys, has-empty}
use broadcast.PubSub.{
  TopicChannel, Topics, Delivery, deliveries, stragglers, delete_all, publish_topic, publish,
  positive,
}
use broadcast.PubSub.Sizes.{IsCovered, IsExact}
use broadcast.PubSub.Members.{receivers, among-receivers, among-stragglers, has-delete_all}

delete_all-IsDistinct :
    (cs : List Bytes) (clients : Dict (Unit {0}))
    → IsDistinct clients
    → IsDistinct (delete_all cs clients) × (length (delete_all cs clients) ≤ length clients)
unfolding delete_all
delete_all-IsDistinct [] clients h = (h, omega arith)
delete_all-IsDistinct (c ∷ cs) clients h =
    let (d, l) = delete_all-IsDistinct cs (remove c clients) (remove-IsDistinct c clients h) in
    (d, ground (arith, length-remove c clients h))

pub publish_topic-IsCovered :
    (connected : Bytes → Bool) (d : List Bytes) (topic : TopicChannel)
    → IsCovered topic
    → IsCovered (publish_topic connected d topic).1
unfolding publish_topic
publish_topic-IsCovered connected d topic h = elim (Bool-cases (positive topic.size)) [
  | inl p ↦
      let (distinct, shorter) =
        delete_all-IsDistinct (stragglers connected (keys topic.clients)) topic.clients
          h.distinct in
      rw p (record { distinct = distinct; nonneg = h.nonneg; enough = omega (arith, h.enough) })
  | inr p ↦ rw p h
]

-- On a covered topic: those who are written to are those who stay.
pub publish_topic-members :
    (connected : Bytes → Bool) (d : List Bytes) (topic : TopicChannel) (j : Bytes)
    → IsCovered topic
    → (among j (receivers (publish_topic connected d topic).0)
        ≡ (has j topic.clients && connected j))
      × (has j (publish_topic connected d topic).1.clients ≡ (has j topic.clients && connected j))
unfolding publish_topic
publish_topic-members connected d topic j h = elim (Bool-cases (positive topic.size)) [
  | inl p ↦
      let sent = among-receivers connected d (keys topic.clients) j in
      let gone = among-stragglers connected (keys topic.clients) j in
      let kept = has-delete_all (stragglers connected (keys topic.clients)) topic.clients j in
      let all = among-keys j topic.clients in (ground arith, ground arith)
  | inr p ↦
      let empty : length topic.clients ≡ 0 = ground (arith, h.nonneg, h.enough) in
      let nobody = has-empty topic.clients j empty in (unfold among in ground arith, ground arith)
]

delete_all-shorter :
    (cs : List Bytes) (clients : Dict (Unit {0})) (c : Bytes)
    → IsDistinct clients
    → among c cs ≡ true
    → has c clients ≡ true
    → length (delete_all cs clients) < length clients
unfolding delete_all among
delete_all-shorter [] clients c h a b = cc
delete_all-shorter (k ∷ cs) clients c h a b =
    let distinct = remove-IsDistinct k clients h in
    let (_, shorter) = delete_all-IsDistinct cs (remove k clients) distinct in
    ground (
      arith,
      length-remove k clients h,
      delete_all-shorter cs (remove k clients) c distinct,
      has-remove k c clients,
      same_iff k c,
    )

-- A PUBLISH that drops a client which is no longer connected leaves the size above the number of the
-- clients, though the two were equal before.
pub publish_topic-stale :
    (connected : Bytes → Bool) (d : List Bytes) (topic : TopicChannel) (c : Bytes)
    → IsExact topic
    → has c topic.clients ≡ true
    → connected c ≡ false
    → ((publish_topic connected d topic).1.size ≡ topic.size)
      × (length (publish_topic connected d topic).1.clients < pos_part topic.size)
unfolding publish_topic
publish_topic-stale connected d topic c h a b =
    let gone = among-stragglers connected (keys topic.clients) c in
    let all = among-keys c topic.clients in
    let shorter =
      delete_all-shorter (stragglers connected (keys topic.clients)) topic.clients c h.distinct
        (ground arith) a in
    let full : positive topic.size ≡ true = ground (arith, h.counted) in
    (ground arith, ground (arith, h.counted))

-- What a delivery holds.
abbrev pub Carries : List Bytes → Delivery → Type 0
Carries d (c, b) = b ≡ d

deliveries-Carries :
    (connected : Bytes → Bool) (d cs : List Bytes) → All (Carries d) (deliveries connected d cs)
unfolding deliveries
deliveries-Carries connected d [] = tt
deliveries-Carries connected d (c ∷ cs) = elim (Bool-cases (connected c)) [
  | inl yes' ↦ rw yes' (refl, deliveries-Carries connected d cs)
  | inr no' ↦ rw no' (deliveries-Carries connected d cs)
]

topic-Carries :
    (connected : Bytes → Bool) (d : List Bytes) (topic : TopicChannel)
    → All (Carries d) (publish_topic connected d topic).0
unfolding publish_topic
topic-Carries connected d topic = elim (Bool-cases (positive topic.size)) [
  | inl p ↦ rw p (deliveries-Carries connected d (keys topic.clients))
  | inr p ↦ rw p tt
]

-- A PUBLISH writes its arguments, to whomever it writes.
pub publish-Carries :
    (connected : Bytes → Bool) (key m : Bytes) (d : List Bytes) (topics : Topics)
    → All (Carries (key ∷ m ∷ d)) (publish connected (key ∷ m ∷ d) topics).0
unfolding publish
publish-Carries connected key m d topics = elim (Option-cases (lookup key topics)) [
  | inl e ↦ rw (e, publish) tt
  | inr (topic, e) ↦ rw (e, publish) (topic-Carries connected (key ∷ m ∷ d) topic)
]

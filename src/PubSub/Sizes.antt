-- ===== src/PubSub/Sizes.antt =====
-- The size of a topic against the number of its clients.
use broadcast.Common.{◌≤◌, ◌≡◌, true, false, arith, Bytes, length}
use broadcast.Common.Int.{pos, ◌+ℤ◌, ◌-ℤ◌, pos_part, neg_part}
use broadcast.Dict.{insert, remove, has}
use broadcast.Dict.Distinct.{
  IsDistinct, insert-IsDistinct, remove-IsDistinct, length-insert, length-remove,
}
use broadcast.PubSub.{TopicChannel}

-- No address stands twice among the clients, and the size is at least their number.
pub record IsCovered (topic : TopicChannel) : Type 0 where
  pub distinct : IsDistinct topic.clients
  pub nonneg : neg_part topic.size ≡ 0
  pub enough : length topic.clients ≤ pos_part topic.size

-- The size is the number of the clients.
pub record IsExact (topic : TopicChannel) : Type 0 where
  pub distinct : IsDistinct topic.clients
  pub counted : topic.size ≡ pos (length topic.clients)

module _ (id : Bytes) (topic : TopicChannel) where
  abbrev pub joined : TopicChannel
  joined = record { size = topic.size +ℤ pos 1; clients = insert id tt topic.clients }

  abbrev pub left : TopicChannel
  left = record { size = topic.size -ℤ pos 1; clients = remove id topic.clients }

  pub joined-IsCovered : has id topic.clients ≡ false → IsCovered topic → IsCovered joined
  unfolding ◌+ℤ◌
  joined-IsCovered new h = record {
    distinct = insert-IsDistinct id tt topic.clients h.distinct;
    nonneg = ground (arith, h.nonneg);
    enough = ground (arith, length-insert id tt topic.clients, h.nonneg, h.enough);
  }

  pub left-IsCovered : has id topic.clients ≡ true → IsCovered topic → IsCovered left
  unfolding ◌-ℤ◌
  left-IsCovered old h = record {
    distinct = remove-IsDistinct id topic.clients h.distinct;
    nonneg = ground (arith, length-remove id topic.clients h.distinct, h.nonneg, h.enough);
    enough = ground (arith, length-remove id topic.clients h.distinct, h.nonneg, h.enough);
  }

  joined-IsExact : has id topic.clients ≡ false → IsExact topic → IsExact joined
  unfolding ◌+ℤ◌
  joined-IsExact new h = record {
    distinct = insert-IsDistinct id tt topic.clients h.distinct;
    counted = ground (arith, length-insert id tt topic.clients, h.counted);
  }

  left-IsExact : has id topic.clients ≡ true → IsExact topic → IsExact left
  unfolding ◌-ℤ◌
  left-IsExact old h = record {
    distinct = remove-IsDistinct id topic.clients h.distinct;
    counted = ground (arith, length-remove id topic.clients h.distinct, h.counted);
  }

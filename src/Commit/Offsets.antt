-- ===== src/Commit/Offsets.antt =====
-- Offsets as the numbers that their texts stand for.
use kafka_harbor.Prelude.{
  ◌+◌, ◌≡◌, true, arith, refl, show, decimal_value, is_decimal-show, decimal_value-show,
}
use kafka_harbor.Result.{ok}
use kafka_harbor.Adapter.{RawMessage, TopicPartitionOffset}
use kafka_harbor.Commit.{pos, is_offset, offset_distance, offset_after}

-- After a message whose offset is well formed, the offset to commit is well formed and one past the
-- message's.
pub offset_after_next :
    (message : RawMessage)
    → is_offset message.offset ≡ true
    → (next : TopicPartitionOffset) × (offset_after message ≡ ok next)
      × (is_offset next.offset ≡ true)
      × (decimal_value next.offset ≡ decimal_value message.offset + 1)
      × (offset_distance message.offset next.offset ≡ pos 1)
unfolding is_offset offset_after offset_distance
offset_after_next message e = (
  record {
    topic = message.topic;
    partition = message.partition;
    offset = show (decimal_value message.offset + 1);
  },
  rw e refl,
  is_decimal-show (decimal_value message.offset + 1),
  decimal_value-show (decimal_value message.offset + 1),
  ground (arith, decimal_value-show (decimal_value message.offset + 1)),
)

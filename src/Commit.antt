-- ===== src/Commit.antt =====
-- src/commit.ts: offsets, which are decimal texts, and the offset to commit.
pub mod Offsets
use kafka_harbor.Prelude.{
  ℕ, ◌+◌, ◌-◌, Bool, none, some, [], ◌++◌, codes, Text, show, is_decimal, decimal_value, leb,
  if◌then◌else◌,
}
use kafka_harbor.Errors.{Thrown, undefined, object}
use kafka_harbor.Result.{Result, ok, err}
use kafka_harbor.Adapter.{RawMessage, TopicPartitionOffset}

-- Whole numbers: `negsuc n` is -(n + 1).
pub data ℤ : Type 0 where
  pos : ℕ → ℤ
  negsuc : ℕ → ℤ

-- `OFFSET_PATTERN.test(value)`
unfoldable pub is_offset : Text → Bool
is_offset value = is_decimal value

-- `offsetDistance`, of two texts that are offsets
unfoldable pub offset_distance : Text → Text → ℤ
offset_distance from to =
    let a = decimal_value from in
    let b = decimal_value to in if leb a b then pos (b - a) else negsuc (a - b - 1)

no_integer : Text → Thrown
no_integer text =
    object
      (record {
        identity = 0;
        code = none;
        retryable = none;
        failed = none;
        error = some (codes "SyntaxError", codes "Cannot convert " ++ text ++ codes " to a BigInt");
        encoded = [];
      })
      undefined

-- `offsetAfter`: `BigInt` throws on a text that stands for no integer. The contract's offsets are
-- decimal, and any other text is one that `BigInt` refuses.
unfoldable pub offset_after : RawMessage → Result TopicPartitionOffset
unfolding is_offset no_integer
offset_after message =
    if is_offset message.offset
    then ok (record {
      topic = message.topic;
      partition = message.partition;
      offset = show (decimal_value message.offset + 1);
    })
    else err (no_integer message.offset)

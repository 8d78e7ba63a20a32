-- ===== src/Examples/Records.antt =====
-- Headers, errors, keys, offsets and the broker in memory, on concrete values.
use kafka_harbor.Prelude.{
  ℕ, ◌+◌, ◌^◌, ◌≤◌, ◌<◌, ◌≡◌, refl, arith, true, none, some, List, [], ◌∷◌, codes, lookup, length,
  decimal_value, text_eq, trim, trim_end, trim_start, is_space, is_digit, is_decimal,
}
use kafka_harbor.Errors.{undefined, primitive, fenced_error, is_fenced_error}
use kafka_harbor.Errors.Cause.{fenced_in, fence_on_chain, fenced_in-fence_on_chain}
use kafka_harbor.Errors.Describe.{describe_error, length-describe_error}
use kafka_harbor.Headers.{
  RetryInfo, MessageHeaders, read_retry_info, stamp_producer, write_retry_info, non_blank,
  checked_info, parse_count, header_names, parse_instant,
}
use kafka_harbor.Headers.Tracking.{read-write_retry_info, read_retry_info_checked}
use kafka_harbor.Result.{Result, Ensures, ok}
use kafka_harbor.Adapter.{RawRecord, TopicPartitionOffset, partition_key}
use kafka_harbor.Adapter.Key.{split_partition_key, split-partition_key}
use kafka_harbor.Commit.{is_offset, offset_after, offset_distance, pos}
use kafka_harbor.Commit.Offsets.{offset_after_next}
use kafka_harbor.Topics.{member}
use kafka_harbor.Partitioner.{partition_for_key}
use kafka_harbor.Partitioner.Range.{partition_for_key-lt}
use kafka_harbor.Produce.{Hooks, HookValue, outgoing, tracking_names}
use kafka_harbor.Produce.Hop.{outgoing_keeps}
use kafka_harbor.Testing.{Broker, Options, produce}
use kafka_harbor.Testing.Produce.{IsBroker, produce-IsBroker}
use kafka_harbor.Testing.Transaction.{Step, new_transaction, produces, commits, aborts, steps}
use kafka_harbor.Testing.Transaction.Atomic.{Left, committed_by, steps_atomic}
use kafka_harbor.Adapter.{PartitionOffsets}
use kafka_harbor.Consumer.Lag.{lag_at, IsWithin, lag_at-IsWithin}
use kafka_harbor.Examples.{platform, platform-IsPlatform, names, raw}

abbrev failed_twice : RetryInfo
failed_twice = record {
  count = 2;
  original_topic = codes "orders";
  first_failure_at = 5;
  last_error = codes "down";
}

read-write_retry_info_example :
    read_retry_info platform
      (stamp_producer platform
        (write_retry_info platform [] names (some failed_twice) (codes "orders") (codes "late") 9)
        names
        (codes "shop")
        10
        (codes "id"))
      names
    ≡ some (record {
      count = 3;
      original_topic = codes "orders";
      first_failure_at = 5;
      last_error = codes "late";
    })
unfolding non_blank trim trim_end trim_start is_space
read-write_retry_info_example =
    read-write_retry_info platform platform-IsPlatform (codes "x-") [] (some failed_twice)
      (codes "orders") (codes "late") (codes "shop") (codes "id") 9 10 refl (omega arith)

abbrev tracked : MessageHeaders
tracked =
    (codes "x-retry-count", codes " 3 ")
    ∷ (codes "x-original-topic", codes "orders")
    ∷ (codes "x-first-failure-at", codes "5")
    ∷ []

abbrev tracked_info : RetryInfo
tracked_info = record {
  count = 3;
  original_topic = codes "orders";
  first_failure_at = 5;
  last_error = [];
}

read_retry_info_checked_example :
    (1 ≤ 3) × (3 < 10 ^ 9) × (non_blank (some (codes "orders")) ≡ some (codes "orders"))
unfolding read_retry_info checked_info parse_count is_decimal trim trim_end trim_start lookup
    text_eq header_names is_space is_digit non_blank parse_instant decimal_value
read_retry_info_checked_example = read_retry_info_checked platform tracked names tracked_info refl

-- An object that is its own cause, unrolled up to where it is met again.
fenced_in-fence_on_chain_example :
    fenced_in (fenced_error 4 (codes "fenced") (fenced_error 4 (codes "fenced") undefined))
    ≡ fence_on_chain (fenced_error 4 (codes "fenced") (fenced_error 4 (codes "fenced") undefined))
unfolding fenced_error is_fenced_error text_eq
fenced_in-fence_on_chain_example =
    fenced_in-fence_on_chain (λ i. true)
      (fenced_error 4 (codes "fenced") (fenced_error 4 (codes "fenced") undefined))
      (refl, (λ h. absurd (cc)), (refl, (λ h. refl), tt))

length-describe_error_example : length (describe_error (primitive (codes "a long story")) 8) ≤ 8
length-describe_error_example =
    length-describe_error (primitive (codes "a long story")) 8 (omega arith)

split-partition_key_example :
    split_partition_key (partition_key (codes "orders") 12)
    ≡ some (record { topic = codes "orders"; partition = 12 })
split-partition_key_example = split-partition_key (codes "orders") 12

offset_after_next_example :
    (next : TopicPartitionOffset) × (offset_after raw ≡ ok next)
    × (is_offset next.offset ≡ true)
    × (decimal_value next.offset ≡ decimal_value raw.offset + 1)
    × (offset_distance raw.offset next.offset ≡ pos 1)
unfolding is_offset is_decimal is_digit
offset_after_next_example = offset_after_next raw refl

partition_for_key-lt_example :
    (p : ℕ) × (partition_for_key (codes "key") 12 ≡ ok (pos p)) × (p < 12)
partition_for_key-lt_example = partition_for_key-lt (codes "key") 12 (omega arith)

abbrev sent : RawRecord
sent = record {
  topic = codes "orders-dlq";
  key = none;
  value = some (codes "v");
  headers = (codes "x-retry-count", codes "3") ∷ [];
  partition = none;
}

-- Instrumentation that claims a header of the library.
abbrev greedy : Hooks
greedy = record {
  on_produce = some (λ r. some ((codes "x-retry-count", HookValue.text (codes "0")) ∷ []));
  propagation_fields = some (codes "x-retry-count" ∷ []);
}

outgoing_keeps_example :
    (lookup (codes "x-retry-count") (outgoing greedy names true sent).headers ≡ some (codes "3"))
    × ((outgoing greedy names true sent).topic ≡ sent.topic)
    × ((outgoing greedy names true sent).key ≡ sent.key)
    × ((outgoing greedy names true sent).value ≡ sent.value)
    × ((outgoing greedy names true sent).partition ≡ sent.partition)
unfolding lookup member tracking_names text_eq header_names
outgoing_keeps_example =
    outgoing_keeps greedy names true sent (codes "x-retry-count") (codes "3") refl refl

abbrev options : Options
options = record { partitions = 2; auto_create_topics = true }

abbrev broker : Broker
broker = record {
  topics = [];
  groups = [];
  connected = true;
  transactional_id = some (codes "tx");
  transaction_open = true;
  next_produce_error = none;
}

no_topics : IsBroker []
unfolding lookup
no_topics = λ name t found. absurd (cc)

produce-IsBroker_example :
    IsBroker (produce options (λ n. n) (sent ∷ sent ∷ sent ∷ []) broker).1.topics
produce-IsBroker_example =
    produce-IsBroker options (λ n. n) (sent ∷ sent ∷ sent ∷ []) broker no_topics

abbrev twice_committed : List Step
twice_committed = produces (sent ∷ []) ∷ commits ∷ commits ∷ aborts ∷ []

steps_atomic_example :
    Left options
      (λ n. n)
      (committed_by options (λ n. n) twice_committed (broker, new_transaction) [] [])
      broker
      (steps options (λ n. n) twice_committed (broker, new_transaction)).0
steps_atomic_example = steps_atomic options (λ n. n) twice_committed (broker, new_transaction) refl

-- Work that counts its runs.
abbrev counted : ℕ → Result ℕ × ℕ
counted runs = (ok 7, runs + 1)

abbrev watermarks : PartitionOffsets
watermarks = record { topic = codes "orders"; partition = 2; low = codes "10"; high = codes "40" }

lag_at-IsWithin_example : Ensures IsWithin (lag_at true watermarks (some (codes "3")))
unfolding decimal_value
lag_at-IsWithin_example = lag_at-IsWithin true watermarks (some (codes "3")) (omega arith)

-- ===== src/Testing.antt =====
-- src/testing/index.ts: the in-memory broker, its topics and groups.
pub mod Produce
pub mod Transaction
pub mod Member
use kafka_harbor.Prelude.{
  ℕ, zero, suc, ◌+◌, ◌%◌, Bool, true, false, not, ◌&&◌, ◌||◌, Option, none, some, List, [], ◌∷◌,
  ◌++◌, Text, codes, Dict, lookup, insert, delete, has, length, get_elem?, show, ltb, ◌==◌, or_else,
  is_some, map, if◌then◌else◌,
}
use kafka_harbor.Errors.{Thrown, undefined, adapter_error, config_error}
use kafka_harbor.Headers.{Wire, text, RawHeader, one, RawHeaders, MessageHeaders}
use kafka_harbor.Result.{Result, ok, err}
use kafka_harbor.Adapter.{
  TopicPartition, TopicPartitionOffset, RawMessage, RawRecord, TopicSpec, PartitionOffsets,
  CommittedOffset, partition_key,
}
use kafka_harbor.Topics.{member}
use kafka_harbor.Commit.{ℤ, pos, negsuc}
use kafka_harbor.Partitioner.{partition_for_key}

-- `Topic`: a log for each partition, and every message in the order that it was appended.
pub record Topic : Type 0 where
  pub partitions : List (List RawMessage)
  pub appended : List RawMessage
  pub round_robin : ℕ

-- `Group`
pub record Group : Type 0 where
  pub committed : Dict Text
  pub positions : Dict ℕ
  pub paused : List Text
  pub members : ℕ
  pub stopped : Bool

-- The variables of `memoryAdapter` that outlive a call, its record of calls aside.
pub record Broker : Type 0 where
  pub topics : Dict Topic
  pub groups : Dict Group
  pub connected : Bool
  pub transactional_id : Option Text
  pub transaction_open : Bool
  pub next_produce_error : Option Thrown

-- `MemoryAdapterOptions`
pub record Options : Type 0 where
  pub partitions : ℕ
  pub auto_create_topics : Bool

-- `Array.from({ length: n }, () => [])`
unfoldable pub empty_logs : ℕ → List (List RawMessage)
empty_logs zero = []
empty_logs (suc n) = [] ∷ empty_logs n

unfoldable pub new_topic : ℕ → Topic
unfolding empty_logs
new_topic partitions = record { partitions = empty_logs partitions; appended = []; round_robin = 0 }

abbrev pub new_group : Group
new_group = record { committed = []; positions = []; paused = []; members = 0; stopped = false }

-- `ensureTopic`
unfoldable pub ensure_topic : Text → ℕ → Dict Topic → Dict Topic
unfolding new_topic
ensure_topic name partitions topics =
    if has name topics then topics else insert name (new_topic partitions) topics

-- `group`
unfoldable pub group_of : Text → Dict Group → Group
group_of id groups = or_else (lookup id groups) new_group

module _ (options : Options) where
  -- `topics.get(name)?.partitions.length ?? defaultPartitions`
  unfoldable pub partition_count : Text → Dict Topic → ℕ
  partition_count name topics = elim (lookup name topics) [
    | none ↦ options.partitions
    | some t ↦ length t.partitions
  ]

  in_range : Option ℕ → ℕ → Bool
  in_range none count = true
  in_range (some p) count = ltb p count

  validate_one : RawRecord → Dict Topic → Result (Unit {0})
  unfolding in_range partition_count
  validate_one item topics =
      if ltb (length item.topic) 1
      then err (adapter_error 0 (codes "invalid topic name") (some false))
      else (if not options.auto_create_topics && not (has item.topic topics)
          then err (adapter_error 0 (codes "unknown topic") (some false))
          else (if in_range item.partition (partition_count item.topic topics)
              then ok tt
              else err (adapter_error 0 (codes "partition does not exist") (some false))))

  -- `validate`
  unfoldable pub validate : List RawRecord → Dict Topic → Result (Unit {0})
  unfolding validate_one
  validate [] topics = ok tt
  validate (item ∷ records) topics = elim (validate_one item topics) [
    | ok u ↦ validate records topics
    | err e ↦ err e
  ]

-- There is no log at a negative index: a `TypeError`.
index_of : Result ℤ → Result ℕ
index_of (err e) = err e
index_of (ok (pos p)) = ok p
index_of (ok (negsuc n)) = err undefined

-- The partition of a record: its own, its key's, or the next in turn.
unfoldable pub choose : RawRecord → Topic → Result ℕ
unfolding index_of
choose item t = elim item.partition [
  | some p ↦ ok p
  | none ↦ elim item.key [
    | some key ↦ index_of (partition_for_key key (length t.partitions))
    | none ↦ ok (t.round_robin % length t.partitions)
  ]
]

-- Only a record without partition and key takes its turn.
unfoldable pub next_turn : RawRecord → Topic → ℕ
next_turn item t =
    if not (is_some item.partition) && not (is_some item.key)
    then suc t.round_robin
    else t.round_robin

unfoldable pub as_text : MessageHeaders → RawHeaders
as_text [] = []
as_text ((name, value) ∷ headers) = (name, one (text value)) ∷ as_text headers

unfoldable pub message_of : RawRecord → ℕ → ℕ → ℕ → RawMessage
unfolding as_text
message_of item partition offset now = record {
  topic = item.topic;
  partition = partition;
  offset = show offset;
  key = item.key;
  value = item.value;
  headers = as_text item.headers;
  timestamp = now;
}

-- `log.push(message)`, on the log at an index
unfoldable pub push_at : ℕ → RawMessage → List (List RawMessage) → List (List RawMessage)
push_at i message [] = []
push_at zero message (log ∷ logs) = (log ++ message ∷ []) ∷ logs
push_at (suc i) message (log ∷ logs) = log ∷ push_at i message logs

unfoldable pub push : RawRecord → ℕ → ℕ → List RawMessage → Topic → Topic
unfolding push_at message_of next_turn
push item now partition log t =
    let message = message_of item partition (length log) now in
    record {
      partitions = push_at partition message t.partitions;
      appended = t.appended ++ message ∷ [];
      round_robin = next_turn item t;
    }

-- A partition that is not there has no log to push to: a `TypeError`.
unfoldable pub push_found : RawRecord → ℕ → ℕ → Topic → Option (List RawMessage) → Result Topic
unfolding push
push_found item now partition t none = err undefined
push_found item now partition t (some log) = ok (push item now partition log t)

unfoldable pub append_to : RawRecord → ℕ → Topic → Result ℕ → Result Topic
unfolding push_found
append_to item now t (err e) = err e
append_to item now t (ok partition) =
    push_found item now partition t (get_elem? t.partitions partition)

unfoldable pub append_one : RawRecord → ℕ → Topic → Result Topic
unfolding choose append_to
append_one item now t = append_to item now t (choose item t)

unfoldable append_rest :
    (Dict Topic → Result (Unit {0}) × Dict Topic)
    → Text
    → Dict Topic
    → Result Topic
    → Result (Unit {0}) × Dict Topic
append_rest rest name ensured (err e) = (err e, ensured)
append_rest rest name ensured (ok t) = rest (insert name t ensured)

module _ (options : Options) where
  -- `append`: the topics after it, whether or not it throws midway
  unfoldable pub append : (ℕ → ℕ) → List RawRecord → Dict Topic → Result (Unit {0}) × Dict Topic
  unfolding ensure_topic append_one append_rest
  append now [] topics = (ok tt, topics)
  append now (item ∷ records) topics =
      let ensured = ensure_topic item.topic options.partitions topics in
      let t = or_else (lookup item.topic ensured) (new_topic options.partitions) in
      append_rest (append (λ n. now (suc n)) records) item.topic ensured (append_one item (now 0) t)

  -- `produce`
  produce_valid : (ℕ → ℕ) → List RawRecord → Broker → Result (Unit {0}) → Result (Unit {0}) × Broker
  unfolding append
  produce_valid now records b (err e) = (err e, b)
  produce_valid now records b (ok u) =
      let (answer, topics) = append now records b.topics in (answer, record b { topics = topics })

  produce_open : (ℕ → ℕ) → List RawRecord → Broker → Bool → Result (Unit {0}) × Broker
  unfolding validate produce_valid
  produce_open now records b false =
      (err (adapter_error 0 (codes "memory adapter is not connected") none), b)
  produce_open now records b true = produce_valid now records b (validate options records b.topics)

  produce_unless : (ℕ → ℕ) → List RawRecord → Broker → Option Thrown → Result (Unit {0}) × Broker
  unfolding produce_open
  produce_unless now records b (some error) = (err error, record b { next_produce_error = none })
  produce_unless now records b none = produce_open now records b b.connected

  unfoldable pub produce : (ℕ → ℕ) → List RawRecord → Broker → Result (Unit {0}) × Broker
  unfolding produce_unless
  produce now records b = produce_unless now records b b.next_produce_error

-- `fetchTopicOffsets` of one topic: the next offset of each partition
unfoldable pub high_offsets : Text → ℕ → List (List RawMessage) → List PartitionOffsets
high_offsets name partition [] = []
high_offsets name partition (log ∷ logs) =
    record { topic = name; partition = partition; low = codes "0"; high = show (length log) }
    ∷ high_offsets name (suc partition) logs

unfoldable pub fetch_topic_offsets : List Text → Dict Topic → Result (List PartitionOffsets)
unfolding high_offsets
fetch_topic_offsets [] topics = ok []
fetch_topic_offsets (name ∷ names) topics = elim (lookup name topics) [
  | none ↦ err (adapter_error 0 (codes "unknown topic") (some false))
  | some t ↦ elim (fetch_topic_offsets names topics) [
    | err e ↦ err e
    | ok rest ↦ ok (high_offsets name 0 t.partitions ++ rest)
  ]
]

-- ===== src/Testing/Member.antt =====
-- What one consumption does to its group of the in-memory broker: positions, commits, pauses and
-- the end of a member.
use kafka_harbor.Prelude.{
  ℕ, suc, ◌+◌, ◌-◌, zero, Bool, true, not, ◌||◌, Option, none, some, List, [], ◌∷◌, Text, codes,
  Dict, lookup, insert, delete, length, or_else, get_elem?, text_eq, filter, decimal_value,
  if◌then◌else◌,
}
use kafka_harbor.Errors.{adapter_error}
use kafka_harbor.Result.{Result, ok, err}
use kafka_harbor.Adapter.{TopicPartition, TopicPartitionOffset, RawMessage, partition_key}
use kafka_harbor.Topics.{member}
use kafka_harbor.Testing.{Topic, Group}

-- Where a partition is read from first: the committed offset, or an end of the log.
unfoldable pub start_position : Bool → Option Text → List RawMessage → ℕ
start_position from_beginning (some committed) log = decimal_value committed
start_position from_beginning none log = if from_beginning then 0 else length log

unfoldable pub open_position : Bool → Text → List RawMessage → Group → Group
unfolding start_position
open_position from_beginning slot log g =
    let opened = record g {
      positions =
          insert slot (start_position from_beginning (lookup slot g.committed) log) g.positions;
    } in
    elim (lookup slot g.positions) [ some position ↦ g | none ↦ opened ]

-- The message that `runPartition` delivers next: none while the partition is paused or at its end.
unfoldable pub next_message : Text → List RawMessage → Group → Option RawMessage
next_message slot log g =
    let message = get_elem? log (or_else (lookup slot g.positions) 0) in
    if member slot g.paused then none else message

-- A settled delivery, whether its handler resolved or threw.
unfoldable pub settle : Text → Group → Group
settle slot g = record g {
  positions = insert slot (or_else (lookup slot g.positions) 0 + 1) g.positions;
}

unfoldable pub commit_all : List TopicPartitionOffset → Dict Text → Dict Text
commit_all [] committed = committed
commit_all (o ∷ offsets) committed =
    commit_all offsets (insert (partition_key o.topic o.partition) o.offset committed)

-- the handle's `commit`
unfoldable pub commit : Bool → Bool → List TopicPartitionOffset → Group → Result Group
unfolding commit_all
commit connected stopped offsets g =
    if not connected || stopped
    then err (adapter_error 0 (codes "commit on a stopped consumer") none)
    else ok (record g { committed = commit_all offsets g.committed })

unfoldable pub pause : List TopicPartition → Group → Group
pause [] g = g
pause (p ∷ partitions) g =
    let key = partition_key p.topic p.partition in
    pause partitions
      (record g { paused = if member key g.paused then g.paused else key ∷ g.paused })

unfoldable pub resume : List TopicPartition → Group → Group
resume [] g = g
resume (p ∷ partitions) g = resume partitions (record g {
  paused = filter (λ key. not (text_eq key (partition_key p.topic p.partition))) g.paused;
})

-- One partition is forgotten.
unfoldable pub forget : Text → Group → Group
forget slot g = record g {
  positions = delete slot g.positions;
  paused = filter (λ key. not (text_eq key slot)) g.paused;
}

unfoldable pub forget_partitions : Text → ℕ → Group → Group
unfolding forget
forget_partitions topic zero g = g
forget_partitions topic (suc n) g = forget_partitions topic n (forget (partition_key topic n) g)

unfoldable pub forget_topics : List Text → Dict Topic → Group → Group
unfolding forget_partitions
forget_topics [] topics g = g
forget_topics (name ∷ names) topics g =
    let count : ℕ = elim (lookup name topics) [ none ↦ 0 | some t ↦ length t.partitions ] in
    forget_topics names topics (forget_partitions name count g)

-- the handle's `stop`, once its deliveries settled
unfoldable pub stop : List Text → Dict Topic → Group → Group
unfolding forget_topics
stop names topics g =
    forget_topics names topics (record g { members = g.members - 1; stopped = true })

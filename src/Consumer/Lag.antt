-- ===== src/Consumer/Lag.antt =====
-- `lag` of src/consumer.ts, of one partition, from the offsets that the adapter reports.
use kafka_harbor.Prelude.{
  ℕ, ◌-◌, ◌≤◌, ◌≡◌, Bool, true, false, ◌&&◌, Option, none, some, Text, codes, Dict, lookup, or_else,
  decimal_value, arith, if◌then◌else◌, ◌∷◌, List, [],
}
use kafka_harbor.Errors.{adapter_error}
use kafka_harbor.Result.{Result, ok, err, Ensures}
use kafka_harbor.Adapter.{PartitionOffsets, partition_key}
use kafka_harbor.Commit.{ℤ, pos, negsuc, is_offset, offset_distance}

-- `PartitionLag`
pub record PartitionLag : Type 0 where
  pub topic : Text
  pub partition : ℕ
  pub low : Text
  pub high : Text
  pub committed : Option Text
  pub lag : ℤ

is_forward : ℤ → Bool
is_forward (pos n) = true
is_forward (negsuc n) = false

-- A committed offset that the broker would not reset.
in_range : Text → Text → Option Text → Bool
unfolding is_forward offset_distance
in_range low high none = false
in_range low high (some offset) =
    is_forward (offset_distance low offset) && is_forward (offset_distance offset high)

position : Bool → Text → Text → Option Text → Text
unfolding in_range
position from_beginning low high committed =
    if in_range low high committed
    then or_else committed []
    else (if from_beginning then low else high)

-- `checked`, of an offset that may be missing
invalid : Option Text → Bool
unfolding is_offset
invalid none = false
invalid (some offset) = if is_offset offset then false else true

measured : Bool → PartitionOffsets → Option Text → PartitionLag
unfolding position
measured from_beginning p committed = record {
  topic = p.topic;
  partition = p.partition;
  low = p.low;
  high = p.high;
  committed = committed;
  lag = offset_distance (position from_beginning p.low p.high committed) p.high;
}

-- What a client reports is no sentinel and no garbage.
unfoldable pub lag_at : Bool → PartitionOffsets → Option Text → Result PartitionLag
unfolding invalid measured
lag_at from_beginning p committed =
    if is_offset p.low && is_offset p.high && (if invalid committed then false else true)
    then ok (measured from_beginning p committed)
    else err (adapter_error 0 (codes "an invalid offset was reported") (some false))

-- Every partition of the topics, with the offsets that the group committed.
unfoldable pub lag : Bool → Dict (Option Text) → List PartitionOffsets → Result (List PartitionLag)
unfolding lag_at
lag from_beginning committed [] = ok []
lag from_beginning committed (p ∷ partitions) =
    elim (lag_at from_beginning p
      (or_else (lookup (partition_key p.topic p.partition) committed) none)) [
        | err e ↦ err e
        | ok one ↦ elim (lag from_beginning committed partitions) [
          | err e ↦ err e
          | ok rest ↦ ok (one ∷ rest)
        ]
      ]

-- A lag is a count of messages that the topic holds.
abbrev pub IsWithin : PartitionLag → Type 0
IsWithin l = (n : ℕ) × (l.lag ≡ pos n) × (n ≤ decimal_value l.high - decimal_value l.low)

-- Where a group goes on lies between the watermarks.
position_between :
    (from_beginning : Bool) (low high : Text) (committed : Option Text)
    → decimal_value low ≤ decimal_value high
    → (decimal_value low ≤ decimal_value (position from_beginning low high committed))
      × (decimal_value (position from_beginning low high committed) ≤ decimal_value high)
unfolding position in_range is_forward offset_distance
position_between from_beginning low high none ordered = ground arith
position_between from_beginning low high (some offset) ordered = ground arith

measured-IsWithin :
    (from_beginning : Bool) (p : PartitionOffsets) (committed : Option Text)
    → decimal_value p.low ≤ decimal_value p.high
    → IsWithin (measured from_beginning p committed)
unfolding measured offset_distance
measured-IsWithin from_beginning p committed ordered =
    let between = position_between from_beginning p.low p.high committed ordered in
    (
      decimal_value p.high - decimal_value (position from_beginning p.low p.high committed),
      ground (arith, between.1),
      omega (arith, between.0),
    )

-- Whatever offset the group committed, stale or not, the lag of a partition is not negative, and no
-- more than the messages between the watermarks, if those are in order.
pub lag_at-IsWithin :
    (from_beginning : Bool) (p : PartitionOffsets) (committed : Option Text)
    → decimal_value p.low ≤ decimal_value p.high
    → Ensures IsWithin (lag_at from_beginning p committed)
unfolding lag_at
lag_at-IsWithin from_beginning p committed ordered =
    checked (is_offset p.low && is_offset p.high && (if invalid committed then false else true))
  where
    checked :
        (valid : Bool)
        → Ensures IsWithin (
            if valid
            then ok (measured from_beginning p committed)
            else err (adapter_error 0 (codes "an invalid offset was reported") (some false)))
    checked true = measured-IsWithin from_beginning p committed ordered
    checked false = tt

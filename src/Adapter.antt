-- ===== src/Adapter.antt =====
-- The types of src/adapter.ts that cross the boundary to the client, and src/topic-partition.ts.
pub mod Key
use kafka_harbor.Prelude.{ℕ, Option, List, [], ◌∷◌, ◌++◌, Text, show}
use kafka_harbor.Headers.{RawHeaders, MessageHeaders}

pub record TopicPartition : Type 0 where
  pub topic : Text
  pub partition : ℕ

pub record TopicPartitionOffset : Type 0 where
  pub topic : Text
  pub partition : ℕ
  pub offset : Text

pub record RawMessage : Type 0 where
  pub topic : Text
  pub partition : ℕ
  pub offset : Text
  pub key : Option (List ℕ)
  pub value : Option (List ℕ)
  pub headers : RawHeaders
  pub timestamp : ℕ

pub record RawRecord : Type 0 where
  pub topic : Text
  pub key : Option (List ℕ)
  pub value : Option (List ℕ)
  pub headers : MessageHeaders
  pub partition : Option ℕ

pub record TopicSpec : Type 0 where
  pub topic : Text
  pub partitions : Option ℕ
  pub replication_factor : Option ℕ

pub record PartitionOffsets : Type 0 where
  pub topic : Text
  pub partition : ℕ
  pub low : Text
  pub high : Text

pub record CommittedOffset : Type 0 where
  pub topic : Text
  pub partition : ℕ
  pub offset : Option Text

-- `partitionKey`: the separator is U+0000
unfoldable pub partition_key : Text → ℕ → Text
partition_key topic partition = topic ++ (0 ∷ show partition)

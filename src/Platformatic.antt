-- ===== src/Platformatic.antt =====
-- src/adapters/platformatic/index.ts: the client adapter over @platformatic/kafka, as far as it decides
-- something itself.
pub mod Gate
pub mod Assigner
use kafka_harbor.Prelude.{
  ℕ, Bool, true, false, ◌&&◌, ◌||◌, not, Option, none, some, List, [], ◌∷◌, Text, any, filter,
  text_eq, ◌==◌, if◌then◌else◌,
}
use kafka_harbor.Topics.{member}
use kafka_harbor.Adapter.{TopicPartition, partition_key}

-- What the gate reads of a message of the client.
pub record ClientMessage : Type 0 where
  pub topic : Text
  pub partition : ℕ
  pub offset : ℕ
  pub leader_epoch : ℕ

-- `s.add(k)` and `s.delete(k)` on a set of keys
unfoldable pub set_add : Text → List Text → List Text
set_add k keys = if member k keys then keys else k ∷ keys

unfoldable pub remove : Text → List Text → List Text
remove k keys = filter (λ j. not (text_eq j k)) keys

-- `isAssigned`, by the assignments of the client: `null` before the first join
unfoldable pub is_assigned : Option (List TopicPartition) → Text → ℕ → Bool
is_assigned none topic partition = true
is_assigned (some assignments) topic partition =
    any (λ a. text_eq a.topic topic && a.partition == partition) assignments

unfoldable pub keys_of : List TopicPartition → List Text
keys_of [] = []
keys_of (a ∷ assignments) = partition_key a.topic a.partition ∷ keys_of assignments

-- `assignedNow`
unfoldable pub assigned_now : Option (List TopicPartition) → List Text
unfolding keys_of
assigned_now none = []
assigned_now (some assignments) = keys_of assignments

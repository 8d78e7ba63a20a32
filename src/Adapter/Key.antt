-- ===== src/Adapter/Key.antt =====
-- `splitPartitionKey` of src/topic-partition.ts, and what makes the key one of its partition.
use kafka_harbor.Prelude.{
  ℕ, ◌≡◌, refl, sym, ap, ◌∙◌, true, [], ◌∷◌, ◌++◌, arith, Text, Option, none, some, ◌==◌, show,
  decimal_value, decimal_value-show, all, is_digit, all-show, if◌then◌else◌,
}
use kafka_harbor.Adapter.{TopicPartition, partition_key}

-- The two sides of the last U+0000 of a text, if it has one (`lastIndexOf` and `slice`).
split_last : Text → Option (Text × Text)
split_last [] = none
split_last (c ∷ s) = elim (split_last s) [
  | some (topic, rest) ↦ some (c ∷ topic, rest)
  | none ↦ if c == 0 then some ([], s) else none
]

-- `splitPartitionKey`; a text with no separator is no key
split_key : Option (Text × Text) → Option TopicPartition
split_key none = none
split_key (some (topic, rest)) = some (record { topic = topic; partition = decimal_value rest })

unfoldable pub split_partition_key : Text → Option TopicPartition
unfolding split_last split_key
split_partition_key key = split_key (split_last key)

-- A text of digits holds no separator.
split_last-digits : (s : Text) → all is_digit s ≡ true → split_last s ≡ none
unfolding split_last is_digit
split_last-digits [] h = refl
split_last-digits (c ∷ s) h = ground (arith, split_last-digits s)

split_last-key :
    (topic s : Text) → split_last s ≡ none → split_last (topic ++ (0 ∷ s)) ≡ some (topic, s)
unfolding split_last
split_last-key [] s h = rw (h, split_last)
split_last-key (c ∷ topic) s h = rw (split_last-key topic s h, split_last)

-- The key of a partition splits into its topic and number.
pub split-partition_key :
    (topic : Text) (partition : ℕ)
    → split_partition_key (partition_key topic partition)
      ≡ some (record { topic = topic; partition = partition })
unfolding partition_key split_partition_key
split-partition_key topic partition = rw (
  split_last-key topic (show partition) (split_last-digits (show partition) (all-show partition)),
  decimal_value-show partition,
)

pub partition_key-injective :
    (s t : Text) (m n : ℕ) → partition_key s m ≡ partition_key t n → (s ≡ t) × (m ≡ n)
partition_key-injective s t m n e =
    let same =
      sym (split-partition_key s m) ∙ (ap split_partition_key e ∙ split-partition_key t n) in
    (ground (arith, same), ground (arith, same))

-- ===== src/Partitioner/Range.antt =====
-- Where `partitionForKey` sends a key.
use native.Mathlib.Nat.{mod-lt}
use kafka_harbor.Prelude.{
  ℕ, ◌≡◌, refl, ap, ◌∙◌, ◌≤◌, ◌<◌, ◌-◌, ◌%◌, ◌^◌, List, [], ◌∷◌, arith, codes,
}
use kafka_harbor.Commit.{ℤ, pos, negsuc}
use kafka_harbor.Result.{ok}
use kafka_harbor.Partitioner.{murmur2, mask, remainder, partition_for_key}

murmur2_key : murmur2 (codes "key") ≡ negsuc 1079937366
unfolding murmur2
murmur2_key = refl

murmur2_bytes : murmur2 (255 ∷ 0 ∷ 16 ∷ []) ≡ negsuc 1536016135
unfolding murmur2
murmur2_bytes = refl

murmur2_orders : murmur2 (codes "orders-123") ≡ pos 216622777
unfolding murmur2
murmur2_orders = refl

-- A masked integer is not negative, and neither is the remainder of one.
masked_remainder :
    (hash : ℤ) (partitions : ℕ)
    → 1 ≤ partitions
    → (p : ℕ) × (remainder (mask hash) partitions ≡ pos p) × (p < partitions)
unfolding mask remainder
masked_remainder (pos a) partitions h = (a % 2 ^ 31 % partitions, refl, mod-lt _ (omega arith))
masked_remainder (negsuc a) partitions h =
    ((2 ^ 31 - 1 - a % 2 ^ 31) % partitions, refl, mod-lt _ (omega arith))

accepted :
    (key : List ℕ) (partitions : ℕ)
    → 1 ≤ partitions
    → partition_for_key key partitions ≡ ok (remainder (mask (murmur2 key)) partitions)
unfolding partition_for_key
accepted key partitions h = ground arith

-- Every key, whether its hash is negative or not, has a partition among those there are, as long as
-- there is one: the signed remainder is not negative and is less than their number.
pub partition_for_key-lt :
    (key : List ℕ) (partitions : ℕ)
    → 1 ≤ partitions
    → (p : ℕ) × (partition_for_key key partitions ≡ ok (pos p)) × (p < partitions)
partition_for_key-lt key partitions some_there =
    let (p, e, below) = masked_remainder (murmur2 key) partitions some_there in
    (p, accepted key partitions some_there ∙ ap ok e, below)

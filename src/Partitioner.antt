-- ===== src/Partitioner.antt =====
-- src/partitioner.ts: Kafka's default partitioner for keyed records. The arithmetic is on the unsigned
-- patterns of 32-bit integers; the hash is the signed integer of its pattern.
pub mod Range
use Prim.Native.Nat.{bit_xor}
use kafka_harbor.Prelude.{
  ℕ, ◌+◌, ◌-◌, ◌*◌, ◌/◌, ◌%◌, ◌^◌, List, [], ◌∷◌, codes, length, ltb, if◌then◌else◌,
}
use kafka_harbor.Errors.{config_error}
use kafka_harbor.Commit.{ℤ, pos, negsuc}
use kafka_harbor.Result.{Result, ok, err}

abbrev seed : ℕ
seed = 2538058380

abbrev m : ℕ
m = 1540483477

-- `Math.imul`, on patterns
unfoldable mul32 : ℕ → ℕ → ℕ
mul32 a b = a * b % 2 ^ 32

-- One step of the loop: four bytes, little end first.
unfoldable mix : ℕ → ℕ → ℕ
unfolding mul32
mix h word =
    let k = mul32 word m in let k = bit_xor k (k / 2 ^ 24) in bit_xor (mul32 h m) (mul32 k m)

-- The bytes after the last full word; the lowest of them multiplies.
unfoldable mix_tail : ℕ → List ℕ → ℕ
unfolding mul32
mix_tail h (a ∷ b ∷ c ∷ _) = mul32 (bit_xor (bit_xor (bit_xor h (c * 2 ^ 16)) (b * 2 ^ 8)) a) m
mix_tail h (a ∷ b ∷ []) = mul32 (bit_xor (bit_xor h (b * 2 ^ 8)) a) m
mix_tail h (a ∷ []) = mul32 (bit_xor h a) m
mix_tail h [] = h

unfoldable mix_all : ℕ → List ℕ → ℕ
unfolding mix mix_tail
mix_all h (a ∷ b ∷ c ∷ d ∷ rest) = mix_all (mix h (a + b * 2 ^ 8 + c * 2 ^ 16 + d * 2 ^ 24)) rest
mix_all h bytes = mix_tail h bytes

unfoldable avalanche : ℕ → ℕ
unfolding mul32
avalanche h = let h = mul32 (bit_xor h (h / 2 ^ 13)) m in bit_xor h (h / 2 ^ 15)

-- The signed 32-bit integer of a pattern.
unfoldable pub to_signed : ℕ → ℤ
to_signed pattern = if ltb pattern (2 ^ 31) then pos pattern else negsuc (2 ^ 32 - 1 - pattern)

-- `murmur2`
unfoldable pub murmur2 : List ℕ → ℤ
unfolding mix_all avalanche to_signed
murmur2 bytes = to_signed (avalanche (mix_all (bit_xor seed (length bytes)) bytes))

-- `hash & 0x7fffffff`: the low 31 bits of the two's complement of a signed 32-bit integer.
unfoldable pub mask : ℤ → ℤ
mask (pos a) = pos (a % 2 ^ 31)
mask (negsuc a) = pos (2 ^ 31 - 1 - a % 2 ^ 31)

-- `%`, which keeps the sign of what it divides; there is no `-0` here.
unfoldable pub remainder : ℤ → ℕ → ℤ
remainder (pos a) n = pos (a % n)
remainder (negsuc a) n = let r = (a + 1) % n in if ltb r 1 then pos 0 else negsuc (r - 1)

-- `partitionForKey`, of a key that is bytes
unfoldable pub partition_for_key : List ℕ → ℕ → Result ℤ
unfolding murmur2 mask remainder
partition_for_key key partitions =
    if ltb partitions 1
    then err (config_error 0 (codes "partitions must be an integer >= 1"))
    else ok (remainder (mask (murmur2 key)) partitions)

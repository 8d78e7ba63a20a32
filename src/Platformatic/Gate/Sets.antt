-- ===== src/Platformatic/Gate/Sets.antt =====
-- How often a key stands in a list, and what the gate's operations on sets and queues do to it.
use kafka_harbor.Prelude.{
  ℕ, suc, ◌+◌, ◌≤◌, ◌≡◌, refl, List, [], ◌∷◌, ◌++◌, Text, Dict, lookup, insert, delete, ltb, length,
  arith, text_eq, text_eq_iff, text_eq_comm, lookup-insert, lookup-delete, if◌then◌else◌,
}
use kafka_harbor.Topics.{member}
use kafka_harbor.Platformatic.{ClientMessage, set_add, remove}
use kafka_harbor.Platformatic.Gate.{queue_of}

unfoldable pub times : Text → List Text → ℕ
times k [] = 0
times k (j ∷ keys) = let rest = times k keys in if text_eq j k then suc rest else rest

pub member-times : (k : Text) (keys : List Text) → member k keys ≡ ltb 0 (times k keys)
unfolding member times
member-times k [] = refl
member-times k (j ∷ keys) = ground (arith, member-times k keys, text_eq_comm j k)

pub times-append : (k : Text) (xs ys : List Text) → times k (xs ++ ys) ≡ times k xs + times k ys
unfolding times
times-append k [] ys = omega arith
times-append k (j ∷ xs) ys = ground (arith, times-append k xs ys)

pub times-one : (k j : Text) → times k (j ∷ []) ≡ (if text_eq j k then 1 else 0)
unfolding times
times-one k j = refl

pub times-set_add :
    (k j : Text) (keys : List Text)
    → times k (set_add j keys)
      ≡ (if text_eq j k then (if ltb 0 (times k keys) then times k keys else 1) else times k keys)
unfolding times set_add
times-set_add k j keys = ground (arith, member-times k keys, member-times j keys, text_eq_iff j k)

pub times-remove :
    (k j : Text) (keys : List Text)
    → times k (remove j keys) ≡ (if text_eq j k then 0 else times k keys)
unfolding times remove
times-remove k j [] = ground arith
times-remove k j (i ∷ keys) =
    ground (arith, times-remove k j keys, text_eq_iff j k, text_eq_iff i k, text_eq_iff i j)

-- Removal takes away what was there.
pub length-remove :
    (k : Text) (keys : List Text) → length (remove k keys) + times k keys ≡ length keys
unfolding times remove
length-remove k [] = refl
length-remove k (j ∷ keys) = ground (arith, length-remove k keys)

pub length-set_add :
    (k : Text) (keys : List Text)
    → length (set_add k keys) ≡ (if ltb 0 (times k keys) then length keys else suc (length keys))
unfolding set_add
length-set_add k keys = ground (arith, member-times k keys)

-- How many messages wait on a partition, and on all of them.
unfoldable pub size : Text → Dict (List ClientMessage) → ℕ
size k queues = length (queue_of k queues)

unfoldable pub total : Dict (List ClientMessage) → ℕ
total [] = 0
total ((k, queue) ∷ queues) = length queue + total queues

-- How many entries a table has for a key.
unfoldable pub entries : Text → Dict (List ClientMessage) → ℕ
entries k [] = 0
entries k ((j, queue) ∷ queues) =
    let rest = entries k queues in if text_eq j k then suc rest else rest

pub size-insert :
    (k j : Text) (queue : List ClientMessage) (queues : Dict (List ClientMessage))
    → size k (insert j queue queues) ≡ (if text_eq j k then length queue else size k queues)
unfolding size queue_of
size-insert k j queue queues = ground (arith, lookup-insert j k queue queues)

pub size-delete :
    (k j : Text) (queues : Dict (List ClientMessage))
    → size k (delete j queues) ≡ (if text_eq j k then 0 else size k queues)
unfolding size queue_of
size-delete k j queues = ground (arith, lookup-delete j k queues)

pub entries-insert :
    (k j : Text) (queue : List ClientMessage) (queues : Dict (List ClientMessage))
    → entries k (insert j queue queues) ≡ (
        if text_eq j k
        then (if ltb 0 (entries k queues) then entries k queues else 1)
        else entries k queues)
unfolding entries insert
entries-insert k j queue [] = refl
entries-insert k j queue ((i, q) ∷ queues) =
    ground
      (arith, entries-insert k j queue queues, text_eq_iff j k, text_eq_iff i k, text_eq_iff i j)

pub entries-delete :
    (k j : Text) (queues : Dict (List ClientMessage))
    → entries k (delete j queues) ≡ (if text_eq j k then 0 else entries k queues)
unfolding entries delete
entries-delete k j [] = ground arith
entries-delete k j ((i, q) ∷ queues) =
    ground (arith, entries-delete k j queues, text_eq_iff j k, text_eq_iff i k, text_eq_iff i j)

pub total-insert :
    (k : Text) (queue : List ClientMessage) (queues : Dict (List ClientMessage))
    → total (insert k queue queues) + size k queues ≡ total queues + length queue
unfolding total size queue_of insert lookup
total-insert k queue [] = omega arith
total-insert k queue ((j, q) ∷ queues) = ground (arith, total-insert k queue queues)

absent :
    (k : Text) (queues : Dict (List ClientMessage))
    → entries k queues ≡ 0
    → (total (delete k queues) ≡ total queues) × (size k queues ≡ 0)
unfolding total size queue_of delete lookup entries
absent k [] e = (refl, refl)
absent k ((j, q) ∷ queues) e = ground (arith, absent k queues)

pub total-delete :
    (k : Text) (queues : Dict (List ClientMessage))
    → entries k queues ≤ 1
    → total (delete k queues) + size k queues ≡ total queues
unfolding total size queue_of delete lookup entries
total-delete k [] e = refl
total-delete k ((j, q) ∷ queues) e = ground (arith, total-delete k queues, absent k queues)

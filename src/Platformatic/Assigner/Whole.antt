-- ===== src/Platformatic/Assigner/Whole.antt =====
-- `partitionAssignerBySubscription` (src/adapters/platformatic/index.ts) as a whole: each partition that
-- someone subscribed to has one holder, who subscribed to it.
use kafka_harbor.Prelude.{
  ℕ, ◌+◌, ◌≤◌, ◌≡◌, refl, Bool, true, false, ◌&&◌, ◌||◌, Option, none, some, List, [], ◌∷◌, ◌∙◌,
  Text, Dict, lookup, filter, ltb, or_else, any, arith, text_eq_comm, if◌then◌else◌,
}
use kafka_harbor.Topics.{member}
use kafka_harbor.Platformatic.{set_add}
use kafka_harbor.Platformatic.Gate.Sets.{times, times-set_add}
use kafka_harbor.Platformatic.Assigner.{
  Members, insert_sorted, sort, add_all, add_read, add_members, subscribed_topics, ids, subscribes,
  subscribers, no_assignments, partition_assigner,
}
use kafka_harbor.Platformatic.Assigner.Once.{
  count, has_of, held_by, holders, is_nonempty, assignable, assign_topics-holders,
  assign_topics-OnlySubscribers,
}

-- Whether the leader or a member names the topic.
names_topic : Text → Option (List Text) → Bool
names_topic t none = false
names_topic t (some topics) = member t topics

unfoldable pub is_named : Text → Members → Bool
unfolding names_topic
is_named t [] = false
is_named t ((id, topics) ∷ members) = names_topic t topics || is_named t members

times-insert_sorted :
    (t k : Text) (keys : List Text) → times t (insert_sorted k keys) ≡ times t (k ∷ keys)
unfolding times insert_sorted
times-insert_sorted t k [] = refl
times-insert_sorted t k (j ∷ keys) = ground (arith, times-insert_sorted t k keys)

times-sort : (t : Text) (keys : List Text) → times t (sort keys) ≡ times t keys
unfolding sort times
times-sort t [] = refl
times-sort t (k ∷ keys) = ground (arith, times-insert_sorted t k (sort keys), times-sort t keys)

module _ (f : Text → Bool) where
  any-insert_sorted :
      (k : Text) (keys : List Text) → any f (insert_sorted k keys) ≡ (f k || any f keys)
  unfolding insert_sorted
  any-insert_sorted k [] = refl
  any-insert_sorted k (j ∷ keys) = ground (arith, any-insert_sorted k keys)

  any-sort : (keys : List Text) → any f (sort keys) ≡ any f keys
  unfolding sort
  any-sort [] = refl
  any-sort (k ∷ keys) = ground (arith, any-insert_sorted k (sort keys), any-sort keys)

  nonempty-filter : (keys : List Text) → is_nonempty (filter f keys) ≡ any f keys
  unfolding is_nonempty
  nonempty-filter [] = refl
  nonempty-filter (k ∷ keys) = ground (arith, nonempty-filter keys)

-- Once, if it was there or comes.
abbrev once_if : Bool → ℕ → ℕ
once_if new n = if ltb 0 n then n else if new then 1 else 0

times-add_all :
    (t : Text) (more keys : List Text)
    → times t (add_all more keys) ≡ once_if (member t more) (times t keys)
unfolding add_all member
times-add_all t [] keys = ground arith
times-add_all t (k ∷ more) keys =
    ground (arith, times-add_all t more (set_add k keys), times-set_add t k keys, text_eq_comm t k)

times-add_read :
    (t : Text) (topics : Option (List Text)) (keys : List Text)
    → times t (add_read topics keys) ≡ once_if (names_topic t topics) (times t keys)
unfolding add_read names_topic
times-add_read t none keys = ground arith
times-add_read t (some topics) keys = times-add_all t topics keys

times-add_members :
    (t : Text) (members : Members) (keys : List Text)
    → times t (add_members members keys) ≡ once_if (is_named t members) (times t keys)
unfolding add_members is_named
times-add_members t [] keys = ground arith
times-add_members t ((id, topics) ∷ members) keys =
    ground (arith, times-add_members t members (add_read topics keys), times-add_read t topics keys)

times-subscribed_topics :
    (t : Text) (topics : List Text) (members : Members)
    → times t (subscribed_topics topics members)
      ≡ (if member t topics || is_named t members then 1 else 0)
unfolding subscribed_topics times
times-subscribed_topics t topics members =
    ground (arith, times-add_members t members (add_all topics []), times-add_all t topics [])

holders-no_assignments :
    (t : Text) (p : ℕ) (keys : List Text) → holders t p (no_assignments keys) ≡ 0
unfolding holders no_assignments has_of count lookup
holders-no_assignments t p [] = refl
holders-no_assignments t p (id ∷ keys) = omega (arith, holders-no_assignments t p keys)

held_by-no_assignments :
    (m t : Text) (p : ℕ) (keys : List Text) → held_by m t p (no_assignments keys) ≡ 0
unfolding held_by no_assignments has_of count lookup
held_by-no_assignments m t p [] = refl
held_by-no_assignments m t p (id ∷ keys) = ground (arith, held_by-no_assignments m t p keys)

assignable_lem :
    (members : Members) (metadata : Dict ℕ) (t : Text) (p : ℕ)
    → assignable members (sort (ids members)) metadata t p
      ≡ (any (subscribes members t) (ids members) && ltb p (or_else (lookup t metadata) 0))
unfolding assignable subscribers
assignable_lem members metadata t p = ground (
  arith,
  nonempty-filter (subscribes members t) (sort (ids members)),
  any-sort (subscribes members t) (ids members),
)

share :
    (total before n : ℕ) (wanted fits there : Bool)
    → total ≡ before + (if fits then n else 0)
    → before ≡ 0
    → n ≡ (if wanted then 1 else 0)
    → fits ≡ there
    → total ≡ (if wanted && there then 1 else 0)
share total before n wanted fits there e f g h = ground arith

-- A partition is held by exactly one member, once, if it is one of a topic that the leader or a member
-- names and that some member subscribed to, and by none otherwise; and whoever holds a partition
-- subscribed to its topic, a member whose subscription could not be read counting as subscribed.
pub partition_assigner-holders :
    (members : Members) (topics : List Text) (metadata : Dict ℕ) (t : Text) (p : ℕ)
    → (holders t p (partition_assigner members topics metadata) ≡ (
        if (member t topics || is_named t members)
          && (any (subscribes members t) (ids members) && ltb p (or_else (lookup t metadata) 0))
        then 1
        else 0))
      × ((id : Text)
          → 1 ≤ held_by id t p (partition_assigner members topics metadata)
          → subscribes members t id ≡ true)
unfolding partition_assigner
partition_assigner-holders members topics metadata t p =
    let all_ids = sort (ids members) in
    let all_topics = sort (subscribed_topics topics members) in
    let a = no_assignments all_ids in
    (
      share _ _ (times t all_topics) (member t topics || is_named t members)
          (assignable members all_ids metadata t p) _
          (assign_topics-holders members all_ids metadata all_topics 0 a t p)
          (holders-no_assignments t p all_ids)
          (times-sort t (subscribed_topics topics members)
            ∙ times-subscribed_topics t topics members)
          (assignable_lem members metadata t p),
      λ id h.
          assign_topics-OnlySubscribers members all_ids metadata all_topics 0 a
            (λ m u q held. ground (arith, held_by-no_assignments m u q all_ids)) id t p h,
    )

-- ===== src/Platformatic/Assigner/Once.antt =====
-- Who holds a partition after `partitionAssignerBySubscription` (src/adapters/platformatic/index.ts).
use native.Mathlib.Nat.{mod-lt}
use kafka_harbor.Prelude.{
  inl, inr, ℕ, zero, suc, ◌+◌, ◌%◌, ◌≤◌, ◌<◌, ◌≡◌, refl, Bool, true, false, not, ◌&&◌, Option, none,
  some, List, [], ◌∷◌, ◌++◌, Text, Dict, lookup, insert, get_elem?, length, ltb, or_else, arith,
  ◌==◌, text_eq, text_eq_iff, text_eq_refl, lookup-insert, Bool-cases, if◌then◌else◌,
}
use kafka_harbor.Topics.{member}
use kafka_harbor.Platformatic.Gate.Sets.{times}
use kafka_harbor.Platformatic.Assigner.{
  Members, Assignments, ids, subscribes, subscribers, push_partition, give, assign_partitions,
  assign_topics,
}

-- How often a partition stands in a list.
unfoldable pub count : ℕ → List ℕ → ℕ
count p [] = 0
count p (q ∷ qs) = let rest = count p qs in if q == p then suc rest else rest

-- How often it stands in what one member has, and in what all of them have.
unfoldable pub has_of : Text → ℕ → Dict (List ℕ) → ℕ
has_of topic p entries = count p (or_else (lookup topic entries) [])

unfoldable pub held_by : Text → Text → ℕ → Assignments → ℕ
held_by id topic p assignments = has_of topic p (or_else (lookup id assignments) [])

unfoldable pub holders : Text → ℕ → Assignments → ℕ
holders topic p [] = 0
holders topic p ((id, entries) ∷ assignments) = has_of topic p entries + holders topic p assignments

count-append :
    (p : ℕ) (xs : List ℕ) (q : ℕ) → count p (xs ++ q ∷ []) ≡ count p xs + (if q == p then 1 else 0)
unfolding count
count-append p [] q = ground arith
count-append p (x ∷ xs) q = ground (arith, count-append p xs q)

holders-insert :
    (topic : Text) (p : ℕ) (id : Text) (entries : Dict (List ℕ)) (assignments : Assignments)
    → holders topic p (insert id entries assignments) + held_by id topic p assignments
      ≡ holders topic p assignments + has_of topic p entries
unfolding holders held_by has_of insert lookup count
holders-insert topic p id entries [] = omega arith
holders-insert topic p id entries ((j, e) ∷ assignments) =
    ground (arith, holders-insert topic p id entries assignments)

-- One more partition for one member.
module _ (id topic : Text) (q : ℕ) (t : Text) (p : ℕ) (a : Assignments) where
  added : ℕ
  added = if text_eq topic t && q == p then 1 else 0

  has_of-push :
      has_of t p (
        insert topic
          (or_else (lookup topic (or_else (lookup id a) [])) [] ++ q ∷ [])
          (or_else (lookup id a) []))
      ≡ held_by id t p a + added
  unfolding has_of held_by added
  has_of-push =
      let entries = or_else (lookup id a) [] in
      ground (
        arith,
        lookup-insert topic t (or_else (lookup topic entries) [] ++ q ∷ []) entries,
        count-append p (or_else (lookup topic entries) []) q,
        text_eq_iff topic t,
      )

  holders-push : holders t p (push_partition id topic q a) ≡ holders t p a + added
  unfolding push_partition
  holders-push =
      let entries = or_else (lookup id a) [] in
      let pushed = insert topic (or_else (lookup topic entries) [] ++ q ∷ []) entries in
      ground (arith, holders-insert t p id pushed a, has_of-push)

  held_by-push :
      (m : Text)
      → held_by m t p (push_partition id topic q a)
        ≡ held_by m t p a + (if text_eq id m then added else 0)
  unfolding push_partition held_by
  held_by-push m =
      let entries = or_else (lookup id a) [] in
      let pushed = insert topic (or_else (lookup topic entries) [] ++ q ∷ []) entries in
      ground (arith, lookup-insert id m pushed a, has_of-push, text_eq_iff id m)

-- A member that is in reach of the cursor.
record Chosen (subscribed : List Text) (i : ℕ) : Type 0 where
  id : Text
  found : get_elem? subscribed i ≡ some id
  among : member id subscribed ≡ true

chosen : (subscribed : List Text) (i : ℕ) → i < length subscribed → Chosen subscribed i
unfolding member
chosen [] i h = elim h [ ]
chosen (id ∷ subscribed) zero h = record {
  id = id;
  found = refl;
  among = ground (arith, text_eq_refl id);
}
chosen (id ∷ subscribed) (suc i) h =
    let c = chosen subscribed i (omega arith) in
    record { id = c.id; found = c.found; among = ground (arith, c.among) }

unfoldable pub is_nonempty : List Text → Bool
is_nonempty [] = false
is_nonempty (id ∷ ids) = true

-- Whether the loop over the partitions of a topic comes to this one.
abbrev comes_to : List Text → Text → ℕ → ℕ → Text → ℕ → Bool
comes_to subscribed topic q left t p =
    is_nonempty subscribed && text_eq topic t && not (ltb p q) && ltb p (q + left)

give-holders :
    (o : Option Text) (id topic : Text) (q : ℕ) (a : Assignments) (t : Text) (p : ℕ)
    → o ≡ some id
    → holders t p (give o topic q a) ≡ holders t p a + (if text_eq topic t && q == p then 1 else 0)
unfolding give added
give-holders none id topic q a t p e = cc
give-holders (some j) id topic q a t p e = holders-push j topic q t p a

assign_partitions-holders :
    (subscribed : List Text) (topic : Text) (q left c : ℕ) (a : Assignments) (t : Text) (p : ℕ)
    → holders t p (assign_partitions subscribed topic q left (c, a)).1
      ≡ holders t p a + (if comes_to subscribed topic q left t p then 1 else 0)
unfolding assign_partitions is_nonempty
assign_partitions-holders [] topic q left c a t p = omega arith
assign_partitions-holders (id ∷ others) topic q zero c a t p = ground arith
assign_partitions-holders (id ∷ others) topic q (suc left) c a t p =
    let i = c % suc (length others) in
    let next = chosen (id ∷ others) i (mod-lt c (omega arith)) in
    ground (
      arith,
      assign_partitions-holders (id ∷ others) topic (suc q) left (suc c)
          (give (get_elem? (id ∷ others) i) topic q a) t p,
      give-holders (get_elem? (id ∷ others) i) next.id topic q a t p next.found,
    )

-- Only subscribers hold a partition of a topic.
module _ (members : Members) where
  abbrev OnlySubscribers : Assignments → Type 0
  OnlySubscribers a = (m t : Text) (p : ℕ) → 1 ≤ held_by m t p a → subscribes members t m ≡ true

  give-OnlySubscribers :
      (o : Option Text) (id topic : Text) (q : ℕ) (a : Assignments)
      → o ≡ some id
      → subscribes members topic id ≡ true
      → OnlySubscribers a
      → OnlySubscribers (give o topic q a)
  unfolding give added
  give-OnlySubscribers none id topic q a e s only = only
  give-OnlySubscribers (some j) id topic q a e s only = λ m t p h.
      ground
        (arith, held_by-push j topic q t p a m, only m t p, text_eq_iff j m, text_eq_iff topic t)

  member-filter :
      (topic id : Text) (all_ids : List Text)
      → member id (subscribers members topic all_ids) ≡ true
      → subscribes members topic id ≡ true
  unfolding subscribers member
  member-filter topic id [] e = ground arith
  member-filter topic id (j ∷ all_ids) e =
      ground (arith, member-filter topic id all_ids, text_eq_iff id j)

  assign_partitions-OnlySubscribers :
      (subscribed : List Text) (topic : Text) (q left c : ℕ) (a : Assignments)
      → ((id : Text) → member id subscribed ≡ true → subscribes members topic id ≡ true)
      → OnlySubscribers a
      → OnlySubscribers (assign_partitions subscribed topic q left (c, a)).1
  unfolding assign_partitions
  assign_partitions-OnlySubscribers [] topic q left c a s only = only
  assign_partitions-OnlySubscribers (id ∷ others) topic q zero c a s only = only
  assign_partitions-OnlySubscribers (id ∷ others) topic q (suc left) c a s only =
      let i = c % suc (length others) in
      let next = chosen (id ∷ others) i (mod-lt c (omega arith)) in
      assign_partitions-OnlySubscribers (id ∷ others) topic (suc q) left (suc c)
        (give (get_elem? (id ∷ others) i) topic q a) s
        (give-OnlySubscribers (get_elem? (id ∷ others) i) next.id topic q a next.found
          (s next.id next.among) only)

  module _ (all_ids : List Text) (metadata : Dict ℕ) where
    pub assign_topics-OnlySubscribers :
        (topics : List Text) (c : ℕ) (a : Assignments)
        → OnlySubscribers a
        → OnlySubscribers (assign_topics members all_ids metadata topics (c, a)).1
    unfolding assign_topics
    assign_topics-OnlySubscribers [] c a only = only
    assign_topics-OnlySubscribers (topic ∷ topics) c a only =
        let next =
          assign_partitions (subscribers members topic all_ids) topic 0
            (or_else (lookup topic metadata) 0) (c, a) in
        assign_topics-OnlySubscribers topics next.0 next.1 (
          assign_partitions-OnlySubscribers (subscribers members topic all_ids) topic 0
            (or_else (lookup topic metadata) 0) c a (λ id. member-filter topic id all_ids) only)

    -- Whether a partition of the topic is there to assign, and someone to assign it to.
    unfoldable pub assignable : Text → ℕ → Bool
    unfolding is_nonempty
    assignable t p =
        is_nonempty (subscribers members t all_ids) && ltb p (or_else (lookup t metadata) 0)

    comes_to-assignable :
        (topic t : Text) (p : ℕ)
        → comes_to
            (subscribers members topic all_ids)
            topic
            0
            (or_else (lookup topic metadata) 0)
            t
            p
          ≡ (text_eq topic t && assignable t p)
    unfolding assignable
    comes_to-assignable topic t p = elim (Bool-cases (text_eq topic t)) [
      | inl same ↦ rw ((text_eq_iff topic t).0 same) (ground arith)
      | inr other ↦ ground arith
    ]

    times-step :
        (wanted same : Bool) (total now rest : ℕ) (before : ℕ)
        → total ≡ now + (if wanted then rest else 0)
        → now ≡ before + (if same && wanted then 1 else 0)
        → total ≡ before + (if wanted then (if same then suc rest else rest) else 0)
    times-step wanted same total now rest before e f = ground arith

    pub assign_topics-holders :
        (topics : List Text) (c : ℕ) (a : Assignments) (t : Text) (p : ℕ)
        → holders t p (assign_topics members all_ids metadata topics (c, a)).1
          ≡ holders t p a + (if assignable t p then times t topics else 0)
    unfolding assign_topics times
    assign_topics-holders [] c a t p = ground arith
    assign_topics-holders (topic ∷ topics) c a t p =
        let n = or_else (lookup topic metadata) 0 in
        let next = assign_partitions (subscribers members topic all_ids) topic 0 n (c, a) in
        times-step (assignable t p) (text_eq topic t) _ (holders t p next.1) (times t topics)
          (holders t p a) (assign_topics-holders topics next.0 next.1 t p)
          (rw (assign_partitions-holders (subscribers members topic all_ids) topic 0 n c a t p)
            (rw (comes_to-assignable topic t p) refl))

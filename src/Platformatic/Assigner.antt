-- ===== src/Platformatic/Assigner.antt =====
-- `partitionAssignerBySubscription` of src/adapters/platformatic/index.ts: the partitions of each topic,
-- round-robin over the members that subscribed to it.
pub mod Once
pub mod Whole
use kafka_harbor.Prelude.{
  ℕ, zero, suc, ◌+◌, ◌%◌, Bool, true, false, not, ◌&&◌, ◌||◌, Option, none, some, List, [], ◌∷◌,
  ◌++◌, Text, Dict, lookup, insert, filter, get_elem?, length, ltb, or_else, ◌==◌, if◌then◌else◌,
}
use kafka_harbor.Topics.{member}
use kafka_harbor.Platformatic.{set_add}

-- `members`, with the topics that each subscribed to, where the leader could read them; the
-- assignments, by member and topic.
abbrev pub Members : Type 0
Members = Dict (Option (List Text))

abbrev pub Assignments : Type 0
Assignments = Dict (Dict (List ℕ))

-- The order of texts by their code units, and `sort`.
unfoldable pub text_le : Text → Text → Bool
text_le [] t = true
text_le (a ∷ s) [] = false
text_le (a ∷ s) (b ∷ t) = ltb a b || (a == b && text_le s t)

unfoldable pub insert_sorted : Text → List Text → List Text
insert_sorted k [] = k ∷ []
insert_sorted k (j ∷ keys) = if text_le k j then k ∷ j ∷ keys else j ∷ insert_sorted k keys

unfoldable pub sort : List Text → List Text
unfolding insert_sorted
sort [] = []
sort (k ∷ keys) = insert_sorted k (sort keys)

unfoldable pub add_all : List Text → List Text → List Text
add_all [] keys = keys
add_all (k ∷ more) keys = add_all more (set_add k keys)

add_read : Option (List Text) → List Text → List Text
unfolding add_all
add_read none keys = keys
add_read (some topics) keys = add_all topics keys

-- `subscribedTopics`: the leader's topics, and every member's.
unfoldable pub add_members : Members → List Text → List Text
unfolding add_read
add_members [] keys = keys
add_members ((id, topics) ∷ members) keys = add_members members (add_read topics keys)

unfoldable pub subscribed_topics : List Text → Members → List Text
unfolding add_members add_all
subscribed_topics topics members = add_members members (add_all topics [])

unfoldable pub ids : Members → List Text
ids [] = []
ids ((id, topics) ∷ members) = id ∷ ids members

includes : Text → Option (Option (List Text)) → Bool
includes topic (some (some topics)) = member topic topics
includes topic (some none) = true
includes topic none = true

-- Whether a member subscribed to the topic; one whose subscription could not be read did.
unfoldable pub subscribes : Members → Text → Text → Bool
unfolding includes
subscribes members topic id = includes topic (lookup id members)

unfoldable pub subscribers : Members → Text → List Text → List Text
subscribers members topic ids = filter (subscribes members topic) ids

-- `entry.partitions.push(partition)`
unfoldable pub push_partition : Text → Text → ℕ → Assignments → Assignments
push_partition id topic partition assignments =
    let entries = or_else (lookup id assignments) [] in
    insert id (insert topic (or_else (lookup topic entries) [] ++ partition ∷ []) entries)
      assignments

give : Option Text → Text → ℕ → Assignments → Assignments
unfolding push_partition
give none topic partition assignments = assignments
give (some id) topic partition assignments = push_partition id topic partition assignments

-- The loop over the partitions of a topic, `left` of them to come; the cursor goes along.
unfoldable pub assign_partitions : List Text → Text → ℕ → ℕ → ℕ × Assignments → ℕ × Assignments
unfolding give
assign_partitions [] topic partition left state = state
assign_partitions (id ∷ others) topic partition zero state = state
assign_partitions (id ∷ others) topic partition (suc left) (cursor, assignments) =
    let subscribed = id ∷ others in
    assign_partitions subscribed topic (suc partition) left (
      suc cursor,
      give (get_elem? subscribed (cursor % length subscribed)) topic partition assignments,
    )

unfoldable pub assign_topics :
    Members → List Text → Dict ℕ → List Text → ℕ × Assignments → ℕ × Assignments
unfolding assign_partitions
assign_topics members ids metadata [] state = state
assign_topics members ids metadata (topic ∷ topics) state =
    assign_topics members ids metadata topics (
      assign_partitions (subscribers members topic ids) topic 0 (or_else (lookup topic metadata) 0)
        state)

unfoldable pub no_assignments : List Text → Assignments
no_assignments [] = []
no_assignments (id ∷ ids) = (id, []) ∷ no_assignments ids

-- `partitionAssignerBySubscription`
unfoldable pub partition_assigner : Members → List Text → Dict ℕ → Assignments
unfolding assign_topics no_assignments
partition_assigner members topics metadata =
    let member_ids = sort (ids members) in
    (assign_topics members member_ids metadata (sort (subscribed_topics topics members))
      (0, no_assignments member_ids)).1

-- ===== src/Consumer/Life/Derived.antt =====
-- `prepareTopics` and `topicSpec` of src/consumer.ts: the retry topics and DLQs exist before a consumer
-- joins its group.
pub mod Exists
use kafka_harbor.Prelude.{
  ℕ, ◌≡◌, refl, Bool, true, false, not, ◌&&◌, ◌||◌, Option, none, some, List, [], ◌∷◌, ◌++◌, Text,
  Dict, arith, any_value, text_eq, text_eq_iff, if◌then◌else◌, ap, text_eq_comm,
}
use kafka_harbor.Errors.{Thrown, topic_missing_error}
use kafka_harbor.Result.{Result, ok, err}
use kafka_harbor.Adapter.{TopicSpec}
use kafka_harbor.Topics.{TopicPlan, member}
use kafka_harbor.Consumer.{Subscription, Routes}

-- `topicDefaults`
pub record TopicDefaults : Type 0 where
  pub partitions : Option ℕ
  pub replication_factor : Option ℕ

-- `names.add(topic)`
unfoldable pub add_name : Text → List Text → List Text
add_name t names = if member t names then names else names ++ t ∷ []

unfoldable pub add_names : List Text → List Text → List Text
unfolding add_name
add_names [] names = names
add_names (t ∷ ts) names = add_names ts (add_name t names)

add_dlq : Option Text → List Text → List Text
unfolding add_name
add_dlq none names = names
add_dlq (some dlq) names = add_name dlq names

plan_names : TopicPlan → List Text → List Text
unfolding add_names add_dlq
plan_names plan names = add_dlq plan.dlq_topic (add_names plan.retry_topics names)

owner_names : Dict Subscription → List Text → List Text
unfolding plan_names
owner_names [] names = names
owner_names ((topic, owner) ∷ owners) names = owner_names owners (plan_names owner.plan names)

-- The names that the loop over the routes collects.
unfoldable pub derived_names : Routes → List Text → List Text
unfolding owner_names
derived_names [] names = names
derived_names ((topic, route) ∷ routes) names =
    derived_names routes (owner_names route.owners names)

unfoldable pub topic_spec : TopicDefaults → Text → TopicSpec
topic_spec defaults topic = record {
  topic = topic;
  partitions = defaults.partitions;
  replication_factor = defaults.replication_factor;
}

unfoldable pub topic_specs : TopicDefaults → List Text → List TopicSpec
unfolding topic_spec
topic_specs defaults [] = []
topic_specs defaults (t ∷ ts) = topic_spec defaults t ∷ topic_specs defaults ts

-- What `prepareTopics` throws, if anything, and what it had the client create.
pub record Preparation : Type 0 where
  pub failure : Option Thrown
  pub created : List TopicSpec

-- The client's `admin`
module _ (create_topics : List TopicSpec → Option Thrown) (topic_exists : Text → Result Bool) where
  -- What the client answers about every topic; the first rejection is thrown.
  present : List TopicSpec → Result (List Bool)
  present [] = ok []
  present (spec ∷ specs) =
      let rest = present specs in
      elim (topic_exists spec.topic) [
        | err thrown ↦ err thrown
        | ok there ↦ elim rest [ err thrown ↦ err thrown | ok others ↦ ok (there ∷ others) ]
      ]

  -- `derived.find((_spec, index) => present[index] === false)`
  missing : List TopicSpec → List Bool → Option Text
  missing (spec ∷ specs) (false ∷ others) = some spec.topic
  missing (spec ∷ specs) (true ∷ others) = missing specs others
  missing [] others = none
  missing (spec ∷ specs) [] = none

  unless_missing : Option Text → Option Thrown
  unless_missing none = none
  unless_missing (some topic) = some (topic_missing_error 0 topic)

  check_present : List TopicSpec → Result (List Bool) → Option Thrown
  unfolding missing unless_missing
  check_present specs (err thrown) = some thrown
  check_present specs (ok answers) = unless_missing (missing specs answers)

  prepare : Bool → List TopicSpec → Preparation
  unfolding present check_present
  prepare auto_create [] = record { failure = none; created = [] }
  prepare true (spec ∷ specs) = record {
    failure = create_topics (spec ∷ specs);
    created = spec ∷ specs;
  }
  prepare false (spec ∷ specs) = record {
    failure = check_present (spec ∷ specs) (present (spec ∷ specs));
    created = [];
  }

  unfoldable pub prepare_topics : Bool → TopicDefaults → Routes → Preparation
  unfolding prepare
  prepare_topics auto_create defaults routes =
      prepare auto_create (topic_specs defaults (derived_names routes []))

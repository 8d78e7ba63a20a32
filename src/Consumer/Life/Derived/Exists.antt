-- ===== src/Consumer/Life/Derived/Exists.antt =====
-- `prepareTopics` of src/consumer.ts: the topics that it creates or looks for are those to which the
-- routes forward.
use kafka_harbor.Prelude.{
  ◌≡◌, refl, Bool, true, false, not, ◌&&◌, ◌||◌, Option, none, some, List, [], ◌∷◌, ◌++◌, Text,
  Dict, arith, any_value, text_eq, text_eq_iff, ap, text_eq_comm,
}
use kafka_harbor.Errors.{Thrown}
use kafka_harbor.Result.{Result, ok}
use kafka_harbor.Adapter.{TopicSpec}
use kafka_harbor.Topics.{TopicPlan, member}
use kafka_harbor.Consumer.{Subscription, Routes}
use kafka_harbor.Consumer.Life.Derived.{
  TopicDefaults, add_name, add_names, add_dlq, plan_names, owner_names, derived_names, topic_spec,
  topic_specs, present, missing, unless_missing, check_present, prepare, prepare_topics,
}

-- Whether a message of these routes may be forwarded to the topic.
is_dlq : Text → Option Text → Bool
is_dlq t none = false
is_dlq t (some dlq) = text_eq t dlq

unfoldable pub plan_forwards : Text → TopicPlan → Bool
unfolding is_dlq
plan_forwards t plan = member t plan.retry_topics || is_dlq t plan.dlq_topic

unfoldable pub forwards : Text → Routes → Bool
unfolding plan_forwards
forwards t routes =
    any_value (λ route. any_value (λ owner. plan_forwards t owner.plan) route.owners) routes

-- No name is in the list twice.
unfoldable pub is_unique : List Text → Bool
is_unique [] = true
is_unique (t ∷ ts) = not (member t ts) && is_unique ts

module _ (t : Text) where
  member-append : (ts us : List Text) → member t (ts ++ us) ≡ (member t ts || member t us)
  unfolding member
  member-append [] us = refl
  member-append (u ∷ ts) us = ground (arith, member-append ts us)

  member-add_name :
      (u : Text) (names : List Text) → member t (add_name u names) ≡ (text_eq t u || member t names)
  unfolding add_name member
  member-add_name u names = ground (arith, member-append names (u ∷ []), text_eq_iff t u)

  member-add_names :
      (ts names : List Text) → member t (add_names ts names) ≡ (member t ts || member t names)
  unfolding add_names member
  member-add_names [] names = refl
  member-add_names (u ∷ ts) names =
      ground (arith, member-add_names ts (add_name u names), member-add_name u names)

  member-add_dlq :
      (dlq : Option Text) (names : List Text)
      → member t (add_dlq dlq names) ≡ (is_dlq t dlq || member t names)
  unfolding add_dlq is_dlq
  member-add_dlq none names = refl
  member-add_dlq (some dlq) names = member-add_name dlq names

  member-plan_names :
      (plan : TopicPlan) (names : List Text)
      → member t (plan_names plan names) ≡ (plan_forwards t plan || member t names)
  unfolding plan_names plan_forwards
  member-plan_names plan names = ground (
    arith,
    member-add_names plan.retry_topics names,
    member-add_dlq plan.dlq_topic (add_names plan.retry_topics names),
  )

  member-owner_names :
      (owners : Dict Subscription) (names : List Text)
      → member t (owner_names owners names)
        ≡ (any_value (λ owner. plan_forwards t owner.plan) owners || member t names)
  unfolding owner_names any_value
  member-owner_names [] names = refl
  member-owner_names ((topic, owner) ∷ owners) names = ground (
    arith,
    member-owner_names owners (plan_names owner.plan names),
    member-plan_names owner.plan names,
  )

  member-derived_names :
      (routes : Routes) (names : List Text)
      → member t (derived_names routes names) ≡ (forwards t routes || member t names)
  unfolding derived_names forwards any_value
  member-derived_names [] names = refl
  member-derived_names ((topic, route) ∷ routes) names = ground (
    arith,
    member-derived_names routes (owner_names route.owners names),
    member-owner_names route.owners names,
  )

is_unique-append :
    (t : Text) (names : List Text)
    → is_unique (names ++ t ∷ []) ≡ (not (member t names) && is_unique names)
unfolding is_unique member
is_unique-append t [] = refl
is_unique-append t (u ∷ names) =
    ground (arith, is_unique-append t names, member-append u names (t ∷ []), text_eq_comm u t)

add_name-is_unique :
    (t : Text) (names : List Text) → is_unique names ≡ true → is_unique (add_name t names) ≡ true
unfolding add_name
add_name-is_unique t names e = ground (arith, is_unique-append t names)

add_names-is_unique :
    (ts names : List Text) → is_unique names ≡ true → is_unique (add_names ts names) ≡ true
unfolding add_names
add_names-is_unique [] names e = e
add_names-is_unique (t ∷ ts) names e =
    add_names-is_unique ts (add_name t names) (add_name-is_unique t names e)

add_dlq-is_unique :
    (dlq : Option Text) (names : List Text)
    → is_unique names ≡ true
    → is_unique (add_dlq dlq names) ≡ true
unfolding add_dlq
add_dlq-is_unique none names e = e
add_dlq-is_unique (some dlq) names e = add_name-is_unique dlq names e

owner_names-is_unique :
    (owners : Dict Subscription) (names : List Text)
    → is_unique names ≡ true
    → is_unique (owner_names owners names) ≡ true
unfolding owner_names plan_names
owner_names-is_unique [] names e = e
owner_names-is_unique ((topic, owner) ∷ owners) names e =
    owner_names-is_unique owners (plan_names owner.plan names) (
      add_dlq-is_unique owner.plan.dlq_topic (add_names owner.plan.retry_topics names)
        (add_names-is_unique owner.plan.retry_topics names e))

derived_names-is_unique :
    (routes : Routes) (names : List Text)
    → is_unique names ≡ true
    → is_unique (derived_names routes names) ≡ true
unfolding derived_names
derived_names-is_unique [] names e = e
derived_names-is_unique ((topic, route) ∷ routes) names e =
    derived_names-is_unique routes (owner_names route.owners names)
      (owner_names-is_unique route.owners names e)

unfoldable pub spec_topics : List TopicSpec → List Text
spec_topics [] = []
spec_topics (spec ∷ specs) = spec.topic ∷ spec_topics specs

spec_topics-topic_specs :
    (defaults : TopicDefaults) (ts : List Text) → spec_topics (topic_specs defaults ts) ≡ ts
unfolding spec_topics topic_specs topic_spec
spec_topics-topic_specs defaults [] = refl
spec_topics-topic_specs defaults (t ∷ ts) = ap (λ us. t ∷ us) (spec_topics-topic_specs defaults ts)

module _ (create_topics : List TopicSpec → Option Thrown) (topic_exists : Text → Result Bool) where
  -- A check that finds nothing missing found every topic.
  check_present-exists :
      (t : Text) (specs : List TopicSpec)
      → check_present create_topics topic_exists specs (present create_topics topic_exists specs)
        ≡ none
      → member t (spec_topics specs) ≡ true
      → topic_exists t ≡ ok true
  unfolding check_present present missing unless_missing spec_topics member
  check_present-exists t [] e m = ground arith
  check_present-exists t (spec ∷ specs) e m =
      ground (arith, check_present-exists t specs, text_eq_iff t spec.topic)

  prepare-exists :
      (t : Text) (specs : List TopicSpec)
      → (prepare create_topics topic_exists false specs).failure ≡ none
      → member t (spec_topics specs) ≡ true
      → topic_exists t ≡ ok true
  unfolding prepare spec_topics member
  prepare-exists t [] e m = ground arith
  prepare-exists t (spec ∷ specs) e m = check_present-exists t (spec ∷ specs) e m

  prepare-created :
      (specs : List TopicSpec) → (prepare create_topics topic_exists true specs).created ≡ specs
  unfolding prepare
  prepare-created [] = refl
  prepare-created (spec ∷ specs) = refl

  -- With a topic to create, a preparation that does not fail is one that the client did not reject.
  prepare-accepted :
      (t : Text) (specs : List TopicSpec)
      → (prepare create_topics topic_exists true specs).failure ≡ none
      → member t (spec_topics specs) ≡ true
      → create_topics (prepare create_topics topic_exists true specs).created ≡ none
  unfolding prepare spec_topics member
  prepare-accepted t [] e m = ground arith
  prepare-accepted t (spec ∷ specs) e m = e

  prepare-asks_nothing :
      (specs : List TopicSpec) → (prepare create_topics topic_exists false specs).created ≡ []
  unfolding prepare
  prepare-asks_nothing [] = refl
  prepare-asks_nothing (spec ∷ specs) = refl

-- What the preparation does for a consumer's forwards. With `autoCreateTopics`, the client is asked to
-- create exactly the retry topics and DLQs to which its routes may forward, each of them once, and
-- when there is such a topic and the preparation does not fail, the client accepted that creation.
-- Without, nothing is created, and when the preparation
-- does not fail, the broker has every one of these topics.
pub prepare_topics-exists :
    (create_topics : List TopicSpec → Option Thrown) (topic_exists : Text → Result Bool)
    (defaults : TopicDefaults) (routes : Routes)
    → ((t : Text)
        → member t
            (spec_topics (prepare_topics create_topics topic_exists true defaults routes).created)
          ≡ forwards t routes)
      × (is_unique
            (spec_topics (prepare_topics create_topics topic_exists true defaults routes).created)
          ≡ true)
      × ((prepare_topics create_topics topic_exists true defaults routes).failure ≡ none
          → (t : Text) → forwards t routes ≡ true
          → create_topics (prepare_topics create_topics topic_exists true defaults routes).created
            ≡ none)
      × ((prepare_topics create_topics topic_exists false defaults routes).created ≡ [])
      × ((prepare_topics create_topics topic_exists false defaults routes).failure ≡ none
          → (t : Text) → forwards t routes ≡ true
          → topic_exists t ≡ ok true)
unfolding prepare_topics member is_unique
prepare_topics-exists create_topics topic_exists defaults routes =
    let names = derived_names routes [] in
    let specs = topic_specs defaults names in
    let same : spec_topics specs ≡ names = spec_topics-topic_specs defaults names in
    (
      λ t.
          rw (prepare-created create_topics topic_exists specs, same)
            (ground (arith, member-derived_names t routes [])),
      rw (prepare-created create_topics topic_exists specs, same)
          (derived_names-is_unique routes [] refl),
      λ e t f.
          prepare-accepted create_topics topic_exists t specs e
            (rw same (ground (arith, member-derived_names t routes []))),
      prepare-asks_nothing create_topics topic_exists specs,
      λ e t f.
          prepare-exists create_topics topic_exists t specs e
            (rw same (ground (arith, member-derived_names t routes []))),
    )

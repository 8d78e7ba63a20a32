-- ===== src/Consumer/Routes.antt =====
-- `ConsumerPipeline.route`, `ownerOf` and `topicSpec` of src/consumer.ts: the routing table.
pub mod Ladder
pub mod Invariant
use kafka_harbor.Prelude.{
  ℕ, zero, suc, ◌+◌, Bool, true, false, not, ◌&&◌, ◌||◌, Option, none, some, List, [], ◌∷◌, ◌++◌,
  Text, codes, or_else, is_some, any_value, length, ◌==◌, Dict, lookup, insert, has, if◌then◌else◌,
}
use kafka_harbor.Errors.{config_error}
use kafka_harbor.Result.{Result, ok, err, ◌>>=◌, ◌>>◌, refuse_if}
use kafka_harbor.Topics.{RetryLevel, TopicPlan, topic_plan, retry_topic, consumed_topics, member}
use kafka_harbor.Consumer.{Run, each, batch, Subscription, Route, Routes, Breaker}

-- What the constructor of the consumer keeps for its subscriptions.
pub record Settings : Type 0 where
  pub levels : List RetryLevel
  pub retry_naming : Text → ℕ → Text
  pub dlq_naming : Option (Text → Text)

is_batch : Run → Bool
is_batch each = false
is_batch (batch size wait) = true

any_batch : Dict Subscription → Bool
unfolding is_batch
any_batch owners = any_value (λ owner. is_batch owner.run) owners

-- A topic of the plan that a route may share: of the same level, and no batch on either side.
check_shared : Run → ℕ → Option Route → Result (Unit {0})
unfolding is_batch any_batch
check_shared run level none = ok tt
check_shared run level (some existing) = do
  refuse_if (not (existing.level == level)) (codes "topic is on another level")
  refuse_if (is_batch run || any_batch existing.owners)
      (codes "a batch subscription cannot share a retry topic")

-- `plan.retryTopic(level) as string`
abbrev pub ladder_topic : TopicPlan → ℕ → Text
ladder_topic plan level = or_else (retry_topic plan level) []

check_levels : Routes → TopicPlan → Run → List RetryLevel → Result (Unit {0})
unfolding check_shared
check_levels routes plan run [] = ok tt
check_levels routes plan run (l ∷ levels) =
    check_shared run l.level (lookup (ladder_topic plan l.level) routes)
    >> check_levels routes plan run levels

dlq_is_consumed : Routes → Option Text → Bool
dlq_is_consumed routes none = false
dlq_is_consumed routes (some dlq) = has dlq routes

-- Whether the DLQ of a subscription is among the topics that a plan consumes.
fills_consumed : TopicPlan → Subscription → Bool
unfolding member consumed_topics
fills_consumed plan owner = elim owner.plan.dlq_topic [
  | none ↦ false
  | some dlq ↦ member dlq (consumed_topics plan)
]

fills_any : TopicPlan → Routes → Bool
unfolding fills_consumed
fills_any plan routes =
    any_value (λ existing. any_value (fills_consumed plan) existing.owners) routes

-- One level of the plan joins its route, or opens it.
join_level : Text → Subscription → RetryLevel → Routes → Routes
join_level topic subscription l routes =
    let retry = ladder_topic subscription.plan l.level in
    let route =
      or_else (lookup retry routes)
        (record { owners = []; level = l.level; delay_ms = l.delay_ms }) in
    insert retry (record route { owners = insert topic subscription route.owners }) routes

join_levels : Text → Subscription → List RetryLevel → Routes → Routes
unfolding join_level
join_levels topic subscription [] routes = routes
join_levels topic subscription (l ∷ levels) routes =
    join_levels topic subscription levels (join_level topic subscription l routes)

-- `route(topic, settings)`: the table with the subscription, or why it is refused.
unfoldable pub route : Settings → Routes → Text → Run → Bool → Option Breaker → Result Routes
unfolding check_levels dlq_is_consumed fills_any join_levels
route settings routes topic run idempotency breaker = do
  plan ← topic_plan topic (length settings.levels) settings.retry_naming settings.dlq_naming
  let subscription : Subscription = record {
    plan = plan;
    run = run;
    idempotency = idempotency;
    breaker = breaker;
  }
  refuse_if (has topic routes) (codes "topic is claimed twice")
  check_levels routes plan run settings.levels
  refuse_if (dlq_is_consumed routes plan.dlq_topic)
      (codes "the DLQ is a topic this consumer already consumes")
  refuse_if (fills_any plan routes) (codes "a DLQ would be consumed through the topic")
  ok (
      join_levels topic subscription settings.levels (
        insert topic (record { owners = (topic, subscription) ∷ []; level = 0; delay_ms = 0 })
          routes))

-- `ownerOf`: one owner serves whatever the headers say; a shared topic goes by the original topic.
unfoldable pub owner_of : Route → Option Text → Option Subscription
owner_of route original_topic = elim route.owners [
  | [] ↦ none
  | (name, only) ∷ others ↦ elim others [
    | [] ↦ some only
    | second ∷ rest ↦ lookup (or_else original_topic []) route.owners
  ]
]

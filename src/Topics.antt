-- ===== src/Topics.antt =====
-- src/retry-topics.ts: the retry ladder and the topic plan of one subscription.
pub mod Plan
use kafka_harbor.Prelude.{
  ℕ, zero, suc, ◌+◌, ◌-◌, Bool, true, false, Option, none, some, List, [], ◌∷◌, ◌++◌, Text, codes,
  text_eq, show, any, get_elem?, length, if◌then◌else◌,
}
use kafka_harbor.Errors.{config_error}
use kafka_harbor.Result.{Result, ok, err, ◌>>=◌, ◌>>◌, refuse_if}

-- `defaultRetryTopicNaming`, `defaultDlqTopicNaming`
unfoldable pub default_retry_topic_naming : Text → ℕ → Text
default_retry_topic_naming topic level = topic ++ (codes "-retry-" ++ show level)

unfoldable pub default_dlq_topic_naming : Text → Text
default_dlq_topic_naming topic = topic ++ codes "-dlq"

pub record RetryLevel : Type 0 where
  pub level : ℕ
  pub delay_ms : ℕ

unfoldable pub levels_from : ℕ → List ℕ → List RetryLevel
levels_from level [] = []
levels_from level (delay ∷ delays) =
    record { level = level; delay_ms = delay } ∷ levels_from (level + 1) delays

-- `resolveRetryLevels`, of delays that `parseDuration` accepted
unfoldable pub resolve_retry_levels : List ℕ → List RetryLevel
unfolding levels_from
resolve_retry_levels delays = levels_from 1 delays

pub record TopicPlan : Type 0 where
  pub original : Text
  pub retry_topics : List Text
  pub dlq_topic : Option Text

unfoldable pub member : Text → List Text → Bool
member t ts = any (text_eq t) ts

abbrev pub duplicate_name : Text → Text
duplicate_name topic = codes "retry.topicNaming produced a duplicate topic name " ++ topic

abbrev pub dlq_collides : Text → Text
dlq_collides topic =
    codes "dlq.topicNaming produced a topic name that collides with the retry ladder: " ++ topic

-- The loop of the constructor: `level` is the next level, of which `remaining` are left.
ladder : (Text → ℕ → Text) → Text → List Text → ℕ → ℕ → Result (List Text)
unfolding member
ladder naming original taken level zero = ok []
ladder naming original taken level (suc remaining) =
    let topic = naming original level in
    let rest = ladder naming original (topic ∷ taken) (level + 1) remaining >>= λ topics.
    ok (topic ∷ topics) in
    if member topic taken then err (config_error 0 (duplicate_name topic)) else rest

plan_dlq : Option (Text → Text) → Text → List Text → Result (Option Text)
unfolding member
plan_dlq none original taken = ok none
plan_dlq (some naming) original taken = do
  refuse_if (member (naming original) taken) (dlq_collides (naming original))
  ok (some (naming original))

-- `new TopicPlan(original, levels, retryNaming, dlqNaming)`
unfoldable pub topic_plan : Text → ℕ → (Text → ℕ → Text) → Option (Text → Text) → Result TopicPlan
unfolding ladder plan_dlq
topic_plan original levels retry_naming dlq_naming = do
  topics ← ladder retry_naming original (original ∷ []) 1 levels
  dlq ← plan_dlq dlq_naming original (original ∷ topics)
  ok (record { original = original; retry_topics = topics; dlq_topic = dlq })

-- `consumedTopics`
unfoldable pub consumed_topics : TopicPlan → List Text
consumed_topics plan = plan.original ∷ plan.retry_topics

unfoldable pub topic_of_level : List Text → ℕ → Option Text
topic_of_level topics zero = none
topic_of_level topics (suc i) = get_elem? topics i

-- `retryTopic(level)`, 1-based
unfoldable pub retry_topic : TopicPlan → ℕ → Option Text
unfolding topic_of_level
retry_topic plan level = topic_of_level plan.retry_topics level

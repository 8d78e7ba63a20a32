-- ===== src/Consumer/Forward.antt =====
-- `commit`, `produceHop`, `forwardFailed`, `emitFailure` and `crash` of src/consumer.ts,
-- src/commit.ts and src/produce.ts.
pub mod Backing
pub mod Resent
pub mod Ladder
use kafka_harbor.Prelude.{
  ℕ, suc, ◌+◌, Bool, true, false, not, ◌&&◌, Option, none, some, List, [], ◌∷◌, Text, insert,
  is_some, if◌then◌else◌,
}
use kafka_harbor.Errors.{Thrown, is_serialization_error}
use kafka_harbor.Errors.Describe.{describe_error}
use kafka_harbor.Headers.{MessageHeaders, write_retry_info}
use kafka_harbor.Result.{Result, ok, err}
use kafka_harbor.Topics.{retry_topic}
use kafka_harbor.Adapter.{RawMessage, RawRecord, TopicPartitionOffset}
use kafka_harbor.Commit.{offset_after}
use kafka_harbor.Produce.{Kind, retry, dead_letter, outgoing, hop_record}
use kafka_harbor.Consumer.{Subscription, Pending}
use kafka_harbor.Consumer.World.{
  World, Env, Config, Effect, produced, produce_failed, committed, commit_failed, emitted, Event,
  message_retried, message_dead_lettered, message_failed, error, FailureOutcome, retried,
  dead_lettered, crash,
}
use kafka_harbor.Consumer.World.Elsewhere.{begin_stop}
use kafka_harbor.Consumer.Action.{
  Action, pure, throw, lift, gets, tell, modify, ask, await, ◌>>=◌, ◌>>◌,
}

-- `Verdict`
pub data Verdict : Type 0 where
  retry_to : Text → ℕ → Verdict
  dead_letter_to : Text → Verdict
  crashed : Verdict

module _ (env : Env) (config : Config) where
  settle_commit : TopicPartitionOffset → Option Thrown → Action Bool
  settle_commit offset none = do tell (committed offset); pure true
  settle_commit offset (some failure) = do
    tell (commit_failed offset)
    tell (emitted (error failure))
    pure false

  -- An offset that cannot be read is reported as a commit that failed.
  commit_offset : Result TopicPartitionOffset → Action Bool
  commit_offset (err failure) = do tell (emitted (error failure)); pure false
  commit_offset (ok offset) = do
    answer ← await env (λ n. env.commit n offset)
    settle_commit offset answer

  -- `commitAfter`
  pub commit_after : RawMessage → Action Bool
  commit_after raw = commit_offset (offset_after raw)

  -- `commit`: nothing is committed once a shutdown gave up on the delivery
  pub commit : RawMessage → Action Bool
  commit raw = do
    abandoned ← gets (λ w. w.abandoned)
    if abandoned then pure false else commit_after raw

  settle_produce : Kind → RawMessage → RawRecord → Option Thrown → Action (Unit {0})
  settle_produce kind raw sent none = tell (produced kind raw sent)
  settle_produce kind raw sent (some failure) = do
    tell (produce_failed kind raw sent)
    throw failure

  -- `produceHop` of one message, up to the acknowledgment
  pub produce_hop_at : RawMessage → Text → Kind → MessageHeaders → ℕ → Action (Unit {0})
  produce_hop_at raw topic kind headers at = do
    minted ← ask env.correlation_id
    let sent : RawRecord =
        outgoing config.hooks config.names true
          (hop_record config.platform config.names config.client_id raw topic headers at minted)
    answer ← await env (λ n. env.produce n sent)
    settle_produce kind raw sent answer

  -- `produceHop`, stamped now
  pub produce_hop : RawMessage → Text → Kind → MessageHeaders → Action (Unit {0})
  produce_hop raw topic kind headers =
      ask env.clock >>= λ at. produce_hop_at raw topic kind headers at

  dead_letter_or_crash : Pending → Option Text → MessageHeaders → Action Verdict
  dead_letter_or_crash item none tracking = pure crashed
  dead_letter_or_crash item (some dlq) tracking = do
    now ← ask env.clock
    produce_hop item.raw dlq dead_letter
        (insert config.names.dead_lettered_at (config.platform.to_iso now) tracking)
    pure (dead_letter_to dlq)

  next_hop : Pending → Subscription → ℕ → Bool → Option Text → MessageHeaders → Action Verdict
  next_hop item subscription next true (some topic) tracking = do
    produce_hop item.raw topic retry tracking
    pure (retry_to topic next)
  next_hop item subscription next _ _ tracking =
      dead_letter_or_crash item subscription.plan.dlq_topic tracking

  wants_retry : Pending → Subscription → Thrown → Action Bool
  wants_retry item subscription thrown =
      if is_serialization_error thrown
      then pure false
      else (ask (λ n. env.retry_if n thrown subscription.plan.original item.attempt) >>= lift)

  -- `forwardFailed`
  pub forward_failed : Pending → Subscription → ℕ → Thrown → Action Verdict
  forward_failed item subscription level thrown = do
    wanted ← wants_retry item subscription thrown
    now ← ask env.clock
    let tracking : MessageHeaders =
        write_retry_info config.platform item.headers config.names item.retry
          subscription.plan.original (describe_error thrown 1024) now
    next_hop item subscription (suc level) wanted (retry_topic subscription.plan (suc level))
        tracking

  emit_verdict : Pending → Verdict → Action (Unit {0})
  emit_verdict item (retry_to topic level) = do
    tell (emitted (message_failed item.raw retried))
    tell (emitted (message_retried item.raw topic level item.attempt))
  emit_verdict item (dead_letter_to dlq) = do
    tell (emitted (message_failed item.raw dead_lettered))
    tell (emitted (message_dead_lettered item.raw dlq item.attempt))
  emit_verdict item crashed = pure tt

  -- `emitFailure`
  pub emit_failure : Pending → Verdict → Action (Unit {0})
  emit_failure = emit_verdict

  -- `crash`
  pub crash_on : Thrown → RawMessage → Action (Unit {0})
  crash_on thrown raw = do tell (emitted (error thrown)); modify (begin_stop crash)

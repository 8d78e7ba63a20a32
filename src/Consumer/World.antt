-- ===== src/Consumer/World.antt =====
-- The state of `ConsumerPipeline` (src/consumer.ts) that a delivery reads and changes, what the
-- process does to the outside, and what the outside answers.
pub mod Elsewhere
use kafka_harbor.Prelude.{
  ℕ, suc, ◌+◌, Bool, true, false, Option, none, some, List, [], ◌∷◌, Text, Dict,
}
use kafka_harbor.Errors.{Thrown}
use kafka_harbor.Headers.{Platform, HeaderNames, RetryInfo, MessageHeaders}
use kafka_harbor.Result.{Result}
use kafka_harbor.Adapter.{RawMessage, RawRecord, TopicPartitionOffset}
use kafka_harbor.Produce.{Kind, Hooks}
use kafka_harbor.Consumer.{Routes, Subscription, Pending}

-- `ConsumerState` and `StopReason`
pub data ConsumerState : Type 0 where
  idle starting running stopping stopped : ConsumerState

pub data StopReason : Type 0 where
  shutdown abort crash : StopReason

-- `FailureOutcome`
pub data FailureOutcome : Type 0 where
  retried dead_lettered aborted crashed : FailureOutcome

-- The message that a handler gets; a decoded value is known by a number.
pub record Message : Type 0 where
  pub raw : RawMessage
  pub value : Option ℕ
  pub headers : MessageHeaders
  pub retry : Option RetryInfo

-- The events of `ConsumerEvents` that a delivery emits, and the one of a redrive.
pub data Event : Type 0 where
  message_processed : RawMessage → Bool → Event
  message_retried : RawMessage → Text → ℕ → ℕ → Event
  message_dead_lettered : RawMessage → Text → ℕ → Event
  message_failed : RawMessage → FailureOutcome → Event
  batch_processed : Text → ℕ → ℕ → Option FailureOutcome → Event
  error : Thrown → Event
  message_redriven : RawMessage → Text → Event

-- What a delivery did, in order: records that the broker acknowledged or did not, commits that
-- landed or did not, handlers that resolved or threw, partitions paused, waits and events.
pub data Effect : Type 0 where
  produced produce_failed : Kind → RawMessage → RawRecord → Effect
  committed commit_failed : TopicPartitionOffset → Effect
  handled handler_failed : RawMessage → Effect
  batch_handled batch_handler_failed : List Message → Effect
  paused : Text → Effect
  slept : ℕ → Effect
  emitted : Event → Effect

-- A consumption of the client: whether its adapter can pause a partition and resume it.
pub record Handle : Type 0 where
  pub can_pause : Bool

-- `Batch`: the messages of one partition that wait to run together.
pub record Batch : Type 0 where
  pub subscription : Subscription
  pub size : ℕ
  pub level : ℕ
  pub items : List Pending

-- The effects have the latest first; `step` counts what was asked of the outside.
pub record World : Type 0 where
  pub state : ConsumerState
  pub stop_reason : Option StopReason
  -- `stopping !== undefined`
  pub stop_begun : Bool
  -- `drainController` and `shutdownController` aborted
  pub draining : Bool
  pub abandoned : Bool
  pub revocations : Dict ℕ
  pub handles : Dict Handle
  pub parked : Dict RawMessage
  pub batches : Dict Batch
  -- the partitions on which a batch runs
  pub running_batches : List Text
  pub effects : List Effect
  pub step : ℕ

-- What other code of the process does while a delivery awaits: a stop begins, a stop gives up on
-- the handlers, a stop ends, a partition is revoked.
pub data Outside : Type 0 where
  stops : StopReason → Outside
  abandons : Outside
  finishes : Outside
  revokes : Text → Outside

-- What the outside answers to the n-th question. A call that may fail answers what it threw.
pub record Env : Type 0 where
  pub clock : ℕ → ℕ
  pub outside : ℕ → List Outside
  -- the client's produce, after the retries of the policy
  pub produce : ℕ → RawRecord → Option Thrown
  pub commit : ℕ → TopicPartitionOffset → Option Thrown
  pub pause : ℕ → Text → Option Thrown
  -- the serializer of the subscription, told a topic
  pub deserialize : ℕ → List ℕ → Text → Result ℕ
  -- the handler inside the instrumentation and, where there is one, the idempotency engine: what
  -- was thrown, or whether the outcome was replayed
  pub handle : ℕ → Message → ℕ → Result Bool
  pub handle_batch : ℕ → List Message → Option Thrown
  -- `breaker.policy.execute`, and whether the breaker let the handler run: none if it did
  pub admit : ℕ → Text → Option Thrown
  pub retry_if : ℕ → Thrown → Text → ℕ → Result Bool
  pub correlation_id : ℕ → Text

-- What the consumer was built with.
pub record Config : Type 0 where
  pub platform : Platform
  pub names : HeaderNames
  pub hooks : Hooks
  pub client_id : Text
  pub group_id : Text
  pub max_processing_time_ms : ℕ
  -- how many answers of a breaker the model of a hold reads
  pub hold_rounds : ℕ
  pub routes : Routes

-- ===== src/Consumer.antt =====
-- src/consumer.ts: what a consumer keeps of its subscriptions and of a delivery.
pub mod Routes
pub mod World
pub mod Action
pub mod Backed
pub mod Forward
pub mod Decode
pub mod Handle
pub mod Batch
pub mod Process
pub mod Lag
pub mod Life
use kafka_harbor.Prelude.{ℕ, Bool, Option, List, Text, Dict}
use kafka_harbor.Headers.{MessageHeaders, RetryInfo}
use kafka_harbor.Topics.{TopicPlan}
use kafka_harbor.Adapter.{RawMessage}

-- `Subscription.run`: message by message, or in batches of a size within a wait.
pub data Run : Type 0 where
  each : Run
  batch : ℕ → ℕ → Run

-- `Breaker`: the longest hold, if the options name one.
pub record Breaker : Type 0 where
  pub topic : Text
  pub hold_ms : Option ℕ

pub record Subscription : Type 0 where
  pub plan : TopicPlan
  pub run : Run
  pub idempotency : Bool
  pub breaker : Option Breaker

-- `Route`: the subscriptions that a consumed topic serves, by original topic, and its place on the
-- ladder.
pub record Route : Type 0 where
  pub owners : Dict Subscription
  pub level : ℕ
  pub delay_ms : ℕ

abbrev pub Routes : Type 0
Routes = Dict Route

-- `Pending`: a delivery decoded as far as the pipeline needs before a handler runs.
pub record Pending : Type 0 where
  pub raw : RawMessage
  pub headers : MessageHeaders
  pub retry : Option RetryInfo
  pub attempt : ℕ
  pub correlation_id : Option Text
  pub received_at : ℕ
  pub revocation : Option ℕ

-- ===== src/Consumer/Process.antt =====
-- `receive`, `process`, `park` and `deadLetterUnroutable` of src/consumer.ts: a delivery from the
-- adapter's call to the handler.
pub mod Loss
use kafka_harbor.Prelude.{
  ℕ, zero, suc, ◌+◌, ◌-◌, min, Bool, true, false, not, ◌&&◌, ◌||◌, Option, none, some, List, [],
  ◌∷◌, Text, codes, ◌++◌, ltb, leb, ◌==◌, text_eq, lookup, insert, or_else, is_some, any_value,
  Dict, if◌then◌else◌,
}
use kafka_harbor.Errors.{Thrown, config_error}
use kafka_harbor.Errors.Describe.{describe_error}
use kafka_harbor.Headers.{MessageHeaders, RetryInfo, decode_headers, read_retry_info}
use kafka_harbor.Result.{Result, ok, err}
use kafka_harbor.Adapter.{RawMessage}
use kafka_harbor.Produce.{dead_letter}
use kafka_harbor.Consumer.{Subscription, Route, Pending, Run, each, batch}
use kafka_harbor.Consumer.Routes.{owner_of}
use kafka_harbor.Consumer.World.{
  World, Env, Config, ConsumerState, idle, starting, running, stopping, stopped, Handle, Effect,
  paused, emitted, message_dead_lettered,
}
use kafka_harbor.Consumer.Action.{
  Action, pure, throw, gets, tell, modify, ask, await, await_other, catch, ◌>>=◌, ◌>>◌,
}
use kafka_harbor.Consumer.Forward.{commit, produce_hop, crash_on}
use kafka_harbor.Consumer.Batch.{collect}
use kafka_harbor.Consumer.Handle.{key_of, is_running, is_lost, sleep, handle_each}

-- A delivery as far as it was read: its route, and what its headers say.
pub record Arrival : Type 0 where
  pub raw : RawMessage
  pub route : Route
  pub headers : MessageHeaders
  pub retry : Option RetryInfo
  pub correlation_id : Option Text
  pub received_at : ℕ
  pub revocation : Option ℕ

attempt_of : Arrival → ℕ
attempt_of a = elim a.retry [ none ↦ a.route.level + 1 | some r ↦ r.count + 1 ]

unfoldable pub pending_of : Arrival → Pending
unfolding attempt_of
pending_of a = record {
  raw = a.raw;
  headers = a.headers;
  retry = a.retry;
  attempt = attempt_of a;
  correlation_id = a.correlation_id;
  received_at = a.received_at;
  revocation = a.revocation;
}

-- The one DLQ that all owners of a route share, if they do.
same_dlq : Option Text → Subscription → Bool
same_dlq none owner = not (is_some owner.plan.dlq_topic)
same_dlq (some dlq) owner = elim owner.plan.dlq_topic [ none ↦ false | some d ↦ text_eq d dlq ]

unfoldable pub shared_dlq : Dict Subscription → Option Text
unfolding same_dlq
shared_dlq [] = none
shared_dlq ((name, first) ∷ others) =
    if any_value (λ owner. not (same_dlq first.plan.dlq_topic owner)) others
    then none
    else first.plan.dlq_topic

-- What is left of a retry delay, capped at the delay; a clock behind the timestamp does not stretch it.
unfoldable pub wait_ms : ℕ → ℕ → ℕ → ℕ
wait_ms delay timestamp now = min delay (timestamp + delay - now)

abbrev pub original_of : Option RetryInfo → Option Text
original_of none = none
original_of (some r) = some r.original_topic

module _ (env : Env) (config : Config) where
  arrive : RawMessage → Route → ℕ → Option ℕ → Arrival
  arrive raw route received_at revocation =
      let headers = decode_headers config.platform raw.headers in
      record {
        raw = raw;
        route = route;
        headers = headers;
        retry =
            if ltb 0 route.level
            then read_retry_info config.platform headers config.names
            else none;
        correlation_id = lookup config.names.correlation_id headers;
        received_at = received_at;
        revocation = revocation;
      }

  claimed : Arrival → Option Text
  claimed a = elim (original_of a.retry) [
    | none ↦ lookup config.names.original_topic a.headers
    | some t ↦ some t
  ]

  named_as : Option Text → Text
  named_as none = codes "no original topic"
  named_as (some t) = codes "\"" ++ t ++ codes "\" as its original topic"

  unroutable : Arrival → Thrown
  unroutable a = config_error 0 (
      codes "message on shared retry topic \""
      ++ a.raw.topic
      ++ codes "\" names "
      ++ named_as (claimed a)
      ++ codes ", which this consumer does not subscribe to")

  emit_dead_letter : Arrival → Text → Bool → Action (Unit {0})
  emit_dead_letter a dlq false = pure tt
  emit_dead_letter a dlq true =
      tell (
        emitted
          (message_dead_lettered a.raw dlq (elim a.retry [ none ↦ 1 | some r ↦ r.count + 1 ])))

  dead_letter_to_shared : Arrival → Option Text → Action (Unit {0})
  dead_letter_to_shared a none = throw (unroutable a)
  dead_letter_to_shared a (some dlq) = do
    now ← ask env.clock
    produce_hop env config a.raw dlq dead_letter (
        insert config.names.dead_lettered_at (config.platform.to_iso now)
          (insert config.names.last_error (describe_error (unroutable a) 1024) a.headers))
    done ← commit env config a.raw
    emit_dead_letter a dlq done

  -- `deadLetterUnroutable`
  dead_letter_unroutable : Arrival → Action (Unit {0})
  dead_letter_unroutable a = dead_letter_to_shared a (shared_dlq a.route.owners)

  -- What a wait comes to: the message is this delivery's to handle, or it is left (parked, or lost).
  not_lost : Arrival → Action Bool
  not_lost a = gets (λ w. not (is_lost (key_of a.raw) a.revocation w))

  wait_in_delivery : Arrival → Action Bool
  wait_in_delivery a = do
    now ← ask env.clock
    let remaining : ℕ = wait_ms a.route.delay_ms a.raw.timestamp now
    if ltb 0 remaining then sleep env config remaining else pure tt
    not_lost a

  settle_park : Arrival → Option Thrown → Action Bool
  settle_park a (some failure) = wait_in_delivery a
  settle_park a none = do
    modify (λ w. record w { parked = insert (key_of a.raw) a.raw w.parked })
    tell (paused (key_of a.raw))
    pure false

  -- `park`: the partition is paused, or the delivery waits after all
  park : Arrival → Action Bool
  park a = ask (λ n. env.pause n (key_of a.raw)) >>= settle_park a

  -- Behind a message that is parked on the partition already.
  wait_behind : Arrival → Action Bool
  wait_behind a = do
    await_other env
    here ← not_lost a
    if here then wait_in_delivery a else pure false

  wait_paused : Arrival → Bool → Action Bool
  wait_paused a true = wait_behind a
  wait_paused a false = park a

  wait_with : Arrival → Option Handle → Action Bool
  wait_with a none = wait_in_delivery a
  wait_with a (some handle) =
      if handle.can_pause
      then (gets (λ w. is_some (lookup (key_of a.raw) w.parked)) >>= wait_paused a)
      else wait_in_delivery a

  -- Until the message is due; a parked one that comes back is.
  wait_until_due : Arrival → Bool → Action Bool
  wait_until_due a true = not_lost a
  wait_until_due a false = do
    now ← ask env.clock
    if ltb 0 (wait_ms a.route.delay_ms a.raw.timestamp now)
        then (gets (λ w. lookup a.raw.topic w.handles) >>= wait_with a)
        else not_lost a

  dispatch : Arrival → Subscription → Run → Action (Unit {0})
  dispatch a subscription each = handle_each env config (pending_of a) subscription a.route.level
  dispatch a subscription (batch size max_wait) =
      collect env config (pending_of a) subscription size a.route.level

  when_due : Arrival → Subscription → Bool → Action (Unit {0})
  when_due a subscription true = dispatch a subscription subscription.run
  when_due a subscription false = pure tt

  owned : Arrival → Bool → Option Subscription → Action (Unit {0})
  owned a due none = dead_letter_unroutable a
  owned a due (some subscription) = wait_until_due a due >>= when_due a subscription

  routed : RawMessage → Bool → Option Route → Action (Unit {0})
  routed raw due none = throw (
      config_error 0 (
        codes "received a message on \""
        ++ raw.topic
        ++ codes "\", a topic this consumer never subscribed to"))
  routed raw due (some route) = do
    received_at ← ask env.clock
    revocation ← gets (λ w. lookup (key_of raw) w.revocations)
    let a : Arrival = arrive raw route received_at revocation
    owned a due (owner_of route (original_of a.retry))

  -- `process`
  pub process : RawMessage → Bool → Action (Unit {0})
  process raw due = do
    up ← gets is_running
    if up then routed raw due (lookup raw.topic config.routes) else pure tt

  -- `receive`, once the consumer is ready: what the pipeline throws stops the consumer.
  pub receive : RawMessage → Bool → Action (Unit {0})
  receive raw due = catch (process raw due) (λ thrown. crash_on env config thrown raw)

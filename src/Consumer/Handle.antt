-- ===== src/Consumer/Handle.antt =====
-- The part of `process` of src/consumer.ts that runs a handler and settles its message, with the
-- breaker's hold (`guarded`).
pub mod Hold
pub mod Safety
pub mod Settle
use kafka_harbor.Prelude.{
  ℕ, zero, suc, ◌+◌, ◌-◌, min, Bool, true, false, not, ◌&&◌, ◌||◌, Option, none, some, Text, codes,
  ◌++◌, ltb, leb, ◌==◌, text_eq, lookup, or_else, show, if◌then◌else◌,
}
use kafka_harbor.Errors.{
  Thrown, is_abort_processing_error, failure_of, hold_expired_error, is_circuit_rejection,
}
use kafka_harbor.Errors.Cause.{fenced_in}
use kafka_harbor.Result.{Result, ok, err}
use kafka_harbor.Adapter.{RawMessage, partition_key}
use kafka_harbor.Consumer.{Subscription, Pending, Breaker}
use kafka_harbor.Consumer.World.{
  World, ConsumerState, running, Env, Config, Message, Effect, handled, handler_failed, slept,
  emitted, message_processed, message_failed, error, FailureOutcome, aborted, abort,
}
use kafka_harbor.Consumer.World.Elsewhere.{begin_stop}
use kafka_harbor.Consumer.Action.{
  Action, pure, throw, gets, tell, modify, ask, await, await_other, catch, ◌>>=◌, ◌>>◌,
}
use kafka_harbor.Consumer.Decode.{to_message}
use kafka_harbor.Consumer.Forward.{Verdict, crashed, commit, forward_failed, emit_failure}

-- What came of a handler: it resolved (or its outcome was replayed), it failed, the breaker held it
-- until the consumer let go, a shutdown gave up while the message was decoded, or the rounds of the
-- hold ran out.
pub data Ran : Type 0 where
  finished : Bool → Ran
  failed : Thrown → Ran
  held gave_up undecided : Ran

-- `this.revocations.get(key) !== revocation`
unfoldable pub was_revoked : Text → Option ℕ → World → Bool
was_revoked key none w = elim (lookup key w.revocations) [ none ↦ false | some n ↦ true ]
was_revoked key (some n) w = elim (lookup key w.revocations) [ none ↦ true | some m ↦ not (m == n) ]

unfoldable pub is_running : World → Bool
is_running w = elim w.state [ running ↦ true | _ ↦ false ]

-- `lost()`
unfoldable pub is_lost : Text → Option ℕ → World → Bool
unfolding is_running was_revoked
is_lost key revocation w = not (is_running w) || was_revoked key revocation w

abbrev pub key_of : RawMessage → Text
key_of raw = partition_key raw.topic raw.partition

abbrev pub hold_poll_ms : ℕ
hold_poll_ms = 1000

module _ (env : Env) (config : Config) where
  note_run : RawMessage → Result Bool → Action Ran
  note_run raw (ok replayed) = do tell (handled raw); pure (finished replayed)
  note_run raw (err thrown) = do tell (handler_failed raw); pure (failed (failure_of 0 thrown))

  -- `runHandler`
  pub run_handler : Pending → Message → Action Ran
  run_handler item message = do
    answer ← await env (λ n. env.handle n message item.attempt)
    note_run item.raw answer

  released : Pending → Action Bool
  released item = gets (λ w. w.draining || was_revoked (key_of item.raw) item.revocation w)

  pub sleep : ℕ → Action (Unit {0})
  sleep ms = do await_other env; tell (slept ms)

  expired : Breaker → ℕ → Thrown → Thrown
  expired breaker held_ms rejection =
      hold_expired_error 0
        (codes "circuit for \""
          ++ breaker.topic
          ++ codes "\" stayed open for "
          ++ show held_ms
          ++ codes "ms; the message goes down the ladder")
        rejection

  after_poll : Pending → Action Ran → Action Ran
  after_poll item again = do gone ← released item; if gone then pure held else again

  poll : Breaker → ℕ → ℕ → ℕ → Pending → Thrown → Action Ran → Action Ran
  poll breaker deadline since now item rejection again =
      if leb deadline now
      then pure (failed (expired breaker (now - since) rejection))
      else (sleep (min (deadline - now) hold_poll_ms) >> after_poll item again)

  -- The breaker rejected the call without a run: hold the delivery.
  hold : Breaker → ℕ → Option ℕ → Pending → Thrown → (ℕ → Action Ran) → Action Ran
  hold breaker deadline since item rejection again = do
    now ← ask env.clock
    gone ← released item
    if gone
        then pure held
        else poll breaker deadline (or_else since now) now item rejection
            (again (or_else since now))

  admitted :
      Breaker → ℕ → Option ℕ → Pending → Action Ran → (ℕ → Action Ran) → Option Thrown → Action Ran
  admitted breaker deadline since item run again none = run
  admitted breaker deadline since item run again (some rejection) =
      if is_circuit_rejection rejection
      then hold breaker deadline since item rejection again
      else pure (failed (failure_of 0 rejection))

  -- `guarded`: one round for each answer of the breaker, held since the first rejection, if any
  guarded : ℕ → Breaker → ℕ → Option ℕ → Pending → Action Ran → Action Ran
  guarded zero breaker deadline since item run = pure undecided
  guarded (suc rounds) breaker deadline since item run =
      await env (λ n. env.admit n breaker.topic)
      >>= admitted breaker deadline since item run
          (λ held_since w. guarded rounds breaker deadline (some held_since) item run w)

  -- The deadline of a hold: never past what the client tolerates for the delivery.
  unfoldable pub hold_deadline : Breaker → ℕ → ℕ → ℕ
  hold_deadline breaker received_at now =
      let tolerated = received_at + config.max_processing_time_ms in
      elim breaker.hold_ms [ none ↦ tolerated | some ms ↦ min (now + ms) tolerated ]

  pub run_guarded : Option Breaker → Pending → Action Ran → Action Ran
  run_guarded none item run = run
  run_guarded (some breaker) item run = do
    now ← ask env.clock
    let deadline : ℕ = hold_deadline breaker item.received_at now
    guarded config.hold_rounds breaker deadline none item run

  decoded_run : Pending → Subscription → Message → Action Ran
  decoded_run item subscription message = do
    abandoned ← gets (λ w. w.abandoned)
    if abandoned
        then pure gave_up
        else run_guarded subscription.breaker item (run_handler item message)

  -- The `try` of `process`: the message is decoded and the handler runs.
  pub run_message : Pending → Subscription → Action Ran
  run_message item subscription =
      catch
        (to_message env item.raw item.headers subscription.plan.original item.retry
          >>= decoded_run item subscription)
        (λ thrown. pure (failed (failure_of 0 thrown)))

  processed : Pending → Bool → Bool → Action (Unit {0})
  processed item replayed true = tell (emitted (message_processed item.raw replayed))
  processed item replayed false = pure tt

  reported : Pending → Verdict → Bool → Action (Unit {0})
  reported item verdict true = emit_failure env config item verdict
  reported item verdict false = pure tt

  settle_verdict : Pending → Thrown → Verdict → Action (Unit {0})
  settle_verdict item thrown crashed = do
    tell (emitted (message_failed item.raw FailureOutcome.crashed))
    throw thrown
  settle_verdict item thrown verdict = commit env config item.raw >>= reported item verdict

  stop_aborted : Pending → Thrown → Action (Unit {0})
  stop_aborted item thrown = do
    tell (emitted (message_failed item.raw aborted))
    tell (emitted (error thrown))
    modify (begin_stop abort)

  settle_failure : Pending → Subscription → ℕ → Thrown → Action (Unit {0})
  settle_failure item subscription level thrown =
      if is_abort_processing_error thrown || fenced_in thrown
      then stop_aborted item thrown
      else (forward_failed env config item subscription level thrown >>= settle_verdict item thrown)

  settle : Pending → Subscription → ℕ → Ran → Action (Unit {0})
  settle item subscription level held = pure tt
  settle item subscription level gave_up = pure tt
  settle item subscription level undecided = pure tt
  settle item subscription level (finished replayed) =
      commit env config item.raw >>= processed item replayed
  settle item subscription level (failed thrown) = settle_failure item subscription level thrown

  unless_abandoned : Action (Unit {0}) → Action (Unit {0})
  unless_abandoned next = do
    abandoned ← gets (λ w. w.abandoned)
    if abandoned then pure tt else next

  -- `process` from the moment the handler is to run, for a subscription message by message.
  pub handle_each : Pending → Subscription → ℕ → Action (Unit {0})
  handle_each item subscription level = do
    ran ← run_message item subscription
    unless_abandoned (settle item subscription level ran)

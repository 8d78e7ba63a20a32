-- ===== src/Consumer/Decode.antt =====
-- src/message.ts: the message that a handler gets, and who owns the failure to decode it.
pub mod Quiet
use kafka_harbor.Prelude.{
  ℕ, Bool, true, false, ◌||◌, Option, none, some, Text, codes, ◌++◌, List, if◌then◌else◌,
}
use kafka_harbor.Errors.{Thrown, is_serialization_error, is_declared_retryable, serialization_error}
use kafka_harbor.Headers.{MessageHeaders, RetryInfo}
use kafka_harbor.Result.{Result, ok, err}
use kafka_harbor.Adapter.{RawMessage}
use kafka_harbor.Consumer.World.{Env, Message}
use kafka_harbor.Consumer.Action.{Action, pure, throw, await, ◌>>=◌, ◌>>◌}

-- What `deserializeValue` makes of what the serializer threw.
unfoldable pub decoding_failure : Text → Thrown → Thrown
decoding_failure topic cause =
    if is_serialization_error cause || is_declared_retryable cause
    then cause
    else serialization_error 0
        (codes "message on topic \"" ++ (topic ++ codes "\" could not be deserialized")) cause

decoded : Text → Result ℕ → Action (Option ℕ)
decoded topic (ok value) = pure (some value)
decoded topic (err cause) = throw (decoding_failure topic cause)

module _ (env : Env) where
  -- `deserializeValue`
  deserialize_value : Option (List ℕ) → Text → Action (Option ℕ)
  deserialize_value none topic = pure none
  deserialize_value (some bytes) topic = do
    answer ← await env (λ n. env.deserialize n bytes topic)
    decoded topic answer

  -- `toMessage`
  pub to_message : RawMessage → MessageHeaders → Text → Option RetryInfo → Action Message
  unfolding deserialize_value decoded
  to_message raw headers topic retry = do
    value ← deserialize_value raw.value topic
    pure (record { raw = raw; value = value; headers = headers; retry = retry })

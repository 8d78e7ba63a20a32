-- ===== src/Consumer/Decode/Quiet.antt =====
-- Decoding has no effect to speak of.
use kafka_harbor.Prelude.{ℕ, Option, none, some, List, Text, ◌≡◌, refl}
use kafka_harbor.Headers.{MessageHeaders, RetryInfo}
use kafka_harbor.Result.{Result, ok, err}
use kafka_harbor.Adapter.{RawMessage}
use kafka_harbor.Consumer.World.{Env}
use kafka_harbor.Consumer.Action.Logs.{Log, Logs, Logs-pure, Logs-throw, Logs-await, Logs-bind}
use kafka_harbor.Consumer.Decode.{decoded, deserialize_value, to_message}

module _ (env : Env) (P : Log) where
  decoded-Logs : (topic : Text) (answer : Result ℕ) → Logs P (decoded topic answer) (λ _. P) P
  unfolding decoded
  decoded-Logs topic (ok value) = Logs-pure _ _ _ (some value) (λ es p. p)
  decoded-Logs topic (err cause) = Logs-throw _ _ _ _ (λ es p. p)

  deserialize_value-Logs :
      (value : Option (List ℕ)) (topic : Text)
      → Logs P (deserialize_value env value topic) (λ _. P) P
  unfolding deserialize_value
  deserialize_value-Logs none topic = Logs-pure _ _ _ none (λ es p. p)
  deserialize_value-Logs (some bytes) topic =
      Logs-bind (λ _. P) (Logs-await P env _ _) (decoded-Logs topic)

  pub to_message-Logs :
      (raw : RawMessage) (headers : MessageHeaders) (topic : Text) (retry : Option RetryInfo)
      → Logs P (to_message env raw headers topic retry) (λ _. P) P
  unfolding to_message
  to_message-Logs raw headers topic retry =
      Logs-bind (λ _. P) (deserialize_value-Logs raw.value topic)
        (λ value. Logs-pure _ _ _ _ (λ es p. p))

  -- The message that comes of a record is of that record.
  pub to_message_own :
      (raw : RawMessage) (headers : MessageHeaders) (topic : Text) (retry : Option RetryInfo)
      → Logs P (to_message env raw headers topic retry) (λ m es. (m.raw ≡ raw) × P es) P
  unfolding to_message
  to_message_own raw headers topic retry =
      Logs-bind (λ _. P) (deserialize_value-Logs raw.value topic)
        (λ value. Logs-pure _ _ _ _ (λ es p. (refl, p)))

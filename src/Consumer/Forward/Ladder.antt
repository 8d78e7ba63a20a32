-- ===== src/Consumer/Forward/Ladder.antt =====
-- Where `forwardFailed` of src/consumer.ts sends a failed message.
use kafka_harbor.Prelude.{
  ℕ, suc, ◌≡◌, refl, Bool, true, false, Option, none, some, [], ◌∷◌, Text, Dict,
}
use kafka_harbor.Errors.{Thrown, is_serialization_error}
use kafka_harbor.Headers.{MessageHeaders, HeaderNames}
use kafka_harbor.Topics.{retry_topic}
use kafka_harbor.Adapter.{RawMessage, RawRecord}
use kafka_harbor.Produce.{
  Hooks, HookValue, Kind, retry, dead_letter, outgoing, with_hook, hop_record,
}
use kafka_harbor.Consumer.{Subscription, Pending}
use kafka_harbor.Consumer.World.{Env, Config, produced}
use kafka_harbor.Consumer.Action.Logs.{
  Log, Logs, Logs-pure, Logs-throw, Logs-ask, Logs-await, Logs-lift, Logs-tell, Logs-bind, Logs-if,
}
use kafka_harbor.Consumer.Forward.{
  Verdict, retry_to, dead_letter_to, crashed, settle_produce, produce_hop_at, produce_hop,
  dead_letter_or_crash, next_hop, wants_retry, forward_failed,
}

-- The latest effect is that the broker acknowledged the message's own bytes on a topic.
abbrev pub Sent : Kind → RawMessage → Text → Log
Sent kind raw topic [] = ⊥
Sent kind raw topic (e ∷ es) =
    (sent : RawRecord) × (e ≡ produced kind raw sent)
    × (sent.topic ≡ topic)
    × (sent.key ≡ raw.key)
    × (sent.value ≡ raw.value)

-- A verdict says where the message went: one level up the ladder of its plan, or to the DLQ of the
-- plan; a crash, that the plan has no DLQ.
abbrev pub Went : Subscription → ℕ → RawMessage → Verdict → Log
Went subscription level raw (retry_to topic next) es =
    (next ≡ suc level)
    × (retry_topic subscription.plan (suc level) ≡ some topic)
    × Sent retry raw topic es
Went subscription level raw (dead_letter_to dlq) es =
    (subscription.plan.dlq_topic ≡ some dlq) × Sent dead_letter raw dlq es
Went subscription level raw crashed es = subscription.plan.dlq_topic ≡ none

abbrev pub Any : Log
Any es = Unit {0}

hook_bytes :
    (hooks : Hooks) (names : HeaderNames) (hop : Bool) (sent : RawRecord)
    (hook : Option (RawRecord → Option (Dict HookValue)))
    → let r = with_hook hooks names hop sent hook in
      (r.topic ≡ sent.topic) × (r.key ≡ sent.key) × (r.value ≡ sent.value)
unfolding with_hook
hook_bytes hooks names hop sent none = (refl, refl, refl)
hook_bytes hooks names hop sent (some hook) = (refl, refl, refl)

module _ (env : Env) (config : Config) where
  settle_produce-Sent :
      (kind : Kind) (raw : RawMessage) (sent : RawRecord) (topic : Text) (answer : Option Thrown)
      → (sent.topic ≡ topic) × (sent.key ≡ raw.key) × (sent.value ≡ raw.value)
      → Logs Any (settle_produce env config kind raw sent answer) (λ _. Sent kind raw topic) Any
  unfolding settle_produce
  settle_produce-Sent kind raw sent topic none same =
      Logs-tell _ _ _ _ (λ es u. (sent, refl, same.0, same.1, same.2))
  settle_produce-Sent kind raw sent topic (some failure) same =
      Logs-bind (λ _. Any) (Logs-tell _ _ _ _ (λ es u. tt))
        (λ _. Logs-throw _ _ _ failure (λ es u. tt))

  same_bytes :
      (raw : RawMessage) (topic : Text) (headers : MessageHeaders) (at : ℕ) (minted : Text)
      → let sent =
          outgoing config.hooks config.names true (
            hop_record config.platform config.names config.client_id raw topic headers at minted) in
        (sent.topic ≡ topic) × (sent.key ≡ raw.key) × (sent.value ≡ raw.value)
  unfolding outgoing hop_record
  same_bytes raw topic headers at minted =
      hook_bytes config.hooks config.names true _ config.hooks.on_produce

  produce_hop_at-Sent :
      (raw : RawMessage) (topic : Text) (kind : Kind) (headers : MessageHeaders) (at : ℕ)
      → Logs Any
          (produce_hop_at env config raw topic kind headers at)
          (λ _. Sent kind raw topic)
          Any
  unfolding produce_hop_at
  produce_hop_at-Sent raw topic kind headers at =
      Logs-bind (λ _. Any) (Logs-ask Any _ _)
        λ minted.
          Logs-bind (λ _. Any) (Logs-await Any env _ _)
            (λ answer.
              settle_produce-Sent kind raw _ topic answer (same_bytes raw topic headers at minted))

  produce_hop-Sent :
      (raw : RawMessage) (topic : Text) (kind : Kind) (headers : MessageHeaders)
      → Logs Any (produce_hop env config raw topic kind headers) (λ _. Sent kind raw topic) Any
  unfolding produce_hop
  produce_hop-Sent raw topic kind headers =
      Logs-bind (λ _. Any) (Logs-ask Any _ _) (produce_hop_at-Sent raw topic kind headers)

  dead_letter_or_crash-Went :
      (item : Pending) (subscription : Subscription) (level : ℕ) (dlq : Option Text)
      (tracking : MessageHeaders)
      → subscription.plan.dlq_topic ≡ dlq
      → Logs Any
          (dead_letter_or_crash env config item dlq tracking)
          (Went subscription level item.raw)
          Any
  unfolding dead_letter_or_crash
  dead_letter_or_crash-Went item subscription level none tracking at =
      Logs-pure _ _ _ crashed (λ es u. at)
  dead_letter_or_crash-Went item subscription level (some dlq) tracking at =
      Logs-bind (λ _. Any) (Logs-ask Any _ _)
        λ now.
          Logs-bind (λ _. Sent dead_letter item.raw dlq)
            (produce_hop-Sent item.raw dlq dead_letter _)
            (λ _. Logs-pure _ _ _ (dead_letter_to dlq) (λ es sent. (at, sent)))

  next_hop-Went :
      (item : Pending) (subscription : Subscription) (level : ℕ) (wanted : Bool)
      (topic : Option Text) (tracking : MessageHeaders)
      → retry_topic subscription.plan (suc level) ≡ topic
      → Logs Any
          (next_hop env config item subscription (suc level) wanted topic tracking)
          (Went subscription level item.raw)
          Any
  unfolding next_hop
  next_hop-Went item subscription level true (some topic) tracking at =
      Logs-bind (λ _. Sent retry item.raw topic) (produce_hop-Sent item.raw topic retry tracking)
        (λ _. Logs-pure _ _ _ (retry_to topic (suc level)) (λ es sent. (refl, at, sent)))
  next_hop-Went item subscription level true none tracking at =
      dead_letter_or_crash-Went item subscription level _ tracking refl
  next_hop-Went item subscription level false topic tracking at =
      dead_letter_or_crash-Went item subscription level _ tracking refl

  wants_retry-Any :
      (item : Pending) (subscription : Subscription) (thrown : Thrown)
      → Logs Any (wants_retry env config item subscription thrown) (λ _. Any) Any
  unfolding wants_retry
  wants_retry-Any item subscription thrown =
      Logs-if (is_serialization_error thrown) (Logs-pure _ _ _ false (λ es p. p))
        (Logs-bind (λ _. Any) (Logs-ask Any _ _) (Logs-lift Any))

  -- Where forwarding a failed message returns, the message went one level up its ladder, or to its
  -- DLQ, as the latest effect, an acknowledged record of its own key and value; or the plan has no
  -- DLQ, and the verdict is a crash.
  pub forward_failed-Went :
      (item : Pending) (subscription : Subscription) (level : ℕ) (thrown : Thrown)
      → Logs Any
          (forward_failed env config item subscription level thrown)
          (Went subscription level item.raw)
          Any
  unfolding forward_failed
  forward_failed-Went item subscription level thrown =
      Logs-bind (λ _. Any) (wants_retry-Any item subscription thrown)
        λ wanted.
          Logs-bind (λ _. Any) (Logs-ask Any _ _)
            (λ now. next_hop-Went item subscription level wanted _ _ refl)

-- ===== src/Consumer/Forward/Backing.antt =====
-- A commit of the consumer follows what backs it, and a forward backs one.
use kafka_harbor.Prelude.{ℕ, suc, refl, inl, Bool, true, false, Option, none, some, Text, ◌≡◌}
use kafka_harbor.Errors.{Thrown, is_serialization_error}
use kafka_harbor.Headers.{MessageHeaders}
use kafka_harbor.Result.{Result, ok, err}
use kafka_harbor.Commit.{offset_after}
use kafka_harbor.Adapter.{RawMessage, RawRecord, TopicPartitionOffset}
use kafka_harbor.Produce.{Kind}
use kafka_harbor.Consumer.{Subscription, Pending}
use kafka_harbor.Consumer.World.{Env, Config, crash}
use kafka_harbor.Consumer.Action.Logs.{
  Log, Logs, Logs-pure, Logs-throw, Logs-gets, Logs-ask, Logs-await, Logs-lift, Logs-modify,
  Logs-tell, Logs-bind, Logs-if, effects-begin_stop,
}
use kafka_harbor.Consumer.Backed.{Framed, IsStable, Backed}
use kafka_harbor.Consumer.Forward.{
  Verdict, retry_to, dead_letter_to, crashed, settle_commit, commit_offset, commit_after, commit,
  settle_produce, produce_hop_at, produce_hop, dead_letter_or_crash, next_hop, wants_retry,
  forward_failed, emit_failure, emit_verdict, crash_on,
}

-- A verdict other than a crash says that the message was forwarded.
abbrev pub AfterVerdict : Log → RawMessage → Verdict → Log
AfterVerdict F raw (retry_to topic level) = Backed F raw
AfterVerdict F raw (dead_letter_to dlq) = Backed F raw
AfterVerdict F raw crashed = Framed F

module _ (env : Env) (config : Config) (F : Log) (stable : IsStable F) where
  settle_commit-Logs :
      (raw : RawMessage) (offset : TopicPartitionOffset) (answer : Option Thrown)
      → offset_after raw ≡ ok offset
      → Logs (Backed F raw) (settle_commit env config offset answer) (λ _. Framed F) (Framed F)
  unfolding settle_commit
  settle_commit-Logs raw offset none e =
      Logs-bind (λ _. Framed F)
        (Logs-tell _ _ _ _ (λ es b. (stable _ es b.1.0, ((raw, e, b.0), b.1.1))))
        (λ _. Logs-pure _ _ _ true (λ es c. c))
  settle_commit-Logs raw offset (some failure) e =
      Logs-bind (λ _. Framed F) (Logs-tell _ _ _ _ (λ es b. (stable _ es b.1.0, b.1.1)))
        (λ _.
          Logs-bind (λ _. Framed F) (Logs-tell _ _ _ _ (λ es c. (stable _ es c.0, c.1)))
            (λ _. Logs-pure _ _ _ false (λ es c. c)))

  commit_offset-Logs :
      (raw : RawMessage) (offset : Result TopicPartitionOffset)
      → offset_after raw ≡ offset
      → Logs (Backed F raw) (commit_offset env config offset) (λ _. Framed F) (Framed F)
  unfolding commit_offset
  commit_offset-Logs raw (err failure) e =
      Logs-bind (λ _. Framed F) (Logs-tell _ _ _ _ (λ es b. (stable _ es b.1.0, b.1.1)))
        (λ _. Logs-pure _ _ _ false (λ es c. c))
  commit_offset-Logs raw (ok offset) e =
      Logs-bind (λ _. Backed F raw) (Logs-await (Backed F raw) env _ _)
        (λ answer. settle_commit-Logs raw offset answer e)

  pub commit_after-Logs :
      (raw : RawMessage)
      → Logs (Backed F raw) (commit_after env config raw) (λ _. Framed F) (Framed F)
  unfolding commit_after
  commit_after-Logs raw = commit_offset-Logs raw _ refl

  pub commit-Logs :
      (raw : RawMessage) → Logs (Backed F raw) (commit env config raw) (λ _. Framed F) (Framed F)
  unfolding commit
  commit-Logs raw =
      Logs-bind (λ _. Backed F raw) (Logs-gets (Backed F raw) _ _)
        λ gone. Logs-if gone (Logs-pure _ _ _ false (λ es b. b.1)) (commit_after-Logs raw)

  settle_produce-Logs :
      (kind : Kind) (raw : RawMessage) (sent : RawRecord) (answer : Option Thrown)
      → Logs
          (Framed F)
          (settle_produce env config kind raw sent answer)
          (λ _. Backed F raw)
          (Framed F)
  unfolding settle_produce
  settle_produce-Logs kind raw sent none =
      Logs-tell _ _ _ _ (λ es c. (inl refl, (stable _ es c.0, c.1)))
  settle_produce-Logs kind raw sent (some failure) =
      Logs-bind (λ _. Framed F) (Logs-tell _ _ _ _ (λ es c. (stable _ es c.0, c.1)))
        (λ _. Logs-throw _ _ _ failure (λ es c. c))

  pub produce_hop_at-Logs :
      (raw : RawMessage) (topic : Text) (kind : Kind) (headers : MessageHeaders) (at : ℕ)
      → Logs
          (Framed F)
          (produce_hop_at env config raw topic kind headers at)
          (λ _. Backed F raw)
          (Framed F)
  unfolding produce_hop_at
  produce_hop_at-Logs raw topic kind headers at =
      Logs-bind (λ _. Framed F) (Logs-ask (Framed F) _ _)
        λ minted.
          Logs-bind (λ _. Framed F) (Logs-await (Framed F) env _ _) (settle_produce-Logs kind raw _)

  pub produce_hop-Logs :
      (raw : RawMessage) (topic : Text) (kind : Kind) (headers : MessageHeaders)
      → Logs
          (Framed F)
          (produce_hop env config raw topic kind headers)
          (λ _. Backed F raw)
          (Framed F)
  unfolding produce_hop
  produce_hop-Logs raw topic kind headers =
      Logs-bind (λ _. Framed F) (Logs-ask (Framed F) _ _)
        (produce_hop_at-Logs raw topic kind headers)

  dead_letter_or_crash-Logs :
      (item : Pending) (dlq : Option Text) (tracking : MessageHeaders)
      → Logs
          (Framed F)
          (dead_letter_or_crash env config item dlq tracking)
          (AfterVerdict F item.raw)
          (Framed F)
  unfolding dead_letter_or_crash
  dead_letter_or_crash-Logs item none tracking = Logs-pure _ _ _ crashed (λ es c. c)
  dead_letter_or_crash-Logs item (some dlq) tracking =
      Logs-bind (λ _. Framed F) (Logs-ask (Framed F) _ _)
        λ now.
          Logs-bind (λ _. Backed F item.raw) (produce_hop-Logs item.raw dlq _ _)
            (λ _. Logs-pure _ _ _ (dead_letter_to dlq) (λ es b. b))

  next_hop-Logs :
      (item : Pending) (subscription : Subscription) (next : ℕ) (wanted : Bool)
      (topic : Option Text) (tracking : MessageHeaders)
      → Logs
          (Framed F)
          (next_hop env config item subscription next wanted topic tracking)
          (AfterVerdict F item.raw)
          (Framed F)
  unfolding next_hop
  next_hop-Logs item subscription next true (some topic) tracking =
      Logs-bind (λ _. Backed F item.raw) (produce_hop-Logs item.raw topic _ tracking)
        (λ _. Logs-pure _ _ _ (retry_to topic next) (λ es b. b))
  next_hop-Logs item subscription next _ _ tracking =
      dead_letter_or_crash-Logs item subscription.plan.dlq_topic tracking

  wants_retry-Logs :
      (P : Log) (item : Pending) (subscription : Subscription) (thrown : Thrown)
      → Logs P (wants_retry env config item subscription thrown) (λ _. P) P
  unfolding wants_retry
  wants_retry-Logs P item subscription thrown =
      Logs-if (is_serialization_error thrown) (Logs-pure _ _ _ false (λ es p. p))
        (Logs-bind (λ _. P) (Logs-ask P _ _) (Logs-lift P))

  pub forward_failed-Logs :
      (item : Pending) (subscription : Subscription) (level : ℕ) (thrown : Thrown)
      → Logs
          (Framed F)
          (forward_failed env config item subscription level thrown)
          (AfterVerdict F item.raw)
          (Framed F)
  unfolding forward_failed
  forward_failed-Logs item subscription level thrown =
      Logs-bind (λ _. Framed F) (wants_retry-Logs (Framed F) item subscription thrown)
        λ wanted.
          Logs-bind (λ _. Framed F) (Logs-ask (Framed F) _ _)
            (λ now. next_hop-Logs item subscription (suc level) wanted _ _)

  pub emit_failure-Logs :
      (item : Pending) (verdict : Verdict)
      → Logs (Framed F) (emit_failure env config item verdict) (λ _. Framed F) (Framed F)
  unfolding emit_failure emit_verdict
  emit_failure-Logs item (retry_to topic level) =
      Logs-bind (λ _. Framed F) (Logs-tell _ _ _ _ (λ es c. (stable _ es c.0, c.1)))
        (λ _. Logs-tell _ _ _ _ (λ es c. (stable _ es c.0, c.1)))
  emit_failure-Logs item (dead_letter_to dlq) =
      Logs-bind (λ _. Framed F) (Logs-tell _ _ _ _ (λ es c. (stable _ es c.0, c.1)))
        (λ _. Logs-tell _ _ _ _ (λ es c. (stable _ es c.0, c.1)))
  emit_failure-Logs item crashed = Logs-pure _ _ _ tt (λ es c. c)

  pub crash_on-Logs :
      (thrown : Thrown) (raw : RawMessage)
      → Logs (Framed F) (crash_on env config thrown raw) (λ _. Framed F) (Framed F)
  unfolding crash_on
  crash_on-Logs thrown raw =
      Logs-bind (λ _. Framed F) (Logs-tell _ _ _ _ (λ es c. (stable _ es c.0, c.1)))
        (λ _. Logs-modify (Framed F) _ _ (effects-begin_stop crash))

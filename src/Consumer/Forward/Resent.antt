-- ===== src/Consumer/Forward/Resent.antt =====
-- What the commits and the forwards of src/commit.ts and src/produce.ts leave in the log of a redrive:
-- the messages that were produced again, and the commits behind them.
use kafka_harbor.Prelude.{ℕ, suc, ◌≡◌, refl, ap, ◌⊎◌, inl, Option, none, some, List, [], ◌∷◌, Text}
use kafka_harbor.Errors.{Thrown}
use kafka_harbor.Headers.{MessageHeaders}
use kafka_harbor.Result.{Result, ok, err}
use kafka_harbor.Commit.{offset_after}
use kafka_harbor.Adapter.{RawMessage, RawRecord, TopicPartitionOffset}
use kafka_harbor.Produce.{redrive}
use kafka_harbor.Consumer.World.{Env, Config, Effect, produced, committed}
use kafka_harbor.Consumer.Action.Logs.{
  Log, Logs, Logs-pure, Logs-throw, Logs-ask, Logs-await, Logs-tell, Logs-bind,
}
use kafka_harbor.Consumer.Forward.{
  settle_commit, commit_offset, commit_after, settle_produce, produce_hop_at,
}

-- How many records a log has that were produced again and acknowledged.
abbrev pub redriven : List Effect → ℕ
redriven [] = 0
redriven (produced redrive raw sent ∷ es) = suc (redriven es)
redriven (_ ∷ es) = redriven es

-- The message was produced again, acknowledged.
abbrev pub Resent : RawMessage → Log
Resent raw [] = ⊥
Resent raw (produced redrive r sent ∷ es) = (r ≡ raw) ⊎ Resent raw es
Resent raw (_ ∷ es) = Resent raw es

-- Every commit is of the offset after a message that was produced again before.
abbrev pub CommitsResent : Log
CommitsResent [] = Unit {0}
CommitsResent (committed o ∷ es) =
    ((raw : RawMessage) × (offset_after raw ≡ ok o) × Resent raw es) × CommitsResent es
CommitsResent (_ ∷ es) = CommitsResent es

abbrev pub Counted : ℕ → Log
Counted n es = (redriven es ≡ n) × CommitsResent es

abbrev pub Behind : RawMessage → ℕ → Log
Behind raw n es = Resent raw es × Counted n es

module _ (env : Env) (config : Config) (raw : RawMessage) (n : ℕ) where
  module _ (E : Log) where
    settle_commit-Counted :
        (offset : TopicPartitionOffset) (answer : Option Thrown)
        → offset_after raw ≡ ok offset
        → Logs (Behind raw n) (settle_commit env config offset answer) (λ _. Counted n) E
    unfolding settle_commit
    settle_commit-Counted offset none e =
        Logs-bind (λ _. Counted n) (Logs-tell _ _ _ _ (λ es b. (b.1.0, ((raw, e, b.0), b.1.1))))
          (λ _. Logs-pure _ _ _ _ (λ es c. c))
    settle_commit-Counted offset (some failure) e =
        Logs-bind (λ _. Counted n) (Logs-tell _ _ _ _ (λ es b. b.1))
          (λ _.
            Logs-bind (λ _. Counted n) (Logs-tell _ _ _ _ (λ es c. c))
              (λ _. Logs-pure _ _ _ _ (λ es c. c)))

    commit_offset-Counted :
        (offset : Result TopicPartitionOffset)
        → offset_after raw ≡ offset
        → Logs (Behind raw n) (commit_offset env config offset) (λ _. Counted n) E
    unfolding commit_offset
    commit_offset-Counted (err failure) e =
        Logs-bind (λ _. Counted n) (Logs-tell _ _ _ _ (λ es b. b.1))
          (λ _. Logs-pure _ _ _ _ (λ es c. c))
    commit_offset-Counted (ok offset) e =
        Logs-bind (λ _. Behind raw n) (Logs-await (Behind raw n) env _ _)
          (λ answer. settle_commit-Counted offset answer e)

    pub commit_after-Counted : Logs (Behind raw n) (commit_after env config raw) (λ _. Counted n) E
    unfolding commit_after
    commit_after-Counted = commit_offset-Counted _ refl

  settle_produce-Counted :
      (sent : RawRecord) (answer : Option Thrown)
      → Logs
          (Counted n)
          (settle_produce env config redrive raw sent answer)
          (λ _. Behind raw (suc n))
          (Counted n)
  unfolding settle_produce
  settle_produce-Counted sent none =
      Logs-tell _ _ _ _ (λ es (c, h). (inl refl, (ap (λ k. suc k) c, h)))
  settle_produce-Counted sent (some failure) =
      Logs-bind (λ _. Counted n) (Logs-tell _ _ _ _ (λ es c. c))
        (λ _. Logs-throw _ _ _ failure (λ es c. c))

  pub produce_hop_at-Counted :
      (topic : Text) (headers : MessageHeaders) (at : ℕ)
      → Logs
          (Counted n)
          (produce_hop_at env config raw topic redrive headers at)
          (λ _. Behind raw (suc n))
          (Counted n)
  unfolding produce_hop_at
  produce_hop_at-Counted topic headers at =
      Logs-bind (λ _. Counted n) (Logs-ask (Counted n) _ _)
        λ minted.
          Logs-bind (λ _. Counted n) (Logs-await (Counted n) env _ _) (settle_produce-Counted _)

-- ===== src/Testing/Transaction.antt =====
-- `transaction` of src/testing/index.ts: the in-memory broker's transactions.
pub mod Atomic
pub mod Whole
use kafka_harbor.Prelude.{
  ℕ, suc, ◌≡◌, refl, Bool, true, false, Option, none, some, List, [], ◌∷◌, ◌++◌, Text, codes, Dict,
  insert, is_some, not, if◌then◌else◌,
}
use kafka_harbor.Errors.{Thrown, adapter_error, config_error}
use kafka_harbor.Result.{Result, ok, err}
use kafka_harbor.Adapter.{TopicPartitionOffset, RawRecord, partition_key}
use kafka_harbor.Testing.{Topic, Group, Broker, Options, group_of, validate, append}
use kafka_harbor.Testing.Produce.{IsBroker}

-- What a transaction closes over.
pub record Transaction : Type 0 where
  pub buffered : List RawRecord
  pub offsets : List (Text × TopicPartitionOffset)
  pub completed : Bool

abbrev pub new_transaction : Transaction
new_transaction = record { buffered = []; offsets = []; completed = false }

-- A call on a transaction: what it answers, and the broker and transaction after it.
abbrev pub Call : Type 0
Call = Result (Unit {0}) × (Broker × Transaction)

ended : Thrown
ended = adapter_error 0 (codes "memory adapter: the transaction already ended") (some false)

-- `requireOpen`, before the rest of a call
unless_ended : Bool → Broker → Transaction → Call → Call
unfolding ended
unless_ended true b t rest = (err ended, (b, t))
unless_ended false b t rest = rest

begin_if : Broker → Bool → Bool → Bool → Result Transaction × Broker
begin_if b false named busy =
    (err (adapter_error 0 (codes "memory adapter is not connected") none), b)
begin_if b true false busy = (
  err (
      config_error 0
        (codes "memory adapter: transactions need transactionalId on the harbor configuration")),
  b,
)
begin_if b true true true = (
  err (
      adapter_error 0 (codes "memory adapter: a transaction is already open; one at a time")
        (some false)),
  b,
)
begin_if b true true false = (ok new_transaction, record b { transaction_open = true })

-- `transaction`
unfoldable pub begin : Broker → Result Transaction × Broker
unfolding begin_if
begin b = begin_if b b.connected (is_some b.transactional_id) b.transaction_open

-- `sent` of a group, one offset at a time
unfoldable pub commit_offset : Text → TopicPartitionOffset → Dict Group → Dict Group
commit_offset id offset groups =
    let g = group_of id groups in
    insert id
      (record g {
        committed = insert (partition_key offset.topic offset.partition) offset.offset g.committed;
      })
      groups

unfoldable pub commit_offsets : List (Text × TopicPartitionOffset) → Dict Group → Dict Group
unfolding commit_offset
commit_offsets [] groups = groups
commit_offsets ((id, offset) ∷ offsets) groups =
    commit_offsets offsets (commit_offset id offset groups)

unfoldable pub of_group : Text → List TopicPartitionOffset → List (Text × TopicPartitionOffset)
of_group id [] = []
of_group id (offset ∷ offsets) = (id, offset) ∷ of_group id offsets

module _ (options : Options) where
  buffer : List RawRecord → Broker → Transaction → Result (Unit {0}) → Call
  buffer records b t (err e) = (err e, (b, t))
  buffer records b t (ok u) = (ok tt, (b, record t { buffered = t.buffered ++ records }))

  produce_open : List RawRecord → Broker → Transaction → Option Thrown → Call
  unfolding buffer
  produce_open records b t (some error) = (err error, (record b { next_produce_error = none }, t))
  produce_open records b t none = buffer records b t (validate options records b.topics)

  -- the transaction's `produce`
  unfoldable pub produce : List RawRecord → Broker → Transaction → Call
  unfolding produce_open unless_ended
  produce records b t = unless_ended t.completed b t (produce_open records b t b.next_produce_error)

  land : Broker → Transaction → Result (Unit {0}) × Dict Topic → Call
  land b t (err e, topics) = (
    err e,
    (record b { topics = topics; transaction_open = false }, record t { completed = true }),
  )
  land b t (ok u, topics) = (
    ok tt,
    (
      record b {
        topics = topics;
        transaction_open = false;
        groups = commit_offsets t.offsets b.groups;
      },
      record t { completed = true },
    ),
  )

  -- the transaction's `commit`
  unfoldable pub commit : (ℕ → ℕ) → Broker → Transaction → Call
  unfolding land unless_ended
  commit now b t = unless_ended t.completed b t (land b t (append options now t.buffered b.topics))

offsets_of : List TopicPartitionOffset → Broker → Transaction → Option Text → Call
offsets_of sent b t none = (
  err (config_error 0 (codes "memory adapter: the consumption is not one this adapter opened")),
  (b, t),
)
offsets_of sent b t (some id) = (ok tt, (b, record t { offsets = t.offsets ++ of_group id sent }))

-- `sendOffsets`, of the group of a consumption, if this adapter opened it
unfoldable pub send_offsets : Option Text → List TopicPartitionOffset → Broker → Transaction → Call
unfolding offsets_of of_group unless_ended
send_offsets group sent b t = unless_ended t.completed b t (offsets_of sent b t group)

-- `abort`
unfoldable pub abort : Broker → Transaction → Call
unfolding unless_ended
abort b t =
    unless_ended t.completed b t
      (ok tt, (record b { transaction_open = false }, record t { completed = true }))

-- What may be done with an open transaction.
pub data Step : Type 0 where
  produces : List RawRecord → Step
  sends_offsets : Option Text → List TopicPartitionOffset → Step
  aborts : Step
  commits : Step

module _ (options : Options) (now : ℕ → ℕ) where
  unfoldable pub step : Step → Broker × Transaction → Broker × Transaction
  step (produces records) (b, t) = (produce options records b t).1
  step (sends_offsets group sent) (b, t) = (send_offsets group sent b t).1
  step aborts (b, t) = (abort b t).1
  step commits (b, t) = (commit options now b t).1

  unfoldable pub steps : List Step → Broker × Transaction → Broker × Transaction
  unfolding step
  steps [] s = s
  steps (x ∷ xs) s = steps xs (step x s)

-- ===== src/Consumer/Batch.antt =====
-- `collect`, `flushBatch` and `handleBatch` of src/consumer.ts: the messages of one partition run
-- together, and are settled one by one.
pub mod Slots
pub mod Settle
pub mod Safety
pub mod Collect
use kafka_harbor.Prelude.{
  ℕ, Bool, true, false, not, ◌&&◌, ◌||◌, Option, none, some, List, [], ◌∷◌, ◌++◌, Text, codes, leb,
  ◌==◌, text_eq, lookup, insert, delete, is_some, length, any, filter, if◌then◌else◌,
}
use kafka_harbor.Errors.{
  Thrown, undefined, null_thrown, primitive, object, MessageRef, batch_failed_error,
  is_abort_processing_error, failure_of, config_error, cause_of,
}
use kafka_harbor.Errors.Cause.{fenced_in}
use kafka_harbor.Result.{Result, ok, err}
use kafka_harbor.Adapter.{RawMessage}
use kafka_harbor.Topics.{member}
use kafka_harbor.Consumer.{Subscription, Pending}
use kafka_harbor.Consumer.World.{
  Env, Config, Batch, Message, Effect, batch_handled, batch_handler_failed, emitted,
  message_processed, message_failed, batch_processed, error, FailureOutcome, retried, dead_lettered,
  aborted, abort,
}
use kafka_harbor.Consumer.World.Elsewhere.{begin_stop}
use kafka_harbor.Consumer.Action.{
  Action, pure, throw, lift, gets, tell, modify, await, await_other, catch, ◌>>=◌, ◌>>◌,
}
use kafka_harbor.Consumer.Decode.{to_message}
use kafka_harbor.Consumer.Forward.{
  Verdict, retry_to, dead_letter_to, crashed, crash_on, commit, forward_failed, emit_failure,
}
use kafka_harbor.Consumer.Handle.{Ran, finished, failed, key_of, is_lost, run_guarded}

-- One message of a batch while it runs: its decoded form, why it failed, and where it went.
pub record Slot : Type 0 where
  pub item : Pending
  pub message : Option Message
  pub failure : Option Thrown
  pub verdict : Option Verdict

unfoldable pub outcome_of : Verdict → FailureOutcome
outcome_of (retry_to topic level) = retried
outcome_of (dead_letter_to dlq) = dead_lettered
outcome_of crashed = FailureOutcome.crashed

with_message : Option Message → List Message → List Message
with_message none rest = rest
with_message (some m) rest = m ∷ rest

unfoldable pub messages_of : List Slot → List Message
unfolding with_message
messages_of [] = []
messages_of (s ∷ slots) = with_message s.message (messages_of slots)

-- Whether a reference is to a message of the partition.
pub names : Text → ℕ → MessageRef → RawMessage → Bool
names topic partition ref raw =
    text_eq ref.topic topic && ref.partition == partition && text_eq ref.offset raw.offset

-- Whether a message that the handler names is the one of a slot that it got.
names_slot : Text → ℕ → MessageRef → Slot → Bool
unfolding names
names_slot topic partition ref s = is_some s.message && names topic partition ref s.item.raw

named : Text → ℕ → MessageRef → List Slot → Bool
unfolding names_slot
named topic partition ref [] = false
named topic partition ref (s ∷ slots) =
    names_slot topic partition ref s || named topic partition ref slots

fail_if : Thrown → Slot → Bool → Slot
fail_if failure s true = record s { failure = some failure }
fail_if failure s false = s

-- `failures.set(item, failure)` for the slot that a message names.
fail_named : Text → ℕ → Thrown → MessageRef → List Slot → List Slot
unfolding names_slot fail_if
fail_named topic partition failure ref [] = []
fail_named topic partition failure ref (s ∷ slots) =
    fail_if failure s (names_slot topic partition ref s)
    ∷ fail_named topic partition failure ref slots

-- The messages that none of the references names.
unfoldable pub unlisted : Text → ℕ → List MessageRef → List Message → List Message
unfolding names
unlisted topic partition refs [] = []
unlisted topic partition refs (m ∷ ms) =
    let rest = unlisted topic partition refs ms in
    if any (λ ref. names topic partition ref m.raw) refs then rest else m ∷ rest

-- The messages that a `BatchFailedError` lists, each of which has to be in the batch.
unfoldable pub fail_listed : Text → ℕ → Thrown → List MessageRef → List Slot → Result (List Slot)
unfolding named fail_named
fail_listed topic partition failure [] slots = ok slots
fail_listed topic partition failure (ref ∷ refs) slots =
    let rest =
      fail_listed topic partition failure refs (fail_named topic partition failure ref slots) in
    if named topic partition ref slots
    then rest
    else err (config_error 0 (codes "BatchFailedError names a message that is not in the batch"))

-- A handler that failed the batch as a whole failed every message that it got.
unfoldable pub fail_all : Thrown → List Slot → List Slot
unfolding fail_if
fail_all failure [] = []
fail_all failure (s ∷ slots) = fail_if failure s (is_some s.message) ∷ fail_all failure slots

-- `error.cause ?? error`
unfoldable pub cause_or_self : Thrown → Thrown
cause_or_self thrown = elim (cause_of thrown) [
  | undefined ↦ thrown
  | null_thrown ↦ thrown
  | primitive s ↦ primitive s
  | object f cause ↦ object f cause
]

-- What stops the consumer rather than fail messages: for the messages that a handler named, the
-- cause that it gave.
unfoldable pub stop_of : Thrown → Thrown
stop_of thrown = elim (batch_failed_error thrown) [ none ↦ thrown | some refs ↦ cause_of thrown ]

pub mark_by : Text → ℕ → Thrown → Option (List MessageRef) → List Slot → Result (List Slot)
mark_by topic partition thrown none slots = ok (fail_all thrown slots)
mark_by topic partition thrown (some refs) slots =
    fail_listed topic partition (cause_or_self thrown) refs slots

-- What a handler's failure makes of the slots.
unfoldable pub mark_failed : Text → ℕ → Thrown → List Slot → Result (List Slot)
unfolding mark_by
mark_failed topic partition thrown slots =
    mark_by topic partition thrown (batch_failed_error thrown) slots

module _ (env : Env) (config : Config) where
  open_slot : Pending → Result Message → Slot
  open_slot item (ok m) = record { item = item; message = some m; failure = none; verdict = none }
  open_slot item (err e) = record { item = item; message = none; failure = some e; verdict = none }

  -- One message decoded, or failed on its own.
  decode_item : Subscription → Pending → Action Slot
  decode_item subscription item =
      catch
        (to_message env item.raw item.headers subscription.plan.original item.retry >>= λ m.
          pure (open_slot item (ok m)))
        (λ thrown. pure (open_slot item (err thrown)))

  decode_items : Subscription → List Pending → Action (List Slot)
  decode_items subscription [] = pure []
  decode_items subscription (item ∷ items) = do
    s ← decode_item subscription item
    rest ← decode_items subscription items
    pure (s ∷ rest)

  tell_if : Bool → Effect → Action (Unit {0})
  tell_if true e = tell e
  tell_if false e = pure tt

  settle_forward : Batch → Bool → Slot → Thrown → Verdict → Action Slot
  settle_forward b ran s failure crashed = do
    tell (emitted (message_failed s.item.raw FailureOutcome.crashed))
    tell_if ran (
        emitted (
          batch_processed s.item.raw.topic s.item.raw.partition (length b.items)
            (some FailureOutcome.crashed)))
    throw failure
  settle_forward b ran s failure verdict = pure (record s { verdict = some verdict })

  -- `forward`
  forward : Batch → Bool → Slot → Thrown → Action Slot
  forward b ran s failure =
      forward_failed env config s.item b.subscription b.level failure
      >>= settle_forward b ran s failure

  -- A message that failed and was not forwarded yet goes down its ladder.
  forward_slot : Batch → Bool → Slot → Option Thrown → Option Verdict → Action Slot
  forward_slot b ran s (some failure) none = forward b ran s failure
  forward_slot b ran s _ _ = pure s

  -- The two loops that forward, in offset order.
  pub forward_all : Batch → Bool → List Slot → Action (List Slot)
  forward_all b ran [] = pure []
  forward_all b ran (s ∷ slots) = do
    forwarded ← forward_slot b ran s s.failure s.verdict
    rest ← forward_all b ran slots
    pure (forwarded ∷ rest)

  -- A handler that names its failures resolved for the rest.
  tell_answered : Text → ℕ → List Message → Option (List MessageRef) → Action (Unit {0})
  tell_answered topic partition messages none = pure tt
  tell_answered topic partition messages (some refs) =
      tell (batch_handled (unlisted topic partition refs messages))

  note_failed : RawMessage → List Message → Thrown → Action Ran
  note_failed first messages failure = do
    tell_answered first.topic first.partition messages (batch_failed_error failure)
    tell (batch_handler_failed messages)
    pure (failed failure)

  note_batch : RawMessage → List Message → Option Thrown → Action Ran
  note_batch first messages none = do tell (batch_handled messages); pure (finished false)
  note_batch first messages (some thrown) = note_failed first messages (failure_of 0 thrown)

  run_batch_handler : RawMessage → List Message → Action Ran
  run_batch_handler first messages =
      await env (λ n. env.handle_batch n messages) >>= note_batch first messages

  -- The handler gets what decoded, if anything did.
  pub run_decoded : Batch → Pending → List Message → Action Ran
  run_decoded b first [] = pure (finished false)
  run_decoded b first (m ∷ ms) =
      run_guarded env config b.subscription.breaker first (run_batch_handler first.raw (m ∷ ms))

  report_slot : ℕ → Slot → Option Verdict → Action (Unit {0})
  report_slot size s none = tell (emitted (message_processed s.item.raw false))
  report_slot size s (some verdict) = emit_failure env config s.item verdict

  report_slots : ℕ → List Slot → Action (Unit {0})
  report_slots size [] = pure tt
  report_slots size (s ∷ slots) = report_slot size s s.verdict >> report_slots size slots

  -- The last verdict of a message that the handler's own failure sent down the ladder.
  batch_outcome : Bool → List Slot → Option FailureOutcome → Option FailureOutcome
  batch_outcome false slots before = before
  batch_outcome true [] before = before
  batch_outcome true (s ∷ slots) before = batch_outcome true slots (
      if is_some s.message
      then elim s.verdict [ none ↦ before | some v ↦ some (outcome_of v) ]
      else before)

  finish_batch : Batch → Pending → Pending → Bool → List Slot → Bool → Action (Unit {0})
  finish_batch b first last whole slots false = pure tt
  finish_batch b first last whole slots true = do
    report_slots (length b.items) slots
    tell_if (leb 1 (length (messages_of slots))) (
        emitted (
          batch_processed first.raw.topic first.raw.partition (length b.items)
            (batch_outcome whole slots none)))

  -- The failed messages are forwarded, then one commit stands for the batch.
  pub settle_slots : Batch → Pending → Pending → Bool → List Slot → Action (Unit {0})
  settle_slots b first last whole slots = do
    settled ← forward_all b true slots
    done ← commit env config last.raw
    finish_batch b first last whole settled done

  tell_aborted : List Slot → Action (Unit {0})
  tell_aborted [] = pure tt
  tell_aborted (s ∷ slots) = do
    tell_if (is_some s.message) (emitted (message_failed s.item.raw aborted))
    tell_aborted slots

  pub stop_batch : Batch → Pending → Pending → List Slot → Thrown → Action (Unit {0})
  stop_batch b first last slots thrown = do
    tell_aborted slots
    tell (
        emitted
          (batch_processed first.raw.topic first.raw.partition (length b.items) (some aborted)))
    tell (emitted (error thrown))
    modify (begin_stop abort)

  settle_thrown : Batch → Pending → Pending → List Slot → Thrown → Action (Unit {0})
  settle_thrown b first last slots thrown =
      if is_abort_processing_error (stop_of thrown) || fenced_in (stop_of thrown)
      then stop_batch b first last slots thrown
      else (lift (mark_failed first.raw.topic first.raw.partition thrown slots)
          >>= settle_slots b first last (not (is_some (batch_failed_error thrown))))

  pub settle_batch : Batch → Pending → Pending → List Slot → Ran → Action (Unit {0})
  settle_batch b first last slots (finished replayed) = settle_slots b first last false slots
  settle_batch b first last slots (failed thrown) = settle_thrown b first last slots thrown
  settle_batch b first last slots _ = pure tt

  unless_abandoned : Action (Unit {0}) → Action (Unit {0})
  unless_abandoned next = do
    abandoned ← gets (λ w. w.abandoned)
    if abandoned then pure tt else next

  -- `handleBatch`, of a batch with a first and a last message
  handle_batch : Batch → Pending → Pending → Action (Unit {0})
  handle_batch b first last = do
    slots ← decode_items b.subscription b.items
    unless_abandoned do
      ready ← forward_all b false slots
      ran ← run_decoded b first (messages_of ready)
      unless_abandoned (settle_batch b first last ready ran)

  -- `runBatch`: a failure of the pipeline stops the consumer here.
  run_batch : Batch → Pending → Pending → Action (Unit {0})
  run_batch b first last = do
    modify (λ w. record w { running_batches = key_of last.raw ∷ w.running_batches })
    catch (handle_batch b first last) (λ thrown. crash_on env config thrown last.raw)
    modify (λ w. record w {
      running_batches = filter (λ key. not (text_eq key (key_of last.raw))) w.running_batches;
    })

  -- `this.batches.get(key)`, or a new batch
  batch_at : Subscription → ℕ → ℕ → Option Batch → Batch
  batch_at subscription size level none = record {
    subscription = subscription;
    size = size;
    level = level;
    items = [];
  }
  batch_at subscription size level (some b) = b

  first_of : List Pending → Pending → Pending
  first_of [] item = item
  first_of (first ∷ items) item = first

  join_batch : Pending → ℕ → Batch → Action (Unit {0})
  join_batch item size b =
      let full : Batch = record b { items = b.items ++ item ∷ [] } in
      if leb size (length full.items)
      then (modify (λ w. record w { batches = delete (key_of item.raw) w.batches })
          >> run_batch full (first_of b.items item) item)
      else modify (λ w. record w { batches = insert (key_of item.raw) full w.batches })

  collect_now : Pending → Subscription → ℕ → ℕ → Action (Unit {0})
  collect_now item subscription size level = do
    found ← gets (λ w. lookup (key_of item.raw) w.batches)
    join_batch item size (batch_at subscription size level found)

  collect_unless : Pending → Subscription → ℕ → ℕ → Bool → Action (Unit {0})
  collect_unless item subscription size level true = pure tt
  collect_unless item subscription size level false = collect_now item subscription size level

  wait_for_batch : Pending → Subscription → ℕ → ℕ → Bool → Action (Unit {0})
  wait_for_batch item subscription size level false = collect_now item subscription size level
  wait_for_batch item subscription size level true = do
    revocation ← gets (λ w. lookup (key_of item.raw) w.revocations)
    await_other env
    lost ← gets (is_lost (key_of item.raw) revocation)
    collect_unless item subscription size level lost

  -- `collect`
  pub collect : Pending → Subscription → ℕ → ℕ → Action (Unit {0})
  collect item subscription size level = do
    busy ← gets (λ w. member (key_of item.raw) w.running_batches)
    wait_for_batch item subscription size level busy

  flush_found : Option Batch → Text → Pending → Pending → Action (Unit {0})
  flush_found none key first last = pure tt
  flush_found (some b) key first last = do
    modify (λ w. record w { batches = delete key w.batches })
    run_batch b first last

  -- `flushBatch`, of the batch of a partition that began with `first` and goes to `last`
  pub flush_batch : Text → Pending → Pending → Action (Unit {0})
  flush_batch key first last = do
    found ← gets (λ w. lookup key w.batches)
    flush_found found key first last

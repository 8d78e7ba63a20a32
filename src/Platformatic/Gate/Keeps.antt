-- ===== src/Platformatic/Gate/Keeps.antt =====
-- The invariant of `Consumption` (src/adapters/platformatic/index.ts) through every turn.
use kafka_harbor.Prelude.{
  ℕ, ◌+◌, ◌≡◌, Bool, true, false, not, ◌||◌, Option, none, some, List, [], ◌∷◌, ◌++◌, Text, leb,
  arith, text_eq, text_eq_iff, insert, length-append, lookup,
}
use kafka_harbor.Topics.{member}
use kafka_harbor.Adapter.{TopicPartition, partition_key}
use kafka_harbor.Platformatic.{ClientMessage, remove, is_assigned}
use kafka_harbor.Platformatic.Gate.{
  Consumption, Bounds, ended, reading, blocked, queue_of, mark_ready, release, settle,
  delivery_settled, push, is_repeated, enqueue, is_stream, take_message, pump_message, pause,
  unpause, pause_all, unpause_all, resume,
}
use kafka_harbor.Platformatic.Gate.Stream.{
  drop_in, drop_stream, stream_ended, stream_opened, begin_stop, clear, started,
}
use kafka_harbor.Platformatic.Gate.Sets.{
  times, member-times, times-set_add, times-remove, size, total, entries, size-insert,
  entries-insert, total-insert,
}
use kafka_harbor.Platformatic.Gate.Line.{
  InLine, IsLive, IsCounted, IsFair, settle-InLine, settle-IsLive, settle-IsCounted,
  mark_ready-InLine, mark_ready-IsLive, mark_ready-IsCounted,
}
use kafka_harbor.Platformatic.Gate.Fair.{is_spent, has_line, IsDispatched, dispatch-IsDispatched}
use kafka_harbor.Platformatic.Gate.Step.{
  Turn, reads, breaks, goes_on, settles, pauses, resumes, reassigns, joins, fails, ends, opens,
  stops, clears, Reach, start, later,
}
use kafka_harbor.Platformatic.Gate.Rejoin.{same-IsDispatched, either, joined-IsDispatched}

module _ (bounds : Bounds) where
  -- The operations that end in `dispatch`.
  settled-IsDispatched :
      (j : Text) (g : Consumption)
      → member j g.running ≡ true
      → IsDispatched bounds g
      → IsDispatched bounds (delivery_settled bounds j g)
  unfolding delivery_settled
  settled-IsDispatched j g e d = dispatch-IsDispatched bounds (settle bounds j g) (record {
    lines = λ k. settle-InLine bounds k j g (d.fair.lines j) (d.fair.lines k);
    lives = λ k. settle-IsLive bounds k j g (d.fair.lines j) (λ other. d.fair.lives k);
    counted =
        settle-IsCounted bounds j g (ground (arith, d.fair.lines j, member-times j g.running))
          d.fair.counted;
  })

  pause_all-IsDispatched :
      (keys : List Text) (g : Consumption)
      → IsDispatched bounds g
      → IsDispatched bounds (pause_all keys g)
  unfolding pause_all pause is_spent
  pause_all-IsDispatched [] g d = d
  pause_all-IsDispatched (j ∷ keys) g d = pause_all-IsDispatched keys (pause j g) (record {
    fair = record {
      lines = λ k. ground (arith, d.fair.lines k);
      lives = λ k.
          let live : IsLive k g = d.fair.lives k in
          ground (arith, live.lines_up, times-set_add k j g.paused);
      counted = ground (arith, d.fair.counted);
    };
    spent = ground (arith, d.spent);
  })

  mark_ready-IsFair :
      (j : Text) (g : Consumption)
      → ((k : Text) → InLine k g)
      → ((k : Text) → text_eq j k ≡ false → IsLive k g)
      → IsCounted bounds g
      → IsFair bounds (mark_ready j g)
  mark_ready-IsFair j g lines lives counted = record {
    lines = λ k. mark_ready-InLine k j g (lines j) (lines k);
    lives = λ k. mark_ready-IsLive k j g (lines j) (lives k);
    counted = mark_ready-IsCounted bounds j g counted;
  }

  unpause_all-IsFair :
      (keys : List Text) (g : Consumption) → IsFair bounds g → IsFair bounds (unpause_all keys g)
  unfolding unpause_all unpause
  unpause_all-IsFair [] g f = f
  unpause_all-IsFair (j ∷ keys) g f =
      let flowing : Consumption = record g { paused = remove j g.paused } in
      unpause_all-IsFair keys (mark_ready j flowing) (
        mark_ready-IsFair j flowing (λ k. ground (arith, f.lines k))
          (λ k other.
            let live : IsLive k g = f.lives k in
            ground (arith, live.lines_up, times-remove k j g.paused))
          (ground (arith, f.counted)))

  resume-IsDispatched :
      (keys : List Text) (g : Consumption)
      → IsDispatched bounds g
      → IsDispatched bounds (resume bounds keys g)
  unfolding resume
  resume-IsDispatched keys g d =
      dispatch-IsDispatched bounds (unpause_all keys g) (unpause_all-IsFair keys g d.fair)

  push-IsDispatched :
      (j : Text) (m : ClientMessage) (g : Consumption)
      → IsDispatched bounds g
      → IsDispatched bounds (push bounds j m g)
  unfolding push size
  push-IsDispatched j m g d =
      let queue = queue_of j g.queues ++ m ∷ [] in
      let pushed : Consumption = record g {
        last_queued = insert j m.offset g.last_queued;
        queues = insert j queue g.queues;
        queued = g.queued + 1;
      } in
      dispatch-IsDispatched bounds (mark_ready j pushed) (
        mark_ready-IsFair j pushed
          (λ k. ground (
            arith,
            d.fair.lines k,
            d.fair.lines j,
            size-insert k j queue g.queues,
            entries-insert k j queue g.queues,
            length-append (queue_of j g.queues) (m ∷ []),
            text_eq_iff j k,
          ))
          (λ k other.
            let live : IsLive k g = d.fair.lives k in
            ground (arith, live.lines_up, size-insert k j queue g.queues))
          (ground (
            arith,
            d.fair.counted,
            total-insert j queue g.queues,
            length-append (queue_of j g.queues) (m ∷ []),
          )))

  enqueue-IsDispatched :
      (m : ClientMessage) (g : Consumption)
      → IsDispatched bounds g
      → IsDispatched bounds (enqueue bounds m g)
  unfolding enqueue
  enqueue-IsDispatched m g d =
      let key = partition_key m.topic m.partition in
      let pushed : IsDispatched bounds (push bounds key m g) = push-IsDispatched key m g d in
      either bounds (not (is_assigned g.assignments m.topic m.partition)) d
        (either bounds (is_repeated bounds (lookup key g.last_queued) m.offset) d pushed)

  take_message-IsDispatched :
      (stream : ℕ) (m : ClientMessage) (g : Consumption)
      → IsDispatched bounds g
      → IsDispatched bounds (take_message bounds stream m g)
  unfolding take_message
  take_message-IsDispatched stream m g d =
      either bounds (g.stopped || not (is_stream bounds stream g.stream))
        (same-IsDispatched bounds g (record g { pump = ended }) (ground arith) d)
        (enqueue-IsDispatched m (record g { pump = reading stream })
          (same-IsDispatched bounds g (record g { pump = reading stream }) (ground arith) d))

  pump_message-IsDispatched :
      (stream : ℕ) (m : ClientMessage) (g : Consumption)
      → IsDispatched bounds g
      → IsDispatched bounds (pump_message bounds stream m g)
  unfolding pump_message
  pump_message-IsDispatched stream m g d =
      either bounds (leb bounds.buffered_messages g.queued)
        (same-IsDispatched bounds g (record g { pump = blocked stream m }) (ground arith) d)
        (take_message-IsDispatched stream m g d)

  clear-IsDispatched : (g : Consumption) → IsDispatched bounds g → IsDispatched bounds (clear g)
  unfolding clear is_spent has_line times size queue_of lookup entries total
  clear-IsDispatched g d = record {
    fair = record {
      lines = λ k. ground (arith, d.fair.lines k);
      lives = λ k. record { lines_up = λ some idle flowing going. ground arith };
      counted = ground (arith, d.fair.counted);
    };
    spent = ground arith;
  }

  started-IsDispatched :
      (stream : ℕ) (assignments : Option (List TopicPartition))
      → IsDispatched bounds (started stream assignments)
  unfolding started is_spent has_line times size queue_of lookup entries total
  started-IsDispatched stream assignments = record {
    fair = record {
      lines = λ k. ground arith;
      lives = λ k. record { lines_up = λ some idle flowing going. ground arith };
      counted = ground arith;
    };
    spent = ground arith;
  }

  drop_in-IsDispatched :
      (stream : Option ℕ) (stopped : Bool) (g : Consumption)
      → IsDispatched bounds g
      → IsDispatched bounds (drop_in stream stopped g)
  unfolding drop_in
  drop_in-IsDispatched none stopped g d = d
  drop_in-IsDispatched (some s) true g d = d
  drop_in-IsDispatched (some s) false g d =
      same-IsDispatched bounds g (record g { stream = none }) (ground arith) d

  Turn-IsDispatched :
      {g h : Consumption} → Turn bounds g h → IsDispatched bounds g → IsDispatched bounds h
  unfolding drop_stream stream_ended stream_opened begin_stop release
  Turn-IsDispatched (reads {g} stream m e) d = pump_message-IsDispatched stream m g d
  Turn-IsDispatched (breaks {g} stream e) d = same-IsDispatched bounds g _ (ground arith) d
  Turn-IsDispatched (goes_on {g} stream m e) d = take_message-IsDispatched stream m g d
  Turn-IsDispatched (settles {g} key e) d = settled-IsDispatched key g e d
  Turn-IsDispatched (pauses {g} keys) d = pause_all-IsDispatched keys g d
  Turn-IsDispatched (resumes {g} keys) d = resume-IsDispatched keys g d
  Turn-IsDispatched (reassigns {g} assignments) d = same-IsDispatched bounds g _ (ground arith) d
  Turn-IsDispatched (joins {g} assignments) d = joined-IsDispatched bounds assignments g d
  Turn-IsDispatched (fails {g}) d = drop_in-IsDispatched g.stream g.stopped g d
  Turn-IsDispatched (ends {g} e) d = same-IsDispatched bounds g _ (ground arith) d
  Turn-IsDispatched (opens {g} stream e) d = same-IsDispatched bounds g _ (ground arith) d
  Turn-IsDispatched (stops {g}) d = same-IsDispatched bounds g _ (ground arith) d
  Turn-IsDispatched (clears {g} e) d = clear-IsDispatched g d

  -- Whatever the client, the pipeline and the workers do, in whatever order: a partition has at most one
  -- worker, stands in the line at most once, and stands there only with a message queued and no worker,
  -- while one that has a message, no worker and no pause does stand there until the consumption stops;
  -- the workers are counted right and never more than `concurrency`, the queued messages are counted
  -- right; and between two turns a partition waits in the line only if all workers are busy or the
  -- consumption stopped.
  pub Reach-IsDispatched : {g : Consumption} → Reach bounds g → IsDispatched bounds g
  Reach-IsDispatched (start stream assignments) = started-IsDispatched stream assignments
  Reach-IsDispatched (later r t) = Turn-IsDispatched t (Reach-IsDispatched r)

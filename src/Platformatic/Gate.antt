-- ===== src/Platformatic/Gate.antt =====
-- `Consumption` of src/adapters/platformatic/index.ts, the gate in front of `eachMessage`: a queue for
-- each partition, one worker for a partition, at most `concurrency` workers, and a stream that is read
-- while there is room.
pub mod Stream
pub mod Sets
pub mod Line
pub mod Fair
pub mod Step
pub mod Rejoin
pub mod Keeps
pub mod Room
pub mod Stuck
use kafka_harbor.Prelude.{
  ℕ, zero, suc, ◌+◌, ◌-◌, Bool, true, false, not, ◌&&◌, ◌||◌, Option, none, some, List, [], ◌∷◌,
  ◌++◌, Text, Dict, lookup, insert, delete, any, filter, ltb, leb, length, or_else, ◌==◌,
  if◌then◌else◌,
}
use kafka_harbor.Topics.{member}
use kafka_harbor.Adapter.{TopicPartition, partition_key}
use kafka_harbor.Platformatic.{ClientMessage, set_add, remove, is_assigned, assigned_now}

-- Where `pump` stands: there is none, as the stream ended; it reads a stream; it holds a message and
-- waits for room; or there is room, and it has not gone on yet.
pub data Pump : Type 0 where
  ended : Pump
  reading : ℕ → Pump
  blocked resumed : ℕ → ClientMessage → Pump

-- `eachMessage` is called, `onPartitionsRevoked` is called.
pub data Note : Type 0 where
  delivered : ClientMessage → Note
  revoked : List Text → Note

-- The fields of `Consumption`, and the assignments of its client; a stream is known by a number, and
-- the notes have the latest first.
pub record Consumption : Type 0 where
  pub queues : Dict (List ClientMessage)
  pub ready : List Text
  pub waiting : List Text
  pub running : List Text
  pub paused : List Text
  pub last_queued : Dict ℕ
  pub epochs : Dict ℕ
  pub assigned : List Text
  pub lost : List Text
  pub active : ℕ
  pub queued : ℕ
  pub stopped : Bool
  pub rotating : Bool
  pub stream : Option ℕ
  pub pump : Pump
  pub assignments : Option (List TopicPartition)
  pub notes : List Note

unfoldable pub queue_of : Text → Dict (List ClientMessage) → List ClientMessage
queue_of key queues = or_else (lookup key queues) []

unfoldable pub is_empty : List ClientMessage → Bool
is_empty [] = true
is_empty (m ∷ ms) = false

-- `markReady`
unfoldable pub mark_ready : Text → Consumption → Consumption
unfolding queue_of is_empty set_add
mark_ready key g =
    if member key g.waiting || member key g.running || member key g.paused
    then g
    else if is_empty (queue_of key g.queues)
    then g
    else record g { waiting = set_add key g.waiting; ready = g.ready ++ key ∷ [] }

-- `ConsumeOptions.concurrency` and `ConsumptionSettings.bufferedMessages`
pub record Bounds : Type 0 where
  pub concurrency : ℕ
  pub buffered_messages : ℕ

module _ (bounds : Bounds) where
  release_pump : Bool → Pump → Pump
  release_pump true (blocked stream m) = resumed stream m
  release_pump false (blocked stream m) = blocked stream m
  release_pump room ended = ended
  release_pump room (reading stream) = reading stream
  release_pump room (resumed stream m) = resumed stream m

  -- `release`
  unfoldable pub release : Consumption → Consumption
  unfolding release_pump
  release g = record g {
    pump = release_pump (ltb g.queued bounds.buffered_messages || g.stopped) g.pump;
  }

  settle_in : Bool → Text → Consumption → Consumption
  settle_in true key g = g
  settle_in false key g = mark_ready key g

  -- The `finally` of `deliver`, up to `dispatch`.
  unfoldable pub settle : Text → Consumption → Consumption
  unfolding settle_in
  settle key g =
      settle_in g.stopped key (record g { running = remove key g.running; active = g.active - 1 })

  deliver_in : Bool → Text → ClientMessage → Consumption → Consumption
  unfolding settle
  deliver_in true key m g = record g {
    epochs = insert key m.leader_epoch g.epochs;
    notes = delivered m ∷ g.notes;
  }
  deliver_in false key m g =
      settle key (record g { last_queued = delete key g.last_queued; epochs = delete key g.epochs })

  -- `deliver`, up to `eachMessage`, or to its end for a partition that was lost.
  unfoldable pub deliver : Text → ClientMessage → Consumption → Consumption
  unfolding deliver_in
  deliver key m g = deliver_in (is_assigned g.assignments m.topic m.partition) key m (release g)

  -- A partition in the line has a message, so the first clause is never taken.
  shift_queue : Text → List ClientMessage → Consumption → Consumption
  unfolding deliver
  shift_queue key [] g = g
  shift_queue key (m ∷ queue) g = deliver key m (record g {
    queues = insert key queue g.queues;
    queued = g.queued - 1;
    running = set_add key g.running;
    active = g.active + 1;
  })

  start_first : Bool → Text → Consumption → Consumption
  unfolding shift_queue
  start_first true key g = g
  start_first false key g = shift_queue key (queue_of key g.queues) g

  -- One round of the loop of `dispatch`, and whether there was one to make.
  take_first : List Text → Consumption → Bool × Consumption
  unfolding start_first
  take_first [] g = (false, g)
  take_first (key ∷ ready) g = (
    true,
    start_first (member key g.paused) key
        (record g { ready = ready; waiting = remove key g.waiting }),
  )

  round_unless : Bool → Consumption → Bool × Consumption
  unfolding take_first
  round_unless true g = (false, g)
  round_unless false g = take_first g.ready g

  unfoldable pub round : Consumption → Bool × Consumption
  unfolding round_unless
  round g = round_unless (g.stopped || not (ltb g.active bounds.concurrency)) g

  go_on : (Consumption → Consumption) → Bool × Consumption → Consumption
  go_on loop (false, g) = g
  go_on loop (true, g) = loop g

  -- The loop, on fuel. A partition that was lost runs the loop once more from within, and leaves
  -- nothing for the loop around it to do, which is why it is one loop here.
  unfoldable pub dispatch_on : ℕ → Consumption → Consumption
  unfolding round go_on
  dispatch_on zero g = g
  dispatch_on (suc fuel) g = go_on (dispatch_on fuel) (round g)

  -- `dispatch`: each round takes a message or leaves the line one shorter.
  unfoldable pub dispatch : Consumption → Consumption
  unfolding dispatch_on
  dispatch g = dispatch_on (g.queued + length g.ready) g

  -- `eachMessage` settled.
  unfoldable pub delivery_settled : Text → Consumption → Consumption
  unfolding settle dispatch
  delivery_settled key g = dispatch (settle key g)

  is_repeated : Option ℕ → ℕ → Bool
  is_repeated none offset = false
  is_repeated (some last) offset = leb offset last

  push : Text → ClientMessage → Consumption → Consumption
  unfolding dispatch mark_ready queue_of
  push key m g = dispatch (
      mark_ready key (record g {
        last_queued = insert key m.offset g.last_queued;
        queues = insert key (queue_of key g.queues ++ m ∷ []) g.queues;
        queued = g.queued + 1;
      }))

  -- `enqueue`
  unfoldable pub enqueue : ClientMessage → Consumption → Consumption
  unfolding push is_repeated
  enqueue m g =
      let key = partition_key m.topic m.partition in
      if not (is_assigned g.assignments m.topic m.partition)
      then g
      else if is_repeated (lookup key g.last_queued) m.offset
      then g
      else push key m g

  is_stream : ℕ → Option ℕ → Bool
  is_stream stream none = false
  is_stream stream (some current) = current == stream

  -- The rest of a turn of `pump`, once there is room.
  unfoldable pub take_message : ℕ → ClientMessage → Consumption → Consumption
  unfolding enqueue is_stream
  take_message stream m g =
      if g.stopped || not (is_stream stream g.stream)
      then record g { pump = ended }
      else enqueue m (record g { pump = reading stream })

  -- A message came from the stream.
  unfoldable pub pump_message : ℕ → ClientMessage → Consumption → Consumption
  unfolding take_message
  pump_message stream m g =
      if leb bounds.buffered_messages g.queued
      then record g { pump = blocked stream m }
      else take_message stream m g

-- `pause`, of one partition
unfoldable pub pause : Text → Consumption → Consumption
pause key g = record g { paused = set_add key g.paused }

-- `resume`, of one partition, up to `dispatch`
unfoldable pub unpause : Text → Consumption → Consumption
unpause key g = mark_ready key (record g { paused = remove key g.paused })

unfoldable pub pause_all : List Text → Consumption → Consumption
unfolding pause
pause_all [] g = g
pause_all (key ∷ keys) g = pause_all keys (pause key g)

unfoldable pub unpause_all : List Text → Consumption → Consumption
unfolding unpause
unpause_all [] g = g
unpause_all (key ∷ keys) g = unpause_all keys (unpause key g)

-- `resume`
unfoldable pub resume : Bounds → List Text → Consumption → Consumption
unfolding unpause_all dispatch
resume bounds keys g = dispatch bounds (unpause_all keys g)

-- `discard` without `forget`
unfoldable pub drop_queue : Text → Consumption → Consumption
drop_queue key g = record g {
  queued = g.queued - length (queue_of key g.queues);
  queues = delete key g.queues;
  waiting = remove key g.waiting;
  ready = remove key g.ready;
}

-- `discard` with `forget`
unfoldable pub forget : Text → Consumption → Consumption
unfolding drop_queue
forget key g =
    let dropped = drop_queue key g in
    record dropped {
      last_queued = delete key dropped.last_queued;
      epochs = delete key dropped.epochs;
      paused = remove key dropped.paused;
    }

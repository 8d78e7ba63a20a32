-- ===== src/Consumer/World/Elsewhere.antt =====
-- What other code of the consumer does between two steps of a delivery: the synchronous parts of
-- `doStop`, `settleRevoked` and `finish` (src/consumer.ts).
use kafka_harbor.Prelude.{
  ◌+◌, true, some, List, [], ◌∷◌, Text, or_else, lookup, insert, delete, if◌then◌else◌,
}
use kafka_harbor.Consumer.World.{
  World, ConsumerState, idle, starting, stopping, stopped, StopReason, Outside, stops, abandons,
  finishes, revokes,
}

-- `doStop` up to its first wait: of a consumer that runs, it drains and forgets what is parked.
stop_in : ConsumerState → StopReason → World → World
stop_in idle reason w = record w { stop_begun = true; state = stopped }
stop_in stopped reason w = record w { stop_begun = true; state = stopped }
stop_in starting reason w = record w { stop_begun = true }
stop_in _ reason w = record w {
  stop_begun = true;
  state = stopping;
  stop_reason = some reason;
  draining = true;
  parked = [];
  batches = [];
}

-- `stop` or `stopFromPipeline`: the first stop counts.
unfoldable pub begin_stop : StopReason → World → World
unfolding stop_in
begin_stop reason w = if w.stop_begun then w else stop_in w.state reason w

-- The deadline of a stop passed: the handlers still running are abandoned.
unfoldable pub abandon : World → World
abandon w = if w.draining then record w { abandoned = true } else w

-- `finish`, at the end of a stop.
unfoldable pub finish : World → World
finish w = if w.stop_begun then record w { state = stopped } else w

-- `settleRevoked`, of one partition; its batch runs on a delivery of its own (`flush_batch`).
unfoldable pub revoke : Text → World → World
revoke key w = record w {
  revocations = insert key (or_else (lookup key w.revocations) 0 + 1) w.revocations;
  parked = delete key w.parked;
  batches = delete key w.batches;
}

unfoldable pub happen : Outside → World → World
unfolding begin_stop abandon finish revoke
happen (stops reason) w = begin_stop reason w
happen abandons w = abandon w
happen finishes w = finish w
happen (revokes key) w = revoke key w

unfoldable pub happen_all : List Outside → World → World
unfolding happen
happen_all [] w = w
happen_all (o ∷ os) w = happen_all os (happen o w)

-- ===== src/Harbor.antt =====
-- src/harbor.ts: the connection and the shutdown of a harbor, what it tracks, and its health.
pub mod Step
pub mod Invariant
pub mod Release
pub mod Ending
pub mod Diagram
pub mod Lag
use kafka_harbor.Prelude.{
  ℕ, Bool, true, false, not, ◌&&◌, ◌||◌, Option, none, some, List, [], ◌∷◌, Text, codes, any, all,
  filter, ◌==◌, if◌then◌else◌,
}
use kafka_harbor.Errors.{Thrown, closed_error}
use kafka_harbor.Consumer.World.{ConsumerState, StopReason, shutdown, abort, crash}

-- `HarborState`
pub data HarborState : Type 0 where
  idle connecting connected closing closed : HarborState

-- `this.connecting`: no attempt, one that the client has not answered, one that resolved.
pub data Connecting : Type 0 where
  unset pending settled : Connecting

-- Where `doShutdown` waits: for the consumers to stop, for the connect in flight, for the tracked
-- work that it saw, for the client to disconnect. The consumers' first failure goes along.
pub data Phase : Type 0 where
  not_begun stopping : Phase
  awaiting_connect : Option Thrown → Phase
  draining : List ℕ → Option Thrown → Phase
  disconnecting : Option Thrown → Phase
  ended : Option Thrown → Phase

pub record ConsumerHealth : Type 0 where
  pub group_id : Text
  pub status : ConsumerState
  pub stopped_because : Option StopReason

pub record HarborHealth : Type 0 where
  pub healthy : Bool
  pub state : HarborState
  pub consumers : List ConsumerHealth

-- What the harbor asks of the client and of the consumers, what the client answers, and the events.
pub data Note : Type 0 where
  connect_called connect_landed disconnect_called : Note
  connected_emitted disconnected_emitted warned : Note
  error_emitted : Thrown → Note
  stop_called : Text → Note

-- The fields of `Harbor` that change; the notes have the latest first.
pub record Harbor : Type 0 where
  pub status : HarborState
  pub connecting : Connecting
  pub adapter_connected : Bool
  -- `closedController` aborted
  pub released : Bool
  pub producing : List ℕ
  pub consumers : List ConsumerHealth
  pub signal_handlers : List Text
  pub phase : Phase
  pub notes : List Note

abbrev pub new_harbor : Harbor
new_harbor = record {
  status = idle;
  connecting = unset;
  adapter_connected = false;
  released = false;
  producing = [];
  consumers = [];
  signal_handlers = [];
  phase = not_begun;
  notes = [];
}

-- `isClosed`
unfoldable pub is_closing : HarborState → Bool
is_closing idle = false
is_closing connecting = false
is_closing connected = false
is_closing closing = true
is_closing closed = true

unfoldable pub has_failed : Option StopReason → Bool
has_failed none = false
has_failed (some shutdown) = false
has_failed (some abort) = true
has_failed (some crash) = true

-- `health`
unfoldable pub health : Harbor → HarborHealth
unfolding is_closing has_failed
health h = record {
  healthy = not (is_closing h.status) && not (any (λ c. has_failed c.stopped_because) h.consumers);
  state = h.status;
  consumers = h.consumers;
}

-- `consumer`
unfoldable pub add_consumer : Text → Harbor → Harbor
add_consumer group h = record h {
  consumers =
      record { group_id = group; status = ConsumerState.idle; stopped_because = none }
      ∷ h.consumers;
}

begin_connect : Connecting → Harbor → Harbor
begin_connect unset h = record h {
  status = connecting;
  connecting = pending;
  notes = connect_called ∷ h.notes;
}
begin_connect pending h = h
begin_connect settled h = h

-- `connect`, up to its wait for the attempt: what it throws at once, if anything.
unfoldable pub connect : Harbor → Option Thrown × Harbor
unfolding begin_connect is_closing
connect h =
    if is_closing h.status
    then (some (closed_error 0 (codes "harbor")), h)
    else (none, begin_connect h.connecting h)

-- The client's connect resolved: late, after the shutdown, it is released at once.
unfoldable pub landed_in : HarborState → Harbor → Harbor
landed_in closed h = record h { notes = disconnect_called ∷ connect_landed ∷ h.notes }
landed_in connecting h = record h {
  adapter_connected = true;
  status = connected;
  notes = connected_emitted ∷ connect_landed ∷ h.notes;
}
landed_in idle h = record h { adapter_connected = true; notes = connect_landed ∷ h.notes }
landed_in connected h = record h { adapter_connected = true; notes = connect_landed ∷ h.notes }
landed_in closing h = record h { adapter_connected = true; notes = connect_landed ∷ h.notes }

unfoldable pub land : Harbor → Harbor
unfolding landed_in
land h = landed_in h.status (record h { connecting = settled })

failed_in : HarborState → HarborState
failed_in connecting = idle
failed_in idle = idle
failed_in connected = connected
failed_in closing = closing
failed_in closed = closed

-- The client's connect failed.
unfoldable pub fail_connect : Thrown → Harbor → Harbor
unfolding failed_in
fail_connect thrown h = record h {
  status = failed_in h.status;
  connecting = unset;
  notes = error_emitted thrown ∷ h.notes;
}

-- `ensureConnected`, up to its wait
unfoldable pub ensure_connected : Harbor → Option Thrown × Harbor
unfolding connect
ensure_connected h = if h.adapter_connected && not h.released then (none, h) else connect h

-- `track`: the work begins, and has ended
unfoldable pub track : ℕ → Harbor → Harbor
track work h = record h { producing = work ∷ h.producing }

unfoldable pub untrack : ℕ → Harbor → Harbor
untrack work h = record h { producing = filter (λ other. not (other == work)) h.producing }

-- `enableSignalHandlers`, with a timeout that parses
unfoldable pub enable_signal_handlers : List Text → Harbor → Harbor
enable_signal_handlers signals h = record h { signal_handlers = signals }

unfoldable pub stop_calls : List ConsumerHealth → List Note → List Note
stop_calls [] notes = notes
stop_calls (c ∷ consumers) notes = stop_calls consumers (stop_called c.group_id ∷ notes)

begin_shutdown : Harbor → Harbor
unfolding stop_calls
begin_shutdown h = record h {
  status = closing;
  signal_handlers = [];
  phase = stopping;
  notes = stop_calls h.consumers h.notes;
}

shutdown_in : Phase → Harbor → Harbor
unfolding begin_shutdown
shutdown_in not_begun h = begin_shutdown h
shutdown_in phase h = h

-- `shutdown`, up to its wait: the second call shares the first one's.
unfoldable pub shut_down : Harbor → Harbor
unfolding shutdown_in
shut_down h = shutdown_in h.phase h

-- `finally`, and what the shutdown rejects with.
close : Option Thrown → Harbor → Harbor
close outcome h = record h { released = true; status = closed; phase = ended outcome }

release_client : Bool → Option Thrown → Harbor → Harbor
unfolding close
release_client false failure h = close failure h
release_client true failure h = record h {
  phase = disconnecting failure;
  notes = disconnect_called ∷ h.notes;
}

-- Producing stops for good, and the client is released.
release : Option Thrown → Harbor → Harbor
unfolding release_client
release failure h = release_client h.adapter_connected failure (record h { released = true })

drain_of : List ℕ → Option Thrown → Harbor → Harbor
unfolding release
drain_of [] failure h = release failure h
drain_of (work ∷ works) failure h = record h { phase = draining (work ∷ works) failure }

-- The test of the loop over the tracked work.
drain : Option Thrown → Harbor → Harbor
unfolding drain_of
drain failure h = drain_of h.producing failure h

connect_or_drain : Connecting → Option Thrown → Harbor → Harbor
unfolding drain
connect_or_drain unset failure h = drain failure h
connect_or_drain pending failure h = record h { phase = awaiting_connect failure }
connect_or_drain settled failure h = record h { phase = awaiting_connect failure }

first_failure : List (Option Thrown) → Option Thrown
first_failure [] = none
first_failure (none ∷ results) = first_failure results
first_failure (some thrown ∷ results) = some thrown

-- Every consumer's `stop` settled.
unfoldable pub consumers_stopped : List (Option Thrown) → Harbor → Harbor
unfolding connect_or_drain first_failure
consumers_stopped results h = connect_or_drain h.connecting (first_failure results) h

warn : Harbor → Harbor
warn h = record h { notes = warned ∷ h.notes }

-- `settledInTime` answered for the connect in flight.
unfoldable pub connect_waited : Bool → Option Thrown → Harbor → Harbor
unfolding drain warn
connect_waited true failure h = drain failure h
connect_waited false failure h = drain failure (warn h)

-- `settledInTime` answered for the tracked work.
unfoldable pub work_waited : Bool → Option Thrown → Harbor → Harbor
unfolding drain release warn
work_waited true failure h = drain failure h
work_waited false failure h = release failure (warn h)

-- The client's disconnect settled: its own failure is the shutdown's.
unfoldable pub disconnected : Option Thrown → Option Thrown → Harbor → Harbor
unfolding close
disconnected none failure h = close failure (record h { notes = disconnected_emitted ∷ h.notes })
disconnected (some thrown) failure h = close (some thrown) h

-- Whether none of the work that a round of the loop saw is still in flight.
unfoldable pub all_ended : List ℕ → List ℕ → Bool
all_ended seen producing = all (λ work. not (any (λ other. other == work) producing)) seen

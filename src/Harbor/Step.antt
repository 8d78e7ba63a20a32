-- ===== src/Harbor/Step.antt =====
-- What can happen to a harbor of src/harbor.ts, one turn of the event loop at a time: the calls of the
-- application, the answers of the client and of the consumers, and the timers of a shutdown.
use kafka_harbor.Prelude.{ℕ, ◌≡◌, ◌≢◌, Option, List, Text, true, false}
use kafka_harbor.Errors.{Thrown}
use kafka_harbor.Harbor.{
  Harbor, ConsumerHealth, stopping, awaiting_connect, draining, disconnecting, pending, new_harbor,
  connect, ensure_connected, land, fail_connect, track, untrack, enable_signal_handlers,
  add_consumer, shut_down, consumers_stopped, connect_waited, work_waited, disconnected, all_ended,
}

-- What the application and the client do.
pub data Turn : Harbor → Harbor → Type 0 where
  connects : {h : Harbor} → Turn h (connect h).1
  sends : {h : Harbor} → Turn h (ensure_connected h).1
  lands : {h : Harbor} → h.connecting ≡ pending → Turn h (land h)
  fails : {h : Harbor} (thrown : Thrown) → h.connecting ≡ pending → Turn h (fail_connect thrown h)
  begins : {h : Harbor} (work : ℕ) → Turn h (track work h)
  ends : {h : Harbor} (work : ℕ) → Turn h (untrack work h)
  adds : {h : Harbor} (group : Text) → Turn h (add_consumer group h)
  consumers_change :
      {h : Harbor} (consumers : List ConsumerHealth) → Turn h (record h { consumers = consumers })
  enables : {h : Harbor} (signals : List Text) → Turn h (enable_signal_handlers signals h)
  shuts_down : {h : Harbor} → Turn h (shut_down h)

-- What a shutdown goes on with: the stops of the consumers, which settle in time, what it waited for
-- or the timer that cut the wait short, and the client's disconnect.
pub data Wake : Harbor → Harbor → Type 0 where
  stops :
      {h : Harbor} (results : List (Option Thrown))
      → h.phase ≡ stopping
      → Wake h (consumers_stopped results h)
  connect_settles :
      {h : Harbor} (failure : Option Thrown)
      → h.phase ≡ awaiting_connect failure
      → h.connecting ≢ pending
      → Wake h (connect_waited true failure h)
  connect_times_out :
      {h : Harbor} (failure : Option Thrown)
      → h.phase ≡ awaiting_connect failure
      → Wake h (connect_waited false failure h)
  work_settles :
      {h : Harbor} (seen : List ℕ) (failure : Option Thrown)
      → h.phase ≡ draining seen failure
      → all_ended seen h.producing ≡ true
      → Wake h (work_waited true failure h)
  work_times_out :
      {h : Harbor} (seen : List ℕ) (failure : Option Thrown)
      → h.phase ≡ draining seen failure
      → Wake h (work_waited false failure h)
  disconnects :
      {h : Harbor} (answer failure : Option Thrown)
      → h.phase ≡ disconnecting failure
      → Wake h (disconnected answer failure h)

pub data Step : Harbor → Harbor → Type 0 where
  turn : {h k : Harbor} → Turn h k → Step h k
  wake : {h k : Harbor} → Wake h k → Step h k

pub data Steps : Harbor → Harbor → Type 0 where
  here : {h : Harbor} → Steps h h
  then : {h k l : Harbor} → Steps h k → Step k l → Steps h l

-- The harbors that a new one becomes.
pub data Reach : Harbor → Type 0 where
  start : Reach new_harbor
  later : {h k : Harbor} → Reach h → Step h k → Reach k

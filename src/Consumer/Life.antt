-- ===== src/Consumer/Life.antt =====
-- `start`, `join`, `leave`, `stop`, `stopFromPipeline` and `doStop` of src/consumer.ts, cut at their
-- waits: what a consumer does between two of them, and where each of the two calls stands.
pub mod Groups
pub mod Step
pub mod Invariant
pub mod Members
pub mod Ending
pub mod Derived
use kafka_harbor.Prelude.{
  ℕ, zero, suc, Bool, true, false, not, ◌&&◌, ◌||◌, Option, none, some, List, [], ◌∷◌, ◌++◌, Text,
  Dict, codes, any, ltb, or_else, if◌then◌else◌, show, max,
}
use kafka_harbor.Errors.{Thrown, closed_error, config_error, shutdown_timeout_error}
use kafka_harbor.Topics.{RetryLevel}
use kafka_harbor.Consumer.{Routes}
use kafka_harbor.Consumer.World.{
  ConsumerState, idle, starting, running, stopping, stopped, StopReason, shutdown, abort, crash,
}
use kafka_harbor.Consumer.Life.Groups.{
  Answer, Opened, consumptions, opened, first_rejection, set_handles, handle_ids, cannot_pause,
}

-- Where `start` waits: for the connection, for the topics, for the client to open the consumptions,
-- for those that opened to close again as another failed, for a stop that overtook it, for the
-- memberships that it closes after that stop. Or it has not been called, or has settled.
pub data Start : Type 0 where
  unbegun connecting preparing joining : Start
  unwinding : Thrown → Start
  yielding parting : Start
  settled : Option Thrown → Start

-- Where `doStop` waits: for `start`, for the running handlers, for the client to leave the group.
-- Or no stop has begun, or it is done.
pub data Stop : Type 0 where
  unset : Stop
  awaiting_start draining : StopReason → Stop
  leaving : StopReason → ℕ → Stop
  done : Option Thrown → Stop

-- Memberships opened and told to stop, the events, and the warnings.
pub data Note : Type 0 where
  membership_opened membership_stopped : ℕ → Note
  consumer_stopped : StopReason → Note
  error_emitted : Thrown → Note
  warned : Note

-- The fields of `ConsumerPipeline` that change here; a handle is known by a number, and the notes have
-- the latest first. `detached` says that the pipeline itself stopped the consumer.
pub record Life : Type 0 where
  pub state : ConsumerState
  pub start : Start
  pub stop : Stop
  pub ready : Bool
  pub start_abandoned : Bool
  pub stop_reason : Option StopReason
  pub detached : Bool
  pub is_draining : Bool
  pub handles : Dict ℕ
  pub notes : List Note

-- What the constructor of the consumer keeps for its start.
pub record Limits : Type 0 where
  pub levels : List RetryLevel
  pub max_processing_ms : ℕ
  pub adapter_name : Text

abbrev pub new_consumer : Life
new_consumer = record {
  state = idle;
  start = unbegun;
  stop = unset;
  ready = false;
  start_abandoned = false;
  stop_reason = none;
  detached = false;
  is_draining = false;
  handles = [];
  notes = [];
}

abbrev pub consumer_closed : Thrown
consumer_closed = closed_error 0 (codes "consumer")

unfoldable pub has_begun : Stop → Bool
has_begun unset = false
has_begun (awaiting_start reason) = true
has_begun (draining reason) = true
has_begun (leaving reason abandoned) = true
has_begun (done outcome) = true

unfoldable pub is_idle : ConsumerState → Bool
is_idle idle = true
is_idle starting = false
is_idle running = false
is_idle stopping = false
is_idle stopped = false

abbrev pub state_name : ConsumerState → Text
state_name idle = codes "idle"
state_name starting = codes "starting"
state_name running = codes "running"
state_name stopping = codes "stopping"
state_name stopped = codes "stopped"

-- `longestDelay`
unfoldable pub longest_delay : List RetryLevel → ℕ
longest_delay [] = 0
longest_delay (l ∷ levels) = max l.delay_ms (longest_delay levels)

-- A retry delay longer than the poll interval needs an adapter that pauses partitions.
unfoldable pub cannot_park : Limits → List Opened → Bool
unfolding longest_delay
cannot_park limits os =
    ltb limits.max_processing_ms (longest_delay limits.levels) && cannot_pause os

unfoldable pub cannot_park_message : Limits → Text
unfolding longest_delay
cannot_park_message limits =
    codes "a retry delay of "
    ++ show (longest_delay limits.levels)
    ++ codes "ms exceeds maxProcessingTime ("
    ++ show limits.max_processing_ms
    ++ codes "ms) and adapter \""
    ++ limits.adapter_name
    ++ codes "\" has no pause/resume, so the delivery would have to wait it out and the group "
    ++ codes "would evict the member; raise maxProcessingTime or use an adapter that pauses "
    ++ codes "partitions"

-- The `catch` of `start`: a start that fails after the stop gave up on it reports the closure.
unfoldable pub fail_start : Thrown → Life → Life
fail_start thrown l = record l {
  state = stopped;
  ready = true;
  start = settled (some (if l.start_abandoned then consumer_closed else thrown));
}

-- `assertNotStopping`, and what follows it.
unfoldable pub unless_stopping : Start → Life → Life
unfolding has_begun fail_start
unless_stopping next l =
    if has_begun l.stop then fail_start consumer_closed l else record l { start = next }

proceed : Start → Option Thrown → Life → Life
unfolding unless_stopping
proceed next none l = unless_stopping next l
proceed next (some thrown) l = fail_start thrown l

-- `ensureConnected` settled.
unfoldable pub connection_settled : Option Thrown → Life → Life
unfolding proceed
connection_settled answer l = proceed preparing answer l

-- `prepareTopics` settled.
unfoldable pub topics_settled : Option Thrown → Life → Life
unfolding proceed
topics_settled answer l = proceed joining answer l

note_opened : List Opened → List Note → List Note
note_opened [] notes = notes
note_opened (o ∷ os) notes = note_opened os (membership_opened o.handle ∷ notes)

note_stopped : List ℕ → List Note → List Note
note_stopped [] notes = notes
note_stopped (x ∷ xs) notes = note_stopped xs (membership_stopped x ∷ notes)

handles_of : List Opened → List ℕ
handles_of [] = []
handles_of (o ∷ os) = o.handle ∷ handles_of os

-- A consumption failed, or may not wait out a delay: the others are closed again.
unwind : Thrown → List Opened → Life → Life
unfolding note_stopped handles_of
unwind thrown os l = record l {
  state = stopped;
  ready = true;
  start = unwinding thrown;
  notes = note_stopped (handles_of os) l.notes;
}

-- The end of `start` after `join`.
after_join : Life → Life
unfolding has_begun
after_join l =
    if has_begun l.stop
    then record l { ready = true; start = yielding }
    else record l { state = running; ready = true; start = settled none }

join_in : Text → Option Thrown → Bool → List Opened → Life → Life
unfolding unwind after_join
join_in message (some thrown) parks os l = unwind thrown os l
join_in message none true os l = unwind (config_error 0 message) os l
join_in message none false os l = after_join (record l { handles = set_handles os l.handles })

module _ (routes : Routes) where
  start_refused : Bool → Life → Option Thrown
  start_refused closed l =
      if closed
      then some (closed_error 0 (codes "harbor"))
      else if not (is_idle l.state)
      then some
          (config_error 0 (codes "start() called while the consumer is " ++ state_name l.state))
      else elim routes [
        | [] ↦ some (config_error 0 (codes "start() called with no subscription"))
        | route ∷ rest ↦ none
      ]

  -- `start`, up to its first wait: what it throws at once, if anything.
  unfoldable pub begin_start : Bool → Life → Option Thrown × Life
  unfolding start_refused is_idle
  begin_start closed l = elim (start_refused closed l) [
    | some thrown ↦ (some thrown, l)
    | none ↦ (none, record l { state = starting; start = connecting })
  ]

  -- `join`, once the client answered for every consumption.
  unfoldable pub join_settled : Limits → List Answer → Life → Life
  unfolding note_opened join_in cannot_park_message cannot_park
  join_settled limits answers l =
      let os = opened (consumptions routes) answers in
      join_in (cannot_park_message limits) (first_rejection answers) (cannot_park limits os) os
        (record l { notes = note_opened os l.notes })

-- The consumptions that `join` closes again are closed.
unfoldable pub unwound : Thrown → Life → Life
unfolding fail_start
unwound thrown l = fail_start thrown l

-- `leave`, up to its wait
unfoldable pub leave : Life → Life
unfolding note_stopped
leave l = record l { handles = []; notes = note_stopped (handle_ids l.handles) l.notes }

-- The stop that overtook `start` settled.
unfoldable pub stop_seen : Life → Life
unfolding leave
stop_seen l = record (leave l) { start = parting }

first_failure : List (Option Thrown) → Option Thrown
first_failure [] = none
first_failure (none ∷ results) = first_failure results
first_failure (some thrown ∷ results) = some thrown

-- The memberships that an overtaken `start` left are closed.
unfoldable pub parted : List (Option Thrown) → Life → Life
unfolding first_failure
parted answers l = record l {
  start = settled (some (or_else (first_failure answers) consumer_closed));
}

-- What `doStop` settles with; of a stop of the pipeline's own, a failure is an event.
unfoldable pub settle_stop : Option Thrown → Life → Life
settle_stop none l = record l { stop = done none }
settle_stop (some thrown) l =
    if l.detached
    then record l { stop = done none; notes = error_emitted thrown ∷ l.notes }
    else record l { stop = done (some thrown) }

drain : StopReason → Life → Life
drain reason l = record l {
  state = stopping;
  stop_reason = some reason;
  is_draining = true;
  stop = draining reason;
}

-- `doStop`, once it need not wait for `start`.
stop_in : ConsumerState → StopReason → Life → Life
unfolding drain settle_stop
stop_in idle reason l = settle_stop none (record l { state = stopped })
stop_in stopped reason l = settle_stop none (record l { state = stopped })
stop_in starting reason l = drain reason l
stop_in running reason l = drain reason l
stop_in stopping reason l = drain reason l

begin_in : ConsumerState → StopReason → Life → Life
unfolding stop_in
begin_in starting reason l = record l { stop = awaiting_start reason }
begin_in idle reason l = stop_in idle reason l
begin_in stopped reason l = stop_in stopped reason l
begin_in running reason l = stop_in running reason l
begin_in stopping reason l = stop_in stopping reason l

begin_do_stop : Bool → StopReason → Life → Life
unfolding has_begun begin_in
begin_do_stop detached reason l =
    if has_begun l.stop then l else begin_in l.state reason (record l { detached = detached })

-- `stop`, with a timeout that parses; a stop that has begun is shared.
unfoldable pub begin_stop_call : Life → Life
unfolding begin_do_stop
begin_stop_call l = begin_do_stop false shutdown l

-- `stopFromPipeline`
unfoldable pub stop_from_pipeline : StopReason → Life → Life
unfolding begin_do_stop
stop_from_pipeline reason l = begin_do_stop true reason l

-- `settledInTime` answered for the readiness of `start`.
unfoldable pub start_waited : Bool → StopReason → Life → Life
unfolding stop_in settle_stop
start_waited true reason l = stop_in l.state reason l
start_waited false reason l = settle_stop none (record l {
  state = stopped;
  start_abandoned = true;
  stop_reason = some reason;
  notes = consumer_stopped reason ∷ warned ∷ l.notes;
})

-- `settledInTime` answered for the running handlers, of which `abandoned` still run.
unfoldable pub handlers_waited : ℕ → StopReason → Life → Life
unfolding leave
handlers_waited abandoned reason l = record (leave l) { stop = leaving reason abandoned }

after_leave : Option Thrown → ℕ → ℕ → StopReason → Life → Life
unfolding settle_stop
after_leave (some thrown) timeout abandoned reason l = settle_stop (some thrown) l
after_leave none timeout zero reason l = settle_stop none l
after_leave none timeout (suc n) shutdown l =
    settle_stop (some (shutdown_timeout_error 0 (suc n) timeout))
      (record l { notes = warned ∷ l.notes })
after_leave none timeout (suc n) abort l = settle_stop none (record l { notes = warned ∷ l.notes })
after_leave none timeout (suc n) crash l = settle_stop none (record l { notes = warned ∷ l.notes })

-- `leave` settled within `doStop`, of a stop with this timeout.
unfoldable pub group_left : List (Option Thrown) → ℕ → ℕ → StopReason → Life → Life
unfolding after_leave first_failure
group_left answers timeout abandoned reason l =
    after_leave (first_failure answers) timeout abandoned reason
      (record l { state = stopped; notes = consumer_stopped reason ∷ l.notes })

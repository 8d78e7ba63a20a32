-- ===== src/Consumer/Life/Invariant.antt =====
-- What holds of every consumer of src/consumer.ts as a whole: its state is the one that its start and
-- its stop say, and it announces the end of a stop once.
use kafka_harbor.Prelude.{
  ℕ, suc, zero, ◌≡◌, refl, Bool, true, false, not, ◌&&◌, Option, none, some, List, [], ◌∷◌, arith,
  is_some, Text,
}
use kafka_harbor.Errors.{Thrown}
use kafka_harbor.Consumer.{Routes}
use kafka_harbor.Consumer.World.{
  ConsumerState, idle, starting, running, stopping, stopped, StopReason, shutdown,
}
use kafka_harbor.Consumer.Life.{
  Life, Limits, Start, unbegun, connecting, preparing, joining, unwinding, yielding, parting,
  settled, Stop, unset, awaiting_start, draining, leaving, done, Note, membership_opened,
  membership_stopped, consumer_stopped, error_emitted, warned, new_consumer, has_begun, is_idle,
  begin_start, start_refused, fail_start, unless_stopping, proceed, connection_settled,
  topics_settled, note_opened, note_stopped, unwind, after_join, join_in, join_settled, unwound,
  leave, stop_seen, parted, settle_stop, drain, stop_in, begin_in, begin_do_stop, start_waited,
  handlers_waited, group_left, after_leave, begin_stop_call, stop_from_pipeline, first_failure,
  handles_of, cannot_park, cannot_park_message,
}
use kafka_harbor.Consumer.Life.Groups.{
  Answer, Opened, opened, consumptions, first_rejection, handle_ids,
}
use kafka_harbor.Consumer.Life.Step.{
  Turn, starts, stops, pipeline_stops, connects, prepares, joins, unwinds, sees_stop, parts, Wake,
  sees_start, start_times_out, drains, leaves, Step, turn, wake, Reach, fresh, later,
}

-- The state, by where `start` and the stop stand.
abbrev pub when_pending : Stop → ConsumerState
when_pending unset = starting
when_pending (awaiting_start reason) = starting
when_pending (draining reason) = stopping
when_pending (leaving reason abandoned) = stopping
when_pending (done outcome) = stopped

abbrev pub when_started : Stop → ConsumerState
when_started unset = running
when_started (awaiting_start reason) = running
when_started (draining reason) = stopping
when_started (leaving reason abandoned) = stopping
when_started (done outcome) = stopped

abbrev pub when_unbegun : Stop → ConsumerState
when_unbegun unset = idle
when_unbegun stop = stopped

abbrev pub state_of : Start → Stop → ConsumerState
state_of unbegun stop = when_unbegun stop
state_of connecting stop = when_pending stop
state_of preparing stop = when_pending stop
state_of joining stop = when_pending stop
state_of (unwinding thrown) stop = stopped
state_of yielding stop = when_pending stop
state_of parting stop = stopped
state_of (settled none) stop = when_started stop
state_of (settled (some thrown)) stop = stopped

-- Whether `start` and the stop can stand there together.
abbrev pub is_released : Stop → Bool
is_released (draining reason) = false
is_released (leaving reason abandoned) = false
is_released unset = true
is_released (awaiting_start reason) = true
is_released (done outcome) = true

abbrev pub is_awaiting : Stop → Bool
is_awaiting (awaiting_start reason) = true
is_awaiting unset = false
is_awaiting (draining reason) = false
is_awaiting (leaving reason abandoned) = false
is_awaiting (done outcome) = false

abbrev pub is_done : Stop → Bool
is_done (done outcome) = true
is_done unset = false
is_done (awaiting_start reason) = false
is_done (draining reason) = false
is_done (leaving reason abandoned) = false

abbrev pub may_meet : Start → Stop → Bool
may_meet unbegun stop = is_released stop && not (is_awaiting stop)
may_meet connecting stop = is_released stop
may_meet preparing stop = is_released stop
may_meet joining stop = is_released stop
may_meet (unwinding thrown) stop = is_released stop
may_meet yielding stop = has_begun stop
may_meet parting stop = is_done stop
may_meet (settled none) stop = not (is_awaiting stop)
may_meet (settled (some thrown)) stop = is_released stop

-- Whether `join` is over, one way or the other.
abbrev pub is_joined : Start → Bool
is_joined unbegun = false
is_joined connecting = false
is_joined preparing = false
is_joined joining = false
is_joined start = true

-- Whether the consumer may hold memberships of the group.
abbrev pub may_hold : Start → Stop → Bool
may_hold yielding (leaving reason abandoned) = false
may_hold yielding stop = true
may_hold (settled none) unset = true
may_hold (settled none) (draining reason) = true
may_hold start stop = false

-- How often `consumerStopped` was emitted.
unfoldable pub announcements : List Note → ℕ
announcements [] = 0
announcements (consumer_stopped reason ∷ notes) = suc (announcements notes)
announcements (membership_opened x ∷ notes) = announcements notes
announcements (membership_stopped x ∷ notes) = announcements notes
announcements (error_emitted thrown ∷ notes) = announcements notes
announcements (warned ∷ notes) = announcements notes

abbrev pub announced : Stop → Option StopReason → ℕ
announced (done outcome) (some reason) = 1
announced stop reason = 0

abbrev pub has_reason : Stop → Option StopReason → Bool
has_reason unset reason = not (is_some reason)
has_reason (awaiting_start r) reason = not (is_some reason)
has_reason (draining r) reason = is_some reason
has_reason (leaving r abandoned) reason = is_some reason
has_reason (done outcome) reason = true

pub record IsLife (l : Life) : Type 0 where
  pub state_agrees : l.state ≡ state_of l.start l.stop
  pub meets : may_meet l.start l.stop ≡ true
  pub ready_agrees : l.ready ≡ is_joined l.start
  pub empties : may_hold l.start l.stop ≡ false → l.handles ≡ []
  pub abandons : l.start_abandoned ≡ true → is_done l.stop ≡ true
  pub reasons : has_reason l.stop l.stop_reason ≡ true
  pub announces : announcements l.notes ≡ announced l.stop l.stop_reason

new_consumer-IsLife : IsLife new_consumer
unfolding announcements
new_consumer-IsLife = record {
  state_agrees = refl;
  meets = refl;
  ready_agrees = refl;
  empties = λ e. refl;
  abandons = λ e. ground arith;
  reasons = refl;
  announces = refl;
}

announcements-note_opened :
    (os : List Opened) (notes : List Note)
    → announcements (note_opened os notes) ≡ announcements notes
unfolding note_opened announcements
announcements-note_opened [] notes = refl
announcements-note_opened (o ∷ os) notes =
    announcements-note_opened os (membership_opened o.handle ∷ notes)

announcements-note_stopped :
    (xs : List ℕ) (notes : List Note) → announcements (note_stopped xs notes) ≡ announcements notes
unfolding note_stopped announcements
announcements-note_stopped [] notes = refl
announcements-note_stopped (x ∷ xs) notes =
    announcements-note_stopped xs (membership_stopped x ∷ notes)

-- One lemma for each operation.
module _ (l : Life) (inv : IsLife l) where
  begin_start-IsLife : (routes : Routes) (closed : Bool) → IsLife (begin_start routes closed l).1
  unfolding begin_start start_refused is_idle
  begin_start-IsLife [] closed = ground arith
  begin_start-IsLife (r ∷ routes) closed = ground arith

  begin_do_stop-IsLife :
      (detached : Bool) (reason : StopReason) → IsLife (begin_do_stop detached reason l)
  unfolding begin_do_stop begin_in stop_in drain settle_stop has_begun
  begin_do_stop-IsLife detached reason = ground arith

  connection_settled-IsLife :
      (answer : Option Thrown) → l.start ≡ connecting → IsLife (connection_settled answer l)
  unfolding connection_settled proceed unless_stopping has_begun fail_start
  connection_settled-IsLife answer e = ground arith

  topics_settled-IsLife :
      (answer : Option Thrown) → l.start ≡ preparing → IsLife (topics_settled answer l)
  unfolding topics_settled proceed unless_stopping has_begun fail_start
  topics_settled-IsLife answer e = ground arith

  unwound-IsLife : (thrown : Thrown) → l.start ≡ unwinding thrown → IsLife (unwound thrown l)
  unfolding unwound fail_start
  unwound-IsLife thrown e = ground arith

  join_in-IsLife :
      (message : Text) (failure : Option Thrown) (parks : Bool) (os : List Opened)
      → l.start ≡ joining
      → IsLife (join_in message failure parks os l)
  unfolding join_in unwind after_join has_begun
  join_in-IsLife message failure parks os e =
      ground (arith, announcements-note_stopped (handles_of os) l.notes)

  note_opened-IsLife : (os : List Opened) → IsLife (record l { notes = note_opened os l.notes })
  note_opened-IsLife os = ground (arith, announcements-note_opened os l.notes)

  stop_seen-IsLife :
      (outcome : Option Thrown) → l.start ≡ yielding → l.stop ≡ done outcome → IsLife (stop_seen l)
  unfolding stop_seen leave
  stop_seen-IsLife outcome e d =
      ground (arith, announcements-note_stopped (handle_ids l.handles) l.notes)

  parted-IsLife : (answers : List (Option Thrown)) → l.start ≡ parting → IsLife (parted answers l)
  unfolding parted
  parted-IsLife answers e = ground arith

  start_waited-IsLife :
      (seen : Bool) (reason : StopReason)
      → l.stop ≡ awaiting_start reason
      → (seen ≡ true → l.ready ≡ true)
      → IsLife (start_waited seen reason l)
  unfolding start_waited stop_in drain settle_stop has_begun announcements
  start_waited-IsLife seen reason e r = ground arith

  handlers_waited-IsLife :
      (abandoned : ℕ) (reason : StopReason)
      → l.stop ≡ draining reason
      → IsLife (handlers_waited abandoned reason l)
  unfolding handlers_waited leave has_begun
  handlers_waited-IsLife abandoned reason e =
      ground (arith, announcements-note_stopped (handle_ids l.handles) l.notes)

  after_leave-IsLife :
      (failure : Option Thrown) (timeout abandoned : ℕ) (reason : StopReason)
      → l.stop ≡ leaving reason abandoned
      → IsLife (
          after_leave failure timeout abandoned reason
            (record l { state = stopped; notes = consumer_stopped reason ∷ l.notes }))
  unfolding after_leave settle_stop has_begun announcements
  after_leave-IsLife failure timeout zero reason e = ground arith
  after_leave-IsLife failure timeout (suc n) reason e = ground arith

module _ (routes : Routes) (limits : Limits) where
  join_settled-IsLife :
      (l : Life) (answers : List Answer)
      → IsLife l
      → l.start ≡ joining
      → IsLife (join_settled routes limits answers l)
  unfolding join_settled
  join_settled-IsLife l answers inv e =
      let os = opened (consumptions routes) answers in
      join_in-IsLife _ (note_opened-IsLife l inv os) (cannot_park_message limits)
        (first_rejection answers) (cannot_park limits os) os e

  Turn-IsLife : {l m : Life} → Turn routes limits l m → IsLife l → IsLife m
  unfolding begin_stop_call stop_from_pipeline
  Turn-IsLife (starts {l} closed) inv = begin_start-IsLife l inv routes closed
  Turn-IsLife (stops {l}) inv = begin_do_stop-IsLife l inv false shutdown
  Turn-IsLife (pipeline_stops {l} reason) inv = begin_do_stop-IsLife l inv true reason
  Turn-IsLife (connects {l} answer e) inv = connection_settled-IsLife l inv answer e
  Turn-IsLife (prepares {l} answer e) inv = topics_settled-IsLife l inv answer e
  Turn-IsLife (joins {l} answers e) inv = join_settled-IsLife l answers inv e
  Turn-IsLife (unwinds {l} thrown e) inv = unwound-IsLife l inv thrown e
  Turn-IsLife (sees_stop {l} outcome e d) inv = stop_seen-IsLife l inv outcome e d
  Turn-IsLife (parts {l} answers e) inv = parted-IsLife l inv answers e

  Wake-IsLife : {l m : Life} → Wake routes limits l m → IsLife l → IsLife m
  unfolding group_left
  Wake-IsLife (sees_start {l} reason e r) inv = start_waited-IsLife l inv true reason e (λ same. r)
  Wake-IsLife (start_times_out {l} reason e) inv =
      start_waited-IsLife l inv false reason e (λ same. ground arith)
  Wake-IsLife (drains {l} reason abandoned e) inv = handlers_waited-IsLife l inv abandoned reason e
  Wake-IsLife (leaves {l} answers timeout abandoned reason e) inv =
      after_leave-IsLife l inv (first_failure answers) timeout abandoned reason e

  pub Step-IsLife : {l m : Life} → Step routes limits l m → IsLife l → IsLife m
  Step-IsLife (turn t) inv = Turn-IsLife t inv
  Step-IsLife (wake w) inv = Wake-IsLife w inv

  -- However the calls, the client's answers and the timers fall: where the start and the stop of a
  -- consumer stand determines its state and whether it is ready, and the two cannot stand everywhere
  -- together; memberships are held only while a consumer runs, drains, or lets a stop that overtook its
  -- start go first; the start is given up on only by a stop that is done; and `consumerStopped` is
  -- emitted exactly once by a stop that is done and has a reason, and never otherwise.
  pub Reach-IsLife : {l : Life} → Reach routes limits l → IsLife l
  Reach-IsLife fresh = new_consumer-IsLife
  Reach-IsLife (later r s) = Step-IsLife s (Reach-IsLife r)

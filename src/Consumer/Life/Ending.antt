-- ===== src/Consumer/Life/Ending.antt =====
-- The stop of a consumer of src/consumer.ts: what it rules out from when it begins, and how it
-- comes to its end.
use kafka_harbor.Prelude.{
  ℕ, suc, ◌+◌, ◌≤◌, ◌≡◌, refl, Bool, true, false, Option, none, some, List, arith, Text,
}
use kafka_harbor.Errors.{Thrown}
use kafka_harbor.Consumer.{Routes}
use kafka_harbor.Consumer.World.{ConsumerState, idle, starting, running, stopping, stopped}
use kafka_harbor.Consumer.Life.{
  Life, Limits, Start, unbegun, connecting, preparing, joining, unwinding, yielding, parting,
  settled, Stop, unset, awaiting_start, draining, leaving, done, Note, has_begun, is_idle,
  begin_start, start_refused, fail_start, unless_stopping, proceed, connection_settled,
  topics_settled, unwind, after_join, join_in, join_settled, unwound, leave, stop_seen, parted,
  settle_stop, drain, stop_in, begin_do_stop, start_waited, handlers_waited, group_left,
  after_leave, begin_stop_call, stop_from_pipeline, cannot_park_message,
}
use kafka_harbor.Consumer.Life.Groups.{Opened, first_rejection}
use kafka_harbor.Consumer.Life.Step.{
  Turn, starts, stops, pipeline_stops, connects, prepares, joins, unwinds, sees_stop, parts, Wake,
  sees_start, start_times_out, drains, leaves, turn, wake, Steps, here, then, Reach,
}
use kafka_harbor.Consumer.Life.Invariant.{IsLife, Reach-IsLife, Step-IsLife, is_done}

unfoldable pub is_live : ConsumerState → Bool
is_live running = true
is_live idle = false
is_live starting = false
is_live stopping = false
is_live stopped = false

unfoldable pub is_stopped : ConsumerState → Bool
is_stopped stopped = true
is_stopped idle = false
is_stopped starting = false
is_stopped stopping = false
is_stopped running = false

-- Whether `start` resolved.
unfoldable pub has_resolved : Start → Bool
has_resolved (settled none) = true
has_resolved (settled (some thrown)) = false
has_resolved unbegun = false
has_resolved connecting = false
has_resolved preparing = false
has_resolved joining = false
has_resolved (unwinding thrown) = false
has_resolved yielding = false
has_resolved parting = false

-- Whether a stop waits for the client to leave the groups.
unfoldable pub is_leaving : Stop → Bool
is_leaving (leaving reason abandoned) = true
is_leaving (awaiting_start reason) = false
is_leaving (draining reason) = false
is_leaving unset = false
is_leaving (done outcome) = false

-- How many turns of its own a stop has left, at most.
unfoldable pub turns_left : Stop → ℕ
turns_left (awaiting_start reason) = 3
turns_left (draining reason) = 2
turns_left (leaving reason abandoned) = 1
turns_left unset = 0
turns_left (done outcome) = 0

turns_left-most : (stop : Stop) → turns_left stop ≤ 3
unfolding turns_left
turns_left-most stop = ground arith

module _ (routes : Routes) (limits : Limits) where
  -- What a consumer whose stop began keeps, from one turn to the next.
  record Ends (l m : Life) : Type 0 where
    begun : has_begun m.stop ≡ true
    unresolved : has_resolved l.start ≡ false → has_resolved m.start ≡ false
    final : is_stopped l.state ≡ true → is_stopped m.state ≡ true

  unwind-Ends :
      (l : Life) (thrown : Thrown) (os : List Opened) (notes : List Note)
      → has_begun l.stop ≡ true
      → Ends l (unwind thrown os (record l { notes = notes }))
  unfolding unwind has_resolved is_stopped
  unwind-Ends l thrown os notes b = ground arith

  join_in-Ends :
      (message : Text) (failure : Option Thrown) (parks : Bool) (os : List Opened) (l : Life)
      (notes : List Note)
      → has_begun l.stop ≡ true
      → Ends l (join_in message failure parks os (record l { notes = notes }))
  unfolding join_in after_join has_resolved is_stopped
  join_in-Ends message (some thrown) parks os l notes b = unwind-Ends l thrown os notes b
  join_in-Ends message none true os l notes b = unwind-Ends l _ os notes b
  join_in-Ends message none false os l notes b = ground arith

  Turn-Ends :
      {l m : Life} → Turn routes limits l m → has_begun l.stop ≡ true → Ends l m × (m.stop ≡ l.stop)
  unfolding begin_start start_refused is_idle begin_stop_call stop_from_pipeline begin_do_stop
      connection_settled topics_settled proceed unless_stopping fail_start join_settled unwound
      stop_seen leave parted has_begun has_resolved is_stopped join_in after_join unwind
  Turn-Ends (starts {l} closed) b = ground arith
  Turn-Ends (stops {l}) b = ground arith
  Turn-Ends (pipeline_stops {l} reason) b = ground arith
  Turn-Ends (connects {l} answer e) b = ground arith
  Turn-Ends (prepares {l} answer e) b = ground arith
  Turn-Ends (joins {l} answers e) b =
      (join_in-Ends (cannot_park_message limits) (first_rejection answers) _ _ l _ b, ground arith)
  Turn-Ends (unwinds {l} thrown e) b = ground arith
  Turn-Ends (sees_stop {l} outcome e d) b = ground arith
  Turn-Ends (parts {l} answers e) b = ground arith

  Wake-Ends :
      {l m : Life}
      → Wake routes limits l m
      → IsLife l
      → Ends l m × (suc (turns_left m.stop) ≤ turns_left l.stop)
  unfolding start_waited stop_in drain settle_stop handlers_waited leave group_left after_leave
      has_begun has_resolved is_stopped turns_left
  Wake-Ends (sees_start {l} reason e r) inv = ground arith
  Wake-Ends (start_times_out {l} reason e) inv = ground arith
  Wake-Ends (drains {l} reason abandoned e) inv = ground arith
  Wake-Ends (leaves {l} answers timeout abandoned reason e) inv = ground arith

  -- How many turns of the stop itself a run has.
  unfoldable pub wakes : {l m : Life} → Steps routes limits l m → ℕ
  wakes here = 0
  wakes (then steps (turn t)) = wakes steps
  wakes (then steps (wake w)) = suc (wakes steps)

  record Course (l : Life) (m : Life) (spent : ℕ) : Type 0 where
    run_ends : Ends l m
    life : IsLife m
    spends : spent + turns_left m.stop ≤ turns_left l.stop

  Steps-Course :
      {l m : Life} (steps : Steps routes limits l m)
      → IsLife l
      → has_begun l.stop ≡ true
      → Course l m (wakes steps)
  unfolding wakes
  Steps-Course here inv b = record {
    run_ends = record { begun = b; unresolved = λ e. e; final = λ e. e };
    life = inv;
    spends = omega arith;
  }
  Steps-Course (then {m = k} steps (turn t)) inv b =
      let run = Steps-Course steps inv b in
      let (ends, same) = Turn-Ends t run.run_ends.begun in
      record {
        run_ends = record {
          begun = ends.begun;
          unresolved = λ e. ends.unresolved (run.run_ends.unresolved e);
          final = λ e. ends.final (run.run_ends.final e);
        };
        life = Step-IsLife routes limits (turn t) run.life;
        spends = rw same run.spends;
      }
  Steps-Course (then steps (wake w)) inv b =
      let run = Steps-Course steps inv b in
      let (ends, fewer) = Wake-Ends w run.life in
      record {
        run_ends = record {
          begun = ends.begun;
          unresolved = λ e. ends.unresolved (run.run_ends.unresolved e);
          final = λ e. ends.final (run.run_ends.final e);
        };
        life = Step-IsLife routes limits (wake w) run.life;
        spends = omega (arith, run.spends, fewer);
      }

  -- Whether a turn of a stop is an answer of the client, and not an event or a timer of the process.
  unfoldable pub needs_client : {l m : Life} → Wake routes limits l m → Bool
  needs_client (sees_start reason e r) = false
  needs_client (start_times_out reason e) = false
  needs_client (drains reason abandoned e) = false
  needs_client (leaves answers timeout abandoned reason e) = true

  -- A turn that takes a stop no further than to the leave, or ends it, without the client.
  pub record OwnTurn (l : Life) : Type 0 where
    pub next : Life
    pub own : Wake routes limits l next
    pub alone : needs_client own ≡ false

  goes_on :
      (l : Life) (stop : Stop)
      → l.stop ≡ stop
      → has_begun stop ≡ true
      → is_done stop ≡ false
      → is_leaving stop ≡ false
      → OwnTurn l
  unfolding has_begun needs_client is_leaving
  goes_on l unset e b d n = ground arith
  goes_on l (awaiting_start reason) e b d n = record {
    next = _;
    own = start_times_out reason e;
    alone = refl;
  }
  goes_on l (draining reason) e b d n = record { next = _; own = drains reason 0 e; alone = refl }
  goes_on l (leaving reason abandoned) e b d n = ground arith
  goes_on l (done outcome) e b d n = ground arith

-- A stop takes at most three turns of its own, in any run after it began, whatever the application, the
-- client and the start do meanwhile; each turn brings it nearer to its end, so none is taken twice; and
-- as long as it is neither done nor waiting for the client to leave its groups, which no timer bounds,
-- there is a turn that it can take without the client.
pub stop_ends :
    (routes : Routes) (limits : Limits) {l m : Life}
    → Reach routes limits l
    → has_begun l.stop ≡ true
    → (steps : Steps routes limits l m)
    → (wakes routes limits steps ≤ 3)
      × (wakes routes limits steps + turns_left m.stop ≤ turns_left l.stop)
      × (is_done m.stop ≡ false → is_leaving m.stop ≡ false → OwnTurn routes limits m)
unfolding turns_left
stop_ends routes limits {l} {m} r b steps =
    let run = Steps-Course routes limits steps (Reach-IsLife routes limits r) b in
    (
      omega (arith, run.spends, turns_left-most l.stop),
      run.spends,
      goes_on routes limits m m.stop refl run.run_ends.begun,
    )

-- Once a stop began, whatever happens next: the consumer is not running; a start that had not resolved
-- does not resolve any more; and a consumer that is stopped stays stopped.
pub stop-final :
    (routes : Routes) (limits : Limits) {l m : Life}
    → Reach routes limits l
    → has_begun l.stop ≡ true
    → Steps routes limits l m
    → (is_live m.state ≡ false)
      × (has_resolved l.start ≡ false → has_resolved m.start ≡ false)
      × (is_stopped l.state ≡ true → is_stopped m.state ≡ true)
unfolding is_live has_begun
stop-final routes limits r b steps =
    let run = Steps-Course routes limits steps (Reach-IsLife routes limits r) b in
    let life = run.life in let ends = run.run_ends in (ground arith, ends.unresolved, ends.final)

-- ===== src/Platformatic/Gate/Room.antt =====
-- The pump of `Consumption` (src/adapters/platformatic/index.ts): the buffer stays within its bound, and
-- the pump is woken as soon as there is room.
use kafka_harbor.Prelude.{
  ℕ, zero, suc, ◌+◌, ◌-◌, ◌≤◌, ◌≡◌, refl, Bool, true, false, not, ◌||◌, Option, none, some, List,
  [], ◌∷◌, Text, ltb, leb, length, arith, delete, lookup, filter, if◌then◌else◌,
}
use kafka_harbor.Topics.{member}
use kafka_harbor.Adapter.{TopicPartition, partition_key}
use kafka_harbor.Platformatic.{ClientMessage, set_add, remove, is_assigned, assigned_now}
use kafka_harbor.Platformatic.Gate.{
  Consumption, Bounds, Pump, ended, reading, blocked, resumed, queue_of, mark_ready, release,
  release_pump, settle, settle_in, deliver, deliver_in, shift_queue, start_first, take_first,
  round_unless, round, go_on, dispatch_on, dispatch, delivery_settled, push, is_repeated, enqueue,
  is_stream, take_message, pump_message, pause, unpause, pause_all, unpause_all, resume, drop_queue,
  forget,
}
use kafka_harbor.Platformatic.Gate.Stream.{
  keys_in, held, lost_now, forget_all, drop_all, rotate_stream, rotate, note_revoked, regain,
  joined, drop_in, drop_stream, stream_ended, stream_opened, begin_stop, clear, started,
}
use kafka_harbor.Platformatic.Gate.Step.{
  Turn, reads, breaks, goes_on, settles, pauses, resumes, reassigns, joins, fails, ends, opens,
  stops, clears, Reach, start, later,
}

-- A pump that was woken has room, or the consumption stopped.
abbrev pub woken_fits : ℕ → Bool → ℕ → Pump → Bool
woken_fits bound stopped queued (resumed stream m) = stopped || ltb queued bound
woken_fits bound stopped queued ended = true
woken_fits bound stopped queued (reading stream) = true
woken_fits bound stopped queued (blocked stream m) = true

-- A pump that waits has no room, unless the consumption stopped.
abbrev pub waiting_fits : ℕ → Bool → ℕ → Pump → Bool
waiting_fits bound stopped queued (blocked stream m) = stopped || leb bound queued
waiting_fits bound stopped queued ended = true
waiting_fits bound stopped queued (reading stream) = true
waiting_fits bound stopped queued (resumed stream m) = true

module _ (bounds : Bounds) where
  -- What holds also within a turn, while messages are taken.
  record Fits (g : Consumption) : Type 0 where
    within : g.queued ≤ bounds.buffered_messages
    woken : woken_fits bounds.buffered_messages g.stopped g.queued g.pump ≡ true

  pub record HasRoom (g : Consumption) : Type 0 where
    pub bounded : g.queued ≤ bounds.buffered_messages
    pub woken_with_room : woken_fits bounds.buffered_messages g.stopped g.queued g.pump ≡ true
    pub waits_for_room : waiting_fits bounds.buffered_messages g.stopped g.queued g.pump ≡ true

  record Shrinks (g h : Consumption) : Type 0 where
    fewer : h.queued ≤ g.queued
    same_pump : h.pump ≡ g.pump
    same_stop : h.stopped ≡ g.stopped

  Fits-Shrinks : (g h : Consumption) → Shrinks g h → Fits g → Fits h
  Fits-Shrinks g h s f = ground (arith, s, f)

  HasRoom-same : (g h : Consumption) → Shrinks g h → h.queued ≡ g.queued → HasRoom g → HasRoom h
  HasRoom-same g h s e r = ground (arith, s, r)

  HasRoom-Fits : (g : Consumption) → HasRoom g → Fits g
  HasRoom-Fits g r = ground (arith, r)

  release-HasRoom : (g : Consumption) → Fits g → HasRoom (release bounds g)
  unfolding release release_pump
  release-HasRoom g f = ground (arith, f)

  mark_ready-HasRoom : (j : Text) (g : Consumption) → HasRoom g → HasRoom (mark_ready j g)
  unfolding mark_ready
  mark_ready-HasRoom j g r = ground (arith, r)

  settle-HasRoom : (j : Text) (g : Consumption) → HasRoom g → HasRoom (settle bounds j g)
  unfolding settle settle_in
  settle-HasRoom j g r =
      let after : Consumption = record g { running = remove j g.running; active = g.active - 1 } in
      ground (arith, r, mark_ready-HasRoom j after (ground (arith, r)))

  deliver_in-HasRoom :
      (assigned : Bool) (j : Text) (m : ClientMessage) (g : Consumption)
      → HasRoom g
      → HasRoom (deliver_in bounds assigned j m g)
  unfolding deliver_in
  deliver_in-HasRoom true j m g r = ground (arith, r)
  deliver_in-HasRoom false j m g r =
      settle-HasRoom j
        (record g { last_queued = delete j g.last_queued; epochs = delete j g.epochs })
        (ground (arith, r))

  shift_queue-HasRoom :
      (j : Text) (queue : List ClientMessage) (g : Consumption)
      → HasRoom g
      → HasRoom (shift_queue bounds j queue g)
  unfolding shift_queue deliver
  shift_queue-HasRoom j [] g r = r
  shift_queue-HasRoom j (m ∷ queue) g r =
      deliver_in-HasRoom (is_assigned g.assignments m.topic m.partition) j m _
        (release-HasRoom _ (ground (arith, r)))

  start_first-HasRoom :
      (is_paused : Bool) (j : Text) (g : Consumption)
      → HasRoom g
      → HasRoom (start_first bounds is_paused j g)
  unfolding start_first
  start_first-HasRoom true j g r = r
  start_first-HasRoom false j g r = shift_queue-HasRoom j (queue_of j g.queues) g r

  take_first-HasRoom :
      (keys : List Text) (g : Consumption) → HasRoom g → HasRoom (take_first bounds keys g).1
  unfolding take_first
  take_first-HasRoom [] g r = r
  take_first-HasRoom (j ∷ ready) g r =
      start_first-HasRoom (member j g.paused) j
        (record g { ready = ready; waiting = remove j g.waiting }) (ground (arith, r))

  round_unless-HasRoom :
      (spent : Bool) (g : Consumption) → HasRoom g → HasRoom (round_unless bounds spent g).1
  unfolding round_unless
  round_unless-HasRoom true g r = r
  round_unless-HasRoom false g r = take_first-HasRoom g.ready g r

  go_on-HasRoom :
      (loop : Consumption → Consumption) (r : Bool × Consumption)
      → ((g : Consumption) → HasRoom g → HasRoom (loop g))
      → HasRoom r.1
      → HasRoom (go_on bounds loop r)
  unfolding go_on
  go_on-HasRoom loop (true, g) keeps r = keeps g r
  go_on-HasRoom loop (false, g) keeps r = r

  dispatch_on-HasRoom :
      (fuel : ℕ) (g : Consumption) → HasRoom g → HasRoom (dispatch_on bounds fuel g)
  unfolding dispatch_on round
  dispatch_on-HasRoom zero g r = r
  dispatch_on-HasRoom (suc fuel) g r =
      go_on-HasRoom (dispatch_on bounds fuel) (round bounds g) (dispatch_on-HasRoom fuel)
        (round_unless-HasRoom (g.stopped || not (ltb g.active bounds.concurrency)) g r)

  dispatch-HasRoom : (g : Consumption) → HasRoom g → HasRoom (dispatch bounds g)
  unfolding dispatch
  dispatch-HasRoom g r = dispatch_on-HasRoom (g.queued + length g.ready) g r

  -- A rejoin only takes messages away, and releases the pump when it is done.
  drop_queue-Shrinks : (j : Text) (g : Consumption) → Shrinks g (drop_queue j g)
  unfolding drop_queue
  drop_queue-Shrinks j g = ground arith

  forget_all-Shrinks : (keys : List Text) (g : Consumption) → Shrinks g (forget_all keys g)
  unfolding forget_all forget drop_queue
  forget_all-Shrinks [] g = ground arith
  forget_all-Shrinks (j ∷ keys) g =
      ground (arith, forget_all-Shrinks keys (forget j (record g { lost = set_add j g.lost })))

  drop_all-Shrinks : (keys : List Text) (g : Consumption) → Shrinks g (drop_all keys g)
  unfolding drop_all
  drop_all-Shrinks [] g = ground arith
  drop_all-Shrinks (j ∷ keys) g =
      ground (arith, drop_queue-Shrinks j g, drop_all-Shrinks keys (drop_queue j g))

  rotate_stream-Shrinks :
      (stream : Option ℕ) (stopped : Bool) (g : Consumption)
      → Shrinks g (rotate_stream stream stopped g)
  unfolding rotate_stream
  rotate_stream-Shrinks none stopped g = ground arith
  rotate_stream-Shrinks (some s) true g = ground arith
  rotate_stream-Shrinks (some s) false g = ground (arith, drop_all-Shrinks (keys_in g.queues) g)

  regain-Shrinks : (now : List Text) (g : Consumption) → Shrinks g (regain now g)
  unfolding regain rotate
  regain-Shrinks now g =
      let kept : Consumption = record g {
        lost = filter (λ key. not (member key now)) g.lost;
        assigned = now;
      } in
      ground (arith, rotate_stream-Shrinks kept.stream kept.stopped kept)

  note_revoked-Shrinks : (keys : List Text) (g : Consumption) → Shrinks g (note_revoked keys g)
  unfolding note_revoked
  note_revoked-Shrinks keys g = ground arith

  joined-HasRoom :
      (assignments : Option (List TopicPartition)) (g : Consumption)
      → HasRoom g
      → HasRoom (joined bounds assignments g)
  unfolding joined
  joined-HasRoom assignments g r =
      let now = assigned_now assignments in
      let keys = lost_now now (held g) in
      let told : Consumption = record g { assignments = assignments } in
      let forgot : Consumption = forget_all keys told in
      let noted : Consumption = note_revoked keys forgot in
      release-HasRoom (regain now noted) (
        Fits-Shrinks noted (regain now noted) (regain-Shrinks now noted) (
          Fits-Shrinks forgot noted (note_revoked-Shrinks keys forgot)
            (Fits-Shrinks told forgot (forget_all-Shrinks keys told) (ground (arith, r)))))

  either :
      {g h : Consumption} (b : Bool)
      → (b ≡ true → HasRoom g)
      → (b ≡ false → HasRoom h)
      → HasRoom (if b then g else h)
  either true r s = r refl
  either false r s = s refl

  -- A message is queued only by a pump that reads, when there is room.
  enqueue-HasRoom :
      (stream : ℕ) (m : ClientMessage) (g : Consumption)
      → g.pump ≡ reading stream
      → suc g.queued ≤ bounds.buffered_messages
      → HasRoom (enqueue bounds m g)
  unfolding enqueue push
  enqueue-HasRoom stream m g e room =
      let key = partition_key m.topic m.partition in
      let same : HasRoom g = ground arith in
      either (not (is_assigned g.assignments m.topic m.partition)) (λ lost. same)
        (λ ours.
          either (is_repeated bounds (lookup key g.last_queued) m.offset) (λ again. same)
            (λ new. dispatch-HasRoom _ (mark_ready-HasRoom key _ (ground arith))))

  take_message-HasRoom :
      (stream : ℕ) (m : ClientMessage) (g : Consumption)
      → g.queued ≤ bounds.buffered_messages
      → (g.stopped ≡ false → suc g.queued ≤ bounds.buffered_messages)
      → HasRoom (take_message bounds stream m g)
  unfolding take_message
  take_message-HasRoom stream m g r room =
      either (g.stopped || not (is_stream bounds stream g.stream)) (λ over. ground arith)
        (λ on.
          enqueue-HasRoom stream m (record g { pump = reading stream }) refl (ground (arith, room)))

  pump_message-HasRoom :
      (stream : ℕ) (m : ClientMessage) (g : Consumption)
      → HasRoom g
      → HasRoom (pump_message bounds stream m g)
  unfolding pump_message
  pump_message-HasRoom stream m g r =
      either (leb bounds.buffered_messages g.queued) (λ full. ground (arith, r))
        (λ room. take_message-HasRoom stream m g r.bounded (λ e. ground (arith, r)))

  pause_all-HasRoom : (keys : List Text) (g : Consumption) → HasRoom g → HasRoom (pause_all keys g)
  unfolding pause_all pause
  pause_all-HasRoom [] g r = r
  pause_all-HasRoom (j ∷ keys) g r = pause_all-HasRoom keys (pause j g) (ground (arith, r))

  unpause_all-HasRoom :
      (keys : List Text) (g : Consumption) → HasRoom g → HasRoom (unpause_all keys g)
  unfolding unpause_all unpause
  unpause_all-HasRoom [] g r = r
  unpause_all-HasRoom (j ∷ keys) g r =
      let flowing : Consumption = record g { paused = remove j g.paused } in
      unpause_all-HasRoom keys (mark_ready j flowing)
        (mark_ready-HasRoom j flowing (ground (arith, r)))

  Turn-HasRoom : {g h : Consumption} → Turn bounds g h → HasRoom g → HasRoom h
  unfolding delivery_settled resume drop_stream drop_in stream_ended stream_opened begin_stop clear
  Turn-HasRoom (reads {g} stream m e) r = pump_message-HasRoom stream m g r
  Turn-HasRoom (breaks {g} stream e) r = ground (arith, r)
  Turn-HasRoom (goes_on {g} stream m e) r =
      take_message-HasRoom stream m g r.bounded (λ going. ground (arith, r))
  Turn-HasRoom (settles {g} key e) r =
      dispatch-HasRoom (settle bounds key g) (settle-HasRoom key g r)
  Turn-HasRoom (pauses {g} keys) r = pause_all-HasRoom keys g r
  Turn-HasRoom (resumes {g} keys) r =
      dispatch-HasRoom (unpause_all keys g) (unpause_all-HasRoom keys g r)
  Turn-HasRoom (reassigns {g} assignments) r = ground (arith, r)
  Turn-HasRoom (joins {g} assignments) r = joined-HasRoom assignments g r
  Turn-HasRoom (fails {g}) r = ground (arith, r)
  Turn-HasRoom (ends {g} e) r = ground (arith, r)
  Turn-HasRoom (opens {g} stream e) r = ground (arith, r)
  Turn-HasRoom (stops {g}) r =
      let halted : Consumption = record g { stopped = true } in
      ground (arith, release-HasRoom halted (ground (arith, r)))
  Turn-HasRoom (clears {g} e) r = ground (arith, r)

  -- The buffer of a consumption never holds more than `bufferedMessages` messages, all partitions
  -- together; until the consumption stops, a pump waits only while the buffer is full; and a pump that
  -- was woken finds room, unless the consumption stopped.
  pub Reach-HasRoom : {g : Consumption} → Reach bounds g → HasRoom g
  unfolding started
  Reach-HasRoom (start stream assignments) = ground arith
  Reach-HasRoom (later r t) = Turn-HasRoom t (Reach-HasRoom r)

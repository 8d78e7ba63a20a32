-- ===== src/Platformatic/Gate/Stream.antt =====
-- `joined`, `rotate`, `dropStream`, `run` and `stop` of `Consumption`
-- (src/adapters/platformatic/index.ts): what a rejoin, a new stream and a stop do to the gate.
use kafka_harbor.Prelude.{
  ℕ, Bool, true, false, not, ◌&&◌, Option, none, some, List, [], ◌∷◌, Text, Dict, any, filter,
  if◌then◌else◌,
}
use kafka_harbor.Topics.{member}
use kafka_harbor.Adapter.{TopicPartition}
use kafka_harbor.Platformatic.{set_add, assigned_now}
use kafka_harbor.Platformatic.Gate.{
  Consumption, Bounds, ended, reading, revoked, drop_queue, forget, release,
}

unfoldable pub keys_in {ℓ} : {V : Type ℓ} → Dict V → List Text
keys_in [] = []
keys_in ((key, v) ∷ entries) = key ∷ keys_in entries

unfoldable pub union : List Text → List Text → List Text
unfolding set_add
union [] keys = keys
union (key ∷ more) keys = union more (set_add key keys)

-- What the consumption holds something for.
unfoldable pub held : Consumption → List Text
unfolding union keys_in
held g = union g.assigned (
    union (keys_in g.queues)
      (union (keys_in g.last_queued) (union (keys_in g.epochs) (union g.paused []))))

-- The partitions that this member holds something for and has lost.
unfoldable pub lost_now : List Text → List Text → List Text
lost_now now keys = filter (λ key. not (member key now)) keys

unfoldable pub forget_all : List Text → Consumption → Consumption
unfolding forget set_add
forget_all [] g = g
forget_all (key ∷ keys) g = forget_all keys (forget key (record g { lost = set_add key g.lost }))

unfoldable pub drop_all : List Text → Consumption → Consumption
unfolding drop_queue
drop_all [] g = g
drop_all (key ∷ keys) g = drop_all keys (drop_queue key g)

unfoldable pub rotate_stream : Option ℕ → Bool → Consumption → Consumption
unfolding drop_all keys_in
rotate_stream none stopped g = g
rotate_stream (some stream) true g = g
rotate_stream (some stream) false g = record (drop_all (keys_in g.queues) g) {
  last_queued = [];
  lost = [];
  rotating = true;
  stream = none;
}

-- `rotate`
unfoldable pub rotate : Consumption → Consumption
unfolding rotate_stream
rotate g = rotate_stream g.stream g.stopped g

unfoldable pub note_revoked : List Text → Consumption → Consumption
note_revoked [] g = g
note_revoked (key ∷ keys) g = record g { notes = revoked (key ∷ keys) ∷ g.notes }

-- The rest of `joined`: a partition that came back needs a new stream.
unfoldable pub regain : List Text → Consumption → Consumption
unfolding rotate
regain now g =
    let kept = record g { lost = filter (λ key. not (member key now)) g.lost; assigned = now } in
    if any (λ key. member key now) g.lost then rotate kept else kept

-- `joined`, with the assignments that the client has now
unfoldable pub joined : Bounds → Option (List TopicPartition) → Consumption → Consumption
unfolding held lost_now forget_all note_revoked regain
joined bounds assignments g =
    let now = assigned_now assignments in
    let keys = lost_now now (held g) in
    release bounds
      (regain now (note_revoked keys (forget_all keys (record g { assignments = assignments }))))

unfoldable pub drop_in : Option ℕ → Bool → Consumption → Consumption
drop_in none stopped g = g
drop_in (some stream) true g = g
drop_in (some stream) false g = record g { stream = none }

-- `dropStream`
unfoldable pub drop_stream : Consumption → Consumption
unfolding drop_in
drop_stream g = drop_in g.stream g.stopped g

-- `run`, when the stream that `pump` read has ended
unfoldable pub stream_ended : Consumption → Consumption
stream_ended g = record g { stream = none; rotating = g.rotating && g.stopped; pump = ended }

-- `run`, when a new stream is open
unfoldable pub stream_opened : ℕ → Consumption → Consumption
stream_opened stream g = record g {
  stream = some stream;
  assigned = assigned_now g.assignments;
  lost = [];
  pump = reading stream;
}

-- `stop`, up to its waits
unfoldable pub begin_stop : Bounds → Consumption → Consumption
begin_stop bounds g = record (release bounds (record g { stopped = true })) { stream = none }

-- `stop`, once the read loop ended
unfoldable pub clear : Consumption → Consumption
clear g = record g { queues = []; ready = []; waiting = []; queued = 0 }

-- `new Consumption`, and `start` with its first stream
unfoldable pub started : ℕ → Option (List TopicPartition) → Consumption
started stream assignments = record {
  queues = [];
  ready = [];
  waiting = [];
  running = [];
  paused = [];
  last_queued = [];
  epochs = [];
  assigned = assigned_now assignments;
  lost = [];
  active = 0;
  queued = 0;
  stopped = false;
  rotating = false;
  stream = some stream;
  pump = reading stream;
  assignments = assignments;
  notes = [];
}

-- ===== src/Harbor/Ending.antt =====
-- How the shutdown of src/harbor.ts comes to its end.
use kafka_harbor.Prelude.{
  ℕ, ◌+◌, ◌≤◌, ◌≡◌, refl, subst, sym, Bool, true, false, Option, none, some, arith,
}
use kafka_harbor.Errors.{Thrown}
use kafka_harbor.Harbor.{
  connect, Harbor, Phase, not_begun, stopping, awaiting_connect, draining, disconnecting, ended,
  drain, ensure_connected, drain_of, begin_connect, connect_or_drain, connect_waited, release,
  is_closing, land, release_client, work_waited, disconnected, close, landed_in, warn, fail_connect,
  failed_in, first_failure, track, untrack, add_consumer, enable_signal_handlers, shut_down,
  shutdown_in, begin_shutdown, consumers_stopped,
}
use kafka_harbor.Harbor.Step.{
  Turn, connects, sends, lands, fails, begins, ends, adds, consumers_change, enables, shuts_down,
  Wake, stops, connect_settles, connect_times_out, work_settles, work_times_out, disconnects, turn,
  wake, Steps, here, then, Reach,
}
use kafka_harbor.Harbor.Invariant.{IsHarbor, Reach-IsHarbor, Step-IsHarbor}

unfoldable pub is_begun : Phase → Bool
is_begun not_begun = false
is_begun stopping = true
is_begun (awaiting_connect failure) = true
is_begun (draining seen failure) = true
is_begun (disconnecting failure) = true
is_begun (ended outcome) = true

-- How many phases a shutdown has before it, this one included.
unfoldable pub phases_left : Phase → ℕ
phases_left not_begun = 4
phases_left stopping = 4
phases_left (awaiting_connect failure) = 3
phases_left (draining seen failure) = 2
phases_left (disconnecting failure) = 1
phases_left (ended outcome) = 0

phases_left-most : (p : Phase) → phases_left p ≤ 4
unfolding phases_left
phases_left-most p = ground arith

-- A round of the wait for the tracked work may find more of it, and the wait go on.
unfoldable pub cost : {h k : Harbor} → Wake h k → ℕ
cost (stops results e) = 1
cost (connect_settles failure e done) = 1
cost (connect_times_out failure e) = 1
cost (work_settles seen failure e done) = 0
cost (work_times_out seen failure e) = 1
cost (disconnects answer failure e) = 1

-- How many turns of the shutdown itself a run has, the rounds of the wait for the tracked work apart.
unfoldable pub spent : {h k : Harbor} → Steps h k → ℕ
unfolding cost
spent here = 0
spent (then steps (turn t)) = spent steps
spent (then steps (wake w)) = spent steps + cost w

Turn-phase : {h k : Harbor} → Turn h k → is_begun h.phase ≡ true → IsHarbor h → k.phase ≡ h.phase
unfolding connect ensure_connected begin_connect is_closing land landed_in fail_connect failed_in
    track untrack add_consumer enable_signal_handlers shut_down shutdown_in begin_shutdown is_begun
Turn-phase (connects {h}) b inv = ground arith
Turn-phase (sends {h}) b inv = ground arith
Turn-phase (lands {h} e) b inv = ground arith
Turn-phase (fails {h} thrown e) b inv = ground arith
Turn-phase (begins {h} work) b inv = ground arith
Turn-phase (ends {h} work) b inv = ground arith
Turn-phase (adds {h} group) b inv = ground arith
Turn-phase (consumers_change {h} consumers) b inv = ground arith
Turn-phase (enables {h} signals) b inv = ground arith
Turn-phase (shuts_down {h}) b inv = ground arith

abbrev Within : ℕ → Harbor → Type 0
Within n k = (is_begun k.phase ≡ true) × (phases_left k.phase ≤ n)

release-Within : (h : Harbor) (failure : Option Thrown) → Within 1 (release failure h)
unfolding release release_client close is_begun phases_left
release-Within h failure = ground arith

drain-Within : (h : Harbor) (failure : Option Thrown) → Within 2 (drain failure h)
unfolding drain drain_of is_begun phases_left
drain-Within h failure = ground (arith, release-Within h failure)

Wake-Within :
    {h k : Harbor} (w : Wake h k)
    → (is_begun k.phase ≡ true) × (cost w + phases_left k.phase ≤ phases_left h.phase)
unfolding consumers_stopped connect_or_drain connect_waited work_waited disconnected close warn
    is_begun phases_left cost
Wake-Within (stops {h} results e) = ground (arith, drain-Within h (first_failure results))
Wake-Within (connect_settles {h} failure e done) = ground (arith, drain-Within h failure)
Wake-Within (connect_times_out {h} failure e) = ground (arith, drain-Within (warn h) failure)
Wake-Within (work_settles {h} seen failure e done) = ground (arith, drain-Within h failure)
Wake-Within (work_times_out {h} seen failure e) = ground (arith, release-Within (warn h) failure)
Wake-Within (disconnects {h} none failure e) = ground arith
Wake-Within (disconnects {h} (some thrown) failure e) = ground arith

record Course (h k : Harbor) (n : ℕ) : Type 0 where
  harbor : IsHarbor k
  begun : is_begun k.phase ≡ true
  spends : n + phases_left k.phase ≤ phases_left h.phase

Steps-Course :
    {h k : Harbor} (steps : Steps h k)
    → IsHarbor h
    → is_begun h.phase ≡ true
    → Course h k (spent steps)
unfolding spent
Steps-Course here inv b = record { harbor = inv; begun = b; spends = omega arith }
Steps-Course (then {h} steps (turn t)) inv b =
    let run = Steps-Course steps inv b in
    let same = Turn-phase t run.begun run.harbor in
    record {
      harbor = Step-IsHarbor (turn t) run.harbor;
      begun = subst (λ p. is_begun p ≡ true) (sym same) run.begun;
      spends = subst (λ p. spent steps + phases_left p ≤ phases_left h.phase) (sym same) run.spends;
    }
Steps-Course (then steps (wake w)) inv b =
    let run = Steps-Course steps inv b in
    let (begun, fewer) = Wake-Within w in
    record {
      harbor = Step-IsHarbor (wake w) run.harbor;
      begun = begun;
      spends = omega (arith, run.spends, fewer);
    }

over : (p : Phase) → phases_left p ≡ 0 → (outcome : Option Thrown) × (p ≡ ended outcome)
unfolding phases_left
over not_begun e = ground arith
over stopping e = ground arith
over (awaiting_connect failure) e = ground arith
over (draining seen failure) e = ground arith
over (disconnecting failure) e = ground arith
over (ended outcome) e = (outcome, refl)

-- A shutdown goes through its phases in order and never back: in any run after it began, whatever the
-- application and the client do, at most four of its turns are not rounds of the wait for the tracked
-- work, each of them takes it at least one phase on, and a shutdown that ended has no such turn left
-- and stays ended.
pub shutdown_ends :
    {h k : Harbor}
    → Reach h
    → is_begun h.phase ≡ true
    → (steps : Steps h k)
    → (spent steps ≤ 4)
      × (spent steps + phases_left k.phase ≤ phases_left h.phase)
      × (phases_left h.phase ≡ 0 → (outcome : Option Thrown) × (k.phase ≡ ended outcome))
shutdown_ends {h} {k} r b steps =
    let run = Steps-Course steps (Reach-IsHarbor r) b in
    (
      omega (arith, run.spends, phases_left-most h.phase),
      run.spends,
      λ e. over k.phase (omega (arith, run.spends, e)),
    )

-- ===== src/Harbor/Diagram.antt =====
-- The states of a harbor of src/harbor.ts as its users see them, `HarborState`: the diagram that the
-- harbor's code implements.
use kafka_harbor.Prelude.{◌≡◌, refl, ◌⊎◌, inl, inr, none, some, arith, Bool, true, false, Option}
use kafka_harbor.Errors.{Thrown}
use kafka_harbor.Harbor.{
  connect, Harbor, HarborState, idle, connecting, connected, closing, closed, consumers_stopped,
  drain, ensure_connected, drain_of, begin_connect, connect_or_drain, connect_waited, release,
  is_closing, land, release_client, work_waited, disconnected, close, landed_in, warn, fail_connect,
  failed_in, first_failure, track, untrack, add_consumer, enable_signal_handlers, shut_down,
  shutdown_in, begin_shutdown,
}
use kafka_harbor.Harbor.Step.{
  Turn, connects, sends, lands, fails, begins, ends, adds, consumers_change, enables, shuts_down,
  Wake, stops, connect_settles, connect_times_out, work_settles, work_times_out, disconnects, Step,
  turn, wake, Steps, here, then, Reach,
}
use kafka_harbor.Harbor.Invariant.{IsHarbor, Reach-IsHarbor, Step-IsHarbor}

pub data Edge : HarborState → HarborState → Type 0 where
  attempt : Edge idle connecting
  succeed : Edge connecting connected
  fail : Edge connecting idle
  stop_idle : Edge idle closing
  stop_connecting : Edge connecting closing
  stop_connected : Edge connected closing
  finish : Edge closing closed

-- Whether a step of the code may take one status to another: it keeps it, or follows an edge.
follows : HarborState → HarborState → Bool
follows idle idle = true
follows idle connecting = true
follows idle closing = true
follows connecting connecting = true
follows connecting connected = true
follows connecting idle = true
follows connecting closing = true
follows connected connected = true
follows connected closing = true
follows closing closing = true
follows closing closed = true
follows closed closed = true
follows _ _ = false

one_edge : (s t : HarborState) → follows s t ≡ true → (t ≡ s) ⊎ Edge s t
unfolding follows
one_edge idle idle h = inl refl
one_edge idle connecting h = inr attempt
one_edge idle connected h = ground arith
one_edge idle closing h = inr stop_idle
one_edge idle closed h = ground arith
one_edge connecting idle h = inr fail
one_edge connecting connecting h = inl refl
one_edge connecting connected h = inr succeed
one_edge connecting closing h = inr stop_connecting
one_edge connecting closed h = ground arith
one_edge connected idle h = ground arith
one_edge connected connecting h = ground arith
one_edge connected connected h = inl refl
one_edge connected closing h = inr stop_connected
one_edge connected closed h = ground arith
one_edge closing idle h = ground arith
one_edge closing connecting h = ground arith
one_edge closing connected h = ground arith
one_edge closing closing h = inl refl
one_edge closing closed h = inr finish
one_edge closed idle h = ground arith
one_edge closed connecting h = ground arith
one_edge closed connected h = ground arith
one_edge closed closing h = ground arith
one_edge closed closed h = inl refl

Turn-follows : {h k : Harbor} → IsHarbor h → Turn h k → follows h.status k.status ≡ true
unfolding connect ensure_connected begin_connect is_closing land landed_in fail_connect failed_in
    track untrack add_consumer enable_signal_handlers shut_down shutdown_in begin_shutdown follows
Turn-follows inv (connects {h}) = ground arith
Turn-follows inv (sends {h}) = ground arith
Turn-follows inv (lands {h} e) = ground arith
Turn-follows inv (fails {h} thrown e) = ground arith
Turn-follows inv (begins {h} work) = ground arith
Turn-follows inv (ends {h} work) = ground arith
Turn-follows inv (adds {h} group) = ground arith
Turn-follows inv (consumers_change {h} consumers) = ground arith
Turn-follows inv (enables {h} signals) = ground arith
Turn-follows inv (shuts_down {h}) = ground arith

drain-follows :
    (h : Harbor) (failure : Option Thrown)
    → h.status ≡ closing
    → follows closing (drain failure h).status ≡ true
unfolding drain drain_of release release_client close follows
drain-follows h failure e = ground arith

Wake-follows : {h k : Harbor} → IsHarbor h → Wake h k → follows h.status k.status ≡ true
unfolding consumers_stopped connect_or_drain connect_waited work_waited disconnected close release
    release_client warn follows
Wake-follows inv (stops {h} results e) = ground (arith, drain-follows h (first_failure results))
Wake-follows inv (connect_settles {h} failure e done) = ground (arith, drain-follows h failure)
Wake-follows inv (connect_times_out {h} failure e) = ground (arith, drain-follows (warn h) failure)
Wake-follows inv (work_settles {h} seen failure e done) = ground (arith, drain-follows h failure)
Wake-follows inv (work_times_out {h} seen failure e) = ground arith
Wake-follows inv (disconnects {h} none failure e) = ground arith
Wake-follows inv (disconnects {h} (some thrown) failure e) = ground arith

Step-follows : {h k : Harbor} → IsHarbor h → Step h k → follows h.status k.status ≡ true
Step-follows inv (turn t) = Turn-follows inv t
Step-follows inv (wake w) = Wake-follows inv w

-- What a run of the code made of the status: each of its steps kept it, or took it along one edge.
pub data Trace : (h k : Harbor) → Steps h k → Type 0 where
  nothing : {h : Harbor} → Trace h h here
  kept :
      {h k l : Harbor} {steps : Steps h k} {s : Step k l}
      → Trace h k steps
      → l.status ≡ k.status
      → Trace h l (then steps s)
  moved :
      {h k l : Harbor} {steps : Steps h k} {s : Step k l}
      → Trace h k steps
      → Edge k.status l.status
      → Trace h l (then steps s)

traced_step :
    {h k l : Harbor} {steps : Steps h k} (s : Step k l)
    → Trace h k steps
    → (l.status ≡ k.status) ⊎ Edge k.status l.status
    → Trace h l (then steps s)
traced_step s t (inl same) = kept t same
traced_step s t (inr edge) = moved t edge

traced : {h k : Harbor} → Reach h → (steps : Steps h k) → IsHarbor k × Trace h k steps
traced r here = (Reach-IsHarbor r, nothing)
traced r (then steps s) =
    let (inv, t) = traced r steps in
    (Step-IsHarbor s inv, traced_step s t (one_edge _ _ (Step-follows inv s)))

-- The code refines the diagram: from a harbor that a new one became, each step of any run keeps the
-- status or takes it along exactly one edge of the diagram.
pub Steps-Trace : {h k : Harbor} → Reach h → (steps : Steps h k) → Trace h k steps
Steps-Trace r steps = (traced r steps).1

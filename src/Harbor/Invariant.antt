-- ===== src/Harbor/Invariant.antt =====
-- What holds of every harbor of src/harbor.ts: its status, its phase of shutdown, its attempt to
-- connect and its hold on the client agree.
use kafka_harbor.Prelude.{ℕ, suc, ◌+◌, ◌≡◌, refl, Bool, true, false, Option, List, [], ◌∷◌, arith}
use kafka_harbor.Errors.{Thrown}
use kafka_harbor.Harbor.{
  Harbor, HarborState, idle, connecting, connected, closing, closed, Phase, not_begun, stopping,
  awaiting_connect, draining, disconnecting, ended, Connecting, unset, pending, settled, Note,
  connect_called, connect_landed, disconnect_called, connected_emitted, disconnected_emitted,
  warned, error_emitted, stop_called, connect, begin_connect, is_closing, land, drain, shut_down,
  ensure_connected, new_harbor, consumers_stopped, warn, release, disconnected, fail_connect,
  stop_calls, ConsumerHealth, close, connect_or_drain, release_client, shutdown_in, landed_in,
  failed_in, drain_of, first_failure, begin_shutdown, track, connect_waited, work_waited, untrack,
  add_consumer, enable_signal_handlers,
}
use kafka_harbor.Harbor.Step.{
  Turn, connects, sends, lands, fails, begins, ends, adds, consumers_change, enables, shuts_down,
  Wake, stops, connect_settles, connect_times_out, work_settles, work_times_out, disconnects, Step,
  turn, wake, Reach, start, later,
}

-- How often the client's connect resolved, and how often it was told to disconnect.
unfoldable pub landings : List Note → ℕ
landings [] = 0
landings (connect_landed ∷ notes) = suc (landings notes)
landings (connect_called ∷ notes) = landings notes
landings (disconnect_called ∷ notes) = landings notes
landings (connected_emitted ∷ notes) = landings notes
landings (disconnected_emitted ∷ notes) = landings notes
landings (warned ∷ notes) = landings notes
landings (error_emitted thrown ∷ notes) = landings notes
landings (stop_called group ∷ notes) = landings notes

unfoldable pub releases : List Note → ℕ
releases [] = 0
releases (disconnect_called ∷ notes) = suc (releases notes)
releases (connect_landed ∷ notes) = releases notes
releases (connect_called ∷ notes) = releases notes
releases (connected_emitted ∷ notes) = releases notes
releases (disconnected_emitted ∷ notes) = releases notes
releases (warned ∷ notes) = releases notes
releases (error_emitted thrown ∷ notes) = releases notes
releases (stop_called group ∷ notes) = releases notes

-- The status while no shutdown has begun, by the attempt to connect.
abbrev pub open_status : Connecting → HarborState
open_status unset = idle
open_status pending = connecting
open_status settled = connected

abbrev pub status_of : Phase → Connecting → HarborState
status_of not_begun c = open_status c
status_of (ended outcome) c = closed
status_of stopping c = closing
status_of (awaiting_connect failure) c = closing
status_of (draining seen failure) c = closing
status_of (disconnecting failure) c = closing

-- Whether the shutdown has come to release the client.
abbrev pub past_release : Phase → Bool
past_release (disconnecting failure) = true
past_release (ended outcome) = true
past_release not_begun = false
past_release stopping = false
past_release (awaiting_connect failure) = false
past_release (draining seen failure) = false

-- The connections that the harbor holds: one, from when a connect landed until the release.
abbrev pub held : Phase → Bool → ℕ
held not_begun true = 1
held stopping true = 1
held (awaiting_connect failure) true = 1
held (draining seen failure) true = 1
held (disconnecting failure) true = 0
held (ended outcome) true = 0
held phase false = 0

abbrev pub landed_once : Connecting → ℕ
landed_once unset = 0
landed_once pending = 0
landed_once settled = 1

-- Whether the shutdown has ended.
abbrev pub is_ended : Phase → Bool
is_ended (ended outcome) = true
is_ended (disconnecting failure) = false
is_ended not_begun = false
is_ended stopping = false
is_ended (awaiting_connect failure) = false
is_ended (draining seen failure) = false

pub record IsHarbor (h : Harbor) : Type 0 where
  pub status_agrees : h.status ≡ status_of h.phase h.connecting
  pub released_agrees : h.released ≡ past_release h.phase
  -- only a connect that landed while the harbor was open sets the flag
  pub holds : h.adapter_connected ≡ true → h.connecting ≡ settled
  pub keeps : h.connecting ≡ settled → is_ended h.phase ≡ false → h.adapter_connected ≡ true
  pub releases_held :
      past_release h.phase ≡ true → is_ended h.phase ≡ false → h.adapter_connected ≡ true
  pub balanced : landings h.notes ≡ releases h.notes + held h.phase h.adapter_connected
  pub once : landings h.notes ≡ landed_once h.connecting

new_harbor-IsHarbor : IsHarbor new_harbor
unfolding landings releases
new_harbor-IsHarbor = record {
  status_agrees = refl;
  released_agrees = refl;
  holds = λ e. ground arith;
  keeps = λ e q. ground arith;
  releases_held = λ e q. ground arith;
  balanced = refl;
  once = refl;
}

landings-stop_calls :
    (cs : List ConsumerHealth) (notes : List Note) → landings (stop_calls cs notes) ≡ landings notes
unfolding stop_calls landings
landings-stop_calls [] notes = refl
landings-stop_calls (c ∷ cs) notes = landings-stop_calls cs (stop_called c.group_id ∷ notes)

releases-stop_calls :
    (cs : List ConsumerHealth) (notes : List Note) → releases (stop_calls cs notes) ≡ releases notes
unfolding stop_calls releases
releases-stop_calls [] notes = refl
releases-stop_calls (c ∷ cs) notes = releases-stop_calls cs (stop_called c.group_id ∷ notes)

-- One lemma for each operation.
module _ (h : Harbor) (inv : IsHarbor h) where
  connect-IsHarbor : IsHarbor (connect h).1
  unfolding connect begin_connect is_closing landings releases
  connect-IsHarbor = ground arith

  ensure_connected-IsHarbor : IsHarbor (ensure_connected h).1
  unfolding ensure_connected
  ensure_connected-IsHarbor = ground (arith, connect-IsHarbor)

  land-IsHarbor : h.connecting ≡ pending → IsHarbor (land h)
  unfolding land landed_in landings releases
  land-IsHarbor e = ground arith

  fail_connect-IsHarbor :
      (thrown : Thrown) → h.connecting ≡ pending → IsHarbor (fail_connect thrown h)
  unfolding fail_connect failed_in landings releases
  fail_connect-IsHarbor thrown e = ground arith

  shut_down-IsHarbor : IsHarbor (shut_down h)
  unfolding shut_down shutdown_in begin_shutdown
  shut_down-IsHarbor =
      ground
        (arith, landings-stop_calls h.consumers h.notes, releases-stop_calls h.consumers h.notes)

  -- The shutdown's own steps, from a phase in which the client is not released.
  release-IsHarbor :
      (failure : Option Thrown)
      → past_release h.phase ≡ false
      → h.status ≡ closing
      → IsHarbor (release failure h)
  unfolding release release_client close landings releases
  release-IsHarbor failure e c = ground arith

  drain-IsHarbor :
      (failure : Option Thrown)
      → past_release h.phase ≡ false
      → h.status ≡ closing
      → IsHarbor (drain failure h)
  unfolding drain drain_of
  drain-IsHarbor failure e c = ground (arith, release-IsHarbor failure e c)

  warn-IsHarbor : IsHarbor (warn h)
  unfolding warn landings releases
  warn-IsHarbor = ground arith

  consumers_stopped-IsHarbor :
      (results : List (Option Thrown)) → h.phase ≡ stopping → IsHarbor (consumers_stopped results h)
  unfolding consumers_stopped connect_or_drain
  consumers_stopped-IsHarbor results e = ground (arith, drain-IsHarbor (first_failure results))

  disconnected-IsHarbor :
      (answer failure : Option Thrown)
      → h.phase ≡ disconnecting failure
      → IsHarbor (disconnected answer failure h)
  unfolding disconnected close landings releases
  disconnected-IsHarbor answer failure e = ground arith

Turn-IsHarbor : {h k : Harbor} → Turn h k → IsHarbor h → IsHarbor k
unfolding track untrack add_consumer enable_signal_handlers
Turn-IsHarbor (connects {h}) inv = connect-IsHarbor h inv
Turn-IsHarbor (sends {h}) inv = ensure_connected-IsHarbor h inv
Turn-IsHarbor (lands {h} e) inv = land-IsHarbor h inv e
Turn-IsHarbor (fails {h} thrown e) inv = fail_connect-IsHarbor h inv thrown e
Turn-IsHarbor (begins work) inv = ground arith
Turn-IsHarbor (ends work) inv = ground arith
Turn-IsHarbor (adds group) inv = ground arith
Turn-IsHarbor (consumers_change consumers) inv = ground arith
Turn-IsHarbor (enables signals) inv = ground arith
Turn-IsHarbor (shuts_down {h}) inv = shut_down-IsHarbor h inv

pub Wake-IsHarbor : {h k : Harbor} → Wake h k → IsHarbor h → IsHarbor k
unfolding connect_waited work_waited warn
Wake-IsHarbor (stops {h} results e) inv = consumers_stopped-IsHarbor h inv results e
Wake-IsHarbor (connect_settles {h} failure e done) inv =
    drain-IsHarbor h inv failure (ground arith) (ground arith)
Wake-IsHarbor (connect_times_out {h} failure e) inv =
    drain-IsHarbor (warn h) (warn-IsHarbor h inv) failure (ground arith) (ground arith)
Wake-IsHarbor (work_settles {h} seen failure e done) inv =
    drain-IsHarbor h inv failure (ground arith) (ground arith)
Wake-IsHarbor (work_times_out {h} seen failure e) inv =
    release-IsHarbor (warn h) (warn-IsHarbor h inv) failure (ground arith) (ground arith)
Wake-IsHarbor (disconnects {h} answer failure e) inv = disconnected-IsHarbor h inv answer failure e

pub Step-IsHarbor : {h k : Harbor} → Step h k → IsHarbor h → IsHarbor k
Step-IsHarbor (turn t) inv = Turn-IsHarbor t inv
Step-IsHarbor (wake w) inv = Wake-IsHarbor w inv

-- Whatever the application calls and the client answers, in whatever order: the status of a harbor is
-- the one of its attempt to connect until a shutdown begins, `closing` until it ends and `closed` from
-- then on; producing has stopped for good exactly from when the shutdown releases the client; and the
-- connections that landed are those it released and, if one is held, that one, of which there is at
-- most one.
pub Reach-IsHarbor : {h : Harbor} → Reach h → IsHarbor h
Reach-IsHarbor start = new_harbor-IsHarbor
Reach-IsHarbor (later r s) = Step-IsHarbor s (Reach-IsHarbor r)

-- ===== src/Harbor/Release.antt =====
-- The shutdown of src/harbor.ts: what it refuses once it began, that it ends, and that it leaves no
-- connection behind.
use kafka_harbor.Prelude.{ℕ, suc, ◌≡◌, true, false, Option, none, some, List, [], ◌∷◌, codes, arith}
use kafka_harbor.Errors.{Thrown, closed_error}
use kafka_harbor.Harbor.{
  Harbor, closed, pending, Note, connect_called, connect_landed, disconnect_called,
  connected_emitted, disconnected_emitted, warned, error_emitted, stop_called, is_closing, health,
  drain, connect, release, shut_down, warn, ensure_connected, consumers_stopped, begin_connect,
  connect_or_drain, shutdown_in, drain_of, release_client, close, begin_shutdown, land,
  connect_waited, work_waited, landed_in, fail_connect, disconnected, failed_in, first_failure,
  track, untrack, add_consumer, enable_signal_handlers,
}
use kafka_harbor.Harbor.Step.{
  Turn, connects, sends, lands, fails, begins, ends, adds, consumers_change, enables, shuts_down,
  Wake, stops, connect_settles, connect_times_out, work_settles, work_times_out, disconnects, turn,
  wake, Steps, here, then, Reach,
}
use kafka_harbor.Harbor.Invariant.{
  IsHarbor, held, landings, releases, Reach-IsHarbor, Step-IsHarbor,
}

-- A harbor that is closed holds no connection: each connect of the client that resolved, also one that
-- resolved after the shutdown had given up on it, was followed by a disconnect.
pub closed-released :
    {h : Harbor} → Reach h → h.status ≡ closed → landings h.notes ≡ releases h.notes
closed-released r e = let inv = Reach-IsHarbor r in ground arith

-- A send goes through as long as the harbor holds the client, also while it shuts down; with no
-- client, it is refused with a ClosedError once a shutdown began, and otherwise waits for the
-- connect in flight, which it starts if there is none.
pub ensure_connected_lem :
    {h : Harbor}
    → Reach h
    → (held h.phase h.adapter_connected ≡ 1 → ensure_connected h ≡ (none, h))
      × (held h.phase h.adapter_connected ≡ 0
          → is_closing h.status ≡ true
          → ensure_connected h ≡ (some (closed_error 0 (codes "harbor")), h))
      × (held h.phase h.adapter_connected ≡ 0
          → is_closing h.status ≡ false
          → ((ensure_connected h).0 ≡ none) × ((ensure_connected h).1.connecting ≡ pending))
unfolding ensure_connected connect begin_connect is_closing
ensure_connected_lem {h} r =
    let inv = Reach-IsHarbor r in (λ e. ground arith, λ e c. ground arith, λ e c. ground arith)

-- How often the client's connect was called.
unfoldable pub attempts : List Note → ℕ
attempts [] = 0
attempts (connect_called ∷ notes) = suc (attempts notes)
attempts (connect_landed ∷ notes) = attempts notes
attempts (disconnect_called ∷ notes) = attempts notes
attempts (connected_emitted ∷ notes) = attempts notes
attempts (disconnected_emitted ∷ notes) = attempts notes
attempts (warned ∷ notes) = attempts notes
attempts (error_emitted thrown ∷ notes) = attempts notes
attempts (stop_called group ∷ notes) = attempts notes

-- What a harbor that shuts down, or did, answers.
pub record Refuses (h : Harbor) (n : ℕ) : Type 0 where
  pub shut : is_closing h.status ≡ true
  pub no_attempt : attempts h.notes ≡ n

Turn-Refuses : {h k : Harbor} {n : ℕ} → IsHarbor h → Turn h k → Refuses h n → Refuses k n
unfolding connect ensure_connected begin_connect is_closing land landed_in fail_connect failed_in
    track untrack add_consumer enable_signal_handlers shut_down shutdown_in attempts
Turn-Refuses inv (connects {h}) f = ground arith
Turn-Refuses inv (sends {h}) f = ground arith
Turn-Refuses inv (lands {h} e) f = ground arith
Turn-Refuses inv (fails {h} thrown e) f = ground arith
Turn-Refuses inv (begins work) f = ground arith
Turn-Refuses inv (ends work) f = ground arith
Turn-Refuses inv (adds group) f = ground arith
Turn-Refuses inv (consumers_change consumers) f = ground arith
Turn-Refuses inv (enables signals) f = ground arith
Turn-Refuses inv (shuts_down {h}) f = ground arith

release-Refuses :
    (h : Harbor) (n : ℕ) (failure : Option Thrown) → Refuses h n → Refuses (release failure h) n
unfolding release release_client close is_closing attempts
release-Refuses h n failure f = ground arith

drain-Refuses :
    (h : Harbor) (n : ℕ) (failure : Option Thrown) → Refuses h n → Refuses (drain failure h) n
unfolding drain drain_of
drain-Refuses h n failure f = ground (arith, release-Refuses h n failure f)

warn-Refuses : (h : Harbor) (n : ℕ) → Refuses h n → Refuses (warn h) n
unfolding warn attempts
warn-Refuses h n f = ground arith

Wake-Refuses : {h k : Harbor} {n : ℕ} → Wake h k → Refuses h n → Refuses k n
unfolding consumers_stopped connect_or_drain connect_waited work_waited disconnected close
    is_closing attempts
Wake-Refuses {n} (stops {h} results e) f =
    ground (arith, drain-Refuses h n (first_failure results) f)
Wake-Refuses {n} (connect_settles {h} failure e done) f = drain-Refuses h n failure f
Wake-Refuses {n} (connect_times_out {h} failure e) f =
    drain-Refuses (warn h) n failure (warn-Refuses h n f)
Wake-Refuses {n} (work_settles {h} seen failure e done) f = drain-Refuses h n failure f
Wake-Refuses {n} (work_times_out {h} seen failure e) f =
    release-Refuses (warn h) n failure (warn-Refuses h n f)
Wake-Refuses (disconnects {h} none failure e) f = ground arith
Wake-Refuses (disconnects {h} (some thrown) failure e) f = ground arith

Steps-Refuses :
    {h k : Harbor} {n : ℕ} → IsHarbor h → Steps h k → Refuses h n → IsHarbor k × Refuses k n
Steps-Refuses inv here f = (inv, f)
Steps-Refuses inv (then steps (turn t)) f =
    let (jnv, g) = Steps-Refuses inv steps f in (Step-IsHarbor (turn t) jnv, Turn-Refuses jnv t g)
Steps-Refuses inv (then steps (wake w)) f =
    let (jnv, g) = Steps-Refuses inv steps f in (Step-IsHarbor (wake w) jnv, Wake-Refuses w g)

shut_down-Refuses : (h : Harbor) → IsHarbor h → Refuses (shut_down h) (attempts (shut_down h).notes)
unfolding shut_down shutdown_in begin_shutdown is_closing
shut_down-Refuses h inv = ground arith

-- Once a shutdown began, whatever happens next: the harbor never opens again and never is healthy
-- again, the client is not asked to connect once more, and `connect` is refused with a ClosedError.
pub shut_down-final :
    {h k : Harbor}
    → Reach h
    → Steps (shut_down h) k
    → (is_closing k.status ≡ true)
      × ((health k).healthy ≡ false)
      × (attempts k.notes ≡ attempts (shut_down h).notes)
      × ((connect k).0 ≡ some (closed_error 0 (codes "harbor")))
unfolding connect health
shut_down-final {h} r steps =
    let (inv, f) =
      Steps-Refuses (Step-IsHarbor (turn shuts_down) (Reach-IsHarbor r)) steps
        (shut_down-Refuses h (Reach-IsHarbor r)) in
    ground arith

-- ===== src/Platformatic/Gate/Stuck.antt =====
-- The pump of a `Consumption` (src/adapters/platformatic/index.ts) that stopped.
use kafka_harbor.Prelude.{
  ℕ, zero, suc, ◌≡◌, Bool, true, false, not, ◌||◌, List, [], ◌∷◌, Text, ltb, arith,
}
use kafka_harbor.Platformatic.{ClientMessage}
use kafka_harbor.Platformatic.Gate.{
  Consumption, Bounds, blocked, mark_ready, settle, settle_in, round, round_unless, go_on,
  dispatch_on, dispatch, delivery_settled, pause, unpause, pause_all, unpause_all, resume,
}
use kafka_harbor.Platformatic.Gate.Stream.{drop_in, drop_stream, stream_ended, stream_opened, clear}
use kafka_harbor.Platformatic.Gate.Step.{
  Turn, reads, breaks, goes_on, settles, pauses, resumes, reassigns, joins, fails, ends, opens,
  stops, clears,
}

module _ (bounds : Bounds) where
  -- Whether a turn is a rejoin of the group or one more stop.
  unfoldable pub is_release : {g h : Consumption} → Turn bounds g h → Bool
  is_release (joins assignments) = true
  is_release stops = true
  is_release (reads stream m e) = false
  is_release (breaks stream e) = false
  is_release (goes_on stream m e) = false
  is_release (settles key e) = false
  is_release (pauses keys) = false
  is_release (resumes keys) = false
  is_release (reassigns assignments) = false
  is_release fails = false
  is_release (ends e) = false
  is_release (opens stream e) = false
  is_release (clears e) = false

  pub record IsStuck (stream : ℕ) (m : ClientMessage) (g : Consumption) : Type 0 where
    pub holds : g.pump ≡ blocked stream m
    pub halted : g.stopped ≡ true

  module _ (stream : ℕ) (m : ClientMessage) where
    round_unless-IsStuck :
        (loop : Consumption → Consumption) (spent : Bool) (g : Consumption)
        → spent ≡ true
        → IsStuck stream m g
        → IsStuck stream m (go_on bounds loop (round_unless bounds spent g))
    unfolding go_on round_unless
    round_unless-IsStuck loop true g e s = s
    round_unless-IsStuck loop false g e s = ground arith

    dispatch_on-IsStuck :
        (fuel : ℕ) (g : Consumption)
        → IsStuck stream m g
        → IsStuck stream m (dispatch_on bounds fuel g)
    unfolding dispatch_on round
    dispatch_on-IsStuck zero g s = s
    dispatch_on-IsStuck (suc fuel) g s =
        round_unless-IsStuck (dispatch_on bounds fuel)
          (g.stopped || not (ltb g.active bounds.concurrency)) g (ground (arith, s)) s

    pause_all-IsStuck :
        (keys : List Text) (g : Consumption)
        → IsStuck stream m g
        → IsStuck stream m (pause_all keys g)
    unfolding pause_all pause
    pause_all-IsStuck [] g s = s
    pause_all-IsStuck (j ∷ keys) g s = pause_all-IsStuck keys (pause j g) (ground (arith, s))

    unpause_all-IsStuck :
        (keys : List Text) (g : Consumption)
        → IsStuck stream m g
        → IsStuck stream m (unpause_all keys g)
    unfolding unpause_all unpause mark_ready
    unpause_all-IsStuck [] g s = s
    unpause_all-IsStuck (j ∷ keys) g s = unpause_all-IsStuck keys (unpause j g) (ground (arith, s))

    settle_in-IsStuck :
        (halted : Bool) (j : Text) (g : Consumption)
        → IsStuck stream m g
        → IsStuck stream m (settle_in bounds halted j g)
    unfolding settle_in mark_ready
    settle_in-IsStuck true j g s = s
    settle_in-IsStuck false j g s = ground (arith, s)

  -- A pump that came to wait for room after the consumption stopped is never woken, whatever the workers
  -- and the client do: of all turns, only a rejoin of the group or one more stop would.
  pub Turn-IsStuck :
      {g h : Consumption} (stream : ℕ) (m : ClientMessage) (t : Turn bounds g h)
      → is_release t ≡ false
      → IsStuck stream m g
      → IsStuck stream m h
  unfolding is_release delivery_settled settle resume dispatch drop_stream drop_in stream_ended
      stream_opened clear
  Turn-IsStuck stream m (reads {g} other n e) r s = ground arith
  Turn-IsStuck stream m (breaks {g} other e) r s = ground arith
  Turn-IsStuck stream m (goes_on {g} other n e) r s = ground arith
  Turn-IsStuck stream m (settles {g} key e) r s =
      dispatch_on-IsStuck stream m _ _
        (settle_in-IsStuck stream m g.stopped key _ (ground (arith, s)))
  Turn-IsStuck stream m (pauses {g} keys) r s = pause_all-IsStuck stream m keys g s
  Turn-IsStuck stream m (resumes {g} keys) r s =
      dispatch_on-IsStuck stream m _ (unpause_all keys g) (unpause_all-IsStuck stream m keys g s)
  Turn-IsStuck stream m (reassigns {g} assignments) r s = ground (arith, s)
  Turn-IsStuck stream m (joins {g} assignments) r s = ground arith
  Turn-IsStuck stream m (fails {g}) r s = ground (arith, s)
  Turn-IsStuck stream m (ends {g} e) r s = ground arith
  Turn-IsStuck stream m (opens {g} other e) r s = ground arith
  Turn-IsStuck stream m (stops {g}) r s = ground arith
  Turn-IsStuck stream m (clears {g} e) r s = ground (arith, s)

-- ===== src/Examples/Lives.antt =====
-- The life of a harbor: it connects, sends, and shuts down; or the shutdown comes before the connect
-- lands.
use kafka_harbor.Prelude.{◌≡◌, refl, false, none, some, List, [], ◌∷◌, codes, Option}
use kafka_harbor.Errors.{undefined, closed_error, Thrown}
use kafka_harbor.Result.{ok, err}
use kafka_harbor.Consumer.World.{running}
use kafka_harbor.Harbor.{
  Harbor, new_harbor, connect, land, shut_down, consumers_stopped, connect_waited, ensure_connected,
  ended,
}
use kafka_harbor.Harbor.Step.{
  Reach, start, later, here, then, turn, wake, connects, lands, shuts_down, stops,
  connect_times_out,
}
use kafka_harbor.Harbor.Invariant.{IsHarbor, landings, releases, Reach-IsHarbor}
use kafka_harbor.Harbor.Release.{closed-released, ensure_connected_lem, shut_down-final}
use kafka_harbor.Harbor.Ending.{is_begun, phases_left, shutdown_ends}
use kafka_harbor.Harbor.Diagram.{Trace, Steps-Trace}
use kafka_harbor.Harbor.Lag.{Answer, Collected, collect_lag, collect_lag-Collected}

unfoldable connecting_harbor : Harbor
unfolding connect
connecting_harbor = (connect new_harbor).1

connecting_harbor-Reach : Reach connecting_harbor
unfolding connecting_harbor
connecting_harbor-Reach = later start (turn connects)

unfoldable connected_harbor : Harbor
unfolding land connecting_harbor
connected_harbor = land connecting_harbor

connected_harbor-Reach : Reach connected_harbor
unfolding connected_harbor connecting_harbor connect
connected_harbor-Reach = later connecting_harbor-Reach (turn (lands refl))

-- The shutdown gives up on the connect, which lands later.
unfoldable late : Harbor
unfolding land connecting_harbor connect_waited consumers_stopped shut_down
late = land (connect_waited false none (consumers_stopped [] (shut_down connecting_harbor)))

late-Reach : Reach late
unfolding late connecting_harbor connect shut_down consumers_stopped connect_waited
late-Reach =
    later
      (later (later (later connecting_harbor-Reach (turn shuts_down)) (wake (stops [] refl)))
        (wake (connect_times_out none refl)))
      (turn (lands refl))

Reach-IsHarbor_example : IsHarbor late
Reach-IsHarbor_example = Reach-IsHarbor late-Reach

closed-released_example : landings late.notes ≡ releases late.notes
unfolding late land connecting_harbor connect connect_waited consumers_stopped shut_down
closed-released_example = closed-released late-Reach refl

ensure_connected_lem_example : ensure_connected connected_harbor ≡ (none, connected_harbor)
unfolding connected_harbor land connecting_harbor connect
ensure_connected_lem_example = (ensure_connected_lem connected_harbor-Reach).0 refl

shut_down-final_example :
    (connect (shut_down connected_harbor)).0 ≡ some (closed_error 0 (codes "harbor"))
shut_down-final_example = (shut_down-final connected_harbor-Reach here).3

shutdown_ends_example : (outcome : Option Thrown) × ((shut_down late).phase ≡ ended outcome)
unfolding is_begun late phases_left land connecting_harbor connect connect_waited consumers_stopped
    shut_down
shutdown_ends_example = (shutdown_ends late-Reach refl (then here (turn shuts_down))).2 refl

Steps-Trace_example :
    Trace connected_harbor (shut_down connected_harbor) (then here (turn shuts_down))
Steps-Trace_example = Steps-Trace connected_harbor-Reach (then here (turn shuts_down))

abbrev answers : List Answer
answers =
    record { at = 5; group_id = codes "a"; status = running; lag = err undefined }
    ∷ record { at = 2; group_id = codes "b"; status = running; lag = ok [] }
    ∷ []

collect_lag-Collected_example : Collected answers (collect_lag answers).0 (collect_lag answers).1
collect_lag-Collected_example = collect_lag-Collected answers

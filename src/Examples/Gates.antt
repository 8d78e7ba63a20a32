-- ===== src/Examples/Gates.antt =====
-- A consumption of one worker and a buffer of one message, that is stopped while the buffer is full.
use kafka_harbor.Prelude.{◌≡◌, refl, true, none, [], ◌∷◌, codes, text_eq, lookup, ℕ, insert, show}
use kafka_harbor.Topics.{member}
use kafka_harbor.Adapter.{partition_key}
use kafka_harbor.Platformatic.{ClientMessage, is_assigned, remove}
use kafka_harbor.Platformatic.Gate.{
  Consumption, Bounds, blocked, reading, release, pump_message, pause_all,
}
use kafka_harbor.Platformatic.Gate.Stream.{started, begin_stop}
use kafka_harbor.Platformatic.Gate.Step.{Reach, start, later, reads, stops, pauses}
use kafka_harbor.Platformatic.Gate.Fair.{IsDispatched}
use kafka_harbor.Platformatic.Gate.Keeps.{Reach-IsDispatched}
use kafka_harbor.Platformatic.Gate.Room.{HasRoom, Reach-HasRoom}
use kafka_harbor.Platformatic.Gate.Stuck.{IsStuck, Turn-IsStuck, is_release}

abbrev bounds : Bounds
bounds = record { concurrency = 1; buffered_messages = 1 }

abbrev message : ℕ → ClientMessage
message offset = record { topic = codes "a"; partition = 0; offset = offset; leader_epoch = 0 }

unfoldable busy : Consumption
unfolding pump_message
busy = pump_message bounds 7 (message 0) (started 7 none)

unfoldable full : Consumption
unfolding pump_message busy
full = pump_message bounds 7 (message 1) busy

unfoldable halted : Consumption
unfolding begin_stop full
halted = begin_stop bounds full

unfoldable stuck : Consumption
unfolding pump_message halted
stuck = pump_message bounds 7 (message 2) halted

busy-pump : busy.pump ≡ reading 7
unfolding busy started release is_assigned lookup member insert text_eq partition_key show remove
busy-pump = refl

full-pump : full.pump ≡ reading 7
unfolding full busy started release is_assigned lookup member insert text_eq partition_key show
    remove
full-pump = refl

halted-pump : halted.pump ≡ reading 7
unfolding halted full busy started release is_assigned lookup member insert text_eq partition_key
    show remove
halted-pump = refl

stuck-pump : stuck.pump ≡ blocked 7 (message 2)
unfolding stuck halted full busy started release is_assigned lookup member insert text_eq
    partition_key show remove
stuck-pump = refl

stuck-stopped : stuck.stopped ≡ true
unfolding stuck halted full busy started release is_assigned lookup member insert text_eq
    partition_key show remove
stuck-stopped = refl

busy-Reach : Reach bounds busy
unfolding busy started
busy-Reach = later (start 7 none) (reads {g = started 7 none} 7 (message 0) refl)

full-Reach : Reach bounds full
unfolding full
full-Reach = later busy-Reach (reads {g = busy} 7 (message 1) busy-pump)

halted-Reach : Reach bounds halted
unfolding halted
halted-Reach = later full-Reach (stops {g = full})

stuck-Reach : Reach bounds stuck
unfolding stuck
stuck-Reach = later halted-Reach (reads {g = halted} 7 (message 2) halted-pump)

Reach-IsDispatched_example : IsDispatched bounds stuck
Reach-IsDispatched_example = Reach-IsDispatched bounds stuck-Reach

Reach-HasRoom_example : HasRoom bounds stuck
Reach-HasRoom_example = Reach-HasRoom bounds stuck-Reach

Turn-IsStuck_example : IsStuck bounds 7 (message 2) (pause_all (codes "a" ∷ []) stuck)
unfolding is_release
Turn-IsStuck_example =
    Turn-IsStuck bounds 7 (message 2) (pauses {g = stuck} (codes "a" ∷ [])) refl
      (record { holds = stuck-pump; halted = stuck-stopped })

-- ===== src/Examples/Consumers.antt =====
-- The life of a consumer: it starts, joins with a level of retries, and is stopped while it joins.
use kafka_harbor.Prelude.{
  ◌≡◌, refl, true, false, none, some, List, [], ◌∷◌, codes, text_eq, lookup, ◌≤◌, Text, Bool,
  insert, any_value,
}
use kafka_harbor.Errors.{undefined}
use kafka_harbor.Result.{Result, ok}
use kafka_harbor.Topics.{member}
use kafka_harbor.Consumer.{Routes}
use kafka_harbor.Consumer.World.{shutdown}
use kafka_harbor.Consumer.Life.{
  Life, Limits, new_consumer, begin_start, connection_settled, topics_settled, join_settled,
  begin_stop_call, start_waited, stop_seen, parted, has_begun,
}
use kafka_harbor.Consumer.Life.Groups.{
  Answer, opens, consumptions, first_rejection, handle_ids, set_handles, opened,
}
use kafka_harbor.Consumer.Life.Groups.Levels.{IsTable}
use kafka_harbor.Consumer.Life.Step.{
  Reach, fresh, later, here, turn, wake, starts, connects, prepares, stops, joins, start_times_out,
  sees_stop, parts,
}
use kafka_harbor.Consumer.Life.Invariant.{IsLife, Reach-IsLife}
use kafka_harbor.Consumer.Life.Members.{was_opened, was_stopped, is_settled, stopped-released}
use kafka_harbor.Consumer.Life.Ending.{wakes, is_live, stop_ends, stop-final}
use kafka_harbor.Consumer.Life.Derived.{prepare_topics, TopicDefaults, topic_specs, derived_names}
use kafka_harbor.Consumer.Life.Derived.Exists.{prepare_topics-exists, forwards}
use kafka_harbor.Examples.{subscription}

abbrev routes : Routes
routes =
    (
      codes "orders",
      record { owners = (codes "orders", subscription) ∷ []; level = 0; delay_ms = 0 },
    )
    ∷ (
      codes "orders-retry-1",
      record { owners = (codes "orders", subscription) ∷ []; level = 1; delay_ms = 1000 },
    )
    ∷ []

abbrev limits : Limits
limits = record { levels = []; max_processing_ms = 300000; adapter_name = codes "memory" }

routes-IsTable : IsTable routes
unfolding lookup text_eq
routes-IsTable = (refl, (refl, tt))

unfoldable joining_consumer : Life
unfolding begin_start connection_settled topics_settled
joining_consumer =
    topics_settled none (connection_settled none (begin_start routes false new_consumer).1)

joining_consumer-Reach : Reach routes limits joining_consumer
unfolding joining_consumer begin_start connection_settled topics_settled
joining_consumer-Reach =
    later (later (later fresh (turn (starts false))) (turn (connects none refl)))
      (turn (prepares none refl))

unfoldable stopping_consumer : Life
unfolding begin_stop_call joining_consumer
stopping_consumer = begin_stop_call joining_consumer

stopping_consumer-Reach : Reach routes limits stopping_consumer
unfolding stopping_consumer
stopping_consumer-Reach = later joining_consumer-Reach (turn stops)

abbrev answers : List Answer
answers = opens 1 true ∷ opens 2 true ∷ []

-- The stop gave up on the start, which joins nonetheless.
unfoldable abandoned_consumer : Life
unfolding join_settled start_waited stopping_consumer
abandoned_consumer =
    join_settled routes limits answers (start_waited false shutdown stopping_consumer)

abandoned_consumer-Reach : Reach routes limits abandoned_consumer
unfolding abandoned_consumer stopping_consumer begin_stop_call joining_consumer begin_start
    connection_settled topics_settled start_waited
abandoned_consumer-Reach =
    later (later stopping_consumer-Reach (wake (start_times_out shutdown refl)))
      (turn (joins answers refl))

unfoldable stopped_consumer : Life
unfolding abandoned_consumer stop_seen parted
stopped_consumer = parted (none ∷ some undefined ∷ []) (stop_seen abandoned_consumer)

stopped_consumer-Reach : Reach routes limits stopped_consumer
unfolding stopped_consumer abandoned_consumer stopping_consumer begin_stop_call joining_consumer
    begin_start connection_settled topics_settled start_waited join_settled stop_seen parted
    consumptions first_rejection
stopped_consumer-Reach =
    later (later abandoned_consumer-Reach (turn (sees_stop none refl refl)))
      (turn (parts (none ∷ some undefined ∷ []) refl))

Reach-IsLife_example : IsLife abandoned_consumer
Reach-IsLife_example = Reach-IsLife routes limits abandoned_consumer-Reach

stopped-released_example : was_stopped 2 stopped_consumer.notes ≡ true
unfolding stopped_consumer abandoned_consumer stopping_consumer begin_stop_call joining_consumer
    begin_start connection_settled topics_settled start_waited join_settled stop_seen parted
    consumptions was_opened was_stopped is_settled first_rejection handle_ids set_handles opened
    insert text_eq
stopped-released_example =
    stopped-released routes limits routes-IsTable stopped_consumer-Reach refl refl 2 refl

stop-final_example : is_live stopping_consumer.state ≡ false
unfolding stopping_consumer begin_stop_call joining_consumer begin_start connection_settled
    topics_settled has_begun
stop-final_example = (stop-final routes limits stopping_consumer-Reach refl here).0

stop_ends_example : wakes routes limits (here {l = stopping_consumer}) ≤ 3
unfolding stopping_consumer begin_stop_call joining_consumer begin_start connection_settled
    topics_settled has_begun
stop_ends_example = (stop_ends routes limits stopping_consumer-Reach refl here).0

abbrev defaults : TopicDefaults
defaults = record { partitions = some 3; replication_factor = none }

-- The broker that has the topic that is asked for.
abbrev has_all : Text → Result Bool
has_all topic = ok true

prepare_topics-exists_example : has_all (codes "orders-dlq") ≡ ok true
unfolding prepare_topics forwards topic_specs derived_names member text_eq any_value
prepare_topics-exists_example =
    (prepare_topics-exists (λ specs. none) has_all defaults routes).4 refl (codes "orders-dlq") refl

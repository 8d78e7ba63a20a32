-- ===== src/Examples/Deliveries.antt =====
-- Deliveries to the consumer of the examples, and its subscription.
use kafka_harbor.Prelude.{
  ◌≡◌, refl, inl, arith, false, none, some, [], ◌∷◌, codes, text_eq, lookup, show, any_value,
}
use kafka_harbor.Errors.{undefined}
use kafka_harbor.Result.{Result, ok, err}
use kafka_harbor.Topics.{
  resolve_retry_levels, default_retry_topic_naming, default_dlq_topic_naming, TopicPlan, topic_plan,
}
use kafka_harbor.Topics.Plan.{IsPlan, topic_plan-IsPlan}
use kafka_harbor.Consumer.{each, Routes}
use kafka_harbor.Consumer.Routes.{Settings, route}
use kafka_harbor.Consumer.Routes.Invariant.{DlqsApart, route-DlqsApart}
use kafka_harbor.Consumer.World.{Message}
use kafka_harbor.Consumer.Backed.{CommitsBacked}
use kafka_harbor.Consumer.Action.Logs.{Logs}
use kafka_harbor.Consumer.Forward.{forward_failed}
use kafka_harbor.Consumer.Forward.Ladder.{Any, Went, forward_failed-Went}
use kafka_harbor.Consumer.Process.{receive}
use kafka_harbor.Consumer.Batch.Safety.{RefusesPlainly}
use kafka_harbor.Consumer.Process.Loss.{receive-CommitsBacked}
use kafka_harbor.Redrive.{Options, Progress, drain}
use kafka_harbor.Redrive.Drain.{Tallied, Never, WithinMax, drain-WithinMax}
use kafka_harbor.Examples.{config, env, world, raw, item, subscription}

never_refuses : RefusesPlainly env
never_refuses = λ n topic rejection e. absurd (cc)

receive-CommitsBacked_example : CommitsBacked (receive env config raw false world).1.effects
receive-CommitsBacked_example = receive-CommitsBacked env config never_refuses raw false world tt

forward_failed-Went_example :
    Logs Any (forward_failed env config item subscription 0 undefined) (Went subscription 0 raw) Any
forward_failed-Went_example = forward_failed-Went env config item subscription 0 undefined

abbrev message : Message
message = record { raw = raw; value = some 7; headers = []; retry = none }

abbrev settings : Settings
settings = record {
  levels = resolve_retry_levels (1000 ∷ 60000 ∷ []);
  retry_naming = default_retry_topic_naming;
  dlq_naming = some default_dlq_topic_naming;
}

abbrev value_or {ℓ} : {A : Type ℓ} → A → Result A → A
value_or d (ok a) = a
value_or d (err e) = d

abbrev routed : Routes
routed = value_or [] (route settings [] (codes "orders") each false none)

nothing_routed : DlqsApart []
unfolding lookup
nothing_routed = λ topic name r s found owned dlq e. refl

route-DlqsApart_example : DlqsApart routed
unfolding route topic_plan resolve_retry_levels text_eq default_retry_topic_naming show
    default_dlq_topic_naming lookup any_value
route-DlqsApart_example =
    route-DlqsApart settings (1000 ∷ 60000 ∷ []) [] (codes "orders") each false none routed refl
      nothing_routed refl

abbrev planned : TopicPlan
planned =
    value_or (record { original = []; retry_topics = []; dlq_topic = none })
      (topic_plan (codes "orders") 2 default_retry_topic_naming (some default_dlq_topic_naming))

topic_plan-IsPlan_example :
    (planned.original ≡ codes "orders")
    × IsPlan (default_retry_topic_naming (codes "orders")) 2 planned
unfolding topic_plan text_eq default_retry_topic_naming show default_dlq_topic_naming
topic_plan-IsPlan_example =
    topic_plan-IsPlan (codes "orders") 2 default_retry_topic_naming (some default_dlq_topic_naming)
      planned refl

abbrev redriving : Options
redriving = record {
  from = codes "orders-dlq";
  to = some (codes "orders");
  max = some 1;
  keep = none;
}

abbrev at_start : Progress
at_start = record {
  reprocessed = 0;
  skipped = 0;
  last_activity = 0;
  finished = false;
  failure = none;
}

drain-WithinMax_example :
    Logs
      (Tallied 0 at_start)
      (drain env config redriving (raw ∷ raw ∷ []) at_start)
      (λ q es. WithinMax (some 1) q × Tallied 0 q es)
      Never
drain-WithinMax_example =
    drain-WithinMax env config redriving refl 0 (raw ∷ raw ∷ []) at_start (inl (omega arith))

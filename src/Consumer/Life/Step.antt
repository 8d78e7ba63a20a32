-- ===== src/Consumer/Life/Step.antt =====
-- What can happen to a consumer of src/consumer.ts as a whole, one turn of the event loop at a time:
-- the calls of the application and of the pipeline, the answers of the client, and the timers.
use kafka_harbor.Prelude.{ℕ, ◌≡◌, Bool, true, false, Option, List}
use kafka_harbor.Errors.{Thrown}
use kafka_harbor.Consumer.{Routes}
use kafka_harbor.Consumer.World.{StopReason}
use kafka_harbor.Consumer.Life.{
  Life, Limits, connecting, preparing, joining, unwinding, yielding, parting, awaiting_start,
  draining, leaving, done, new_consumer, begin_start, connection_settled, topics_settled,
  join_settled, unwound, stop_seen, parted, begin_stop_call, stop_from_pipeline, start_waited,
  handlers_waited, group_left,
}
use kafka_harbor.Consumer.Life.Groups.{Answer}

module _ (routes : Routes) (limits : Limits) where
  -- What is called, and how `start` goes on.
  pub data Turn : Life → Life → Type 0 where
    starts : {l : Life} (closed : Bool) → Turn l (begin_start routes closed l).1
    stops : {l : Life} → Turn l (begin_stop_call l)
    pipeline_stops : {l : Life} (reason : StopReason) → Turn l (stop_from_pipeline reason l)
    connects :
        {l : Life} (answer : Option Thrown)
        → l.start ≡ connecting
        → Turn l (connection_settled answer l)
    prepares :
        {l : Life} (answer : Option Thrown) → l.start ≡ preparing → Turn l (topics_settled answer l)
    joins :
        {l : Life} (answers : List Answer)
        → l.start ≡ joining
        → Turn l (join_settled routes limits answers l)
    unwinds : {l : Life} (thrown : Thrown) → l.start ≡ unwinding thrown → Turn l (unwound thrown l)
    sees_stop :
        {l : Life} (outcome : Option Thrown)
        → l.start ≡ yielding
        → l.stop ≡ done outcome
        → Turn l (stop_seen l)
    parts :
        {l : Life} (answers : List (Option Thrown)) → l.start ≡ parting → Turn l (parted answers l)

  -- How a stop goes on: what it waited for, or the timer that cut the wait short. No timer cuts the
  -- leave short: `leaves` is the client's answer to the stop of every handle, with the handles'
  -- results, and a client that does not answer holds the stop there.
  pub data Wake : Life → Life → Type 0 where
    sees_start :
        {l : Life} (reason : StopReason)
        → l.stop ≡ awaiting_start reason
        → l.ready ≡ true
        → Wake l (start_waited true reason l)
    start_times_out :
        {l : Life} (reason : StopReason)
        → l.stop ≡ awaiting_start reason
        → Wake l (start_waited false reason l)
    drains :
        {l : Life} (reason : StopReason) (abandoned : ℕ)
        → l.stop ≡ draining reason
        → Wake l (handlers_waited abandoned reason l)
    leaves :
        {l : Life} (answers : List (Option Thrown)) (timeout abandoned : ℕ) (reason : StopReason)
        → l.stop ≡ leaving reason abandoned
        → Wake l (group_left answers timeout abandoned reason l)

  pub data Step : Life → Life → Type 0 where
    turn : {l m : Life} → Turn l m → Step l m
    wake : {l m : Life} → Wake l m → Step l m

  pub data Steps : Life → Life → Type 0 where
    here : {l : Life} → Steps l l
    then : {l m n : Life} → Steps l m → Step m n → Steps l n

  -- What a new consumer with these routes becomes.
  pub data Reach : Life → Type 0 where
    fresh : Reach new_consumer
    later : {l m : Life} → Reach l → Step l m → Reach m

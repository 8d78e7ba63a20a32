-- ===== src/Platformatic/Gate/Step.antt =====
-- What can happen to a `Consumption` of src/adapters/platformatic/index.ts, one turn of the event loop at
-- a time.
use kafka_harbor.Prelude.{ℕ, ◌≡◌, true, Option, List, Text}
use kafka_harbor.Topics.{member}
use kafka_harbor.Adapter.{TopicPartition}
use kafka_harbor.Platformatic.{ClientMessage}
use kafka_harbor.Platformatic.Gate.{
  Consumption, Bounds, ended, reading, resumed, pump_message, take_message, delivery_settled,
  pause_all, resume,
}
use kafka_harbor.Platformatic.Gate.Stream.{
  joined, drop_stream, stream_ended, stream_opened, begin_stop, clear, started,
}

module _ (bounds : Bounds) where
  pub data Turn : Consumption → Consumption → Type 0 where
    -- the stream has a message, or fails, or the pump goes on with the one that it held
    reads :
        {g : Consumption} (stream : ℕ) (m : ClientMessage)
        → g.pump ≡ reading stream
        → Turn g (pump_message bounds stream m g)
    breaks :
        {g : Consumption} (stream : ℕ)
        → g.pump ≡ reading stream
        → Turn g (record g { pump = ended })
    goes_on :
        {g : Consumption} (stream : ℕ) (m : ClientMessage)
        → g.pump ≡ resumed stream m
        → Turn g (take_message bounds stream m g)
    -- a worker is done
    settles :
        {g : Consumption} (key : Text)
        → member key g.running ≡ true
        → Turn g (delivery_settled bounds key g)
    pauses : {g : Consumption} (keys : List Text) → Turn g (pause_all keys g)
    resumes : {g : Consumption} (keys : List Text) → Turn g (resume bounds keys g)
    -- the client's assignments change, and it tells of the rejoin
    reassigns :
        {g : Consumption} (assignments : Option (List TopicPartition))
        → Turn g (record g { assignments = assignments })
    joins :
        {g : Consumption} (assignments : Option (List TopicPartition))
        → Turn g (joined bounds assignments g)
    fails : {g : Consumption} → Turn g (drop_stream g)
    ends : {g : Consumption} → g.pump ≡ ended → Turn g (stream_ended g)
    opens : {g : Consumption} (stream : ℕ) → g.pump ≡ ended → Turn g (stream_opened stream g)
    stops : {g : Consumption} → Turn g (begin_stop bounds g)
    clears : {g : Consumption} → g.stopped ≡ true → Turn g (clear g)

  pub data Reach : Consumption → Type 0 where
    start :
        (stream : ℕ) (assignments : Option (List TopicPartition))
        → Reach (started stream assignments)
    later : {g h : Consumption} → Reach g → Turn g h → Reach h

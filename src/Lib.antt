-- ===== src/Lib.antt =====
-- kafka-harbor: consuming and producing on Kafka with retry topics, dead-letter topics and commits
-- that follow the work. This library models the part of the program that decides what happens to a
-- message, translated from the TypeScript sources under src/, and proves what makes it correct.
--
-- Parts, and the files that model them:
--   * src/errors.ts is Errors (the taxonomy and its guards), Errors/Cause (the walk of `fencedIn`
--     over causes) and Errors/Describe (`describeError`). A thrown value is `undefined`, `null`,
--     another primitive, or an object with the fields that the library reads and its cause; a cyclic chain
--     of causes is unrolled up to the first object met again.
--   * src/headers.ts is Headers, src/retry-topics.ts is Topics, src/commit.ts is Commit,
--     src/partitioner.ts is Partitioner, the types of src/adapter.ts and src/topic-partition.ts are
--     Adapter, and the headers of a record that leaves (src/produce.ts) are Produce. A text is the
--     list of its UTF-16 units. `Date` and the decoding of bytes are a parameter, `Platform`, whose
--     laws a theorem that needs them names.
--   * src/consumer.ts is Consumer. Consumer/Routes is the routing table that `route` fills.
--     Consumer/World has the state of a consumer, what the outside answers (`Env`) and what a
--     delivery did, the log of effects. Consumer/Action is asynchronous code: an action passes the
--     world on, and wherever the source awaits, `await` lets the rest of the process run first, a
--     stop, its end, or a revocation, from Consumer/World/Elsewhere, as `Env` says. Consumer/Forward
--     is `forwardFailed`, `produceHop`, `commit` and `crash`, Consumer/Decode is `toMessage`,
--     Consumer/Handle is the handler with the breaker's hold, Consumer/Process is `process`,
--     `receive` and `park`, Consumer/Batch is `collect`, `runBatch` and `handleBatch`, and
--     Consumer/Lag is `lag`.
--     Consumer/Life is the consumer as a whole, as a state machine like that of the harbor: `start`,
--     `join`, `leave`, `stop`, `stopFromPipeline` and `doStop`, cut at their waits, with
--     Consumer/Life/Groups for `consumptions` and the handles, Consumer/Life/Derived for
--     `prepareTopics`, and Consumer/Life/Step for the turns that may follow one another.
--   * src/harbor.ts is Harbor: what a call does up to its first wait, and what an answer or a timer
--     does then, is one function each. Harbor/Step has the steps that may follow one another, the
--     turns of the application and of the client and the wakes of a shutdown, Harbor/Diagram the
--     public states, and Harbor/Lag the lag of all consumers.
--   * src/adapters/platformatic/index.ts is Platformatic: `Consumption`, the gate in front of
--     `eachMessage`, is Platformatic/Gate, with Platformatic/Gate/Stream for the pump's streams, a
--     rejoin of the group and the stop, and Platformatic/Gate/Step for its turns. `room` and the
--     promise that it waits for are where the pump stands, `Pump`. Platformatic/Assigner is
--     `partitionAssignerBySubscription`.
--   * src/duration.ts is Duration, over what `Number` and `Math.round` make of a number, a parameter.
--   * src/producer.ts is Producer. Settled has `Promise.all`: promises with what they came to and when.
--   * src/transaction.ts is Runner: `execute` over a client whose state is a parameter, `Client`, which
--     Runner/Memory fills with the transactions of the broker in memory; Runner/Queue is `run`, the
--     promises by which the transactions take their turns. The work of a send takes its turn with its call.
--   * src/redrive.ts is Redrive, on the actions of the consumer, and `wrapped` and `observe` of
--     src/instrumentation.ts are Instrumentation.
--   * src/testing/index.ts, the broker in memory, is Testing, with Testing/Transaction for its
--     transactions and Testing/Member for what a consumption does to its group.
--   * Prelude has shared names and lemmas, Result the calls that may throw, and Examples runs on
--     concrete values.
--
-- How a delivery is proved: Consumer/Action/Logs has one rule for each way to build an action, for
-- facts of the log, and Consumer/Action/Steps one for the questions asked. A component's lemmas
-- apply the rules along its code; the code that runs in between may be any. A batch is followed
-- message by message, each open, failed or accounted for (Consumer/Batch/Slots).
--
-- Bounds: the loop of `guarded` reads at most `hold_rounds` answers of the breaker, and comes back
-- undecided when they run out; Consumer/Handle/Hold says how many are enough for a clock that moves at
-- every question. `dispatch` of the gate has fuel for one round for each message queued and
-- each partition in line, and is shown to end with nothing left to hand out. All other loops are over
-- lists.
--
-- Not modelled: the Confluent adapter and the rest of the Platformatic one, and the frameworks'
-- integrations, which are glue to other packages; timers, which only choose the moment of what is
-- modelled; the logger; the serializers, whose answers are a parameter; the idle detection of a
-- redrive; the checks of a harbor's configuration and of counts. The text of an error that ends the
-- consumer or a call is abbreviated in places, one that a header carries is not.
pub mod Prelude
pub mod Errors
pub mod Headers
pub mod Result
pub mod Topics
pub mod Adapter
pub mod Commit
pub mod Produce
pub mod Consumer
pub mod Partitioner
pub mod Testing
pub mod Harbor
pub mod Settled
pub mod Producer
pub mod Runner
pub mod Platformatic
pub mod Duration
pub mod Redrive
pub mod Instrumentation
pub mod Examples

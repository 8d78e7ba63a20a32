-- ===== src/Examples/Sends.antt =====
-- A send, and transactions on the broker in memory.
use kafka_harbor.Prelude.{refl, Bool, true, false, none, some, [], ◌∷◌, codes}
use kafka_harbor.Errors.{undefined, primitive}
use kafka_harbor.Result.{ok}
use kafka_harbor.Producer.{text, missing, Given, message, Sender, Answers}
use kafka_harbor.Producer.{send_batch}
use kafka_harbor.Producer.Records.{SendReported, send_batch-Reported}
use kafka_harbor.Testing.{Options}
use kafka_harbor.Testing.Transaction.{new_transaction}
use kafka_harbor.Testing.Transaction.Whole.{AfterEnd}
use kafka_harbor.Runner.{Attempt, Session, run_calls, execute}
use kafka_harbor.Runner.Ends.{Ended, execute-Ended}
use kafka_harbor.Runner.Memory.{Store, memory_client, execute-AfterEnd, fresh, acked, sent_along}
use kafka_harbor.Runner.Queue.{Queue, new_queue, Reach, start, later, runs, starts}
use kafka_harbor.Runner.Queue.{run, start_at}
use kafka_harbor.Runner.Queue.Turns.{InTurn, Refused, Reach-InTurn}
use kafka_harbor.Examples.{platform, names, hooks}

abbrev sender : Sender
sender = record {
  platform = platform;
  names = names;
  hooks = hooks;
  client_id = codes "shop";
  encode = λ t. t;
  now = 7;
  correlation_id = λ n. codes "id";
  serialize = λ n value topic. record { outcome = ok (value ∷ []); at = n };
}

abbrev hello : Given
hello =
    message (record { key = text (codes "k"); value = some 5; headers = missing; partition = none })

abbrev refusing : Answers
refusing = record {
  connected = none;
  produce = λ records. some (primitive (codes "down"));
  closed_reason = undefined;
}

send_batch-Reported_example :
    let (result, acts) = send_batch sender refusing (codes "orders") (some (hello ∷ [])) in
    SendReported sender refusing (codes "orders") (hello ∷ []) result acts
send_batch-Reported_example = send_batch-Reported sender refusing (codes "orders") (hello ∷ [])

abbrev options : Options
options = record { partitions = 2; auto_create_topics = true }

abbrev store : Store
store = (
  record {
    connected = true;
    transactional_id = some (codes "shop-1");
    transaction_open = true;
    next_produce_error = none;
    topics = [];
    groups = [];
  },
  new_transaction,
)

abbrev session : Session Store
session = record { client = store; acts = [] }

-- Two sends, one of them after the function ended; the offsets go along.
abbrev attempt : Attempt Bool
attempt = record {
  supported = true;
  connected = none;
  begun = none;
  calls =
      record {
        late = false;
        closed = false;
        topic = codes "orders";
        messages = some (hello ∷ []);
        at = 3;
      }
      ∷ record {
        late = true;
        closed = false;
        topic = codes "orders";
        messages = some (hello ∷ []);
        at = 4;
      }
      ∷ [];
  result = ok true;
  closed = false;
  with_offsets = true;
}

execute-AfterEnd_example :
    let client = memory_client options (λ n. n) (some (codes "billing")) [] in
    let (sends, after) = run_calls client sender attempt.calls (fresh store.0) in
    let (result, last) = execute client sender attempt (fresh store.0) in
    AfterEnd options
      (λ n. n)
      (acked after.acts)
      (sent_along attempt.with_offsets (some (codes "billing")) [])
      store.0
      result
      last.client.0
execute-AfterEnd_example =
    execute-AfterEnd options (λ n. n) (some (codes "billing")) [] sender attempt store.0

execute-Ended_example :
    let client = memory_client options (λ n. n) (some (codes "billing")) [] in
    let (sends, sent) = run_calls client sender attempt.calls session in
    let (result, last) = execute client sender attempt session in
    Ended attempt sent.acts sends result last.acts
execute-Ended_example =
    execute-Ended (memory_client options (λ n. n) (some (codes "billing")) []) sender attempt
      session refl refl refl

-- Two calls, the first of which runs.
unfoldable queue : Queue
unfolding run start_at
queue = record (run false (run false new_queue).1).1 {
  calls = start_at 0 true (run false (run false new_queue).1).1.calls;
}

queue-Reach : Reach queue
unfolding queue
queue-Reach = later (later (later start (runs false)) (runs false)) (starts 0)

Reach-InTurn_example : InTurn queue.calls × Refused queue.closed queue.calls
Reach-InTurn_example = Reach-InTurn queue-Reach

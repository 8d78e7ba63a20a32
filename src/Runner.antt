-- ===== src/Runner.antt =====
-- `execute` of src/transaction.ts: one transaction on the client, what its function sent, and its end.
pub mod Ends
pub mod Memory
pub mod Queue
use kafka_harbor.Prelude.{
  ℕ, suc, ◌+◌, Bool, true, false, ◌||◌, Option, none, some, List, [], ◌∷◌, ◌++◌, map, Text, codes,
  length, if◌then◌else◌,
}
use kafka_harbor.Errors.{Thrown, closed_error, config_error, is_fenced_error}
use kafka_harbor.Result.{Result, ok, err}
use kafka_harbor.Settled.{Settled, promise_all}
use kafka_harbor.Adapter.{RawRecord}
use kafka_harbor.Produce.{outgoing}
use kafka_harbor.Producer.{Sender, Given, to_records}

-- `TransactionHandle` of a client whose state is `S`: the answer of each call and the state after it.
-- The offsets are those of the handler's message.
pub record Client (S : Type 0) : Type 0 where
  pub produce : List RawRecord → S → Option Thrown × S
  pub send_offsets : S → Option Thrown × S
  pub commit : S → Option Thrown × S
  pub abort : S → Option Thrown × S

pub data Outcome : Type 0 where
  committed aborted : Outcome

-- What a transaction asked of the client, with its answer, and the event that it emitted.
pub data Act : Type 0 where
  produced : List RawRecord → Option Thrown → Act
  offsets_sent commit_called abort_called : Option Thrown → Act
  completed : Outcome → ℕ → Option Thrown → Act

-- The client and what was asked of it, the latest first.
pub record Session (S : Type 0) : Type 0 where
  pub client : S
  pub acts : List Act

-- A call of `tx.sendBatch`: whether the function had ended, whether the harbor had stopped producing,
-- and when its work settles.
pub record Call : Type 0 where
  pub late : Bool
  pub closed : Bool
  pub topic : Text
  pub messages : Option (List Given)
  pub at : ℕ

-- A call of `transaction`: what the outside answers before the client opens one, the calls of the
-- function and what it came to, whether the harbor stopped producing meanwhile, and whether offsets
-- are committed along.
pub record Attempt (A : Type 0) : Type 0 where
  pub supported : Bool
  pub connected : Option Thrown
  pub begun : Option Thrown
  pub calls : List Call
  pub result : Result A
  pub closed : Bool
  pub with_offsets : Bool

-- `isFencedError(entry.reason)` of a send that failed
fence_of : Result ℕ → Option Thrown → Option Thrown
fence_of (ok records) rest = rest
fence_of (err thrown) rest = if is_fenced_error thrown then some thrown else rest

unfoldable pub first_fence : List (Settled ℕ) → Option Thrown
unfolding fence_of
first_fence [] = none
first_fence (p ∷ sends) = fence_of p.outcome (first_fence sends)

-- The error that the caller gets: a send that was fenced says more than what came after.
unfoldable pub error_of : Thrown → Option Thrown → Thrown
error_of thrown none = thrown
error_of thrown (some fence) = if is_fenced_error thrown then thrown else fence

add_records : Result ℕ → ℕ → ℕ
add_records (ok n) rest = n + rest
add_records (err thrown) rest = rest

-- `records`, once every send settled.
unfoldable pub records_of : List (Settled ℕ) → ℕ
unfolding add_records
records_of [] = 0
records_of (p ∷ sends) = add_records p.outcome (records_of sends)

produce_answer : ℕ → Option Thrown → Result ℕ
produce_answer n none = ok n
produce_answer n (some thrown) = err thrown

module _ {S : Type 0} where
  note : Act → S → Session S → Session S
  note act client session = record { client = client; acts = act ∷ session.acts }

  module _ (client : Client S) (s : Sender) where
    produce_on : List RawRecord → Session S → Result ℕ × Session S
    unfolding note produce_answer
    produce_on records session =
        let (answer, after) = client.produce records session.client in
        (produce_answer (length records) answer, note (produced records answer) after session)

    -- The work of a send: nothing to send is done at once.
    work : Result (List RawRecord) → Session S → Result ℕ × Session S
    unfolding produce_on
    work (err thrown) session = (err thrown, session)
    work (ok []) session = (ok 0, session)
    work (ok (r ∷ records)) session =
        produce_on (map (outgoing s.hooks s.names false) (r ∷ records)) session

    -- `sendBatch`: a call that is refused begins no work.
    unfoldable pub send_batch : Call → Session S → List (Settled ℕ) × Session S
    unfolding work
    send_batch call session =
        let (outcome, after) = work (to_records s call.topic call.messages) session in
        if call.late || call.closed
        then ([], session)
        else (record { outcome = outcome; at = call.at } ∷ [], after)

    -- The sends that a transaction waits for.
    unfoldable pub run_calls : List Call → Session S → List (Settled ℕ) × Session S
    unfolding send_batch
    run_calls [] session = ([], session)
    run_calls (call ∷ calls) session =
        let (sends, next) = send_batch call session in
        let (rest, last) = run_calls calls next in (sends ++ rest, last)

    commit_on : Session S → Option Thrown × Session S
    unfolding note
    commit_on session =
        let (answer, after) = client.commit session.client in
        (answer, note (commit_called answer) after session)

    offsets_then_commit : Option Thrown × Session S → Option Thrown × Session S
    unfolding commit_on
    offsets_then_commit (some thrown, session) = (some thrown, session)
    offsets_then_commit (none, session) = commit_on session

    send_offsets_on : Session S → Option Thrown × Session S
    unfolding note
    send_offsets_on session =
        let (answer, after) = client.send_offsets session.client in
        (answer, note (offsets_sent answer) after session)

    -- The end of a function that resolved, once its sends did.
    finish : Bool → Bool → Session S → Option Thrown × Session S
    unfolding offsets_then_commit send_offsets_on
    finish true with_offsets session = (some (closed_error 0 (codes "harbor")), session)
    finish false true session = offsets_then_commit (send_offsets_on session)
    finish false false session = offsets_then_commit (none, session)

    finish_sends : Bool → Bool → Result (List ℕ) → Session S → Option Thrown × Session S
    unfolding finish
    finish_sends closed with_offsets (err thrown) session = (some thrown, session)
    finish_sends closed with_offsets (ok counts) session = finish closed with_offsets session

    -- The abort is best effort: what it answers changes nothing.
    abort_on : Thrown → ℕ → Session S → Session S
    unfolding note
    abort_on thrown records session =
        let (answer, after) = client.abort session.client in
        record {
          client = after;
          acts = completed aborted records (some thrown) ∷ abort_called answer ∷ session.acts;
        }

    caught : {A : Type 0} → List (Settled ℕ) → Thrown → Session S → Result A × Session S
    unfolding abort_on
    caught sends thrown session =
        let error = error_of thrown (first_fence sends) in
        (err error, abort_on error (records_of sends) session)

    concluded :
        {A : Type 0} → A → List (Settled ℕ) → Option Thrown × Session S → Result A × Session S
    unfolding caught note
    concluded a sends (some thrown, session) = caught sends thrown session
    concluded a sends (none, session) =
        (ok a, note (completed committed (records_of sends) none) session.client session)

    conclude :
        {A : Type 0} → Attempt A → Result A → List (Settled ℕ) → Session S → Result A × Session S
    unfolding concluded finish_sends caught
    conclude t (err thrown) sends session = caught sends thrown session
    conclude t (ok a) sends session =
        concluded a sends (finish_sends t.closed t.with_offsets (promise_all sends) session)

    begin_on : {A : Type 0} → Attempt A → Option Thrown → Session S → Result A × Session S
    unfolding conclude note
    begin_on t (some thrown) session =
        (err thrown, note (completed aborted 0 (some thrown)) session.client session)
    begin_on t none session =
        let (sends, last) = run_calls t.calls session in conclude t t.result sends last

    connect_on : {A : Type 0} → Attempt A → Option Thrown → Session S → Result A × Session S
    unfolding begin_on
    connect_on t (some thrown) session = (err thrown, session)
    connect_on t none session = begin_on t t.begun session

    support : {A : Type 0} → Attempt A → Bool → Session S → Result A × Session S
    unfolding connect_on
    support t false session = (err (config_error 0 (codes "adapter has no transactions")), session)
    support t true session = connect_on t t.connected session

    -- `execute`
    unfoldable pub execute : {A : Type 0} → Attempt A → Session S → Result A × Session S
    unfolding support
    execute t session = support t t.supported session

-- ===== src/Producer.antt =====
-- src/producer.ts: what an outgoing message has to be, the records that a batch becomes, and a send.
pub mod Records
use kafka_harbor.Prelude.{
  ℕ, suc, Bool, true, false, not, ◌||◌, Option, none, some, List, [], ◌∷◌, ◌++◌, map, Text, codes,
  Dict, length, text_eq, ◌==◌, if◌then◌else◌,
}
use kafka_harbor.Errors.{Thrown, object, primitive, undefined, null_thrown, config_error}
use kafka_harbor.Result.{Result, ok, err, ◌>>=◌, ◌>>◌, refuse_if}
use kafka_harbor.Settled.{Settled, promise_all}
use kafka_harbor.Headers.{Platform, HeaderNames, MessageHeaders, stamp_producer}
use kafka_harbor.Adapter.{RawRecord}
use kafka_harbor.Produce.{Kind, Hooks, outgoing}

-- A JavaScript value, as far as the checks tell values apart; `other` has what `typeof` says of it.
pub data Value : Type 0 where
  absent null array : Value
  text : Text → Value
  buffer : List ℕ → Value
  other : Text → Value

-- `headers` of a message: its entries, if it is an object and no array.
pub data GivenHeaders : Type 0 where
  missing : GivenHeaders
  not_headers : Value → GivenHeaders
  entries : Dict Value → GivenHeaders

-- `OutgoingMessage`; what the serializer encodes is known by a number, and `none` is a tombstone.
pub record OutgoingMessage : Type 0 where
  pub key : Value
  pub value : Option ℕ
  pub headers : GivenHeaders
  pub partition : Option ℕ

-- What a caller passes for a message: one, or a value that is no object.
pub data Given : Type 0 where
  not_message : Value → Given
  message : OutgoingMessage → Given

-- `describeType`
unfoldable pub describe_type : Value → Text
describe_type absent = codes "undefined"
describe_type null = codes "null"
describe_type array = codes "array"
describe_type (text s) = codes "string"
describe_type (buffer b) = codes "object"
describe_type (other name) = name

-- `the … of a message for topic "…" must be …; got …`
unsendable : Text → Text → Text → Value → Thrown
unfolding describe_type
unsendable what topic must value = config_error 0 (
    what
    ++ (codes " for topic \""
        ++ (topic ++ (codes "\" must be " ++ (must ++ (codes "; got " ++ describe_type value))))))

assert_key : Text → Value → Result (Unit {0})
unfolding unsendable
assert_key topic absent = ok tt
assert_key topic null = ok tt
assert_key topic (text s) = ok tt
assert_key topic (buffer b) = ok tt
assert_key topic array =
    err (unsendable (codes "the key of a message") topic (codes "a string or a Buffer") array)
assert_key topic (other name) =
    err
      (unsendable (codes "the key of a message") topic (codes "a string or a Buffer") (other name))

assert_header : Text → Text → Value → Result (Unit {0})
unfolding describe_type
assert_header topic name (text s) = ok tt
assert_header topic name value = err (
    config_error 0 (
      codes "header \""
      ++ (name
          ++ (codes "\" of a message for topic \""
              ++ (topic ++ (codes "\" must be a string; got " ++ describe_type value))))))

assert_entries : Text → Dict Value → Result (Unit {0})
unfolding assert_header
assert_entries topic [] = ok tt
assert_entries topic ((name, value) ∷ headers) =
    assert_header topic name value >> assert_entries topic headers

assert_headers : Text → GivenHeaders → Result (Unit {0})
unfolding assert_entries unsendable
assert_headers topic missing = ok tt
assert_headers topic (not_headers value) =
    err (unsendable (codes "the headers of a message") topic (codes "an object of strings") value)
assert_headers topic (entries headers) = assert_entries topic headers

-- `assertSendable`
unfoldable pub assert_sendable : Text → Given → Result (Unit {0})
unfolding assert_key assert_headers unsendable
assert_sendable topic (not_message value) =
    err (unsendable (codes "a message") topic (codes "an object") value)
assert_sendable topic (message m) = assert_key topic m.key >> assert_headers topic m.headers

unfoldable pub assert_all : Text → List Given → Result (Unit {0})
unfolding assert_sendable
assert_all topic [] = ok tt
assert_all topic (m ∷ messages) = assert_sendable topic m >> assert_all topic messages

-- What a producer is built with, and what the platform and the serializer answer for each message of
-- a batch: the n-th value's bytes, or what the serializer threw, and when it settled.
pub record Sender : Type 0 where
  pub platform : Platform
  pub names : HeaderNames
  pub hooks : Hooks
  pub client_id : Text
  pub encode : Text → List ℕ
  pub now : ℕ
  pub correlation_id : ℕ → Text
  pub serialize : ℕ → ℕ → Text → Settled (List ℕ)

-- The texts among the entries: all of them, once they are checked.
unfoldable pub header_texts : Dict Value → MessageHeaders
header_texts [] = []
header_texts ((name, text value) ∷ headers) = (name, value) ∷ header_texts headers
header_texts ((name, value) ∷ headers) = header_texts headers

unfoldable pub given_headers : GivenHeaders → MessageHeaders
unfolding header_texts
given_headers missing = []
given_headers (not_headers value) = []
given_headers (entries headers) = header_texts headers

module _ (s : Sender) (topic : Text) where
  key_bytes : Value → Option (List ℕ)
  key_bytes (text key) = some (s.encode key)
  key_bytes (buffer bytes) = some bytes
  key_bytes _ = none

  -- The record of the n-th message, with its value's bytes.
  unfoldable pub record_of : ℕ → OutgoingMessage → Option (List ℕ) → RawRecord
  unfolding key_bytes given_headers
  record_of n m value = record {
    topic = topic;
    key = key_bytes m.key;
    value = value;
    headers =
        stamp_producer s.platform (given_headers m.headers) s.names s.client_id s.now
          (s.correlation_id n);
    partition = m.partition;
  }

  serialized : ℕ → OutgoingMessage → Result (List ℕ) → Result RawRecord
  unfolding record_of
  serialized n m (ok bytes) = ok (record_of n m (some bytes))
  serialized n m (err thrown) = err thrown

  record_later : ℕ → OutgoingMessage → Option ℕ → Settled RawRecord
  unfolding record_of serialized
  record_later n m none = record { outcome = ok (record_of n m none); at = 0 }
  record_later n m (some value) =
      let bytes = s.serialize n value topic in
      record { outcome = serialized n m bytes.outcome; at = bytes.at }

  records_from : ℕ → List Given → List (Settled RawRecord)
  unfolding record_later
  records_from n [] = []
  records_from n (not_message value ∷ messages) = records_from (suc n) messages
  records_from n (message m ∷ messages) = record_later n m m.value ∷ records_from (suc n) messages

  is_empty : Text → Bool
  is_empty [] = true
  is_empty (c ∷ t) = false

  -- `toRecords`, with no list for messages that are no array
  unfoldable pub to_records : Option (List Given) → Result (List RawRecord)
  unfolding assert_all records_from is_empty
  to_records none =
      refuse_if (is_empty topic) (codes "topic must be a non-empty string; got \"\"")
      >> err
          (config_error 0 (codes "messages for topic \"" ++ (topic ++ codes "\" must be an array")))
  to_records (some messages) =
      refuse_if (is_empty topic) (codes "topic must be a non-empty string; got \"\"")
      >> (assert_all topic messages >> promise_all (records_from 0 messages))

-- What a send does: the client's produce, with its retries, and the events.
pub data Act : Type 0 where
  sent : List RawRecord → Act
  batch_produced : Kind → Text → ℕ → Act
  error_emitted : Thrown → Text → Act

-- `error === context.closed.reason`: the reason is undefined while the harbor produces.
unfoldable pub is_reason : Thrown → Thrown → Bool
is_reason undefined undefined = true
is_reason null_thrown null_thrown = true
is_reason (primitive s) (primitive t) = text_eq s t
is_reason (object f cause) (object g cause') = f.identity == g.identity
is_reason _ _ = false

-- What the outside answers to a send: the connection, and the client's produce after the retries.
pub record Answers : Type 0 where
  pub connected : Option Thrown
  pub produce : List RawRecord → Option Thrown
  pub closed_reason : Thrown

module _ (s : Sender) (a : Answers) (topic : Text) where
  settle_send : List RawRecord → Option Thrown → Result (Unit {0}) × List Act
  unfolding is_reason
  settle_send records none =
      (ok tt, sent records ∷ batch_produced Kind.send topic (length records) ∷ [])
  settle_send records (some thrown) = (
    err thrown,
    sent records
        ∷ (if is_reason a.closed_reason thrown then [] else error_emitted thrown topic ∷ []),
  )

  produce_connected : List RawRecord → Option Thrown → Result (Unit {0}) × List Act
  unfolding settle_send
  produce_connected records (some thrown) = (err thrown, [])
  produce_connected records none =
      let leaving = map (outgoing s.hooks s.names false) records in
      settle_send leaving (a.produce leaving)

  produce_records : Result (List RawRecord) → Result (Unit {0}) × List Act
  unfolding produce_connected
  produce_records (err thrown) = (err thrown, [])
  produce_records (ok []) = (ok tt, [])
  produce_records (ok (r ∷ records)) = produce_connected (r ∷ records) a.connected

  -- `produce` of a producer, which `sendBatch` tracks
  unfoldable pub send_batch : Option (List Given) → Result (Unit {0}) × List Act
  unfolding produce_records
  send_batch messages = produce_records (to_records s topic messages)

-- ===== src/Producer/Records.antt =====
-- What reaches the client of a batch that src/producer.ts sends: one record for each message, or none.
use kafka_harbor.Prelude.{
  ℕ, suc, ◌≡◌, refl, false, Option, none, some, List, [], ◌∷◌, map, Text, Dict, lookup,
  lookup-insert, text_eq, length, arith, ◌⊎◌, inl, inr, if◌then◌else◌, subst, text_eq_refl, sym, ap,
}
use kafka_harbor.Errors.{Thrown}
use kafka_harbor.Result.{Result, ok, err, >>-ok, ok-injective}
use kafka_harbor.Settled.{Fulfilled, none_left, fulfils, promise_all-Fulfilled}
use kafka_harbor.Headers.{stamp_producer}
use kafka_harbor.Adapter.{RawRecord}
use kafka_harbor.Produce.{Kind, outgoing}
use kafka_harbor.Producer.{
  Value, absent, null, array, text, buffer, other, GivenHeaders, missing, not_headers, entries,
  OutgoingMessage, Given, not_message, message, Sender, Answers, Act, sent, batch_produced,
  error_emitted, to_records, send_batch, given_headers, is_reason, assert_header, assert_all,
  assert_entries, assert_sendable, record_later, assert_headers, assert_key, serialized, record_of,
  records_from, refuse_if, key_bytes, is_empty, produce_records, settle_send, produce_connected,
}

abbrev pub IsKey : Value → Type 0
IsKey absent = Unit
IsKey null = Unit
IsKey (text s) = Unit
IsKey (buffer b) = Unit
IsKey array = ⊥
IsKey (other name) = ⊥

abbrev pub IsText : Value → Type 0
IsText (text s) = Unit
IsText absent = ⊥
IsText null = ⊥
IsText array = ⊥
IsText (buffer b) = ⊥
IsText (other name) = ⊥

abbrev pub AreTexts : Dict Value → Type 0
AreTexts [] = Unit
AreTexts ((name, value) ∷ headers) = IsText value × AreTexts headers

abbrev pub AreHeaders : GivenHeaders → Type 0
AreHeaders missing = Unit
AreHeaders (not_headers value) = ⊥
AreHeaders (entries headers) = AreTexts headers

abbrev pub IsValue : Sender → Text → ℕ → Option ℕ → Option (List ℕ) → Type 0
IsValue s topic n none bytes = bytes ≡ none
IsValue s topic n (some value) none = ⊥
IsValue s topic n (some value) (some bytes) = (s.serialize n value topic).outcome ≡ ok bytes

abbrev pub IsKeyOf : Sender → Value → Option (List ℕ) → Type 0
IsKeyOf s absent key = key ≡ none
IsKeyOf s null key = key ≡ none
IsKeyOf s (text t) key = key ≡ some (s.encode t)
IsKeyOf s (buffer bytes) key = key ≡ some bytes
IsKeyOf s array key = ⊥
IsKeyOf s (other name) key = ⊥

-- The record of the n-th message of a batch: its own key, value and partition, its headers with the
-- producer's, and the name of the client among them.
pub record IsRecord (s : Sender) (topic : Text) (n : ℕ) (m : OutgoingMessage) (r : RawRecord)
    : Type 0 where
  pub sendable : AreHeaders m.headers
  pub to_topic : r.topic ≡ topic
  pub same_partition : r.partition ≡ m.partition
  pub same_key : IsKeyOf s m.key r.key
  pub encoded : IsValue s topic n m.value r.value
  pub signed : lookup s.names.producer r.headers ≡ some s.client_id
  pub kept :
      (name : Text)
      → text_eq s.names.producer name ≡ false
      → text_eq s.names.produced_at name ≡ false
      → text_eq s.names.correlation_id name ≡ false
      → lookup name r.headers ≡ lookup name (given_headers m.headers)

-- One record for each message of a batch, in their order.
pub data Becomes (s : Sender) (topic : Text) : ℕ → List Given → List RawRecord → Type 0 where
  no_more : {n : ℕ} → Becomes s topic n [] []
  becomes :
      {n : ℕ} {m : OutgoingMessage} {r : RawRecord} {messages : List Given}
      {records : List RawRecord}
      → IsRecord s topic n m r
      → Becomes s topic (suc n) messages records
      → Becomes s topic n (message m ∷ messages) (r ∷ records)

-- What the checks accept.
assert_header-IsText :
    (topic name : Text) (value : Value) → assert_header topic name value ≡ ok tt → IsText value
unfolding assert_header
assert_header-IsText topic name value e = ground arith

assert_entries-AreTexts :
    (topic : Text) (headers : Dict Value) → assert_entries topic headers ≡ ok tt → AreTexts headers
unfolding assert_entries
assert_entries-AreTexts topic [] e = tt
assert_entries-AreTexts topic ((name, value) ∷ headers) e =
    let (h, hs) = >>-ok (assert_header topic name value) (assert_entries topic headers) tt e in
    (assert_header-IsText topic name value h, assert_entries-AreTexts topic headers hs)

assert_headers-AreHeaders :
    (topic : Text) (headers : GivenHeaders)
    → assert_headers topic headers ≡ ok tt
    → AreHeaders headers
unfolding assert_headers
assert_headers-AreHeaders topic missing e = tt
assert_headers-AreHeaders topic (not_headers value) e = ground arith
assert_headers-AreHeaders topic (entries headers) e = assert_entries-AreTexts topic headers e

module _ (s : Sender) (topic : Text) where
  key_bytes-IsKeyOf :
      (key : Value) → assert_key topic key ≡ ok tt → IsKeyOf s key (key_bytes s topic key)
  unfolding assert_key key_bytes
  key_bytes-IsKeyOf absent e = refl
  key_bytes-IsKeyOf null e = refl
  key_bytes-IsKeyOf (text t) e = refl
  key_bytes-IsKeyOf (buffer bytes) e = refl
  key_bytes-IsKeyOf array e = ground arith
  key_bytes-IsKeyOf (other name) e = ground arith

  record_of-IsRecord :
      (n : ℕ) (m : OutgoingMessage) (value : Option (List ℕ))
      → assert_sendable topic (message m) ≡ ok tt
      → IsValue s topic n m.value value
      → IsRecord s topic n m (record_of s topic n m value)
  unfolding assert_sendable record_of stamp_producer
  record_of-IsRecord n m value e v =
      let (k, h) = >>-ok (assert_key topic m.key) (assert_headers topic m.headers) tt e in
      record {
        sendable = assert_headers-AreHeaders topic m.headers h;
        to_topic = refl;
        same_partition = refl;
        same_key = key_bytes-IsKeyOf m.key k;
        encoded = v;
        signed = grind (arith, lookup-insert, text_eq_refl);
        kept = λ name p q r. grind (arith, lookup-insert);
      }

  serialized-IsRecord :
      (n : ℕ) (m : OutgoingMessage) (value : ℕ) (r : RawRecord) (answer : Result (List ℕ))
      → assert_sendable topic (message m) ≡ ok tt
      → m.value ≡ some value
      → (s.serialize n value topic).outcome ≡ answer
      → serialized s topic n m answer ≡ ok r
      → IsRecord s topic n m r
  unfolding serialized
  serialized-IsRecord n m value r (ok bytes) e v q f =
      subst (IsRecord s topic n m) (ok-injective _ _ f) (
        record_of-IsRecord n m (some bytes) e
          (subst (λ o. IsValue s topic n o (some bytes)) (sym v) q))
  serialized-IsRecord n m value r (err thrown) e v q f = ground arith

  record_later-IsRecord :
      (n : ℕ) (m : OutgoingMessage) (r : RawRecord) (value : Option ℕ)
      → assert_sendable topic (message m) ≡ ok tt
      → m.value ≡ value
      → (record_later s topic n m value).outcome ≡ ok r
      → IsRecord s topic n m r
  unfolding record_later
  record_later-IsRecord n m r none e v f =
      subst (IsRecord s topic n m) (ok-injective _ _ f)
        (record_of-IsRecord n m none e (subst (λ o. IsValue s topic n o none) (sym v) refl))
  record_later-IsRecord n m r (some value) e v f = serialized-IsRecord n m value r _ e v refl f

  records-Becomes :
      (n : ℕ) (messages : List Given) (records : List RawRecord)
      → assert_all topic messages ≡ ok tt
      → Fulfilled (records_from s topic n messages) records
      → Becomes s topic n messages records
  unfolding assert_all records_from assert_sendable
  records-Becomes n [] _ e none_left = no_more
  records-Becomes n (not_message value ∷ messages) records e f = ground arith
  records-Becomes n (message m ∷ messages) _ e (fulfils {a} {vs} q f) =
      let (h, hs) = >>-ok (assert_sendable topic (message m)) (assert_all topic messages) tt e in
      becomes (record_later-IsRecord n m a m.value h refl q)
        (records-Becomes (suc n) messages vs hs f)

  to_records-Becomes :
      (messages : List Given) (records : List RawRecord)
      → to_records s topic (some messages) ≡ ok records
      → Becomes s topic 0 messages records
  unfolding to_records
  to_records-Becomes messages records e =
      let (t, rest) = >>-ok (refuse_if (is_empty s topic topic) _) _ records e in
      let (h, p) = >>-ok (assert_all topic messages) _ records rest in
      records-Becomes 0 messages records h (promise_all-Fulfilled _ records p)

-- The batch as it leaves, with the headers of the instrumentation.
abbrev pub leaving : Sender → List RawRecord → List RawRecord
leaving s records = map (outgoing s.hooks s.names false) records

-- One produced batch of a number of messages, unless there is nothing to send.
abbrev pub sent_whole : Sender → Text → ℕ → List RawRecord → List Act
sent_whole s topic size [] = []
sent_whole s topic size (r ∷ rest) =
    sent (leaving s (r ∷ rest)) ∷ batch_produced Kind.send topic size ∷ []

-- What a send did, by what it answered.
abbrev pub SendReported :
    Sender → Answers → Text → List Given → Result (Unit {0}) → List Act → Type 0
SendReported s a topic messages (ok done) acts =
    (records : List RawRecord) × Becomes s topic 0 messages records
    × (acts ≡ sent_whole s topic (length messages) records)
SendReported s a topic messages (err thrown) acts =
    (acts ≡ [])
    ⊎ ((records : List RawRecord) × Becomes s topic 0 messages records
        × (a.produce (leaving s records) ≡ some thrown)
        × (acts
            ≡ sent (leaving s records)
              ∷ (if is_reason a.closed_reason thrown then [] else error_emitted thrown topic ∷ [])))

length-Becomes :
    (s : Sender) (topic : Text) (n : ℕ) (messages : List Given) (records : List RawRecord)
    → Becomes s topic n messages records
    → length (leaving s records) ≡ length messages
length-Becomes s topic n [] _ no_more = refl
length-Becomes s topic n (not_message value ∷ messages) _ b = elim b [ ]
length-Becomes s topic n (message m ∷ messages) _ (becomes {records} r b) =
    ap suc (length-Becomes s topic (suc n) messages records b)

module _ (s : Sender) (a : Answers) (topic : Text) (messages : List Given) where
  settle_send-Reported :
      (r : RawRecord) (rest : List RawRecord) (answer : Option Thrown)
      → Becomes s topic 0 messages (r ∷ rest)
      → a.produce (leaving s (r ∷ rest)) ≡ answer
      → let (result, acts) = settle_send s a topic (leaving s (r ∷ rest)) answer in
        SendReported s a topic messages result acts
  unfolding settle_send
  settle_send-Reported r rest none b e = (
    r ∷ rest,
    b,
    ap (λ n. sent (leaving s (r ∷ rest)) ∷ batch_produced Kind.send topic n ∷ [])
        (length-Becomes s topic 0 messages (r ∷ rest) b),
  )
  settle_send-Reported r rest (some thrown) b e = inr (r ∷ rest, b, e, refl)

  produce_connected-Reported :
      (r : RawRecord) (rest : List RawRecord) (connected : Option Thrown)
      → Becomes s topic 0 messages (r ∷ rest)
      → let (result, acts) = produce_connected s a topic (r ∷ rest) connected in
        SendReported s a topic messages result acts
  unfolding produce_connected
  produce_connected-Reported r rest none b = settle_send-Reported r rest _ b refl
  produce_connected-Reported r rest (some thrown) b = inl refl

  produce_records-Reported :
      (records : Result (List RawRecord))
      → to_records s topic (some messages) ≡ records
      → let (result, acts) = produce_records s a topic records in
        SendReported s a topic messages result acts
  unfolding produce_records
  produce_records-Reported (err thrown) e = inl refl
  produce_records-Reported (ok []) e = ([], to_records-Becomes s topic messages [] e, refl)
  produce_records-Reported (ok (r ∷ rest)) e =
      produce_connected-Reported r rest a.connected
        (to_records-Becomes s topic messages (r ∷ rest) e)

  -- What a producer sends reaches the client as one record for each message, in their order, each with
  -- its own key, encoded value, partition and headers, or not at all; a send that resolves is reported
  -- as one produced batch; and a failure of the client, and no other, is reported as an error, unless
  -- it is the reason for which the harbor stopped producing.
  pub send_batch-Reported :
      let (result, acts) = send_batch s a topic (some messages) in
      SendReported s a topic messages result acts
  unfolding send_batch
  send_batch-Reported = produce_records-Reported _ refl

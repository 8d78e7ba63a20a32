-- ===== src/Runner/Memory.antt =====
-- The runner of src/transaction.ts on the broker in memory of src/testing/index.ts: a transaction
-- lands as a whole when it resolves.
use kafka_harbor.Prelude.{
  ◌++◌, ◌||◌, ℕ, refl, Bool, true, false, Option, none, some, List, [], ◌∷◌, ◌⊎◌, inl, inr, Text,
  Bool-cases, subst, ◌≡◌, ◌∙◌, arith, ap, sym,
}
use kafka_harbor.Errors.{Thrown}
use kafka_harbor.Result.{Result, ok, err}
use kafka_harbor.Settled.{Settled, promise_all}
use kafka_harbor.Adapter.{RawRecord, TopicPartitionOffset}
use kafka_harbor.Producer.{Sender, to_records}
use kafka_harbor.Testing.{Broker, Options}
use kafka_harbor.Testing.Transaction
use kafka_harbor.Testing.Transaction.{
  produce, commit_offsets, commit, send_offsets, abort, of_group, new_transaction,
}
use kafka_harbor.Testing.Transaction.Atomic.{
  Kept, Whole, Broken, with_records, with_offsets, produce-buffers, send_offsets-holds,
  produce_keeps, send_offsets_keeps, abort_keeps,
}
use kafka_harbor.Testing.Transaction.Whole.{
  AfterEnd, Kept-trans, commit-AfterEnd, Kept-AfterEnd, Broken-Kept,
}
use kafka_harbor.Runner.{
  send_batch, Client, Session, Act, produced, Call, Attempt, run_calls, execute, work, produce_on,
  note, support, finish, begin_on, conclude, offsets_then_commit, caught, commit_on, concluded,
  finish_sends, connect_on, send_offsets_on, abort_on,
}

-- The handle of a transaction of the broker in memory, and what it keeps.
abbrev pub Store : Type 0
Store = Broker × Transaction.Transaction

answer_of : Result (Unit {0}) → Option Thrown
answer_of (ok done) = none
answer_of (err thrown) = some thrown

called : Transaction.Call → Option Thrown × Store
unfolding answer_of
called (result, after) = (answer_of result, after)

-- `adapter.transaction()` of the broker in memory, with the group of the handler's consumption and
-- the offsets of its message.
unfoldable pub memory_client :
    Options → (ℕ → ℕ) → Option Text → List TopicPartitionOffset → Client Store
unfolding called
memory_client options now group sent = record {
  produce = λ records s. called (produce options records s.0 s.1);
  send_offsets = λ s. called (send_offsets group sent s.0 s.1);
  commit = λ s. called (commit options now s.0 s.1);
  abort = λ s. called (abort s.0 s.1);
}

-- The records that the client acknowledged, in the order in which they were sent.
unfoldable pub acked : List Act → List RawRecord
acked [] = []
acked (produced records none ∷ acts) = acked acts ++ records
acked (_ ∷ acts) = acked acts

-- The offsets that are committed along.
unfoldable pub sent_along :
    Bool → Option Text → List TopicPartitionOffset → List (Text × TopicPartitionOffset)
sent_along true (some id) sent = of_group id sent
sent_along true none sent = []
sent_along false group sent = []

-- A transaction that has just begun on a broker.
abbrev pub fresh : Broker → Session Store
fresh b = record { client = (b, new_transaction); acts = [] }

-- The transaction buffers what was acknowledged, and no offset yet.
record Holds (session : Session Store) : Type 0 where
  buffers : session.client.1.buffered ≡ acked session.acts
  no_offsets : session.client.1.offsets ≡ []

ok_if_none : (answer : Result (Unit {0})) → answer_of answer ≡ none → answer ≡ ok tt
unfolding answer_of
ok_if_none (ok tt) e = refl
ok_if_none (err thrown) e = ground arith

with_offsets-sent_along :
    (group : Option Text) (sent : List TopicPartitionOffset)
    → with_offsets (ok tt) group sent [] ≡ sent_along true group sent
unfolding with_offsets sent_along
with_offsets-sent_along none sent = refl
with_offsets-sent_along (some id) sent = refl

acked-answered :
    (answer : Result (Unit {0})) (records : List RawRecord) (acts : List Act)
    → acked (produced records (answer_of answer) ∷ acts) ≡ with_records answer records (acked acts)
unfolding acked answer_of with_records
acked-answered (ok u) records acts = refl
acked-answered (err thrown) records acts = refl

module _ (options : Options) (now : ℕ → ℕ) (group : Option Text) (sent : List TopicPartitionOffset)
    (s : Sender) where
  abbrev On : {B : Type 0} → (Client Store → B) → B
  On f = f (memory_client options now group sent)

  work_keeps :
      (records : Result (List RawRecord)) (session : Session Store)
      → Kept session.client.0 (On (λ c. work c s records session)).1.client.0
  unfolding work produce_on memory_client called note
  work_keeps (err thrown) session = (refl, refl)
  work_keeps (ok []) session = (refl, refl)
  work_keeps (ok (r ∷ records)) session =
      produce_keeps options now _ session.client.0 session.client.1

  send_batch_keeps :
      (call : Call) (session : Session Store)
      → Kept session.client.0 (On (λ c. send_batch c s call session)).1.client.0
  unfolding send_batch
  send_batch_keeps call session = elim (Bool-cases (call.late || call.closed)) [
    | inl e ↦ rw e (refl, refl)
    | inr e ↦ rw e (work_keeps (to_records s call.topic call.messages) session)
  ]

  run_calls_keeps :
      (calls : List Call) (session : Session Store)
      → Kept session.client.0 (On (λ c. run_calls c s calls session)).1.client.0
  unfolding run_calls
  run_calls_keeps [] session = (refl, refl)
  run_calls_keeps (call ∷ calls) session =
      let next = (On (λ c. send_batch c s call session)).1 in
      let last = (On (λ c. run_calls c s calls next)).1 in
      Kept-trans session.client.0 next.client.0 last.client.0 (send_batch_keeps call session)
        (run_calls_keeps calls next)

  send_offsets-along :
      (b : Broker) (t : Transaction.Transaction)
      → t.offsets ≡ []
      → (called (send_offsets group sent b t)).0 ≡ none
      → let after = (send_offsets group sent b t).1.1 in
        (after.buffered ≡ t.buffered) × (after.offsets ≡ sent_along true group sent)
  unfolding called
  send_offsets-along b t e done =
      let (buffers, holds) = send_offsets-holds options now group sent b t in
      (
        buffers,
        holds
            ∙ ap (λ a. with_offsets a group sent t.offsets) (ok_if_none _ done)
            ∙ ap (with_offsets (ok tt) group sent) e
            ∙ with_offsets-sent_along group sent,
      )

  produce_on-Holds :
      (records : List RawRecord) (session : Session Store)
      → Holds session
      → Holds (On (λ c. produce_on c s records session)).1
  unfolding produce_on memory_client called note
  produce_on-Holds records session h =
      let (b, t) = session.client in
      let (buffers, offsets) = produce-buffers options now records b t in
      let answer = (produce options records b t).0 in
      record {
        buffers =
            buffers
            ∙ ap (with_records answer records) h.buffers
            ∙ sym (acked-answered answer records session.acts);
        no_offsets = offsets ∙ h.no_offsets;
      }

  work-Holds :
      (records : Result (List RawRecord)) (session : Session Store)
      → Holds session
      → Holds (On (λ c. work c s records session)).1
  unfolding work
  work-Holds (err thrown) session h = h
  work-Holds (ok []) session h = h
  work-Holds (ok (r ∷ records)) session h = produce_on-Holds _ session h

  send_batch-Holds :
      (call : Call) (session : Session Store)
      → Holds session
      → Holds (On (λ c. send_batch c s call session)).1
  unfolding send_batch
  send_batch-Holds call session h = elim (Bool-cases (call.late || call.closed)) [
    | inl e ↦ rw e h
    | inr e ↦ rw e (work-Holds (to_records s call.topic call.messages) session h)
  ]

  run_calls-Holds :
      (calls : List Call) (session : Session Store)
      → Holds session
      → Holds (On (λ c. run_calls c s calls session)).1
  unfolding run_calls
  run_calls-Holds [] session h = h
  run_calls-Holds (call ∷ calls) session h =
      run_calls-Holds calls (On (λ c. send_batch c s call session)).1
        (send_batch-Holds call session h)

  -- What the end of a transaction left, by whether it failed.
  AfterFinish :
      List RawRecord → List (Text × TopicPartitionOffset) → Broker → Option Thrown → Broker → Type 0
  AfterFinish records offsets b none b' = Whole options now records offsets b b'
  AfterFinish records offsets b (some e) b' = Kept b b' ⊎ Broken options now records b b'

  answered-AfterFinish :
      (records : List RawRecord) (offsets : List (Text × TopicPartitionOffset)) (b b' : Broker)
      (answer : Result (Unit {0}))
      → AfterEnd options now records offsets b answer b'
      → AfterFinish records offsets b (answer_of answer) b'
  unfolding answer_of AfterFinish
  answered-AfterFinish records offsets b b' (ok done) h = h
  answered-AfterFinish records offsets b b' (err e) h = h

  Kept-AfterFinish :
      (records : List RawRecord) (offsets : List (Text × TopicPartitionOffset)) (b b1 b2 : Broker)
      (answer : Option Thrown)
      → Kept b b1
      → AfterFinish records offsets b1 answer b2
      → AfterFinish records offsets b answer b2
  unfolding AfterFinish
  Kept-AfterFinish records offsets b b1 b2 none kept h =
      Kept-AfterEnd options now records offsets b b1 b2 (ok tt) kept h
  Kept-AfterFinish records offsets b b1 b2 (some e) kept h =
      Kept-AfterEnd options now records offsets {A = Unit {0}} b b1 b2 (err e) kept h

  commit_on-AfterFinish :
      (session : Session Store)
      → let (end, last) = On (λ c. commit_on c s session) in
        AfterFinish session.client.1.buffered session.client.1.offsets session.client.0 end
          last.client.0
  unfolding commit_on memory_client called note
  commit_on-AfterFinish session =
      answered-AfterFinish _ _ session.client.0 _ _
        (commit-AfterEnd options now session.client.0 session.client.1)

  module _ (records : List RawRecord) (offsets : List (Text × TopicPartitionOffset)) where
    then_commit-AfterFinish :
        (b : Broker) (answer : Option Thrown) (session : Session Store)
        → Kept b session.client.0
        → (answer ≡ none
            → (session.client.1.buffered ≡ records) × (session.client.1.offsets ≡ offsets))
        → let (end, last) = On (λ c. offsets_then_commit c s (answer, session)) in
          AfterFinish records offsets b end last.client.0
    unfolding offsets_then_commit
    then_commit-AfterFinish b none session kept same =
        let (end, last) = On (λ c. commit_on c s session) in
        let (buffers, holds) = same refl in
        Kept-AfterFinish records offsets b session.client.0 last.client.0 end kept (
          subst (λ os. AfterFinish records os session.client.0 end last.client.0) holds
            (subst
              (λ rs. AfterFinish rs session.client.1.offsets session.client.0 end last.client.0)
              buffers (commit_on-AfterFinish session)))
    then_commit-AfterFinish b (some e) session kept same = unfold AfterFinish in inl kept

  finish-AfterFinish :
      (closed with_offsets : Bool) (session : Session Store)
      → session.client.1.offsets ≡ []
      → let (end, last) = On (λ c. finish c s closed with_offsets session) in
        AfterFinish session.client.1.buffered
          (sent_along with_offsets group sent)
          session.client.0
          end
          last.client.0
  unfolding finish send_offsets_on note memory_client called sent_along
  finish-AfterFinish true with_offsets session e = unfold AfterFinish in inl (refl, refl)
  finish-AfterFinish false true session e =
      then_commit-AfterFinish session.client.1.buffered (sent_along true group sent)
        session.client.0 _ _
        (send_offsets_keeps options now group sent session.client.0 session.client.1)
        (send_offsets-along session.client.0 session.client.1 e)
  finish-AfterFinish false false session e =
      then_commit-AfterFinish session.client.1.buffered [] session.client.0 none session
        (refl, refl) (λ done. (refl, e))

  module _ {A : Type 0} (t : Attempt A) where
    abbrev along : List (Text × TopicPartitionOffset)
    along = sent_along t.with_offsets group sent

    caught-AfterEnd :
        (records : List RawRecord) (b : Broker) (sends : List (Settled ℕ)) (thrown : Thrown)
        (session : Session Store)
        → Kept b session.client.0 ⊎ Broken options now records b session.client.0
        → let (result, last) = On (λ c. caught c s {A = A} sends thrown session) in
          AfterEnd options now records along b result last.client.0
    unfolding caught abort_on memory_client called note
    caught-AfterEnd records b sends thrown session h =
        Broken-Kept options now records along b session.client.0
          (abort session.client.0 session.client.1).1.0 h
          (abort_keeps options now session.client.0 session.client.1)

    concluded-AfterEnd :
        (records : List RawRecord) (b : Broker) (a : A) (sends : List (Settled ℕ))
        (end : Option Thrown) (session : Session Store)
        → AfterFinish records along b end session.client.0
        → let (result, last) = On (λ c. concluded c s a sends (end, session)) in
          AfterEnd options now records along b result last.client.0
    unfolding concluded note AfterFinish
    concluded-AfterEnd records b a sends none session h = h
    concluded-AfterEnd records b a sends (some e) session h =
        caught-AfterEnd records b sends e session h

    settled-AfterEnd :
        (a : A) (sends : List (Settled ℕ)) (all : Result (List ℕ)) (session : Session Store)
        → session.client.1.offsets ≡ []
        → let (result, last) =
            On
              (λ c. concluded c s a sends (finish_sends c s t.closed t.with_offsets all session)) in
          AfterEnd options now session.client.1.buffered along session.client.0 result last.client.0
    unfolding finish_sends
    settled-AfterEnd a sends (err e) session h =
        concluded-AfterEnd session.client.1.buffered session.client.0 a sends (some e) session
          (unfold AfterFinish in inl (refl, refl))
    settled-AfterEnd a sends (ok counts) session h =
        concluded-AfterEnd session.client.1.buffered session.client.0 a sends _ _
          (finish-AfterFinish t.closed t.with_offsets session h)

    conclude-AfterEnd :
        (answer : Result A) (sends : List (Settled ℕ)) (session : Session Store)
        → session.client.1.offsets ≡ []
        → let (result, last) = On (λ c. conclude c s t answer sends session) in
          AfterEnd options now session.client.1.buffered along session.client.0 result last.client.0
    unfolding conclude
    conclude-AfterEnd (err e) sends session h =
        caught-AfterEnd session.client.1.buffered session.client.0 sends e session
          (inl (refl, refl))
    conclude-AfterEnd (ok a) sends session h =
        settled-AfterEnd a sends (promise_all sends) session h

    -- What the function of the transaction sent, and the client acknowledged.
    abbrev acknowledged : Session Store → List RawRecord
    acknowledged session = acked (On (λ c. run_calls c s t.calls session)).1.acts

    begin-AfterEnd :
        (begun : Option Thrown) (session : Session Store)
        → Holds session
        → let (result, last) = On (λ c. begin_on c s t begun session) in
          AfterEnd options now (acknowledged session) along session.client.0 result last.client.0
    unfolding begin_on note
    begin-AfterEnd (some e) session h = inl (refl, refl)
    begin-AfterEnd none session h =
        let (sends, after) = On (λ c. run_calls c s t.calls session) in
        let (result, last) = On (λ c. conclude c s t t.result sends after) in
        let held = run_calls-Holds t.calls session h in
        Kept-AfterEnd options now (acked after.acts) along session.client.0 after.client.0
          last.client.0 result (run_calls_keeps t.calls session)
          (subst (λ rs. AfterEnd options now rs along after.client.0 result last.client.0)
            held.buffers (conclude-AfterEnd t.result sends after held.no_offsets))

    connect-AfterEnd :
        (connected : Option Thrown) (session : Session Store)
        → Holds session
        → let (result, last) = On (λ c. connect_on c s t connected session) in
          AfterEnd options now (acknowledged session) along session.client.0 result last.client.0
    unfolding connect_on
    connect-AfterEnd none session h = begin-AfterEnd t.begun session h
    connect-AfterEnd (some e) session h = inl (refl, refl)

    support-AfterEnd :
        (supported : Bool) (session : Session Store)
        → Holds session
        → let (result, last) = On (λ c. support c s t supported session) in
          AfterEnd options now (acknowledged session) along session.client.0 result last.client.0
    unfolding support
    support-AfterEnd true session h = connect-AfterEnd t.connected session h
    support-AfterEnd false session h = inl (refl, refl)

    -- On the broker in memory, a transaction that resolves appended exactly the records of its sends
    -- that the client acknowledged, all of them, and committed exactly its offsets with them; one that
    -- is rejected left the topics and the committed offsets alone, or the broker failed while it
    -- appended those records, and no offset was committed.
    pub execute-AfterEnd :
        (b : Broker)
        → let client = memory_client options now group sent in
          let (sends, after) = run_calls client s t.calls (fresh b) in
          let (result, last) = execute client s t (fresh b) in
          AfterEnd options now
            (acked after.acts)
            (sent_along t.with_offsets group sent)
            b
            result
            last.client.0
    unfolding execute
    execute-AfterEnd b =
        support-AfterEnd t.supported (fresh b)
          (record { buffers = unfold acked in refl; no_offsets = refl })

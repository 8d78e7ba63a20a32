-- ===== src/Runner/Ends.antt =====
-- How a transaction of src/transaction.ts ends: committed as the last call, or aborted.
use kafka_harbor.Prelude.{
  ℕ, ◌≡◌, refl, Bool, true, false, Option, none, some, List, [], ◌∷◌, arith, subst, sym,
}
use kafka_harbor.Errors.{Thrown, is_fenced_error}
use kafka_harbor.Result.{Result, ok, err}
use kafka_harbor.Settled.{Settled, Fulfilled, promise_all, promise_all-Fulfilled}
use kafka_harbor.Producer.{Sender}
use kafka_harbor.Runner.{
  Client, Act, offsets_sent, commit_called, abort_called, completed, committed, aborted, Session,
  Attempt, run_calls, first_fence, error_of, records_of, execute, offsets_then_commit, commit_on,
  note, concluded, finish, abort_on, fence_of, conclude, finish_sends, caught, send_offsets_on,
  connect_on, support, begin_on,
}

-- The client acknowledged the commit, as the last thing it was asked, and the offsets before it.
pub data Committed (base : List Act) : Bool → List Act → Type 0 where
  alone : Committed base false (commit_called none ∷ base)
  after_offsets : Committed base true (commit_called none ∷ offsets_sent none ∷ base)

-- Nothing was committed: the end was not reached, or the client refused it.
pub data Unfinished (base : List Act) : List Act → Type 0 where
  not_reached : Unfinished base base
  offsets_failed : (e : Thrown) → Unfinished base (offsets_sent (some e) ∷ base)
  commit_failed : (e : Thrown) → Unfinished base (commit_called (some e) ∷ base)
  commit_failed_after :
      (e : Thrown) → Unfinished base (commit_called (some e) ∷ offsets_sent none ∷ base)

-- An aborted transaction: the abort is the last thing asked of the client, and the event says why.
pub record Aborted (base : List Act) (sends : List (Settled ℕ)) (e : Thrown) (acts : List Act)
    : Type 0 where
  pub unfinished : List Act
  pub answer : Option Thrown
  pub before : Unfinished base unfinished
  pub acts_are :
      acts ≡ completed aborted (records_of sends) (some e) ∷ abort_called answer ∷ unfinished
  -- a fence among the sends is what the caller learns
  pub fence_wins : (fence : Thrown) → first_fence sends ≡ some fence → is_fenced_error e ≡ true

pub record Landed {A : Type 0} (t : Attempt A) (base : List Act) (sends : List (Settled ℕ)) (a : A)
    (acts : List Act) : Type 0 where
  pub still_open : t.closed ≡ false
  pub returned : t.result ≡ ok a
  pub counts : List ℕ
  pub all_sent : Fulfilled sends counts
  pub before : List Act
  pub ends : Committed base t.with_offsets before
  pub acts_are : acts ≡ completed committed (records_of sends) none ∷ before

FinishEnd : List Act → Bool → Bool → Option Thrown → List Act → Type 0
FinishEnd base closed with_offsets none acts = (closed ≡ false) × Committed base with_offsets acts
FinishEnd base closed with_offsets (some thrown) acts = Unfinished base acts

commit-FinishEnd :
    (base : List Act) (answer : Option Thrown)
    → FinishEnd base false false answer (commit_called answer ∷ base)
unfolding FinishEnd
commit-FinishEnd base none = (refl, alone)
commit-FinishEnd base (some e) = commit_failed e

commit-after_offsets :
    (base : List Act) (answer : Option Thrown)
    → FinishEnd base false true answer (commit_called answer ∷ offsets_sent none ∷ base)
unfolding FinishEnd
commit-after_offsets base none = (refl, after_offsets)
commit-after_offsets base (some e) = commit_failed_after e

fence_of-fenced :
    (outcome : Result ℕ) (rest : Option Thrown) (fence : Thrown)
    → ((f : Thrown) → rest ≡ some f → is_fenced_error f ≡ true)
    → fence_of outcome rest ≡ some fence
    → is_fenced_error fence ≡ true
unfolding fence_of
fence_of-fenced (ok records) rest fence h e = h fence e
fence_of-fenced (err thrown) rest fence h e = ground (arith, h fence)

first_fence-fenced :
    (sends : List (Settled ℕ)) (fence : Thrown)
    → first_fence sends ≡ some fence
    → is_fenced_error fence ≡ true
unfolding first_fence
first_fence-fenced [] fence e = ground arith
first_fence-fenced (p ∷ sends) fence e =
    fence_of-fenced p.outcome (first_fence sends) fence (λ f. first_fence-fenced sends f) e

error_of-fence :
    (thrown fence : Thrown) (sends : List (Settled ℕ))
    → first_fence sends ≡ some fence
    → is_fenced_error (error_of thrown (first_fence sends)) ≡ true
unfolding error_of
error_of-fence thrown fence sends e = ground (arith, first_fence-fenced sends fence e)

-- What a caller learns, and what became of the transaction.
abbrev pub Ended :
    {A : Type 0} → Attempt A → List Act → List (Settled ℕ) → Result A → List Act → Type 0
Ended t base sends (ok a) acts = Landed t base sends a acts
Ended t base sends (err e) acts = Aborted base sends e acts

module _ {S : Type 0} (client : Client S) (s : Sender) where
  offsets-FinishEnd :
      (base : List Act) (answer : Option Thrown) (session : Session S)
      → session.acts ≡ offsets_sent answer ∷ base
      → let (end, last) = offsets_then_commit client s (answer, session) in
        FinishEnd base false true end last.acts
  unfolding FinishEnd offsets_then_commit commit_on note
  offsets-FinishEnd base (some e) session q = subst (Unfinished base) (sym q) (offsets_failed e)
  offsets-FinishEnd base none session q =
      subst
        (λ acts.
          FinishEnd base false true (client.commit session.client).0
            (commit_called (client.commit session.client).0 ∷ acts))
        (sym q) (commit-after_offsets base (client.commit session.client).0)

  finish-FinishEnd :
      (closed with_offsets : Bool) (session : Session S)
      → let (end, last) = finish client s closed with_offsets session in
        FinishEnd session.acts closed with_offsets end last.acts
  unfolding FinishEnd finish offsets_then_commit commit_on send_offsets_on note
  finish-FinishEnd true with_offsets session = not_reached
  finish-FinishEnd false false session =
      commit-FinishEnd session.acts (client.commit session.client).0
  finish-FinishEnd false true session =
      offsets-FinishEnd session.acts (client.send_offsets session.client).0 _ refl

  abort_on-Aborted :
      (base : List Act) (sends : List (Settled ℕ)) (thrown : Thrown) (session : Session S)
      → Unfinished base session.acts
      → let error = error_of thrown (first_fence sends) in
        Aborted base sends error (abort_on client s error (records_of sends) session).acts
  unfolding abort_on
  abort_on-Aborted base sends thrown session u = record {
    unfinished = session.acts;
    answer = (client.abort session.client).0;
    before = u;
    acts_are = refl;
    fence_wins = λ fence e. error_of-fence thrown fence sends e;
  }

  module _ {A : Type 0} (t : Attempt A) where
    concluded-Ended :
        (base : List Act) (a : A) (sends : List (Settled ℕ)) (counts : List ℕ) (end : Option Thrown)
        (session : Session S)
        → t.result ≡ ok a
        → Fulfilled sends counts
        → FinishEnd base t.closed t.with_offsets end session.acts
        → let (result, last) = concluded client s a sends (end, session) in
          Ended t base sends result last.acts
    unfolding concluded caught note FinishEnd
    concluded-Ended base a sends counts none session r f (open_still, c) = record {
      still_open = open_still;
      returned = r;
      counts = counts;
      all_sent = f;
      before = session.acts;
      ends = c;
      acts_are = refl;
    }
    concluded-Ended base a sends counts (some thrown) session r f u =
        abort_on-Aborted base sends thrown session u

    settled-Ended :
        (a : A) (sends : List (Settled ℕ)) (all : Result (List ℕ)) (session : Session S)
        → t.result ≡ ok a
        → promise_all sends ≡ all
        → let (result, last) =
            concluded client s a sends
              (finish_sends client s t.closed t.with_offsets all session) in
          Ended t session.acts sends result last.acts
    unfolding finish_sends concluded caught
    settled-Ended a sends (err thrown) session r q =
        abort_on-Aborted session.acts sends thrown session not_reached
    settled-Ended a sends (ok counts) session r q =
        concluded-Ended session.acts a sends counts _ _ r (promise_all-Fulfilled sends counts q)
          (finish-FinishEnd t.closed t.with_offsets session)

    conclude-Ended :
        (answer : Result A) (sends : List (Settled ℕ)) (session : Session S)
        → t.result ≡ answer
        → let (result, last) = conclude client s t answer sends session in
          Ended t session.acts sends result last.acts
    unfolding conclude caught
    conclude-Ended (err thrown) sends session r =
        abort_on-Aborted session.acts sends thrown session not_reached
    conclude-Ended (ok a) sends session r = settled-Ended a sends (promise_all sends) session r refl

    EndedAfter : Session S → Result A × Session S → Type 0
    EndedAfter session (result, last) =
        let (sends, sent) = run_calls client s t.calls session in
        Ended t sent.acts sends result last.acts

    begin-Ended :
        (begun : Option Thrown) (session : Session S)
        → begun ≡ none
        → EndedAfter session (begin_on client s t begun session)
    unfolding begin_on EndedAfter
    begin-Ended none session e = conclude-Ended t.result _ _ refl
    begin-Ended (some thrown) session e = ground arith

    connect-Ended :
        (connected : Option Thrown) (session : Session S)
        → connected ≡ none
        → t.begun ≡ none
        → EndedAfter session (connect_on client s t connected session)
    unfolding connect_on
    connect-Ended none session e r = begin-Ended t.begun session r
    connect-Ended (some thrown) session e r = ground arith

    support-Ended :
        (supported : Bool) (session : Session S)
        → supported ≡ true
        → t.connected ≡ none
        → t.begun ≡ none
        → EndedAfter session (support client s t supported session)
    unfolding support
    support-Ended true session e q r = connect-Ended t.connected session q r
    support-Ended false session e q r = ground arith

    -- A transaction that the client opened ends once: it resolves with what its function returned
    -- only when all its sends were acknowledged, the harbor had not stopped producing, and the
    -- client's commit, preceded by the offsets if there are any, was acknowledged as the last call;
    -- otherwise it is rejected, no commit was acknowledged, the abort is the last call, and the error
    -- is a fence if any of its sends was fenced. The one event it emits says the same.
    pub execute-Ended :
        (session : Session S)
        → t.supported ≡ true
        → t.connected ≡ none
        → t.begun ≡ none
        → let (sends, sent) = run_calls client s t.calls session in
          let (result, last) = execute client s t session in
          Ended t sent.acts sends result last.acts
    unfolding execute EndedAfter
    execute-Ended session p q r = support-Ended t.supported session p q r

-- ===== src/Consumer/Batch/Safety.antt =====
-- A batch commits only when every one of its messages was handled, or forwarded and acknowledged.
use kafka_harbor.Prelude.{
  ℕ, ◌≡◌, refl, sym, subst, false, not, Option, none, some, List, [], ◌∷◌, arith, Text, is_some,
  text_eq,
}
use kafka_harbor.Errors.{
  Thrown, undefined, null_thrown, primitive, object, MessageRef, batch_failed_error, failure_of,
  hold_expired_error,
}
use kafka_harbor.Result.{ok, ok-injective}
use kafka_harbor.Consumer.{Pending}
use kafka_harbor.Consumer.World.{Env, Config, Effect, Batch, Message}
use kafka_harbor.Consumer.Action.{◌>>=◌, lift}
use kafka_harbor.Consumer.Action.Logs.{
  Log, Logs, Logs-pure, Logs-await, Logs-tell, Logs-bind, Logs-if, Logs-mono, Logs-assume,
  Logs-lift_ok,
}
use kafka_harbor.Consumer.Backed.{Framed, IsStable}
use kafka_harbor.Consumer.Handle.{Ran, finished, failed, held, gave_up, undecided}
use kafka_harbor.Consumer.Handle.Safety.{IsOwn, run_guarded-Logs}
use kafka_harbor.Consumer.Batch.{
  Slot, messages_of, mark_failed, mark_by, cause_or_self, tell_answered, note_failed, run_decoded,
  settle_batch, note_batch, run_batch_handler, settle_thrown, settle_slots,
}
use kafka_harbor.Consumer.Batch.Slots.{
  items_of, Ready, Owed, Listed, AllOf, AllOf-IsStable, Ready-IsStable, Listed-IsStable, Among,
  handled_slots, answered_slots, nothing_open, fail_all-Owed, fail_listed-Owed, items-mark_by,
}
use kafka_harbor.Consumer.Batch.Settle.{Both-IsStable, stop_batch-Logs, settle_slots-Logs}

-- A breaker that does not let the handler run says nothing of the messages of a batch.
abbrev pub RefusesPlainly : Env → Type 0
RefusesPlainly env =
    (n : ℕ) (topic : Text) (rejection : Thrown)
    → env.admit n topic ≡ some rejection
    → batch_failed_error rejection ≡ none

plain-failure_of :
    (thrown : Thrown)
    → batch_failed_error thrown ≡ none
    → batch_failed_error (failure_of 0 thrown) ≡ none
unfolding failure_of batch_failed_error
plain-failure_of undefined e = refl
plain-failure_of null_thrown e = refl
plain-failure_of (primitive t) e = e
plain-failure_of (object f cause) e = e

expired_plain :
    (message : Text) (rejection : Thrown)
    → batch_failed_error (hold_expired_error 0 message rejection) ≡ none
unfolding hold_expired_error batch_failed_error text_eq
expired_plain message rejection = refl

module _ (topic : Text) (partition : ℕ) (ready : List Slot) where
  -- What the handler's answer lets be known of the slots.
  pub Marked : Option (List MessageRef) → Log
  Marked none es = AllOf Ready ready es
  Marked (some refs) es = AllOf (Listed topic partition refs) ready es

  Marked-IsStable : (refs : Option (List MessageRef)) → IsStable (Marked refs)
  unfolding Marked
  Marked-IsStable none = AllOf-IsStable Ready Ready-IsStable ready
  Marked-IsStable (some refs) =
      AllOf-IsStable (Listed topic partition refs) (Listed-IsStable topic partition refs) ready

  mark_by-Owed :
      (thrown : Thrown) (refs : Option (List MessageRef)) (es : List Effect) (slots : List Slot)
      → Marked refs es
      → mark_by topic partition thrown refs ready ≡ ok slots
      → AllOf Owed slots es
  unfolding Marked mark_by
  mark_by-Owed thrown none es slots h e =
      subst (λ l. AllOf Owed l es) (ok-injective _ _ e) (fail_all-Owed thrown es ready h)
  mark_by-Owed thrown (some refs) es slots h e =
      fail_listed-Owed (cause_or_self thrown) es topic partition refs ready slots h e

  -- What each outcome of the handler leaves.
  pub AfterBatch : Log → Ran → Log
  AfterBatch F (finished replayed) es = AllOf Owed ready es × Framed F es
  AfterBatch F (failed thrown) es = Marked (batch_failed_error thrown) es × Framed F es
  AfterBatch F held es = Framed F es
  AfterBatch F gave_up es = Framed F es
  AfterBatch F undecided es = Framed F es

  pub AfterBatch-Framed :
      (F : Log) (ran : Ran) (es : List Effect) → AfterBatch F ran es → Framed F es
  unfolding AfterBatch
  AfterBatch-Framed F (finished replayed) es c = c.1
  AfterBatch-Framed F (failed thrown) es c = c.1
  AfterBatch-Framed F held es c = c
  AfterBatch-Framed F gave_up es c = c
  AfterBatch-Framed F undecided es c = c

  Marked-plain :
      (refs : Option (List MessageRef)) (es : List Effect)
      → refs ≡ none
      → AllOf Ready ready es
      → Marked refs es
  unfolding Marked
  Marked-plain none es e h = h
  Marked-plain (some refs) es e h = ground arith

  -- `F`, with what is known before the handler runs.
  abbrev pub Before : Log → Log
  Before F es = F es × AllOf Ready ready es

  AfterBatch-IsOwn :
      (env : Env) (F : Log) → RefusesPlainly env → IsOwn env (Before F) (AfterBatch F)
  unfolding AfterBatch
  AfterBatch-IsOwn env F plain = record {
    held_back = λ es c. (c.0.0, c.1);
    runs_out = λ es c. (c.0.0, c.1);
    expires = λ message rejection es c.
        (Marked-plain _ es (expired_plain message rejection) c.0.1, (c.0.0, c.1));
    rejects = λ n t rejection e es c. (
      Marked-plain _ es (plain-failure_of rejection (plain n t rejection e)) c.0.1,
      (c.0.0, c.1),
    );
  }

module _ (env : Env) (config : Config) (plain : RefusesPlainly env) (F : Log)
    (stable : IsStable F) where
  module _ (first : Pending) (ready : List Slot) where
    abbrev pub Known : Log
    Known = Before first.raw.topic first.raw.partition ready F

    abbrev pub Outcome : Ran → Log
    Outcome = AfterBatch first.raw.topic first.raw.partition ready F

    pub Known-IsStable : IsStable Known
    Known-IsStable =
        Both-IsStable F (AllOf Ready ready) stable (AllOf-IsStable Ready Ready-IsStable ready)

    tell_answered-Logs :
        (refs : Option (List MessageRef))
        → Logs
            (Framed Known)
            (tell_answered env config first.raw.topic first.raw.partition (messages_of ready) refs)
            (λ _ es. Marked first.raw.topic first.raw.partition ready refs es × Framed F es)
            (Framed Known)
    unfolding tell_answered Marked
    tell_answered-Logs none = Logs-pure _ _ _ tt (λ es c. (c.0.1, (c.0.0, c.1)))
    tell_answered-Logs (some refs) = Logs-tell _ _ _ _ (λ es c. (
      answered_slots first.raw.topic first.raw.partition refs undefined ready (messages_of ready) es
          (λ raw q. q) c.0.1,
      (stable _ es c.0.0, c.1),
    ))

    note_failed-Logs :
        (failure : Thrown)
        → Logs
            (Framed Known)
            (note_failed env config first.raw (messages_of ready) failure)
            Outcome
            (Framed Known)
    unfolding note_failed AfterBatch
    note_failed-Logs failure =
        Logs-bind
          (λ _ es.
            Marked first.raw.topic first.raw.partition ready (batch_failed_error failure) es
            × Framed F es)
          (tell_answered-Logs (batch_failed_error failure))
          (λ _.
            Logs-bind
              (λ _ es.
                Marked first.raw.topic first.raw.partition ready (batch_failed_error failure) es
                × Framed F es)
              (Logs-tell _ _ _ _ (λ es c. (
                Marked-IsStable first.raw.topic first.raw.partition ready
                    (batch_failed_error failure) _ es c.0,
                (stable _ es c.1.0, c.1.1),
              )))
              (λ _. Logs-pure _ _ _ (failed failure) (λ es c. c)))

    note_batch-Logs :
        (answer : Option Thrown)
        → Logs
            (Framed Known)
            (note_batch env config first.raw (messages_of ready) answer)
            Outcome
            (Framed Known)
    unfolding note_batch AfterBatch
    note_batch-Logs (some thrown) = note_failed-Logs (failure_of 0 thrown)
    note_batch-Logs none =
        Logs-bind (λ _ es. AllOf Owed ready es × Framed F es)
          (Logs-tell _ _ _ _ (λ es c. (
            handled_slots es ready (messages_of ready) (λ raw q. q) c.0.1,
            (stable _ es c.0.0, c.1),
          )))
          (λ _. Logs-pure _ _ _ (finished false) (λ es c. c))

    run_batch_handler-Logs :
        Logs
          (Framed Known)
          (run_batch_handler env config first.raw (messages_of ready))
          Outcome
          (Framed Known)
    unfolding run_batch_handler
    run_batch_handler-Logs =
        Logs-bind (λ _. Framed Known) (Logs-await (Framed Known) env _ _) note_batch-Logs

    pub run_decoded-Logs :
        (b : Batch) (messages : List Message)
        → messages_of ready ≡ messages
        → Logs (Framed Known) (run_decoded env config b first messages) Outcome (Framed Known)
    unfolding run_decoded AfterBatch
    run_decoded-Logs b [] e =
        Logs-pure _ _ _ (finished false) (λ es c. (nothing_open es ready e c.0.1, (c.0.0, c.1)))
    run_decoded-Logs b (m ∷ ms) e =
        run_guarded-Logs env config Known Known-IsStable Outcome
          (AfterBatch-IsOwn first.raw.topic first.raw.partition ready env F plain)
          b.subscription.breaker first (run_batch_handler env config first.raw (m ∷ ms))
          (subst
            (λ l.
              Logs (Framed Known) (run_batch_handler env config first.raw l) Outcome (Framed Known))
            e run_batch_handler-Logs)

    settle_marked-Logs :
        (b : Batch) (last : Pending) (thrown : Thrown)
        → Among last (items_of ready)
        → Logs
            (Outcome (failed thrown))
            (lift (mark_failed first.raw.topic first.raw.partition thrown ready)
              >>= settle_slots env config b first last (not (is_some (batch_failed_error thrown))))
            (λ _. Framed F)
            (Framed F)
    unfolding AfterBatch mark_failed
    settle_marked-Logs b last thrown among =
        Logs-bind
          (λ slots es.
            (mark_failed first.raw.topic first.raw.partition thrown ready ≡ ok slots)
            × Outcome (failed thrown) es)
          (Logs-mono (λ es c. c) (λ slots es c. c) (λ es c. c.1)
            (Logs-lift_ok (Outcome (failed thrown)) _))
          (λ slots. Logs-assume (λ e.
            Logs-mono
              (λ es c. (
                mark_by-Owed first.raw.topic first.raw.partition ready thrown
                    (batch_failed_error thrown) es slots c.0 e,
                c.1,
              ))
              (λ a es c. c) (λ es c. c)
              (settle_slots-Logs env config F stable b first last _ slots (
                subst (Among last)
                  (sym (
                    items-mark_by first.raw.topic first.raw.partition thrown
                      (batch_failed_error thrown) ready slots e))
                  among))))

    pub settle_batch-Logs :
        (b : Batch) (last : Pending) (ran : Ran)
        → Among last (items_of ready)
        → Logs
            (Outcome ran)
            (settle_batch env config b first last ready ran)
            (λ _. Framed F)
            (Framed F)
    unfolding settle_batch settle_thrown AfterBatch
    settle_batch-Logs b last (finished replayed) among =
        settle_slots-Logs env config F stable b first last false ready among
    settle_batch-Logs b last (failed thrown) among =
        Logs-if _
          (Logs-mono (λ es c. c.1) (λ a es c. c) (λ es c. c)
            (stop_batch-Logs env config F stable b first last ready thrown))
          (settle_marked-Logs b last thrown among)
    settle_batch-Logs b last held among = Logs-pure _ _ _ tt (λ es c. c)
    settle_batch-Logs b last gave_up among = Logs-pure _ _ _ tt (λ es c. c)
    settle_batch-Logs b last undecided among = Logs-pure _ _ _ tt (λ es c. c)

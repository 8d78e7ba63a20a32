-- ===== src/Consumer/Handle/Safety.antt =====
-- Handling a message, held by a breaker or not, commits what it accounted for.
use kafka_harbor.Prelude.{
  ℕ, ◌-◌, zero, suc, refl, inl, Bool, Option, none, some, List, ◌∷◌, leb, Text, ◌≡◌,
}
use kafka_harbor.Errors.{Thrown, is_circuit_rejection, failure_of}
use kafka_harbor.Result.{Result, ok, err}
use kafka_harbor.Adapter.{RawMessage}
use kafka_harbor.Consumer.{Subscription, Pending, Breaker}
use kafka_harbor.Consumer.World.{Env, Config, Effect, slept, Message}
use kafka_harbor.Consumer.Action.{Action}
use kafka_harbor.Consumer.Action.Logs.{
  Log, Logs, Logs-pure, Logs-gets, Logs-ask, Logs-await, Logs-await_other, Logs-tell, Logs-bind,
  Logs-catch, Logs-if, Logs-await_of, Logs-assume,
}
use kafka_harbor.Consumer.Backed.{Framed, IsStable, Backed}
use kafka_harbor.Consumer.Decode.Quiet.{to_message-Logs}
use kafka_harbor.Consumer.Handle.{
  Ran, finished, failed, held, gave_up, undecided, note_run, run_handler, released, sleep,
  after_poll, poll, hold, admitted, guarded, run_guarded, decoded_run, run_message,
  hold_expired_error, expired,
}

-- A handler that finished accounts for its message.
abbrev pub AfterRan : Log → Log → Ran → Log
AfterRan F B (finished replayed) = B
AfterRan F B _ = Framed F

-- The outcomes that the breaker comes to on its own: it lets go, runs out, or fails the message.
pub record IsOwn (env : Env) (F : Log) (Q : Ran → Log) : Type 0 where
  pub held_back : (es : List Effect) → Framed F es → Q held es
  pub runs_out : (es : List Effect) → Framed F es → Q undecided es
  pub expires :
      (message : Text) (rejection : Thrown) (es : List Effect)
      → Framed F es
      → Q (failed (hold_expired_error 0 message rejection)) es
  pub rejects :
      (n : ℕ) (topic : Text) (rejection : Thrown)
      → env.admit n topic ≡ some rejection
      → (es : List Effect) → Framed F es
      → Q (failed (failure_of 0 rejection)) es

abbrev Rejects : Log → (Ran → Log) → Option Thrown → Type 0
Rejects F Q none = Unit {0}
Rejects F Q (some rejection) =
    (es : List Effect) → Framed F es → Q (failed (failure_of 0 rejection)) es

answer-Rejects :
    (env : Env) (F : Log) (Q : Ran → Log)
    → IsOwn env F Q
    → (n : ℕ) (topic : Text) (answer : Option Thrown) → env.admit n topic ≡ answer
    → Rejects F Q answer
answer-Rejects env F Q own n topic none e = tt
answer-Rejects env F Q own n topic (some rejection) e = own.rejects n topic rejection e

-- For one message, only a handler that finished says more than the log did.
AfterRan-IsOwn : (env : Env) (F B : Log) → IsOwn env F (AfterRan F B)
AfterRan-IsOwn env F B = record {
  held_back = λ es c. c;
  runs_out = λ es c. c;
  expires = λ message rejection es c. c;
  rejects = λ n topic rejection e es c. c;
}

module _ (env : Env) (config : Config) (F : Log) (stable : IsStable F) where
  pub sleep-Logs :
      (P : Log) (ms : ℕ)
      → ((es : List Effect) → P es → P (slept ms ∷ es))
      → Logs P (sleep env config ms) (λ _. P) P
  unfolding sleep
  sleep-Logs P ms keep = Logs-bind (λ _. P) (Logs-await_other P env _) (λ _. Logs-tell _ _ _ _ keep)

  note_run-Logs :
      (raw : RawMessage) (answer : Result Bool)
      → Logs (Framed F) (note_run env config raw answer) (AfterRan F (Backed F raw)) (Framed F)
  unfolding note_run
  note_run-Logs raw (ok replayed) =
      Logs-bind (λ _. Backed F raw) (Logs-tell _ _ _ _ (λ es c. (inl refl, (stable _ es c.0, c.1))))
        (λ _. Logs-pure _ _ _ (finished replayed) (λ es b. b))
  note_run-Logs raw (err thrown) =
      Logs-bind (λ _. Framed F) (Logs-tell _ _ _ _ (λ es c. (stable _ es c.0, c.1)))
        (λ _. Logs-pure _ _ _ (failed (failure_of 0 thrown)) (λ es c. c))

  run_handler-Logs :
      (item : Pending) (message : Message)
      → Logs
          (Framed F)
          (run_handler env config item message)
          (AfterRan F (Backed F item.raw))
          (Framed F)
  unfolding run_handler
  run_handler-Logs item message =
      Logs-bind (λ _. Framed F) (Logs-await (Framed F) env _ _) (note_run-Logs item.raw)

  -- `Q` is what a handler's outcome is held to; the breaker's own outcomes hold to it as well.
  module _ (Q : Ran → Log) (own : IsOwn env F Q) (item : Pending) (run : Action Ran)
      (runs : Logs (Framed F) run Q (Framed F)) (breaker : Breaker) (deadline : ℕ) where
    after_poll-Logs :
        (again : Action Ran)
        → Logs (Framed F) again Q (Framed F)
        → Logs (Framed F) (after_poll env config item again) Q (Framed F)
    unfolding after_poll released
    after_poll-Logs again h =
        Logs-bind (λ _. Framed F) (Logs-gets (Framed F) _ _)
          (λ gone. Logs-if gone (Logs-pure _ _ _ held own.held_back) h)

    poll-Logs :
        (since now : ℕ) (rejection : Thrown) (again : Action Ran)
        → Logs (Framed F) again Q (Framed F)
        → Logs
            (Framed F)
            (poll env config breaker deadline since now item rejection again)
            Q
            (Framed F)
    unfolding poll expired
    poll-Logs since now rejection again h =
        Logs-if (leb deadline now)
          (Logs-pure _ _ _ (failed (expired env config breaker (now - since) rejection))
            (own.expires _ rejection))
          (Logs-bind (λ _. Framed F) (sleep-Logs (Framed F) _ (λ es c. (stable _ es c.0, c.1)))
            (λ _. after_poll-Logs again h))

    hold-Logs :
        (since : Option ℕ) (rejection : Thrown) (again : ℕ → Action Ran)
        → ((t : ℕ) → Logs (Framed F) (again t) Q (Framed F))
        → Logs (Framed F) (hold env config breaker deadline since item rejection again) Q (Framed F)
    unfolding hold released
    hold-Logs since rejection again h =
        Logs-bind (λ _. Framed F) (Logs-ask (Framed F) _ _)
          λ now.
            Logs-bind (λ _. Framed F) (Logs-gets (Framed F) _ _)
              (λ gone.
                Logs-if gone (Logs-pure _ _ _ held own.held_back)
                  (poll-Logs _ now rejection _ (h _)))

    admitted-Logs :
        (since : Option ℕ) (again : ℕ → Action Ran) (answer : Option Thrown)
        → ((t : ℕ) → Logs (Framed F) (again t) Q (Framed F))
        → Rejects F Q answer
        → Logs
            (Framed F)
            (admitted env config breaker deadline since item run again answer)
            Q
            (Framed F)
    unfolding admitted
    admitted-Logs since again none h rejects = runs
    admitted-Logs since again (some rejection) h rejects =
        Logs-if (is_circuit_rejection rejection) (hold-Logs since rejection again h)
          (Logs-pure _ _ _ (failed (failure_of 0 rejection)) rejects)

    guarded-Logs :
        (rounds : ℕ) (since : Option ℕ)
        → Logs (Framed F) (guarded env config rounds breaker deadline since item run) Q (Framed F)
    unfolding guarded
    guarded-Logs zero since = Logs-pure _ _ _ undecided own.runs_out
    guarded-Logs (suc rounds) since =
        Logs-bind (λ answer es. Rejects F Q answer × Framed F es)
          (Logs-await_of (Framed F) (Rejects F Q) env _ _
            (λ n. answer-Rejects env F Q own n breaker.topic _ refl))
          (λ answer. Logs-assume (admitted-Logs since _ answer (λ t. guarded-Logs rounds (some t))))

  pub run_guarded-Logs :
      (Q : Ran → Log) (own : IsOwn env F Q) (breaker : Option Breaker) (item : Pending)
      (run : Action Ran)
      → Logs (Framed F) run Q (Framed F)
      → Logs (Framed F) (run_guarded env config breaker item run) Q (Framed F)
  unfolding run_guarded
  run_guarded-Logs Q own none item run h = h
  run_guarded-Logs Q own (some breaker) item run h =
      Logs-bind (λ _. Framed F) (Logs-ask (Framed F) _ _)
        (λ now. guarded-Logs Q own item run h breaker _ config.hold_rounds none)

  pub run_message-Logs :
      (item : Pending) (subscription : Subscription)
      → Logs
          (Framed F)
          (run_message env config item subscription)
          (AfterRan F (Backed F item.raw))
          (Framed F)
  unfolding run_message decoded_run
  run_message-Logs item subscription =
      Logs-catch (Framed F)
        (Logs-bind (λ _. Framed F)
          (to_message-Logs env (Framed F) item.raw item.headers subscription.plan.original
            item.retry)
          λ message.
            Logs-bind (λ _. Framed F) (Logs-gets (Framed F) _ _)
              λ gone. Logs-if gone (Logs-pure _ _ _ gave_up (λ es c. c)) (
                run_guarded-Logs (AfterRan F (Backed F item.raw))
                  (AfterRan-IsOwn env F (Backed F item.raw)) subscription.breaker item _
                  (run_handler-Logs item message)))
        (λ thrown. Logs-pure _ _ _ (failed (failure_of 0 thrown)) (λ es c. c))

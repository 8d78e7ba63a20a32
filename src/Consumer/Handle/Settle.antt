-- ===== src/Consumer/Handle/Settle.antt =====
-- What settling a handled message does to the log: a commit behind what backs it, or none.
use kafka_harbor.Prelude.{ℕ, List, Bool, true, false, ◌||◌}
use kafka_harbor.Errors.{Thrown, is_abort_processing_error}
use kafka_harbor.Errors.Cause.{fenced_in}
use kafka_harbor.Consumer.{Subscription, Pending}
use kafka_harbor.Consumer.World.{Env, Config, Effect, abort}
use kafka_harbor.Consumer.Action.{Action, ◌>>=◌}
use kafka_harbor.Consumer.Action.Logs.{
  Log, Logs, Logs-pure, Logs-throw, Logs-gets, Logs-modify, Logs-tell, Logs-bind, Logs-if,
  effects-begin_stop,
}
use kafka_harbor.Consumer.Backed.{Accounted, Framed, IsStable, Backed}
use kafka_harbor.Consumer.Forward.{Verdict, retry_to, dead_letter_to, crashed, commit}
use kafka_harbor.Consumer.Forward.Backing.{
  AfterVerdict, commit-Logs, forward_failed-Logs, emit_failure-Logs,
}
use kafka_harbor.Consumer.Handle.{
  Ran, finished, failed, held, gave_up, undecided, processed, reported, settle_verdict,
  stop_aborted, settle_failure, settle, unless_abandoned, handle_each,
}
use kafka_harbor.Consumer.Handle.Safety.{AfterRan, run_message-Logs}

abbrev pub Quiet {ℓ} : {A : Type ℓ} → Log → Action A → Type ℓ
Quiet F m = Logs (Framed F) m (λ _. Framed F) (Framed F)

module _ (env : Env) (config : Config) (F : Log) (stable : IsStable F) (item : Pending) where
  processed-Logs : (replayed done : Bool) → Quiet F (processed env config item replayed done)
  unfolding processed
  processed-Logs replayed true = Logs-tell _ _ _ _ (λ es c. (stable _ es c.0, c.1))
  processed-Logs replayed false = Logs-pure _ _ _ tt (λ es c. c)

  reported-Logs :
      (verdict : Verdict) (done : Bool) → Quiet F (reported env config item verdict done)
  unfolding reported
  reported-Logs verdict true = emit_failure-Logs env config F stable item verdict
  reported-Logs verdict false = Logs-pure _ _ _ tt (λ es c. c)

  commit_reported-Logs :
      (verdict : Verdict)
      → Logs
          (Backed F item.raw)
          (commit env config item.raw >>= reported env config item verdict)
          (λ _. Framed F)
          (Framed F)
  commit_reported-Logs verdict =
      Logs-bind (λ _. Framed F) (commit-Logs env config F stable item.raw) (reported-Logs verdict)

  settle_verdict-Logs :
      (thrown : Thrown) (verdict : Verdict)
      → Logs
          (AfterVerdict F item.raw verdict)
          (settle_verdict env config item thrown verdict)
          (λ _. Framed F)
          (Framed F)
  unfolding settle_verdict
  settle_verdict-Logs thrown crashed =
      Logs-bind (λ _. Framed F) (Logs-tell _ _ _ _ (λ es c. (stable _ es c.0, c.1)))
        (λ _. Logs-throw _ _ _ thrown (λ es c. c))
  settle_verdict-Logs thrown (retry_to topic level) = commit_reported-Logs (retry_to topic level)
  settle_verdict-Logs thrown (dead_letter_to dlq) = commit_reported-Logs (dead_letter_to dlq)

  stop_aborted-Logs : (thrown : Thrown) → Quiet F (stop_aborted env config item thrown)
  unfolding stop_aborted
  stop_aborted-Logs thrown =
      Logs-bind (λ _. Framed F) (Logs-tell _ _ _ _ (λ es c. (stable _ es c.0, c.1)))
        (λ _.
          Logs-bind (λ _. Framed F) (Logs-tell _ _ _ _ (λ es c. (stable _ es c.0, c.1)))
            (λ _. Logs-modify (Framed F) _ _ (effects-begin_stop abort)))

  settle_failure-Logs :
      (subscription : Subscription) (level : ℕ) (thrown : Thrown)
      → Quiet F (settle_failure env config item subscription level thrown)
  unfolding settle_failure
  settle_failure-Logs subscription level thrown =
      Logs-if (is_abort_processing_error thrown || fenced_in thrown) (stop_aborted-Logs thrown) (
        Logs-bind (AfterVerdict F item.raw)
          (forward_failed-Logs env config F stable item subscription level thrown)
          (settle_verdict-Logs thrown))

  settle-Logs :
      (subscription : Subscription) (level : ℕ) (ran : Ran)
      → Logs
          (AfterRan F (Backed F item.raw) ran)
          (settle env config item subscription level ran)
          (λ _. Framed F)
          (Framed F)
  unfolding settle
  settle-Logs subscription level held = Logs-pure _ _ _ tt (λ es c. c)
  settle-Logs subscription level gave_up = Logs-pure _ _ _ tt (λ es c. c)
  settle-Logs subscription level undecided = Logs-pure _ _ _ tt (λ es c. c)
  settle-Logs subscription level (finished replayed) =
      Logs-bind (λ _. Framed F) (commit-Logs env config F stable item.raw) (processed-Logs replayed)
  settle-Logs subscription level (failed thrown) = settle_failure-Logs subscription level thrown

-- What was backed stays so when nothing more is done.
pub forget_ran :
    (F B : Log) (ran : Ran) (es : List Effect)
    → AfterRan F (λ es. B es × Framed F es) ran es
    → Framed F es
forget_ran F B (finished replayed) es b = b.1
forget_ran F B (failed thrown) es c = c
forget_ran F B held es c = c
forget_ran F B gave_up es c = c
forget_ran F B undecided es c = c

pub handle_each-Logs :
    (env : Env) (config : Config) (F : Log) (stable : IsStable F) (item : Pending)
    (subscription : Subscription) (level : ℕ)
    → Quiet F (handle_each env config item subscription level)
unfolding handle_each unless_abandoned
handle_each-Logs env config F stable item subscription level =
    Logs-bind (AfterRan F (Backed F item.raw))
      (run_message-Logs env config F stable item subscription)
      λ ran.
        Logs-bind (λ _. AfterRan F (Backed F item.raw) ran)
          (Logs-gets (AfterRan F (Backed F item.raw) ran) _ _)
          λ gone.
            Logs-if gone (Logs-pure _ _ _ tt (forget_ran F (Accounted item.raw) ran))
              (settle-Logs env config F stable item subscription level ran)

-- ===== src/Consumer/Process/Loss.antt =====
-- No delivery commits what it did not account for.
use kafka_harbor.Prelude.{List, Bool, true, false, Option, none, some, Text, refl}
use kafka_harbor.Errors.{Thrown}
use kafka_harbor.Result.{Result, ok, err}
use kafka_harbor.Adapter.{RawMessage}
use kafka_harbor.Consumer.{Subscription, Route, Run, each, batch}
use kafka_harbor.Consumer.World.{World, Env, Config, Effect, Handle}
use kafka_harbor.Consumer.Action.Logs.{
  Log, After, Logs-pure, Logs-throw, Logs-gets, Logs-ask, Logs-await_other, Logs-modify, Logs-tell,
  Logs-bind, Logs-catch, Logs-if,
}
use kafka_harbor.Consumer.Backed.{CommitsBacked, Framed, IsStable, Backed}
use kafka_harbor.Consumer.Forward.Backing.{commit-Logs, produce_hop-Logs, crash_on-Logs}
use kafka_harbor.Consumer.Handle.Safety.{sleep-Logs}
use kafka_harbor.Consumer.Handle.Settle.{Quiet, handle_each-Logs}
use kafka_harbor.Consumer.Batch.Safety.{RefusesPlainly}
use kafka_harbor.Consumer.Batch.Collect.{collect-Logs}
use kafka_harbor.Consumer.Process.{
  Arrival, pending_of, emit_dead_letter, dead_letter_to_shared, dead_letter_unroutable, not_lost,
  wait_in_delivery, settle_park, park, wait_behind, wait_paused, wait_with, wait_until_due,
  dispatch, when_due, owned, routed, process, receive,
}

forget_result {ℓ} :
    {A : Type ℓ} (P : Log) (r : Result A) (es : List Effect) → After (λ _. P) P r es → P es
forget_result P (ok a) es p = p
forget_result P (err e) es p = p

module _ (env : Env) (config : Config) (F : Log) (stable : IsStable F) where
  emit_dead_letter-Logs :
      (a : Arrival) (dlq : Text) (done : Bool) → Quiet F (emit_dead_letter env config a dlq done)
  unfolding emit_dead_letter
  emit_dead_letter-Logs a dlq false = Logs-pure _ _ _ tt (λ es c. c)
  emit_dead_letter-Logs a dlq true = Logs-tell _ _ _ _ (λ es c. (stable _ es c.0, c.1))

  dead_letter_to_shared-Logs :
      (a : Arrival) (found : Option Text) → Quiet F (dead_letter_to_shared env config a found)
  unfolding dead_letter_to_shared
  dead_letter_to_shared-Logs a none = Logs-throw _ _ _ _ (λ es c. c)
  dead_letter_to_shared-Logs a (some dlq) =
      Logs-bind (λ _. Framed F) (Logs-ask (Framed F) _ _)
        λ now.
          Logs-bind (λ _. Backed F a.raw) (produce_hop-Logs env config F stable a.raw dlq _ _)
            λ _.
              Logs-bind (λ _. Framed F) (commit-Logs env config F stable a.raw)
                (emit_dead_letter-Logs a dlq)

  not_lost-Logs : (a : Arrival) → Quiet F (not_lost env config a)
  unfolding not_lost
  not_lost-Logs a = Logs-gets (Framed F) _ _

  wait_in_delivery-Logs : (a : Arrival) → Quiet F (wait_in_delivery env config a)
  unfolding wait_in_delivery
  wait_in_delivery-Logs a =
      Logs-bind (λ _. Framed F) (Logs-ask (Framed F) _ _)
        λ now.
          Logs-bind (λ _. Framed F)
            (Logs-if _
              (sleep-Logs env config F stable (Framed F) _ (λ es c. (stable _ es c.0, c.1)))
              (Logs-pure _ _ _ tt (λ es c. c)))
            (λ _. not_lost-Logs a)

  settle_park-Logs :
      (a : Arrival) (answer : Option Thrown) → Quiet F (settle_park env config a answer)
  unfolding settle_park
  settle_park-Logs a (some failure) = wait_in_delivery-Logs a
  settle_park-Logs a none =
      Logs-bind (λ _. Framed F) (Logs-modify (Framed F) _ _ (λ w. refl))
        λ _.
          Logs-bind (λ _. Framed F) (Logs-tell _ _ _ _ (λ es c. (stable _ es c.0, c.1)))
            (λ _. Logs-pure _ _ _ false (λ es c. c))

  wait_paused-Logs : (a : Arrival) (busy : Bool) → Quiet F (wait_paused env config a busy)
  unfolding wait_paused wait_behind park
  wait_paused-Logs a true =
      Logs-bind (λ _. Framed F) (Logs-await_other (Framed F) env _)
        λ _.
          Logs-bind (λ _. Framed F) (not_lost-Logs a)
            (λ here. Logs-if here (wait_in_delivery-Logs a) (Logs-pure _ _ _ false (λ es c. c)))
  wait_paused-Logs a false =
      Logs-bind (λ _. Framed F) (Logs-ask (Framed F) _ _) (settle_park-Logs a)

  wait_with-Logs : (a : Arrival) (handle : Option Handle) → Quiet F (wait_with env config a handle)
  unfolding wait_with
  wait_with-Logs a none = wait_in_delivery-Logs a
  wait_with-Logs a (some handle) =
      Logs-if handle.can_pause
        (Logs-bind (λ _. Framed F) (Logs-gets (Framed F) _ _) (wait_paused-Logs a))
        (wait_in_delivery-Logs a)

  wait_until_due-Logs : (a : Arrival) (due : Bool) → Quiet F (wait_until_due env config a due)
  unfolding wait_until_due
  wait_until_due-Logs a true = not_lost-Logs a
  wait_until_due-Logs a false =
      Logs-bind (λ _. Framed F) (Logs-ask (Framed F) _ _)
        λ now.
          Logs-if _ (Logs-bind (λ _. Framed F) (Logs-gets (Framed F) _ _) (wait_with-Logs a))
            (not_lost-Logs a)

  module _ (plain : RefusesPlainly env) where
    dispatch-Logs :
        (a : Arrival) (subscription : Subscription) (run : Run)
        → Quiet F (dispatch env config a subscription run)
    unfolding dispatch
    dispatch-Logs a subscription each =
        handle_each-Logs env config F stable (pending_of a) subscription a.route.level
    dispatch-Logs a subscription (batch size max_wait) =
        collect-Logs env config plain F stable (pending_of a) subscription size a.route.level

    when_due-Logs :
        (a : Arrival) (subscription : Subscription) (here : Bool)
        → Quiet F (when_due env config a subscription here)
    unfolding when_due
    when_due-Logs a subscription true = dispatch-Logs a subscription subscription.run
    when_due-Logs a subscription false = Logs-pure _ _ _ tt (λ es c. c)

    owned-Logs :
        (a : Arrival) (due : Bool) (owner : Option Subscription)
        → Quiet F (owned env config a due owner)
    unfolding owned dead_letter_unroutable
    owned-Logs a due none = dead_letter_to_shared-Logs a _
    owned-Logs a due (some subscription) =
        Logs-bind (λ _. Framed F) (wait_until_due-Logs a due)
          (λ here. when_due-Logs a subscription here)

    routed-Logs :
        (raw : RawMessage) (due : Bool) (route : Option Route)
        → Quiet F (routed env config raw due route)
    unfolding routed
    routed-Logs raw due none = Logs-throw _ _ _ _ (λ es c. c)
    routed-Logs raw due (some route) =
        Logs-bind (λ _. Framed F) (Logs-ask (Framed F) _ _)
          λ received_at.
            Logs-bind (λ _. Framed F) (Logs-gets (Framed F) _ _) (λ revocation. owned-Logs _ due _)

    process-Logs : (raw : RawMessage) (due : Bool) → Quiet F (process env config raw due)
    unfolding process
    process-Logs raw due =
        Logs-bind (λ _. Framed F) (Logs-gets (Framed F) _ _)
          λ up. Logs-if up (routed-Logs raw due _) (Logs-pure _ _ _ tt (λ es c. c))

    receive-Logs : (raw : RawMessage) (due : Bool) → Quiet F (receive env config raw due)
    unfolding receive
    receive-Logs raw due =
        Logs-catch (Framed F) (process-Logs raw due)
          (λ thrown. crash_on-Logs env config F stable thrown raw)

-- Where a breaker that does not let a handler run rejects with no BatchFailedError, a delivery, alone
-- or in a batch, whatever it does and whatever the broker, the handler, the breaker and the rest of
-- the process answer meanwhile, leaves a log in which every commit is of the offset after a message
-- that was handled, or forwarded and acknowledged, before that commit, if the log was such a one.
pub receive-CommitsBacked :
    (env : Env) (config : Config)
    → RefusesPlainly env
    → (raw : RawMessage) (due : Bool) (w : World) → CommitsBacked w.effects
    → CommitsBacked (receive env config raw due w).1.effects
receive-CommitsBacked env config plain raw due w backed =
    (forget_result (Framed (λ es. Unit {0})) _ _
      ((receive-Logs env config (λ es. Unit {0}) (λ e es u. tt) plain raw due).at w (tt, backed))).1

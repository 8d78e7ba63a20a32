-- ===== src/Consumer/Handle/Hold.antt =====
-- The hold of a delivery by a circuit breaker (`guarded` of src/consumer.ts) comes to an end.
use kafka_harbor.Prelude.{
  ℕ, zero, suc, ◌+◌, ◌≤◌, ◌<◌, ◌≡◌, refl, subst, sym, Bool, false, Option, none, some, or_else, leb,
  arith,
}
use kafka_harbor.Errors.{Thrown, is_circuit_rejection}
use kafka_harbor.Result.{Result, ok, err}
use kafka_harbor.Consumer.{Breaker, Pending}
use kafka_harbor.Consumer.World.{Env, Config, Message}
use kafka_harbor.Consumer.Action.{Action}
use kafka_harbor.Consumer.Action.Steps.{
  Steps, Steps-pure, Steps-gets, Steps-ask, Steps-await, Steps-await_other, Steps-tell, Steps-bind,
  Steps-if,
}
use kafka_harbor.Consumer.Handle.{
  Ran, finished, failed, held, gave_up, undecided, released, sleep, after_poll, poll, hold,
  admitted, guarded, note_run, run_handler, hold_deadline, run_guarded,
}

-- The rounds did not run out.
abbrev pub IsDecided : Ran → ℕ → Type 0
IsDecided undecided n = ⊥
IsDecided (finished replayed) n = Unit {0}
IsDecided (failed thrown) n = Unit {0}
IsDecided held n = Unit {0}
IsDecided gave_up n = Unit {0}

late : (deadline now : ℕ) → leb deadline now ≡ false → now < deadline
late deadline now h = ground arith

hold_deadline-le :
    (env : Env) (config : Config) (breaker : Breaker) (received_at now : ℕ)
    → hold_deadline env config breaker received_at now ≤ received_at + config.max_processing_time_ms
unfolding hold_deadline
hold_deadline-le env config breaker received_at now = ground arith

module _ (env : Env) (config : Config) (breaker : Breaker) (deadline : ℕ) (item : Pending) where
  poll-IsDecided :
      (n since now : ℕ) (rejection : Thrown) (again : Action Ran)
      → (now < deadline → Steps (suc n) again IsDecided)
      → Steps n (poll env config breaker deadline since now item rejection again) IsDecided
  unfolding poll sleep after_poll released
  poll-IsDecided n since now rejection again next =
      Steps-if (leb deadline now) (λ h. Steps-pure _ _ tt)
        λ h.
          Steps-bind (λ u k. k ≡ suc n)
            (Steps-bind (λ u k. k ≡ suc n) (Steps-await_other _ env refl)
              (λ u k at. Steps-tell _ _ at))
            λ u k at.
              Steps-bind (λ gone k. k ≡ suc n) (Steps-gets _ _ (λ gone. at))
                λ gone k' at'.
                  Steps-if gone (λ h'. Steps-pure _ _ tt)
                    (λ h'.
                      subst (λ j. Steps j again IsDecided) (sym at') (next (late deadline now h)))

  hold-IsDecided :
      (n : ℕ) (since : Option ℕ) (rejection : Thrown) (again : ℕ → Action Ran)
      → ((t : ℕ) → env.clock n < deadline → Steps (suc (suc n)) (again t) IsDecided)
      → Steps n (hold env config breaker deadline since item rejection again) IsDecided
  unfolding hold released
  hold-IsDecided n since rejection again next =
      Steps-bind (λ now k. (now ≡ env.clock n) × (k ≡ suc n)) (Steps-ask _ _ (refl, refl))
        λ now k (read, at).
          Steps-bind (λ gone k. k ≡ suc n) (Steps-gets _ _ (λ gone. at))
            λ gone k' at'.
              Steps-if gone (λ h. Steps-pure _ _ tt)
                λ h.
                  subst
                    (λ j.
                      Steps j
                        (poll env config breaker deadline (or_else since now) now item rejection
                          (again (or_else since now)))
                        IsDecided)
                    (sym at')
                    (poll-IsDecided (suc n) (or_else since now) now rejection
                      (again (or_else since now))
                      (λ early. next (or_else since now) (subst (λ j. j < deadline) read early)))

  admitted-IsDecided :
      (n : ℕ) (since : Option ℕ) (run : Action Ran) (again : ℕ → Action Ran)
      (answer : Option Thrown)
      → Steps n run IsDecided
      → ((t : ℕ) → env.clock n < deadline → Steps (suc (suc n)) (again t) IsDecided)
      → Steps n (admitted env config breaker deadline since item run again answer) IsDecided
  unfolding admitted
  admitted-IsDecided n since run again none runs next = runs
  admitted-IsDecided n since run again (some rejection) runs next =
      Steps-if (is_circuit_rejection rejection) (λ h. hold-IsDecided n since rejection again next)
        (λ h. Steps-pure _ _ tt)

module _ (env : Env) (config : Config) (forward : (n : ℕ) → env.clock n < env.clock (suc n)) where
  guarded-IsDecided :
      (rounds n : ℕ) (breaker : Breaker) (deadline : ℕ) (since : Option ℕ) (item : Pending)
      (run : Action Ran)
      → ((k : ℕ) → Steps k run IsDecided)
      → deadline < env.clock n + rounds
      → 1 ≤ rounds
      → Steps n (guarded env config rounds breaker deadline since item run) IsDecided
  unfolding guarded
  guarded-IsDecided zero n breaker deadline since item run runs enough one = absurd (omega arith)
  guarded-IsDecided (suc rounds) n breaker deadline since item run runs enough one =
      Steps-bind (λ answer k. k ≡ suc n) (Steps-await _ env _ refl)
        λ answer k at.
          subst
            (λ j.
              Steps j
                (admitted env config breaker deadline since item run
                  (λ held_since.
                    guarded env config rounds breaker deadline (some held_since) item run)
                  answer)
                IsDecided)
            (sym at)
            (admitted-IsDecided env config breaker deadline item (suc n) since run _ answer
              (runs (suc n))
              λ t early.
                guarded-IsDecided rounds (suc (suc (suc n))) breaker deadline (some t) item run runs
                  (omega (arith, forward n, forward (suc n), forward (suc (suc n))))
                  (omega (arith, forward n, forward (suc n), forward (suc (suc n)))))

  note_run-IsDecided :
      (n : ℕ) (item : Pending) (answer : Result Bool)
      → Steps n (note_run env config item.raw answer) IsDecided
  unfolding note_run
  note_run-IsDecided n item (ok replayed) =
      Steps-bind (λ u k. Unit {0}) (Steps-tell _ _ tt) (λ u k at. Steps-pure _ _ tt)
  note_run-IsDecided n item (err thrown) =
      Steps-bind (λ u k. Unit {0}) (Steps-tell _ _ tt) (λ u k at. Steps-pure _ _ tt)

  run_handler-IsDecided :
      (n : ℕ) (item : Pending) (message : Message)
      → Steps n (run_handler env config item message) IsDecided
  unfolding run_handler
  run_handler-IsDecided n item message =
      Steps-bind (λ answer k. Unit {0}) (Steps-await _ env _ tt)
        (λ answer k at. note_run-IsDecided k item answer)

  -- A guarded handler ends with a verdict, or is let go: with a clock that moves from each question
  -- to the next, a message received no later than now, and more rounds than `maxProcessingTime` has
  -- milliseconds, the rounds of a hold never run out, whatever the breaker, the handler and the rest
  -- of the process do.
  pub run_guarded-IsDecided :
      (n : ℕ) (breaker : Option Breaker) (item : Pending) (message : Message)
      → item.received_at ≤ env.clock n
      → config.max_processing_time_ms < config.hold_rounds
      → Steps n
          (run_guarded env config breaker item (run_handler env config item message))
          IsDecided
  unfolding run_guarded
  run_guarded-IsDecided n none item message past enough = run_handler-IsDecided n item message
  run_guarded-IsDecided n (some breaker) item message past enough =
      Steps-bind (λ now k. (now ≡ env.clock n) × (k ≡ suc n)) (Steps-ask _ _ (refl, refl))
        λ now k (read, at).
          subst
            (λ j.
              Steps j
                (guarded env config config.hold_rounds breaker
                  (hold_deadline env config breaker item.received_at now) none item
                  (run_handler env config item message))
                IsDecided)
            (sym at)
            (guarded-IsDecided config.hold_rounds (suc n) breaker
              (hold_deadline env config breaker item.received_at now) none item
              (run_handler env config item message) (λ j. run_handler-IsDecided j item message)
              (omega (arith, forward n, hold_deadline-le env config breaker item.received_at now))
              (omega arith))

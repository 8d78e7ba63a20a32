-- ===== src/Instrumentation.antt =====
-- `wrapped` and `observe` of src/instrumentation.ts: instrumentation around work that has effects on
-- a state.
use kafka_harbor.Prelude.{ℕ, zero, suc, Option, none, some}
use kafka_harbor.Errors.{Thrown}
use kafka_harbor.Result.{Result, ok, err}

-- What a wrapper does: how often it calls `run` before it settles, and what it throws.
pub record Wrapper : Type 0 where
  pub calls : ℕ
  pub failure : Option Thrown

module _ {ℓ κ} {A : Type ℓ} {S : Type κ} (work : S → Result A × S) where
  -- `run`: the first call starts the work, each later one gets the same outcome.
  run : Option (Result A) × S → Option (Result A) × S
  run (some outcome, s) = (some outcome, s)
  run (none, s) = let (outcome, s') = work s in (some outcome, s')

  run_times : ℕ → Option (Result A) × S → Option (Result A) × S
  unfolding run
  run_times zero memo = memo
  run_times (suc n) memo = run_times n (run memo)

  -- Work that the wrapper left out runs now.
  settle_work : Option (Result A) × S → Result A × S
  settle_work (some outcome, s) = (outcome, s)
  settle_work (none, s) = work s

  -- `wrapped`
  unfoldable pub wrapped : Option Wrapper → S → Result A × S
  unfolding run_times settle_work
  wrapped none s = work s
  wrapped (some wrapper) s = settle_work (run_times wrapper.calls (none, s))

-- `observe`
unfoldable pub observe {ℓ} : {A : Type ℓ} → Result A → Option A
observe (ok a) = some a
observe (err e) = none

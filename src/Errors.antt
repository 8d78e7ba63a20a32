-- ===== src/Errors.antt =====
-- src/errors.ts: the error taxonomy, the type guards and `describeError`; `fencedIn` and `failureOf`
-- of src/consumer.ts.
mod Code
pub mod Cause
pub mod Describe
use kafka_harbor.Prelude.{
  ℕ, ◌≡◌, refl, Bool, true, false, not, ◌&&◌, ◌||◌, Option, none, some, List, [], ◌∷◌, arith, Text,
  codes, text_eq, text_eq_iff, any, inl, inr, Option-cases, ◌==◌, if◌then◌else◌, ◌++◌, show,
}
use Code

-- A message that a batch handler's failure names.
pub record MessageRef : Type 0 where
  pub topic : Text
  pub partition : ℕ
  pub offset : Text

-- What the library reads of a thrown object. A `code` that is no text and a `retryable` that is no
-- Boolean are left out; `failed` is there when the property is an array.
pub record Fields : Type 0 where
  pub identity : ℕ
  pub code : Option Text
  pub retryable : Option Bool
  pub failed : Option (List MessageRef)
  -- `name` and `message`, of an instance of `Error`
  pub error : Option (Text × Text)
  -- what `JSON.stringify`, or else `String`, makes of any other object
  pub encoded : Text

-- What JavaScript code can throw: `undefined`, `null`, another primitive with the text that stands
-- for it, or an object with its `cause`. A chain of causes that closes a cycle is unrolled up to the first
-- object that it meets again.
pub data Thrown : Type 0 where
  undefined : Thrown
  null_thrown : Thrown
  primitive : Text → Thrown
  object : Fields → Thrown → Thrown

-- `typeof error === 'object' && error !== null && typeof error.retryable === 'boolean'`
is_shaped : Thrown → Bool
is_shaped undefined = false
is_shaped null_thrown = false
is_shaped (primitive s) = false
is_shaped (object f cause) = elim f.retryable [ none ↦ false | some r ↦ true ]

code_is : Fields → Text → Bool
code_is f code = elim f.code [ none ↦ false | some c ↦ text_eq c code ]

code_is_unique : (f : Fields) (c d : Text) → code_is f c ≡ true → code_is f d ≡ true → c ≡ d
unfolding code_is
code_is_unique f c d h k = elim (Option-cases f.code) [
  | inl e ↦ ground arith
  | inr (code, e) ↦ ground (arith, text_eq_iff code c, text_eq_iff code d)
]

pub has_code : Thrown → Text → Bool
unfolding is_shaped code_is
has_code undefined code = false
has_code null_thrown code = false
has_code (primitive s) code = false
has_code (object f cause) code = is_shaped (object f cause) && code_is f code

abbrev error_codes : List Text
error_codes =
    Code.config_invalid ∷ Code.serialization ∷ Code.abort_processing ∷ Code.topic_missing
    ∷ Code.adapter ∷ Code.closed ∷ Code.shutdown_timeout ∷ Code.batch_failed ∷ Code.hold_expired
    ∷ Code.fenced ∷ []

-- `isHarborError`
unfoldable pub is_harbor_error : Thrown → Bool
unfolding is_shaped code_is
is_harbor_error undefined = false
is_harbor_error null_thrown = false
is_harbor_error (primitive s) = false
is_harbor_error (object f cause) = is_shaped (object f cause) && any (code_is f) error_codes

unfoldable pub is_config_error : Thrown → Bool
unfolding has_code
is_config_error error = has_code error Code.config_invalid

unfoldable pub is_abort_processing_error : Thrown → Bool
unfolding has_code
is_abort_processing_error error = has_code error Code.abort_processing

unfoldable pub is_serialization_error : Thrown → Bool
unfolding has_code
is_serialization_error error = has_code error Code.serialization

unfoldable pub is_closed_error : Thrown → Bool
unfolding has_code
is_closed_error error = has_code error Code.closed

unfoldable pub is_hold_expired_error : Thrown → Bool
unfolding has_code
is_hold_expired_error error = has_code error Code.hold_expired

unfoldable pub is_fenced_error : Thrown → Bool
unfolding has_code
is_fenced_error error = has_code error Code.fenced

failed_of : Thrown → Option (List MessageRef)
failed_of (object f cause) = f.failed
failed_of _ = none

-- `isBatchFailedError`, with the array that it narrows the error to.
unfoldable pub batch_failed_error : Thrown → Option (List MessageRef)
unfolding has_code failed_of
batch_failed_error error = if has_code error Code.batch_failed then failed_of error else none

unfoldable pub is_batch_failed_error : Thrown → Bool
unfolding batch_failed_error
is_batch_failed_error error = elim (batch_failed_error error) [ none ↦ false | some ms ↦ true ]

-- Every error is retried unless it says `retryable: false`.
unfoldable pub is_retryable : Thrown → Bool
is_retryable undefined = true
is_retryable null_thrown = true
is_retryable (primitive s) = true
is_retryable (object f cause) = elim f.retryable [ none ↦ true | some r ↦ r ]

-- Whether an error says `retryable: true` in so many words.
unfoldable pub is_declared_retryable : Thrown → Bool
is_declared_retryable undefined = false
is_declared_retryable null_thrown = false
is_declared_retryable (primitive s) = false
is_declared_retryable (object f cause) = elim f.retryable [ none ↦ false | some r ↦ r ]

-- `isCircuitRejection` of src/breaker.ts: breakwater's codes for a function that was not run.
unfoldable pub is_circuit_rejection : Thrown → Bool
unfolding code_is
is_circuit_rejection undefined = false
is_circuit_rejection null_thrown = false
is_circuit_rejection (primitive s) = false
is_circuit_rejection (object f cause) =
    code_is f Code.circuit_open || code_is f Code.circuit_isolated

-- `defaultFailureIf` of src/breaker.ts
unfoldable pub default_failure_if : Thrown → Bool
default_failure_if error = is_retryable error && not (is_batch_failed_error error)

-- `error.cause`
unfoldable pub cause_of : Thrown → Thrown
cause_of undefined = undefined
cause_of null_thrown = undefined
cause_of (primitive s) = undefined
cause_of (object f cause) = cause

-- `new HarborError(code, message, { cause, retryable })`; the identity is that of the new object.
unfoldable pub harbor_error : ℕ → Text → Text → Text → Option Bool → Thrown → Thrown
harbor_error identity name code message retryable cause =
    object
      (record {
        identity = identity;
        code = some code;
        retryable = some (elim retryable [ none ↦ true | some r ↦ r ]);
        failed = none;
        error = some (name, message);
        encoded = [];
      })
      cause

unfoldable pub config_error : ℕ → Text → Thrown
unfolding harbor_error
config_error identity message =
    harbor_error identity (codes "ConfigError") Code.config_invalid message (some false) undefined

unfoldable pub serialization_error : ℕ → Text → Thrown → Thrown
unfolding harbor_error
serialization_error identity message cause =
    harbor_error identity (codes "SerializationError") Code.serialization message (some false) cause

unfoldable pub hold_expired_error : ℕ → Text → Thrown → Thrown
unfolding harbor_error
hold_expired_error identity message cause =
    harbor_error identity (codes "HoldExpiredError") Code.hold_expired message (some true) cause

unfoldable pub fenced_error : ℕ → Text → Thrown → Thrown
unfolding harbor_error
fenced_error identity message cause =
    harbor_error identity (codes "FencedError") Code.fenced message (some false) cause

unfoldable pub abort_processing_error : ℕ → Thrown → Thrown
unfolding harbor_error
abort_processing_error identity cause =
    harbor_error identity (codes "AbortProcessingError") Code.abort_processing
      (codes "handler aborted processing; the offset was not committed") (some false) cause

unfoldable pub adapter_error : ℕ → Text → Option Bool → Thrown
unfolding harbor_error
adapter_error identity message retryable =
    harbor_error identity (codes "AdapterError") Code.adapter message retryable undefined

unfoldable pub topic_missing_error : ℕ → Text → Thrown
unfolding harbor_error
topic_missing_error identity topic =
    harbor_error identity (codes "TopicMissingError") Code.topic_missing
      (codes "topic \"" ++ topic ++ codes "\" does not exist; create it or enable autoCreateTopics")
      (some false) undefined

unfoldable pub shutdown_timeout_error : ℕ → ℕ → ℕ → Thrown
unfolding harbor_error
shutdown_timeout_error identity in_flight timeout_ms =
    harbor_error identity (codes "ShutdownTimeoutError") Code.shutdown_timeout
      (show in_flight
        ++ codes " handler(s) still running after "
        ++ show timeout_ms
        ++ codes "ms; their offsets were not committed")
      none undefined

unfoldable pub closed_error : ℕ → Text → Thrown
unfolding harbor_error
closed_error identity what =
    harbor_error identity (codes "ClosedError") Code.closed (what ++ codes " is closed")
      (some false) undefined

-- `failureOf`: a handler that throws `undefined` gets an error of its own.
unfoldable pub failure_of : ℕ → Thrown → Thrown
failure_of identity undefined =
    object
      (record {
        identity = identity;
        code = none;
        retryable = none;
        failed = none;
        error =
            some (codes "Error", codes "the handler failed without a reason: it threw undefined");
        encoded = [];
      })
      undefined
failure_of identity null_thrown = null_thrown
failure_of identity (primitive s) = primitive s
failure_of identity (object f cause) = object f cause

-- Each code has one guard: an error that carries two codes carries one.
pub has_code_unique :
    (error : Thrown) (c d : Text) → has_code error c ≡ true → has_code error d ≡ true → c ≡ d
unfolding has_code
has_code_unique undefined c d h k = cc
has_code_unique null_thrown c d h k = cc
has_code_unique (primitive s) c d h k = cc
has_code_unique (object f cause) c d h k = code_is_unique f c d (ground arith) (ground arith)

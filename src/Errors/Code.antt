-- ===== src/Errors/Code.antt =====
-- The codes of src/errors.ts (`ERROR_CODES`), and the two of breakwater that src/breaker.ts names.
use kafka_harbor.Prelude.{Text, codes}

abbrev pub config_invalid : Text
config_invalid = codes "CONFIG_INVALID"

abbrev pub serialization : Text
serialization = codes "SERIALIZATION"

abbrev pub abort_processing : Text
abort_processing = codes "ABORT_PROCESSING"

abbrev pub topic_missing : Text
topic_missing = codes "TOPIC_MISSING"

abbrev pub adapter : Text
adapter = codes "ADAPTER"

abbrev pub closed : Text
closed = codes "CLOSED"

abbrev pub shutdown_timeout : Text
shutdown_timeout = codes "SHUTDOWN_TIMEOUT"

abbrev pub batch_failed : Text
batch_failed = codes "BATCH_FAILED"

abbrev pub hold_expired : Text
hold_expired = codes "HOLD_EXPIRED"

abbrev pub fenced : Text
fenced = codes "FENCED"

abbrev pub circuit_open : Text
circuit_open = codes "CIRCUIT_OPEN"

abbrev pub circuit_isolated : Text
circuit_isolated = codes "CIRCUIT_ISOLATED"

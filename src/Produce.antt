-- ===== src/Produce.antt =====
-- src/produce.ts: what a record carries when it leaves, the hooks of the instrumentation included.
pub mod Hop
use kafka_harbor.Prelude.{
  ℕ, Bool, true, false, not, ◌&&◌, Option, none, some, List, [], ◌∷◌, ◌++◌, map, Text, or_else,
  Dict, insert_all, filter_keys, if◌then◌else◌,
}
use kafka_harbor.Headers.{Platform, HeaderNames, MessageHeaders, stamp_producer}
use kafka_harbor.Topics.{member}
use kafka_harbor.Adapter.{RawMessage, RawRecord}

-- `ProduceKind`
pub data Kind : Type 0 where
  send retry dead_letter redrive transaction : Kind

-- A value of a header that a hook returns: a text, or anything else.
pub data HookValue : Type 0 where
  text : Text → HookValue
  other : HookValue

-- `Instrumentation`, as far as it decides headers: `onProduce`, with `none` for a hook that throws
-- or returns nothing, and `propagationFields`, read once for a produce call.
pub record Hooks : Type 0 where
  pub on_produce : Option (RawRecord → Option (Dict HookValue))
  pub propagation_fields : Option (List Text)

-- `textOnly`
unfoldable pub text_only : Dict HookValue → MessageHeaders
text_only [] = []
text_only ((name, text value) ∷ headers) = (name, value) ∷ text_only headers
text_only ((name, other) ∷ headers) = text_only headers

-- `Object.values(context.headerNames)`
unfoldable pub tracking_names : HeaderNames → List Text
tracking_names names =
    names.prefix ∷ names.correlation_id ∷ names.produced_at ∷ names.producer ∷ names.retry_count
    ∷ names.original_topic ∷ names.first_failure_at ∷ names.last_error ∷ names.dead_lettered_at
    ∷ names.redriven_from ∷ names.redriven_at ∷ []

-- Whether a header of a forwarded message is the hook's to write; `hop` says that the batch has an
-- origin.
unfoldable pub is_owned : Hooks → HeaderNames → Bool → Text → Bool
is_owned hooks names hop name =
    hop
    && (member name (or_else hooks.propagation_fields [])
        && not (member name (tracking_names names)))

-- One record of `produceRecords`: the copied headers win over the hook's, but for those it owns.
unfoldable pub with_hook :
    Hooks
    → HeaderNames
    → Bool
    → RawRecord
    → Option (RawRecord → Option (Dict HookValue))
    → RawRecord
with_hook hooks names hop sent none = sent
with_hook hooks names hop sent (some hook) = record sent {
  headers =
      insert_all (filter_keys (λ name. not (is_owned hooks names hop name)) sent.headers)
        (text_only (or_else (hook sent) []));
}

unfoldable pub outgoing : Hooks → HeaderNames → Bool → RawRecord → RawRecord
unfolding with_hook
outgoing hooks names hop sent = with_hook hooks names hop sent hooks.on_produce

-- The record of `produceHop`: the original bytes under stamped headers.
unfoldable pub hop_record :
    Platform → HeaderNames → Text → RawMessage → Text → MessageHeaders → ℕ → Text → RawRecord
hop_record platform names client_id raw topic headers at minted = record {
  topic = topic;
  key = raw.key;
  value = raw.value;
  headers = stamp_producer platform headers names client_id at minted;
  partition = none;
}

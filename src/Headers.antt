-- ===== src/Headers.antt =====
-- src/headers.ts: the names of the headers that the library writes, what a hop reads of them and
-- what it writes for the next one.
pub mod Tracking
use kafka_harbor.Prelude.{
  ℕ, ◌+◌, Bool, true, false, not, ◌&&◌, Option, none, some, List, [], ◌∷◌, ◌++◌, Text, codes, trim,
  is_decimal, decimal_value, show, length, leb, ltb, or_else, Dict, lookup, insert, if◌then◌else◌,
}

-- A header as the wire carries it: bytes, a text, or the values of a repeated key.
pub data Wire : Type 0 where
  bytes : List ℕ → Wire
  text : Text → Wire

pub data RawHeader : Type 0 where
  one : Wire → RawHeader
  many : List Wire → RawHeader
  absent : RawHeader

abbrev pub RawHeaders : Type 0
RawHeaders = Dict RawHeader

abbrev pub MessageHeaders : Type 0
MessageHeaders = Dict Text

pub record HeaderNames : Type 0 where
  pub prefix : Text
  pub correlation_id : Text
  pub produced_at : Text
  pub producer : Text
  pub retry_count : Text
  pub original_topic : Text
  pub first_failure_at : Text
  pub last_error : Text
  pub dead_lettered_at : Text
  pub redriven_from : Text
  pub redriven_at : Text

-- `headerNames`
unfoldable pub header_names : Text → HeaderNames
header_names prefix = record {
  prefix = prefix;
  correlation_id = prefix ++ codes "correlation-id";
  produced_at = prefix ++ codes "produced-at";
  producer = prefix ++ codes "producer";
  retry_count = prefix ++ codes "retry-count";
  original_topic = prefix ++ codes "original-topic";
  first_failure_at = prefix ++ codes "first-failure-at";
  last_error = prefix ++ codes "last-error";
  dead_lettered_at = prefix ++ codes "dead-lettered-at";
  redriven_from = prefix ++ codes "redriven-from";
  redriven_at = prefix ++ codes "redriven-at";
}

-- What the platform gives: Node's UTF-8 decoder, and the instants of `Date` as milliseconds since
-- the epoch (`new Date(text).getTime()`, `none` for an invalid date, and `toISOString`).
pub record Platform : Type 0 where
  pub utf8 : List ℕ → Text
  pub parse_date : Text → Option ℕ
  pub to_iso : ℕ → Text

pub record RetryInfo : Type 0 where
  pub count : ℕ
  pub original_topic : Text
  pub first_failure_at : ℕ
  pub last_error : Text

last_of : List Wire → Option Wire
last_of [] = none
last_of (w ∷ []) = some w
last_of (w ∷ v ∷ ws) = last_of (v ∷ ws)

last_value : RawHeader → Option Wire
unfolding last_of
last_value (one w) = some w
last_value (many ws) = last_of ws
last_value absent = none

unfoldable pub non_blank : Option Text → Option Text
non_blank none = none
non_blank (some value) = elim (trim value) [ [] ↦ none | c ∷ s ↦ some value ]

-- `/^\d{1,9}$/`, on the trimmed text
unfoldable pub parse_count : Option Text → Option ℕ
parse_count value =
    let text = trim (or_else value []) in
    if is_decimal text && leb (length text) 9 then some (decimal_value text) else none

module _ (platform : Platform) where
  wire_text : Wire → Text
  wire_text (bytes b) = platform.utf8 b
  wire_text (text s) = s

  add_header : Text → Option Wire → MessageHeaders → MessageHeaders
  unfolding wire_text
  add_header name none headers = headers
  add_header name (some w) headers = insert name (wire_text w) headers

  decode_into : MessageHeaders → RawHeaders → MessageHeaders
  unfolding add_header last_value
  decode_into headers [] = headers
  decode_into headers ((name, value) ∷ raw) =
      decode_into (add_header name (last_value value) headers) raw

  -- `decodeHeaders`
  unfoldable pub decode_headers : RawHeaders → MessageHeaders
  unfolding decode_into
  decode_headers raw = decode_into [] raw

  unfoldable pub parse_instant : Option Text → Option ℕ
  parse_instant value = elim (non_blank value) [ none ↦ none | some s ↦ platform.parse_date s ]

  -- the validated block, once each field was read
  unfoldable pub checked_info : Option ℕ → Option Text → Option ℕ → Text → Option RetryInfo
  checked_info (some count) (some topic) (some at) error =
      if ltb count 1
      then none
      else some (record {
        count = count;
        original_topic = topic;
        first_failure_at = at;
        last_error = error;
      })
  checked_info _ _ _ error = none

  -- `readRetryInfo`
  unfoldable pub read_retry_info : MessageHeaders → HeaderNames → Option RetryInfo
  read_retry_info headers names =
      checked_info (parse_count (lookup names.retry_count headers))
        (non_blank (lookup names.original_topic headers))
        (parse_instant (lookup names.first_failure_at headers))
        (or_else (lookup names.last_error headers) [])

  -- `stampProducer`; the correlation id to mint is an argument
  unfoldable pub stamp_producer : MessageHeaders → HeaderNames → Text → ℕ → Text → MessageHeaders
  stamp_producer headers names client_id at minted =
      let kept = or_else (non_blank (lookup names.correlation_id headers)) minted in
      insert names.producer client_id
        (insert names.produced_at (platform.to_iso at) (insert names.correlation_id kept headers))

  -- `writeRetryInfo`
  unfoldable pub write_retry_info :
      MessageHeaders → HeaderNames → Option RetryInfo → Text → Text → ℕ → MessageHeaders
  write_retry_info headers names previous original_topic error now =
      let count : ℕ = elim previous [ none ↦ 1 | some r ↦ r.count + 1 ] in
      let first : ℕ = elim previous [ none ↦ now | some r ↦ r.first_failure_at ] in
      let topic : Text = elim previous [ none ↦ original_topic | some r ↦ r.original_topic ] in
      insert names.last_error error (
        insert names.first_failure_at (platform.to_iso first)
          (insert names.original_topic topic (insert names.retry_count (show count) headers)))

-- ===== src/Examples.antt =====
-- Runs of the library on concrete values: a platform, a consumer of one topic with one retry level
-- and a DLQ, deliveries to it, and a broker in memory.
mod Records
mod Deliveries
mod Consumers
mod Gates
mod Groups
mod Durations
mod Lives
mod Sends
use kafka_harbor.Prelude.{
  ℕ, ◌+◌, ◌≡◌, refl, ap, ◌∙◌, Bool, true, false, Option, none, some, List, [], ◌∷◌, ◌++◌, Text,
  codes, show, trim-show, decimal_value, decimal_value-show, length, length-show-pos, arith, Dict,
  lookup, if◌then◌else◌,
}
use kafka_harbor.Errors.{Thrown, undefined, object}
use kafka_harbor.Headers.{Platform, HeaderNames, header_names, MessageHeaders, RetryInfo, non_blank}
use kafka_harbor.Headers.Tracking.{IsPlatform}
use kafka_harbor.Result.{Result, ok, err}
use kafka_harbor.Adapter.{RawMessage, RawRecord}
use kafka_harbor.Topics.{TopicPlan}
use kafka_harbor.Produce.{Hooks}
use kafka_harbor.Consumer.{Run, each, Subscription, Breaker, Route, Routes, Pending}
use kafka_harbor.Consumer.World.{World, running, Env, Config, Message}

abbrev pub platform : Platform
platform = record {
  utf8 = λ b. b;
  parse_date = λ t. some (decimal_value t);
  to_iso = λ at. show at;
}

pub platform-IsPlatform : IsPlatform platform
platform-IsPlatform = record {
  parse-to_iso = λ at. ap some (decimal_value-show at);
  iso_not_blank = λ at. unfold non_blank in ground (arith, trim-show at, length-show-pos at);
}

abbrev pub names : HeaderNames
names = header_names (codes "x-")

abbrev pub hooks : Hooks
hooks = record { on_produce = none; propagation_fields = none }

abbrev pub plan : TopicPlan
plan = record {
  original = codes "orders";
  retry_topics = codes "orders-retry-1" ∷ [];
  dlq_topic = some (codes "orders-dlq");
}

abbrev pub breaker : Breaker
breaker = record { topic = codes "orders"; hold_ms = some 200 }

abbrev pub subscription : Subscription
subscription = record { plan = plan; run = each; idempotency = false; breaker = some breaker }

abbrev pub orders : Route
orders = record { owners = (codes "orders", subscription) ∷ []; level = 0; delay_ms = 0 }

abbrev pub routes : Routes
routes = (codes "orders", orders) ∷ []

abbrev pub config : Config
config = record {
  platform = platform;
  names = names;
  hooks = hooks;
  client_id = codes "shop";
  group_id = codes "billing";
  max_processing_time_ms = 300;
  hold_rounds = 400;
  routes = routes;
}

-- Everything succeeds but the handler.
abbrev pub env : Env
env = record {
  clock = λ n. 1000 + n;
  outside = λ n. [];
  produce = λ n sent. none;
  commit = λ n o. none;
  pause = λ n key. none;
  deserialize = λ n bytes topic. ok 7;
  handle = λ n m attempt. err undefined;
  handle_batch = λ n ms. none;
  admit = λ n topic. none;
  retry_if = λ n e topic attempt. ok true;
  correlation_id = λ n. codes "id";
}

abbrev pub world : World
world = record {
  state = running;
  stop_reason = none;
  stop_begun = false;
  draining = false;
  abandoned = false;
  revocations = [];
  handles = [];
  parked = [];
  batches = [];
  running_batches = [];
  effects = [];
  step = 0;
}

abbrev pub raw : RawMessage
raw = record {
  topic = codes "orders";
  partition = 2;
  offset = codes "41";
  key = some (codes "k");
  value = some (codes "v");
  headers = [];
  timestamp = 900;
}

abbrev pub item : Pending
item = record {
  raw = raw;
  headers = [];
  retry = none;
  attempt = 1;
  correlation_id = none;
  received_at = 950;
  revocation = none;
}

-- ===== src/Redrive.antt =====
-- src/redrive.ts: a dead-letter topic drained back into service, one message after the other, on
-- the actions of the consumer.
pub mod Drain
use kafka_harbor.Prelude.{
  ℕ, suc, ◌+◌, Bool, true, false, not, Option, none, some, List, [], ◌∷◌, ◌++◌, Text, codes, show,
  text_eq, trim, lookup, insert, filter_keys, length, leb, ltb, or_else, if◌then◌else◌,
}
use kafka_harbor.Errors.{Thrown, config_error, is_serialization_error}
use kafka_harbor.Headers.{HeaderNames, MessageHeaders, RetryInfo, decode_headers, read_retry_info}
use kafka_harbor.Result.{Result, ok, err}
use kafka_harbor.Adapter.{RawMessage}
use kafka_harbor.Topics.{member}
use kafka_harbor.Produce.{redrive}
use kafka_harbor.Consumer.World.{Env, Config, Message, emitted, error, message_redriven}
use kafka_harbor.Consumer.Action.{Action, pure, throw, lift, tell, ask, await, catch, ◌>>=◌, ◌>>◌}
use kafka_harbor.Consumer.Decode.{to_message}
use kafka_harbor.Consumer.Forward.{produce_hop_at, commit_after}

-- `RedriveOptions`; the filter answers the n-th question, or throws.
pub record Options : Type 0 where
  pub from : Text
  pub to : Option Text
  pub max : Option ℕ
  pub keep : Option (ℕ → Message → Result Bool)

-- The variables of `redrive`; `finished` says that its stop was signalled.
pub record Progress : Type 0 where
  pub reprocessed : ℕ
  pub skipped : ℕ
  pub last_activity : ℕ
  pub finished : Bool
  pub failure : Option Thrown

unfoldable pub is_same : Option Text → Text → Bool
is_same none from = false
is_same (some to) from = text_eq to from

unfoldable pub is_zero : Option ℕ → Bool
is_zero none = false
is_zero (some n) = ltb n 1

-- `requireNonEmptyString` and the other checks of the options
unfoldable pub check_options : Options → Result Options
unfolding is_same is_zero
check_options options =
    if ltb (length options.from) 1
    then err (config_error 0 (codes "redrive.from must be a non-empty string"))
    else (if ltb (length (or_else options.to (codes "-"))) 1
        then err (config_error 0 (codes "redrive.to must be a non-empty string"))
        else (if is_same options.to options.from
            then err (
                config_error 0 (
                  codes
                    "redrive.to must differ from redrive.from: re-injecting a topic into itself never ends"))
            else (if is_zero options.max
                then err (config_error 0 (codes "redrive.max must be an integer >= 1"))
                else ok options)))

-- The tracking headers that a message loses on its way back.
unfoldable pub tracking : HeaderNames → List Text
tracking names =
    names.retry_count ∷ names.original_topic ∷ names.first_failure_at ∷ names.last_error
    ∷ names.dead_lettered_at ∷ []

original_or : Option RetryInfo → Text → Text
original_or none topic = topic
original_or (some r) topic = r.original_topic

at_text : RawMessage → Text
at_text raw = raw.topic ++ codes "[" ++ show raw.partition ++ codes "]@" ++ raw.offset

module _ (env : Env) (config : Config) (options : Options) where
  -- The destination: the option, or the topic that the DLQ hop wrote; not blank, and not the topic
  -- being drained.
  check_target : RawMessage → Option Text → Result Text
  check_target raw none = err (config_error 0 (codes "no original topic on " ++ at_text raw))
  check_target raw (some target) =
      if ltb (length (trim target)) 1
      then err (config_error 0 (codes "no original topic on " ++ at_text raw))
      else (if text_eq target options.from
          then err (config_error 0 (codes "names the topic being drained: " ++ at_text raw))
          else ok target)

  target_of : Option Text → MessageHeaders → Option Text
  target_of none headers = lookup config.names.original_topic headers
  target_of (some to) headers = some to

  ask_filter :
      (ℕ → Message → Result Bool) → RawMessage → MessageHeaders → Option RetryInfo → Action Bool
  ask_filter keep raw headers retry = do
    message ← to_message env raw headers (original_or retry raw.topic) retry
    answer ← await env (λ n. keep n message)
    lift answer

  -- A message that does not deserialize is skipped and reported.
  undecodable : Thrown → Action Bool
  undecodable thrown =
      if is_serialization_error thrown
      then (tell (emitted (error thrown)) >> pure false)
      else throw thrown

  decide : Option (ℕ → Message → Result Bool) → RawMessage → MessageHeaders → Action Bool
  decide none raw headers = pure true
  decide (some keep) raw headers =
      catch (ask_filter keep raw headers (read_retry_info config.platform headers config.names))
        undecodable

  -- The message is produced, acknowledged, and then committed.
  resend : RawMessage → Text → MessageHeaders → Progress → Action Progress
  resend raw target headers p = do
    at ← ask env.clock
    produce_hop_at env config raw target redrive
        (insert config.names.redriven_at (config.platform.to_iso at) (
          insert config.names.redriven_from raw.topic
            (filter_keys (λ name. not (member name (tracking config.names))) headers)))
        at
    done ← commit_after env config raw
    tell (emitted (message_redriven raw target))
    pure (record p { reprocessed = suc p.reprocessed })

  skip : RawMessage → Progress → Action Progress
  skip raw p = do done ← commit_after env config raw; pure (record p { skipped = suc p.skipped })

  resend_or_skip : RawMessage → Text → MessageHeaders → Progress → Bool → Action Progress
  resend_or_skip raw target headers p true = resend raw target headers p
  resend_or_skip raw target headers p false = skip raw p

  -- `one`, of a run that was not stopped
  one : RawMessage → Progress → Action Progress
  one raw p = do
    now ← ask env.clock
    let headers : MessageHeaders = decode_headers config.platform raw.headers
    target ← lift (check_target raw (target_of options.to headers))
    wanted ← decide options.keep raw headers
    resend_or_skip raw target headers (record p { last_activity = now }) wanted

  -- `reprocessed + skipped >= max`
  at_max : Option ℕ → Progress → Bool
  at_max none p = false
  at_max (some n) p = leb n (p.reprocessed + p.skipped)

  stop_at_max : Progress → Progress
  stop_at_max p = if at_max options.max p then record p { finished = true } else p

  -- The first failure counts, and stops the run.
  fail : Progress → Thrown → Progress
  fail p thrown = record p { failure = some (or_else p.failure thrown); finished = true }

  -- `eachMessage`
  deliver : RawMessage → Progress → Action Progress
  deliver raw p =
      if p.finished
      then pure p
      else catch (one raw p >>= λ q. pure (stop_at_max q)) (λ thrown. pure (fail p thrown))

  -- The deliveries of a run, one at a time.
  pub drain : List RawMessage → Progress → Action Progress
  drain [] p = pure p
  drain (raw ∷ raws) p = deliver raw p >>= λ q. drain raws q

-- What `redrive` returns: the counts, or the failure that stopped it.
unfoldable pub result_of : Progress → Result (ℕ × ℕ)
result_of p = elim p.failure [ none ↦ ok (p.reprocessed, p.skipped) | some e ↦ err e ]

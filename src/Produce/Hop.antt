-- ===== src/Produce/Hop.antt =====
-- What a hop carries to the next consumer, whatever the instrumentation does.
use kafka_harbor.Prelude.{
  ◌≡◌, refl, Bool, true, false, not, Option, none, some, arith, Text, Dict, lookup, insert_all,
  filter_keys, dict_laws,
}
use kafka_harbor.Headers.{HeaderNames, MessageHeaders}
use kafka_harbor.Topics.{member}
use kafka_harbor.Adapter.{RawRecord}
use kafka_harbor.Produce.{Hooks, HookValue, tracking_names, is_owned, with_hook, outgoing}

merged_keeps :
    (hooks : Hooks) (names : HeaderNames) (hop : Bool) (headers : MessageHeaders)
    (name value : Text) (added : MessageHeaders)
    → member name (tracking_names names) ≡ true
    → lookup name headers ≡ some value
    → lookup name (insert_all (filter_keys (λ n. not (is_owned hooks names hop n)) headers) added)
      ≡ some value
merged_keeps hooks names hop headers name value added tracked carried =
    simp (dict_laws, free, carried) (unfold lookup in refl)
  where
    free : is_owned hooks names hop name ≡ false
    free = unfold is_owned in ground arith

with_hook_keeps :
    (hooks : Hooks) (names : HeaderNames) (hop : Bool) (sent : RawRecord) (name value : Text)
    (hook : Option (RawRecord → Option (Dict HookValue)))
    → member name (tracking_names names) ≡ true
    → lookup name sent.headers ≡ some value
    → (lookup name (with_hook hooks names hop sent hook).headers ≡ some value)
      × ((with_hook hooks names hop sent hook).topic ≡ sent.topic)
      × ((with_hook hooks names hop sent hook).key ≡ sent.key)
      × ((with_hook hooks names hop sent hook).value ≡ sent.value)
      × ((with_hook hooks names hop sent hook).partition ≡ sent.partition)
unfolding with_hook
with_hook_keeps hooks names hop sent name value none tracked carried =
    (carried, refl, refl, refl, refl)
with_hook_keeps hooks names hop sent name value (some hook) tracked carried =
    (merged_keeps hooks names hop sent.headers name value _ tracked carried, refl, refl, refl, refl)

-- Instrumentation changes neither the bytes nor the topic of a record, and no header that the
-- record carries under a name of the library, be it a hop or a send, whatever it declares its own.
pub outgoing_keeps :
    (hooks : Hooks) (names : HeaderNames) (hop : Bool) (sent : RawRecord) (name value : Text)
    → member name (tracking_names names) ≡ true
    → lookup name sent.headers ≡ some value
    → (lookup name (outgoing hooks names hop sent).headers ≡ some value)
      × ((outgoing hooks names hop sent).topic ≡ sent.topic)
      × ((outgoing hooks names hop sent).key ≡ sent.key)
      × ((outgoing hooks names hop sent).value ≡ sent.value)
      × ((outgoing hooks names hop sent).partition ≡ sent.partition)
unfolding outgoing
outgoing_keeps hooks names hop sent name value tracked carried =
    with_hook_keeps hooks names hop sent name value hooks.on_produce tracked carried

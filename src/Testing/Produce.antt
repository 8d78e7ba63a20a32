-- ===== src/Testing/Produce.antt =====
-- What the in-memory broker keeps of its logs, and that a produce is all or nothing.
use kafka_harbor.Prelude.{
  ℕ, zero, suc, ◌+◌, ◌≡◌, refl, sym, ap, subst, ◌∙◌, inl, inr, Bool, true, false, Option, none,
  some, List, [], ◌∷◌, ◌++◌, Text, Dict, lookup, lookup-insert, insert, has, length, get_elem?,
  show, arith, text_eq, text_eq_iff, or_else, Bool-cases,
}
use kafka_harbor.Errors.{Thrown}
use kafka_harbor.Result.{Result, ok, err}
use kafka_harbor.Adapter.{RawMessage, RawRecord}
use kafka_harbor.Testing.{
  Topic, Broker, Options, empty_logs, new_topic, ensure_topic, push_at, message_of, push,
  push_found, append_to, append_one, append_rest, append, produce_valid, produce_open,
  produce_unless, produce,
}

-- A log holds the messages of its partition at their offsets.
abbrev pub IsLog : Text → ℕ → ℕ → List RawMessage → Type 0
IsLog name partition offset [] = Unit {0}
IsLog name partition offset (m ∷ log) =
    (m.topic ≡ name)
    × (m.partition ≡ partition)
    × (m.offset ≡ show offset)
    × IsLog name partition (suc offset) log

abbrev pub AreLogs : Text → ℕ → List (List RawMessage) → Type 0
AreLogs name partition [] = Unit {0}
AreLogs name partition (log ∷ logs) = IsLog name partition 0 log × AreLogs name (suc partition) logs

-- Every topic's logs hold the messages of their partitions, at their offsets.
abbrev pub IsBroker : Dict Topic → Type 0
IsBroker topics =
    (name : Text) (t : Topic) → lookup name topics ≡ some t → AreLogs name 0 t.partitions

IsLog-snoc :
    (name : Text) (partition offset : ℕ) (log : List RawMessage) (m : RawMessage)
    → m.topic ≡ name
    → m.partition ≡ partition
    → m.offset ≡ show (offset + length log)
    → IsLog name partition offset log
    → IsLog name partition offset (log ++ m ∷ [])
IsLog-snoc name partition offset [] m topic here at h =
    (topic, here, at ∙ ap show (omega arith), tt)
IsLog-snoc name partition offset (n ∷ log) m topic here at (a, b, c, h) = (
  a,
  b,
  c,
  IsLog-snoc name partition (suc offset) log m topic here (at ∙ ap show (omega arith)) h,
)

AreLogs-push_at :
    (name : Text) (base i : ℕ) (logs : List (List RawMessage)) (log : List RawMessage)
    (m : RawMessage)
    → get_elem? logs i ≡ some log
    → m.topic ≡ name
    → m.partition ≡ base + i
    → m.offset ≡ show (length log)
    → AreLogs name base logs
    → AreLogs name base (push_at i m logs)
unfolding push_at
AreLogs-push_at name base i [] log m found topic here at h = tt
AreLogs-push_at name base zero (l ∷ logs) log m found topic here at (h, hs) = (
  IsLog-snoc name base 0 l m topic (here ∙ omega arith)
      (at ∙ ap show (ap (λ x. length (or_else x [])) (sym found) ∙ omega arith)) h,
  hs,
)
AreLogs-push_at name base (suc i) (l ∷ logs) log m found topic here at (h, hs) =
    (h, AreLogs-push_at name (suc base) i logs log m found topic (here ∙ omega arith) at hs)

AreLogs-empty : (name : Text) (base n : ℕ) → AreLogs name base (empty_logs n)
unfolding empty_logs
AreLogs-empty name base zero = tt
AreLogs-empty name base (suc n) = (tt, AreLogs-empty name (suc base) n)

AreLogs-some :
    (name : Text) (t u : Topic)
    → some t ≡ some u
    → AreLogs name 0 t.partitions
    → AreLogs name 0 u.partitions
AreLogs-some name t u same h = subst (λ o. AreLogs name 0 (or_else o t).partitions) same h

topic_or : Topic → Result Topic → Topic
topic_or d (ok t) = t
topic_or d (err e) = d

AreLogs-ok :
    (name : Text) (t u : Topic)
    → ok t ≡ ok u
    → AreLogs name 0 t.partitions
    → AreLogs name 0 u.partitions
unfolding topic_or
AreLogs-ok name t u same h = subst (λ r. AreLogs name 0 (topic_or t r).partitions) same h

AreLogs-new :
    (name : Text) (n : ℕ) (t : Topic) → some (new_topic n) ≡ some t → AreLogs name 0 t.partitions
unfolding new_topic
AreLogs-new name n t same =
    subst (λ o. AreLogs name 0 (or_else o t).partitions) same (AreLogs-empty name 0 n)

IsBroker-insert :
    (name : Text) (t : Topic) (topics : Dict Topic)
    → AreLogs name 0 t.partitions
    → IsBroker topics
    → IsBroker (insert name t topics)
IsBroker-insert name t topics logs h other u found = elim (Bool-cases (text_eq name other)) [
  | inl same ↦
      rw (sym ((text_eq_iff name other).0 same)) (
        AreLogs-some name t u (ground (arith, lookup-insert name other t topics, found, same)) logs)
  | inr differs ↦ h other u (ground (arith, lookup-insert name other t topics, found, differs))
]

IsBroker-ensure_topic :
    (name : Text) (n : ℕ) (topics : Dict Topic)
    → IsBroker topics
    → IsBroker (ensure_topic name n topics)
unfolding ensure_topic
IsBroker-ensure_topic name n topics h = elim (Bool-cases (has name topics)) [
  | inl there ↦ rw there h
  | inr missing ↦
      rw missing (IsBroker-insert name (new_topic n) topics (AreLogs-new name n _ refl) h)
]

push_found-AreLogs :
    (item : RawRecord) (now p : ℕ) (t t' : Topic) (found : Option (List RawMessage))
    → get_elem? t.partitions p ≡ found
    → AreLogs item.topic 0 t.partitions
    → push_found item now p t found ≡ ok t'
    → AreLogs item.topic 0 t'.partitions
unfolding push_found push message_of
push_found-AreLogs item now p t t' none at h done = absurd (cc)
push_found-AreLogs item now p t t' (some log) at h done =
    AreLogs-ok item.topic _ t' done
      (AreLogs-push_at item.topic 0 p t.partitions log _ at refl (omega arith) refl h)

append_to-AreLogs :
    (item : RawRecord) (now : ℕ) (t t' : Topic) (chosen : Result ℕ)
    → AreLogs item.topic 0 t.partitions
    → append_to item now t chosen ≡ ok t'
    → AreLogs item.topic 0 t'.partitions
unfolding append_to
append_to-AreLogs item now t t' (err e) h done = absurd (cc)
append_to-AreLogs item now t t' (ok p) h done = push_found-AreLogs item now p t t' _ refl h done

-- The topic that a record finds.
found-AreLogs :
    (name : Text) (n : ℕ) (topics : Dict Topic) (found : Option Topic)
    → lookup name topics ≡ found
    → IsBroker topics
    → AreLogs name 0 (or_else found (new_topic n)).partitions
unfolding new_topic
found-AreLogs name n topics none at h = AreLogs-empty name 0 n
found-AreLogs name n topics (some t) at h = h name t at

append_rest-IsBroker :
    (rest : Dict Topic → Result (Unit {0}) × Dict Topic) (name : Text) (ensured : Dict Topic)
    (r : Result Topic)
    → IsBroker ensured
    → ((t : Topic) → r ≡ ok t → AreLogs name 0 t.partitions)
    → ((topics : Dict Topic) → IsBroker topics → IsBroker (rest topics).1)
    → IsBroker (append_rest rest name ensured r).1
unfolding append_rest
append_rest-IsBroker rest name ensured (err e) h logs keep = h
append_rest-IsBroker rest name ensured (ok t) h logs keep =
    keep (insert name t ensured) (IsBroker-insert name t ensured (logs t refl) h)

append-IsBroker :
    (options : Options) (now : ℕ → ℕ) (records : List RawRecord) (topics : Dict Topic)
    → IsBroker topics
    → IsBroker (append options now records topics).1
unfolding append append_one
append-IsBroker options now [] topics h = h
append-IsBroker options now (item ∷ records) topics h =
    let ensured = IsBroker-ensure_topic item.topic options.partitions topics h in
    append_rest-IsBroker (append options (λ n. now (suc n)) records) item.topic _ _ ensured
      (λ t done.
        append_to-AreLogs item (now 0) _ t _
          (found-AreLogs item.topic options.partitions _ _ refl ensured) done)
      (append-IsBroker options (λ n. now (suc n)) records)

produce_valid-IsBroker :
    (options : Options) (now : ℕ → ℕ) (records : List RawRecord) (b : Broker)
    (valid : Result (Unit {0}))
    → IsBroker b.topics
    → IsBroker (produce_valid options now records b valid).1.topics
unfolding produce_valid
produce_valid-IsBroker options now records b (err e) h = h
produce_valid-IsBroker options now records b (ok u) h =
    append-IsBroker options now records b.topics h

produce_open-IsBroker :
    (options : Options) (now : ℕ → ℕ) (records : List RawRecord) (b : Broker) (connected : Bool)
    → IsBroker b.topics
    → IsBroker (produce_open options now records b connected).1.topics
unfolding produce_open
produce_open-IsBroker options now records b false h = h
produce_open-IsBroker options now records b true h =
    produce_valid-IsBroker options now records b _ h

produce_unless-IsBroker :
    (options : Options) (now : ℕ → ℕ) (records : List RawRecord) (b : Broker) (next : Option Thrown)
    → IsBroker b.topics
    → IsBroker (produce_unless options now records b next).1.topics
unfolding produce_unless
produce_unless-IsBroker options now records b (some e) h = h
produce_unless-IsBroker options now records b none h =
    produce_open-IsBroker options now records b b.connected h

-- Whatever is produced, and whatever of it fails, every message of a log is of its topic and
-- partition, at the offset that is its index, if that was so before.
pub produce-IsBroker :
    (options : Options) (now : ℕ → ℕ) (records : List RawRecord) (b : Broker)
    → IsBroker b.topics
    → IsBroker (produce options now records b).1.topics
unfolding produce
produce-IsBroker options now records b h =
    produce_unless-IsBroker options now records b b.next_produce_error h

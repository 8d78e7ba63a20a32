-- ===== src/Testing/Transaction/Atomic.antt =====
-- A transaction of the in-memory broker lands at most once, and then as a whole.
use kafka_harbor.Prelude.{
  ℕ, ◌≡◌, refl, sym, ap, ◌∙◌, ◌⊎◌, inl, inr, subst, Bool, true, false, Option, none, some, List, [],
  ◌∷◌, ◌++◌, arith, Text, Dict,
}
use kafka_harbor.Errors.{Thrown}
use kafka_harbor.Result.{Result, ok, err}
use kafka_harbor.Adapter.{TopicPartitionOffset, RawRecord}
use kafka_harbor.Testing.{Topic, Broker, Options, append}
use kafka_harbor.Testing.Transaction.{
  Transaction, Call, unless_ended, commit_offsets, buffer, produce_open, produce, land, commit,
  offsets_of, of_group, send_offsets, abort, Step, produces, sends_offsets, aborts, commits, step,
  steps,
}

unless_ended-true :
    (c : Bool) (b : Broker) (t : Transaction) (rest : Call)
    → c ≡ true
    → (unless_ended c b t rest).1 ≡ (b, t)
unfolding unless_ended
unless_ended-true true b t rest h = refl
unless_ended-true false b t rest h = absurd (cc)

-- Nothing more happens in a transaction that ended.
step-ended :
    (options : Options) (now : ℕ → ℕ) (x : Step) (b : Broker) (t : Transaction)
    → t.completed ≡ true
    → step options now x (b, t) ≡ (b, t)
unfolding step produce commit send_offsets abort
step-ended options now (produces records) b t h = unless_ended-true _ b t _ h
step-ended options now (sends_offsets group sent) b t h = unless_ended-true _ b t _ h
step-ended options now aborts b t h = unless_ended-true _ b t _ h
step-ended options now commits b t h = unless_ended-true _ b t _ h

-- Topics and groups are as they were.
abbrev pub Kept : Broker → Broker → Type 0
Kept b b' = (b'.topics ≡ b.topics) × (b'.groups ≡ b.groups)

-- The records of the calls that resolved, with those of one more.
unfoldable pub with_records : Result (Unit {0}) → List RawRecord → List RawRecord → List RawRecord
with_records (ok u) sent records = records ++ sent
with_records (err e) sent records = records

unfoldable pub with_offsets :
    Result (Unit {0})
    → Option Text
    → List TopicPartitionOffset
    → List (Text × TopicPartitionOffset)
    → List (Text × TopicPartitionOffset)
with_offsets (ok u) (some id) sent offsets = offsets ++ of_group id sent
with_offsets (ok u) none sent offsets = offsets
with_offsets (err e) group sent offsets = offsets

module _ (options : Options) (now : ℕ → ℕ) where
  buffer-Kept :
      (records : List RawRecord) (b : Broker) (t : Transaction) (r : Result (Unit {0}))
      → Kept b (buffer options records b t r).1.0
  unfolding buffer
  buffer-Kept records b t (ok u) = (refl, refl)
  buffer-Kept records b t (err e) = (refl, refl)

  produce-Kept :
      (records : List RawRecord) (b : Broker) (t : Transaction) (next : Option Thrown)
      → Kept b (produce_open options records b t next).1.0
  unfolding produce_open
  produce-Kept records b t (some e) = (refl, refl)
  produce-Kept records b t none = buffer-Kept records b t _

  offsets-Kept :
      (sent : List TopicPartitionOffset) (b : Broker) (t : Transaction) (group : Option Text)
      → Kept b (offsets_of sent b t group).1.0
  unfolding offsets_of
  offsets-Kept sent b t none = (refl, refl)
  offsets-Kept sent b t (some id) = (refl, refl)

  unless_ended-Kept :
      (c : Bool) (b : Broker) (t : Transaction) (rest : Call)
      → Kept b rest.1.0
      → Kept b (unless_ended c b t rest).1.0
  unfolding unless_ended
  unless_ended-Kept true b t rest h = (refl, refl)
  unless_ended-Kept false b t rest h = h

  pub produce_keeps :
      (records : List RawRecord) (b : Broker) (t : Transaction)
      → Kept b (produce options records b t).1.0
  unfolding produce
  produce_keeps records b t = unless_ended-Kept _ b t _ (produce-Kept records b t _)

  pub send_offsets_keeps :
      (group : Option Text) (sent : List TopicPartitionOffset) (b : Broker) (t : Transaction)
      → Kept b (send_offsets group sent b t).1.0
  unfolding send_offsets
  send_offsets_keeps group sent b t = unless_ended-Kept _ b t _ (offsets-Kept sent b t group)

  pub abort_keeps : (b : Broker) (t : Transaction) → Kept b (abort b t).1.0
  unfolding abort
  abort_keeps b t = unless_ended-Kept _ b t _ (refl, refl)

  -- What the first end of a transaction commits, if that is a commit: the records of every
  -- `produce` that resolved before, in order, and the offsets of every `sendOffsets`.
  unfoldable pub committed_by :
      List Step
      → Broker × Transaction
      → List RawRecord
      → List (Text × TopicPartitionOffset)
      → Option (List RawRecord × List (Text × TopicPartitionOffset))
  unfolding with_records with_offsets
  committed_by [] s records offsets = none
  committed_by (aborts ∷ xs) s records offsets = none
  committed_by (commits ∷ xs) s records offsets = some (records, offsets)
  committed_by (produces sent ∷ xs) s records offsets =
      let (answer, after) = produce options sent s.0 s.1 in
      committed_by xs after (with_records answer sent records) offsets
  committed_by (sends_offsets group sent ∷ xs) s records offsets =
      let (answer, after) = send_offsets group sent s.0 s.1 in
      committed_by xs after records (with_offsets answer group sent offsets)

  -- These records were appended, all of them, and these offsets committed with them.
  abbrev pub Whole : List RawRecord → List (Text × TopicPartitionOffset) → Broker → Broker → Type 0
  Whole records offsets b b' =
      (append options now records b.topics ≡ (ok tt, b'.topics))
      × (b'.groups ≡ commit_offsets offsets b.groups)

  -- The broker failed while it appended these records, and no offset was committed.
  abbrev pub Broken : List RawRecord → Broker → Broker → Type 0
  Broken records b b' =
      (thrown : Thrown) × (append options now records b.topics ≡ (err thrown, b'.topics))
      × (b'.groups ≡ b.groups)

  abbrev pub Left :
      Option (List RawRecord × List (Text × TopicPartitionOffset)) → Broker → Broker → Type 0
  Left none b b' = Kept b b'
  Left (some (records, offsets)) b b' = Whole records offsets b b' ⊎ Broken records b b'

  pub Kept-Whole :
      (records : List RawRecord) (offsets : List (Text × TopicPartitionOffset)) (b b1 b2 : Broker)
      → Kept b b1
      → Whole records offsets b1 b2
      → Whole records offsets b b2
  Kept-Whole records offsets b b1 b2 (topics, groups) (e, g) =
      (ap (append options now records) (sym topics) ∙ e, g ∙ ap (commit_offsets offsets) groups)

  pub Kept-Broken :
      (records : List RawRecord) (b b1 b2 : Broker)
      → Kept b b1
      → Broken records b1 b2
      → Broken records b b2
  Kept-Broken records b b1 b2 (topics, groups) (thrown, e, g) =
      (thrown, ap (append options now records) (sym topics) ∙ e, g ∙ groups)

  Kept-Left :
      (end : Option (List RawRecord × List (Text × TopicPartitionOffset))) (b b1 b2 : Broker)
      → Kept b b1
      → Left end b1 b2
      → Left end b b2
  Kept-Left none b b1 b2 (topics, groups) (topics', groups') = (topics' ∙ topics, groups' ∙ groups)
  Kept-Left (some (records, offsets)) b b1 b2 kept (inl whole) =
      inl (Kept-Whole records offsets b b1 b2 kept whole)
  Kept-Left (some (records, offsets)) b b1 b2 kept (inr broken) =
      inr (Kept-Broken records b b1 b2 kept broken)

  land-Left :
      (b : Broker) (t : Transaction) (answer : Result (Unit {0}) × Dict Topic)
      → append options now t.buffered b.topics ≡ answer
      → Left (some (t.buffered, t.offsets)) b (land options b t answer).1.0
        × ((land options b t answer).1.1.completed ≡ true)
  unfolding land
  land-Left b t (ok u, topics) h = (inl (h, refl), refl)
  land-Left b t (err e, topics) h = (inr (e, h, refl), refl)

  commit-Left :
      (c : Bool) (b : Broker) (t : Transaction)
      → c ≡ false
      → let rest = unless_ended c b t (land options b t (append options now t.buffered b.topics)) in
        Left (some (t.buffered, t.offsets)) b rest.1.0 × (rest.1.1.completed ≡ true)
  unfolding unless_ended
  commit-Left true b t e = absurd (cc)
  commit-Left false b t e = land-Left b t _ refl

  -- A call that does not end a transaction adds to what it buffers.
  record Grown (answer : Result (Unit {0})) (records : List RawRecord)
      (offsets : List (Text × TopicPartitionOffset)) (t : Transaction) : Type 0 where
    buffers : t.buffered ≡ records
    holds : t.offsets ≡ offsets
    is_open : t.completed ≡ false

  -- What the rest of a run leaves, told of the records and offsets that were buffered.
  later_Left :
      (xs : List Step) {answer : Result (Unit {0})} {records : List RawRecord}
      {offsets : List (Text × TopicPartitionOffset)} (b b' : Broker) (s : Broker × Transaction)
      → Grown answer records offsets s.1
      → Kept b s.0
      → Left (committed_by xs s s.1.buffered s.1.offsets) s.0 b'
      → Left (committed_by xs s records offsets) b b'
  later_Left xs {records = records} b b' s grown kept left = Kept-Left _ b s.0 b' kept (
      subst (λ os. Left (committed_by xs s records os) s.0 b') grown.holds
        (subst (λ rs. Left (committed_by xs s rs s.1.offsets) s.0 b') grown.buffers left))

  -- What a `produce` or a `sendOffsets` adds, ended or not.
  pub produce-buffers :
      (sent : List RawRecord) (b : Broker) (t : Transaction)
      → let (answer, after) = produce options sent b t in
        (after.1.buffered ≡ with_records answer sent t.buffered) × (after.1.offsets ≡ t.offsets)
  unfolding produce produce_open buffer unless_ended with_records
  produce-buffers sent b t = ground arith

  pub send_offsets-holds :
      (group : Option Text) (sent : List TopicPartitionOffset) (b : Broker) (t : Transaction)
      → let (answer, after) = send_offsets group sent b t in
        (after.1.buffered ≡ t.buffered)
        × (after.1.offsets ≡ with_offsets answer group sent t.offsets)
  unfolding send_offsets offsets_of unless_ended with_offsets
  send_offsets-holds group sent b t = ground arith

  produce-Grown :
      (sent : List RawRecord) (b : Broker) (t : Transaction)
      → t.completed ≡ false
      → let (answer, after) = produce options sent b t in
        Grown answer (with_records answer sent t.buffered) t.offsets after.1
  unfolding produce produce_open buffer unless_ended with_records
  produce-Grown sent b t e = ground arith

  send_offsets-Grown :
      (group : Option Text) (sent : List TopicPartitionOffset) (b : Broker) (t : Transaction)
      → t.completed ≡ false
      → let (answer, after) = send_offsets group sent b t in
        Grown answer t.buffered (with_offsets answer group sent t.offsets) after.1
  unfolding send_offsets offsets_of unless_ended with_offsets
  send_offsets-Grown group sent b t e = ground arith

  abort_ends :
      (c : Bool) (b : Broker) (t : Transaction)
      → c ≡ false
      → (unless_ended c b t (
        ok tt,
        (record b { transaction_open = false }, record t { completed = true }),
      )).1.1.completed
        ≡ true
  unfolding unless_ended
  abort_ends true b t e = absurd (cc)
  abort_ends false b t e = refl

  steps-ended :
      (xs : List Step) (s : Broker × Transaction)
      → s.1.completed ≡ true
      → steps options now xs s ≡ s
  unfolding steps
  steps-ended [] s h = refl
  steps-ended (x ∷ xs) s h =
      ap (steps options now xs) (step-ended options now x s.0 s.1 h) ∙ steps-ended xs s h

  ended_at :
      (xs : List Step) (end : Option (List RawRecord × List (Text × TopicPartitionOffset)))
      (b : Broker) (s : Broker × Transaction)
      → s.1.completed ≡ true
      → Left end b s.0
      → Left end b (steps options now xs s).0
  ended_at xs end b s over left = subst (λ s'. Left end b s'.0) (sym (steps-ended xs s over)) left

  -- Whatever is done with an open transaction, in any order and however often, its first end decides:
  -- if that is a commit, it appends exactly the records of the `produce` calls that resolved before,
  -- all of them and once, and commits exactly the offsets of the `sendOffsets` calls that resolved
  -- before, unless the broker fails while it appends, and then no offset is committed; if it is an
  -- abort, or there is none, the topics and the committed offsets are left alone.
  pub steps_atomic :
      (xs : List Step) (s : Broker × Transaction)
      → s.1.completed ≡ false
      → Left (committed_by xs s s.1.buffered s.1.offsets) s.0 (steps options now xs s).0
  unfolding steps step committed_by commit abort
  steps_atomic [] s e = (refl, refl)
  steps_atomic (aborts ∷ xs) s e =
      ended_at xs none s.0 (step options now aborts s) (abort_ends s.1.completed s.0 s.1 e)
        (abort_keeps s.0 s.1)
  steps_atomic (commits ∷ xs) s e =
      let (left, over) = commit-Left s.1.completed s.0 s.1 e in
      ended_at xs (some (s.1.buffered, s.1.offsets)) s.0 (step options now commits s) over left
  steps_atomic (produces sent ∷ xs) s e =
      let after = step options now (produces sent) s in
      let grown = produce-Grown sent s.0 s.1 e in
      later_Left xs s.0 (steps options now xs after).0 after grown (produce_keeps sent s.0 s.1)
        (steps_atomic xs after grown.is_open)
  steps_atomic (sends_offsets group sent ∷ xs) s e =
      let after = step options now (sends_offsets group sent) s in
      let grown = send_offsets-Grown group sent s.0 s.1 e in
      later_Left xs s.0 (steps options now xs after).0 after grown
        (send_offsets_keeps group sent s.0 s.1) (steps_atomic xs after grown.is_open)

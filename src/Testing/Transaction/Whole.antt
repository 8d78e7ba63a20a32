-- ===== src/Testing/Transaction/Whole.antt =====
-- What each call on a transaction of the in-memory broker leaves of its topics and offsets, by what it
-- answers.
use kafka_harbor.Prelude.{
  ℕ, ◌≡◌, refl, sym, ap, ◌∙◌, Bool, true, false, List, ◌⊎◌, inl, inr, Text, Dict,
}
use kafka_harbor.Result.{Result, ok, err}
use kafka_harbor.Adapter.{RawRecord, TopicPartitionOffset}
use kafka_harbor.Testing.{Topic, Broker, Options, append}
use kafka_harbor.Testing.Transaction.{Transaction, Call, commit, land, unless_ended}
use kafka_harbor.Testing.Transaction.Atomic.{Kept, Whole, Broken, Kept-Whole, Kept-Broken}

pub Kept-trans : (b b1 b2 : Broker) → Kept b b1 → Kept b1 b2 → Kept b b2
Kept-trans b b1 b2 (topics, groups) (topics', groups') = (topics' ∙ topics, groups' ∙ groups)

module _ (options : Options) (now : ℕ → ℕ) where
  -- What an end left, by what it answered.
  abbrev pub AfterEnd :
      {A : Type 0}
      → List RawRecord
      → List (Text × TopicPartitionOffset)
      → Broker
      → Result A
      → Broker
      → Type 0
  AfterEnd records offsets b (ok a) b' = Whole options now records offsets b b'
  AfterEnd records offsets b (err e) b' = Kept b b' ⊎ Broken options now records b b'

  land-AfterEnd :
      (b : Broker) (t : Transaction) (answer : Result (Unit {0}) × Dict Topic)
      → append options now t.buffered b.topics ≡ answer
      → AfterEnd t.buffered t.offsets b (land options b t answer).0 (land options b t answer).1.0
  unfolding land
  land-AfterEnd b t (ok done, topics) e = (e, refl)
  land-AfterEnd b t (err thrown, topics) e = inr (thrown, e, refl)

  ended-AfterEnd :
      (c : Bool) (b : Broker) (t : Transaction) (rest : Call)
      → AfterEnd t.buffered t.offsets b rest.0 rest.1.0
      → AfterEnd t.buffered t.offsets b (unless_ended c b t rest).0 (unless_ended c b t rest).1.0
  unfolding unless_ended
  ended-AfterEnd true b t rest h = inl (refl, refl)
  ended-AfterEnd false b t rest h = h

  pub commit-AfterEnd :
      (b : Broker) (t : Transaction)
      → AfterEnd t.buffered t.offsets b (commit options now b t).0 (commit options now b t).1.0
  unfolding commit
  commit-AfterEnd b t = ended-AfterEnd t.completed b t _ (land-AfterEnd b t _ refl)

  module _ (records : List RawRecord) (offsets : List (Text × TopicPartitionOffset)) where
    -- What was kept before and after makes no difference.
    pub Kept-AfterEnd :
        {A : Type 0} (b b1 b2 : Broker) (r : Result A)
        → Kept b b1
        → AfterEnd records offsets b1 r b2
        → AfterEnd records offsets b r b2
    Kept-AfterEnd b b1 b2 (ok a) kept whole =
        Kept-Whole options now records offsets b b1 b2 kept whole
    Kept-AfterEnd b b1 b2 (err thrown) kept (inl kept') = inl (Kept-trans b b1 b2 kept kept')
    Kept-AfterEnd b b1 b2 (err thrown) kept (inr broken) =
        inr (Kept-Broken options now records b b1 b2 kept broken)

    pub Broken-Kept :
        (b b1 b2 : Broker)
        → Kept b b1 ⊎ Broken options now records b b1
        → Kept b1 b2
        → Kept b b2 ⊎ Broken options now records b b2
    Broken-Kept b b1 b2 (inl kept) kept' = inl (Kept-trans b b1 b2 kept kept')
    Broken-Kept b b1 b2 (inr (e, f, g)) (topics, groups) =
        inr (e, f ∙ ap (λ ts. (err e, ts)) (sym topics), groups ∙ g)

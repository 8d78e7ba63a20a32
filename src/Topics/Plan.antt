-- ===== src/Topics/Plan.antt =====
-- What a topic plan that was built promises.
use kafka_harbor.Prelude.{
  ℕ, zero, suc, ◌+◌, ◌≡◌, refl, ap, false, Option, none, some, List, [], ◌∷◌, arith, Text, length,
  Bool-cases, inl, inr,
}
use kafka_harbor.Result.{ok, Ensures, Ensures-bind, Ensures-ok, Ensures-refuse_if}
use kafka_harbor.Topics.{TopicPlan, member, ladder, plan_dlq, topic_plan, consumed_topics}

-- No topic of the list is there twice, nor in the second list.
abbrev pub Distinct : List Text → List Text → Type 0
Distinct [] taken = Unit {0}
Distinct (t ∷ ts) taken = (member t taken ≡ false) × Distinct ts (t ∷ taken)

-- The topics are what the naming function gives for the levels from `level` on.
abbrev pub Names : (ℕ → Text) → ℕ → List Text → Type 0
Names name level [] = Unit {0}
Names name level (t ∷ ts) = (t ≡ name level) × Names name (level + 1) ts

abbrev IsLadder : (ℕ → Text) → List Text → ℕ → ℕ → List Text → Type 0
IsLadder name taken level remaining topics =
    Distinct topics taken × Names name level topics × (length topics ≡ remaining)

module _ (naming : Text → ℕ → Text) (original : Text) where
  ladder-IsLadder :
      (taken : List Text) (level remaining : ℕ)
      → Ensures
          (IsLadder (naming original) taken level remaining)
          (ladder naming original taken level remaining)
  unfolding ladder
  ladder-IsLadder taken level zero = (tt, tt, refl)
  ladder-IsLadder taken level (suc remaining) =
      elim (Bool-cases (member (naming original level) taken)) [
        | inl dup ↦ rw dup tt
        | inr new ↦ rw new (
            Ensures-bind
              (IsLadder (naming original) (naming original level ∷ taken) (level + 1) remaining) _
              (ladder naming original (naming original level ∷ taken) (level + 1) remaining) _
              (ladder-IsLadder (naming original level ∷ taken) (level + 1) remaining)
              (λ topics _ h. ((new, h.0), (refl, h.1), ap suc h.2)))
      ]

-- What `new TopicPlan` promises: as many retry topics as levels, named by the naming function, and
-- no topic of the ladder, the original among them, twice; the DLQ is none of them.
pub record IsPlan (name : ℕ → Text) (levels : ℕ) (plan : TopicPlan) : Type 0 where
  pub distinct : Distinct plan.retry_topics (plan.original ∷ [])
  pub named : Names name 1 plan.retry_topics
  pub complete : length plan.retry_topics ≡ levels
  pub dlq_apart :
      (dlq : Text) → plan.dlq_topic ≡ some dlq → member dlq (consumed_topics plan) ≡ false

plan_dlq_apart :
    (naming : Option (Text → Text)) (original : Text) (taken : List Text)
    → Ensures
        (λ found. (dlq : Text) → found ≡ some dlq → member dlq taken ≡ false)
        (plan_dlq naming original taken)
unfolding plan_dlq
plan_dlq_apart none original taken = λ dlq e. cc
plan_dlq_apart (some naming) original taken =
    Ensures-refuse_if _ (member (naming original) taken) _ _ (λ free dlq e. ground arith)

pub topic_plan-Ensures :
    (original : Text) (levels : ℕ) (retry_naming : Text → ℕ → Text)
    (dlq_naming : Option (Text → Text))
    → Ensures
        (λ plan. (plan.original ≡ original) × IsPlan (retry_naming original) levels plan)
        (topic_plan original levels retry_naming dlq_naming)
unfolding topic_plan consumed_topics
topic_plan-Ensures original levels retry_naming dlq_naming =
    Ensures-bind (IsLadder (retry_naming original) (original ∷ []) 1 levels) _
      (ladder retry_naming original (original ∷ []) 1 levels) _
      (ladder-IsLadder retry_naming original (original ∷ []) 1 levels)
      λ topics _ l.
        Ensures-bind
          (λ found. (dlq : Text) → found ≡ some dlq → member dlq (original ∷ topics) ≡ false) _
          (plan_dlq dlq_naming original (original ∷ topics)) _
          (plan_dlq_apart dlq_naming original (original ∷ topics))
          λ dlq _ apart.
            (refl, record { distinct = l.0; named = l.1; complete = l.2; dlq_apart = apart })

-- A plan that the constructor builds is one of the topic asked for: as many retry topics as levels,
-- named by the naming function, none twice, and a DLQ apart from the topics consumed.
pub topic_plan-IsPlan :
    (original : Text) (levels : ℕ) (retry_naming : Text → ℕ → Text)
    (dlq_naming : Option (Text → Text)) (plan : TopicPlan)
    → topic_plan original levels retry_naming dlq_naming ≡ ok plan
    → (plan.original ≡ original) × IsPlan (retry_naming original) levels plan
topic_plan-IsPlan original levels retry_naming dlq_naming plan built =
    Ensures-ok (λ plan. (plan.original ≡ original) × IsPlan (retry_naming original) levels plan) _
      plan built (topic_plan-Ensures original levels retry_naming dlq_naming)

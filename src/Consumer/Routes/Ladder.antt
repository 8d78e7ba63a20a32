-- ===== src/Consumer/Routes/Ladder.antt =====
-- Every level of the ladder has its topic in a plan of as many levels.
use kafka_harbor.Prelude.{
  ℕ, zero, suc, ◌+◌, ◌≤◌, ◌<◌, ◌≡◌, refl, false, some, List, [], ◌∷◌, arith, Text, text_eq, any,
  get_elem?, length, All, All-mono,
}
use kafka_harbor.Topics.{
  RetryLevel, TopicPlan, member, levels_from, resolve_retry_levels, retry_topic, consumed_topics,
}
use kafka_harbor.Consumer.Routes.{ladder_topic}

abbrev Between : ℕ → ℕ → RetryLevel → Type 0
Between low high l = (low ≤ l.level) × (l.level < high)

levels_from-Between :
    (level : ℕ) (delays : List ℕ)
    → All (Between level (level + length delays)) (levels_from level delays)
unfolding levels_from
levels_from-Between level [] = tt
levels_from-Between level (delay ∷ delays) = (
  omega arith,
  All-mono (Between (level + 1) (level + 1 + length delays)) _ (λ l h. omega arith)
      (levels_from (level + 1) delays) (levels_from-Between (level + 1) delays),
)

get_elem?-total {ℓ} :
    {A : Type ℓ} (xs : List A) (i : ℕ) → i < length xs → (x : A) × (get_elem? xs i ≡ some x)
get_elem?-total [] i h = elim h [ ]
get_elem?-total (x ∷ xs) zero h = (x, refl)
get_elem?-total (x ∷ xs) (suc i) h = get_elem?-total xs i (omega arith)

-- The levels that a consumer was given.
abbrev pub Placed : TopicPlan → RetryLevel → Type 0
Placed plan l = (t : Text) × (retry_topic plan l.level ≡ some t)

Placed-Between :
    (plan : TopicPlan) (n : ℕ) (l : RetryLevel)
    → length plan.retry_topics ≡ n
    → Between 1 (1 + n) l
    → Placed plan l
unfolding retry_topic
Placed-Between plan n l e b = at l.level b.0 b.1
  where
    at : (level : ℕ) → 1 ≤ level → level < 1 + n → (t : Text) × (retry_topic plan level ≡ some t)
    at zero low high = absurd (omega arith)
    at (suc i) low high = get_elem?-total plan.retry_topics i (omega arith)

pub resolve_retry_levels-Placed :
    (plan : TopicPlan) (delays : List ℕ)
    → length plan.retry_topics ≡ length delays
    → All (Placed plan) (resolve_retry_levels delays)
unfolding resolve_retry_levels
resolve_retry_levels-Placed plan delays e =
    All-mono (Between 1 (1 + length delays)) (Placed plan)
      (λ l b. Placed-Between plan (length delays) l e b) (levels_from 1 delays)
      (levels_from-Between 1 delays)

pub length-resolve_retry_levels :
    (delays : List ℕ) → length (resolve_retry_levels delays) ≡ length delays
unfolding resolve_retry_levels
length-resolve_retry_levels delays = go 1 delays
  where
    go : (level : ℕ) (ds : List ℕ) → length (levels_from level ds) ≡ length ds
    go level [] = refl
    go level (d ∷ ds) = omega (arith, go (level + 1) ds)

not_member_at :
    (d t : Text) (ts : List Text) (i : ℕ)
    → any (text_eq d) ts ≡ false
    → get_elem? ts i ≡ some t
    → text_eq d t ≡ false
not_member_at d t [] i h e = cc
not_member_at d t (x ∷ xs) zero h e = ground arith
not_member_at d t (x ∷ xs) (suc i) h e = not_member_at d t xs i (ground arith) e

-- A topic that the plan does not consume is no topic of its ladder.
pub apart_from_ladder :
    (plan : TopicPlan) (d : Text) (l : RetryLevel)
    → member d (consumed_topics plan) ≡ false
    → Placed plan l
    → text_eq d (ladder_topic plan l.level) ≡ false
unfolding member consumed_topics retry_topic
apart_from_ladder plan d l h (t, e) = rw e (at l.level e)
  where
    at : (level : ℕ) → retry_topic plan level ≡ some t → text_eq d t ≡ false
    at zero p = cc
    at (suc i) p = not_member_at d t plan.retry_topics i (ground arith) p

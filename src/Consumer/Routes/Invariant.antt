-- ===== src/Consumer/Routes/Invariant.antt =====
-- The routing table keeps every DLQ out of what the consumer itself consumes.
use kafka_harbor.Prelude.{
  ℕ, ◌≡◌, refl, sym, ap, subst, ◌∙◌, Bool, false, Option, none, some, List, [], ◌∷◌, arith, Text,
  text_eq, text_eq_comm, length, All, or_else, has, any_value-lookup, lookup, insert, lookup-insert,
  Bool-cases, inl, inr,
}
use kafka_harbor.Result.{Result, ok, err, Ensures, Ensures-bind, Ensures-ok, Ensures-refuse_if}
use kafka_harbor.Topics.{
  RetryLevel, TopicPlan, member, consumed_topics, resolve_retry_levels, topic_plan,
}
use kafka_harbor.Topics.Plan.{IsPlan, topic_plan-Ensures}
use kafka_harbor.Consumer.{Run, Subscription, Route, Routes, Breaker}
use kafka_harbor.Consumer.Routes.{
  Settings, ladder_topic, fills_consumed, fills_any, dlq_is_consumed, check_levels, join_level,
  join_levels, route,
}
use kafka_harbor.Consumer.Routes.Ladder.{
  Placed, resolve_retry_levels-Placed, length-resolve_retry_levels, apart_from_ladder,
}

-- A property of every subscription that the table names.
abbrev pub AllOwners : (Subscription → Type 0) → Routes → Type 0
AllOwners P routes =
    (topic name : Text) (r : Route) (s : Subscription)
    → lookup topic routes ≡ some r
    → lookup name r.owners ≡ some s
    → P s

-- The DLQ of a subscription, if it has one, is a topic that the table does not consume.
abbrev pub DlqApart : Routes → Subscription → Type 0
DlqApart routes s = (dlq : Text) → s.plan.dlq_topic ≡ some dlq → lookup dlq routes ≡ none

-- No DLQ of the consumer is a topic that it consumes.
abbrev pub DlqsApart : Routes → Type 0
DlqsApart routes = AllOwners (DlqApart routes) routes

module _ (topic : Text) (sub : Subscription) (P : Subscription → Type 0) (new : P sub) where
  insert_owner :
      (r : Route) (name : Text) (s : Subscription)
      → ((n : Text) (o : Subscription) → lookup n r.owners ≡ some o → P o)
      → lookup name (insert topic sub r.owners) ≡ some s
      → P s
  insert_owner r name s old e = elim (Bool-cases (text_eq topic name)) [
    | inl same ↦ subst P (ground (arith, lookup-insert topic name sub r.owners)) new
    | inr other ↦ old name s (ground (arith, lookup-insert topic name sub r.owners))
  ]

  insert_route :
      (k : Text) (x : Route) (routes : Routes)
      → AllOwners P routes
      → ((n : Text) (o : Subscription) → lookup n x.owners ≡ some o → P o)
      → AllOwners P (insert k x routes)
  insert_route k x routes old px t name r s e f = elim (Bool-cases (text_eq k t)) [
    | inl same ↦
        let here : x ≡ r = ground (arith, lookup-insert k t x routes) in
        px name s (subst (λ (q : Route). lookup name q.owners ≡ some s) (sym here) f)
    | inr other ↦ old t name r s (ground (arith, lookup-insert k t x routes)) f
  ]

  joined_owner :
      (l : RetryLevel) (routes : Routes) (found : Option Route) (retry : Text)
      → AllOwners P routes
      → lookup retry routes ≡ found
      → (n : Text) (o : Subscription)
      → lookup n (
          insert topic sub
            (or_else found (record { owners = []; level = l.level; delay_ms = l.delay_ms })).owners)
        ≡ some o
      → P o
  unfolding lookup
  joined_owner l routes none retry old at n o e =
      insert_owner (record { owners = []; level = l.level; delay_ms = l.delay_ms }) n o
        (λ m q f. cc) e
  joined_owner l routes (some r) retry old at n o e =
      insert_owner r n o (λ m q f. old retry m r q at f) e

  join_level-AllOwners :
      (l : RetryLevel) (routes : Routes)
      → AllOwners P routes
      → AllOwners P (join_level topic sub l routes)
  unfolding join_level
  join_level-AllOwners l routes old =
      let retry : Text = ladder_topic sub.plan l.level in
      insert_route retry _ routes old (joined_owner l routes (lookup retry routes) retry old refl)

  join_levels-AllOwners :
      (levels : List RetryLevel) (routes : Routes)
      → AllOwners P routes
      → AllOwners P (join_levels topic sub levels routes)
  unfolding join_levels
  join_levels-AllOwners [] routes old = old
  join_levels-AllOwners (l ∷ levels) routes old =
      join_levels-AllOwners levels (join_level topic sub l routes)
        (join_level-AllOwners l routes old)

lookup-join_level :
    (topic : Text) (sub : Subscription) (d : Text) (l : RetryLevel) (routes : Routes)
    → text_eq (ladder_topic sub.plan l.level) d ≡ false
    → lookup d (join_level topic sub l routes) ≡ lookup d routes
unfolding join_level
lookup-join_level topic sub d l routes apart = rw (lookup-insert, apart)

-- A topic apart from the ladder is routed as before.
lookup-join_levels :
    (topic : Text) (sub : Subscription) (d : Text) (levels : List RetryLevel) (routes : Routes)
    → member d (consumed_topics sub.plan) ≡ false
    → All (Placed sub.plan) levels
    → lookup d (join_levels topic sub levels routes) ≡ lookup d routes
unfolding join_levels
lookup-join_levels topic sub d [] routes apart placed = refl
lookup-join_levels topic sub d (l ∷ levels) routes apart placed =
    lookup-join_levels topic sub d levels (join_level topic sub l routes) apart placed.1
    ∙ lookup-join_level topic sub d l routes (
        text_eq_comm (ladder_topic sub.plan l.level) d
        ∙ apart_from_ladder sub.plan d l apart placed.0)

original_apart :
    (plan : TopicPlan) (d : Text)
    → member d (consumed_topics plan) ≡ false
    → text_eq d plan.original ≡ false
unfolding member consumed_topics
original_apart plan d free = ground arith

not_consumed :
    (routes : Routes) (found : Option Text) (d : Text)
    → dlq_is_consumed routes found ≡ false
    → found ≡ some d
    → lookup d routes ≡ none
unfolding dlq_is_consumed
not_consumed routes found d h e = ground arith

not_filled :
    (plan : TopicPlan) (s : Subscription) (d : Text)
    → fills_consumed plan s ≡ false
    → s.plan.dlq_topic ≡ some d
    → member d (consumed_topics plan) ≡ false
unfolding fills_consumed
not_filled plan s d h e = ground arith

fills_any-owner :
    (plan : TopicPlan) (routes : Routes) (t name : Text) (r : Route) (s : Subscription)
    → fills_any plan routes ≡ false
    → lookup t routes ≡ some r
    → lookup name r.owners ≡ some s
    → fills_consumed plan s ≡ false
unfolding fills_any
fills_any-owner plan routes t name r s h e f =
    any_value-lookup _ name r.owners s (any_value-lookup _ t routes r h e) f

only_owner :
    (P : Subscription → Type 0) (topic name : Text) (sub s : Subscription)
    → P sub
    → lookup name ((topic, sub) ∷ []) ≡ some s
    → P s
unfolding lookup
only_owner P topic name sub s p e = elim (Bool-cases (text_eq topic name)) [
  | inl same ↦ subst P (ground arith) p
  | inr other ↦ ground arith
]

module _ (routes : Routes) (apart : DlqsApart routes) (topic : Text) (sub : Subscription)
    (levels : List RetryLevel) (placed : All (Placed sub.plan) levels)
    (own : sub.plan.original ≡ topic) where
  abbrev joined : Routes
  joined =
      join_levels topic sub levels
        (insert topic (record { owners = (topic, sub) ∷ []; level = 0; delay_ms = 0 }) routes)

  lookup-joined :
      (d : Text) → member d (consumed_topics sub.plan) ≡ false → lookup d joined ≡ lookup d routes
  lookup-joined d free =
      lookup-join_levels topic sub d levels _ free placed ∙ rw (lookup-insert, topic_apart) refl
    where
      topic_apart : text_eq topic d ≡ false
      topic_apart =
          text_eq_comm topic d
          ∙ subst (λ (t : Text). text_eq d t ≡ false) own (original_apart sub.plan d free)

  -- The table that `route` builds, where its checks let it through.
  joined-DlqsApart :
      dlq_is_consumed routes sub.plan.dlq_topic ≡ false
      → ((d : Text) → sub.plan.dlq_topic ≡ some d → member d (consumed_topics sub.plan) ≡ false)
      → fills_any sub.plan routes ≡ false
      → DlqsApart joined
  joined-DlqsApart unconsumed own_dlq unfilled =
      join_levels-AllOwners topic sub (DlqApart joined) of_new levels _ (
        insert_route topic sub (DlqApart joined) of_new topic _ routes of_old
          (λ n o e. only_owner (DlqApart joined) topic n sub o of_new e))
    where
      of_new : DlqApart joined sub
      of_new d e =
          lookup-joined d (own_dlq d e) ∙ not_consumed routes sub.plan.dlq_topic d unconsumed e

      of_old : AllOwners (DlqApart joined) routes
      of_old t name r s e f d q =
          lookup-joined d
            (not_filled sub.plan s d (fills_any-owner sub.plan routes t name r s unfilled e f) q)
          ∙ apart t name r s e f d q

route-Ensures :
    (settings : Settings) (delays : List ℕ) (routes : Routes) (topic : Text) (run : Run)
    (idempotency : Bool) (breaker : Option Breaker)
    → settings.levels ≡ resolve_retry_levels delays
    → DlqsApart routes
    → Ensures DlqsApart (route settings routes topic run idempotency breaker)
unfolding route
route-Ensures settings delays routes topic run idempotency breaker levels apart =
    Ensures-bind
      (λ plan.
        (plan.original ≡ topic)
        × IsPlan (settings.retry_naming topic) (length settings.levels) plan)
      DlqsApart
      (topic_plan topic (length settings.levels) settings.retry_naming settings.dlq_naming) _
      (topic_plan-Ensures topic (length settings.levels) settings.retry_naming settings.dlq_naming)
      λ plan _ built. Ensures-refuse_if DlqsApart (has topic routes) _ _ λ _.
        Ensures-bind (λ _. Unit {0}) DlqsApart (check_levels routes plan run settings.levels) _
          (trivial _)
          λ _ _ _.
            Ensures-refuse_if DlqsApart (dlq_is_consumed routes plan.dlq_topic) _ _ λ unconsumed.
              Ensures-refuse_if DlqsApart (fills_any plan routes) _ _ λ unfilled.
                joined-DlqsApart routes apart topic
                  (record { plan = plan; run = run; idempotency = idempotency; breaker = breaker })
                  settings.levels (placed plan built.1) built.0 unconsumed built.1.dlq_apart
                  unfilled
  where
    placed :
        (plan : TopicPlan)
        → IsPlan (settings.retry_naming topic) (length settings.levels) plan
        → All (Placed plan) settings.levels
    placed plan p = subst (All (Placed plan)) (sym levels) (
        resolve_retry_levels-Placed plan delays
          (p.complete ∙ (ap length levels ∙ length-resolve_retry_levels delays)))

    trivial : (r : Result (Unit {0})) → Ensures (λ _. Unit {0}) r
    trivial (ok u) = tt
    trivial (err e) = tt

-- A subscription that `route` accepts, over a ladder of any delays, leaves every DLQ of the
-- consumer, its own and the earlier ones', apart from what the consumer consumes, if they were.
pub route-DlqsApart :
    (settings : Settings) (delays : List ℕ) (routes : Routes) (topic : Text) (run : Run)
    (idempotency : Bool) (breaker : Option Breaker) (after : Routes)
    → settings.levels ≡ resolve_retry_levels delays
    → DlqsApart routes
    → route settings routes topic run idempotency breaker ≡ ok after
    → DlqsApart after
route-DlqsApart settings delays routes topic run idempotency breaker after levels apart accepted =
    Ensures-ok DlqsApart _ after accepted
      (route-Ensures settings delays routes topic run idempotency breaker levels apart)

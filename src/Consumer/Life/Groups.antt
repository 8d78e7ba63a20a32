-- ===== src/Consumer/Life/Groups.antt =====
-- `consumptions` and `handles` of src/consumer.ts: the consumed topics by ladder level, and what the
-- client opened for them.
pub mod Apart
pub mod Levels
use kafka_harbor.Prelude.{
  ℕ, Bool, true, false, not, ◌&&◌, ◌||◌, Option, none, some, List, [], ◌∷◌, ◌++◌, Text, Dict, any,
  filter, map, ◌==◌, insert, if◌then◌else◌,
}
use kafka_harbor.Errors.{Thrown}
use kafka_harbor.Consumer.{Routes}

-- A level and its topics, in the order of insertion.
pub record Group : Type 0 where
  pub level : ℕ
  pub topics : List Text

unfoldable pub add_topic : ℕ → Text → List Group → List Group
add_topic level topic [] = record { level = level; topics = topic ∷ [] } ∷ []
add_topic level topic (g ∷ gs) =
    let rest = add_topic level topic gs in
    if g.level == level then record g { topics = g.topics ++ topic ∷ [] } ∷ gs else g ∷ rest

-- The loop over the routes.
unfoldable pub group_routes : Routes → List Group → List Group
unfolding add_topic
group_routes [] gs = gs
group_routes ((topic, route) ∷ routes) gs = group_routes routes (add_topic route.level topic gs)

unfoldable pub topics_of : List Group → List (List Text)
topics_of [] = []
topics_of (g ∷ gs) = g.topics ∷ topics_of gs

-- `consumptions`
unfoldable pub consumptions : Routes → List (List Text)
unfolding group_routes topics_of
consumptions routes = topics_of (group_routes routes [])

-- What `adapter.consume` answers for one of them: a handle, which can pause or not, or what it threw.
pub data Answer : Type 0 where
  opens : ℕ → Bool → Answer
  refuses : Thrown → Answer

pub record Opened : Type 0 where
  pub topics : List Text
  pub handle : ℕ
  pub can_pause : Bool

unfoldable pub opened : List (List Text) → List Answer → List Opened
opened (ts ∷ groups) (opens handle can_pause ∷ answers) =
    record { topics = ts; handle = handle; can_pause = can_pause } ∷ opened groups answers
opened (ts ∷ groups) (refuses thrown ∷ answers) = opened groups answers
opened [] answers = []
opened (ts ∷ groups) [] = []

-- `firstRejection`
unfoldable pub first_rejection : List Answer → Option Thrown
first_rejection [] = none
first_rejection (opens handle can_pause ∷ answers) = first_rejection answers
first_rejection (refuses thrown ∷ answers) = some thrown

unfoldable pub cannot_pause : List Opened → Bool
cannot_pause os = any (λ o. not o.can_pause) os

unfoldable pub set_topics : List Text → ℕ → Dict ℕ → Dict ℕ
set_topics [] handle handles = handles
set_topics (t ∷ ts) handle handles = set_topics ts handle (insert t handle handles)

-- The end of `join`: every topic gets the handle of its consumption.
unfoldable pub set_handles : List Opened → Dict ℕ → Dict ℕ
unfolding set_topics
set_handles [] handles = handles
set_handles (o ∷ os) handles = set_handles os (set_topics o.topics o.handle handles)

unfoldable pub add_id : ℕ → List ℕ → List ℕ
add_id x xs = if any (λ y. y == x) xs then xs else x ∷ xs

-- `[...new Set(this.handles.values())]`
unfoldable pub handle_ids : Dict ℕ → List ℕ
unfolding add_id
handle_ids [] = []
handle_ids ((t, x) ∷ handles) = add_id x (handle_ids handles)

-- ===== src/Consumer/Life/Groups/Apart.antt =====
-- The consumptions of a routing table of src/consumer.ts share no topic, so each handle that the client
-- opened is found again by the topics of its consumption.
use kafka_harbor.Prelude.{
  ℕ, ◌≡◌, refl, Bool, true, false, some, List, [], ◌∷◌, Text, Dict, lookup, insert, arith, any,
  any_value, lookup-insert, text_eq_iff, text_eq_refl, ◌==◌, ==_iff, if◌then◌else◌,
}
use kafka_harbor.Topics.{member}
use kafka_harbor.Consumer.Life.Groups.{
  Answer, opens, refuses, Opened, opened, set_topics, set_handles, add_id, handle_ids,
}

-- Whether a topic is in none of the consumptions.
unfoldable pub Absent : Text → List (List Text) → Type 0
Absent t [] = Unit
Absent t (ts ∷ groups) = (member t ts ≡ false) × Absent t groups

-- Each consumption has a topic, and shares none with a later one.
pub data Apart : List (List Text) → Type 0 where
  empty : Apart []
  more :
      {t : Text} {ts : List Text} {groups : List (List Text)}
      → ((u : Text) → member u (t ∷ ts) ≡ true → Absent u groups)
      → Apart groups
      → Apart ((t ∷ ts) ∷ groups)

unfoldable pub holds : ℕ → Dict ℕ → Bool
holds x handles = any_value (λ y. y == x) handles

unfoldable pub opens_handle : ℕ → List Opened → Bool
opens_handle x os = any (λ o. o.handle == x) os

lookup-holds :
    (t : Text) (x : ℕ) (handles : Dict ℕ) → lookup t handles ≡ some x → holds x handles ≡ true
unfolding holds lookup any_value
lookup-holds t x [] e = ground arith
lookup-holds t x ((u, y) ∷ handles) e = ground (arith, lookup-holds t x handles)

lookup-set_topics :
    (t : Text) (ts : List Text) (x : ℕ) (handles : Dict ℕ)
    → lookup t (set_topics ts x handles) ≡ (if member t ts then some x else lookup t handles)
unfolding set_topics member
lookup-set_topics t [] x handles = refl
lookup-set_topics t (u ∷ ts) x handles = ground (
  arith,
  lookup-set_topics t ts x (insert u x handles),
  lookup-insert u t x handles,
  text_eq_iff u t,
  text_eq_iff t u,
)

lookup-set_handles :
    (t : Text) (groups : List (List Text)) (answers : List Answer) (handles : Dict ℕ)
    → Absent t groups
    → lookup t (set_handles (opened groups answers) handles) ≡ lookup t handles
unfolding set_handles opened Absent
lookup-set_handles t [] answers handles a = refl
lookup-set_handles t (ts ∷ groups) [] handles a = refl
lookup-set_handles t (ts ∷ groups) (refuses thrown ∷ answers) handles a =
    lookup-set_handles t groups answers handles a.1
lookup-set_handles t (ts ∷ groups) (opens x can_pause ∷ answers) handles a = ground (
  arith,
  lookup-set_handles t groups answers (set_topics ts x handles) a.1,
  lookup-set_topics t ts x handles,
)

member_head : (t : Text) (ts : List Text) → member t (t ∷ ts) ≡ true
unfolding member
member_head t ts = ground (arith, text_eq_refl t)

-- Every handle that the client opened is kept.
pub set_handles-holds :
    (x : ℕ) (groups : List (List Text)) (answers : List Answer) (handles : Dict ℕ)
    → Apart groups
    → opens_handle x (opened groups answers) ≡ true
    → holds x (set_handles (opened groups answers) handles) ≡ true
unfolding opened opens_handle set_handles
set_handles-holds x [] answers handles a e = ground arith
set_handles-holds x (ts ∷ groups) [] handles a e = ground arith
set_handles-holds x (_ ∷ groups) (refuses thrown ∷ answers) handles (more apart a) e =
    set_handles-holds x groups answers handles a e
set_handles-holds x (_ ∷ groups) (opens y can_pause ∷ answers) handles (more {t} {ts} apart a) e =
    let set = set_topics (t ∷ ts) y handles in
    let kept = lookup-holds t y (set_handles (opened groups answers) set) (
      ground (
        arith,
        lookup-set_handles t groups answers set (apart t (member_head t ts)),
        lookup-set_topics t (t ∷ ts) y handles,
        member_head t ts,
      )) in
    ground (arith, ==_iff y x, set_handles-holds x groups answers set a)

-- The distinct handles are the handles.
pub any-handle_ids :
    (x : ℕ) (handles : Dict ℕ) → any (λ y. y == x) (handle_ids handles) ≡ holds x handles
unfolding handle_ids add_id holds any_value
any-handle_ids x [] = refl
any-handle_ids x ((t, y) ∷ handles) =
    ground (arith, any-handle_ids x handles, any-handle_ids y handles, ==_iff y x)

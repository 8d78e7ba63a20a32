-- ===== src/Consumer/Life/Groups/Levels.antt =====
-- `consumptions` of src/consumer.ts: the topics of a routing table, split by their level.
use kafka_harbor.Prelude.{
  inl, inr, ℕ, ◌≡◌, refl, Bool, true, false, ◌||◌, Option, none, some, List, [], ◌∷◌, ◌++◌, Text,
  lookup, arith, All, any, text_eq, text_eq_iff, ◌==◌, ==_iff, Bool-cases, ◌∙◌, ap, has, sym,
  text_eq_comm,
}
use kafka_harbor.Topics.{member}
use kafka_harbor.Consumer.{Route, Routes}
use kafka_harbor.Consumer.Life.Groups.{Group, add_topic, group_routes, topics_of, consumptions}
use kafka_harbor.Consumer.Life.Groups.Apart.{Absent, Apart, empty, more}

-- The level of a topic of the table.
abbrev route_level : Option Route → ℕ
route_level none = 0
route_level (some route) = route.level

unfoldable pub level_of : Routes → Text → ℕ
level_of routes t = route_level (lookup t routes)

-- A table lists each topic once: every entry is the one that is found.
abbrev pub IsTable : Routes → Type 0
IsTable routes = All (λ entry. lookup entry.0 routes ≡ some entry.1) routes

-- All topics of a consumption are of one level.
abbrev pub OneLevel : Routes → List Text → Type 0
OneLevel routes ts =
    (t u : Text) → member t ts ≡ true → member u ts ≡ true → level_of routes t ≡ level_of routes u

has_level : ℕ → List Group → Bool
has_level l gs = any (λ g. g.level == l) gs

module _ (routes : Routes) where
  -- Groups of distinct levels, each with topics of its level.
  data Fits : List Group → Type 0 where
    none_yet : Fits []
    one_more :
        {l : ℕ} {t : Text} {ts : List Text} {gs : List Group}
        → ((u : Text) → member u (t ∷ ts) ≡ true → level_of routes u ≡ l)
        → has_level l gs ≡ false
        → Fits gs
        → Fits (record { level = l; topics = t ∷ ts } ∷ gs)

  add_topic-has_level :
      (k l : ℕ) (t : Text) (gs : List Group)
      → has_level k (add_topic l t gs) ≡ (l == k || has_level k gs)
  unfolding add_topic has_level
  add_topic-has_level k l t [] = ground arith
  add_topic-has_level k l t (g ∷ gs) =
      ground (arith, add_topic-has_level k l t gs, ==_iff g.level l, ==_iff l k)

  member-append :
      (u t : Text) (ts : List Text) → member u (ts ++ t ∷ []) ≡ (member u ts || text_eq u t)
  unfolding member
  member-append u t [] = ground arith
  member-append u t (v ∷ ts) = ground (arith, member-append u t ts)

  add_topic-Fits :
      (l : ℕ) (t : Text) (gs : List Group)
      → level_of routes t ≡ l
      → Fits gs
      → Fits (add_topic l t gs)
  unfolding add_topic has_level member
  add_topic-Fits l t [] e none_yet = one_more (λ u m. ground (arith, text_eq_iff u t)) refl none_yet
  add_topic-Fits l t (_ ∷ gs) e (one_more {l = k} {t = v} {ts} levels fresh fits) =
      elim (Bool-cases (k == l)) [
        | inl same ↦ rw same (
            one_more {ts = ts ++ t ∷ []}
              (λ u m.
                ground (arith, ==_iff k l, levels u, member-append u t (v ∷ ts), text_eq_iff u t))
              fresh fits)
        | inr other ↦ rw other (
            one_more levels (ground (arith, add_topic-has_level k l t gs, ==_iff l k, ==_iff k l))
              (add_topic-Fits l t gs e fits))
      ]

  group_routes-Fits :
      (rs : Routes) (gs : List Group)
      → All (λ entry. lookup entry.0 routes ≡ some entry.1) rs
      → Fits gs
      → Fits (group_routes rs gs)
  unfolding group_routes level_of
  group_routes-Fits [] gs h fits = fits
  group_routes-Fits ((t, r) ∷ rs) gs (e, h) fits =
      group_routes-Fits rs (add_topic r.level t gs) h
        (add_topic-Fits r.level t gs (ap route_level e) fits)

  Fits-Absent :
      (t : Text) (gs : List Group)
      → has_level (level_of routes t) gs ≡ false
      → Fits gs
      → Absent t (topics_of gs)
  unfolding topics_of Absent has_level
  Fits-Absent t [] e none_yet = tt
  Fits-Absent t (_ ∷ gs) e (one_more {l} {t = v} {ts} levels fresh fits) =
      (ground (arith, levels t, ==_iff l (level_of routes t)), Fits-Absent t gs (ground arith) fits)

  Fits-Apart : (gs : List Group) → Fits gs → Apart (topics_of gs)
  unfolding topics_of
  Fits-Apart [] none_yet = empty
  Fits-Apart (_ ∷ gs) (one_more {l} {t = v} {ts} levels fresh fits) =
      more (λ u m. Fits-Absent u gs (rw (levels u m) fresh) fits) (Fits-Apart gs fits)

  Fits-OneLevel : (gs : List Group) → Fits gs → All (OneLevel routes) (topics_of gs)
  unfolding topics_of
  Fits-OneLevel [] none_yet = tt
  Fits-OneLevel (_ ∷ gs) (one_more levels fresh fits) =
      (λ t u m n. levels t m ∙ sym (levels u n), Fits-OneLevel gs fits)

  add_topic-covers :
      (u : Text) (l : ℕ) (t : Text) (gs : List Group)
      → any (member u) (topics_of (add_topic l t gs))
        ≡ (text_eq u t || any (member u) (topics_of gs))
  unfolding add_topic topics_of member
  add_topic-covers u l t [] = ground arith
  add_topic-covers u l t (g ∷ gs) =
      ground (arith, add_topic-covers u l t gs, member-append u t g.topics)

  group_routes-covers :
      (u : Text) (rs : Routes) (gs : List Group)
      → any (member u) (topics_of (group_routes rs gs))
        ≡ (has u rs || any (member u) (topics_of gs))
  unfolding group_routes lookup
  group_routes-covers u [] gs = refl
  group_routes-covers u ((t, r) ∷ rs) gs = ground (
    arith,
    group_routes-covers u rs (add_topic r.level t gs),
    add_topic-covers u r.level t gs,
    text_eq_comm t u,
  )

-- The consumptions of a table consume exactly the topics that it routes, each of them once, and the
-- topics of one consumption are of one level.
pub consumptions-Apart :
    (routes : Routes)
    → IsTable routes
    → Apart (consumptions routes)
      × All (OneLevel routes) (consumptions routes)
      × ((t : Text) → any (member t) (consumptions routes) ≡ has t routes)
unfolding consumptions topics_of
consumptions-Apart routes h =
    let fits = group_routes-Fits routes routes [] h none_yet in
    (
      Fits-Apart routes _ fits,
      Fits-OneLevel routes _ fits,
      λ t. ground (arith, group_routes-covers routes t routes []),
    )

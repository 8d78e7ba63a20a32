-- ===== src/Platformatic/Gate/Rejoin.antt =====
-- The invariant of `Consumption` (src/adapters/platformatic/index.ts) through a rejoin of the group.
use kafka_harbor.Prelude.{
  ℕ, ◌≡◌, refl, Bool, true, false, not, Option, none, some, List, [], ◌∷◌, Text, arith,
  if◌then◌else◌, filter, any,
}
use kafka_harbor.Topics.{member}
use kafka_harbor.Adapter.{TopicPartition}
use kafka_harbor.Platformatic.{set_add, remove, assigned_now}
use kafka_harbor.Platformatic.Gate.{Consumption, Bounds, release, drop_queue, forget}
use kafka_harbor.Platformatic.Gate.Stream.{
  keys_in, held, lost_now, forget_all, drop_all, rotate_stream, rotate, note_revoked, regain,
  joined,
}
use kafka_harbor.Platformatic.Gate.Sets.{
  times-remove, size, size-delete, entries-delete, total-delete,
}
use kafka_harbor.Platformatic.Gate.Line.{IsLive}
use kafka_harbor.Platformatic.Gate.Fair.{is_spent, has_line, IsDispatched}

module _ (bounds : Bounds) where
  -- A turn that leaves the line, the queues and the workers alone.
  pub record SameLine (g h : Consumption) : Type 0 where
    pub same_queues : h.queues ≡ g.queues
    pub same_ready : h.ready ≡ g.ready
    pub same_waiting : h.waiting ≡ g.waiting
    pub same_running : h.running ≡ g.running
    pub same_paused : h.paused ≡ g.paused
    pub same_active : h.active ≡ g.active
    pub same_queued : h.queued ≡ g.queued
    pub still_stopped : g.stopped ≡ true → h.stopped ≡ true

  pub same-IsDispatched :
      (g h : Consumption) → SameLine g h → IsDispatched bounds g → IsDispatched bounds h
  unfolding is_spent
  same-IsDispatched g h s d = record {
    fair = record {
      lines = λ k. ground (arith, d.fair.lines k, s);
      lives = λ k. let live : IsLive k g = d.fair.lives k in ground (arith, live.lines_up, s);
      counted = ground (arith, d.fair.counted, s);
    };
    spent = ground (arith, d.spent, s);
  }

  pub either :
      {g h : Consumption} (b : Bool)
      → IsDispatched bounds g
      → IsDispatched bounds h
      → IsDispatched bounds (if b then g else h)
  either true d e = d
  either false d e = e

  has_line-remove :
      (k : Text) (keys : List Text) → has_line keys ≡ false → has_line (remove k keys) ≡ false
  unfolding has_line remove
  has_line-remove k [] e = refl
  has_line-remove k (j ∷ keys) e = ground arith

  drop_queue-IsDispatched :
      (j : Text) (g : Consumption) → IsDispatched bounds g → IsDispatched bounds (drop_queue j g)
  unfolding drop_queue is_spent size
  drop_queue-IsDispatched j g d = record {
    fair = record {
      lines = λ k. ground (
        arith,
        d.fair.lines k,
        times-remove k j g.waiting,
        times-remove k j g.ready,
        size-delete k j g.queues,
        entries-delete k j g.queues,
      );
      lives = λ k.
          let live : IsLive k g = d.fair.lives k in
          ground (arith, live.lines_up, times-remove k j g.ready, size-delete k j g.queues);
      counted = ground (arith, d.fair.counted, d.fair.lines j, total-delete j g.queues);
    };
    spent = ground (arith, d.spent, has_line-remove j g.ready);
  }

  forget-IsDispatched :
      (j : Text) (g : Consumption) → IsDispatched bounds g → IsDispatched bounds (forget j g)
  unfolding forget drop_queue is_spent
  forget-IsDispatched j g d =
      let dropped : IsDispatched bounds (drop_queue j g) = drop_queue-IsDispatched j g d in
      record {
        fair = record {
          lines = λ k. ground (arith, dropped.fair.lines k);
          lives = λ k.
              let live : IsLive k (drop_queue j g) = dropped.fair.lives k in
              ground (arith, live.lines_up, times-remove k j g.paused, size-delete k j g.queues);
          counted = ground (arith, dropped.fair.counted);
        };
        spent = ground (arith, dropped.spent);
      }

  forget_all-IsDispatched :
      (keys : List Text) (g : Consumption)
      → IsDispatched bounds g
      → IsDispatched bounds (forget_all keys g)
  unfolding forget_all
  forget_all-IsDispatched [] g d = d
  forget_all-IsDispatched (key ∷ keys) g d =
      let marked : Consumption = record g { lost = set_add key g.lost } in
      forget_all-IsDispatched keys (forget key marked)
        (forget-IsDispatched key marked (same-IsDispatched g marked (ground arith) d))

  drop_all-IsDispatched :
      (keys : List Text) (g : Consumption)
      → IsDispatched bounds g
      → IsDispatched bounds (drop_all keys g)
  unfolding drop_all
  drop_all-IsDispatched [] g d = d
  drop_all-IsDispatched (key ∷ keys) g d =
      drop_all-IsDispatched keys (drop_queue key g) (drop_queue-IsDispatched key g d)

  rotate-IsDispatched :
      (stream : Option ℕ) (stopped : Bool) (g : Consumption)
      → IsDispatched bounds g
      → IsDispatched bounds (rotate_stream stream stopped g)
  unfolding rotate_stream
  rotate-IsDispatched none stopped g d = d
  rotate-IsDispatched (some s) true g d = d
  rotate-IsDispatched (some s) false g d =
      same-IsDispatched (drop_all (keys_in g.queues) g) _ (ground arith)
        (drop_all-IsDispatched (keys_in g.queues) g d)

  regain-IsDispatched :
      (now : List Text) (g : Consumption)
      → IsDispatched bounds g
      → IsDispatched bounds (regain now g)
  unfolding regain rotate
  regain-IsDispatched now g d =
      let kept : Consumption = record g {
        lost = filter (λ key. not (member key now)) g.lost;
        assigned = now;
      } in
      let same : IsDispatched bounds kept = same-IsDispatched g kept (ground arith) d in
      either (any (λ key. member key now) g.lost)
        (rotate-IsDispatched kept.stream kept.stopped kept same) same

  release-IsDispatched :
      (g : Consumption) → IsDispatched bounds g → IsDispatched bounds (release bounds g)
  unfolding release
  release-IsDispatched g d = same-IsDispatched g _ (ground arith) d

  note_revoked-IsDispatched :
      (keys : List Text) (g : Consumption)
      → IsDispatched bounds g
      → IsDispatched bounds (note_revoked keys g)
  unfolding note_revoked
  note_revoked-IsDispatched [] g d = d
  note_revoked-IsDispatched (key ∷ keys) g d = same-IsDispatched g _ (ground arith) d

  pub joined-IsDispatched :
      (assignments : Option (List TopicPartition)) (g : Consumption)
      → IsDispatched bounds g
      → IsDispatched bounds (joined bounds assignments g)
  unfolding joined
  joined-IsDispatched assignments g d =
      let now = assigned_now assignments in
      let keys = lost_now now (held g) in
      let told : Consumption = record g { assignments = assignments } in
      release-IsDispatched _ (
        regain-IsDispatched now _ (
          note_revoked-IsDispatched keys _
            (forget_all-IsDispatched keys told (same-IsDispatched g told (ground arith) d))))

-- ===== src/Platformatic/Gate/Fair.antt =====
-- `dispatch` of `Consumption` (src/adapters/platformatic/index.ts) is fair, ends, and leaves no worker
-- idle while a partition waits.
use kafka_harbor.Prelude.{
  inl, inr, ℕ, zero, suc, ◌+◌, ◌-◌, ◌≤◌, ◌<◌, ◌≡◌, refl, Bool, true, false, not, ◌||◌, List, [],
  ◌∷◌, Text, ltb, leb, length, arith, text_eq, text_eq_iff, length-append, Bool-cases, delete,
}
use kafka_harbor.Topics.{member}
use kafka_harbor.Platformatic.{ClientMessage, remove, is_assigned}
use kafka_harbor.Platformatic.Gate.{
  Consumption, Bounds, queue_of, mark_ready, release, settle, settle_in, deliver, deliver_in,
  shift_queue, start_first, take_first, round, round_unless, go_on, dispatch_on, dispatch,
}
use kafka_harbor.Platformatic.Gate.Sets.{times, member-times, size, total-insert}
use kafka_harbor.Platformatic.Gate.Line.{
  InLine, IsLive, IsCounted, IsFair, settle-InLine, settle-IsLive, settle-IsCounted, popped, taken,
  popped-InLine, popped-IsLive, taken-InLine, taken-IsLive, times-taken, taken-IsCounted, size-head,
}

-- What bounds the rounds of `dispatch`.
unfoldable pub measure : Consumption → ℕ
measure g = g.queued + length g.ready

unfoldable pub has_line : List Text → Bool
has_line [] = false
has_line (k ∷ keys) = true

-- Nothing can be handed out: the consumption stopped, all workers are busy, or no partition waits.
unfoldable pub is_spent : Bounds → Consumption → Bool
is_spent bounds g = g.stopped || leb bounds.concurrency g.active || not (has_line g.ready)

module _ (bounds : Bounds) where
  -- What one round of the loop keeps and how it advances.
  record Advances (g : Consumption) (next : Consumption) : Type 0 where
    fair : IsFair bounds next
    less : measure next < measure g

  mark_ready-measure : (j : Text) (g : Consumption) → measure (mark_ready j g) ≤ suc (measure g)
  unfolding mark_ready measure
  mark_ready-measure j g = ground (arith, length-append g.ready (j ∷ []))

  settle-measure : (j : Text) (g : Consumption) → measure (settle bounds j g) ≤ suc (measure g)
  unfolding settle settle_in measure
  settle-measure j g =
      let after : Consumption = record g { running = remove j g.running; active = g.active - 1 } in
      ground (arith, mark_ready-measure j after)

  -- A worker that has its message: the delivery begins, or ends as the partition was lost.
  record Taken (j : Text) (g : Consumption) : Type 0 where
    lines : (k : Text) → InLine k g
    lives : (k : Text) → text_eq j k ≡ false → IsLive k g
    runs : times j g.running ≡ 1
    counted : IsCounted bounds g

  released-Taken : (j : Text) (g : Consumption) → Taken j g → Taken j (release bounds g)
  unfolding release
  released-Taken j g t = record {
    lines = λ k. ground (arith, t.lines k);
    lives = λ k other. let live : IsLive k g = t.lives k other in ground (arith, live.lines_up);
    runs = t.runs;
    counted = ground (arith, t.counted);
  }

  deliver_in-IsFair :
      (assigned : Bool) (j : Text) (m : ClientMessage) (g : Consumption)
      → Taken j g
      → IsFair bounds (deliver_in bounds assigned j m g)
  unfolding deliver_in
  deliver_in-IsFair true j m g t = record {
    lines = λ k. ground (arith, t.lines k);
    lives = λ k. elim (Bool-cases (text_eq j k)) [
      | inl same ↦ record {
        lines_up = λ some idle flowing going. ground (arith, t.runs, text_eq_iff j k);
      }
      | inr other ↦ let live : IsLive k g = t.lives k other in ground (arith, live.lines_up)
    ];
    counted = ground (arith, t.counted);
  }
  deliver_in-IsFair false j m g t =
      let lost : Consumption = record g {
        last_queued = delete j g.last_queued;
        epochs = delete j g.epochs;
      } in
      let line : (k : Text) → InLine k lost = λ k. ground (arith, t.lines k) in
      record {
        lines = λ k. settle-InLine bounds k j lost (line j) (line k);
        lives = λ k.
            settle-IsLive bounds k j lost (line j)
              (λ other. let live : IsLive k g = t.lives k other in ground (arith, live.lines_up));
        counted = settle-IsCounted bounds j lost t.runs (ground (arith, t.counted));
      }

  deliver-IsFair :
      (j : Text) (m : ClientMessage) (g : Consumption)
      → Taken j g
      → IsFair bounds (deliver bounds j m g)
  unfolding deliver
  deliver-IsFair j m g t =
      deliver_in-IsFair (is_assigned g.assignments m.topic m.partition) j m (release bounds g)
        (released-Taken j g t)

  deliver-measure :
      (j : Text) (m : ClientMessage) (g : Consumption)
      → measure (deliver bounds j m g) ≤ suc (measure g)
  unfolding deliver deliver_in release measure
  deliver-measure j m g =
      let lost : Consumption = record (release bounds g) {
        last_queued = delete j g.last_queued;
        epochs = delete j g.epochs;
      } in
      ground (arith, settle-measure j lost)

  -- A round that hands out a message, or passes over a partition that is paused.
  module _ (j : Text) (ready : List Text) (g : Consumption) (e : g.ready ≡ j ∷ ready)
      (f : IsFair bounds g) where
    passed-Advances :
        (times j g.paused ≡ 0 → size j g.queues ≡ 0) → Advances g (popped bounds j ready g)
    unfolding measure
    passed-Advances idle = record {
      fair = record {
        lines = popped-InLine bounds j ready g e f;
        lives = λ k. elim (Bool-cases (text_eq j k)) [
          | inl same ↦ record {
            lines_up = λ some free flowing going. ground (arith, idle, text_eq_iff j k);
          }
          | inr other ↦ popped-IsLive bounds j ready g e f k other
        ];
        counted = ground (arith, f.counted);
      };
      less = rw e (omega arith);
    }

    shift_queue-Advances :
        (queue : List ClientMessage)
        → queue_of j g.queues ≡ queue
        → suc g.active ≤ bounds.concurrency
        → Advances g (shift_queue bounds j queue (popped bounds j ready g))
    unfolding shift_queue measure size
    shift_queue-Advances [] q free = passed-Advances (λ flowing. ground arith)
    shift_queue-Advances (m ∷ queue) q free = record {
      fair = deliver-IsFair j m (taken bounds j queue (popped bounds j ready g)) (record {
        lines = taken-InLine bounds j ready g e f m queue q;
        lives = taken-IsLive bounds j ready g e f m queue q;
        runs = times-taken bounds j ready g e f m queue q;
        counted = taken-IsCounted bounds j ready g e f m queue q free;
      });
      less = ground (
        arith,
        e,
        f.counted,
        total-insert j queue g.queues,
        size-head bounds j ready g e f m queue q,
        deliver-measure j m (taken bounds j queue (popped bounds j ready g)),
      );
    }

    start_first-Advances :
        (is_paused : Bool)
        → member j g.paused ≡ is_paused
        → suc g.active ≤ bounds.concurrency
        → Advances g (start_first bounds is_paused j (popped bounds j ready g))
    unfolding start_first
    start_first-Advances true p free =
        passed-Advances (λ flowing. ground (arith, member-times j g.paused))
    start_first-Advances false p free = shift_queue-Advances (queue_of j g.queues) refl free

  -- A round advances; when there is none to make, nothing can be handed out.
  data Rounded (g : Consumption) : Bool × Consumption → Type 0 where
    over : is_spent bounds g ≡ true → Rounded g (false, g)
    on : {next : Consumption} → Advances g next → Rounded g (true, next)

  take_first-Rounded :
      (keys : List Text) (g : Consumption)
      → g.ready ≡ keys
      → suc g.active ≤ bounds.concurrency
      → IsFair bounds g
      → Rounded g (take_first bounds keys g)
  unfolding take_first is_spent has_line
  take_first-Rounded [] g e free f = over (ground arith)
  take_first-Rounded (j ∷ ready) g e free f =
      on (start_first-Advances j ready g e f (member j g.paused) refl free)

  round_unless-Rounded :
      (spent : Bool) (g : Consumption)
      → (g.stopped || not (ltb g.active bounds.concurrency)) ≡ spent
      → IsFair bounds g
      → Rounded g (round_unless bounds spent g)
  unfolding round_unless is_spent
  round_unless-Rounded true g e f = over (ground arith)
  round_unless-Rounded false g e f = take_first-Rounded g.ready g refl (ground arith) f

  -- What `dispatch` leaves behind.
  pub record IsDispatched (g : Consumption) : Type 0 where
    pub fair : IsFair bounds g
    pub spent : is_spent bounds g ≡ true

  go_on-IsDispatched :
      (fuel : ℕ) (g : Consumption) (r : Bool × Consumption)
      → ((next : Consumption)
          → measure next ≤ fuel
          → IsFair bounds next
          → IsDispatched (dispatch_on bounds fuel next))
      → measure g ≤ suc fuel
      → IsFair bounds g
      → Rounded g r
      → IsDispatched (go_on bounds (dispatch_on bounds fuel) r)
  unfolding go_on
  go_on-IsDispatched fuel g _ loop m f (over spent) = record { fair = f; spent = spent }
  go_on-IsDispatched fuel g _ loop m f (on {next} a) = loop next (omega (arith, a.less)) a.fair

  dispatch_on-IsDispatched :
      (fuel : ℕ) (g : Consumption)
      → measure g ≤ fuel
      → IsFair bounds g
      → IsDispatched (dispatch_on bounds fuel g)
  unfolding dispatch_on round measure is_spent has_line
  dispatch_on-IsDispatched zero g m f = record { fair = f; spent = ground arith }
  dispatch_on-IsDispatched (suc fuel) g m f =
      go_on-IsDispatched fuel g (round bounds g) (dispatch_on-IsDispatched fuel) m f
        (round_unless-Rounded (g.stopped || not (ltb g.active bounds.concurrency)) g refl f)

  -- The rounds that `dispatch` has fuel for are enough.
  pub dispatch-IsDispatched : (g : Consumption) → IsFair bounds g → IsDispatched (dispatch bounds g)
  unfolding dispatch measure
  dispatch-IsDispatched g f = dispatch_on-IsDispatched (g.queued + length g.ready) g (omega arith) f

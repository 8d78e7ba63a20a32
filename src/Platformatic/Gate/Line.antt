-- ===== src/Platformatic/Gate/Line.antt =====
-- The line of `Consumption` (src/adapters/platformatic/index.ts): what each partition and the counters
-- keep while messages are handed to workers.
use kafka_harbor.Prelude.{
  inl, inr, suc, ◌+◌, ◌-◌, ◌≤◌, ◌≡◌, refl, Bool, true, false, not, List, [], ◌∷◌, Text, ltb, length,
  arith, text_eq, text_eq_iff, text_eq_refl, insert, if◌then◌else◌, Bool-cases,
}
use kafka_harbor.Platformatic.{ClientMessage, set_add, remove}
use kafka_harbor.Platformatic.Gate.{
  Consumption, Bounds, queue_of, is_empty, mark_ready, settle, settle_in,
}
use kafka_harbor.Platformatic.Gate.Sets.{
  times, member-times, times-append, times-one, times-set_add, times-remove, length-remove,
  length-set_add, size, total, entries, size-insert, entries-insert, total-insert,
}

-- What a partition keeps: it is in the line once, and there only with a message and without a worker.
pub record InLine (k : Text) (g : Consumption) : Type 0 where
  pub waits_agree : times k g.waiting ≡ times k g.ready
  pub lined_once : times k g.ready ≤ 1
  pub lined_idle : 1 ≤ times k g.ready → times k g.running ≡ 0
  pub lined_queued : 1 ≤ times k g.ready → 1 ≤ size k g.queues
  pub runs_once : times k g.running ≤ 1
  pub entered_once : entries k g.queues ≤ 1

-- A partition with a message, no worker and no pause is in the line.
pub record IsLive (k : Text) (g : Consumption) : Type 0 where
  pub lines_up :
      1 ≤ size k g.queues
      → times k g.running ≡ 0
      → times k g.paused ≡ 0
      → g.stopped ≡ false
      → 1 ≤ times k g.ready

-- The counters are right, and the workers within their bound.
pub record IsCounted (bounds : Bounds) (g : Consumption) : Type 0 where
  pub active_agrees : g.active ≡ length g.running
  pub within : g.active ≤ bounds.concurrency
  pub queued_agrees : g.queued ≡ total g.queues

size-is_empty :
    (k : Text) (g : Consumption) → is_empty (queue_of k g.queues) ≡ not (ltb 0 (size k g.queues))
unfolding size is_empty
size-is_empty k g = ground arith

module _ (k j : Text) (g : Consumption) where
  pub mark_ready-InLine : InLine j g → InLine k g → InLine k (mark_ready j g)
  unfolding mark_ready
  mark_ready-InLine a b = ground (
    arith,
    member-times j g.waiting,
    member-times j g.running,
    size-is_empty j g,
    times-set_add k j g.waiting,
    times-append k g.ready (j ∷ []),
    times-one k j,
    text_eq_iff j k,
  )

  pub mark_ready-IsLive :
      InLine j g → (text_eq j k ≡ false → IsLive k g) → IsLive k (mark_ready j g)
  unfolding mark_ready
  mark_ready-IsLive a b = elim (Bool-cases (text_eq j k)) [
    | inl same ↦ ground (
      arith,
      member-times j g.waiting,
      member-times j g.running,
      member-times j g.paused,
      size-is_empty j g,
      times-append k g.ready (j ∷ []),
      times-one k j,
      text_eq_iff j k,
    )
    | inr other ↦
        let live : IsLive k g = b other in
        ground (arith, live.lines_up, times-append k g.ready (j ∷ []), times-one k j)
  ]

  freed-InLine :
      InLine k g → InLine k (record g { running = remove j g.running; active = g.active - 1 })
  freed-InLine b = ground (arith, times-remove k j g.running)

  freed-IsLive :
      text_eq j k ≡ false
      → IsLive k g
      → IsLive k (record g { running = remove j g.running; active = g.active - 1 })
  freed-IsLive e b = ground (arith, b.lines_up, times-remove k j g.running)

module _ (bounds : Bounds) where
  settle_in-InLine :
      (k j : Text) (halted : Bool) (g : Consumption)
      → InLine j g
      → InLine k g
      → InLine k (settle_in bounds halted j g)
  unfolding settle_in
  settle_in-InLine k j true g a b = b
  settle_in-InLine k j false g a b = mark_ready-InLine k j g a b

  settle_in-IsLive :
      (k j : Text) (halted : Bool) (g : Consumption)
      → g.stopped ≡ halted
      → InLine j g
      → (text_eq j k ≡ false → IsLive k g)
      → IsLive k (settle_in bounds halted j g)
  unfolding settle_in
  settle_in-IsLive k j true g e a b = record { lines_up = λ some idle flowing going. ground arith }
  settle_in-IsLive k j false g e a b = mark_ready-IsLive k j g a b

  pub settle-InLine :
      (k j : Text) (g : Consumption) → InLine j g → InLine k g → InLine k (settle bounds j g)
  unfolding settle
  settle-InLine k j g a b =
      settle_in-InLine k j g.stopped
        (record g { running = remove j g.running; active = g.active - 1 }) (freed-InLine j j g a)
        (freed-InLine k j g b)

  pub settle-IsLive :
      (k j : Text) (g : Consumption)
      → InLine j g
      → (text_eq j k ≡ false → IsLive k g)
      → IsLive k (settle bounds j g)
  unfolding settle
  settle-IsLive k j g a b =
      settle_in-IsLive k j g.stopped
        (record g { running = remove j g.running; active = g.active - 1 }) refl
        (freed-InLine j j g a) (λ e. freed-IsLive k j g e (b e))

  pub mark_ready-IsCounted :
      (j : Text) (g : Consumption) → IsCounted bounds g → IsCounted bounds (mark_ready j g)
  unfolding mark_ready
  mark_ready-IsCounted j g c = ground arith

  pub settle-IsCounted :
      (j : Text) (g : Consumption)
      → times j g.running ≡ 1
      → IsCounted bounds g
      → IsCounted bounds (settle bounds j g)
  unfolding settle settle_in
  settle-IsCounted j g e c =
      let after : Consumption = record g { running = remove j g.running; active = g.active - 1 } in
      let counted : IsCounted bounds after = ground (arith, length-remove j g.running) in
      ground (arith, counted, mark_ready-IsCounted j after counted)

  -- The three together, for every partition.
  pub record IsFair (g : Consumption) : Type 0 where
    pub lines : (k : Text) → InLine k g
    pub lives : (k : Text) → IsLive k g
    pub counted : IsCounted bounds g

  -- The first partition of the line leaves it.
  abbrev pub popped : Text → List Text → Consumption → Consumption
  popped j ready g = record g { ready = ready; waiting = remove j g.waiting }

  -- A worker takes the first message of its queue.
  abbrev pub taken : Text → List ClientMessage → Consumption → Consumption
  taken j queue g = record g {
    queues = insert j queue g.queues;
    queued = g.queued - 1;
    running = set_add j g.running;
    active = g.active + 1;
  }

  module _ (j : Text) (ready : List Text) (g : Consumption) (e : g.ready ≡ j ∷ ready)
      (f : IsFair g) where
    times-line :
        (k : Text) → times k g.ready ≡ (if text_eq j k then suc (times k ready) else times k ready)
    unfolding times
    times-line k = rw e refl

    pub popped-InLine : (k : Text) → InLine k (popped j ready g)
    popped-InLine k = ground (
      arith,
      f.lines k,
      f.lines j,
      times-line k,
      times-line j,
      times-remove k j g.waiting,
      text_eq_iff j k,
      text_eq_refl j,
    )

    pub popped-IsLive : (k : Text) → text_eq j k ≡ false → IsLive k (popped j ready g)
    popped-IsLive k other =
        let live : IsLive k g = f.lives k in ground (arith, live.lines_up, times-line k)

    module _ (m : ClientMessage) (queue : List ClientMessage)
        (q : queue_of j g.queues ≡ m ∷ queue) where
      pub size-head : size j g.queues ≡ suc (length queue)
      unfolding size
      size-head = rw q refl

      pub taken-InLine : (k : Text) → InLine k (taken j queue (popped j ready g))
      taken-InLine k = ground (
        arith,
        popped-InLine k,
        f.lines j,
        f.lines k,
        times-line j,
        times-line k,
        text_eq_refl j,
        times-set_add k j g.running,
        size-insert k j queue g.queues,
        entries-insert k j queue g.queues,
        text_eq_iff j k,
      )

      pub taken-IsLive :
          (k : Text) → text_eq j k ≡ false → IsLive k (taken j queue (popped j ready g))
      taken-IsLive k other =
          let live : IsLive k (popped j ready g) = popped-IsLive k other in
          ground (arith, live.lines_up, times-set_add k j g.running, size-insert k j queue g.queues)

      pub times-taken : times j (set_add j g.running) ≡ 1
      times-taken =
          ground (arith, f.lines j, times-line j, text_eq_refl j, times-set_add j j g.running)

      pub taken-IsCounted :
          suc g.active ≤ bounds.concurrency → IsCounted bounds (taken j queue (popped j ready g))
      taken-IsCounted free = ground (
        arith,
        f.counted,
        f.lines j,
        times-line j,
        text_eq_refl j,
        length-set_add j g.running,
        total-insert j queue g.queues,
        size-head,
      )

-- ===== src/Consumer/Life/Members.antt =====
-- The memberships that a consumer of src/consumer.ts opens: none outlives its start and its stop.
use kafka_harbor.Prelude.{
  ℕ, ◌≡◌, refl, Bool, true, false, ◌||◌, Option, none, some, List, [], ◌∷◌, arith, Text, any, ◌==◌,
  any_value, Dict,
}
use kafka_harbor.Errors.{Thrown}
use kafka_harbor.Consumer.{Routes}
use kafka_harbor.Consumer.World.{stopped, StopReason, shutdown}
use kafka_harbor.Consumer.Life.{
  Life, Limits, Start, unbegun, connecting, preparing, joining, unwinding, yielding, parting,
  settled, Note, membership_opened, membership_stopped, consumer_stopped, error_emitted, warned,
  begin_start, start_refused, fail_start, unless_stopping, proceed, connection_settled,
  topics_settled, note_opened, note_stopped, unwind, after_join, join_in, join_settled, unwound,
  leave, stop_seen, parted, settle_stop, drain, stop_in, begin_in, begin_do_stop, start_waited,
  handlers_waited, group_left, after_leave, begin_stop_call, stop_from_pipeline, handles_of,
  cannot_park, cannot_park_message,
}
use kafka_harbor.Consumer.Life.Groups.{
  Opened, opened, consumptions, first_rejection, set_handles, handle_ids,
}
use kafka_harbor.Consumer.Life.Groups.Apart.{
  Apart, holds, opens_handle, set_handles-holds, any-handle_ids,
}
use kafka_harbor.Consumer.Life.Groups.Levels.{IsTable, consumptions-Apart}
use kafka_harbor.Consumer.Life.Step.{
  Turn, starts, stops, pipeline_stops, connects, prepares, joins, unwinds, sees_stop, parts, Wake,
  sees_start, start_times_out, drains, leaves, turn, wake, Reach, fresh, later,
}
use kafka_harbor.Consumer.Life.Invariant.{IsLife, Reach-IsLife}

-- Whether a membership was opened, and whether it was told to stop.
unfoldable pub was_opened : ℕ → List Note → Bool
was_opened x [] = false
was_opened x (membership_opened y ∷ notes) = y == x || was_opened x notes
was_opened x (membership_stopped y ∷ notes) = was_opened x notes
was_opened x (consumer_stopped reason ∷ notes) = was_opened x notes
was_opened x (error_emitted thrown ∷ notes) = was_opened x notes
was_opened x (warned ∷ notes) = was_opened x notes

unfoldable pub was_stopped : ℕ → List Note → Bool
was_stopped x [] = false
was_stopped x (membership_stopped y ∷ notes) = y == x || was_stopped x notes
was_stopped x (membership_opened y ∷ notes) = was_stopped x notes
was_stopped x (consumer_stopped reason ∷ notes) = was_stopped x notes
was_stopped x (error_emitted thrown ∷ notes) = was_stopped x notes
was_stopped x (warned ∷ notes) = was_stopped x notes

module _ (x : ℕ) where
  opened-note_opened :
      (os : List Opened) (notes : List Note)
      → was_opened x (note_opened os notes) ≡ (opens_handle x os || was_opened x notes)
  unfolding note_opened was_opened opens_handle
  opened-note_opened [] notes = refl
  opened-note_opened (o ∷ os) notes =
      ground (arith, opened-note_opened os (membership_opened o.handle ∷ notes))

  stopped-note_opened :
      (os : List Opened) (notes : List Note)
      → was_stopped x (note_opened os notes) ≡ was_stopped x notes
  unfolding note_opened was_stopped
  stopped-note_opened [] notes = refl
  stopped-note_opened (o ∷ os) notes = stopped-note_opened os (membership_opened o.handle ∷ notes)

  opened-note_stopped :
      (xs : List ℕ) (notes : List Note) → was_opened x (note_stopped xs notes) ≡ was_opened x notes
  unfolding note_stopped was_opened
  opened-note_stopped [] notes = refl
  opened-note_stopped (y ∷ xs) notes = opened-note_stopped xs (membership_stopped y ∷ notes)

  stopped-note_stopped :
      (xs : List ℕ) (notes : List Note)
      → was_stopped x (note_stopped xs notes) ≡ (any (λ y. y == x) xs || was_stopped x notes)
  unfolding note_stopped was_stopped
  stopped-note_stopped [] notes = refl
  stopped-note_stopped (y ∷ xs) notes =
      ground (arith, stopped-note_stopped xs (membership_stopped y ∷ notes))

  any-handles_of : (os : List Opened) → any (λ y. y == x) (handles_of os) ≡ opens_handle x os
  unfolding handles_of opens_handle
  any-handles_of [] = refl
  any-handles_of (o ∷ os) = ground (arith, any-handles_of os)

  -- A membership that was opened is held, or was told to stop.
  record IsKept (l : Life) : Type 0 where
    kept : was_opened x l.notes ≡ true → (was_stopped x l.notes || holds x l.handles) ≡ true

  leave-IsKept : (l : Life) → IsKept l → IsKept (leave l)
  unfolding leave
  leave-IsKept l k = record {
    kept = ground (
      arith,
      k.kept,
      opened-note_stopped (handle_ids l.handles) l.notes,
      stopped-note_stopped (handle_ids l.handles) l.notes,
      any-handle_ids x l.handles,
    );
  }

  begin_do_stop-IsKept :
      (detached : Bool) (reason : StopReason) (l : Life)
      → IsKept l
      → IsKept (begin_do_stop detached reason l)
  unfolding begin_do_stop begin_in stop_in drain settle_stop
  begin_do_stop-IsKept detached reason l k = ground arith

  unwind-IsKept :
      (thrown : Thrown) (os : List Opened) (l : Life)
      → IsKept l
      → IsKept (unwind thrown os (record l { notes = note_opened os l.notes }))
  unfolding unwind
  unwind-IsKept thrown os l k = record {
    kept = ground (
      arith,
      k.kept,
      opened-note_stopped (handles_of os) (note_opened os l.notes),
      stopped-note_stopped (handles_of os) (note_opened os l.notes),
      any-handles_of os,
      opened-note_opened os l.notes,
      stopped-note_opened os l.notes,
    );
  }

  holds_empty : (handles : Dict ℕ) → handles ≡ [] → holds x handles ≡ false
  unfolding holds any_value
  holds_empty [] e = refl
  holds_empty (entry ∷ handles) e = cc

  join_in-IsKept :
      (message : Text) (failure : Option Thrown) (parks : Bool) (os : List Opened) (l : Life)
      → IsKept l
      → l.handles ≡ []
      → (opens_handle x os ≡ true → holds x (set_handles os l.handles) ≡ true)
      → IsKept (join_in message failure parks os (record l { notes = note_opened os l.notes }))
  unfolding join_in after_join
  join_in-IsKept message (some thrown) parks os l k e h = unwind-IsKept thrown os l k
  join_in-IsKept message none true os l k e h = unwind-IsKept _ os l k
  join_in-IsKept message none false os l k e h = ground (
    arith,
    k.kept,
    opened-note_opened os l.notes,
    stopped-note_opened os l.notes,
    holds_empty l.handles e,
  )

  module _ (routes : Routes) (limits : Limits) (apart : Apart (consumptions routes)) where
    Turn-IsKept : {l m : Life} → Turn routes limits l m → IsLife l → IsKept l → IsKept m
    unfolding begin_start start_refused begin_stop_call stop_from_pipeline connection_settled
        topics_settled proceed unless_stopping fail_start join_settled unwound stop_seen parted
    Turn-IsKept (starts {l} closed) inv k = ground arith
    Turn-IsKept (stops {l}) inv k = begin_do_stop-IsKept false shutdown l k
    Turn-IsKept (pipeline_stops {l} reason) inv k = begin_do_stop-IsKept true reason l k
    Turn-IsKept (connects {l} answer e) inv k = ground arith
    Turn-IsKept (prepares {l} answer e) inv k = ground arith
    Turn-IsKept (joins {l} answers e) inv k =
        let os : List Opened = opened (consumptions routes) answers in
        join_in-IsKept (cannot_park_message limits) (first_rejection answers)
          (cannot_park limits os) os l k (inv.empties (rw e refl))
          (set_handles-holds x (consumptions routes) answers l.handles apart)
    Turn-IsKept (unwinds {l} thrown e) inv k = ground arith
    Turn-IsKept (sees_stop {l} outcome e d) inv k = ground (arith, leave-IsKept l k)
    Turn-IsKept (parts {l} answers e) inv k = ground arith

    Wake-IsKept : {l m : Life} → Wake routes limits l m → IsKept l → IsKept m
    unfolding start_waited stop_in drain settle_stop handlers_waited group_left after_leave
        was_opened was_stopped
    Wake-IsKept (sees_start {l} reason e r) k = ground arith
    Wake-IsKept (start_times_out {l} reason e) k = ground arith
    Wake-IsKept (drains {l} reason abandoned e) k = ground (arith, leave-IsKept l k)
    Wake-IsKept (leaves {l} answers timeout abandoned reason e) k = ground arith

    Reach-IsKept : {l : Life} → Reach routes limits l → IsKept l
    unfolding was_opened
    Reach-IsKept fresh = record { kept = λ e. ground arith }
    Reach-IsKept (later r (turn t)) = Turn-IsKept t (Reach-IsLife routes limits r) (Reach-IsKept r)
    Reach-IsKept (later r (wake w)) = Wake-IsKept w (Reach-IsKept r)

-- Whether `start` has not been called, or has settled.
unfoldable pub is_settled : Start → Bool
is_settled unbegun = true
is_settled (settled outcome) = true
is_settled connecting = false
is_settled preparing = false
is_settled joining = false
is_settled (unwinding thrown) = false
is_settled yielding = false
is_settled parting = false

-- No membership outlives the consumer: once it is stopped and its `start` has settled, every membership
-- of the group that it ever opened was told to stop, though the stop may have come while the client was
-- joining, given up on the start, or followed a consumption that failed.
pub stopped-released :
    (routes : Routes) (limits : Limits) {l : Life}
    → IsTable routes
    → Reach routes limits l
    → l.state ≡ stopped
    → is_settled l.start ≡ true
    → (x : ℕ) → was_opened x l.notes ≡ true
    → was_stopped x l.notes ≡ true
unfolding is_settled
stopped-released routes limits {l} table r e s x o =
    let inv = Reach-IsLife routes limits r in
    let k = Reach-IsKept x routes limits (consumptions-Apart routes table).0 r in
    ground (arith, k.kept, inv.empties, holds_empty x l.handles)

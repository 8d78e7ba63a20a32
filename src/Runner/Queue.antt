-- ===== src/Runner/Queue.antt =====
-- `run` of src/transaction.ts: the calls of `transaction` queue behind one another, each on the promise
-- of the turn before it.
pub mod Turns
use kafka_harbor.Prelude.{
  ℕ, zero, suc, Bool, true, false, ◌&&◌, Option, none, some, List, [], ◌∷◌, ◌++◌, codes,
}
use kafka_harbor.Errors.{Thrown, closed_error, config_error}

-- Where the promise `next` of a call is: the race of its turn and its refusal is open, its transaction
-- is in progress, or it settled.
pub data Place : Type 0 where
  waiting running over : Place

-- A call, and whether the promise `turn` that it left for the next one settled.
pub record Call : Type 0 where
  pub place : Place
  pub turn : Bool

-- The calls in the order in which they were made, and whether the harbor stopped producing. What a
-- call waits for, its `previous`, is the turn of the call before it; the first one waits for nothing.
pub record Queue : Type 0 where
  pub closed : Bool
  pub calls : List Call

abbrev pub new_queue : Queue
new_queue = record { closed = false; calls = [] }

abbrev pub new_call : Call
new_call = record { place = waiting; turn = false }

enqueue : Bool → Bool → Queue → Option Thrown × Queue
enqueue true closed q =
    (some (config_error 0 (codes "transaction() called inside a transaction")), q)
enqueue false true q = (some (closed_error 0 (codes "harbor")), q)
enqueue false false q = (none, record q { calls = q.calls ++ new_call ∷ [] })

-- `run`, with whether it is called inside a transaction's function: what it throws at once, if
-- anything.
unfoldable pub run : Bool → Queue → Option Thrown × Queue
unfolding enqueue
run inside q = enqueue inside q.closed q

-- The race resolves with `previous`, and `execute` begins.
start_if : Bool → Place → Place
start_if true waiting = running
start_if true running = running
start_if true over = over
start_if false place = place

-- `Promise.race([previous, refused]).then(...)` of the call at an index.
unfoldable pub start_at : ℕ → Bool → List Call → List Call
unfolding start_if
start_at i previous [] = []
start_at zero previous (c ∷ calls) = record c { place = start_if previous c.place } ∷ calls
start_at (suc i) previous (c ∷ calls) = c ∷ start_at i c.turn calls

end_running : Place → Place
end_running running = over
end_running waiting = waiting
end_running over = over

-- `execute` settles in the call at an index.
unfoldable pub end_at : ℕ → List Call → List Call
unfolding end_running
end_at i [] = []
end_at zero (c ∷ calls) = record c { place = end_running c.place } ∷ calls
end_at (suc i) (c ∷ calls) = c ∷ end_at i calls

unfoldable pub is_over : Place → Bool
is_over over = true
is_over waiting = false
is_over running = false

settle_if : Bool → Call → Call
settle_if true c = record c { turn = true }
settle_if false c = c

-- `Promise.allSettled([previous, next])` of the call at an index.
unfoldable pub settle_at : ℕ → Bool → List Call → List Call
unfolding is_over settle_if
settle_at i previous [] = []
settle_at zero previous (c ∷ calls) = settle_if (previous && is_over c.place) c ∷ calls
settle_at (suc i) previous (c ∷ calls) = c ∷ settle_at i c.turn calls

refuse : Place → Place
refuse waiting = over
refuse running = running
refuse over = over

-- The harbor stopped producing: every call of `queued` is refused, and its race rejects.
unfoldable pub refuse_waiting : List Call → List Call
unfolding refuse
refuse_waiting [] = []
refuse_waiting (c ∷ calls) = record c { place = refuse c.place } ∷ refuse_waiting calls

-- Promises settle, and calls are made, in any order.
pub data Move : Queue → Queue → Type 0 where
  runs : {q : Queue} (inside : Bool) → Move q (run inside q).1
  starts : {q : Queue} (i : ℕ) → Move q (record q { calls = start_at i true q.calls })
  ends : {q : Queue} (i : ℕ) → Move q (record q { calls = end_at i q.calls })
  settles : {q : Queue} (i : ℕ) → Move q (record q { calls = settle_at i true q.calls })
  closes : {q : Queue} → Move q (record q { closed = true; calls = refuse_waiting q.calls })

pub data Reach : Queue → Type 0 where
  start : Reach new_queue
  later : {q r : Queue} → Reach q → Move q r → Reach r

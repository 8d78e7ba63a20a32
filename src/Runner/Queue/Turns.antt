-- ===== src/Runner/Queue/Turns.antt =====
-- Transactions of src/transaction.ts take their turns and never overlap.
use kafka_harbor.Prelude.{
  ℕ, zero, suc, ◌≡◌, refl, Bool, true, false, ◌&&◌, List, [], ◌∷◌, ◌++◌, All, arith, subst,
}
use kafka_harbor.Runner.Queue.{
  Place, waiting, running, over, Call, new_call, Queue, enqueue, run, start_if, start_at,
  end_running, end_at, is_over, settle_if, settle_at, refuse, refuse_waiting, Move, runs, starts,
  ends, settles, closes, Reach, start, later,
}

unfoldable pub is_in_progress : Place → Bool
is_in_progress running = true
is_in_progress waiting = false
is_in_progress over = false

unfoldable pub is_waiting : Place → Bool
is_waiting waiting = true
is_waiting running = false
is_waiting over = false

abbrev pub NotRunning : Call → Type 0
NotRunning c = is_in_progress c.place ≡ false

abbrev pub NotWaiting : Call → Type 0
NotWaiting c = is_waiting c.place ≡ false

-- Nothing runs behind a call that waits or runs.
abbrev pub InTurn : List Call → Type 0
InTurn [] = Unit
InTurn (c ∷ calls) = (is_over c.place ≡ false → All NotRunning calls) × InTurn calls

-- No call waits once the harbor stopped producing.
abbrev pub Refused : Bool → List Call → Type 0
Refused closed calls = closed ≡ true → All NotWaiting calls

-- A call runs behind a settled turn only, and its own turn settles behind one, once it is over.
record IsLink (previous : Bool) (c : Call) : Type 0 where
  behind : is_in_progress c.place ≡ true → previous ≡ true
  settled : c.turn ≡ true → (previous ≡ true) × (is_over c.place ≡ true)

Chain : Bool → List Call → Type 0
Chain previous [] = Unit
Chain previous (c ∷ calls) = IsLink previous c × Chain c.turn calls

Chain-settled : (previous : Bool) (calls : List Call) → Chain previous calls → Chain true calls
unfolding Chain
Chain-settled previous [] h = tt
Chain-settled previous (c ∷ calls) (l, h) =
    (record { behind = λ e. refl; settled = λ e. (refl, (l.settled e).1) }, h)

blocked :
    (place : Place) (turn : Bool)
    → IsLink false (record { place = place; turn = turn })
    → (is_in_progress place ≡ false) × (turn ≡ false)
unfolding is_in_progress
blocked place true l = let (e, o) = l.settled refl in ground arith
blocked waiting false l = (refl, refl)
blocked over false l = (refl, refl)
blocked running false l = let e = l.behind refl in ground arith

Chain-blocked : (calls : List Call) → Chain false calls → All NotRunning calls
unfolding Chain
Chain-blocked [] h = tt
Chain-blocked (c ∷ calls) (l, h) =
    let (quiet, unsettled) = blocked c.place c.turn l in
    (quiet, Chain-blocked calls (subst (λ t. Chain t calls) unsettled h))

over_or_blocked :
    (previous : Bool) (place : Place) (turn : Bool)
    → IsLink previous (record { place = place; turn = turn })
    → is_over place ≡ false
    → turn ≡ false
over_or_blocked previous place true l n = let (e, o) = l.settled refl in ground arith
over_or_blocked previous place false l n = refl

Chain-InTurn : (previous : Bool) (calls : List Call) → Chain previous calls → InTurn calls
unfolding Chain
Chain-InTurn previous [] h = tt
Chain-InTurn previous (c ∷ calls) (l, h) = (
  λ n.
      Chain-blocked calls
        (subst (λ t. Chain t calls) (over_or_blocked previous c.place c.turn l n) h),
  Chain-InTurn c.turn calls h,
)

enqueue-Chain :
    (previous : Bool) (calls : List Call)
    → Chain previous calls
    → Chain previous (calls ++ new_call ∷ [])
unfolding Chain is_in_progress
enqueue-Chain previous [] h =
    (record { behind = λ e. ground arith; settled = λ e. ground arith }, tt)
enqueue-Chain previous (c ∷ calls) (l, h) = (l, enqueue-Chain c.turn calls h)

start_if-IsLink :
    (previous : Bool) (place : Place) (turn : Bool)
    → IsLink previous (record { place = place; turn = turn })
    → IsLink previous (record { place = start_if previous place; turn = turn })
unfolding start_if is_over is_in_progress
start_if-IsLink true waiting turn l = record {
  behind = λ e. refl;
  settled = λ e. let (p, o) = l.settled e in ground arith;
}
start_if-IsLink true running turn l = l
start_if-IsLink true over turn l = l
start_if-IsLink false place turn l = l

start_at-Chain :
    (i : ℕ) (previous : Bool) (calls : List Call)
    → Chain previous calls
    → Chain previous (start_at i previous calls)
unfolding Chain start_at
start_at-Chain i previous [] h = tt
start_at-Chain zero previous (c ∷ calls) (l, h) = (start_if-IsLink previous c.place c.turn l, h)
start_at-Chain (suc i) previous (c ∷ calls) (l, h) = (l, start_at-Chain i c.turn calls h)

end_running-IsLink :
    (previous : Bool) (place : Place) (turn : Bool)
    → IsLink previous (record { place = place; turn = turn })
    → IsLink previous (record { place = end_running place; turn = turn })
unfolding end_running is_over is_in_progress
end_running-IsLink previous waiting turn l = l
end_running-IsLink previous over turn l = l
end_running-IsLink previous running turn l = record {
  behind = λ e. ground arith;
  settled = λ e. ((l.settled e).0, refl);
}

end_at-Chain :
    (i : ℕ) (previous : Bool) (calls : List Call)
    → Chain previous calls
    → Chain previous (end_at i calls)
unfolding Chain end_at
end_at-Chain i previous [] h = tt
end_at-Chain zero previous (c ∷ calls) (l, h) = (end_running-IsLink previous c.place c.turn l, h)
end_at-Chain (suc i) previous (c ∷ calls) (l, h) = (l, end_at-Chain i c.turn calls h)

settle_if-Chain :
    (previous : Bool) (place : Place) (turn : Bool) (calls : List Call)
    → Chain previous (record { place = place; turn = turn } ∷ calls)
    → Chain previous
        (settle_if (previous && is_over place) (record { place = place; turn = turn }) ∷ calls)
unfolding Chain settle_if is_over is_in_progress
settle_if-Chain true over turn calls (l, h) =
    (record { behind = l.behind; settled = λ e. (refl, refl) }, Chain-settled turn calls h)
settle_if-Chain true waiting turn calls h = h
settle_if-Chain true running turn calls h = h
settle_if-Chain false place turn calls h = h

settle_at-Chain :
    (i : ℕ) (previous : Bool) (calls : List Call)
    → Chain previous calls
    → Chain previous (settle_at i previous calls)
unfolding Chain settle_at
settle_at-Chain i previous [] h = tt
settle_at-Chain zero previous (c ∷ calls) h = settle_if-Chain previous c.place c.turn calls h
settle_at-Chain (suc i) previous (c ∷ calls) (l, h) = (l, settle_at-Chain i c.turn calls h)

refuse-IsLink :
    (previous : Bool) (place : Place) (turn : Bool)
    → IsLink previous (record { place = place; turn = turn })
    → IsLink previous (record { place = refuse place; turn = turn })
unfolding refuse is_over is_in_progress
refuse-IsLink previous waiting turn l = record {
  behind = λ e. ground arith;
  settled = λ e. ((l.settled e).0, refl);
}
refuse-IsLink previous over turn l = l
refuse-IsLink previous running turn l = l

refuse_waiting-Chain :
    (previous : Bool) (calls : List Call)
    → Chain previous calls
    → Chain previous (refuse_waiting calls)
unfolding Chain refuse_waiting
refuse_waiting-Chain previous [] h = tt
refuse_waiting-Chain previous (c ∷ calls) (l, h) =
    (refuse-IsLink previous c.place c.turn l, refuse_waiting-Chain c.turn calls h)

refused : (place : Place) → is_waiting (refuse place) ≡ false
unfolding refuse is_waiting
refused waiting = refl
refused running = refl
refused over = refl

refuse_waiting-Refused : (calls : List Call) → All NotWaiting (refuse_waiting calls)
unfolding refuse_waiting
refuse_waiting-Refused [] = tt
refuse_waiting-Refused (c ∷ calls) = (refused c.place, refuse_waiting-Refused calls)

start_if-keeps :
    (previous : Bool) (place : Place)
    → is_waiting place ≡ false
    → is_waiting (start_if previous place) ≡ false
unfolding start_if is_waiting
start_if-keeps previous place e = ground arith

start_at-Refused :
    (i : ℕ) (previous : Bool) (calls : List Call)
    → All NotWaiting calls
    → All NotWaiting (start_at i previous calls)
unfolding start_at
start_at-Refused i previous [] h = tt
start_at-Refused zero previous (c ∷ calls) (p, h) = (start_if-keeps previous c.place p, h)
start_at-Refused (suc i) previous (c ∷ calls) (p, h) = (p, start_at-Refused i c.turn calls h)

end_running-keeps :
    (place : Place) → is_waiting place ≡ false → is_waiting (end_running place) ≡ false
unfolding end_running is_waiting
end_running-keeps place e = ground arith

end_at-Refused :
    (i : ℕ) (calls : List Call) → All NotWaiting calls → All NotWaiting (end_at i calls)
unfolding end_at
end_at-Refused i [] h = tt
end_at-Refused zero (c ∷ calls) (p, h) = (end_running-keeps c.place p, h)
end_at-Refused (suc i) (c ∷ calls) (p, h) = (p, end_at-Refused i calls h)

settle_if-keeps :
    (b : Bool) (c : Call) → is_waiting c.place ≡ false → is_waiting (settle_if b c).place ≡ false
unfolding settle_if
settle_if-keeps true c e = e
settle_if-keeps false c e = e

settle_at-Refused :
    (i : ℕ) (previous : Bool) (calls : List Call)
    → All NotWaiting calls
    → All NotWaiting (settle_at i previous calls)
unfolding settle_at
settle_at-Refused i previous [] h = tt
settle_at-Refused zero previous (c ∷ calls) (p, h) = (settle_if-keeps _ c p, h)
settle_at-Refused (suc i) previous (c ∷ calls) (p, h) = (p, settle_at-Refused i c.turn calls h)

record Linked (q : Queue) : Type 0 where
  chain : Chain true q.calls
  turned_away : Refused q.closed q.calls

enqueue-Linked :
    (inside closed : Bool) (q : Queue)
    → q.closed ≡ closed
    → Linked q
    → Linked (enqueue inside closed q).1
unfolding enqueue
enqueue-Linked true closed q e inv = inv
enqueue-Linked false true q e inv = inv
enqueue-Linked false false q e inv = record {
  chain = enqueue-Chain true q.calls inv.chain;
  turned_away = λ c. ground arith;
}

Move-Linked : {q r : Queue} → Move q r → Linked q → Linked r
unfolding run
Move-Linked (runs {q} inside) inv = enqueue-Linked inside q.closed q refl inv
Move-Linked (starts {q} i) inv = record {
  chain = start_at-Chain i true q.calls inv.chain;
  turned_away = λ c. start_at-Refused i true q.calls (inv.turned_away c);
}
Move-Linked (ends {q} i) inv = record {
  chain = end_at-Chain i true q.calls inv.chain;
  turned_away = λ c. end_at-Refused i q.calls (inv.turned_away c);
}
Move-Linked (settles {q} i) inv = record {
  chain = settle_at-Chain i true q.calls inv.chain;
  turned_away = λ c. settle_at-Refused i true q.calls (inv.turned_away c);
}
Move-Linked (closes {q}) inv = record {
  chain = refuse_waiting-Chain true q.calls inv.chain;
  turned_away = λ c. refuse_waiting-Refused q.calls;
}

Reach-Linked : {q : Queue} → Reach q → Linked q
unfolding Chain
Reach-Linked start = record { chain = tt; turned_away = λ e. tt }
Reach-Linked (later r m) = Move-Linked m (Reach-Linked r)

-- Transactions never overlap and take their turns: whatever is called, settles and closes in whatever
-- order, no call runs behind one that waits or runs; and once the harbor stopped producing, no call
-- waits.
pub Reach-InTurn : {q : Queue} → Reach q → InTurn q.calls × Refused q.closed q.calls
Reach-InTurn r = let inv = Reach-Linked r in (Chain-InTurn true _ inv.chain, inv.turned_away)

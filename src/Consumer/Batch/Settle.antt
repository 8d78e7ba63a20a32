-- ===== src/Consumer/Batch/Settle.antt =====
-- What settling a batch does to the log: each failed message is forwarded, and the one commit comes
-- when every message of the batch is accounted for.
use kafka_harbor.Prelude.{
  ℕ, ◌≡◌, ◌≢◌, refl, sym, ◌∙◌, subst, inl, inr, Bool, true, false, Option, none, some, List, [],
  ◌∷◌, length,
}
use kafka_harbor.Errors.{Thrown}
use kafka_harbor.Consumer.{Pending}
use kafka_harbor.Consumer.World.{Env, Config, Effect, Batch, abort}
use kafka_harbor.Consumer.Action.{Action}
use kafka_harbor.Consumer.Action.Logs.{
  Log, Logs, Logs-pure, Logs-throw, Logs-tell, Logs-bind, Logs-modify, Logs-mono,
  effects-begin_stop, After-mono,
}
use kafka_harbor.Consumer.Backed.{Accounted, Framed, IsStable, Backed}
use kafka_harbor.Consumer.Forward.{Verdict, retry_to, dead_letter_to, crashed}
use kafka_harbor.Consumer.Forward.Backing.{
  AfterVerdict, commit-Logs, forward_failed-Logs, emit_failure-Logs,
}
use kafka_harbor.Consumer.Handle.Settle.{Quiet}
use kafka_harbor.Consumer.Batch.{
  Slot, forward, settle_forward, tell_if, forward_slot, forward_all, report_slot, tell_aborted,
  settle_slots, finish_batch, stop_batch, report_slots,
}
use kafka_harbor.Consumer.Batch.Slots.{
  items_of, Decoded, Done, Ready, Owed, AllOf, AllOf-IsStable, AllOf-Done, Done-IsStable,
  Owed-IsStable, Among, Ready-IsStable, some≢none, cong_cons,
}

pub Both-IsStable : (F G : Log) → IsStable F → IsStable G → IsStable (λ es. F es × G es)
Both-IsStable F G f g e es (a, b) = (f e es a, g e es b)

-- What a slot was before it is forwarded, if it has to be, and what it is then.
pub record Rule (Before After : Slot → Log) : Type 0 where
  pub before_stable : (s : Slot) → IsStable (Before s)
  pub after_stable : (s : Slot) → IsStable (After s)
  pub kept :
      (s : Slot) (es : List Effect)
      → ((f : Thrown) → s.failure ≡ some f → s.verdict ≢ none)
      → Before s es
      → After s es
  pub sent :
      (s s' : Slot) (f : Thrown) (es : List Effect)
      → s.failure ≡ some f
      → s'.item ≡ s.item
      → s'.message ≡ s.message
      → Done s es
      → Before s es
      → After s' es

Done-same : (s s' : Slot) (es : List Effect) → s'.item ≡ s.item → Done s es → Done s' es
Done-same s s' es e d = subst (λ (i : Pending). Accounted i.raw es) (sym e) d

-- A message that did not decode goes down its ladder before the handler runs.
pub Decoded-Rule : Rule (λ s es. Decoded s) Ready
Decoded-Rule = record {
  before_stable = λ s e es d. d;
  after_stable = Ready-IsStable;
  kept = λ s es n d. elim d [
    | inl o ↦ inl o
    | inr (f, m) ↦ absurd (n f.thrown f.has_failed f.no_verdict)
  ];
  sent = λ s s' f es e i m d b. elim b [
    | inl o ↦ absurd (some≢none (sym e ∙ o.no_failure))
    | inr (g, n) ↦ inr (m ∙ n, Done-same s s' es i d)
  ];
}

-- One that the handler failed, after it.
pub Owed-Rule : Rule Owed Done
Owed-Rule = record {
  before_stable = Owed-IsStable;
  after_stable = Done-IsStable;
  kept = λ s es n d. elim d [ inl f ↦ absurd (n f.thrown f.has_failed f.no_verdict) | inr a ↦ a ];
  sent = λ s s' f es e i m d b. Done-same s s' es i d;
}

-- A fact that does not depend on the log is kept beside what an action leaves.
with_fact :
    (H : Type 0) {A : Type 0} {P R : Log} {Q : A → Log} {E : Log} {m : Action A}
    → ((es : List Effect) → R es → H × P es)
    → Logs P m Q E
    → Logs R m (λ a es. H × Q a es) E
with_fact H {Q} {E} {m} h l = record {
  at = λ w c.
      let (fact, p) = h w.effects c in
      After-mono {R = λ a es. H × Q a es} {E = E} (λ a es q. (fact, q)) (λ es e. e) (m w).0
        (m w).1.effects (l.at w p);
}

module _ (env : Env) (config : Config) where
  tell_if-Logs :
      (F : Log) (stable : IsStable F) (b : Bool) (e : Effect)
      → ((es : List Effect) → Framed F es → Framed F (e ∷ es))
      → Quiet F (tell_if env config b e)
  unfolding tell_if
  tell_if-Logs F stable true e h = Logs-tell _ _ _ _ h
  tell_if-Logs F stable false e h = Logs-pure _ _ _ tt (λ es c. c)

  module _ (b : Batch) (ran : Bool) where
    Forwarded : Log → Slot → Slot → Log
    Forwarded F s s' es = (s'.item ≡ s.item) × (s'.message ≡ s.message) × Backed F s.item.raw es

    settle_forward-Logs :
        (F : Log) (stable : IsStable F) (s : Slot) (failure : Thrown) (verdict : Verdict)
        → Logs
            (AfterVerdict F s.item.raw verdict)
            (settle_forward env config b ran s failure verdict)
            (Forwarded F s)
            (Framed F)
    unfolding settle_forward Forwarded
    settle_forward-Logs F stable s failure crashed =
        Logs-bind (λ _. Framed F) (Logs-tell _ _ _ _ (λ es c. (stable _ es c.0, c.1)))
          (λ _.
            Logs-bind (λ _. Framed F) (tell_if-Logs F stable ran _ (λ es c. (stable _ es c.0, c.1)))
              (λ _. Logs-throw _ _ _ failure (λ es c. c)))
    settle_forward-Logs F stable s failure (retry_to topic level) =
        Logs-pure _ _ _ _ (λ es c. (refl, refl, c))
    settle_forward-Logs F stable s failure (dead_letter_to dlq) =
        Logs-pure _ _ _ _ (λ es c. (refl, refl, c))

    forward-Logs :
        (F : Log) (stable : IsStable F) (s : Slot) (failure : Thrown)
        → Logs (Framed F) (forward env config b ran s failure) (Forwarded F s) (Framed F)
    unfolding forward
    forward-Logs F stable s failure =
        Logs-bind (AfterVerdict F s.item.raw)
          (forward_failed-Logs env config F stable s.item b.subscription b.level failure)
          (settle_forward-Logs F stable s failure)

    module _ (Before After : Slot → Log) (rule : Rule Before After) where
      -- A slot of the loop, once it was forwarded if it had to be.
      Passed : Log → Slot → Slot → Log
      Passed F s s' es = (s'.item ≡ s.item) × After s' es × Framed F es

      forward_slot-Logs :
          (F : Log) (stable : IsStable F) (s : Slot) (failure : Option Thrown)
          (verdict : Option Verdict)
          → s.failure ≡ failure
          → s.verdict ≡ verdict
          → Logs
              (λ es. Before s es × Framed F es)
              (forward_slot env config b ran s failure verdict)
              (Passed F s)
              (Framed F)
      unfolding forward_slot Passed Forwarded
      forward_slot-Logs F stable s (some f) none p q =
          Logs-mono (λ es c. ((c.1.0, c.0), c.1.1))
            (λ s' es c. (c.0, rule.sent s s' f es p c.0 c.1 c.2.0 c.2.1.0.1, (c.2.1.0.0, c.2.1.1)))
            (λ es c. (c.0.0, c.1))
            (forward-Logs (λ es. F es × Before s es)
              (Both-IsStable F (Before s) stable (rule.before_stable s)) s f)
      forward_slot-Logs F stable s none verdict p q =
          Logs-pure _ _ _ s
            (λ es c. (refl, rule.kept s es (λ f e. absurd (some≢none (sym e ∙ p))) c.0, c.1))
      forward_slot-Logs F stable s (some f) (some v) p q =
          Logs-pure _ _ _ s
            (λ es c. (refl, rule.kept s es (λ g e n. absurd (some≢none (sym q ∙ n))) c.0, c.1))

      unfoldable pub AllPassed : Log → List Slot → List Slot → Log
      AllPassed F slots out es = (items_of out ≡ items_of slots) × AllOf After out es × Framed F es

      pub forward_all-Logs :
          (F : Log) (stable : IsStable F) (slots : List Slot)
          → Logs
              (λ es. AllOf Before slots es × Framed F es)
              (forward_all env config b ran slots)
              (AllPassed F slots)
              (Framed F)
      unfolding forward_all AllPassed Passed
      forward_all-Logs F stable [] = Logs-pure _ _ _ [] (λ es c. (refl, tt, c.1))
      forward_all-Logs F stable (s ∷ slots) =
          Logs-bind (Passed (λ es. F es × AllOf Before slots es) s)
            (Logs-mono (λ es c. (c.0.0, ((c.1.0, c.0.1), c.1.1))) (λ s' es c. c)
              (λ es c. (c.0.0, c.1))
              (forward_slot-Logs (λ es. F es × AllOf Before slots es)
                (Both-IsStable F (AllOf Before slots) stable
                  (AllOf-IsStable Before rule.before_stable slots))
                s s.failure s.verdict refl refl))
            λ s'.
              Logs-bind
                (λ out es. (s'.item ≡ s.item) × AllPassed (λ es. F es × After s' es) slots out es)
                (with_fact (s'.item ≡ s.item) (λ es c. (c.0, (c.1, c.2)))
                  (Logs-mono
                    (λ es (c : After s' es × Framed (λ es. F es × AllOf Before slots es) es).
                      (c.1.0.1, ((c.1.0.0, c.0), c.1.1)))
                    (λ out es c. c) (λ es c. (c.0.0, c.1))
                    (forward_all-Logs (λ es. F es × After s' es)
                      (Both-IsStable F (After s') stable (rule.after_stable s')) slots)))
                (λ rest.
                  Logs-pure _ _ _ (s' ∷ rest)
                    (λ es c. (cong_cons c.0 c.1.0, (c.1.2.0.1, c.1.1), (c.1.2.0.0, c.1.2.1))))

  module _ (F : Log) (stable : IsStable F) where
    report_slot-Logs :
        (size : ℕ) (s : Slot) (verdict : Option Verdict)
        → Quiet F (report_slot env config size s verdict)
    unfolding report_slot
    report_slot-Logs size s none = Logs-tell _ _ _ _ (λ es c. (stable _ es c.0, c.1))
    report_slot-Logs size s (some verdict) = emit_failure-Logs env config F stable s.item verdict

    report_slots-Logs :
        (size : ℕ) (slots : List Slot) → Quiet F (report_slots env config size slots)
    unfolding report_slots
    report_slots-Logs size [] = Logs-pure _ _ _ tt (λ es c. c)
    report_slots-Logs size (s ∷ slots) =
        Logs-bind (λ _. Framed F) (report_slot-Logs size s s.verdict)
          (λ _. report_slots-Logs size slots)

    finish_batch-Logs :
        (b : Batch) (first last : Pending) (whole : Bool) (slots : List Slot) (done : Bool)
        → Quiet F (finish_batch env config b first last whole slots done)
    unfolding finish_batch
    finish_batch-Logs b first last whole slots false = Logs-pure _ _ _ tt (λ es c. c)
    finish_batch-Logs b first last whole slots true =
        Logs-bind (λ _. Framed F) (report_slots-Logs (length b.items) slots)
          (λ _. tell_if-Logs F stable _ _ (λ es c. (stable _ es c.0, c.1)))

    tell_aborted-Logs : (slots : List Slot) → Quiet F (tell_aborted env config slots)
    unfolding tell_aborted
    tell_aborted-Logs [] = Logs-pure _ _ _ tt (λ es c. c)
    tell_aborted-Logs (s ∷ slots) =
        Logs-bind (λ _. Framed F) (tell_if-Logs F stable _ _ (λ es c. (stable _ es c.0, c.1)))
          (λ _. tell_aborted-Logs slots)

    pub stop_batch-Logs :
        (b : Batch) (first last : Pending) (slots : List Slot) (thrown : Thrown)
        → Quiet F (stop_batch env config b first last slots thrown)
    unfolding stop_batch
    stop_batch-Logs b first last slots thrown =
        Logs-bind (λ _. Framed F) (tell_aborted-Logs slots)
          (λ _.
            Logs-bind (λ _. Framed F) (Logs-tell _ _ _ _ (λ es c. (stable _ es c.0, c.1)))
              (λ _.
                Logs-bind (λ _. Framed F) (Logs-tell _ _ _ _ (λ es c. (stable _ es c.0, c.1)))
                  (λ _. Logs-modify (Framed F) _ _ (effects-begin_stop abort))))

    -- The one commit of a batch comes when each of its messages is accounted for.
    pub settle_slots-Logs :
        (b : Batch) (first last : Pending) (whole : Bool) (slots : List Slot)
        → Among last (items_of slots)
        → Logs
            (λ es. AllOf Owed slots es × Framed F es)
            (settle_slots env config b first last whole slots)
            (λ _. Framed F)
            (Framed F)
    unfolding settle_slots AllPassed
    settle_slots-Logs b first last whole slots among =
        Logs-bind (AllPassed b true Owed Done Owed-Rule F slots)
          (forward_all-Logs b true Owed Done Owed-Rule F stable slots)
          (λ out.
            Logs-bind (λ _. Framed F)
              (Logs-mono
                (λ es c. (AllOf-Done es out last c.1 (subst (Among last) (sym c.0) among), c.2))
                (λ done es c. c) (λ es c. c) (commit-Logs env config F stable last.raw))
              (λ done. finish_batch-Logs b first last whole out done))

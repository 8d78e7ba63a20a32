-- ===== src/Redrive/Drain.antt =====
-- A redrive commits what it produced again, and stops at its limit.
use kafka_harbor.Prelude.{
  ℕ, suc, ◌+◌, ◌≤◌, ◌<◌, ◌≡◌, refl, ◌⊎◌, inl, inr, Bool, true, false, Option, none, some, List, [],
  ◌∷◌, Text, arith, leb, Bool-cases, if◌then◌else◌,
}
use kafka_harbor.Errors.{Thrown}
use kafka_harbor.Headers.{MessageHeaders}
use kafka_harbor.Result.{Result}
use kafka_harbor.Adapter.{RawMessage}
use kafka_harbor.Consumer.World.{Env, Config, Message, Effect}
use kafka_harbor.Consumer.Action.{Action}
use kafka_harbor.Consumer.Action.Logs.{
  Log, Logs, Logs-pure, Logs-weaken, Logs-ask, Logs-lift, Logs-tell, Logs-bind, Logs-catch,
}
use kafka_harbor.Consumer.Forward.Resent.{
  Counted, Behind, commit_after-Counted, produce_hop_at-Counted,
}
use kafka_harbor.Redrive.{
  Options, Progress, resend, resend_or_skip, one, at_max, stop_at_max, fail, decide, deliver, drain,
}

-- The log has as many records produced again as it had before the run and the run counts, and commits
-- behind them only.
abbrev pub Tallied : ℕ → Progress → Log
Tallied before p = Counted (before + p.reprocessed)

-- Nothing is thrown.
abbrev pub Never : Log
Never es = ⊥

-- Fewer messages than the limit so far, or no more than it and no delivery to come.
abbrev pub WithinMax : Option ℕ → Progress → Type 0
WithinMax none p = Unit {0}
WithinMax (some n) p =
    (p.reprocessed + p.skipped < n) ⊎ ((p.finished ≡ true) × (p.reprocessed + p.skipped ≤ n))

-- One message more than `p`.
abbrev OneMore : Progress → Progress → Type 0
OneMore p q =
    (q.finished ≡ p.finished) × (q.reprocessed + q.skipped ≡ suc (p.reprocessed + p.skipped))

false_is_true : false ≡ true → ⊥
false_is_true h = cc

if-Logs :
    {P : Log} {Q : Progress → Log} {E : Log} (b : Bool) {m k : Action Progress}
    → (b ≡ true → Logs P m Q E)
    → (b ≡ false → Logs P k Q E)
    → Logs P (if b then m else k) Q E
if-Logs true hm hk = hm refl
if-Logs false hm hk = hk refl

-- A fact that does not depend on the log may be assumed before an action.
with_pure :
    {H : Type 0} {P : Log} {m : Action Progress} {Q : Progress → Log} {E : Log}
    → (H → Logs P m Q E)
    → Logs (λ es. H × P es) m Q E
with_pure h = record { at = λ w c. (h c.0).at w c.1 }

module _ (env : Env) (config : Config) (options : Options) (all_kept : options.keep ≡ none)
    (before : ℕ) where
  one_redriven :
      (n : ℕ) (es : List Effect) → Counted (suc (before + n)) es → Counted (before + suc n) es
  one_redriven n es (c, h) = (omega (arith, c), h)

  resend-Logs :
      (raw : RawMessage) (target : Text) (headers : MessageHeaders) (p : Progress)
      → Logs
          (Tallied before p)
          (resend env config options raw target headers p)
          (λ q es. OneMore p q × Tallied before q es)
          (Tallied before p)
  unfolding resend
  resend-Logs raw target headers p =
      let n = before + p.reprocessed in
      Logs-bind (λ _. Tallied before p) (Logs-ask (Tallied before p) _ _)
        λ at.
          Logs-bind (λ _. Behind raw (suc n)) (produce_hop_at-Counted env config raw n target _ at)
            λ _.
              Logs-bind (λ _. Counted (suc n))
                (commit_after-Counted env config raw (suc n) (Tallied before p))
                λ _.
                  Logs-bind (λ _. Counted (suc n)) (Logs-tell _ _ _ _ (λ es c. c))
                    (λ _.
                      Logs-pure _ _ _ _
                        (λ es c. ((refl, omega arith), one_redriven p.reprocessed es c)))

  decide-Logs :
      (keep : Option (ℕ → Message → Result Bool)) (raw : RawMessage) (headers : MessageHeaders)
      (P : Log)
      → keep ≡ none
      → Logs P (decide env config options keep raw headers) (λ wanted es. (wanted ≡ true) × P es) P
  unfolding decide
  decide-Logs none raw headers P at = Logs-pure _ _ _ true (λ es c. (refl, c))
  decide-Logs (some keep) raw headers P at = absurd (cc)

  resend_or_skip-Logs :
      (raw : RawMessage) (target : Text) (headers : MessageHeaders) (p : Progress) (wanted : Bool)
      → Logs
          (λ es. (wanted ≡ true) × Tallied before p es)
          (resend_or_skip env config options raw target headers p wanted)
          (λ q es. OneMore p q × Tallied before q es)
          (Tallied before p)
  unfolding resend_or_skip
  resend_or_skip-Logs raw target headers p true =
      Logs-weaken _ _ _ _ _ (λ es c. c.1) (resend-Logs raw target headers p)
  resend_or_skip-Logs raw target headers p false = record { at = λ w c. absurd (false_is_true c.0) }

  one-Logs :
      (raw : RawMessage) (p : Progress)
      → Logs
          (Tallied before p)
          (one env config options raw p)
          (λ q es. OneMore p q × Tallied before q es)
          (Tallied before p)
  unfolding one
  one-Logs raw p =
      Logs-bind (λ _. Tallied before p) (Logs-ask (Tallied before p) _ _)
        λ now.
          Logs-bind (λ _. Tallied before p) (Logs-lift (Tallied before p) _)
            λ target.
              Logs-bind (λ wanted es. (wanted ≡ true) × Tallied before p es)
                (decide-Logs options.keep raw _ (Tallied before p) all_kept)
                (λ wanted.
                  resend_or_skip-Logs raw target _ (record p { last_activity = now }) wanted)

  stop_at_max-WithinMax :
      (max : Option ℕ) (p q : Progress)
      → p.finished ≡ false
      → OneMore p q
      → WithinMax max p
      → WithinMax max (if at_max env config options max q then record q { finished = true } else q)
  unfolding at_max
  stop_at_max-WithinMax none p q going more within = tt
  stop_at_max-WithinMax (some n) p q going more (inr (over, _)) = absurd (cc)
  stop_at_max-WithinMax (some n) p q going (same, more) (inl low) =
      elim (Bool-cases (leb n (q.reprocessed + q.skipped))) [
        | inl reached ↦ rw reached (inr (refl, omega arith))
        | inr below ↦ rw below (inl (ground arith))
      ]

  fail-WithinMax :
      (max : Option ℕ) (p : Progress) (thrown : Thrown)
      → WithinMax max p
      → WithinMax max (fail env config options p thrown)
  unfolding fail
  fail-WithinMax none p thrown within = tt
  fail-WithinMax (some n) p thrown (inl low) = inr (refl, omega arith)
  fail-WithinMax (some n) p thrown (inr (over, low)) = inr (refl, low)

  stop_at_max-Tallied :
      (p : Progress) (b : Bool) (es : List Effect)
      → Tallied before p es
      → Tallied before (if b then record p { finished = true } else p) es
  stop_at_max-Tallied p true es c = c
  stop_at_max-Tallied p false es c = c

  deliver-Logs :
      (raw : RawMessage) (p : Progress)
      → WithinMax options.max p
      → Logs
          (Tallied before p)
          (deliver env config options raw p)
          (λ q es. WithinMax options.max q × Tallied before q es)
          Never
  unfolding deliver stop_at_max
  deliver-Logs raw p within =
      if-Logs p.finished (λ over. Logs-pure _ _ _ p (λ es c. (within, c)))
        λ going.
          Logs-catch (Tallied before p)
            (Logs-bind (λ q es. OneMore p q × Tallied before q es) (one-Logs raw p)
              (λ q. Logs-pure _ _ _ _ (λ es c. (
                stop_at_max-WithinMax options.max p q going c.0 within,
                stop_at_max-Tallied q _ es c.1,
              ))))
            (λ thrown.
              Logs-pure _ _ _ _
                (λ es c. (fail-WithinMax options.max p thrown within, unfold fail in c)))

  -- Without a filter, and from counts within its limit, the deliveries of a redrive throw nothing and,
  -- however many they are and whatever fails, leave the counts within the limit; the log has exactly
  -- as many more records produced again, acknowledged, as the run counts; and every commit is of the
  -- offset after a message that was produced again before the commit, if the log was such a one.
  pub drain-WithinMax :
      (raws : List RawMessage) (p : Progress)
      → WithinMax options.max p
      → Logs
          (Tallied before p)
          (drain env config options raws p)
          (λ q es. WithinMax options.max q × Tallied before q es)
          Never
  unfolding drain
  drain-WithinMax [] p within = Logs-pure _ _ _ p (λ es c. (within, c))
  drain-WithinMax (raw ∷ raws) p within =
      Logs-bind (λ q es. WithinMax options.max q × Tallied before q es) (deliver-Logs raw p within)
        λ q. with_pure (λ h. drain-WithinMax raws q h)

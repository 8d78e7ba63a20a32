-- ===== src/Consumer/Batch/Collect.antt =====
-- Collecting the messages of a partition, and running their batch, commits only what is accounted for.
use kafka_harbor.Prelude.{
  ℕ, ◌≡◌, refl, Bool, true, false, List, [], ◌∷◌, All, inl, inr, subst, sym, ◌∙◌,
}
use kafka_harbor.Consumer.{Subscription, Pending}
use kafka_harbor.Consumer.World.{Env, Config, Effect, Batch}
use kafka_harbor.Consumer.Action.{Action, ◌>>=◌}
use kafka_harbor.Consumer.Action.Logs.{
  Log, Logs, Logs-pure, Logs-gets, Logs-await_other, Logs-bind, Logs-if, Logs-modify, Logs-catch,
  Logs-mono, Logs-assume,
}
use kafka_harbor.Consumer.Backed.{Framed, IsStable}
use kafka_harbor.Consumer.Decode.Quiet.{to_message_own}
use kafka_harbor.Consumer.Forward.Backing.{crash_on-Logs}
use kafka_harbor.Consumer.Handle.Settle.{Quiet}
use kafka_harbor.Consumer.Batch.{
  Slot, messages_of, collect, collect_now, handle_batch, run_decoded, decode_items,
  unless_abandoned, join_batch, wait_for_batch, run_batch, collect_unless, decode_item,
  settle_batch, open_slot,
}
use kafka_harbor.Consumer.Batch.Slots.{
  items_of, Decoded, Ready, AllOf, Among, Among-last, cong_cons,
}
use kafka_harbor.Consumer.Batch.Settle.{Decoded-Rule, AllPassed, forward_all-Logs}
use kafka_harbor.Consumer.Batch.Safety.{
  RefusesPlainly, Outcome, AfterBatch-Framed, run_decoded-Logs, settle_batch-Logs,
}

module _ (env : Env) (config : Config) (plain : RefusesPlainly env) (F : Log)
    (stable : IsStable F) where
  decode_item-Logs :
      (subscription : Subscription) (item : Pending)
      → Logs
          (Framed F)
          (decode_item env config subscription item)
          (λ s es. ((s.item ≡ item) × Decoded s) × Framed F es)
          (Framed F)
  unfolding decode_item open_slot
  decode_item-Logs subscription item =
      Logs-catch (Framed F)
        (Logs-bind (λ m es. (m.raw ≡ item.raw) × Framed F es)
          (to_message_own env (Framed F) item.raw item.headers subscription.plan.original
            item.retry)
          (λ m. Logs-pure _ _ _ _ (λ es c. (
            (
              refl,
              inl (record {
                decoded = m;
                has_message = refl;
                own = c.0;
                no_failure = refl;
                no_verdict = refl;
              }),
            ),
            c.1,
          ))))
        (λ thrown. Logs-pure _ _ _ _ (λ es c. (
          (refl, inr (record { thrown = thrown; has_failed = refl; no_verdict = refl }, refl)),
          c,
        )))

  -- The slots of a batch, one for each of its messages.
  abbrev Slotted : List Pending → List Slot → Type 0
  Slotted items slots = (items_of slots ≡ items) × All Decoded slots

  decode_items-Logs :
      (subscription : Subscription) (items : List Pending)
      → Logs
          (Framed F)
          (decode_items env config subscription items)
          (λ slots es. Slotted items slots × Framed F es)
          (Framed F)
  unfolding decode_items
  decode_items-Logs subscription [] = Logs-pure _ _ _ [] (λ es c. ((refl, tt), c))
  decode_items-Logs subscription (item ∷ items) =
      Logs-bind (λ s es. ((s.item ≡ item) × Decoded s) × Framed F es)
        (decode_item-Logs subscription item)
        (λ s. Logs-assume (λ d.
          Logs-bind (λ slots es. Slotted items slots × Framed F es)
            (decode_items-Logs subscription items)
            (λ rest.
              Logs-pure _ _ _ (s ∷ rest) (λ es c. ((cong_cons d.0 c.0.0, (d.1, c.0.1)), c.1)))))

  unless_abandoned-Logs :
      (P : Log) (next : Action (Unit {0}))
      → ((es : List Effect) → P es → Framed F es)
      → Logs P next (λ _. Framed F) (Framed F)
      → Logs P (unless_abandoned env config next) (λ _. Framed F) (Framed F)
  unfolding unless_abandoned
  unless_abandoned-Logs P next f h =
      Logs-bind (λ _. P) (Logs-gets P _ _) (λ gone. Logs-if gone (Logs-pure _ _ _ tt f) h)

  run_ready-Logs :
      (b : Batch) (first last : Pending) (ready : List Slot)
      → Among last (items_of ready)
      → Logs
          (λ es. AllOf Ready ready es × Framed F es)
          (run_decoded env config b first (messages_of ready) >>= (λ ran.
            unless_abandoned env config (settle_batch env config b first last ready ran)))
          (λ _. Framed F)
          (Framed F)
  run_ready-Logs b first last ready among =
      Logs-bind (Outcome env config plain F stable first ready)
        (Logs-mono (λ es c. ((c.1.0, c.0), c.1.1)) (λ ran es c. c) (λ es c. (c.0.0, c.1))
          (run_decoded-Logs env config plain F stable first ready b (messages_of ready) refl))
        (λ ran.
          unless_abandoned-Logs _ _
            (AfterBatch-Framed first.raw.topic first.raw.partition ready F ran)
            (settle_batch-Logs env config plain F stable first ready b last ran among))

  handle_batch-Logs :
      (b : Batch) (first last : Pending)
      → Among last b.items
      → Quiet F (handle_batch env config b first last)
  unfolding handle_batch AllPassed
  handle_batch-Logs b first last among =
      Logs-bind (λ slots es. Slotted b.items slots × Framed F es)
        (decode_items-Logs b.subscription b.items)
        (λ slots. Logs-assume (λ d.
          unless_abandoned-Logs (Framed F) _ (λ es c. c)
            (Logs-bind
              (λ ready es. (items_of ready ≡ items_of slots) × (AllOf Ready ready es × Framed F es))
              (Logs-mono (λ es c. (d.1, c)) (λ ready es c. (c.0, (c.1, c.2))) (λ es c. c)
                (forward_all-Logs env config b false (λ s es. Decoded s) Ready Decoded-Rule F stable
                  slots))
              (λ ready. Logs-assume (λ e.
                run_ready-Logs b first last ready (subst (Among last) (sym (e ∙ d.0)) among))))))

  run_batch-Logs :
      (b : Batch) (first last : Pending)
      → Among last b.items
      → Quiet F (run_batch env config b first last)
  unfolding run_batch
  run_batch-Logs b first last among =
      Logs-bind (λ _. Framed F) (Logs-modify (Framed F) _ _ (λ w. refl))
        (λ _.
          Logs-bind (λ _. Framed F)
            (Logs-catch (Framed F) (handle_batch-Logs b first last among)
              (λ thrown. crash_on-Logs env config F stable thrown last.raw))
            (λ _. Logs-modify (Framed F) _ _ (λ w. refl)))

  join_batch-Logs :
      (item : Pending) (size : ℕ) (b : Batch) → Quiet F (join_batch env config item size b)
  unfolding join_batch
  join_batch-Logs item size b =
      Logs-if _
        (Logs-bind (λ _. Framed F) (Logs-modify (Framed F) _ _ (λ w. refl))
          (λ _. run_batch-Logs _ _ item (Among-last b.items item)))
        (Logs-modify (Framed F) _ _ (λ w. refl))

  collect_now-Logs :
      (item : Pending) (subscription : Subscription) (size level : ℕ)
      → Quiet F (collect_now env config item subscription size level)
  unfolding collect_now
  collect_now-Logs item subscription size level =
      Logs-bind (λ _. Framed F) (Logs-gets (Framed F) _ _) (λ found. join_batch-Logs item size _)

  collect_unless-Logs :
      (item : Pending) (subscription : Subscription) (size level : ℕ) (lost : Bool)
      → Quiet F (collect_unless env config item subscription size level lost)
  unfolding collect_unless
  collect_unless-Logs item subscription size level true = Logs-pure _ _ _ tt (λ es c. c)
  collect_unless-Logs item subscription size level false =
      collect_now-Logs item subscription size level

  wait_for_batch-Logs :
      (item : Pending) (subscription : Subscription) (size level : ℕ) (busy : Bool)
      → Quiet F (wait_for_batch env config item subscription size level busy)
  unfolding wait_for_batch
  wait_for_batch-Logs item subscription size level false =
      collect_now-Logs item subscription size level
  wait_for_batch-Logs item subscription size level true =
      Logs-bind (λ _. Framed F) (Logs-gets (Framed F) _ _)
        (λ revocation.
          Logs-bind (λ _. Framed F) (Logs-await_other (Framed F) env _)
            (λ _.
              Logs-bind (λ _. Framed F) (Logs-gets (Framed F) _ _)
                (collect_unless-Logs item subscription size level)))

  pub collect-Logs :
      (item : Pending) (subscription : Subscription) (size level : ℕ)
      → Quiet F (collect env config item subscription size level)
  unfolding collect
  collect-Logs item subscription size level =
      Logs-bind (λ _. Framed F) (Logs-gets (Framed F) _ _)
        (wait_for_batch-Logs item subscription size level)

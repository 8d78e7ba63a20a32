-- ===== src/Consumer/Batch/Slots.antt =====
-- What is known of the messages of a batch while it runs (`handleBatch` of src/consumer.ts): each is
-- open, failed, or accounted for.
use kafka_harbor.Prelude.{
  ℕ, ◌≡◌, ◌≢◌, refl, sym, ap, ◌∙◌, subst, ◌⊎◌, inl, inr, Bool, true, false, Option, none, some,
  List, [], ◌∷◌, ◌++◌, All, Text, is_some, any, if◌then◌else◌, arith,
}
use kafka_harbor.Errors.{Thrown, MessageRef}
use kafka_harbor.Result.{ok, ok-injective}
use kafka_harbor.Adapter.{RawMessage}
use kafka_harbor.Consumer.{Pending}
use kafka_harbor.Consumer.World.{Message, Effect, batch_handled}
use kafka_harbor.Consumer.Action.Logs.{Log}
use kafka_harbor.Consumer.Backed.{InBatch, Accounted, IsStable, Accounted-IsStable}
use kafka_harbor.Consumer.Batch.{
  Slot, messages_of, with_message, names, names_slot, fail_if, fail_named, unlisted, fail_listed,
  fail_all, mark_by, cause_or_self,
}

abbrev pub items_of : List Slot → List Pending
items_of [] = []
items_of (s ∷ slots) = s.item ∷ items_of slots

-- The message decoded and waits for the handler.
pub record Open (s : Slot) : Type 0 where
  pub decoded : Message
  pub has_message : s.message ≡ some decoded
  pub own : decoded.raw ≡ s.item.raw
  pub no_failure : s.failure ≡ none
  pub no_verdict : s.verdict ≡ none

-- The message failed and was not forwarded yet.
pub record Failed (s : Slot) : Type 0 where
  pub thrown : Thrown
  pub has_failed : s.failure ≡ some thrown
  pub no_verdict : s.verdict ≡ none

abbrev pub Decoded : Slot → Type 0
Decoded s = Open s ⊎ (Failed s × (s.message ≡ none))

abbrev pub Done : Slot → Log
Done s es = Accounted s.item.raw es

abbrev pub Ready : Slot → Log
Ready s es = Open s ⊎ ((s.message ≡ none) × Done s es)

abbrev pub Owed : Slot → Log
Owed s es = Failed s ⊎ Done s es

abbrev pub AllOf : (Slot → Log) → List Slot → Log
AllOf R slots es = All (λ s. R s es) slots

pub Done-IsStable : (s : Slot) → IsStable (Done s)
Done-IsStable s = Accounted-IsStable s.item.raw

pub Ready-IsStable : (s : Slot) → IsStable (Ready s)
Ready-IsStable s e es (inl o) = inl o
Ready-IsStable s e es (inr (n, d)) = inr (n, Accounted-IsStable s.item.raw e es d)

pub Owed-IsStable : (s : Slot) → IsStable (Owed s)
Owed-IsStable s e es (inl f) = inl f
Owed-IsStable s e es (inr d) = inr (Accounted-IsStable s.item.raw e es d)

pub AllOf-IsStable :
    (R : Slot → Log)
    → ((s : Slot) → IsStable (R s))
    → (slots : List Slot) → IsStable (AllOf R slots)
AllOf-IsStable R h [] e es all = tt
AllOf-IsStable R h (s ∷ slots) e es (r, all) = (h s e es r, AllOf-IsStable R h slots e es all)

abbrev pub Among : Pending → List Pending → Type 0
Among item [] = ⊥
Among item (other ∷ items) = (other ≡ item) ⊎ Among item items

pub Among-last : (items : List Pending) (item : Pending) → Among item (items ++ item ∷ [])
Among-last [] item = inl refl
Among-last (other ∷ items) item = inr (Among-last items item)

-- A batch of which every message is accounted for backs the commit of any of them.
pub AllOf-Done :
    (es : List Effect) (slots : List Slot) (item : Pending)
    → AllOf Done slots es
    → Among item (items_of slots)
    → Accounted item.raw es
AllOf-Done es [] item h a = elim a [ ]
AllOf-Done es (s ∷ slots) item (d, h) (inl e) = subst (λ i. Accounted i.raw es) e d
AllOf-Done es (s ∷ slots) item (d, h) (inr a) = AllOf-Done es slots item h a

pub some≢none {ℓ} : {A : Type ℓ} {a : A} → some a ≢ none
some≢none e = cc

module _ (es : List Effect) where
  InBatch-more :
      (o : Option Message) (raw : RawMessage) (rest : List Message)
      → InBatch raw rest
      → InBatch raw (with_message o rest)
  unfolding with_message
  InBatch-more none raw rest h = h
  InBatch-more (some m) raw rest h = inr h

  InBatch-own :
      (o : Option Message) (m : Message) (raw : RawMessage) (rest : List Message)
      → o ≡ some m
      → m.raw ≡ raw
      → InBatch raw (with_message o rest)
  unfolding with_message
  InBatch-own none m raw rest e q = ground arith
  InBatch-own (some n) m raw rest e q =
      inl (ap (λ (o : Option Message). elim o [ none ↦ raw | some k ↦ k.raw ]) e ∙ q)

  -- What the handler resolved for is accounted for.
  handled_slot :
      (s : Slot) (ms : List Message)
      → (Open s → InBatch s.item.raw ms)
      → Ready s es
      → Done s (batch_handled ms ∷ es)
  handled_slot s ms h (inl o) = inl (h o)
  handled_slot s ms h (inr (n, d)) = inr d

  pub handled_slots :
      (slots : List Slot) (ms : List Message)
      → ((raw : RawMessage) → InBatch raw (messages_of slots) → InBatch raw ms)
      → AllOf Ready slots es
      → AllOf Owed slots (batch_handled ms ∷ es)
  unfolding messages_of
  handled_slots [] ms h all = tt
  handled_slots (s ∷ slots) ms h (r, all) = (
    inr (
        handled_slot s ms
          (λ o.
            h s.item.raw
              (InBatch-own s.message o.decoded s.item.raw (messages_of slots) o.has_message o.own))
          r),
    handled_slots slots ms (λ raw q. h raw (InBatch-more s.message raw (messages_of slots) q)) all,
  )

  with_message-nil :
      (o : Option Message) (rest : List Message)
      → with_message o rest ≡ []
      → (o ≡ none) × (rest ≡ [])
  unfolding with_message
  with_message-nil none rest e = (refl, e)
  with_message-nil (some m) rest e = ground arith

  settled_of : (s : Slot) → s.message ≡ none → Ready s es → Owed s es
  settled_of s n (inl o) = absurd (some≢none (sym o.has_message ∙ n))
  settled_of s n (inr (m, d)) = inr d

  -- Where nothing decoded, everything is accounted for.
  pub nothing_open :
      (slots : List Slot) → messages_of slots ≡ [] → AllOf Ready slots es → AllOf Owed slots es
  unfolding messages_of
  nothing_open [] e all = tt
  nothing_open (s ∷ slots) e (r, all) =
      let (none_here, rest) = with_message-nil s.message (messages_of slots) e in
      (settled_of s none_here r, nothing_open slots rest all)

-- A message that none of the references still to come names was accounted for by the handler.
abbrev pub Listed : Text → ℕ → List MessageRef → Slot → Log
Listed topic partition refs s es =
    Owed s es
    ⊎ ((s.verdict ≡ none)
        × (is_some s.message ≡ true)
        × (any (λ ref. names topic partition ref s.item.raw) refs ≡ false → Done s es))

-- What becomes of the slots when the handler names some messages, or fails them all.
module _ (failure : Thrown) (es : List Effect) where
  fail_if-Owed :
      (s : Slot) (b : Bool) → is_some s.message ≡ b → Ready s es → Owed (fail_if failure s b) es
  unfolding fail_if
  fail_if-Owed s true e (inl o) =
      inl (record { thrown = failure; has_failed = refl; no_verdict = o.no_verdict })
  fail_if-Owed s true e (inr (n, d)) = inr d
  fail_if-Owed s false e (inl o) = ground (arith, o.has_message)
  fail_if-Owed s false e (inr (n, d)) = inr d

  pub fail_all-Owed :
      (slots : List Slot) → AllOf Ready slots es → AllOf Owed (fail_all failure slots) es
  unfolding fail_all
  fail_all-Owed [] all = tt
  fail_all-Owed (s ∷ slots) (r, all) = (fail_if-Owed s _ refl r, fail_all-Owed slots all)

  module _ (topic : Text) (partition : ℕ) where
    fail_if-Listed :
        (ref : MessageRef) (refs : List MessageRef) (s : Slot) (b : Bool)
        → names_slot topic partition ref s ≡ b
        → Listed topic partition (ref ∷ refs) s es
        → Listed topic partition refs (fail_if failure s b) es
    unfolding fail_if names_slot
    fail_if-Listed ref refs s true e (inl (inl f)) =
        inl (inl (record { thrown = failure; has_failed = refl; no_verdict = f.no_verdict }))
    fail_if-Listed ref refs s true e (inl (inr d)) = inl (inr d)
    fail_if-Listed ref refs s true e (inr (v, m, h)) =
        inl (inl (record { thrown = failure; has_failed = refl; no_verdict = v }))
    fail_if-Listed ref refs s false e (inl o) = inl o
    fail_if-Listed ref refs s false e (inr (v, m, h)) = inr (v, m, λ q. h (ground arith))

    fail_named-Listed :
        (ref : MessageRef) (refs : List MessageRef) (slots : List Slot)
        → AllOf (Listed topic partition (ref ∷ refs)) slots es
        → AllOf (Listed topic partition refs) (fail_named topic partition failure ref slots) es
    unfolding fail_named
    fail_named-Listed ref refs [] all = tt
    fail_named-Listed ref refs (s ∷ slots) (r, all) =
        (fail_if-Listed ref refs s _ refl r, fail_named-Listed ref refs slots all)

    Listed-Owed :
        (slots : List Slot) → AllOf (Listed topic partition []) slots es → AllOf Owed slots es
    Listed-Owed [] all = tt
    Listed-Owed (s ∷ slots) (inl o, all) = (o, Listed-Owed slots all)
    Listed-Owed (s ∷ slots) (inr (v, m, h), all) = (inr (h refl), Listed-Owed slots all)

    pub fail_listed-Owed :
        (refs : List MessageRef) (slots slots' : List Slot)
        → AllOf (Listed topic partition refs) slots es
        → fail_listed topic partition failure refs slots ≡ ok slots'
        → AllOf Owed slots' es
    unfolding fail_listed
    fail_listed-Owed [] slots slots' all e =
        subst (λ l. AllOf Owed l es) (ok-injective _ _ e) (Listed-Owed slots all)
    fail_listed-Owed (ref ∷ refs) slots slots' all e =
        fail_listed-Owed refs (fail_named topic partition failure ref slots) slots'
          (fail_named-Listed ref refs slots all) (ground arith)

pub cong_cons :
    {a b : Pending} {as_items bs : List Pending} → a ≡ b → as_items ≡ bs → a ∷ as_items ≡ b ∷ bs
cong_cons p q = cc

-- Marking keeps the messages of the batch.
items-fail_if : (failure : Thrown) (s : Slot) (b : Bool) → (fail_if failure s b).item ≡ s.item
unfolding fail_if
items-fail_if failure s true = refl
items-fail_if failure s false = refl

items-fail_all :
    (failure : Thrown) (slots : List Slot) → items_of (fail_all failure slots) ≡ items_of slots
unfolding fail_all
items-fail_all failure [] = refl
items-fail_all failure (s ∷ slots) =
    cong_cons (items-fail_if failure s (is_some s.message)) (items-fail_all failure slots)

items-fail_named :
    (topic : Text) (partition : ℕ) (failure : Thrown) (ref : MessageRef) (slots : List Slot)
    → items_of (fail_named topic partition failure ref slots) ≡ items_of slots
unfolding fail_named
items-fail_named topic partition failure ref [] = refl
items-fail_named topic partition failure ref (s ∷ slots) =
    cong_cons (items-fail_if failure s (names_slot topic partition ref s))
      (items-fail_named topic partition failure ref slots)

items-fail_listed :
    (topic : Text) (partition : ℕ) (failure : Thrown) (refs : List MessageRef)
    (slots slots' : List Slot)
    → fail_listed topic partition failure refs slots ≡ ok slots'
    → items_of slots' ≡ items_of slots
unfolding fail_listed
items-fail_listed topic partition failure [] slots slots' e = ap items_of (sym (ok-injective _ _ e))
items-fail_listed topic partition failure (ref ∷ refs) slots slots' e =
    items-fail_listed topic partition failure refs (fail_named topic partition failure ref slots)
      slots' (ground arith)
    ∙ items-fail_named topic partition failure ref slots

pub items-mark_by :
    (topic : Text) (partition : ℕ) (thrown : Thrown) (refs : Option (List MessageRef))
    (slots slots' : List Slot)
    → mark_by topic partition thrown refs slots ≡ ok slots'
    → items_of slots' ≡ items_of slots
unfolding mark_by
items-mark_by topic partition thrown none slots slots' e =
    ap items_of (sym (ok-injective _ _ e)) ∙ items-fail_all thrown slots
items-mark_by topic partition thrown (some refs) slots slots' e =
    items-fail_listed topic partition (cause_or_self thrown) refs slots slots' e

module _ (topic : Text) (partition : ℕ) (refs : List MessageRef) where
  abbrev Unnamed : RawMessage → Type 0
  Unnamed raw = any (λ ref. names topic partition ref raw) refs ≡ false

  keep_if :
      (b : Bool) (m : Message) (raw : RawMessage) (rest : List Message)
      → b ≡ false
      → m.raw ≡ raw
      → InBatch raw (if b then rest else m ∷ rest)
  keep_if false m raw rest e q = inl q
  keep_if true m raw rest e q = ground arith

  pass_if :
      (b : Bool) (m : Message) (raw : RawMessage) (rest : List Message)
      → InBatch raw rest
      → InBatch raw (if b then rest else m ∷ rest)
  pass_if false m raw rest h = inr h
  pass_if true m raw rest h = h

  InBatch-unlisted :
      (raw : RawMessage) (ms : List Message)
      → Unnamed raw
      → InBatch raw ms
      → InBatch raw (unlisted topic partition refs ms)
  unfolding unlisted
  InBatch-unlisted raw [] u h = h
  InBatch-unlisted raw (m ∷ ms) u (inl q) =
      keep_if _ m raw (unlisted topic partition refs ms) (subst (λ r. Unnamed r) (sym q) u) q
  InBatch-unlisted raw (m ∷ ms) u (inr h) =
      pass_if _ m raw (unlisted topic partition refs ms) (InBatch-unlisted raw ms u h)

  answered_slot :
      (failure : Thrown) (s : Slot) (ms : List Message) (es : List Effect)
      → (Open s → InBatch s.item.raw ms)
      → Ready s es
      → Listed topic partition refs s (batch_handled (unlisted topic partition refs ms) ∷ es)
  answered_slot failure s ms es h (inl o) = inr (
    o.no_verdict,
    ground (arith, o.has_message),
    λ u. inl (InBatch-unlisted s.item.raw ms u (h o)),
  )
  answered_slot failure s ms es h (inr (n, d)) = inl (inr (inr d))

  -- A handler that names its failures resolved for the others.
  pub answered_slots :
      (failure : Thrown) (slots : List Slot) (ms : List Message) (es : List Effect)
      → ((raw : RawMessage) → InBatch raw (messages_of slots) → InBatch raw ms)
      → AllOf Ready slots es
      → AllOf
          (Listed topic partition refs)
          slots
          (batch_handled (unlisted topic partition refs ms) ∷ es)
  unfolding messages_of
  answered_slots failure [] ms es h all = tt
  answered_slots failure (s ∷ slots) ms es h (r, all) = (
    answered_slot failure s ms es
        (λ o.
          h s.item.raw
            (InBatch-own es s.message o.decoded s.item.raw (messages_of slots) o.has_message o.own))
        r,
    answered_slots failure slots ms es
        (λ raw q. h raw (InBatch-more es s.message raw (messages_of slots) q)) all,
  )

pub Listed-IsStable :
    (topic : Text) (partition : ℕ) (refs : List MessageRef) (s : Slot)
    → IsStable (Listed topic partition refs s)
Listed-IsStable topic partition refs s e es (inl o) = inl (Owed-IsStable s e es o)
Listed-IsStable topic partition refs s e es (inr (v, m, h)) =
    inr (v, m, λ u. Accounted-IsStable s.item.raw e es (h u))

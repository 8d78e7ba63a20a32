-- ===== src/Harbor/Lag.antt =====
-- `collectLag` of src/harbor.ts: the lag of every running consumer, from what each answered.
use kafka_harbor.Prelude.{
  ℕ, leb, ◌⊎◌, inl, inr, ◌≡◌, refl, Bool, true, false, Option, none, some, List, [], ◌∷◌, ◌++◌,
  Text, All, arith, if◌then◌else◌, All-mono, ◌≢◌, ap, all, ◌∙◌, sym, append_assoc,
}
use kafka_harbor.Errors.{Thrown}
use kafka_harbor.Result.{Result, ok, err}
use kafka_harbor.Consumer.World.{ConsumerState, running}
use kafka_harbor.Consumer.Lag.{PartitionLag}

-- A consumer, and what its `lag()` answers if it is asked, and when.
pub record Answer : Type 0 where
  pub at : ℕ
  pub group_id : Text
  pub status : ConsumerState
  pub lag : Result (List PartitionLag)

unfoldable pub is_asked : ConsumerState → Bool
is_asked running = true
is_asked _ = false

-- The answers of the consumers that are asked.
unfoldable pub running_answers : List Answer → List Answer
unfolding is_asked
running_answers [] = []
running_answers (a ∷ answers) =
    let rest = running_answers answers in if is_asked a.status then a ∷ rest else rest

report : Text → Result (List PartitionLag) → List (Text × Thrown) → List (Text × Thrown)
report group (ok partitions) rest = rest
report group (err thrown) rest = (group, thrown) ∷ rest

insert_if : Bool → Answer → Answer → List Answer → List Answer → List Answer
insert_if true a b answers rest = a ∷ b ∷ answers
insert_if false a b answers rest = b ∷ rest

insert_answer : Answer → List Answer → List Answer
unfolding insert_if
insert_answer a [] = a ∷ []
insert_answer a (b ∷ answers) = insert_if (leb a.at b.at) a b answers (insert_answer a answers)

-- The answers in the order in which they come.
unfoldable pub as_settled : List Answer → List Answer
unfolding insert_answer
as_settled [] = []
as_settled (a ∷ answers) = insert_answer a (as_settled answers)

-- The `error` events, each with the group it is about, of answers that come in this order.
unfoldable pub reports : List Answer → List (Text × Thrown)
unfolding report
reports [] = []
reports (a ∷ answers) = report a.group_id a.lag (reports answers)

rejection_or : Result (List PartitionLag) → Option Thrown → Option Thrown
rejection_or (ok partitions) rest = rest
rejection_or (err thrown) rest = some thrown

-- `firstRejection(results)`
unfoldable pub first_rejection : List Answer → Option Thrown
unfolding rejection_or
first_rejection [] = none
first_rejection (a ∷ answers) = rejection_or a.lag (first_rejection answers)

is_rejected : Result (List PartitionLag) → Bool
is_rejected (ok partitions) = false
is_rejected (err thrown) = true

unfoldable pub all_rejected : List Answer → Bool
unfolding is_rejected
all_rejected answers = all (λ a. is_rejected a.lag) answers

with_partitions : Result (List PartitionLag) → List PartitionLag → List PartitionLag
with_partitions (ok partitions) rest = partitions ++ rest
with_partitions (err thrown) rest = rest

unfoldable pub fulfilled : List Answer → List PartitionLag
unfolding with_partitions
fulfilled [] = []
fulfilled (a ∷ answers) = with_partitions a.lag (fulfilled answers)

lag_of : Bool → Option Thrown → List Answer → Result (List PartitionLag)
lag_of true (some thrown) answers = err thrown
lag_of true none answers = ok (fulfilled answers)
lag_of false failed answers = ok (fulfilled answers)

-- `collectLag`: what it answers, and the errors that it reported, each as it came.
unfoldable pub collect_lag : List Answer → Result (List PartitionLag) × List (Text × Thrown)
unfolding lag_of all_rejected first_rejection fulfilled reports running_answers as_settled
collect_lag consumers =
    let answers = running_answers consumers in
    (lag_of (all_rejected answers) (first_rejection answers) answers, reports (as_settled answers))

-- A consumer that answered nothing but an error.
abbrev pub Silent : Answer → Type 0
Silent a = (partitions : List PartitionLag) → a.lag ≢ ok partitions

-- All that a consumer answered stands together in the result.
pub record Within (result : List PartitionLag) (partitions : List PartitionLag) : Type 0 where
  pub before : List PartitionLag
  pub after : List PartitionLag
  pub splits : result ≡ before ++ (partitions ++ after)

abbrev pub Reported : List PartitionLag → Answer → Type 0
Reported result a =
    (partitions : List PartitionLag) → a.lag ≡ ok partitions → Within result partitions

abbrev pub Among : Text × Thrown → List (Text × Thrown) → Type 0
Among x [] = ⊥
Among x (y ∷ ys) = (y ≡ x) ⊎ Among x ys

-- If the consumer was rejected, the error was reported, with its group.
abbrev pub Told : List (Text × Thrown) → Answer → Type 0
Told reported a = (thrown : Thrown) → a.lag ≡ err thrown → Among (a.group_id, thrown) reported

-- What a caller learns of the consumers that run.
abbrev pub Learned : List Answer → Result (List PartitionLag) → List (Text × Thrown) → Type 0
Learned consumers (ok result) reported =
    All (λ a. is_asked a.status ≡ true → Reported result a) consumers
Learned consumers (err thrown) reported =
    ((group : Text) × Among (group, thrown) reported)
    × All (λ a. is_asked a.status ≡ true → Silent a) consumers

abbrev pub Collected : List Answer → Result (List PartitionLag) → List (Text × Thrown) → Type 0
Collected consumers result reported =
    All (λ a. is_asked a.status ≡ true → Told reported a) consumers
    × Learned consumers result reported

module _ (P : Answer → Type 0) where
  keep-All :
      (b : Bool) (c : Answer) (rest : List Answer)
      → All P (if b then c ∷ rest else rest)
      → (b ≡ true → P c) × All P rest
  keep-All true c rest (p, ps) = ((λ e. p), ps)
  keep-All false c rest ps = ((λ e. ground arith), ps)

  of_running :
      (cs : List Answer) → All P (running_answers cs) → All (λ a. is_asked a.status ≡ true → P a) cs
  unfolding running_answers
  of_running [] h = tt
  of_running (c ∷ cs) h =
      let (p, ps) = keep-All (is_asked c.status) c (running_answers cs) h in (p, of_running cs ps)

further :
    (r : Result (List PartitionLag)) {result partitions : List PartitionLag}
    → Within result partitions
    → Within (with_partitions r result) partitions
unfolding with_partitions
further (err thrown) w = w
further (ok xs) w = record {
  before = xs ++ w.before;
  after = w.after;
  splits = ap (λ t. xs ++ t) w.splits ∙ sym (append_assoc xs w.before _);
}

own-Within :
    (r : Result (List PartitionLag)) (rest partitions : List PartitionLag)
    → r ≡ ok partitions
    → Within (with_partitions r rest) partitions
unfolding with_partitions
own-Within (ok xs) rest partitions e = record { before = []; after = rest; splits = ground arith }
own-Within (err thrown) rest partitions e = ground arith

fulfilled-Reported : (answers : List Answer) → All (Reported (fulfilled answers)) answers
unfolding fulfilled
fulfilled-Reported [] = tt
fulfilled-Reported (a ∷ answers) = (
  own-Within a.lag (fulfilled answers),
  All-mono (Reported (fulfilled answers)) (Reported (fulfilled (a ∷ answers)))
      (λ b h partitions e. further a.lag (h partitions e)) answers (fulfilled-Reported answers),
)

all_rejected-Silent : (answers : List Answer) → all_rejected answers ≡ true → All Silent answers
unfolding all_rejected is_rejected
all_rejected-Silent [] h = tt
all_rejected-Silent (a ∷ answers) h =
    ((λ partitions e. ground arith), all_rejected-Silent answers (ground arith))

report-keeps :
    (x : Text × Thrown) (group : Text) (r : Result (List PartitionLag))
    (rest : List (Text × Thrown))
    → Among x rest
    → Among x (report group r rest)
unfolding report
report-keeps x group (ok partitions) rest m = m
report-keeps x group (err thrown) rest m = inr m

report-own :
    (group : Text) (r : Result (List PartitionLag)) (thrown : Thrown) (rest : List (Text × Thrown))
    → r ≡ err thrown
    → Among (group, thrown) (report group r rest)
unfolding report
report-own group (ok partitions) thrown rest e = ground arith
report-own group (err e') thrown rest e = inl (ground arith)

report_mono :
    (x : Text × Thrown) (group : Text) (r : Result (List PartitionLag))
    (errors rest : List (Text × Thrown))
    → (Among x errors → Among x rest)
    → Among x (report group r errors)
    → Among x (report group r rest)
unfolding report
report_mono x group (ok partitions) errors rest f m = f m
report_mono x group (err thrown) errors rest f (inl e) = inl e
report_mono x group (err thrown) errors rest f (inr m) = inr (f m)

placed-keeps :
    (x : Text × Thrown) (first : Bool) (a b : Answer) (answers rest : List Answer)
    → (Among x (reports answers) → Among x (reports rest))
    → Among x (reports (b ∷ answers))
    → Among x (reports (insert_if first a b answers rest))
unfolding insert_if reports
placed-keeps x true a b answers rest f m = report-keeps x a.group_id a.lag _ m
placed-keeps x false a b answers rest f m = report_mono x b.group_id b.lag _ _ f m

insert-keeps :
    (x : Text × Thrown) (a : Answer) (answers : List Answer)
    → Among x (reports answers)
    → Among x (reports (insert_answer a answers))
unfolding reports insert_answer
insert-keeps x a [] m = report-keeps x a.group_id a.lag [] m
insert-keeps x a (b ∷ answers) m =
    placed-keeps x (leb a.at b.at) a b answers (insert_answer a answers) (insert-keeps x a answers)
      m

placed-own :
    (first : Bool) (a b : Answer) (thrown : Thrown) (answers rest : List Answer)
    → a.lag ≡ err thrown
    → Among (a.group_id, thrown) (reports rest)
    → Among (a.group_id, thrown) (reports (insert_if first a b answers rest))
unfolding insert_if reports
placed-own true a b thrown answers rest e m = report-own a.group_id a.lag thrown _ e
placed-own false a b thrown answers rest e m = report-keeps _ b.group_id b.lag _ m

insert-own :
    (a : Answer) (thrown : Thrown) (answers : List Answer)
    → a.lag ≡ err thrown
    → Among (a.group_id, thrown) (reports (insert_answer a answers))
unfolding reports insert_answer
insert-own a thrown [] e = report-own a.group_id a.lag thrown [] e
insert-own a thrown (b ∷ answers) e =
    placed-own (leb a.at b.at) a b thrown answers (insert_answer a answers) e
      (insert-own a thrown answers e)

as_settled-Told : (answers : List Answer) → All (Told (reports (as_settled answers))) answers
unfolding as_settled
as_settled-Told [] = tt
as_settled-Told (a ∷ answers) = (
  λ thrown e. insert-own a thrown (as_settled answers) e,
  All-mono (Told (reports (as_settled answers))) (Told (reports (as_settled (a ∷ answers))))
      (λ b told thrown e. insert-keeps _ a (as_settled answers) (told thrown e)) answers
      (as_settled-Told answers),
)

-- The first rejection is among the errors that were told.
rejection_told :
    (r : Result (List PartitionLag)) (group : Text) (thrown : Thrown) (rest : Option Thrown)
    (reported : List (Text × Thrown))
    → ((e : Thrown) → r ≡ err e → Among (group, e) reported)
    → (rest ≡ some thrown → (g : Text) × Among (g, thrown) reported)
    → rejection_or r rest ≡ some thrown
    → (g : Text) × Among (g, thrown) reported
unfolding rejection_or
rejection_told (ok partitions) group thrown rest reported own others e = others e
rejection_told (err e') group thrown rest reported own others e = (group, own thrown (ground arith))

first_rejection-Told :
    (answers : List Answer) (thrown : Thrown) (reported : List (Text × Thrown))
    → All (Told reported) answers
    → first_rejection answers ≡ some thrown
    → (group : Text) × Among (group, thrown) reported
unfolding first_rejection
first_rejection-Told [] thrown reported told e = ground arith
first_rejection-Told (a ∷ answers) thrown reported (own, told) e =
    rejection_told a.lag a.group_id thrown (first_rejection answers) reported own
      (first_rejection-Told answers thrown reported told) e

learned :
    (cs : List Answer) (b : Bool) (first : Option Thrown)
    → all_rejected (running_answers cs) ≡ b
    → first_rejection (running_answers cs) ≡ first
    → Learned cs (lag_of b first (running_answers cs)) (reports (as_settled (running_answers cs)))
unfolding lag_of
learned cs false first e f =
    of_running (Reported (fulfilled (running_answers cs))) cs
      (fulfilled-Reported (running_answers cs))
learned cs true none e f =
    of_running (Reported (fulfilled (running_answers cs))) cs
      (fulfilled-Reported (running_answers cs))
learned cs true (some thrown) e f = (
  first_rejection-Told (running_answers cs) thrown _ (as_settled-Told (running_answers cs)) f,
  of_running Silent cs (all_rejected-Silent (running_answers cs) e),
)

-- The lag of a harbor holds all that each running consumer answered, whichever of the others failed,
-- and every failure of a running consumer is reported with its group; the call is rejected only if no
-- running consumer answered, and then with one of the errors that were reported.
pub collect_lag-Collected :
    (consumers : List Answer)
    → Collected consumers (collect_lag consumers).0 (collect_lag consumers).1
unfolding collect_lag
collect_lag-Collected consumers = (
  of_running (Told (reports (as_settled (running_answers consumers)))) consumers
      (as_settled-Told (running_answers consumers)),
  learned consumers _ _ refl refl,
)

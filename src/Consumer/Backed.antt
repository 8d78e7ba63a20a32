-- ===== src/Consumer/Backed.antt =====
-- What backs a commit: the message it moves past was handled, or was forwarded and acknowledged.
use kafka_harbor.Prelude.{◌≡◌, ◌⊎◌, inr, List, [], ◌∷◌}
use kafka_harbor.Adapter.{RawMessage}
use kafka_harbor.Result.{ok}
use kafka_harbor.Commit.{offset_after}
use kafka_harbor.Consumer.World.{
  Message, Effect, produced, produce_failed, committed, commit_failed, handled, handler_failed,
  batch_handled, batch_handler_failed, paused, slept, emitted,
}
use kafka_harbor.Consumer.Action.Logs.{Log}

-- The message is one of those that a batch handler got.
abbrev pub InBatch : RawMessage → List Message → Type 0
InBatch raw [] = ⊥
InBatch raw (m ∷ ms) = (m.raw ≡ raw) ⊎ InBatch raw ms

-- The message was handled, alone or in a batch, or a record for it was acknowledged. The log has
-- the latest effect first.
abbrev pub Accounted : RawMessage → Log
Accounted raw [] = ⊥
Accounted raw (handled r ∷ es) = (r ≡ raw) ⊎ Accounted raw es
Accounted raw (produced kind r sent ∷ es) = (r ≡ raw) ⊎ Accounted raw es
Accounted raw (batch_handled ms ∷ es) = InBatch raw ms ⊎ Accounted raw es
Accounted raw (_ ∷ es) = Accounted raw es

-- Every commit is of the offset after a message that was accounted for before.
abbrev pub CommitsBacked : Log
CommitsBacked [] = Unit {0}
CommitsBacked (committed o ∷ es) =
    ((raw : RawMessage) × (offset_after raw ≡ ok o) × Accounted raw es) × CommitsBacked es
CommitsBacked (_ ∷ es) = CommitsBacked es

-- A fact of the log that later effects leave true is kept beside the commits.
abbrev pub Framed : Log → Log
Framed F es = F es × CommitsBacked es

abbrev pub Backed : Log → RawMessage → Log
Backed F raw es = Accounted raw es × Framed F es

abbrev pub IsStable : Log → Type 0
IsStable F = (e : Effect) (es : List Effect) → F es → F (e ∷ es)

-- What is accounted for stays so.
pub Accounted-IsStable : (raw : RawMessage) → IsStable (Accounted raw)
Accounted-IsStable raw (handled r) es a = inr a
Accounted-IsStable raw (produced kind r sent) es a = inr a
Accounted-IsStable raw (batch_handled ms) es a = inr a
Accounted-IsStable raw (produce_failed kind r sent) es a = a
Accounted-IsStable raw (committed o) es a = a
Accounted-IsStable raw (commit_failed o) es a = a
Accounted-IsStable raw (handler_failed r) es a = a
Accounted-IsStable raw (batch_handler_failed ms) es a = a
Accounted-IsStable raw (paused k) es a = a
Accounted-IsStable raw (slept ms) es a = a
Accounted-IsStable raw (emitted ev) es a = a

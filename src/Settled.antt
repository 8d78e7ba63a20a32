-- ===== src/Settled.antt =====
-- Promises that have settled: `Promise.all`, which answers with the values, or with the first
-- rejection in time.
use kafka_harbor.Prelude.{
  ℕ, ◌≡◌, refl, Option, none, some, List, [], ◌∷◌, leb, arith, if◌then◌else◌, subst,
}
use kafka_harbor.Errors.{Thrown}
use kafka_harbor.Result.{Result, ok, err}

-- What a promise came to, and when.
pub record Settled {ℓ} (A : Type ℓ) : Type ℓ where
  pub outcome : Result A
  pub at : ℕ

abbrev pub Rejection : Type 0
Rejection = Thrown × ℕ

earlier : Thrown → ℕ → Option Rejection → Option Rejection
earlier thrown at none = some (thrown, at)
earlier thrown at (some (other, moment)) =
    if leb at moment then some (thrown, at) else some (other, moment)

module _ {ℓ} {A : Type ℓ} where
  add_rejection : Result A → ℕ → Option Rejection → Option Rejection
  unfolding earlier
  add_rejection (ok a) at rest = rest
  add_rejection (err thrown) at rest = earlier thrown at rest

  -- The first rejection in time, if any.
  unfoldable pub rejection : List (Settled A) → Option Rejection
  unfolding add_rejection
  rejection [] = none
  rejection (p ∷ ps) = add_rejection p.outcome p.at (rejection ps)

  add_value : Result A → List A → List A
  add_value (ok a) rest = a ∷ rest
  add_value (err thrown) rest = rest

  unfoldable pub values : List (Settled A) → List A
  unfolding add_value
  values [] = []
  values (p ∷ ps) = add_value p.outcome (values ps)

  unless_rejected : Option Rejection → List A → Result (List A)
  unless_rejected none as_values = ok as_values
  unless_rejected (some (thrown, at)) as_values = err thrown

  unfoldable pub promise_all : List (Settled A) → Result (List A)
  unfolding unless_rejected rejection values
  promise_all ps = unless_rejected (rejection ps) (values ps)

-- What the promises came to, one by one.
pub data Fulfilled {ℓ} {A : Type ℓ} : List (Settled A) → List A → Type ℓ where
  none_left : Fulfilled [] []
  fulfils :
      {p : Settled A} {a : A} {ps : List (Settled A)} {vs : List A}
      → p.outcome ≡ ok a
      → Fulfilled ps vs
      → Fulfilled (p ∷ ps) (a ∷ vs)

module _ {ℓ} {A : Type ℓ} where
  add_value-Fulfilled :
      (r : Result A) (at : ℕ) (p : Settled A) (ps : List (Settled A)) (vs : List A)
      → p.outcome ≡ r
      → (rejection ps ≡ none → Fulfilled ps vs)
      → add_rejection r at (rejection ps) ≡ none
      → Fulfilled (p ∷ ps) (add_value r vs)
  unfolding add_rejection add_value earlier
  add_value-Fulfilled (ok a) at p ps vs q f e = fulfils q (f e)
  add_value-Fulfilled (err thrown) at p ps vs q f e = ground arith

  values-Fulfilled : (ps : List (Settled A)) → rejection ps ≡ none → Fulfilled ps (values ps)
  unfolding rejection values
  values-Fulfilled [] e = none_left
  values-Fulfilled (p ∷ ps) e =
      add_value-Fulfilled p.outcome p.at p ps (values ps) refl (values-Fulfilled ps) e

  unless_rejected-ok :
      (r : Option Rejection) (vs ws : List A)
      → unless_rejected r ws ≡ ok vs
      → (r ≡ none) × (ws ≡ vs)
  unfolding unless_rejected
  unless_rejected-ok none vs ws e = (refl, ground arith)
  unless_rejected-ok (some (thrown, at)) vs ws e = ground arith

  -- The values of promises that all resolved, in their order.
  pub promise_all-Fulfilled :
      (ps : List (Settled A)) (vs : List A) → promise_all ps ≡ ok vs → Fulfilled ps vs
  unfolding promise_all
  promise_all-Fulfilled ps vs e =
      let (q, w) = unless_rejected-ok (rejection ps) vs (values ps) e in
      subst (Fulfilled ps) w (values-Fulfilled ps q)

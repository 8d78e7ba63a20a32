-- ===== src/Consumer/Action/Steps.antt =====
-- What an action returns when it starts at a given question to the outside: a rule for each way to
-- build an action. What an action throws is not held to anything.
use kafka_harbor.Prelude.{
  ℕ, suc, ◌≡◌, refl, ◌∙◌, subst, sym, Bool, true, false, List, [], ◌∷◌, arith, if◌then◌else◌,
}
use kafka_harbor.Result.{Result, ok, err}
use kafka_harbor.Consumer.World.{
  World, StopReason, Env, Effect, Outside, stops, abandons, finishes, revokes,
}
use kafka_harbor.Consumer.World.Elsewhere.{begin_stop, happen, happen_all}
use kafka_harbor.Consumer.Action.{
  Action, pure, gets, tell, ask, await, await_other, continue, ◌>>=◌,
}

abbrev pub Returns {ℓ} : {A : Type ℓ} → (A → ℕ → Type 0) → Result A → ℕ → Type 0
Returns Q (ok a) n = Q a n
Returns Q (err e) n = Unit

-- From step `n`, the action returns with `Q`, or throws.
pub record Steps {ℓ} {A : Type ℓ} (n : ℕ) (m : Action A) (Q : A → ℕ → Type 0) : Type ℓ where
  pub at : (w : World) → w.step ≡ n → Returns Q (m w).0 (m w).1.step

step-begin_stop : (reason : StopReason) (w : World) → (begin_stop reason w).step ≡ w.step
unfolding begin_stop
step-begin_stop reason w = ground arith

step-happen : (o : Outside) (w : World) → (happen o w).step ≡ w.step
unfolding happen
step-happen (stops reason) w = step-begin_stop reason w
step-happen abandons w = ground arith
step-happen finishes w = ground arith
step-happen (revokes key) w = refl

step-happen_all : (os : List Outside) (w : World) → (happen_all os w).step ≡ w.step
unfolding happen_all
step-happen_all [] w = refl
step-happen_all (o ∷ os) w = step-happen_all os (happen o w) ∙ step-happen o w

module _ {ℓ} {A : Type ℓ} {n : ℕ} (Q : A → ℕ → Type 0) where
  pub Steps-pure : (a : A) → Q a n → Steps n (pure a) Q
  unfolding pure
  Steps-pure a q = record { at = λ w h. subst (Q a) (sym h) q }

  pub Steps-gets : (f : World → A) → ((a : A) → Q a n) → Steps n (gets f) Q
  unfolding gets
  Steps-gets f q = record { at = λ w h. subst (Q (f w)) (sym h) (q (f w)) }

  pub Steps-ask : (f : ℕ → A) → Q (f n) (suc n) → Steps n (ask f) Q
  unfolding ask
  Steps-ask f q = record { at = λ w h. subst (λ k. Q (f k) (suc k)) (sym h) q }

  pub Steps-await : (env : Env) (f : ℕ → A) → Q (f n) (suc n) → Steps n (await env f) Q
  unfolding await
  Steps-await env f q = record {
    at = λ w h.
        subst (Q (f w.step)) (sym (step-happen_all (env.outside w.step) _))
          (subst (λ k. Q (f k) (suc k)) (sym h) q);
  }

pub Steps-await_other :
    {n : ℕ} (Q : Unit {0} → ℕ → Type 0) (env : Env) → Q tt (suc n) → Steps n (await_other env) Q
unfolding await_other
Steps-await_other Q env q = Steps-await Q env _ q

pub Steps-tell : {n : ℕ} (Q : Unit {0} → ℕ → Type 0) (e : Effect) → Q tt n → Steps n (tell e) Q
unfolding tell
Steps-tell Q e q = record { at = λ w h. subst (Q tt) (sym h) q }

module _ {ℓ κ} {A : Type ℓ} {B : Type κ} (Q : A → ℕ → Type 0) {R : B → ℕ → Type 0} where
  continue-Returns :
      (r : Result A) (f : A → Action B) (w : World)
      → Returns Q r w.step
      → ((a : A) (k : ℕ) → Q a k → Steps k (f a) R)
      → Returns R (continue r f w).0 (continue r f w).1.step
  continue-Returns (ok a) f w q next = (next a w.step q).at w refl
  continue-Returns (err e) f w q next = tt

  pub Steps-bind :
      {n : ℕ} {m : Action A} {f : A → Action B}
      → Steps n m Q
      → ((a : A) (k : ℕ) → Q a k → Steps k (f a) R)
      → Steps n (m >>= f) R
  unfolding ◌>>=◌
  Steps-bind {n} {m} {f} h next = record {
    at = λ w p. let (r, w') = m w in continue-Returns r f w' (h.at w p) next;
  }

module _ {ℓ} {A : Type ℓ} {n : ℕ} {Q : A → ℕ → Type 0} where
  -- Each branch may use what the test said.
  pub Steps-if :
      (b : Bool) {m k : Action A}
      → (b ≡ true → Steps n m Q)
      → (b ≡ false → Steps n k Q)
      → Steps n (if b then m else k) Q
  Steps-if true hm hk = hm refl
  Steps-if false hm hk = hk refl

-- ===== src/Consumer/Action/Logs.antt =====
-- What an action does to the log of effects: one rule for each way to build an action. The code
-- that runs meanwhile leaves the log of a delivery alone.
use kafka_harbor.Prelude.{
  ℕ, ◌≡◌, refl, ◌∙◌, subst, sym, Bool, true, false, List, [], ◌∷◌, arith, if◌then◌else◌,
}
use kafka_harbor.Errors.{Thrown}
use kafka_harbor.Result.{Result, ok, err}
use kafka_harbor.Consumer.World.{
  World, StopReason, Env, Effect, Outside, stops, abandons, finishes, revokes,
}
use kafka_harbor.Consumer.World.Elsewhere.{begin_stop, happen, happen_all}
use kafka_harbor.Consumer.Action.{
  Action, pure, throw, lift, gets, tell, modify, ask, await, await_other, continue, caught, catch,
  ◌>>=◌,
}

abbrev pub Log : Type 1
Log = List Effect → Type 0

-- What a result and the log after it are held to.
abbrev pub After {ℓ} : {A : Type ℓ} → (A → Log) → Log → Result A → Log
After Q E (ok a) es = Q a es
After Q E (err e) es = E es

-- From a log with `P`, the action returns with `Q` or throws with `E`.
pub record Logs {ℓ} {A : Type ℓ} (P : Log) (m : Action A) (Q : A → Log) (E : Log) : Type ℓ where
  pub at : (w : World) → P w.effects → After Q E (m w).0 (m w).1.effects

pub effects-begin_stop :
    (reason : StopReason) (w : World) → (begin_stop reason w).effects ≡ w.effects
unfolding begin_stop
effects-begin_stop reason w = ground arith

effects-happen : (o : Outside) (w : World) → (happen o w).effects ≡ w.effects
unfolding happen
effects-happen (stops reason) w = effects-begin_stop reason w
effects-happen abandons w = ground arith
effects-happen finishes w = ground arith
effects-happen (revokes key) w = refl

pub effects-happen_all : (os : List Outside) (w : World) → (happen_all os w).effects ≡ w.effects
unfolding happen_all
effects-happen_all [] w = refl
effects-happen_all (o ∷ os) w = effects-happen_all os (happen o w) ∙ effects-happen o w

module _ {ℓ} {A : Type ℓ} (P : Log) (Q : A → Log) (E : Log) where
  pub Logs-pure : (a : A) → ((es : List Effect) → P es → Q a es) → Logs P (pure a) Q E
  unfolding pure
  Logs-pure a h = record { at = λ w p. h w.effects p }

  pub Logs-throw : (e : Thrown) → ((es : List Effect) → P es → E es) → Logs P (throw {A = A} e) Q E
  unfolding throw
  Logs-throw e h = record { at = λ w p. h w.effects p }

  pub Logs-weaken :
      (R : Log) (m : Action A) → ((es : List Effect) → R es → P es) → Logs P m Q E → Logs R m Q E
  Logs-weaken R m f h = record { at = λ w r. h.at w (f w.effects r) }

module _ {ℓ} {A : Type ℓ} (P : Log) where
  pub Logs-gets : (f : World → A) (E : Log) → Logs P (gets f) (λ _. P) E
  unfolding gets
  Logs-gets f E = record { at = λ w p. p }

  pub Logs-ask : (f : ℕ → A) (E : Log) → Logs P (ask f) (λ _. P) E
  unfolding ask
  Logs-ask f E = record { at = λ w p. p }

  pub Logs-await : (env : Env) (f : ℕ → A) (E : Log) → Logs P (await env f) (λ _. P) E
  unfolding await
  Logs-await env f E = record {
    at = λ w p. subst P (sym (effects-happen_all (env.outside w.step) _)) p;
  }

  -- What holds of every answer holds of the one that came.
  pub Logs-await_of :
      (R : A → Type 0) (env : Env) (f : ℕ → A) (E : Log)
      → ((n : ℕ) → R (f n))
      → Logs P (await env f) (λ a es. R a × P es) E
  unfolding await
  Logs-await_of R env f E h = record {
    at = λ w p. (h w.step, subst P (sym (effects-happen_all (env.outside w.step) _)) p);
  }

  pub Logs-lift : (r : Result A) → Logs P (lift r) (λ _. P) P
  unfolding lift
  Logs-lift (ok a) = record { at = λ w p. p }
  Logs-lift (err e) = record { at = λ w p. p }

pub Logs-await_other : (P : Log) (env : Env) (E : Log) → Logs P (await_other env) (λ _. P) E
unfolding await_other
Logs-await_other P env E = Logs-await P env _ E

pub Logs-modify :
    (P E : Log) (f : World → World)
    → ((w : World) → (f w).effects ≡ w.effects)
    → Logs P (modify f) (λ _. P) E
unfolding modify
Logs-modify P E f h = record { at = λ w p. subst P (sym (h w)) p }

pub Logs-tell :
    (P Q E : Log) (e : Effect)
    → ((es : List Effect) → P es → Q (e ∷ es))
    → Logs P (tell e) (λ _. Q) E
unfolding tell
Logs-tell P Q E e h = record { at = λ w p. h w.effects p }

module _ {ℓ κ} {A : Type ℓ} {B : Type κ} (Q : A → Log) {R : B → Log} {E : Log} where
  continue-After :
      (r : Result A) (f : A → Action B) (w : World)
      → After Q E r w.effects
      → ((a : A) → Logs (Q a) (f a) R E)
      → After R E (continue r f w).0 (continue r f w).1.effects
  continue-After (ok a) f w q k = (k a).at w q
  continue-After (err e) f w q k = q

  pub Logs-bind :
      {P : Log} {m : Action A} {f : A → Action B}
      → Logs P m Q E
      → ((a : A) → Logs (Q a) (f a) R E)
      → Logs P (m >>= f) R E
  unfolding ◌>>=◌
  Logs-bind {P} {m} {f} h k = record {
    at = λ w p. let (r, w') = m w in continue-After r f w' (h.at w p) k;
  }

module _ {ℓ} {A : Type ℓ} {Q : A → Log} (E : Log) {F : Log} where
  caught-After :
      (r : Result A) (f : Thrown → Action A) (w : World)
      → After Q E r w.effects
      → ((e : Thrown) → Logs E (f e) Q F)
      → After Q F (caught r f w).0 (caught r f w).1.effects
  unfolding caught
  caught-After (ok a) f w q k = q
  caught-After (err e) f w q k = (k e).at w q

  pub Logs-catch :
      {P : Log} {m : Action A} {f : Thrown → Action A}
      → Logs P m Q E
      → ((e : Thrown) → Logs E (f e) Q F)
      → Logs P (catch m f) Q F
  unfolding catch
  Logs-catch {P} {m} {f} h k = record {
    at = λ w p. let (r, w') = m w in caught-After r f w' (h.at w p) k;
  }

module _ {ℓ} {A : Type ℓ} {P : Log} {Q : A → Log} {E : Log} where
  pub Logs-if :
      (b : Bool) {m n : Action A} → Logs P m Q E → Logs P n Q E → Logs P (if b then m else n) Q E
  Logs-if true hm hn = hm
  Logs-if false hm hn = hn

  -- A fact that does not depend on the log may be assumed before an action.
  pub Logs-assume : {H : Type 0} {m : Action A} → (H → Logs P m Q E) → Logs (λ es. H × P es) m Q E
  Logs-assume h = record { at = λ w c. (h c.0).at w c.1 }

module _ {ℓ} {A : Type ℓ} {Q R : A → Log} {E F : Log} where
  pub After-mono :
      ((a : A) (es : List Effect) → Q a es → R a es)
      → ((es : List Effect) → E es → F es)
      → (r : Result A) (es : List Effect) → After Q E r es
      → After R F r es
  After-mono f g (ok a) es q = f a es q
  After-mono f g (err e) es q = g es q

  -- What an action needs may be strengthened, and what it leaves weakened.
  pub Logs-mono :
      {P Q' : Log} {m : Action A}
      → ((es : List Effect) → Q' es → P es)
      → ((a : A) (es : List Effect) → Q a es → R a es)
      → ((es : List Effect) → E es → F es)
      → Logs P m Q E
      → Logs Q' m R F
  Logs-mono {P} {Q'} {m} h f g l = record {
    at = λ w p. After-mono f g (m w).0 (m w).1.effects (l.at w (h w.effects p));
  }

pub Logs-lift_ok :
    {A : Type 0} (P : Log) (r : Result A) → Logs P (lift r) (λ a es. (r ≡ ok a) × P es) P
unfolding lift
Logs-lift_ok P (ok a) = record { at = λ w p. (refl, p) }
Logs-lift_ok P (err e) = record { at = λ w p. p }

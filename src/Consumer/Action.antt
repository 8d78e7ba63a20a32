-- ===== src/Consumer/Action.antt =====
-- Asynchronous code of the consumer as actions on its world, and rules for what they establish.
pub mod Logs
pub mod Steps
use kafka_harbor.Prelude.{
  ℕ, suc, ◌+◌, ◌≡◌, refl, Bool, true, false, Option, none, some, List, [], ◌∷◌, Text, if◌then◌else◌,
}
use kafka_harbor.Errors.{Thrown}
use kafka_harbor.Result.{Result, ok, err}
use kafka_harbor.Consumer.World.{World, Env, Effect}
use kafka_harbor.Consumer.World.Elsewhere.{happen_all}

abbrev pub Action {ℓ} : Type ℓ → Type ℓ
Action A = World → Result A × World

module _ {ℓ} {A : Type ℓ} where
  pub pure : A → Action A
  pure a w = (ok a, w)

  pub throw : Thrown → Action A
  throw e w = (err e, w)

  pub lift : Result A → Action A
  lift r w = (r, w)

  pub gets : (World → A) → Action A
  gets f w = (ok (f w), w)

-- One more effect.
pub tell : Effect → Action (Unit {0})
tell e w = (ok tt, record w { effects = e ∷ w.effects })

pub modify : (World → World) → Action (Unit {0})
modify f w = (ok tt, f w)

-- A question to the outside that is answered at once.
pub ask {ℓ} : {A : Type ℓ} → (ℕ → A) → Action A
ask answer w = (ok (answer w.step), record w { step = suc w.step })

-- A question that is awaited: other code runs before the answer is there.
pub await {ℓ} : {A : Type ℓ} → Env → (ℕ → A) → Action A
unfolding happen_all
await env answer w =
    (ok (answer w.step), happen_all (env.outside w.step) (record w { step = suc w.step }))

-- A wait whose outcome tells nothing.
pub await_other : Env → Action (Unit {0})
unfolding await
await_other env = await env (λ n. tt)

module _ {ℓ κ} {A : Type ℓ} {B : Type κ} where
  abbrev continue : Result A → (A → Action B) → Action B
  continue (ok a) f w = f a w
  continue (err e) f w = (err e, w)

  infixl 10 ◌>>=◌ ◌>>◌
  unfoldable pub ◌>>=◌ : Action A → (A → Action B) → Action B
  unfolding pure throw lift gets tell modify ask await await_other
  ◌>>=◌ m f w = let (r, w') = m w in continue r f w'

  abbrev pub ◌>>◌ : Action A → Action B → Action B
  m >> n = m >>= λ _. n

module _ {ℓ} {A : Type ℓ} where
  caught : Result A → (Thrown → Action A) → Action A
  caught (ok a) handler w = (ok a, w)
  caught (err e) handler w = handler e w

  -- `try { m } catch (e) { handler(e) }`
  pub catch : Action A → (Thrown → Action A) → Action A
  unfolding caught
  catch m handler w = let (r, w') = m w in caught r handler w'

-- ===== src/Result.antt =====
-- A call that may throw: its value, or what it threw.
use kafka_harbor.Prelude.{arith, Text, Bool, true, false, ◌≡◌, refl, subst}
use kafka_harbor.Errors.{Thrown, config_error}

pub data Result {κ} (V : Type κ) : Type κ where
  ok : V → Result V
  err : Thrown → Result V

-- Code that goes on with what a call returned, or throws what the call threw.
module _ {κ ι} {V : Type κ} {U : Type ι} where
  infixl 5 ◌>>=◌
  abbrev pub ◌>>=◌ : Result V → (V → Result U) → Result U
  call >>= next = elim call [ err thrown ↦ err thrown | ok v ↦ next v ]

infixl 5 ◌>>◌
abbrev pub ◌>>◌ {ι} : {U : Type ι} → Result (Unit {0}) → Result U → Result U
call >> after = call >>= (λ done. after)

-- `if (refused) throw new ConfigError(message)`
abbrev pub refuse_if : Bool → Text → Result (Unit {0})
refuse_if true message = err (config_error 0 message)
refuse_if false message = ok tt

-- `P` of the value, where there is one.
abbrev pub Ensures {ℓ κ} : {A : Type ℓ} → (A → Type κ) → Result A → Type κ
Ensures P (ok a) = P a
Ensures P (err e) = Unit

pub Ensures-bind {ℓ κ ι μ} :
    {A : Type ℓ} {B : Type κ} (Q : A → Type ι) (P : B → Type μ) (m : Result A) (f : A → Result B)
    → Ensures Q m
    → ((a : A) → m ≡ ok a → Q a → Ensures P (f a))
    → Ensures P (m >>= f)
Ensures-bind Q P (ok a) f q k = k a refl q
Ensures-bind Q P (err e) f q k = tt

pub Ensures-ok {ℓ κ} :
    {A : Type ℓ} (P : A → Type κ) (m : Result A) (a : A) → m ≡ ok a → Ensures P m → P a
Ensures-ok P m a e h = subst (Ensures P) e h

pub Ensures-refuse_if {ℓ κ} :
    {B : Type ℓ} (P : B → Type κ) (refused : Bool) (message : Text) (k : Result B)
    → (refused ≡ false → Ensures P k)
    → Ensures P (refuse_if refused message >> k)
Ensures-refuse_if P true message k h = tt
Ensures-refuse_if P false message k h = h refl

-- Both calls of a sequence that returns have returned.
pub >>-ok {ι} :
    {U : Type ι} (call : Result (Unit {0})) (after : Result U) (u : U)
    → (call >> after) ≡ ok u
    → (call ≡ ok tt) × (after ≡ ok u)
>>-ok (ok done) after u e = (refl, e)
>>-ok (err thrown) after u e = ground arith

pub ok-injective {ι} : {U : Type ι} (u v : U) → ok u ≡ ok v → u ≡ v
ok-injective u v e = cc

-- ===== src/Prelude/Dicts.antt =====
-- A `Map` or a plain object keyed by texts, in the order of insertion: an association list.
use mathlib.Core.Path.{◌≡◌, refl}
use mathlib.Core.Bool.{Bool, false, ◌||◌}
use mathlib.Core.Option.{Option, none, some}
use mathlib.Core.List.{List, [], ◌∷◌}
use native.Mathlib.Omega.{arith}
use mathlib.Core.Logic.{inl, inr}
use kafka_harbor.Prelude.Tests.{if◌then◌else◌, is_some, Bool-cases}
use kafka_harbor.Prelude.Texts.{Text, text_eq, text_eq_iff, text_eq_refl}

abbrev pub Dict {ℓ} : Type ℓ → Type ℓ
Dict V = List (Text × V)

module _ {ℓ} {V : Type ℓ} where
  -- `m.get(k)`, `o[k]`
  unfoldable pub lookup : Text → Dict V → Option V
  lookup k [] = none
  lookup k ((j, v) ∷ m) = if text_eq j k then some v else lookup k m

  -- `m.set(k, v)`, `o[k] = v`: a key that is there keeps its place
  unfoldable pub insert : Text → V → Dict V → Dict V
  insert k v [] = (k, v) ∷ []
  insert k v ((j, w) ∷ m) = if text_eq j k then (j, v) ∷ m else (j, w) ∷ insert k v m

  -- `m.delete(k)`
  unfoldable pub delete : Text → Dict V → Dict V
  delete k [] = []
  delete k ((j, w) ∷ m) = let rest = delete k m in if text_eq j k then rest else (j, w) ∷ rest

  -- `m.has(k)`
  abbrev pub has : Text → Dict V → Bool
  has k m = is_some (lookup k m)

  pub lookup-insert :
      (k j : Text) (v : V) (m : Dict V)
      → lookup j (insert k v m) ≡ (if text_eq k j then some v else lookup j m)
  unfolding lookup insert
  lookup-insert k j v [] = refl
  lookup-insert k j v ((i, w) ∷ m) =
      ground (arith, text_eq_iff k j, text_eq_iff i k, text_eq_iff i j, lookup-insert k j v m)

  pub lookup-delete :
      (k j : Text) (m : Dict V) → lookup j (delete k m) ≡ (if text_eq k j then none else lookup j m)
  unfolding lookup delete
  lookup-delete k j [] = ground arith
  lookup-delete k j ((i, w) ∷ m) =
      ground (arith, text_eq_iff k j, text_eq_iff i k, text_eq_iff i j, lookup-delete k j m)

module _ {ℓ} {V : Type ℓ} where
  -- `[...m.values()].some(p)`
  unfoldable pub any_value : (V → Bool) → Dict V → Bool
  any_value p [] = false
  any_value p ((k, v) ∷ m) = p v || any_value p m

  pub any_value-lookup :
      (p : V → Bool) (k : Text) (m : Dict V) (v : V)
      → any_value p m ≡ false
      → lookup k m ≡ some v
      → p v ≡ false
  unfolding any_value lookup
  any_value-lookup p k [] v h e = cc
  any_value-lookup p k ((j, w) ∷ m) v h e = ground (arith, any_value-lookup p k m v)

module _ {ℓ} {V : Type ℓ} where
  -- `{ ...base, ...m }`
  unfoldable pub insert_all : Dict V → Dict V → Dict V
  insert_all [] base = base
  insert_all ((k, v) ∷ m) base = insert k v (insert_all m base)

  -- the entries whose name passes the test
  unfoldable pub filter_keys : (Text → Bool) → Dict V → Dict V
  filter_keys p [] = []
  filter_keys p ((k, v) ∷ m) = let rest = filter_keys p m in if p k then (k, v) ∷ rest else rest

  pub lookup-insert_all :
      (k : Text) (m base : Dict V)
      → lookup k (insert_all m base) ≡ (if has k m then lookup k m else lookup k base)
  unfolding lookup insert_all
  lookup-insert_all k [] base = refl
  lookup-insert_all k ((j, v) ∷ m) base =
      ground (arith, lookup-insert j k v (insert_all m base), lookup-insert_all k m base)

  pub lookup-filter_keys :
      (p : Text → Bool) (k : Text) (m : Dict V)
      → lookup k (filter_keys p m) ≡ (if p k then lookup k m else none)
  unfolding lookup filter_keys
  lookup-filter_keys p k [] = ground arith
  lookup-filter_keys p k ((j, v) ∷ m) = elim (Bool-cases (text_eq j k)) [
    | inl same ↦
        rw ((text_eq_iff j k).0 same) (ground (arith, text_eq_refl k, lookup-filter_keys p k m))
    | inr other ↦ ground (arith, lookup-filter_keys p k m)
  ]

pub ruleset dict_laws = (lookup-insert, lookup-delete, lookup-insert_all, lookup-filter_keys)

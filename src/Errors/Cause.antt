-- ===== src/Errors/Cause.antt =====
-- `fencedIn` of src/consumer.ts: the walk along the chain of causes.
use kafka_harbor.Prelude.{
  ℕ, ◌≡◌, refl, sym, ◌∙◌, inl, inr, Bool, true, false, ◌||◌, List, [], ◌∷◌, arith, any, All,
  Bool-cases, ◌==◌, ==_iff, if◌then◌else◌,
}
use kafka_harbor.Errors.{Thrown, Fields, undefined, null_thrown, primitive, object, is_fenced_error}

-- `seen` holds the objects met so far; the walk ends at the first it meets again.
unfoldable pub fenced_from : List ℕ → Thrown → Bool
fenced_from seen undefined = false
fenced_from seen null_thrown = false
fenced_from seen (primitive s) = false
fenced_from seen (object f cause) =
    let rest = fenced_from (f.identity ∷ seen) cause in
    if any (λ i. i == f.identity) seen
    then false
    else if is_fenced_error (object f cause)
    then true
    else rest

unfoldable pub fenced_in : Thrown → Bool
unfolding fenced_from
fenced_in error = fenced_from [] error

-- Whether a fence stands anywhere on the chain of causes.
unfoldable pub fence_on_chain : Thrown → Bool
fence_on_chain undefined = false
fence_on_chain null_thrown = false
fence_on_chain (primitive s) = false
fence_on_chain (object f cause) = is_fenced_error (object f cause) || fence_on_chain cause

-- The chain is a JavaScript one: what an object is depends on its identity, and the chain goes on
-- behind an object that was met before no further.
abbrev pub IsUnrolled : (ℕ → Bool) → List ℕ → Thrown → Type 0
IsUnrolled verdict seen undefined = Unit {0}
IsUnrolled verdict seen null_thrown = Unit {0}
IsUnrolled verdict seen (primitive s) = Unit {0}
IsUnrolled verdict seen (object f cause) =
    (is_fenced_error (object f cause) ≡ verdict f.identity)
    × (any (λ i. i == f.identity) seen ≡ true → cause ≡ undefined)
    × IsUnrolled verdict (f.identity ∷ seen) cause

module _ (verdict : ℕ → Bool) where
  abbrev Cleared : List ℕ → Type 0
  Cleared = All (λ i. verdict i ≡ false)

  Cleared-any :
      (seen : List ℕ) (k : ℕ) → Cleared seen → any (λ i. i == k) seen ≡ true → verdict k ≡ false
  Cleared-any [] k c h = cc
  Cleared-any (i ∷ seen) k c h = ground (arith, Cleared-any seen k c.1, ==_iff i k)

  -- the step at an object that was not met before, from the rest of the walk
  step_new :
      (f : Fields) (cause : Thrown) (seen : List ℕ)
      → Cleared seen
      → IsUnrolled verdict seen (object f cause)
      → (Cleared (f.identity ∷ seen)
          → IsUnrolled verdict (f.identity ∷ seen) cause
          → fenced_from (f.identity ∷ seen) cause ≡ fence_on_chain cause)
      → (if is_fenced_error (object f cause) then true else fenced_from (f.identity ∷ seen) cause)
        ≡ (is_fenced_error (object f cause) || fence_on_chain cause)
  step_new f cause seen c u ih = elim (Bool-cases (is_fenced_error (object f cause))) [
    | inl fence ↦ rw fence
    | inr other ↦ rw other (ih (sym u.0 ∙ other, c) u.2)
  ]

  fenced_from-eq :
      (error : Thrown) (seen : List ℕ)
      → Cleared seen
      → IsUnrolled verdict seen error
      → fenced_from seen error ≡ fence_on_chain error
  unfolding fenced_from fence_on_chain
  fenced_from-eq undefined seen c u = refl
  fenced_from-eq null_thrown seen c u = refl
  fenced_from-eq (primitive s) seen c u = refl
  fenced_from-eq (object f cause) seen c u = elim (Bool-cases (any (λ i. i == f.identity) seen)) [
    | inl again ↦
        rw (again, u.1 again)
          (unfold fence_on_chain in ground (arith, u.0, Cleared-any seen f.identity c again))
    | inr new ↦ rw new (step_new f cause seen c u (fenced_from-eq cause (f.identity ∷ seen)))
  ]

-- Over a chain of causes, cyclic or not, the walk finds a fence exactly if one is on the chain.
pub fenced_in-fence_on_chain :
    (verdict : ℕ → Bool) (error : Thrown)
    → IsUnrolled verdict [] error
    → fenced_in error ≡ fence_on_chain error
unfolding fenced_in
fenced_in-fence_on_chain verdict error u = fenced_from-eq verdict error [] tt u

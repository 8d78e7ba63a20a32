-- ===== src/Duration/Parse.antt =====
-- A duration's text is read as its amount in its unit, and no duration is longer than a timer can wait.
use kafka_harbor.Prelude.{
  ℕ, ◌≡◌, refl, Bool, true, false, not, Option, none, some, [], ◌∷◌, ◌++◌, Text, codes, text_eq,
  is_digit, is_space, is_decimal, trim, trim_start, trim_end, all, arith, Bool-cases, inl, inr,
}
use kafka_harbor.Result.{ok}
use kafka_harbor.Duration.{
  max_duration_ms, Numbers, Duration, number, text, other, digits_of, after_digits, unit_of,
  match_pattern, bounded, parse_duration, match_amount, parse_matched, fraction_or_unit,
  finish_pattern, with_unit, parse_number,
}

pub data TimeUnit : Type 0 where
  milliseconds seconds minutes hours days : TimeUnit

abbrev pub unit_text : TimeUnit → Text
unit_text milliseconds = codes "ms"
unit_text seconds = codes "s"
unit_text minutes = codes "m"
unit_text hours = codes "h"
unit_text days = codes "d"

abbrev pub length_of : TimeUnit → ℕ
length_of milliseconds = 1
length_of seconds = 1000
length_of minutes = 60000
length_of hours = 3600000
length_of days = 86400000

is_solid : ℕ → Bool
is_solid c = not (is_space c)

digit_solid : (c : ℕ) → is_digit c ≡ true → is_solid c ≡ true
unfolding is_digit is_solid is_space
digit_solid c h = ground arith

trim_end_solid : (s : Text) → all is_solid s ≡ true → trim_end s ≡ s
unfolding trim_end is_solid
trim_end_solid [] h = refl
trim_end_solid (c ∷ []) h = ground arith
trim_end_solid (c ∷ d ∷ s) h = rw (trim_end_solid (d ∷ s) (ground arith), trim_end)

all_solid :
    (ds t : Text) → all is_digit ds ≡ true → all is_solid t ≡ true → all is_solid (ds ++ t) ≡ true
all_solid [] t h k = k
all_solid (c ∷ ds) t h k = ground (arith, digit_solid c, all_solid ds t)

unit_solid : (u : TimeUnit) → all is_solid (unit_text u) ≡ true
unfolding is_solid is_space
unit_solid milliseconds = refl
unit_solid seconds = refl
unit_solid minutes = refl
unit_solid hours = refl
unit_solid days = refl

start_solid : (c : ℕ) (s : Text) → is_solid c ≡ true → trim_start (c ∷ s) ≡ c ∷ s
unfolding trim_start is_solid
start_solid c s h = ground arith

trim-amount :
    (d : ℕ) (ds t : Text)
    → all is_digit (d ∷ ds) ≡ true
    → all is_solid t ≡ true
    → trim (d ∷ (ds ++ t)) ≡ d ∷ (ds ++ t)
unfolding trim
trim-amount d ds t h k =
    rw (start_solid d (ds ++ t) (ground (arith, digit_solid d)))
      (trim_end_solid (d ∷ (ds ++ t)) (all_solid (d ∷ ds) t h k))

digits_of-append :
    (ds : Text) (c : ℕ) (t : Text)
    → all is_digit ds ≡ true
    → is_digit c ≡ false
    → digits_of (ds ++ c ∷ t) ≡ ds
unfolding digits_of
digits_of-append [] c t h k = ground arith
digits_of-append (d ∷ ds) c t h k = ground (arith, digits_of-append ds c t)

after_digits-append :
    (ds : Text) (c : ℕ) (t : Text)
    → all is_digit ds ≡ true
    → is_digit c ≡ false
    → after_digits (ds ++ c ∷ t) ≡ c ∷ t
unfolding after_digits
after_digits-append [] c t h k = ground arith
after_digits-append (d ∷ ds) c t h k = ground (arith, after_digits-append ds c t)

-- A pattern whose digits are followed by a unit.
matched :
    (s : Text) (d : ℕ) (ds : Text) (u : TimeUnit)
    → digits_of s ≡ d ∷ ds
    → after_digits s ≡ unit_text u
    → match_pattern s ≡ some (d ∷ ds, length_of u)
unfolding match_pattern match_amount fraction_or_unit finish_pattern with_unit unit_of trim_start
    is_space text_eq
matched s d ds milliseconds p q = rw (p) (rw (q) refl)
matched s d ds seconds p q = rw (p) (rw (q) refl)
matched s d ds minutes p q = rw (p) (rw (q) refl)
matched s d ds hours p q = rw (p) (rw (q) refl)
matched s d ds days p q = rw (p) (rw (q) refl)

append_unit :
    (d : ℕ) (ds : Text) (u : TimeUnit)
    → all is_digit (d ∷ ds) ≡ true
    → (digits_of ((d ∷ ds) ++ unit_text u) ≡ d ∷ ds)
      × (after_digits ((d ∷ ds) ++ unit_text u) ≡ unit_text u)
unfolding is_digit
append_unit d ds milliseconds h =
    (digits_of-append (d ∷ ds) _ _ h refl, after_digits-append (d ∷ ds) _ _ h refl)
append_unit d ds seconds h =
    (digits_of-append (d ∷ ds) _ _ h refl, after_digits-append (d ∷ ds) _ _ h refl)
append_unit d ds minutes h =
    (digits_of-append (d ∷ ds) _ _ h refl, after_digits-append (d ∷ ds) _ _ h refl)
append_unit d ds hours h =
    (digits_of-append (d ∷ ds) _ _ h refl, after_digits-append (d ∷ ds) _ _ h refl)
append_unit d ds days h =
    (digits_of-append (d ∷ ds) _ _ h refl, after_digits-append (d ∷ ds) _ _ h refl)

-- A text of digits with a unit behind it is read as that many of the unit, rounded to milliseconds and
-- held to the longest that a timer can wait.
pub parse-amount :
    {N : Type 0} (numbers : Numbers N) (name digits : Text) (u : TimeUnit)
    → is_decimal digits ≡ true
    → parse_duration numbers name (text (digits ++ unit_text u))
      ≡ bounded numbers name (numbers.round_times (numbers.to_number digits) (length_of u))
unfolding is_decimal parse_duration parse_matched
parse-amount numbers name [] u h = ground arith
parse-amount numbers name (d ∷ ds) u h =
    let (p, q) = append_unit d ds u h in
    rw (trim-amount d ds (unit_text u) h (unit_solid u))
      (rw (matched (d ∷ (ds ++ unit_text u)) d ds u p q) refl)

module _ {N : Type 0} (numbers : Numbers N) (name : Text) where
  bounded-lt :
      (amount ms : N)
      → bounded numbers name amount ≡ ok ms
      → numbers.exceeds ms max_duration_ms ≡ false
  unfolding bounded
  bounded-lt amount ms e = elim (Bool-cases (numbers.exceeds amount max_duration_ms)) [
    | inl over ↦ ground arith
    | inr within ↦ ground arith
  ]

  parse_number-lt :
      (amount ms : N) (finite negative : Bool)
      → parse_number numbers name amount finite negative ≡ ok ms
      → numbers.exceeds ms max_duration_ms ≡ false
  unfolding parse_number
  parse_number-lt amount ms true false e = bounded-lt amount ms e
  parse_number-lt amount ms true true e = ground arith
  parse_number-lt amount ms false negative e = ground arith

  parse_matched-lt :
      (found : Option (Text × ℕ)) (ms : N)
      → parse_matched numbers name found ≡ ok ms
      → numbers.exceeds ms max_duration_ms ≡ false
  unfolding parse_matched
  parse_matched-lt none ms e = ground arith
  parse_matched-lt (some (amount, unit)) ms e = bounded-lt _ ms e

  -- No duration that is accepted is longer than a timer can wait, 2147483647 ms, whatever the caller
  -- passed.
  pub parse_duration-lt :
      (d : Duration N) (ms : N)
      → parse_duration numbers name d ≡ ok ms
      → numbers.exceeds ms max_duration_ms ≡ false
  unfolding parse_duration
  parse_duration-lt (number amount) ms e = parse_number-lt amount ms _ _ e
  parse_duration-lt (text s) ms e = parse_matched-lt _ ms e
  parse_duration-lt other ms e = ground arith

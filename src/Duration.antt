-- ===== src/Duration.antt =====
-- src/duration.ts: durations, as numbers of milliseconds or as texts with a unit.
pub mod Parse
use kafka_harbor.Prelude.{
  ℕ, ◌*◌, ◌≡◌, Bool, true, false, Option, none, some, List, [], ◌∷◌, ◌++◌, Text, codes, text_eq,
  is_digit, is_space, trim, trim_start, ◌==◌, if◌then◌else◌, ltb, ◌<◌, show,
}
use kafka_harbor.Errors.{config_error}
use kafka_harbor.Result.{Result, ok, err}

abbrev pub max_duration_ms : ℕ
max_duration_ms = 2147483647

-- JavaScript's numbers: what `Number` makes of a text of digits, `Math.round(amount * unit)`, and the
-- tests on a number of milliseconds.
pub record Numbers (N : Type 0) : Type 0 where
  pub to_number : Text → N
  pub round_times : N → ℕ → N
  pub is_finite : N → Bool
  pub is_negative : N → Bool
  pub exceeds : N → ℕ → Bool

-- `Duration`, or any other value that a caller passes.
pub data Duration (N : Type 0) : Type 0 where
  number : N → Duration N
  text : Text → Duration N
  other : Duration N

-- The longest digits at the front, and what follows them.
unfoldable pub digits_of : Text → Text
digits_of [] = []
digits_of (c ∷ s) = let rest = digits_of s in if is_digit c then c ∷ rest else []

unfoldable pub after_digits : Text → Text
after_digits [] = []
after_digits (c ∷ s) = let rest = after_digits s in if is_digit c then rest else c ∷ s

-- The milliseconds of a unit.
unfoldable pub unit_of : Text → Option ℕ
unit_of s =
    if text_eq s (codes "ms")
    then some 1
    else (if text_eq s (codes "s")
        then some 1000
        else (if text_eq s (codes "m")
            then some 60000
            else (if text_eq s (codes "h")
                then some 3600000
                else (if text_eq s (codes "d") then some 86400000 else none))))

with_unit : Text → Option ℕ → Option (Text × ℕ)
with_unit amount none = none
with_unit amount (some unit) = some (amount, unit)

-- `\s*` and the unit
finish_pattern : Text → Text → Option (Text × ℕ)
unfolding with_unit
finish_pattern amount rest = with_unit amount (unit_of (trim_start rest))

-- `(?:\.\d+)?`, with the digits before it and those after the point
with_fraction : Text → Text → Text → Option (Text × ℕ)
unfolding finish_pattern
with_fraction amount [] rest = none
with_fraction amount (d ∷ digits) rest = finish_pattern (amount ++ b'.' ∷ d ∷ digits) rest

fraction_or_unit : Text → Text → Option (Text × ℕ)
unfolding with_fraction finish_pattern
fraction_or_unit amount [] = none
fraction_or_unit amount (c ∷ s) =
    if c == b'.'
    then with_fraction amount (digits_of s) (after_digits s)
    else finish_pattern amount (c ∷ s)

match_amount : Text → Text → Option (Text × ℕ)
unfolding fraction_or_unit
match_amount [] rest = none
match_amount (d ∷ digits) rest = fraction_or_unit (d ∷ digits) rest

-- `PATTERN.exec`
unfoldable pub match_pattern : Text → Option (Text × ℕ)
unfolding match_amount
match_pattern s = match_amount (digits_of s) (after_digits s)

module _ {N : Type 0} (numbers : Numbers N) (name : Text) where
  -- `bounded`
  unfoldable pub bounded : N → Result N
  bounded ms =
      if numbers.exceeds ms max_duration_ms
      then err (config_error 0 (name ++ codes " must not exceed 2147483647ms"))
      else ok ms

  parse_number : N → Bool → Bool → Result N
  unfolding bounded
  parse_number ms true false = bounded ms
  parse_number ms _ _ =
      err (config_error 0 (name ++ codes " must be a finite, non-negative number of milliseconds"))

  parse_matched : Option (Text × ℕ) → Result N
  unfolding bounded
  parse_matched none = err (config_error 0 (name ++ codes " must be a duration string"))
  parse_matched (some (amount, unit)) =
      bounded (numbers.round_times (numbers.to_number amount) unit)

  -- `parseDuration`
  unfoldable pub parse_duration : Duration N → Result N
  unfolding parse_number parse_matched
  parse_duration (number ms) = parse_number ms (numbers.is_finite ms) (numbers.is_negative ms)
  parse_duration (text s) = parse_matched (match_pattern (trim s))
  parse_duration other =
      err (config_error 0 (name ++ codes " must be a number of milliseconds or a duration string"))

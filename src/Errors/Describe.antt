-- ===== src/Errors/Describe.antt =====
-- `describeError` of src/errors.ts: the text kept in the tracking headers, bounded in length.
use kafka_harbor.Prelude.{
  ℕ, ◌-◌, ◌≤◌, Bool, true, false, ◌||◌, [], ◌∷◌, ◌++◌, none, some, arith, Text, codes, text_eq, ltb,
  length, take, length-append, length-take, ◌==◌, ◌&&◌, if◌then◌else◌,
}
use kafka_harbor.Errors.{Thrown, undefined, null_thrown, primitive, object}

-- `s.startsWith(t)`
starts_with : Text → Text → Bool
starts_with s [] = true
starts_with [] (d ∷ t) = false
starts_with (c ∷ s) (d ∷ t) = c == d && starts_with s t

text_of_error : Text → Text → Text
unfolding starts_with
text_of_error name message =
    if text_eq name (codes "Error") || starts_with message name
    then message
    else name ++ (codes ": " ++ message)

text_of : Thrown → Text
unfolding text_of_error
text_of undefined = codes "undefined"
text_of null_thrown = codes "null"
text_of (primitive s) = s
text_of (object f cause) = elim f.error [
  | none ↦ f.encoded
  | some (name, message) ↦ text_of_error name message
]

bounded_text : Text → ℕ → Text
bounded_text text max_length =
    if ltb max_length (length text) then take (max_length - 3) text ++ codes "..." else text

unfoldable pub describe_error : Thrown → ℕ → Text
unfolding text_of bounded_text
describe_error error max_length = bounded_text (text_of error) max_length

length-bounded_text :
    (text : Text) (max_length : ℕ)
    → 3 ≤ max_length
    → length (bounded_text text max_length) ≤ max_length
unfolding bounded_text
length-bounded_text text max_length h = ground (
  arith,
  length-append (take (max_length - 3) text) (codes "..."),
  length-take (max_length - 3) text,
)

-- The description of any thrown value keeps to the length asked for, if the ellipsis fits in it.
pub length-describe_error :
    (error : Thrown) (max_length : ℕ)
    → 3 ≤ max_length
    → length (describe_error error max_length) ≤ max_length
unfolding describe_error
length-describe_error error max_length h = length-bounded_text (text_of error) max_length h

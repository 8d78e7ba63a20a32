-- ===== src/Prelude/Decimal.antt =====
-- `String(n)` for a non-negative integer, `/^\d+$/` and the value of such a text.
use Prim.Native.Nat.{ℕ, zero, suc, ◌+◌, ◌-◌, ◌*◌, ◌/◌, ◌%◌, ◌^◌, ◌≤◌, ◌<◌}
use mathlib.Core.Path.{◌≡◌, refl, ap}
use mathlib.Core.Bool.{Bool, true, false, ◌&&◌}
use mathlib.Core.List.{[], ◌∷◌}
use native.Mathlib.Omega.{arith}
use native.Mathlib.Nat.{mul-le-mul_right, pow-le-pow_right}
use kafka_harbor.Prelude.Tests.{ltb, leb, if◌then◌else◌}
use kafka_harbor.Prelude.Lists.{length, all}
use kafka_harbor.Prelude.Texts.{Text, is_space, trim, trim_start, trim_end}
use Prim.Native.Nat.pow

digits_from : ℕ → ℕ → Text → Text
digits_from zero n out = out
digits_from (suc f) n out =
    let rest = digits_from f (n / 10) ((b'0' + n % 10) ∷ out) in
    if ltb n 10 then (b'0' + n) ∷ out else rest

unfoldable pub show : ℕ → Text
unfolding digits_from
show n = digits_from (suc n) n []

unfoldable pub is_digit : ℕ → Bool
is_digit c = leb b'0' c && leb c b'9'

unfoldable pub is_decimal : Text → Bool
is_decimal [] = false
is_decimal (c ∷ s) = all is_digit (c ∷ s)

value_from : ℕ → Text → ℕ
value_from acc [] = acc
value_from acc (c ∷ s) = value_from (acc * 10 + (c - b'0')) s

-- `Number(s)` or `BigInt(s)` of a text of digits.
unfoldable pub decimal_value : Text → ℕ
unfolding value_from
decimal_value s = value_from 0 s

value-digits :
    (f n : ℕ) (out : Text) → n < f → value_from 0 (digits_from f n out) ≡ value_from n out
unfolding digits_from value_from
value-digits zero n out h = elim h [ ]
value-digits (suc f) n out h = ground (
  arith,
  value-digits f (n / 10) ((b'0' + n % 10) ∷ out),
  ap (λ (m : ℕ). value_from m out) (last_digit n),
)
  where
    last_digit : (n : ℕ) → n / 10 * 10 + (b'0' + n % 10 - b'0') ≡ n
    last_digit n = omega arith

pub decimal_value-show : (n : ℕ) → decimal_value (show n) ≡ n
unfolding decimal_value show
decimal_value-show n = value-digits (suc n) n [] (omega arith)

digits-all :
    (f n : ℕ) (out : Text) → all is_digit out ≡ true → all is_digit (digits_from f n out) ≡ true
unfolding digits_from is_digit
digits-all zero n out h = h
digits-all (suc f) n out h = ground (arith, digits-all f (n / 10) ((b'0' + n % 10) ∷ out))

pub all-show : (n : ℕ) → all is_digit (show n) ≡ true
unfolding show
all-show n = digits-all (suc n) n [] refl

length-digits :
    (k f n : ℕ) (out : Text)
    → n < 10 ^ k * 10
    → n < f
    → length (digits_from f n out) ≤ suc k + length out
unfolding digits_from
length-digits k zero n out h g = elim g [ ]
length-digits zero (suc f) n out h g = ground arith
length-digits (suc k) (suc f) n out h g =
    ground (arith, pow.suc 10 k, length-digits k f (n / 10) ((b'0' + n % 10) ∷ out))

-- A number below 10 ^ (k + 1) has at most k + 1 digits.
pub length-show : (k n : ℕ) → n < 10 ^ k * 10 → length (show n) ≤ suc k
unfolding show
length-show k n h = omega (arith, length-digits k (suc n) n [] h (omega arith))

length-le-digits : (f n : ℕ) (out : Text) → length out ≤ length (digits_from f n out)
unfolding digits_from
length-le-digits zero n out = omega arith
length-le-digits (suc f) n out = ground (arith, length-le-digits f (n / 10) ((b'0' + n % 10) ∷ out))

pub length-show-pos : (n : ℕ) → 1 ≤ length (show n)
unfolding show digits_from
length-show-pos n = ground (arith, length-le-digits n (n / 10) ((b'0' + n % 10) ∷ []))

is_decimal_of_all : (s : Text) → 1 ≤ length s → all is_digit s ≡ true → is_decimal s ≡ true
unfolding is_decimal
is_decimal_of_all [] h a = elim h [ ]
is_decimal_of_all (c ∷ s) h a = a

pub is_decimal-show : (n : ℕ) → is_decimal (show n) ≡ true
is_decimal-show n = is_decimal_of_all (show n) (length-show-pos n) (all-show n)

-- A text of digits has nothing to trim.
digit_not_space : (c : ℕ) → is_digit c ≡ true → is_space c ≡ false
unfolding is_digit is_space
digit_not_space c h = ground arith

trim_start-digits : (s : Text) → all is_digit s ≡ true → trim_start s ≡ s
unfolding trim_start
trim_start-digits [] h = refl
trim_start-digits (c ∷ s) h = ground (arith, digit_not_space c)

trim_end-digits : (s : Text) → all is_digit s ≡ true → trim_end s ≡ s
unfolding trim_end
trim_end-digits [] h = refl
trim_end-digits (c ∷ []) h = ground (arith, digit_not_space c)
trim_end-digits (c ∷ d ∷ s) h = rw (trim_end-digits (d ∷ s) (ground arith), trim_end)

pub trim-show : (n : ℕ) → trim (show n) ≡ show n
unfolding trim
trim-show n = rw (trim_start-digits (show n) (all-show n)) (trim_end-digits (show n) (all-show n))

digit_step : (v m k p : ℕ) → m + 1 ≤ k * 10 → v < (m + 1) * p → v < k * (p * 10)
digit_step v m k p h l = omega (arith, mul-le-mul_right p h)

value_from-lt :
    (acc : ℕ) (s : Text) → all is_digit s ≡ true → value_from acc s < (acc + 1) * 10 ^ length s
unfolding value_from is_digit
value_from-lt acc [] h = omega arith
value_from-lt acc (c ∷ s) h = rw pow.suc (
    digit_step _ (acc * 10 + (c - b'0')) (acc + 1) (10 ^ length s) (ground arith)
      (value_from-lt (acc * 10 + (c - b'0')) s (ground arith)))

-- A text of at most k digits stands for a number below 10 ^ k.
pub decimal_value-lt :
    (k : ℕ) (s : Text) → is_decimal s ≡ true → length s ≤ k → decimal_value s < 10 ^ k
unfolding decimal_value is_decimal
decimal_value-lt k [] h l = cc
decimal_value-lt k (c ∷ s) h l =
    omega (arith, value_from-lt 0 (c ∷ s) h, pow-le-pow_right {n = 10} (omega arith) l)

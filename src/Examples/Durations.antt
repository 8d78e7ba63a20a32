-- ===== src/Examples/Durations.antt =====
-- Durations over whole numbers of milliseconds.
use kafka_harbor.Prelude.{
  ℕ, ◌*◌, ◌≡◌, refl, true, false, ltb, codes, decimal_value, is_decimal, is_digit,
}
use kafka_harbor.Duration.{Numbers, number, text, max_duration_ms, bounded, parse_duration}
use kafka_harbor.Duration.Parse.{minutes, parse-amount, parse_duration-lt}

abbrev whole : Numbers ℕ
whole = record {
  to_number = λ s. decimal_value s;
  round_times = λ n k. n * k;
  is_finite = λ n. true;
  is_negative = λ n. false;
  exceeds = λ n m. ltb m n;
}

parse-amount_example :
    parse_duration whole (codes "delay") (text (codes "15m"))
    ≡ bounded whole (codes "delay") (decimal_value (codes "15") * 60000)
unfolding is_decimal is_digit
parse-amount_example = parse-amount whole (codes "delay") (codes "15") minutes refl

parse_duration-lt_example : ltb max_duration_ms 250 ≡ false
unfolding parse_duration
parse_duration-lt_example = parse_duration-lt whole (codes "delay") (number 250) 250 refl

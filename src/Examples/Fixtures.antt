-- ===== src/Examples/Fixtures.antt =====
-- A platform that computes, and a small database: one user, one pair, two rules on it.
use Prim.Native.String.{◌++◌ as str_append}
use dropwatch.Base.{
  ℕ, zero, suc, ◌+◌, ◌/◌, ◌%◌, ◌^◌, true, none, some, List, [], ◌∷◌, String, ltb, if◌then◌else◌,
  Result, ok, err, zero_division, value_error, statistics_error,
}
use dropwatch.Base.Int.{magnitude}
use dropwatch.Decimal.{
  Decimal, of_ℕ, ltb_dec, leb_dec, is_zero, neg_dec, abs_dec, sub_dec, mul_dec, div_dec,
}
use dropwatch.Models.{absolute_below, percent_change, down, AlertRule, Pair, User, PriceHistory, Db}
use dropwatch.Platform.{Platform}

digit_from : List String → ℕ → String
digit_from [] n = "9"
digit_from (d ∷ ds) zero = d
digit_from (d ∷ ds) (suc n) = digit_from ds n

digit : ℕ → String
unfolding digit_from
digit = digit_from ("0" ∷ "1" ∷ "2" ∷ "3" ∷ "4" ∷ "5" ∷ "6" ∷ "7" ∷ "8" ∷ [])

decimal_text_from : ℕ → ℕ → String
unfolding digit
decimal_text_from zero n = digit n
decimal_text_from (suc fuel) n =
    let rest = str_append (decimal_text_from fuel (n / 10)) (digit (n % 10)) in
    if ltb n 10 then digit n else rest

-- The digits of a number below 10 ^ 21.
unfoldable pub decimal_text : ℕ → String
unfolding decimal_text_from
decimal_text n = decimal_text_from 20 n

abbrev pub text_of_decimal : Decimal → String
text_of_decimal d =
    str_append (decimal_text (magnitude d.coeff)) (str_append "e-" (decimal_text d.scale))

-- Floats as decimals, with the first terms of the series of `log` and `expm1`.
unfoldable pub test_platform : Platform
unfolding decimal_text
test_platform = record {
  Float = Decimal;
  of_decimal = λ d. d;
  of_int = of_ℕ;
  minus = sub_dec;
  times = mul_dec;
  negate = neg_dec;
  abs = abs_dec;
  expm1 = λ d. d;
  divide = λ a b. if is_zero b then err zero_division else ok (div_dec a b);
  log = λ a. if ltb_dec (of_ℕ 0) a then ok (sub_dec a (of_ℕ 1)) else err value_error;
  fmean = first_of;
  stdev = λ xs. of_ℕ 1;
  less = ltb_dec;
  at_most = leb_dec;
  is_zero = is_zero;
  truncate = λ d. magnitude d.coeff / 10 ^ d.scale;
  sha256 = λ s. s;
  str_decimal = text_of_decimal;
  str_int = decimal_text;
  isoformat = decimal_text;
  json_float = text_of_decimal;
  signed3 = text_of_decimal;
  signed2 = text_of_decimal;
  signed3_decimal = text_of_decimal;
  fixed3_decimal = text_of_decimal;
}
  where
    first_of : List Decimal → Result Decimal
    first_of [] = err statistics_error
    first_of (d ∷ _) = ok d

abbrev pub bitcoin : Pair
bitcoin = record {
  id = 1;
  kraken_pair_name = "XXBTZUSD";
  display_name = "XBT/USD";
  base_currency = "XBT";
  quote_currency = "USD";
  poll_interval_seconds = 60;
  is_active = true;
  notional_24h = none;
  current_last_price = none;
  current_bid_price = none;
  current_ask_price = none;
  last_checked_at = none;
  created_at = 0;
}

abbrev pub owner : User
owner = record { id = 2; contact = "owner"; created_at = 0 }

abbrev pub rule_below : (id threshold : ℕ) → AlertRule
rule_below id threshold = record {
  id = id;
  user_id = 2;
  pair_id = 1;
  rule_type = absolute_below;
  threshold = some (of_ℕ threshold);
  percent = none;
  window_seconds = none;
  sigma = none;
  direction = none;
  cooldown_seconds = 300;
  is_enabled = true;
  last_fired_at = none;
  created_at = 0;
}

-- A rule on a fall of one percent in a minute.
abbrev pub rule_fall : (id : ℕ) → AlertRule
rule_fall id = record (rule_below id 0) {
  rule_type = percent_change;
  threshold = none;
  percent = some (of_ℕ 1);
  window_seconds = some 60;
  direction = some down;
}

abbrev pub price_at : (id price observed_at : ℕ) → PriceHistory
price_at id price observed_at = record {
  id = id;
  pair_id = 1;
  last_price = of_ℕ price;
  bid_price = of_ℕ price;
  ask_price = of_ℕ (price + 1);
  volume_24h = none;
  observed_at = observed_at;
}

-- Two rules on a price and one on its change; the price was 120 at the time 0.
abbrev pub small_db : Db
small_db = record {
  pairs = bitcoin ∷ [];
  price_history = price_at 6 120 0 ∷ [];
  users = owner ∷ [];
  alert_rules = rule_below 3 50 ∷ rule_below 4 100 ∷ rule_fall 5 ∷ [];
  notifications = [];
  outbox_events = [];
  now = 0;
  next_id = 10;
}

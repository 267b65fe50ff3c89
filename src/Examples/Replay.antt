-- ===== src/Examples/Replay.antt =====
-- A backtest on the small database.
use dropwatch.Base.{ℕ, none, some, List, [], ◌∷◌, map, ◌≡◌, refl}
use dropwatch.Decimal.{Decimal, of_ℕ}
use dropwatch.Settings.{default_settings}
use dropwatch.Models.{absolute_below, pending, suppressed_cooldown, Db}
use dropwatch.Api.Backtest.{BacktestRequest, BacktestResponse, Answer, success, backtest_rule}
use dropwatch.Api.Cooldown.{AllSpaced, backtest_rule-AllSpaced}
use dropwatch.Examples.Fixtures.{test_platform, small_db, price_at}

-- Prices at the seconds 0, 60, 120 and 600.
abbrev past : Db
past = record small_db {
  price_history =
      price_at 6 120 0
      ∷ price_at 7 90 60000000
      ∷ price_at 8 80 120000000
      ∷ price_at 9 85 600000000
      ∷ [];
}

abbrev request : BacktestRequest
request = record {
  pair_id = 1;
  rule_type = absolute_below;
  threshold = some (of_ℕ 100);
  percent = none;
  window_seconds = none;
  sigma = none;
  direction = none;
  cooldown_seconds = 300;
  lookback_days = 1;
}

abbrev empty_response : BacktestResponse Decimal
empty_response = record {
  pair_id = 1;
  rule_type = absolute_below;
  lookback_days = 1;
  observations_replayed = 0;
  data_start = none;
  data_end = none;
  fire_count = 0;
  fires_per_day = of_ℕ 0;
  post_cooldown_fire_count = 0;
  fires = [];
}

abbrev content : Answer (BacktestResponse Decimal) → BacktestResponse Decimal
content (success r) = r
content _ = empty_response

abbrev answer : Answer (BacktestResponse Decimal)
unfolding test_platform
answer = backtest_rule test_platform default_settings request 700000000 past

abbrev response : BacktestResponse Decimal
unfolding answer
response = content answer

answered : answer ≡ success response
unfolding answer response test_platform backtest_rule dropwatch.Api.Rules.validate_rule_fields
    dropwatch.RuleIndex.replace_with_rules dropwatch.Base.Sorting.sorted
    dropwatch.Evaluator.Evaluate.evaluate_rules_for_pair dropwatch.Evaluator.Evaluate.candidates_for
    dropwatch.RuleIndex.rules_for_pair dropwatch.Evaluator.Firing.fire_candidates
    dropwatch.Evaluator.matching_absolute_rules dropwatch.Evaluator.rule_fires
    dropwatch.Evaluator.Firing.finish dropwatch.Evaluator.in_cooldown
    dropwatch.Evaluator.Text.format_message dropwatch.Evaluator.Firing.key_of
    dropwatch.Evaluator.minute_bucket dropwatch.Decimal.is_zero dropwatch.Decimal.div_dec
answered = refl

statuses : map (λ e. e.status) response.fires ≡ pending ∷ suppressed_cooldown ∷ pending ∷ []
unfolding answer response test_platform backtest_rule dropwatch.Api.Rules.validate_rule_fields
    dropwatch.RuleIndex.replace_with_rules dropwatch.Base.Sorting.sorted
    dropwatch.Evaluator.Evaluate.evaluate_rules_for_pair dropwatch.Evaluator.Evaluate.candidates_for
    dropwatch.RuleIndex.rules_for_pair dropwatch.Evaluator.Firing.fire_candidates
    dropwatch.Evaluator.matching_absolute_rules dropwatch.Evaluator.rule_fires
    dropwatch.Evaluator.Firing.finish dropwatch.Evaluator.in_cooldown
    dropwatch.Evaluator.Text.format_message dropwatch.Evaluator.Firing.key_of
    dropwatch.Evaluator.minute_bucket dropwatch.Decimal.is_zero dropwatch.Decimal.div_dec
statuses = refl

backtest_rule-AllSpaced_example : AllSpaced 300 none response.fires
unfolding test_platform answer
backtest_rule-AllSpaced_example =
    backtest_rule-AllSpaced test_platform default_settings request 700000000 past response answered

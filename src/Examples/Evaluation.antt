-- ===== src/Examples/Evaluation.antt =====
-- The evaluation on the small database: at the price 90 one of the price rules and the rule on the
-- change fire.
use dropwatch.Base.{ℕ, false, List, [], ◌∷◌, map, Result, ok, err, ◌≡◌, refl}
use dropwatch.Decimal.{of_ℕ}
use dropwatch.Settings.{default_settings}
use dropwatch.Models.{Notification}
use dropwatch.RuleIndex.{Buckets, bucket_rules}
use dropwatch.Session.{Session}
use dropwatch.Evaluator.Firing.{Observation}
use dropwatch.Evaluator.Evaluate.{evaluate_rules_for_pair, candidates_for, cached}
use dropwatch.RuleIndex.{rules_for_pair}
use dropwatch.Base.Sorting.{sorted}
use dropwatch.Decimal.{is_zero}
use dropwatch.Evaluator.Firing.{fire_candidates, finish, deliver}
use dropwatch.Evaluator.Text.{format_message}
use dropwatch.Evaluator.{
  matching_absolute_rules, rule_fires, in_cooldown, percent_change_rule_fires,
  fetch_price_at_or_before, change_percent,
}
use dropwatch.Evaluator.Idempotency.{evaluate_rules_for_pair-again}
use dropwatch.Evaluator.Consistency.{IsConsistent, evaluate_rules_for_pair-IsConsistent}
use dropwatch.Examples.Fixtures.{test_platform, bitcoin, small_db}

abbrev buckets_of : Result Buckets → Buckets
buckets_of (ok g) = g
buckets_of (err _) = []

abbrev rule_buckets : Buckets
unfolding bucket_rules
rule_buckets = buckets_of (bucket_rules small_db.alert_rules)

abbrev before : Session
unfolding rule_buckets
before = record { db = small_db; index = record { buckets = rule_buckets } }

abbrev at_90 : (observed_at : ℕ) → Observation
at_90 observed_at = record {
  pair = bitcoin;
  last_price = of_ℕ 90;
  bid_price = of_ℕ 90;
  ask_price = of_ℕ 91;
  observed_at = observed_at;
  race = λ _. false;
}

abbrev notifications_of : Result (List Notification) × Session → List Notification
notifications_of (ok ns, _) = ns
notifications_of (err _, _) = []

abbrev created : List Notification
unfolding before
created =
    notifications_of
      (evaluate_rules_for_pair test_platform default_settings (at_90 60000000) before)

abbrev after : Session
unfolding before
after = (evaluate_rules_for_pair test_platform default_settings (at_90 60000000) before).1

fired_rules : map (λ n. n.rule_id) created ≡ 4 ∷ 5 ∷ []
unfolding evaluate_rules_for_pair test_platform before created candidates_for rules_for_pair cached
    fire_candidates matching_absolute_rules sorted rule_fires finish in_cooldown format_message
    percent_change_rule_fires fetch_price_at_or_before is_zero deliver change_percent
    dropwatch.Decimal.mul_dec dropwatch.Decimal.div_dec dropwatch.Decimal.sub_dec
    dropwatch.Decimal.neg_dec dropwatch.Evaluator.Firing.key_of dropwatch.Evaluator.minute_bucket
    dropwatch.Evaluator.Firing.past_price_of
fired_rules = refl

evaluation :
    evaluate_rules_for_pair test_platform default_settings (at_90 60000000) before
    ≡ (ok created, after)
unfolding evaluate_rules_for_pair test_platform before created after candidates_for rules_for_pair
    cached fire_candidates matching_absolute_rules sorted rule_fires finish in_cooldown
    format_message percent_change_rule_fires fetch_price_at_or_before is_zero deliver change_percent
    dropwatch.Decimal.mul_dec dropwatch.Decimal.div_dec dropwatch.Decimal.sub_dec
    dropwatch.Decimal.neg_dec dropwatch.Evaluator.Firing.key_of dropwatch.Evaluator.minute_bucket
    dropwatch.Evaluator.Firing.past_price_of
evaluation = refl

evaluate_rules_for_pair-again_example :
    evaluate_rules_for_pair test_platform default_settings (at_90 60000000) after ≡ (ok [], after)
evaluate_rules_for_pair-again_example =
    evaluate_rules_for_pair-again test_platform default_settings (at_90 60000000) before after
      created evaluation

empty_consistent : IsConsistent small_db
empty_consistent = record { keys = tt; ids = tt; event_ids = tt; matched = tt }

evaluate_rules_for_pair-IsConsistent_example : IsConsistent after.db
unfolding before
evaluate_rules_for_pair-IsConsistent_example =
    evaluate_rules_for_pair-IsConsistent test_platform default_settings (at_90 60000000) before
      created after empty_consistent evaluation

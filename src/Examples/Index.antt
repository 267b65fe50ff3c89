-- ===== src/Examples/Index.antt =====
-- The index of rules on the rules of the small database, and the handlers that change rules.
use dropwatch.Base.{
  ℕ, Bool, true, false, Option, none, some, List, [], ◌∷◌, map, filter, Result, ok, err, ◌≡◌, refl,
  All,
}
use mathlib.Core.List.{[], ◌∷◌, Perm}
use dropwatch.Decimal.{of_ℕ}
use dropwatch.Models.{absolute_below, absolute_above, spread_widen}
use dropwatch.RuleIndex.{Buckets, bucket_rules, lookup_bucket}
use dropwatch.RuleIndex.Buckets.{query, queried, lookup-bucket_rules}
use dropwatch.Evaluator.{matching_absolute_rules, rule_fires}
use dropwatch.Evaluator.Matching.{matching-perm}
use dropwatch.Api.Rules.{
  validate_rule_fields, unprocessable, CreateRuleRequest, UpdateRuleRequest, create_rule,
  update_rule,
}
use dropwatch.Api.Validity.{AllValid, create_rule-valid, update_rule-valid}
use dropwatch.Examples.Fixtures.{small_db}

abbrev buckets_of : Result Buckets → Buckets
buckets_of (ok g) = g
buckets_of (err _) = []

abbrev rule_buckets : Buckets
unfolding bucket_rules
rule_buckets = buckets_of (bucket_rules small_db.alert_rules)

built : bucket_rules small_db.alert_rules ≡ ok rule_buckets
unfolding bucket_rules rule_buckets
built = refl

-- The rule with the higher threshold comes first.
below_order : map (λ r. r.id) (lookup_bucket rule_buckets 1).absolute_below ≡ 4 ∷ 3 ∷ []
unfolding rule_buckets lookup_bucket dropwatch.Base.Sorting.sorted
below_order = refl

lookup-bucket_rules_example : lookup_bucket rule_buckets 1 ≡ queried 1 small_db.alert_rules
lookup-bucket_rules_example = lookup-bucket_rules 1 small_db.alert_rules rule_buckets built

matching-perm_example :
    Perm
      (matching_absolute_rules (lookup_bucket rule_buckets 1).absolute_below (of_ℕ 90))
      (filter (λ r. rule_fires r (of_ℕ 90)) (query 1 absolute_below small_db.alert_rules))
    × Perm
        (matching_absolute_rules (lookup_bucket rule_buckets 1).absolute_above (of_ℕ 90))
        (filter (λ r. rule_fires r (of_ℕ 90)) (query 1 absolute_above small_db.alert_rules))
matching-perm_example = matching-perm 1 (of_ℕ 90) small_db.alert_rules rule_buckets built

rules_valid : AllValid small_db
unfolding validate_rule_fields
rules_valid = (refl, (refl, (refl, tt)))

-- A request for a rule on the spread, of at least two percent.
abbrev spread_request : CreateRuleRequest
spread_request = record {
  user_id = 2;
  pair_id = 1;
  rule_type = spread_widen;
  threshold = none;
  percent = some (of_ℕ 2);
  window_seconds = none;
  sigma = none;
  direction = none;
  cooldown_seconds = 0;
  is_enabled = true;
}

create_rule-valid_example : AllValid (create_rule spread_request small_db).1
create_rule-valid_example = create_rule-valid spread_request small_db rules_valid

-- An update that takes the threshold away, which is refused.
abbrev without_threshold : UpdateRuleRequest
without_threshold = record {
  threshold = some none;
  percent = none;
  window_seconds = none;
  sigma = none;
  direction = none;
  cooldown_seconds = none;
  is_enabled = none;
}

refused : update_rule 3 without_threshold small_db ≡ (unprocessable, small_db)
unfolding update_rule
refused = refl

update_rule-valid_example : AllValid (update_rule 3 without_threshold small_db).1
update_rule-valid_example = update_rule-valid 3 without_threshold small_db rules_valid

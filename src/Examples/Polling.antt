-- ===== src/Examples/Polling.antt =====
-- Batches of the poller on the small database: one that commits, and one whose commit fails.
use text.Mathlib.Text.{◌==◌ as str_eq}
use dropwatch.Base.{
  ℕ, Bool, true, false, Option, none, some, List, [], ◌∷◌, ◌++◌, map, String, if◌then◌else◌, length,
  Result, ok, err, Error, value_error, commit_error, queue_error, ◌≡◌, refl, ◌⊎◌, All,
}
use dropwatch.Decimal.{of_ℕ}
use dropwatch.Settings.{default_settings}
use dropwatch.RuleIndex.{Buckets, RuleIndex, bucket_rules}
use dropwatch.Poller.{Quote, Message, Surroundings, Worker, process_batch}
use dropwatch.Poller.Commit.{Deletes, FailsSafe, process_batch-ok, process_batch-err}
use dropwatch.Examples.Fixtures.{test_platform, small_db}

abbrev buckets_of : Result Buckets → Buckets
buckets_of (ok g) = g
buckets_of (err _) = []

abbrev message : (name body : String) → Message
message name body = record { message_id = name; receipt_handle = name; body = body }

-- Bodies "1" and "9" name pairs; there is no pair 9.
abbrev read_number : String → Result ℕ
read_number s = if str_eq s "1" then ok 1 else if str_eq s "9" then ok 9 else err value_error

abbrev quote : Quote
quote = record {
  canonical_name = "XXBTZUSD";
  last = of_ℕ 90;
  bid = of_ℕ 90;
  ask = of_ℕ 91;
  volume_24h = of_ℕ 5;
}

abbrev pub surroundings : (commits : Bool) → Surroundings
surroundings commits = record {
  read_pair_id = read_number;
  get_quotes = λ names. ok (("XXBTZUSD", quote) ∷ []);
  observed_at = 60000000;
  race = λ _. false;
  commits = commits;
  deletes = true;
}

abbrev worker : Worker
unfolding bucket_rules
worker = record {
  db = small_db;
  index = record { buckets = buckets_of (bucket_rules small_db.alert_rules) };
  deleted = [];
}

-- A message for the pair, one for a pair that is gone, and one that is malformed.
abbrev pub batch : List Message
batch = message "a" "1" ∷ message "b" "9" ∷ message "c" "?" ∷ []

abbrev polled : (commits : Bool) → Worker
unfolding process_batch worker
polled commits =
    (process_batch test_platform default_settings (surroundings commits) batch worker).1

committed :
    process_batch test_platform default_settings (surroundings true) batch worker
    ≡ (ok tt, polled true)
unfolding process_batch worker polled test_platform
    dropwatch.Evaluator.Evaluate.evaluate_rules_for_pair dropwatch.Evaluator.Evaluate.candidates_for
    dropwatch.RuleIndex.rules_for_pair dropwatch.Evaluator.Evaluate.cached
    dropwatch.Evaluator.Firing.fire_candidates dropwatch.Evaluator.matching_absolute_rules
    dropwatch.Base.Sorting.sorted dropwatch.Evaluator.rule_fires dropwatch.Evaluator.Firing.finish
    dropwatch.Evaluator.in_cooldown dropwatch.Evaluator.Text.format_message
    dropwatch.Evaluator.percent_change_rule_fires dropwatch.Evaluator.fetch_price_at_or_before
    dropwatch.Decimal.is_zero dropwatch.Evaluator.change_percent dropwatch.Decimal.mul_dec
    dropwatch.Decimal.div_dec dropwatch.Decimal.sub_dec dropwatch.Decimal.neg_dec
    dropwatch.Evaluator.Firing.key_of dropwatch.Evaluator.minute_bucket
    dropwatch.Evaluator.Firing.past_price_of dropwatch.Evaluator.Firing.deliver
committed = refl

-- The malformed message stays in the queue.
deleted_names : map (λ m. m.message_id) (polled true).deleted ≡ "b" ∷ "a" ∷ []
unfolding process_batch worker polled test_platform
    dropwatch.Evaluator.Evaluate.evaluate_rules_for_pair dropwatch.Evaluator.Evaluate.candidates_for
    dropwatch.RuleIndex.rules_for_pair dropwatch.Evaluator.Evaluate.cached
    dropwatch.Evaluator.Firing.fire_candidates dropwatch.Evaluator.matching_absolute_rules
    dropwatch.Base.Sorting.sorted dropwatch.Evaluator.rule_fires dropwatch.Evaluator.Firing.finish
    dropwatch.Evaluator.in_cooldown dropwatch.Evaluator.Text.format_message
    dropwatch.Evaluator.percent_change_rule_fires dropwatch.Evaluator.fetch_price_at_or_before
    dropwatch.Decimal.is_zero dropwatch.Evaluator.change_percent dropwatch.Decimal.mul_dec
    dropwatch.Decimal.div_dec dropwatch.Decimal.sub_dec dropwatch.Decimal.neg_dec
    dropwatch.Evaluator.Firing.key_of dropwatch.Evaluator.minute_bucket
    dropwatch.Evaluator.Firing.past_price_of dropwatch.Evaluator.Firing.deliver
deleted_names = refl

process_batch-ok_example :
    Deletes test_platform default_settings (surroundings true) worker (polled true)
process_batch-ok_example =
    process_batch-ok test_platform default_settings (surroundings true) batch worker (polled true)
      committed

not_committed :
    process_batch test_platform default_settings (surroundings false) batch worker
    ≡ (err commit_error, polled false)
unfolding process_batch worker polled test_platform
    dropwatch.Evaluator.Evaluate.evaluate_rules_for_pair dropwatch.Evaluator.Evaluate.candidates_for
    dropwatch.RuleIndex.rules_for_pair dropwatch.Evaluator.Evaluate.cached
    dropwatch.Evaluator.Firing.fire_candidates dropwatch.Evaluator.matching_absolute_rules
    dropwatch.Base.Sorting.sorted dropwatch.Evaluator.rule_fires dropwatch.Evaluator.Firing.finish
    dropwatch.Evaluator.in_cooldown dropwatch.Evaluator.Text.format_message
    dropwatch.Evaluator.percent_change_rule_fires dropwatch.Evaluator.fetch_price_at_or_before
    dropwatch.Decimal.is_zero dropwatch.Evaluator.change_percent dropwatch.Decimal.mul_dec
    dropwatch.Decimal.div_dec dropwatch.Decimal.sub_dec dropwatch.Decimal.neg_dec
    dropwatch.Evaluator.Firing.key_of dropwatch.Evaluator.minute_bucket
    dropwatch.Evaluator.Firing.past_price_of dropwatch.Evaluator.Firing.deliver
not_committed = refl

process_batch-err_example :
    FailsSafe test_platform default_settings (surroundings false) worker commit_error (polled false)
process_batch-err_example =
    process_batch-err test_platform default_settings (surroundings false) batch worker
      (polled false) commit_error not_committed

abbrev fire_times : Worker → List (List (Option ℕ))
fire_times w = times w.index.buckets
  where
    times : Buckets → List (List (Option ℕ))
    times [] = []
    times ((_, b) ∷ rest) = map (λ r. r.last_fired_at) b.absolute_below ∷ times rest

-- The rows are as before the batch whose commit failed, while the rule that fired in it counts as
-- fired in the index.
fired_in_memory : fire_times (polled false) ≡ (some 60000000 ∷ none ∷ []) ∷ []
unfolding process_batch worker polled test_platform
    dropwatch.Evaluator.Evaluate.evaluate_rules_for_pair dropwatch.Evaluator.Evaluate.candidates_for
    dropwatch.RuleIndex.rules_for_pair dropwatch.Evaluator.Evaluate.cached
    dropwatch.Evaluator.Firing.fire_candidates dropwatch.Evaluator.matching_absolute_rules
    dropwatch.Base.Sorting.sorted dropwatch.Evaluator.rule_fires dropwatch.Evaluator.Firing.finish
    dropwatch.Evaluator.in_cooldown dropwatch.Evaluator.Text.format_message
    dropwatch.Evaluator.percent_change_rule_fires dropwatch.Evaluator.fetch_price_at_or_before
    dropwatch.Decimal.is_zero dropwatch.Evaluator.change_percent dropwatch.Decimal.mul_dec
    dropwatch.Decimal.div_dec dropwatch.Decimal.sub_dec dropwatch.Decimal.neg_dec
    dropwatch.Evaluator.Firing.key_of dropwatch.Evaluator.minute_bucket
    dropwatch.Evaluator.Firing.past_price_of dropwatch.Evaluator.Firing.deliver
fired_in_memory = refl

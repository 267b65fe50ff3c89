-- ===== src/Evaluator/Evaluate.antt =====
-- rules/evaluator.py: `evaluate_rules_for_pair`, the candidates of all five types and then the loop
-- over them.
use dropwatch.Base.{
  ℕ, ◌+◌, Option, none, some, List, [], ◌∷◌, ◌++◌, ◌==◌, if◌then◌else◌, filter, Result, ok, err,
  type_error, ◌>>=◌,
}
use dropwatch.Decimal.{Decimal}
use dropwatch.Settings.{Settings}
use dropwatch.Models.{AlertRule, PriceHistory, Notification}
use dropwatch.Platform.{Platform}
use dropwatch.Zscore.{ZScoreResult, compute_zscore}
use dropwatch.RuleIndex.{PairRules, rules_for_pair}
use dropwatch.Session.{Exec}
use dropwatch.Evaluator.{
  matching_absolute_rules, fetch_recent_prices, fetch_price_at_or_before, zscore_rule_fires,
  percent_change_rule_fires, spread_widen_rule_fires,
}
use dropwatch.Evaluator.Firing.{Observation, Context, fire_candidates}

-- `past_price_by_window`: the prices that are fetched already, by window.
abbrev pub WindowCache : Type 0
WindowCache = List (ℕ × Option Decimal)

unfoldable pub cached : WindowCache → ℕ → Option (Option Decimal)
cached [] w = none
cached ((v, past) ∷ rest) w = if v == w then some past else cached rest w

-- The rules that matched, and `past_price_by_rule_id`; of two entries for an id the later counts.
abbrev pub PercentMatch : Type 0
PercentMatch = List AlertRule × List (ℕ × Option Decimal)

abbrev pub note_past : AlertRule → Decimal → Option Decimal → PercentMatch → PercentMatch
note_past r last_price past (matched, by_id) = (
  if percent_change_rule_fires r last_price past then r ∷ matched else matched,
  by_id ++ (r.id, past) ∷ [],
)

module _ (price_history : List PriceHistory) (o : Observation) where
  open o use {pair, last_price, observed_at}

  -- The price for the window, and the cache with it. `timedelta(seconds=None)` raises.
  abbrev pub past_for : Option ℕ → WindowCache → Result (Option Decimal × WindowCache)
  past_for none cache = err type_error
  past_for (some w) cache = elim (cached cache w) [
    | some past ↦ ok (past, cache)
    | none ↦
        let past = fetch_price_at_or_before price_history pair.id observed_at w in
        ok (past, (w, past) ∷ cache)
  ]

  unfoldable pub match_percent : List AlertRule → WindowCache → Result PercentMatch
  match_percent [] cache = ok ([], [])
  match_percent (r ∷ rs) cache = past_for r.window_seconds cache >>= λ found.
      match_percent rs found.1 >>= λ m. ok (note_past r last_price found.0 m)

module _ (P : Platform) (settings : Settings) where
  open P use {Float}

  -- The score is computed only if there are rules that read it.
  unfoldable pub score_for :
      List PriceHistory → (pair_id : ℕ) → List AlertRule → Result (Option (ZScoreResult Float))
  unfolding fetch_recent_prices
  score_for price_history pair_id [] = ok none
  score_for price_history pair_id (r ∷ rs) =
      compute_zscore P (fetch_recent_prices price_history pair_id (settings.zscore_window + 2))
        settings.zscore_window settings.zscore_min_observations

  abbrev pub context_of :
      Observation → Option (ZScoreResult Float) → List (ℕ × Option Decimal) → Context P
  context_of o result by_id = record {
    observation = o;
    zscore_result = result;
    past_prices = by_id;
  }

  -- The candidates in the order of the code: below, above, z-score, percent change, spread.
  abbrev pub all_candidates :
      Observation → PairRules → Option (ZScoreResult Float) → List AlertRule → List AlertRule
  all_candidates o rules result percent_matched =
      matching_absolute_rules rules.absolute_below o.last_price
      ++ (matching_absolute_rules rules.absolute_above o.last_price
          ++ (filter (λ r. zscore_rule_fires P r result settings.zscore_zero_variance_min_percent)
                rules.zscore_move
              ++ (percent_matched
                  ++ filter (λ r. spread_widen_rule_fires r o.bid_price o.ask_price)
                      rules.spread_widen)))

  unfoldable pub candidates_for :
      List PriceHistory → Observation → PairRules → Result (Context P × List AlertRule)
  unfolding score_for match_percent
  candidates_for price_history o rules = do
    result ← score_for price_history o.pair.id rules.zscore_move
    (matched, by_id) ← match_percent price_history o rules.percent_change []
    ok (context_of o result by_id, all_candidates o rules result matched)

  abbrev pub fire_all : Result (Context P × List AlertRule) → Exec (List Notification)
  fire_all (ok (c, rules)) s = fire_candidates P c rules s
  fire_all (err e) s = (err e, s)

  unfoldable pub evaluate_rules_for_pair : Observation → Exec (List Notification)
  evaluate_rules_for_pair o s =
      fire_all (candidates_for s.db.price_history o (rules_for_pair s.index o.pair.id)) s

-- ===== src/RuleIndex.antt =====
-- workers/rule_index.py and rules/rule_types.py: the in-memory index of enabled rules, bucketed by
-- pair. A Python dict is an association list in insertion order.
pub mod Buckets
pub mod Freshness
use dropwatch.Base.{
  ℕ, ◌+◌, Bool, true, false, ◌&&◌, Option, none, some, List, [], ◌∷◌, ◌++◌, ◌==◌, if◌then◌else◌,
  length, filter, any, not, is_some, ltb, Result, ok, err, Error, type_error, key_error,
  database_error, ◌>>=◌,
}
use dropwatch.Base.Sorting.{sorted}
use dropwatch.Decimal.{Decimal, of_ℕ, leb_dec}
use dropwatch.Models.{
  RuleType, absolute_below, absolute_above, zscore_move, percent_change, spread_widen, other,
  AlertRule, Db,
}

pub record PairRules : Type 0 where
  pub absolute_below : List AlertRule
  pub absolute_above : List AlertRule
  pub zscore_move : List AlertRule
  pub percent_change : List AlertRule
  pub spread_widen : List AlertRule

abbrev pub empty_pair_rules : PairRules
empty_pair_rules = record {
  absolute_below = [];
  absolute_above = [];
  zscore_move = [];
  percent_change = [];
  spread_widen = [];
}

abbrev pub Buckets : Type 0
Buckets = List (ℕ × PairRules)

-- `rule_type in IMPLEMENTED_RULE_TYPES`
abbrev pub is_implemented : RuleType → Bool
is_implemented (other _) = false
is_implemented _ = true

-- `by_type[rule.rule_type].append(rule)`: the inner dict has the five keys, so any other raises.
abbrev pub append_by_type : RuleType → AlertRule → PairRules → Result PairRules
append_by_type absolute_below r b = ok (record b { absolute_below = b.absolute_below ++ r ∷ [] })
append_by_type absolute_above r b = ok (record b { absolute_above = b.absolute_above ++ r ∷ [] })
append_by_type zscore_move r b = ok (record b { zscore_move = b.zscore_move ++ r ∷ [] })
append_by_type percent_change r b = ok (record b { percent_change = b.percent_change ++ r ∷ [] })
append_by_type spread_widen r b = ok (record b { spread_widen = b.spread_widen ++ r ∷ [] })
append_by_type (other _) r b = err key_error

-- `grouped[rule.pair_id][rule.rule_type].append(rule)`, where `grouped` is a defaultdict.
unfoldable pub add_rule : AlertRule → Buckets → Result Buckets
add_rule r [] = do b ← append_by_type r.rule_type r empty_pair_rules; ok ((r.pair_id, b) ∷ [])
add_rule r ((k, b) ∷ rest) =
    let here = append_by_type r.rule_type r b >>= λ b'. ok ((k, b') ∷ rest) in
    let there = add_rule r rest >>= λ rest'. ok ((k, b) ∷ rest') in
    if k == r.pair_id then here else there

unfoldable pub group_rules : List AlertRule → Buckets → Result Buckets
unfolding add_rule
group_rules [] grouped = ok grouped
group_rules (r ∷ rs) grouped = do grouped' ← add_rule r grouped; group_rules rs grouped'

-- The sort key. Only lists whose keys are all numbers are compared by it.
abbrev pub threshold_of : AlertRule → Decimal
threshold_of r = elim r.threshold [ none ↦ of_ℕ 0 | some t ↦ t ]

abbrev pub descending : AlertRule → AlertRule → Bool
descending a b = leb_dec (threshold_of b) (threshold_of a)

abbrev pub ascending : AlertRule → AlertRule → Bool
ascending a b = leb_dec (threshold_of a) (threshold_of b)

-- `sorted(rules, key=lambda r: r.threshold, …)`: in a list of two or more a key `None` is compared,
-- which raises.
unfoldable pub sort_by_threshold :
    (AlertRule → AlertRule → Bool) → List AlertRule → Result (List AlertRule)
sort_by_threshold order rules =
    if ltb 1 (length rules) && any (λ r. not (is_some r.threshold)) rules
    then err type_error
    else ok (sorted order rules)

unfoldable pub sort_bucket : PairRules → Result PairRules
unfolding sort_by_threshold
sort_bucket b = do
  below ← sort_by_threshold descending b.absolute_below
  above ← sort_by_threshold ascending b.absolute_above
  ok (record b { absolute_below = below; absolute_above = above })

unfoldable pub sort_buckets : Buckets → Result Buckets
unfolding sort_bucket
sort_buckets [] = ok []
sort_buckets ((k, b) ∷ rest) = do
  b' ← sort_bucket b
  rest' ← sort_buckets rest
  ok ((k, b') ∷ rest')

unfoldable pub bucket_rules : List AlertRule → Result Buckets
unfolding group_rules sort_buckets
bucket_rules rules = do grouped ← group_rules rules []; sort_buckets grouped

pub record RuleIndex : Type 0 where
  pub buckets : Buckets

abbrev pub new_index : RuleIndex
new_index = record { buckets = [] }

unfoldable pub lookup_bucket : Buckets → ℕ → PairRules
lookup_bucket [] pair_id = empty_pair_rules
lookup_bucket ((k, b) ∷ rest) pair_id = if k == pair_id then b else lookup_bucket rest pair_id

unfoldable pub rules_for_pair : RuleIndex → ℕ → PairRules
unfolding lookup_bucket
rules_for_pair index pair_id = lookup_bucket index.buckets pair_id

-- The `WHERE` clause of `_load_buckets_from_db`.
abbrev pub is_indexed : AlertRule → Bool
is_indexed r = r.is_enabled && is_implemented r.rule_type

-- `answers` tells whether the database answers the query; where it does not, the call raises.
unfoldable pub load_buckets_from_db : (answers : Bool) → Db → Result Buckets
unfolding bucket_rules
load_buckets_from_db true db = bucket_rules (filter is_indexed db.alert_rules)
load_buckets_from_db false db = err database_error

unfoldable pub count_rules : Buckets → ℕ
count_rules [] = 0
count_rules ((_, b) ∷ rest) =
    length b.absolute_below
    + length b.absolute_above
    + length b.zscore_move
    + length b.percent_change
    + length b.spread_widen
    + count_rules rest

-- What `rebuild` does once its load is over: a load that raises leaves the index as it was.
unfoldable pub swap : Result Buckets → RuleIndex → Result ℕ × RuleIndex
unfolding count_rules
swap (ok buckets) index = (ok (count_rules buckets), record { buckets = buckets })
swap (err e) index = (err e, index)

-- `rebuild` where nothing else runs while it waits for the load, as before the tasks of a worker start.
unfoldable pub rebuild : (answers : Bool) → Db → RuleIndex → Result ℕ × RuleIndex
unfolding load_buckets_from_db swap
rebuild answers db index = swap (load_buckets_from_db answers db) index

unfoldable pub replace_with_rules : List AlertRule → RuleIndex → Result (Unit {0}) × RuleIndex
unfolding bucket_rules
replace_with_rules rules index = elim (bucket_rules rules) [
  | ok buckets ↦ (ok tt, record { buckets = buckets })
  | err e ↦ (err e, index)
]

-- ===== src/System/Matches.antt =====
-- workers/rule_index.py: when an index agrees with the table of rules.
use dropwatch.Base.{
  ℕ, Bool, true, false, List, map, filter, map-filter, ◌≡◌, refl, sym, ◌∙◌, ap, ok,
}
use dropwatch.Base.Sorting.{sorted, map-sorted}
use dropwatch.Models.{
  RuleType, absolute_below, absolute_above, zscore_move, percent_change, spread_widen, AlertRule,
  Db,
}
use dropwatch.RuleIndex.{
  RuleIndex, Buckets, rules_for_pair, lookup_bucket, is_indexed, load_buckets_from_db, descending,
  ascending,
}
use dropwatch.RuleIndex.Buckets.{query, is_for, queried, lookup-bucket_rules}
use dropwatch.Evaluator.Frame.{undated, undated_bucket, undated_buckets, lookup-undated}

-- What the index holds for the pair is what the queries of the table give, but for when the rules
-- fired.
abbrev pub MatchesTable : (p : ℕ) → Db → RuleIndex → Type 0
MatchesTable p db index =
    undated_bucket (rules_for_pair index p)
    ≡ undated_bucket (queried p (filter is_indexed db.alert_rules))

undated-query :
    (p : ℕ) (t : RuleType) (rs : List AlertRule)
    → map undated (query p t (filter is_indexed rs))
      ≡ query p t (filter is_indexed (map undated rs))
undated-query p t rs =
    map-filter undated (is_for p t) (λ r. refl) (filter is_indexed rs)
    ∙ ap (query p t) (map-filter undated is_indexed (λ r. refl) rs)

undated-queried :
    (p : ℕ) (rs : List AlertRule)
    → undated_bucket (queried p (filter is_indexed rs))
      ≡ queried p (filter is_indexed (map undated rs))
undated-queried p rs = λ i. record {
  absolute_below =
      (map-sorted undated descending (λ x y. refl) (query p absolute_below (filter is_indexed rs))
          ∙ ap (sorted descending) (undated-query p absolute_below rs))
        i;
  absolute_above =
      (map-sorted undated ascending (λ x y. refl) (query p absolute_above (filter is_indexed rs))
          ∙ ap (sorted ascending) (undated-query p absolute_above rs))
        i;
  zscore_move = undated-query p zscore_move rs i;
  percent_change = undated-query p percent_change rs i;
  spread_widen = undated-query p spread_widen rs i;
}

pub MatchesTable-steady :
    (p : ℕ) (a b : Db) (i j : RuleIndex)
    → map undated b.alert_rules ≡ map undated a.alert_rules
    → undated_buckets j.buckets ≡ undated_buckets i.buckets
    → MatchesTable p a i
    → MatchesTable p b j
unfolding rules_for_pair
MatchesTable-steady p a b i j rules index h =
    sym (lookup-undated j.buckets p)
    ∙ ap (λ g. lookup_bucket g p) index
    ∙ lookup-undated i.buckets p
    ∙ h
    ∙ undated-queried p a.alert_rules
    ∙ ap (λ rs. queried p (filter is_indexed rs)) (sym rules)
    ∙ sym (undated-queried p b.alert_rules)

-- The buckets that a load gives match the table that it read.
pub load-MatchesTable :
    (p : ℕ) (answers : Bool) (db : Db) (buckets : Buckets)
    → load_buckets_from_db answers db ≡ ok buckets
    → MatchesTable p db (record { buckets = buckets })
unfolding load_buckets_from_db rules_for_pair
load-MatchesTable p true db buckets e = ap undated_bucket (lookup-bucket_rules p _ buckets e)
load-MatchesTable p false db buckets e = absurd (cc e)

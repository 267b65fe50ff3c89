-- ===== src/Evaluator/Matching.antt =====
-- rules/evaluator.py: `_matching_absolute_rules`, whose early stop relies on the order that
-- workers/rule_index.py gives to a bucket.
use mathlib.Core.List.{Perm}
use dropwatch.Base.{
  ℕ, Bool, true, false, not, List, [], ◌∷◌, ◌≡◌, refl, ◌⊎◌, inl, inr, arith, filter, filter-none,
  All, All-filter, All-map, All-any, All-zip, Bool-cases, Option-cases, sym, ◌∙◌, >>=-eq-ok, ◌≤◌,
  is_some, length, ltb, ok,
}
use dropwatch.Base.Sorting.{
  IsSorted, sorted, sorted-IsSorted, sorted-perm, length-sorted, All-sorted, filter-perm,
}
use dropwatch.Decimal.{Decimal, ltb_dec}
use dropwatch.Decimal.Order.{
  leb_dec_trans, leb_dec_of_not_ltb_dec, not_ltb_dec_of_leb_dec, leb_dec_of_not_leb_dec,
}
use dropwatch.Models.{RuleType, absolute_below, absolute_above, AlertRule}
use dropwatch.RuleIndex.{
  Buckets, threshold_of, descending, ascending, bucket_rules, lookup_bucket, sort_by_threshold,
  sort_bucket,
}
use dropwatch.RuleIndex.Buckets.{query, is_for, sort_bucket-queries, lookup-bucket_rules}
use dropwatch.Evaluator.{rule_fires, matching_absolute_rules}

-- A rule of the type, with a threshold.
abbrev HasThreshold : RuleType → AlertRule → Type 0
HasThreshold t r = (r.rule_type ≡ t) × (is_some r.threshold ≡ true)

-- An empty or one-element list is in any order.
sort_by_threshold-cases :
    (order : AlertRule → AlertRule → Bool) (rules out : List AlertRule)
    → sort_by_threshold order rules ≡ ok out
    → (length rules ≤ 1) ⊎ All (λ r. is_some r.threshold ≡ true) rules
unfolding sort_by_threshold
sort_by_threshold-cases order rules out h = elim (Bool-cases (ltb 1 (length rules))) [
  | inl many ↦ inr (All-map (λ r. not-false r) rules (All-any _ rules (ground arith)))
  | inr few ↦ inl (ground arith)
]
  where
    not-false : (r : AlertRule) → not (is_some r.threshold) ≡ false → is_some r.threshold ≡ true
    not-false r h = ground arith

rule_fires-below :
    (r : AlertRule) (price : Decimal)
    → HasThreshold absolute_below r
    → rule_fires r price ≡ ltb_dec price (threshold_of r)
unfolding rule_fires
rule_fires-below r price (e, h) = elim (Option-cases r.threshold) [
  | inl missing ↦ cc (rw missing at h)
  | inr (t, found) ↦ simp (e, found, threshold_of)
]

rule_fires-above :
    (r : AlertRule) (price : Decimal)
    → HasThreshold absolute_above r
    → rule_fires r price ≡ ltb_dec (threshold_of r) price
unfolding rule_fires
rule_fires-above r price (e, h) = elim (Option-cases r.threshold) [
  | inl missing ↦ cc (rw missing at h)
  | inr (t, found) ↦ simp (e, found, threshold_of)
]

module _ (price : Decimal) where
  -- Behind a rule that does not fire come only rules that do not fire.
  below-stops :
      (r y : AlertRule)
      → HasThreshold absolute_below r
      → HasThreshold absolute_below y
      → descending r y ≡ true
      → rule_fires r price ≡ false
      → rule_fires y price ≡ false
  below-stops r y hr hy o stop =
      let clear =
        leb_dec_of_not_ltb_dec price (threshold_of r) (sym (rule_fires-below r price hr) ∙ stop) in
      rule_fires-below y price hy
      ∙ not_ltb_dec_of_leb_dec price (threshold_of y)
          (leb_dec_trans (threshold_of y) (threshold_of r) price o clear)

  above-stops :
      (r y : AlertRule)
      → HasThreshold absolute_above r
      → HasThreshold absolute_above y
      → ascending r y ≡ true
      → rule_fires r price ≡ false
      → rule_fires y price ≡ false
  above-stops r y hr hy o stop =
      let clear =
        leb_dec_of_not_ltb_dec (threshold_of r) price (sym (rule_fires-above r price hr) ∙ stop) in
      rule_fires-above y price hy
      ∙ not_ltb_dec_of_leb_dec (threshold_of y) price
          (leb_dec_trans price (threshold_of r) (threshold_of y) clear o)

module _ (price : Decimal) (order : AlertRule → AlertRule → Bool) (t : RuleType)
    (stops : (r y : AlertRule)
      → HasThreshold t r
      → HasThreshold t y
      → order r y ≡ true
      → rule_fires r price ≡ false
      → rule_fires y price ≡ false) where
  all_stop :
      (r : AlertRule) (ys : List AlertRule)
      → HasThreshold t r
      → All (HasThreshold t) ys
      → All (λ y. order r y ≡ true) ys
      → rule_fires r price ≡ false
      → All (λ y. rule_fires y price ≡ false) ys
  all_stop r [] hr hy o stop = tt
  all_stop r (y ∷ ys) hr hy o stop = (stops r y hr hy.0 o.0 stop, all_stop r ys hr hy.1 o.1 stop)

  matching-filter :
      (rs : List AlertRule)
      → All (HasThreshold t) rs
      → IsSorted order rs
      → matching_absolute_rules rs price ≡ filter (λ r. rule_fires r price) rs
  unfolding matching_absolute_rules
  matching-filter [] h o = refl
  matching-filter (r ∷ rs) h o = elim (Bool-cases (rule_fires r price)) [
    | inl fires ↦ rw (fires, matching-filter rs h.1 o.1)
    | inr stop ↦ rw stop (sym (filter-none _ rs (all_stop r rs h.0 h.1 o.0 stop)))
  ]

matching-short :
    (rs : List AlertRule) (price : Decimal)
    → length rs ≤ 1
    → matching_absolute_rules rs price ≡ filter (λ r. rule_fires r price) rs
unfolding matching_absolute_rules
matching-short [] price h = refl
matching-short (r ∷ []) price h = refl
matching-short (r ∷ s ∷ rs) price h = absurd (omega arith)

descending_flip : (x y : AlertRule) → descending x y ≡ false → descending y x ≡ true
descending_flip x y = leb_dec_of_not_leb_dec (threshold_of y) (threshold_of x)

descending_trans :
    (x y z : AlertRule) → descending x y ≡ true → descending y z ≡ true → descending x z ≡ true
descending_trans x y z h k = leb_dec_trans (threshold_of z) (threshold_of y) (threshold_of x) k h

ascending_flip : (x y : AlertRule) → ascending x y ≡ false → ascending y x ≡ true
ascending_flip x y = leb_dec_of_not_leb_dec (threshold_of x) (threshold_of y)

ascending_trans :
    (x y z : AlertRule) → ascending x y ≡ true → ascending y z ≡ true → ascending x z ≡ true
ascending_trans x y z = leb_dec_trans (threshold_of x) (threshold_of y) (threshold_of z)

-- A sort that succeeds gives a list on which stopping early is filtering.
sorted-matching :
    (order : AlertRule → AlertRule → Bool)
    → ((x y : AlertRule) → order x y ≡ false → order y x ≡ true)
    → ((x y z : AlertRule) → order x y ≡ true → order y z ≡ true → order x z ≡ true)
    → (t : RuleType) (price : Decimal)
    → ((r y : AlertRule)
        → HasThreshold t r
        → HasThreshold t y
        → order r y ≡ true
        → rule_fires r price ≡ false
        → rule_fires y price ≡ false)
    → (rules out : List AlertRule) → All (λ r. r.rule_type ≡ t) rules
    → sort_by_threshold order rules ≡ ok out
    → matching_absolute_rules (sorted order rules) price
      ≡ filter (λ r. rule_fires r price) (sorted order rules)
sorted-matching order flip trans t price stops rules out types h =
    elim (sort_by_threshold-cases order rules out h) [
      | inl few ↦ matching-short _ price (omega (arith, length-sorted order rules))
      | inr present ↦
          matching-filter price order t stops _
            (All-sorted order (HasThreshold t) rules (
              All-zip (λ r. r.rule_type ≡ t) (λ r. is_some r.threshold ≡ true) rules types present))
            (sorted-IsSorted order flip trans rules)
    ]

All-query-type :
    (p : ℕ) (t : RuleType) (rules : List AlertRule)
    → All (λ r. is_for p t r ≡ true) (query p t rules)
All-query-type p t rules = All-filter (is_for p t) rules

type-below :
    (p : ℕ) (r : AlertRule) → is_for p absolute_below r ≡ true → r.rule_type ≡ absolute_below
type-below p r h = ground arith

type-above :
    (p : ℕ) (r : AlertRule) → is_for p absolute_above r ≡ true → r.rule_type ≡ absolute_above
type-above p r h = ground arith

module _ (p : ℕ) (price : Decimal) (rules : List AlertRule) (g : Buckets)
    (built : bucket_rules rules ≡ ok g) where
  sorts :
      ((below : List AlertRule) × (sort_by_threshold descending (query p absolute_below rules)
          ≡ ok below))
      × ((above : List AlertRule) × (sort_by_threshold ascending (query p absolute_above rules)
            ≡ ok above))
  unfolding sort_bucket
  sorts =
      let (below, hb, hr) =
        >>=-eq-ok (sort_by_threshold descending (query p absolute_below rules)) _
          (sort_bucket-queries p rules g built) in
      let (above, ha, _) =
        >>=-eq-ok (sort_by_threshold ascending (query p absolute_above rules)) _ hr in
      ((below, hb), (above, ha))

  -- In an index built from a list of rules, the loop with the early stop over a pair's absolute_below
  -- rules finds exactly the rules of the list for that pair and type that the price fires, each as
  -- often as it is listed; so does the loop over the absolute_above rules.
  pub matching-perm :
      Perm
        (matching_absolute_rules (lookup_bucket g p).absolute_below price)
        (filter (λ r. rule_fires r price) (query p absolute_below rules))
      × Perm
          (matching_absolute_rules (lookup_bucket g p).absolute_above price)
          (filter (λ r. rule_fires r price) (query p absolute_above rules))
  matching-perm =
      let ((below, hb), (above, ha)) = sorts in
      rw (lookup-bucket_rules p rules g built) (
        rw
            (sorted-matching descending descending_flip descending_trans absolute_below price
              (below-stops price) (query p absolute_below rules) below
              (All-map (type-below p) _ (All-query-type p absolute_below rules)) hb)
            (filter-perm _ (sorted-perm descending _)),
        rw
            (sorted-matching ascending ascending_flip ascending_trans absolute_above price
              (above-stops price) (query p absolute_above rules) above
              (All-map (type-above p) _ (All-query-type p absolute_above rules)) ha)
            (filter-perm _ (sorted-perm ascending _)),
      )

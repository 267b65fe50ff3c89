-- ===== src/Api/Validity.antt =====
-- api/routes/rules.py: the validation of a rule, and workers/rule_index.py, which sorts by a threshold
-- that the schema allows to be null.
use dropwatch.Base.{
  ℕ, Bool, true, false, not, Option, none, some, List, [], ◌∷◌, map, ◌==◌, is_some, any, filter,
  length, ltb, ◌≡◌, refl, Bool-cases, Option-cases, Result-cases, inl, inr, if◌then◌else◌, All,
  All-append, All-kept, ok,
}
use dropwatch.Base.Sorting.{sorted}
use dropwatch.Models.{
  RuleType, absolute_below, absolute_above, zscore_move, percent_change, spread_widen, other,
  AlertRule, Db, get_rule,
}
use dropwatch.RuleIndex.{
  PairRules, empty_pair_rules, Buckets, RuleIndex, append_by_type, add_rule, group_rules,
  sort_by_threshold, sort_bucket, sort_buckets, bucket_rules, descending, ascending,
  load_buckets_from_db, is_indexed, count_rules, rebuild, swap,
}
use dropwatch.Api.Rules.{
  unknown_reference, validate_rule_fields, validate_rule, CreateRuleRequest, UpdateRuleRequest,
  create_rule, update_rule, patched, nulls, require, rule_of,
}

abbrev pub IsValid : AlertRule → Type 0
IsValid r = validate_rule r ≡ ok tt

abbrev pub AllValid : Db → Type 0
AllValid db = All IsValid db.alert_rules

abbrev HasThreshold : AlertRule → Type 0
HasThreshold r = is_some r.threshold ≡ true

abbrev IsSortable : PairRules → Type 0
IsSortable b = All HasThreshold b.absolute_below × All HasThreshold b.absolute_above

abbrev AllSortable : Buckets → Type 0
AllSortable [] = Unit
AllSortable ((_, b) ∷ rest) = IsSortable b × AllSortable rest

required : {A : Type 0} (o : Option A) → require (is_some o) ≡ ok tt → is_some o ≡ true
required none h = absurd (cc h)
required (some a) h = refl

append-ok :
    (t : RuleType) (r : AlertRule) (b : PairRules)
    → validate_rule_fields t r.threshold r.percent r.window_seconds r.sigma r.direction ≡ ok tt
    → IsSortable b
    → (b' : PairRules) × (append_by_type t r b ≡ ok b') × IsSortable b'
unfolding validate_rule_fields
append-ok absolute_below r b v (below, above) = (
  _,
  refl,
  (All-append HasThreshold b.absolute_below _ below (required r.threshold v, tt), above),
)
append-ok absolute_above r b v (below, above) = (
  _,
  refl,
  (below, All-append HasThreshold b.absolute_above _ above (required r.threshold v, tt)),
)
append-ok zscore_move r b v h = (_, refl, h)
append-ok percent_change r b v h = (_, refl, h)
append-ok spread_widen r b v h = (_, refl, h)
append-ok (other _) r b v h = absurd (cc v)

add_rule-ok :
    (r : AlertRule) (g : Buckets)
    → IsValid r
    → AllSortable g
    → (g' : Buckets) × (add_rule r g ≡ ok g') × AllSortable g'
unfolding add_rule
add_rule-ok r [] v h =
    let (b, e, s) = append-ok r.rule_type r empty_pair_rules v (tt, tt) in
    ((r.pair_id, b) ∷ [], rw e refl, (s, tt))
add_rule-ok r ((k, b) ∷ rest) v (h, hs) = elim (Bool-cases (k == r.pair_id)) [
  | inl here ↦
      let (b', e, s) = append-ok r.rule_type r b v h in ((k, b') ∷ rest, rw (here, e) refl, (s, hs))
  | inr there ↦
      let (g', e, s) = add_rule-ok r rest v hs in ((k, b) ∷ g', rw (there, e) refl, (h, s))
]

group_rules-ok :
    (rs : List AlertRule) (g : Buckets)
    → All IsValid rs
    → AllSortable g
    → (g' : Buckets) × (group_rules rs g ≡ ok g') × AllSortable g'
unfolding group_rules
group_rules-ok [] g v h = (g, refl, h)
group_rules-ok (r ∷ rs) g (v, vs) h =
    let (g1, e, s) = add_rule-ok r g v h in
    let (g2, f, u) = group_rules-ok rs g1 vs s in (g2, rw (e, f) refl, u)

none_missing :
    (rs : List AlertRule) → All HasThreshold rs → any (λ r. not (is_some r.threshold)) rs ≡ false
none_missing [] h = refl
none_missing (r ∷ rs) (h, hs) = rw (h, none_missing rs hs)

sort-ok :
    (order : AlertRule → AlertRule → Bool) (rs : List AlertRule)
    → All HasThreshold rs
    → (rs' : List AlertRule) × (sort_by_threshold order rs ≡ ok rs')
unfolding sort_by_threshold
sort-ok order rs h = elim (Bool-cases (ltb 1 (length rs))) [
  | inl many ↦ (sorted order rs, rw (none_missing rs h, many) refl)
  | inr few ↦ (sorted order rs, rw few refl)
]

sort_buckets-ok : (g : Buckets) → AllSortable g → (g' : Buckets) × (sort_buckets g ≡ ok g')
unfolding sort_buckets
sort_buckets-ok [] h = ([], refl)
sort_buckets-ok ((k, b) ∷ rest) ((below, above), hs) =
    let (below', e) = sort-ok descending b.absolute_below below in
    let (above', f) = sort-ok ascending b.absolute_above above in
    let (rest', g) = sort_buckets-ok rest hs in
    (
      (k, record b { absolute_below = below'; absolute_above = above' }) ∷ rest',
      rw (sort_bucket, e, f, g) refl,
    )

load-ok :
    (db : Db) → AllValid db → (buckets : Buckets) × (load_buckets_from_db true db ≡ ok buckets)
unfolding load_buckets_from_db bucket_rules
load-ok db valid =
    let (g, e, s) =
      group_rules-ok (filter is_indexed db.alert_rules) []
        (All-kept IsValid is_indexed db.alert_rules valid) tt in
    let (g', f) = sort_buckets-ok g s in (g', rw (e, f) refl)

pub rebuild-ok :
    (db : Db) (index : RuleIndex)
    → AllValid db
    → (buckets : Buckets) × (load_buckets_from_db true db ≡ ok buckets)
      × (rebuild true db index ≡ (ok (count_rules buckets), record { buckets = buckets }))
unfolding rebuild swap
rebuild-ok db index valid = let (buckets, e) = load-ok db valid in (buckets, e, loaded buckets e)
  where
    loaded :
        (buckets : Buckets)
        → load_buckets_from_db true db ≡ ok buckets
        → rebuild true db index ≡ (ok (count_rules buckets), record { buckets = buckets })
    loaded buckets e = rw (rebuild, e) refl

-- A request to create a rule, whatever it holds, leaves every row of the table valid.
pub create_rule-valid :
    (body : CreateRuleRequest) (db : Db) → AllValid db → AllValid (create_rule body db).1
unfolding create_rule
create_rule-valid body db valid =
    elim (Result-cases (validate_rule (rule_of body db.next_id db.now))) [
      | inr (e, bad) ↦ rw (create_rule, bad) valid
      | inl (u, good) ↦ elim (Bool-cases (unknown_reference body db)) [
        | inl missing ↦ rw (create_rule, good, missing) valid
        | inr known ↦
            rw (create_rule, good, known) (All-append IsValid db.alert_rules _ valid (good, tt))
      ]
    ]

All-stored :
    (rule : AlertRule) (rs : List AlertRule)
    → IsValid rule
    → All IsValid rs
    → All IsValid (map (λ x. if x.id == rule.id then rule else x) rs)
All-stored rule [] v h = tt
All-stored rule (r ∷ rs) v (h, hs) = elim (Bool-cases (r.id == rule.id)) [
  | inl same ↦ rw same (v, All-stored rule rs v hs)
  | inr apart ↦ rw apart (h, All-stored rule rs v hs)
]

-- A partial update, whatever it sets and wherever it fails, leaves every row of the table valid.
pub update_rule-valid :
    (rule_id : ℕ) (body : UpdateRuleRequest) (db : Db)
    → AllValid db
    → AllValid (update_rule rule_id body db).1
unfolding update_rule
update_rule-valid rule_id body db valid = elim (Option-cases (get_rule rule_id db.alert_rules)) [
  | inl gone ↦ rw (update_rule, gone) valid
  | inr (r, found) ↦ elim (Result-cases (validate_rule (patched body r))) [
    | inr (e, bad) ↦ rw (update_rule, found, bad) valid
    | inl (u, good) ↦ elim (Bool-cases (nulls body)) [
      | inl null ↦ rw (update_rule, found, good, null) valid
      | inr set ↦
          rw (update_rule, found, good, set) (All-stored (patched body r) db.alert_rules good valid)
    ]
  ]
]

-- ===== src/RuleIndex/Buckets.antt =====
-- workers/rule_index.py: `_bucket_rules` beside the queries by pair and type that it stands for.
use mathlib.Core.List.{append-nil, append_assoc}
use dropwatch.Base.{
  filter-append, ap, ◌∙◌, ==_refl, ==_iff, ok-injective, >>=-eq-ok, Bool-cases, inl, inr, sym, ℕ,
  ◌≡◌, refl, Bool, true, false, ◌&&◌, List, [], ◌∷◌, ◌++◌, ◌==◌, filter, arith, ok,
}
use dropwatch.Base.Sorting.{sorted}
use dropwatch.Models.{
  RuleType, absolute_below, absolute_above, zscore_move, percent_change, spread_widen, other,
  AlertRule,
}
use dropwatch.RuleIndex.{
  PairRules, empty_pair_rules, Buckets, append_by_type, add_rule, group_rules, lookup_bucket,
  sort_by_threshold, sort_bucket, sort_buckets, bucket_rules, descending, ascending,
}

-- `rule_type = t`
abbrev pub same_type : RuleType → RuleType → Bool
same_type absolute_below absolute_below = true
same_type absolute_above absolute_above = true
same_type zscore_move zscore_move = true
same_type percent_change percent_change = true
same_type spread_widen spread_widen = true
same_type _ _ = false

-- The per-pair query: `WHERE pair_id = p AND rule_type = t`.
abbrev pub is_for : ℕ → RuleType → AlertRule → Bool
is_for p t r = p == r.pair_id && same_type t r.rule_type

abbrev pub query : ℕ → RuleType → List AlertRule → List AlertRule
query p t = filter (is_for p t)

-- `b` with the rules of the query appended, type by type.
abbrev extended : ℕ → List AlertRule → PairRules → PairRules
extended p rs b = record {
  absolute_below = b.absolute_below ++ query p absolute_below rs;
  absolute_above = b.absolute_above ++ query p absolute_above rs;
  zscore_move = b.zscore_move ++ query p zscore_move rs;
  percent_change = b.percent_change ++ query p percent_change rs;
  spread_widen = b.spread_widen ++ query p spread_widen rs;
}

PairRules_path :
    {a b : PairRules}
    → a.absolute_below ≡ b.absolute_below
    → a.absolute_above ≡ b.absolute_above
    → a.zscore_move ≡ b.zscore_move
    → a.percent_change ≡ b.percent_change
    → a.spread_widen ≡ b.spread_widen
    → a ≡ b
PairRules_path p q r s t = λ i. record {
  absolute_below = p i;
  absolute_above = q i;
  zscore_move = r i;
  percent_change = s i;
  spread_widen = t i;
}

extended-nil : (p : ℕ) (b : PairRules) → extended p [] b ≡ b
extended-nil p b =
    PairRules_path (append-nil _) (append-nil _) (append-nil _) (append-nil _) (append-nil _)

extended-extended :
    (p : ℕ) (rs ss : List AlertRule) (b : PairRules)
    → extended p ss (extended p rs b) ≡ extended p (rs ++ ss) b
extended-extended p rs ss b =
    PairRules_path (law absolute_below b.absolute_below) (law absolute_above b.absolute_above)
      (law zscore_move b.zscore_move) (law percent_change b.percent_change)
      (law spread_widen b.spread_widen)
  where
    law :
        (t : RuleType) (l : List AlertRule)
        → (l ++ query p t rs) ++ query p t ss ≡ l ++ query p t (rs ++ ss)
    law t l = rw (append_assoc, filter-append)

append_by_type-extended :
    (r : AlertRule) (b b' : PairRules)
    → append_by_type r.rule_type r b ≡ ok b'
    → extended r.pair_id (r ∷ []) b ≡ b'
append_by_type-extended r b b' h = go r.rule_type refl h
  where
    go :
        (t : RuleType)
        → r.rule_type ≡ t
        → append_by_type t r b ≡ ok b'
        → extended r.pair_id (r ∷ []) b ≡ b'
    go absolute_below e h = simp (e, ==_refl, append-nil) (ok-injective h)
    go absolute_above e h = simp (e, ==_refl, append-nil) (ok-injective h)
    go zscore_move e h = simp (e, ==_refl, append-nil) (ok-injective h)
    go percent_change e h = simp (e, ==_refl, append-nil) (ok-injective h)
    go spread_widen e h = simp (e, ==_refl, append-nil) (ok-injective h)
    go (other _) e h = cc

extended-other :
    (p : ℕ) (r : AlertRule) (b : PairRules) → (p == r.pair_id) ≡ false → extended p (r ∷ []) b ≡ b
extended-other p r b h = rw h (extended-nil p b)

lookup-add_rule :
    (p : ℕ) (r : AlertRule) (g g' : Buckets)
    → add_rule r g ≡ ok g'
    → lookup_bucket g' p ≡ extended p (r ∷ []) (lookup_bucket g p)
unfolding add_rule lookup_bucket
lookup-add_rule p r [] g' h =
    let (b, hb, hg) = >>=-eq-ok (append_by_type r.rule_type r empty_pair_rules) _ h in
    let same = append_by_type-extended r empty_pair_rules b hb in
    elim (Bool-cases (r.pair_id == p)) [
      | inl e ↦ rw (← ok-injective hg, lookup_bucket, e, ← same, (==_iff _ _).0 e)
      | inr e ↦ rw (← ok-injective hg, lookup_bucket, e) (sym (extended-other p r _ (ground arith)))
    ]
lookup-add_rule p r ((k, b) ∷ rest) g' h = elim (Bool-cases (k == r.pair_id)) [
  | inl here ↦
      let (b', hb, hg) = >>=-eq-ok (append_by_type r.rule_type r b) _ (rw here at h) in
      let same = append_by_type-extended r b b' hb in
      elim (Bool-cases (k == p)) [
        | inl e ↦ rw (
          ← ok-injective hg,
          lookup_bucket,
          e,
          ← same,
          ← (==_iff k r.pair_id).0 here,
          (==_iff k p).0 e,
        )
        | inr e ↦
            rw (← ok-injective hg, lookup_bucket, e) (sym (extended-other p r _ (ground arith)))
      ]
  | inr there ↦
      let (rest', hr, hg) = >>=-eq-ok (add_rule r rest) _ (rw there at h) in
      elim (Bool-cases (k == p)) [
        | inl e ↦
            rw (← ok-injective hg, lookup_bucket, e) (sym (extended-other p r b (ground arith)))
        | inr e ↦ rw (← ok-injective hg, lookup_bucket, e) (lookup-add_rule p r rest rest' hr)
      ]
]

lookup-group_rules :
    (p : ℕ) (rs : List AlertRule) (g g' : Buckets)
    → group_rules rs g ≡ ok g'
    → lookup_bucket g' p ≡ extended p rs (lookup_bucket g p)
unfolding group_rules
lookup-group_rules p [] g g' h = rw (← ok-injective h) (sym (extended-nil p _))
lookup-group_rules p (r ∷ rs) g g' h =
    let (g1, ha, hg) = >>=-eq-ok (add_rule r g) _ h in
    lookup-group_rules p rs g1 g' hg
    ∙ ap (extended p rs) (lookup-add_rule p r g g1 ha)
    ∙ extended-extended p (r ∷ []) rs (lookup_bucket g p)

sort_by_threshold-sorted :
    (order : AlertRule → AlertRule → Bool) (rules out : List AlertRule)
    → sort_by_threshold order rules ≡ ok out
    → out ≡ sorted order rules
unfolding sort_by_threshold
sort_by_threshold-sorted order rules out h = ground arith

abbrev pub in_order : PairRules → PairRules
in_order b = record b {
  absolute_below = sorted descending b.absolute_below;
  absolute_above = sorted ascending b.absolute_above;
}

sort_bucket-in_order : (b b' : PairRules) → sort_bucket b ≡ ok b' → b' ≡ in_order b
unfolding sort_bucket
sort_bucket-in_order b b' h =
    let (below, hb, hr) = >>=-eq-ok (sort_by_threshold descending b.absolute_below) _ h in
    let (above, ha, hs) = >>=-eq-ok (sort_by_threshold ascending b.absolute_above) _ hr in
    let eb = sort_by_threshold-sorted descending b.absolute_below below hb in
    let ea = sort_by_threshold-sorted ascending b.absolute_above above ha in
    rw (← ok-injective hs, eb, ea)

lookup-sort_buckets :
    (p : ℕ) (g g' : Buckets)
    → sort_buckets g ≡ ok g'
    → sort_bucket (lookup_bucket g p) ≡ ok (lookup_bucket g' p)
unfolding sort_buckets lookup_bucket
lookup-sort_buckets p [] g' h = rw (← ok-injective h) (unfold sort_bucket sorted in refl)
lookup-sort_buckets p ((k, b) ∷ rest) g' h =
    let (b', hb, hr) = >>=-eq-ok (sort_bucket b) _ h in
    let (rest', hs, hg) = >>=-eq-ok (sort_buckets rest) _ hr in
    elim (Bool-cases (k == p)) [
      | inl e ↦ rw (← ok-injective hg, lookup_bucket, e) hb
      | inr e ↦ rw (← ok-injective hg, lookup_bucket, e) (lookup-sort_buckets p rest rest' hs)
    ]

-- The queries of a pair's rules by type.
abbrev pub queries : ℕ → List AlertRule → PairRules
queries p rules = record {
  absolute_below = query p absolute_below rules;
  absolute_above = query p absolute_above rules;
  zscore_move = query p zscore_move rules;
  percent_change = query p percent_change rules;
  spread_widen = query p spread_widen rules;
}

pub sort_bucket-queries :
    (p : ℕ) (rules : List AlertRule) (g : Buckets)
    → bucket_rules rules ≡ ok g
    → sort_bucket (queries p rules) ≡ ok (lookup_bucket g p)
unfolding bucket_rules lookup_bucket
sort_bucket-queries p rules g h =
    let (grouped, hg, hs) = >>=-eq-ok (group_rules rules []) _ h in
    ap sort_bucket (sym (lookup-group_rules p rules [] grouped hg))
    ∙ lookup-sort_buckets p grouped g hs

-- What the index holds for a pair, by queries of the rules that it was built from: the absolute
-- ones sorted by threshold, the others in the rules' order.
abbrev pub queried : ℕ → List AlertRule → PairRules
queried p rules = in_order (queries p rules)

-- Whenever the buckets can be built from a list of rules, the bucket of every pair holds exactly
-- the rules that a query of the list by that pair and each type selects: those of the absolute types
-- sorted by threshold, those of the other types in the list's order.
pub lookup-bucket_rules :
    (p : ℕ) (rules : List AlertRule) (g : Buckets)
    → bucket_rules rules ≡ ok g
    → lookup_bucket g p ≡ queried p rules
lookup-bucket_rules p rules g h = sort_bucket-in_order _ _ (sort_bucket-queries p rules g h)

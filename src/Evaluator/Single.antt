-- ===== src/Evaluator/Single.antt =====
-- rules/evaluator.py: `evaluate_rules_for_pair` against an index that holds a single rule, as the
-- replay of api/routes/rules.py has it.
use mathlib.Core.List.{append-nil}
use mathlib.Core.Path.{subst}
use dropwatch.Base.{
  ℕ, Bool, true, false, Option, none, some, List, [], ◌∷◌, ◌++◌, map, ◌==◌, filter, ◌≡◌, refl, sym,
  ◌∙◌, ap, arith, ==_refl, Bool-cases, Result-cases, ◌⊎◌, inl, inr, Result, ok, err, ok-injective,
  >>=-eq-ok, value_of, state_of,
}
use dropwatch.Decimal.{Decimal}
use dropwatch.Settings.{Settings}
use dropwatch.Models.{
  RuleType, absolute_below, absolute_above, zscore_move, percent_change, spread_widen, other,
  AlertRule, PriceHistory, Notification,
}
use dropwatch.Platform.{Platform}
use dropwatch.Zscore.{ZScoreResult}
use dropwatch.RuleIndex.{
  PairRules, empty_pair_rules, Buckets, RuleIndex, new_index, rules_for_pair, lookup_bucket,
  append_by_type, add_rule, group_rules, sort_bucket, sort_buckets, bucket_rules,
  replace_with_rules,
}
use dropwatch.Session.{Session, and_then-eq-ok}
use dropwatch.Evaluator.{
  in_cooldown, matching_absolute_rules, rule_fires, zscore_rule_fires, percent_change_rule_fires,
  spread_widen_rule_fires,
}
use dropwatch.Evaluator.Firing.{
  Observation, Context, status_of, new_notification, message_of, deliver, finish, collect,
  touch_bucket, touch_buckets, advance, fire_candidate, fire_candidates,
}
use dropwatch.Evaluator.Evaluate.{
  PercentMatch, past_for, match_percent, all_candidates, candidates_for, evaluate_rules_for_pair,
  score_for,
}
use dropwatch.Evaluator.Frame.{
  blocked, fire_candidate-blocked, fire_candidate-free, with_notification,
}

-- The bucket with the rule `r` alone, under the type `t`.
abbrev pub only : RuleType → AlertRule → PairRules
only absolute_below r = record empty_pair_rules { absolute_below = r ∷ [] }
only absolute_above r = record empty_pair_rules { absolute_above = r ∷ [] }
only zscore_move r = record empty_pair_rules { zscore_move = r ∷ [] }
only percent_change r = record empty_pair_rules { percent_change = r ∷ [] }
only spread_widen r = record empty_pair_rules { spread_widen = r ∷ [] }
only (other _) r = empty_pair_rules

-- The index holds the rule `r` alone.
abbrev pub HoldsOnly : (k : ℕ) → RuleType → AlertRule → RuleIndex → Type 0
HoldsOnly k t r index = index.buckets ≡ (k, only t r) ∷ []

append-only :
    (t : RuleType) (r : AlertRule) (b : PairRules)
    → append_by_type t r empty_pair_rules ≡ ok b
    → b ≡ only t r
append-only absolute_below r b h = sym (ok-injective h)
append-only absolute_above r b h = sym (ok-injective h)
append-only zscore_move r b h = sym (ok-injective h)
append-only percent_change r b h = sym (ok-injective h)
append-only spread_widen r b h = sym (ok-injective h)
append-only (other _) r b h = absurd (cc h)

sort_bucket-only : (t : RuleType) (r : AlertRule) → sort_bucket (only t r) ≡ ok (only t r)
unfolding sort_bucket dropwatch.Base.Sorting.sorted
sort_bucket-only absolute_below r = refl
sort_bucket-only absolute_above r = refl
sort_bucket-only zscore_move r = refl
sort_bucket-only percent_change r = refl
sort_bucket-only spread_widen r = refl
sort_bucket-only (other _) r = refl

sort_buckets-only :
    (k : ℕ) (t : RuleType) (r : AlertRule)
    → sort_buckets ((k, only t r) ∷ []) ≡ ok ((k, only t r) ∷ [])
unfolding sort_buckets
sort_buckets-only k t r = rw (sort_buckets, sort_bucket-only t r) refl

bucket_rules-only :
    (r : AlertRule) (g : Buckets)
    → bucket_rules (r ∷ []) ≡ ok g
    → g ≡ (r.pair_id, only r.rule_type r) ∷ []
unfolding bucket_rules sort_buckets
bucket_rules-only r g h =
    let (grouped, hg, hs) = >>=-eq-ok (group_rules (r ∷ []) []) _ h in
    let (g1, ha, e) = >>=-eq-ok (add_rule r []) _ hg in
    let (b, hb, eb) = >>=-eq-ok (append_by_type r.rule_type r empty_pair_rules) _ ha in
    let same : (r.pair_id, only r.rule_type r) ∷ [] ≡ grouped =
      ap (λ x. (r.pair_id, x) ∷ []) (sym (append-only r.rule_type r b hb))
      ∙ ok-injective eb
      ∙ ok-injective e in
    ok-injective (sym hs ∙ ap sort_buckets (sym same) ∙ sort_buckets-only r.pair_id r.rule_type r)

pub replace_with_rules-HoldsOnly :
    (r : AlertRule) (index : RuleIndex)
    → replace_with_rules (r ∷ []) new_index ≡ (ok tt, index)
    → HoldsOnly r.pair_id r.rule_type r index
unfolding replace_with_rules
replace_with_rules-HoldsOnly r index h = elim (Result-cases (bucket_rules (r ∷ []))) [
  | inr (e, fails) ↦ absurd (cc (value_of (rw (replace_with_rules, fails) at h)))
  | inl (g, e) ↦
      sym (ap (λ (x : RuleIndex). x.buckets) (state_of (rw (replace_with_rules, e) at h)))
      ∙ bucket_rules-only r g e
]

-- The only rule that the index holds is a candidate, or none is.
abbrev AtMost : AlertRule → List AlertRule → Type 0
AtMost r rules = (rules ≡ []) ⊎ (rules ≡ r ∷ [])

AtMost-matching :
    (r : AlertRule) (price : Decimal) → AtMost r (matching_absolute_rules (r ∷ []) price)
unfolding matching_absolute_rules
AtMost-matching r price = elim (Bool-cases (rule_fires r price)) [
  | inl fires ↦ rw fires (inr refl)
  | inr quiet ↦ rw quiet (inl refl)
]

AtMost-filter : (r : AlertRule) (test : AlertRule → Bool) → AtMost r (filter test (r ∷ []))
AtMost-filter r test = elim (Bool-cases (test r)) [
  | inl fires ↦ rw fires (inr refl)
  | inr quiet ↦ rw quiet (inl refl)
]

AtMost-percent :
    (history : List PriceHistory) (o : Observation) (r : AlertRule) (m : PercentMatch)
    → match_percent history o (r ∷ []) [] ≡ ok m
    → AtMost r m.0
unfolding match_percent
AtMost-percent history o r m h =
    let (found, e, h1) = >>=-eq-ok (past_for history o r.window_seconds []) _ h in
    elim (Bool-cases (percent_change_rule_fires r o.last_price found.0)) [
      | inl fires ↦ rw (← ap (λ (x : PercentMatch). x.0) (ok-injective h1), fires) (inr refl)
      | inr quiet ↦ rw (← ap (λ (x : PercentMatch). x.0) (ok-injective h1), quiet) (inl refl)
    ]

module _ (P : Platform) (settings : Settings) where
  candidates-AtMost :
      (history : List PriceHistory) (o : Observation) (t : RuleType) (r : AlertRule) (c : Context P)
      (rules : List AlertRule)
      → candidates_for P settings history o (only t r) ≡ ok (c, rules)
      → (c.observation ≡ o) × AtMost r rules
  unfolding candidates_for match_percent matching_absolute_rules
  candidates-AtMost history o t r c rules h =
      let b = only t r in
      let (result, e, h1) = >>=-eq-ok (score_for P settings history o.pair.id b.zscore_move) _ h in
      let (m, f, h2) = >>=-eq-ok (match_percent history o b.percent_change []) _ h1 in
      let same = ok-injective h2 in
      (
        sym (ap (λ (x : Context P × List AlertRule). x.0.observation) same),
        subst (AtMost r) (ap (λ (x : Context P × List AlertRule). x.1) same) (at_most t result m f),
      )
    where
      at_most :
          (t : RuleType) (result : Option (ZScoreResult P.Float)) (m : PercentMatch)
          → match_percent history o (only t r).percent_change [] ≡ ok m
          → AtMost r (all_candidates P settings o (only t r) result m.0)
      at_most absolute_below result m f =
          rw (← ap (λ (x : PercentMatch). x.0) (ok-injective f), append-nil)
            (AtMost-matching r o.last_price)
      at_most absolute_above result m f =
          rw (← ap (λ (x : PercentMatch). x.0) (ok-injective f), append-nil)
            (AtMost-matching r o.last_price)
      at_most zscore_move result m f =
          rw (← ap (λ (x : PercentMatch). x.0) (ok-injective f), append-nil)
            (AtMost-filter r
              (λ x. zscore_rule_fires P x result settings.zscore_zero_variance_min_percent))
      at_most percent_change result m f = rw append-nil (AtMost-percent history o r m f)
      at_most spread_widen result m f =
          rw (← ap (λ (x : PercentMatch). x.0) (ok-injective f))
            (AtMost-filter r (λ x. spread_widen_rule_fires x o.bid_price o.ask_price))
      at_most (other _) result m f =
          rw (← ap (λ (x : PercentMatch). x.0) (ok-injective f)) (inl refl)

  -- What an evaluation that returns has done to the rule that the index holds alone: nothing, or it
  -- has created one notification, whose status the rule's cooldown decides, and dated the rule.
  pub data Fired (o : Observation) (k : ℕ) (t : RuleType) (r : AlertRule) (ns : List Notification)
      (index : RuleIndex) : Type 0 where
    quiet : ns ≡ [] → HoldsOnly k t r index → Fired o k t r ns index
    fired :
        (n : Notification)
        → ns ≡ n ∷ []
        → n.status ≡ status_of P o r
        → HoldsOnly k t (record r { last_fired_at = some o.observed_at }) index
        → Fired o k t r ns index

  touch-only :
      (k now : ℕ) (t : RuleType) (r : AlertRule)
      → touch_buckets r.id now ((k, only t r) ∷ [])
        ≡ (k, only t (record r { last_fired_at = some now })) ∷ []
  unfolding touch_buckets
  touch-only k now t r = ap (λ b. (k, b) ∷ []) (touched t)
    where
      touched :
          (t : RuleType)
          → touch_bucket r.id now (only t r) ≡ only t (record r { last_fired_at = some now })
      touched absolute_below = rw (==_refl r.id) refl
      touched absolute_above = rw (==_refl r.id) refl
      touched zscore_move = rw (==_refl r.id) refl
      touched percent_change = rw (==_refl r.id) refl
      touched spread_widen = rw (==_refl r.id) refl
      touched (other _) = refl

  finish-advances :
      (c : Context P) (r : AlertRule) (n : Notification) (s u : Session) (x : Option Notification)
      → finish P c r n s ≡ (ok x, u)
      → (some n ≡ x) × (touch_buckets r.id c.observed_at s.index.buckets ≡ u.index.buckets)
  unfolding finish advance
  finish-advances c r n s u x h = elim (Bool-cases (in_cooldown r c.observed_at)) [
    | inl cooling ↦ both (rw (finish, cooling) at h)
    | inr due ↦ elim (Result-cases (message_of P c r)) [
      | inr (e, fails) ↦ absurd (cc (value_of (rw (finish, deliver, due, fails) at h)))
      | inl (message, e) ↦ both (rw (finish, deliver, due, e) at h)
    ]
  ]
    where
      both :
          {v : Session}
          → (◌≡◌ {A = Result (Option Notification) × Session} (ok (some n), v) (ok x, u))
          → (some n ≡ x) × (v.index.buckets ≡ u.index.buckets)
      both g = (ok-injective (value_of g), ap (λ (v : Session). v.index.buckets) (state_of g))

  fire_candidate-Fired :
      (c : Context P) (k : ℕ) (t : RuleType) (r : AlertRule) (s u : Session)
      (x : Option Notification)
      → HoldsOnly k t r s.index
      → fire_candidate P c r s ≡ (ok x, u)
      → Fired c.observation k t r (collect P x []) u.index
  fire_candidate-Fired c k t r s u x only_r h = elim (Bool-cases (blocked P c.observation s.db r)) [
    | inl stop ↦
        let e = sym (fire_candidate-blocked c r s stop) ∙ h in
        quiet (ap (λ y. collect P y []) (sym (ok-injective (value_of e))))
          (ap (λ (v : Session). v.index.buckets) (sym (state_of e)) ∙ only_r)
    | inr go ↦
        let (e, f) =
          finish-advances c r (new_notification P c.observation r s.db)
            (with_notification P c.observation r s) u x (sym (fire_candidate-free c r s go) ∙ h) in
        fired (new_notification P c.observation r s.db) (ap (λ y. collect P y []) (sym e)) refl
          (sym f ∙ ap (touch_buckets r.id c.observed_at) only_r ∙ touch-only k c.observed_at t r)
  ]

  fire_candidates-Fired :
      (c : Context P) (k : ℕ) (t : RuleType) (r : AlertRule) (s u : Session)
      (rules : List AlertRule) (ns : List Notification)
      → HoldsOnly k t r s.index
      → AtMost r rules
      → fire_candidates P c rules s ≡ (ok ns, u)
      → Fired c.observation k t r ns u.index
  unfolding fire_candidates
  fire_candidates-Fired c k t r s u rules ns only_r (inl none_fires) h =
      let g = rw (none_fires, fire_candidates) at h in
      quiet (sym (ok-injective (value_of g)))
        (ap (λ (v : Session). v.index.buckets) (sym (state_of g)) ∙ only_r)
  fire_candidates-Fired c k t r s u rules ns only_r (inr fires) h =
      let (x, e, g) =
        and_then-eq-ok (fire_candidate P c r s) _ (rw (fires, fire_candidates) at h) in
      let v = (fire_candidate P c r s).1 in
      subst (λ l. Fired c.observation k t r l u.index) (ok-injective (value_of g))
        (subst (λ (w : Session). Fired c.observation k t r (collect P x []) w.index) (state_of g)
          (fire_candidate-Fired c k t r s v x only_r (λ i. (e i, v))))

  pub evaluate_rules_for_pair-Fired :
      (o : Observation) (k : ℕ) (t : RuleType) (r : AlertRule) (s u : Session)
      (ns : List Notification)
      → HoldsOnly k t r s.index
      → evaluate_rules_for_pair P settings o s ≡ (ok ns, u)
      → Fired o k t r ns u.index
  unfolding evaluate_rules_for_pair rules_for_pair lookup_bucket
  evaluate_rules_for_pair-Fired o k t r s u ns only_r h =
      elim (Result-cases
        (candidates_for P settings s.db.price_history o (rules_for_pair s.index o.pair.id))) [
          | inr (e, fails) ↦ absurd (cc (value_of (rw (evaluate_rules_for_pair, fails) at h)))
          | inl ((c, rules), e) ↦
              let (same, at_most) = candidates (rules_for_pair s.index o.pair.id) found c rules e in
              subst (λ x. Fired x k t r ns u.index) same
                (fire_candidates-Fired c k t r s u rules ns only_r at_most
                  (rw (evaluate_rules_for_pair, e) at h))
        ]
    where
      found :
          (rules_for_pair s.index o.pair.id ≡ only t r)
          ⊎ (rules_for_pair s.index o.pair.id ≡ empty_pair_rules)
      found = elim (Bool-cases (k == o.pair.id)) [
        | inl here ↦ inl (ap (λ g. lookup_bucket g o.pair.id) only_r ∙ rw here refl)
        | inr there ↦ inr (ap (λ g. lookup_bucket g o.pair.id) only_r ∙ rw there refl)
      ]

      candidates :
          (b : PairRules)
          → (b ≡ only t r) ⊎ (b ≡ empty_pair_rules)
          → (c : Context P) (rules : List AlertRule)
          → candidates_for P settings s.db.price_history o b ≡ ok (c, rules)
          → (c.observation ≡ o) × AtMost r rules
      candidates b (inl e) c rules h =
          candidates-AtMost s.db.price_history o t r c rules (rw e at h)
      candidates b (inr e) c rules h =
          candidates-AtMost s.db.price_history o (other "") r c rules (rw e at h)

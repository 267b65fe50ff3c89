-- ===== src/Evaluator/Idempotency.antt =====
-- rules/evaluator.py: the guards of `evaluate_rules_for_pair` against a repeated observation.
use dropwatch.Base.{
  ℕ, Bool, true, Option, List, [], ◌∷◌, ◌++◌, map, ◌≡◌, refl, sym, ◌∙◌, ap, arith, is_some, filter,
  All, Bool-cases, Result-cases, inl, inr, Result, ok, err, ok-injective, ◌>>=◌,
}
use mathlib.Core.Path.{subst}
use mathlib.Core.List.{map-append}
use text.Mathlib.TextPositions.{eq_refl}
use dropwatch.Decimal.{Decimal}
use dropwatch.Settings.{Settings}
use dropwatch.Models.{AlertRule, Db, PriceHistory, Notification, get_rule}
use dropwatch.Platform.{Platform}
use dropwatch.RuleIndex.{PairRules, rules_for_pair, lookup_bucket}
use dropwatch.Session.{Session, and_then-eq-ok}
use dropwatch.Evaluator.{
  rule_fires, matching_absolute_rules, zscore_rule_fires, percent_change_rule_fires,
  spread_widen_rule_fires,
}
use dropwatch.Evaluator.Firing.{
  Observation, Context, key_of, has_key, fire_candidate, fire_candidates, new_notification,
}
use dropwatch.Evaluator.Evaluate.{
  WindowCache, PercentMatch, note_past, past_for, match_percent, score_for, candidates_for,
  all_candidates, context_of, fire_all, evaluate_rules_for_pair,
}
use dropwatch.Evaluator.Frame.{
  undated, undated_bucket, lookup-undated, get_rule-undated, Extends, Extends-refl, blocked,
  fire_candidate-blocked, fire_candidate-free, fire_candidates-Extends, with_notification,
  finish-Extends,
}

-- Candidates that are blocked create nothing and change nothing.
fire_candidates-blocked :
    {P : Platform} (c : Context P) (rs : List AlertRule) (s : Session)
    → All (λ r. blocked P c.observation s.db r ≡ true) rs
    → fire_candidates P c rs s ≡ (ok [], s)
unfolding fire_candidates
fire_candidates-blocked c [] s h = refl
fire_candidates-blocked c (r ∷ rs) s h =
    rw (fire_candidate-blocked c r s h.0, fire_candidates-blocked c rs s h.1)

-- What blocks a candidate goes on blocking it.
blocked-Extends :
    (P : Platform) (o : Observation) {s t : Session} (r : AlertRule)
    → Extends s t
    → blocked P o s.db r ≡ true
    → blocked P o t.db r ≡ true
blocked-Extends P o {s} {t} r x h = ground (arith, x.keys (key_of P o r), same_rules, x.pairs)
  where
    same_rules : is_some (get_rule r.id t.db.alert_rules) ≡ is_some (get_rule r.id s.db.alert_rules)
    same_rules =
        sym (get_rule-undated r.id t.db.alert_rules)
        ∙ ap (λ rs. is_some (get_rule r.id rs)) x.rules
        ∙ get_rule-undated r.id s.db.alert_rules

has_key-append_self :
    (ns : List Notification) (n : Notification) → has_key n.idempotency_key (ns ++ n ∷ []) ≡ true
has_key-append_self [] n = rw eq_refl
has_key-append_self (m ∷ ns) n = rw (has_key-append_self ns n) (ground arith)

module _ {P : Platform} (c : Context P) where
  -- A candidate is blocked once the loop has seen it.
  fire_candidate-blocks :
      (r : AlertRule) (s : Session) → blocked P c.observation (fire_candidate P c r s).1.db r ≡ true
  fire_candidate-blocks r s = elim (Bool-cases (blocked P c.observation s.db r)) [
    | inl stop ↦ rw (fire_candidate-blocked c r s stop) stop
    | inr go ↦
        rw (fire_candidate-free c r s go)
          (blocked-Extends P c.observation r (finish-Extends c r _ (Extends-refl _)) present)
  ]
    where
      present : blocked P c.observation (with_notification P c.observation r s).db r ≡ true
      present =
          rw (has_key-append_self s.db.notifications (new_notification P c.observation r s.db))
            (ground arith)

  fire_candidates-blocks :
      (rs : List AlertRule) (s t : Session) (ns : List Notification)
      → fire_candidates P c rs s ≡ (ok ns, t)
      → All (λ r. blocked P c.observation t.db r ≡ true) rs
  unfolding fire_candidates
  fire_candidates-blocks [] s t ns h = tt
  fire_candidates-blocks (r ∷ rs) s t ns h =
      let s1 = (fire_candidate P c r s).1 in
      let (created, _, h1) = and_then-eq-ok (fire_candidate P c r s) _ h in
      let (rest, e, h2) = and_then-eq-ok (fire_candidates P c rs s1) _ h1 in
      let last : (fire_candidates P c rs s1).1 ≡ t = ap (λ (p : Result _ × Session). p.1) h2 in
      (
        subst (λ u. blocked P c.observation u.db r ≡ true) last
            (blocked-Extends P c.observation r (fire_candidates-Extends c rs s1)
              (fire_candidate-blocks r s)),
        fire_candidates-blocks rs s1 t rest (λ i. (e i, last i)),
      )

-- Rules that say the same, whenever they fired, are treated alike.
undated-key :
    (P : Platform) (o : Observation) (r : AlertRule) → key_of P o (undated r) ≡ key_of P o r
unfolding key_of
undated-key P o r = refl

undated-matching :
    (rs : List AlertRule) (price : Decimal)
    → matching_absolute_rules (map undated rs) price
      ≡ map undated (matching_absolute_rules rs price)
unfolding matching_absolute_rules rule_fires
undated-matching [] price = refl
undated-matching (r ∷ rs) price = elim (Bool-cases (rule_fires r price)) [
  | inl fires ↦ rw (fires, undated-matching rs price)
  | inr stop ↦ rw stop
]

undated-filter :
    (p : AlertRule → Bool)
    → ((r : AlertRule) → p (undated r) ≡ p r)
    → (rs : List AlertRule) → filter p (map undated rs) ≡ map undated (filter p rs)
undated-filter p same [] = refl
undated-filter p same (r ∷ rs) = elim (Bool-cases (p r)) [
  | inl keep ↦ rw (same r, keep, undated-filter p same rs)
  | inr skip ↦ rw (same r, skip, undated-filter p same rs)
]

abbrev undated_match : PercentMatch → PercentMatch
undated_match (matched, by_id) = (map undated matched, by_id)

abbrev map_ok : {A B : Type 0} → (A → B) → Result A → Result B
map_ok f (ok a) = ok (f a)
map_ok f (err e) = err e

note_past-undated :
    (r : AlertRule) (price : Decimal) (past : Option Decimal) (m : PercentMatch)
    → note_past (undated r) price past (undated_match m) ≡ undated_match (note_past r price past m)
unfolding percent_change_rule_fires
note_past-undated r price past (matched, by_id) =
    elim (Bool-cases (percent_change_rule_fires r price past)) [
      | inl fires ↦ rw fires
      | inr stop ↦ rw stop
    ]

map_ok-bind :
    (f g : PercentMatch → PercentMatch) (m : Result PercentMatch)
    → ((x : PercentMatch) → g (undated_match x) ≡ undated_match (f x))
    → (map_ok undated_match m >>= λ x. ok (g x)) ≡ map_ok undated_match (m >>= λ x. ok (f x))
map_ok-bind f g (ok x) h = ap ok (h x)
map_ok-bind f g (err e) h = refl

module _ (history : List PriceHistory) (o : Observation) where
  undated-match_percent :
      (rs : List AlertRule) (cache : WindowCache)
      → match_percent history o (map undated rs) cache
        ≡ map_ok undated_match (match_percent history o rs cache)
  unfolding match_percent percent_change_rule_fires
  undated-match_percent [] cache = refl
  undated-match_percent (r ∷ rs) cache =
      elim (Result-cases (past_for history o r.window_seconds cache)) [
        | inr (e, fails) ↦ rw fails
        | inl (found, e) ↦
            rw (e, undated-match_percent rs found.1)
              (map_ok-bind (note_past r o.last_price found.0)
                (note_past (undated r) o.last_price found.0) (match_percent history o rs found.1)
                (note_past-undated r o.last_price found.0))
      ]

  undated-score_for :
      (P : Platform) (settings : Settings) (pair_id : ℕ) (rs : List AlertRule)
      → score_for P settings history pair_id (map undated rs)
        ≡ score_for P settings history pair_id rs
  unfolding score_for
  undated-score_for P settings pair_id [] = refl
  undated-score_for P settings pair_id (r ∷ rs) = refl

  module _ (P : Platform) (settings : Settings) where
    abbrev undated_candidates : Context P × List AlertRule → Context P × List AlertRule
    undated_candidates (c, rs) = (c, map undated rs)

    undated-all_candidates :
        (rules : PairRules) (result : Option _) (matched : List AlertRule)
        → all_candidates P settings o (undated_bucket rules) result (map undated matched)
          ≡ map undated (all_candidates P settings o rules result matched)
    unfolding zscore_rule_fires spread_widen_rule_fires
    undated-all_candidates rules result matched =
        let scored =
          undated-filter
            (λ r. zscore_rule_fires P r result settings.zscore_zero_variance_min_percent)
            (λ r. refl) rules.zscore_move in
        let spread =
          undated-filter (λ r. spread_widen_rule_fires r o.bid_price o.ask_price) (λ r. refl)
            rules.spread_widen in
        rw
          (
            undated-matching rules.absolute_below o.last_price,
            undated-matching rules.absolute_above o.last_price,
            scored,
            spread,
          )
          (simp map-append)

    pub undated-candidates_for :
        (rules : PairRules)
        → candidates_for P settings history o (undated_bucket rules)
          ≡ map_ok undated_candidates (candidates_for P settings history o rules)
    unfolding candidates_for
    undated-candidates_for rules =
        rw
          (
            undated-score_for P settings o.pair.id rules.zscore_move,
            undated-match_percent rules.percent_change [],
          )
          (elim (Result-cases (score_for P settings history o.pair.id rules.zscore_move)) [
            | inr (e, fails) ↦ rw fails
            | inl (result, scored) ↦
                elim (Result-cases (match_percent history o rules.percent_change [])) [
                  | inr (e, fails) ↦ rw (scored, fails)
                  | inl ((matched, by_id), found) ↦
                      rw (scored, found)
                        (ap (λ rs. ok (context_of P settings o result by_id, rs))
                          (undated-all_candidates rules result matched))
                ]
          ])

-- Rules that say the same have the same candidates, up to when they fired.
pub candidates_for-undated :
    (P : Platform) (settings : Settings) (history : List PriceHistory) (o : Observation)
    (rules rules' : PairRules) (c : Context P) (rs : List AlertRule)
    → undated_bucket rules' ≡ undated_bucket rules
    → candidates_for P settings history o rules ≡ ok (c, rs)
    → (rs' : List AlertRule) × (candidates_for P settings history o rules' ≡ ok (c, rs'))
      × (map undated rs' ≡ map undated rs)
candidates_for-undated P settings history o rules rules' c rs same h =
    invert (candidates_for P settings history o rules') (
      sym (undated-candidates_for history o P settings rules')
      ∙ ap (candidates_for P settings history o) same
      ∙ undated-candidates_for history o P settings rules
      ∙ ap (map_ok (undated_candidates history o P settings)) h)
  where
    invert :
        (m : Result (Context P × List AlertRule))
        → map_ok (undated_candidates history o P settings) m ≡ ok (c, map undated rs)
        → (rs' : List AlertRule) × (m ≡ ok (c, rs')) × (map undated rs' ≡ map undated rs)
    invert (ok (c', rs')) e = (rs', λ i. ok ((ok-injective e i).0, rs'), λ i. (ok-injective e i).1)
    invert (err _) e = cc

All-undated :
    (p : AlertRule → Bool)
    → ((r : AlertRule) → p (undated r) ≡ p r)
    → (rs rs' : List AlertRule) → map undated rs' ≡ map undated rs
    → All (λ r. p r ≡ true) rs
    → All (λ r. p r ≡ true) rs'
All-undated p same [] [] e h = tt
All-undated p same [] (r' ∷ rs') e h = cc
All-undated p same (r ∷ rs) [] e h = cc
All-undated p same (r ∷ rs) (r' ∷ rs') e h =
    (sym (same r') ∙ ap p (head_eq e) ∙ same r ∙ h.0, All-undated p same rs rs' (tail_eq e) h.1)
  where
    head_eq : undated r' ∷ map undated rs' ≡ undated r ∷ map undated rs → undated r' ≡ undated r
    head_eq e = cc

    tail_eq :
        undated r' ∷ map undated rs' ≡ undated r ∷ map undated rs → map undated rs' ≡ map undated rs
    tail_eq e = cc

blocked-undated :
    (P : Platform) (o : Observation) (db : Db) (r : AlertRule)
    → blocked P o db (undated r) ≡ blocked P o db r
unfolding key_of
blocked-undated P o db r = refl

module _ (P : Platform) (settings : Settings) (o : Observation) where
  -- An evaluation that did not raise, made again at once with the same observation and the same
  -- rivals, creates nothing and changes nothing: not the database, not the index.
  pub evaluate_rules_for_pair-again :
      (s t : Session) (ns : List Notification)
      → evaluate_rules_for_pair P settings o s ≡ (ok ns, t)
      → evaluate_rules_for_pair P settings o t ≡ (ok [], t)
  unfolding evaluate_rules_for_pair rules_for_pair
  evaluate_rules_for_pair-again s t ns h =
      elim (Result-cases (candidates_for P settings s.db.price_history o rules)) [
        | inr (e, fails) ↦ absurd (cc (ap (λ (p : Result _ × Session). p.0) (rw fails at h)))
        | inl ((c, rs), found) ↦ again c rs found (rw found at h)
      ]
    where
      rules : PairRules
      rules = lookup_bucket s.index.buckets o.pair.id

      again :
          (c : Context P) (rs : List AlertRule)
          → candidates_for P settings s.db.price_history o rules ≡ ok (c, rs)
          → fire_candidates P c rs s ≡ (ok ns, t)
          → evaluate_rules_for_pair P settings o t ≡ (ok [], t)
      again c rs found fired =
          let x =
            subst (λ (u : Session). Extends s u) (ap (λ (p : Result _ × Session). p.1) fired)
              (fire_candidates-Extends c rs s) in
          let same =
            sym (lookup-undated t.index.buckets o.pair.id)
            ∙ ap (λ g. lookup_bucket g o.pair.id) x.index
            ∙ lookup-undated s.index.buckets o.pair.id in
          let (rs', found', e) =
            candidates_for-undated P settings s.db.price_history o rules
              (lookup_bucket t.index.buckets o.pair.id) c rs same found in
          let blocks =
            All-undated (blocked P c.observation t.db) (blocked-undated P c.observation t.db) rs rs'
              e (fire_candidates-blocks c rs s t ns fired) in
          let here = lookup_bucket t.index.buckets o.pair.id in
          ap (λ m. fire_all P settings m t)
            (ap (λ history. candidates_for P settings history o here) x.history ∙ found')
          ∙ fire_candidates-blocked c rs' t blocks

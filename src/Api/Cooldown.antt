-- ===== src/Api/Cooldown.antt =====
-- api/routes/rules.py: the cooldown of a rule that is replayed over the past.
use mathlib.Core.Path.{subst}
use dropwatch.Base.{
  ℕ, ◌+◌, ◌*◌, ◌≤◌, ◌<◌, true, false, Option, none, some, List, [], ◌∷◌, ◌++◌, map, length, All,
  All-map, ◌≡◌, refl, sym, ◌∙◌, ap, arith, leb→le, Bool-cases, Result-cases, ◌⊎◌, inl, inr, Result,
  ok, err, ok-injective, >>=-eq-ok, value_of,
}
use dropwatch.Base.Sorting.{IsSorted, sorted-IsSorted}
use dropwatch.Settings.{Settings}
use dropwatch.Models.{
  RuleType, Status, pending, suppressed_cooldown, AlertRule, Pair, User, PriceHistory, Notification,
  Db, get_pair,
}
use dropwatch.Platform.{Platform}
use dropwatch.RuleIndex.{RuleIndex, new_index, replace_with_rules}
use dropwatch.Session.{Session, and_then-eq-ok}
use dropwatch.Evaluator.{in_cooldown}
use dropwatch.Evaluator.Firing.{Observation, status_of}
use dropwatch.Evaluator.Evaluate.{evaluate_rules_for_pair}
use dropwatch.Evaluator.Single.{
  HoldsOnly, replace_with_rules-HoldsOnly, Fired, quiet, fired, evaluate_rules_for_pair-Fired,
}
use dropwatch.Api.Rules.{validate_rule}
use dropwatch.Api.Backtest.{
  BacktestRequest, BacktestFireEvent, BacktestResponse, success, temp_rule, Fire, dated,
  oldest_first, rows_since, replay, report, with_rule, replayed, reported, for_pair, backtest_rule,
  lookback_ok, span_days, rate,
}

-- The fire comes after `last`: it is delivered if the cooldown has passed since, suppressed if not.
abbrev pub IsSpaced : (cooldown : ℕ) (last : Option ℕ) (at : ℕ) → Status → Type 0
IsSpaced cooldown none at status = status ≡ pending
IsSpaced cooldown (some last) at status =
    ((status ≡ pending) × (last + cooldown * 1000000 ≤ at))
    ⊎ ((status ≡ suppressed_cooldown) × (last ≤ at) × (at < last + cooldown * 1000000))

-- Each event is spaced from the one before it, whatever the status of that.
abbrev pub AllSpaced : (cooldown : ℕ) (last : Option ℕ) → List BacktestFireEvent → Type 0
AllSpaced cooldown last [] = Unit
AllSpaced cooldown last (e ∷ es) =
    IsSpaced cooldown last e.triggered_at e.status × AllSpaced cooldown (some e.triggered_at) es

abbrev event_of : Fire → BacktestFireEvent
event_of f = record { triggered_at = f.1; detected_price = f.0.detected_price; status = f.0.status }

-- The row is not older than the last fire.
abbrev IsAfter : Option ℕ → PriceHistory → Type 0
IsAfter none row = Unit
IsAfter (some last) row = last ≤ row.observed_at

status-IsSpaced :
    (P : Platform) (o : Observation) (r : AlertRule) (last : Option ℕ) (row : PriceHistory)
    → r.last_fired_at ≡ last
    → o.observed_at ≡ row.observed_at
    → IsAfter last row
    → IsSpaced r.cooldown_seconds last row.observed_at (status_of P o r)
unfolding in_cooldown
status-IsSpaced P o r none row e f h = rw e refl
status-IsSpaced P o r (some last) row e f h = rw (e, f) (ground arith)

later_rows :
    (row : PriceHistory) (rows : List PriceHistory)
    → All (λ x. oldest_first row x ≡ true) rows
    → All (IsAfter (some row.observed_at)) rows
later_rows row rows h = All-map (λ x. leb→le row.observed_at x.observed_at) rows h

module _ (P : Platform) (settings : Settings) where
  abbrev at_row : Pair → PriceHistory → Observation
  at_row pair row = record {
    pair = pair;
    last_price = row.last_price;
    bid_price = row.bid_price;
    ask_price = row.ask_price;
    observed_at = row.observed_at;
    race = λ _. false;
  }

  -- The rule and its last fire as the rest of the replay finds them.
  abbrev Continues :
      RuleType → (k : ℕ) → (cooldown : ℕ) → List PriceHistory → RuleIndex → List Fire → Type 0
  Continues t k cooldown rows index rest =
      (r : AlertRule)
      → r.cooldown_seconds ≡ cooldown
      → HoldsOnly k t r index
      → All (IsAfter r.last_fired_at) rows
      → AllSpaced cooldown r.last_fired_at (map event_of rest)

  dated-AllSpaced :
      (pair : Pair) (row : PriceHistory) (rows : List PriceHistory) (k : ℕ) (t : RuleType)
      (r : AlertRule) (index : RuleIndex) (created : List Notification) (rest : List Fire)
      → All (IsAfter r.last_fired_at) (row ∷ rows)
      → IsSorted oldest_first (row ∷ rows)
      → Continues t k r.cooldown_seconds rows index rest
      → Fired P settings (at_row pair row) k t r created index
      → AllSpaced r.cooldown_seconds r.last_fired_at
          (map event_of (dated row.observed_at created ++ rest))
  dated-AllSpaced pair row rows k t r index created rest after sorted_rows continues
        (quiet none_created only_r) =
      rw none_created (continues r refl only_r after.1)
  dated-AllSpaced pair row rows k t r index created rest after sorted_rows continues
        (fired n one status only_r) =
      rw one (
        subst (IsSpaced r.cooldown_seconds r.last_fired_at row.observed_at) (sym status)
            (status-IsSpaced P (at_row pair row) r r.last_fired_at row refl refl after.0),
        continues (record r { last_fired_at = some row.observed_at }) refl only_r
            (later_rows row rows sorted_rows.0),
      )

  replay-AllSpaced :
      (pair : Pair) (rows : List PriceHistory) (k : ℕ) (t : RuleType) (r : AlertRule)
      (s u : Session) (fires : List Fire)
      → HoldsOnly k t r s.index
      → All (IsAfter r.last_fired_at) rows
      → IsSorted oldest_first rows
      → replay P settings pair rows s ≡ (ok fires, u)
      → AllSpaced r.cooldown_seconds r.last_fired_at (map event_of fires)
  unfolding replay
  replay-AllSpaced pair [] k t r s u fires only_r after sorted_rows h =
      subst (λ l. AllSpaced r.cooldown_seconds r.last_fired_at (map event_of l))
        (ok-injective (value_of h)) tt
  replay-AllSpaced pair (row ∷ rows) k t r s u fires only_r after sorted_rows h =
      let step = evaluate_rules_for_pair P settings (at_row pair row) s in
      let (created, f, h1) = and_then-eq-ok step _ h in
      let (rest, g, h2) = and_then-eq-ok (replay P settings pair rows step.1) _ h1 in
      let v = (replay P settings pair rows step.1).1 in
      subst (λ l. AllSpaced r.cooldown_seconds r.last_fired_at (map event_of l))
        (ok-injective (value_of h2))
        (dated-AllSpaced pair row rows k t r step.1.index created rest after sorted_rows
          (λ r' same only_r' after'.
            subst (λ c. AllSpaced c r'.last_fired_at (map event_of rest)) same
              (replay-AllSpaced pair rows k t r' step.1 v rest only_r' after' sorted_rows.1
                (λ i. (g i, v))))
          (evaluate_rules_for_pair-Fired P settings (at_row pair row) k t r s step.1 created only_r
            (λ i. (f i, step.1))))

All-IsAfter : (rows : List PriceHistory) → All (IsAfter none) rows
All-IsAfter [] = tt
All-IsAfter (row ∷ rows) = (tt, All-IsAfter rows)

oldest_first_flip : (x y : PriceHistory) → oldest_first x y ≡ false → oldest_first y x ≡ true
oldest_first_flip x y h = ground arith

oldest_first_trans :
    (x y z : PriceHistory)
    → oldest_first x y ≡ true
    → oldest_first y z ≡ true
    → oldest_first x z ≡ true
oldest_first_trans x y z h k = ground arith

rows_since-IsSorted :
    (now days k : ℕ) (history : List PriceHistory)
    → IsSorted oldest_first (rows_since now days k history)
unfolding rows_since
rows_since-IsSorted now days k history =
    sorted-IsSorted oldest_first oldest_first_flip oldest_first_trans _

success-injective : {A : Type 0} {a b : A} → success a ≡ success b → a ≡ b
success-injective h = cc

module _ (P : Platform) (settings : Settings) where
  report-fires :
      (body : BacktestRequest) (rows : List PriceHistory) (fires : List Fire)
      (response : BacktestResponse P.Float)
      → report P settings body rows fires ≡ ok response
      → map event_of fires ≡ response.fires
  unfolding report
  report-fires body rows fires response h =
      let (span, e, h1) = >>=-eq-ok (span_days P settings rows) _ h in
      let (per_day, f, h2) = >>=-eq-ok (rate P settings (length fires) span) _ h1 in
      ap (λ (x : BacktestResponse P.Float). x.fires) (ok-injective h2)

  -- The events of a backtest that is answered are spaced by the cooldown of the request: the first is
  -- delivered; each later one is delivered if the cooldown has passed since the event before it, which
  -- may itself be suppressed, and is suppressed otherwise; and no event comes before the one ahead of
  -- it.
  pub backtest_rule-AllSpaced :
      (body : BacktestRequest) (now : ℕ) (db : Db) (response : BacktestResponse P.Float)
      → backtest_rule P settings body now db ≡ success response
      → AllSpaced body.cooldown_seconds none response.fires
  unfolding backtest_rule
  backtest_rule-AllSpaced body now db response h =
      elim (Bool-cases (lookback_ok body.lookback_days)) [
        | inr out_of_bounds ↦ absurd (cc (rw (backtest_rule, out_of_bounds) at h))
        | inl bounded ↦ elim (Result-cases (validate_rule (temp_rule body db.next_id 0 db.now))) [
          | inr (e, bad) ↦ absurd (cc (rw (backtest_rule, bounded, bad) at h))
          | inl (_, good) ↦
              found (get_pair body.pair_id db.pairs) db.users
                (rw (backtest_rule, bounded, good) at h)
        ]
      ]
    where
      answered :
          (pair : Pair) (rule : AlertRule) (s : Session) (out : Result (List Fire) × Session)
          → HoldsOnly rule.pair_id rule.rule_type rule s.index
          → rule.last_fired_at ≡ none
          → rule.cooldown_seconds ≡ body.cooldown_seconds
          → replay P settings pair
              (rows_since now body.lookback_days body.pair_id db.price_history)
              s
            ≡ out
          → reported P settings body
              (rows_since now body.lookback_days body.pair_id db.price_history)
              out
            ≡ success response
          → AllSpaced body.cooldown_seconds none response.fires
      answered pair rule s (err e, u) only_r never same r h = absurd (cc h)
      answered pair rule s (ok fires, u) only_r never same r h =
          let rows = rows_since now body.lookback_days body.pair_id db.price_history in
          elim (Result-cases (report P settings body rows fires)) [
            | inr (e, fails) ↦ absurd (cc (rw fails at h))
            | inl (x, e) ↦
                subst (AllSpaced body.cooldown_seconds none)
                  (report-fires body rows fires x e
                    ∙ ap (λ (y : BacktestResponse P.Float). y.fires)
                        (success-injective (rw e at h)))
                  (subst (λ c. AllSpaced c none (map event_of fires)) same
                    (subst (λ l. AllSpaced rule.cooldown_seconds l (map event_of fires)) never
                      (replay-AllSpaced P settings pair rows rule.pair_id rule.rule_type rule s u
                        fires only_r
                        (subst (λ l. All (IsAfter l) rows) (sym never) (All-IsAfter rows))
                        (rows_since-IsSorted now body.lookback_days body.pair_id db.price_history)
                        r)))
          ]

      indexed :
          (pair : Pair) (rule : AlertRule) (out : Result (Unit {0}) × RuleIndex)
          → replace_with_rules (rule ∷ []) new_index ≡ out
          → rule.last_fired_at ≡ none
          → rule.cooldown_seconds ≡ body.cooldown_seconds
          → replayed P settings body now pair (with_rule P settings rule db) out ≡ success response
          → AllSpaced body.cooldown_seconds none response.fires
      indexed pair rule (err e, index) r never same h = absurd (cc h)
      indexed pair rule (ok _, index) r never same h =
          answered pair rule (record { db = with_rule P settings rule db; index = index }) _
            (replace_with_rules-HoldsOnly rule index r) never same refl h

      found :
          (p : Option Pair) (users : List User)
          → for_pair P settings body now db p users ≡ success response
          → AllSpaced body.cooldown_seconds none response.fires
      found none users h = absurd (cc h)
      found (some p) [] h = absurd (cc h)
      found (some p) (user ∷ users) h =
          indexed p (temp_rule body db.next_id user.id db.now) _ refl refl refl h

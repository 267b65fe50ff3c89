-- ===== src/Api/Backtest.antt =====
-- api/routes/rules.py: the replay of a rule that is not saved over the stored prices of its pair.
use dropwatch.Base.{
  ℕ, ◌+◌, ◌*◌, ◌-◌, Bool, true, false, ◌&&◌, Option, none, some, List, [], ◌∷◌, ◌++◌, map, ◌==◌,
  leb, ltb, filter, length, if◌then◌else◌, Result, ok, err, ◌>>=◌,
}
use dropwatch.Base.Sorting.{sorted}
use dropwatch.Decimal.{Decimal}
use dropwatch.Settings.{Settings}
use dropwatch.Models.{
  RuleType, Direction, Status, pending, suppressed_cooldown, sent, AlertRule, Pair, User,
  PriceHistory, Notification, Db, get_pair,
}
use dropwatch.Platform.{Platform}
use dropwatch.RuleIndex.{RuleIndex, new_index, replace_with_rules}
use dropwatch.Session.{Session, Exec, and_then}
use dropwatch.Evaluator.Evaluate.{evaluate_rules_for_pair}
use dropwatch.Api.Rules.{validate_rule}

pub record BacktestRequest : Type 0 where
  pub pair_id : ℕ
  pub rule_type : RuleType
  pub threshold : Option Decimal
  pub percent : Option Decimal
  pub window_seconds : Option ℕ
  pub sigma : Option Decimal
  pub direction : Option Direction
  pub cooldown_seconds : ℕ
  pub lookback_days : ℕ

pub record BacktestFireEvent : Type 0 where
  pub triggered_at : ℕ
  pub detected_price : Decimal
  pub status : Status

pub record BacktestResponse (Float : Type 0) : Type 0 where
  pub pair_id : ℕ
  pub rule_type : RuleType
  pub lookback_days : ℕ
  pub observations_replayed : ℕ
  pub data_start : Option ℕ
  pub data_end : Option ℕ
  pub fire_count : ℕ
  pub fires_per_day : Float
  pub post_cooldown_fire_count : ℕ
  pub fires : List BacktestFireEvent

-- What the handler answers: 422, 404, 500 for a database without a user, a raise, or the response.
pub data Answer (A : Type 0) : Type 0 where
  unprocessable pair_not_found no_user_seeded : Answer A
  raised : Answer A
  success : A → Answer A

-- The hypothetical rule, in the name of some user.
abbrev pub temp_rule : BacktestRequest → (id user_id now : ℕ) → AlertRule
temp_rule body id user_id now = record {
  id = id;
  user_id = user_id;
  pair_id = body.pair_id;
  rule_type = body.rule_type;
  threshold = body.threshold;
  percent = body.percent;
  window_seconds = body.window_seconds;
  sigma = body.sigma;
  direction = body.direction;
  cooldown_seconds = body.cooldown_seconds;
  is_enabled = true;
  last_fired_at = none;
  created_at = now;
}

abbrev pub oldest_first : PriceHistory → PriceHistory → Bool
oldest_first a b = leb a.observed_at b.observed_at

-- The rows since the cutoff `now - lookback_days`, in order.
unfoldable pub rows_since : (now lookback_days pair_id : ℕ) → List PriceHistory → List PriceHistory
rows_since now lookback_days pair_id history = sorted oldest_first (
    filter (λ h. h.pair_id == pair_id && leb now (h.observed_at + lookback_days * 86400000000))
      history)

abbrev pub Fire : Type 0
Fire = Notification × ℕ

abbrev pub dated : ℕ → List Notification → List Fire
dated t = map (λ n. (n, t))

abbrev pub is_pending : Status → Bool
is_pending pending = true
is_pending suppressed_cooldown = false
is_pending sent = false

abbrev pub pending_count : List Fire → ℕ
pending_count fires = length (filter (λ f. is_pending f.0.status) fires)

abbrev pub last_observed : PriceHistory → List PriceHistory → ℕ
last_observed h [] = h.observed_at
last_observed h (g ∷ rest) = last_observed g rest

-- `lookback_days: int = Field(gt=0, le=365)`
abbrev pub lookback_ok : ℕ → Bool
lookback_ok days = ltb 0 days && leb days 365

module _ (P : Platform) (settings : Settings) where
  open P use {Float, of_int, divide, less}

  -- The loop. No other transaction knows the id of the rule, hence none commits one of its keys.
  unfoldable pub replay : Pair → List PriceHistory → Exec (List Fire)
  replay pair [] s = (ok [], s)
  replay pair (row ∷ rows) s =
      and_then
        (evaluate_rules_for_pair P settings
          (record {
            pair = pair;
            last_price = row.last_price;
            bid_price = row.bid_price;
            ask_price = row.ask_price;
            observed_at = row.observed_at;
            race = λ _. false;
          })
          s)
        (λ created t.
          and_then (replay pair rows t)
            (λ fires u. (ok (dated row.observed_at created ++ fires), u)))

  -- `timedelta.total_seconds() / 86400`
  abbrev pub span_days : List PriceHistory → Result Float
  span_days [] = ok (of_int 0)
  span_days (h ∷ rest) =
      divide (of_int (last_observed h rest - h.observed_at)) (of_int 1000000) >>= λ seconds.
      divide seconds (of_int 86400)

  abbrev pub rate : (fire_count : ℕ) → Float → Result Float
  rate fire_count span =
      if less (of_int 0) span then divide (of_int fire_count) span else ok (of_int 0)

  abbrev pub start_of : List PriceHistory → Option ℕ
  start_of [] = none
  start_of (h ∷ rest) = some h.observed_at

  abbrev pub end_of : List PriceHistory → Option ℕ
  end_of [] = none
  end_of (h ∷ rest) = some (last_observed h rest)

  unfoldable pub report :
      BacktestRequest → List PriceHistory → List Fire → Result (BacktestResponse Float)
  report body rows fires = do
    span ← span_days rows
    per_day ← rate (length fires) span
    ok (record {
      pair_id = body.pair_id;
      rule_type = body.rule_type;
      lookback_days = body.lookback_days;
      observations_replayed = length rows;
      data_start = start_of rows;
      data_end = end_of rows;
      fire_count = length fires;
      fires_per_day = per_day;
      post_cooldown_fire_count = pending_count fires;
      fires =
          map
            (λ f. record {
              triggered_at = f.1;
              detected_price = f.0.detected_price;
              status = f.0.status;
            })
            fires;
    })

  -- The database with the temporary rule flushed, and the index of that rule alone.
  abbrev pub with_rule : AlertRule → Db → Db
  with_rule rule db = record db {
    alert_rules = db.alert_rules ++ rule ∷ [];
    next_id = db.next_id + 1;
  }

  abbrev pub answer_of : {A : Type 0} → Result A → Answer A
  answer_of (ok a) = success a
  answer_of (err _) = raised

  abbrev pub reported :
      BacktestRequest
      → List PriceHistory
      → Result (List Fire) × Session
      → Answer (BacktestResponse Float)
  reported body rows (ok fires, s) = answer_of (report body rows fires)
  reported body rows (err _, s) = raised

  abbrev pub replayed :
      BacktestRequest
      → (now : ℕ) → Pair
      → Db
      → Result (Unit {0}) × RuleIndex
      → Answer (BacktestResponse Float)
  replayed body now pair db (ok _, index) =
      let rows = rows_since now body.lookback_days body.pair_id db.price_history in
      reported body rows (replay pair rows (record { db = db; index = index }))
  replayed body now pair db (err _, index) = raised

  abbrev pub for_pair :
      BacktestRequest → (now : ℕ) → Db → Option Pair → List User → Answer (BacktestResponse Float)
  for_pair body now db none users = pair_not_found
  for_pair body now db (some pair) [] = no_user_seeded
  for_pair body now db (some pair) (user ∷ _) =
      let rule = temp_rule body db.next_id user.id db.now in
      replayed body now pair (with_rule rule db) (replace_with_rules (rule ∷ []) new_index)

  -- The session is closed without a commit: the handler has an answer and no effect on the rows.
  unfoldable pub backtest_rule : BacktestRequest → (now : ℕ) → Db → Answer (BacktestResponse Float)
  unfolding report replay rows_since
  backtest_rule body now db =
      if lookback_ok body.lookback_days
      then elim (validate_rule (temp_rule body db.next_id 0 db.now)) [
        | err _ ↦ unprocessable
        | ok _ ↦ for_pair body now db (get_pair body.pair_id db.pairs) db.users
      ]
      else unprocessable

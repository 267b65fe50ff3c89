-- ===== src/Evaluator/Firing.antt =====
-- rules/evaluator.py: the loop over the candidates in `evaluate_rules_for_pair`: the two guards, the
-- insert under its savepoint, the outbox event, and the advance of `last_fired_at`.
use dropwatch.Base.{
  ℕ, ◌+◌, Bool, not, ◌||◌, Option, none, some, List, [], ◌∷◌, ◌++◌, map, String, ◌==◌,
  if◌then◌else◌, any, is_some, Result, ok,
}
use text.Mathlib.Text.{◌==◌ as str_eq}
use dropwatch.Decimal.{Decimal}
use dropwatch.Models.{
  RuleType, zscore_move, spread_widen, Status, pending, suppressed_cooldown, AlertRule, Pair,
  Notification, Payload, OutboxEvent, Db, get_rule, get_pair,
}
use dropwatch.Platform.{Platform}
use dropwatch.Zscore.{ZScoreResult}
use dropwatch.RuleIndex.{PairRules, Buckets}
use dropwatch.Session.{Session, Exec, pure, lift, and_then, ◌>>=◌}
use dropwatch.Evaluator.{in_cooldown}
use dropwatch.Evaluator.Text.{detected_state_hash, idempotency_key, format_message}

-- The arguments of one evaluation. `race` tells of each idempotency key whether another transaction
-- has committed it between the lookup and the insert.
pub record Observation : Type 0 where
  pub pair : Pair
  pub last_price : Decimal
  pub bid_price : Decimal
  pub ask_price : Decimal
  pub observed_at : ℕ
  pub race : String → Bool

-- `SELECT id FROM notifications WHERE idempotency_key = key`, as whether there is one.
abbrev pub has_key : String → List Notification → Bool
has_key key = any (λ n. str_eq n.idempotency_key key)

-- The insert under its savepoint: `none` is an `IntegrityError`, from the unique index on the key or
-- from a foreign key.
unfoldable pub insert_notification : (race : String → Bool) → Notification → Db → Option Db
insert_notification race n db =
    if race n.idempotency_key
      || has_key n.idempotency_key db.notifications
      || not (is_some (get_rule n.rule_id db.alert_rules))
      || not (is_some (get_pair n.pair_id db.pairs))
    then none
    else some (record db { notifications = db.notifications ++ n ∷ []; next_id = db.next_id + 1 })

-- `rule.last_fired_at = t` of the rule with this id.
abbrev pub fired_at : (rule_id t : ℕ) → AlertRule → AlertRule
fired_at rule_id t r = if r.id == rule_id then record r { last_fired_at = some t } else r

abbrev pub touch_bucket : (rule_id t : ℕ) → PairRules → PairRules
touch_bucket k t b = record {
  absolute_below = map (fired_at k t) b.absolute_below;
  absolute_above = map (fired_at k t) b.absolute_above;
  zscore_move = map (fired_at k t) b.zscore_move;
  percent_change = map (fired_at k t) b.percent_change;
  spread_widen = map (fired_at k t) b.spread_widen;
}

-- The mutation of the rule's object in the index: one object for each id.
unfoldable pub touch_buckets : (rule_id t : ℕ) → Buckets → Buckets
touch_buckets k t [] = []
touch_buckets k t ((p, b) ∷ rest) = (p, touch_bucket k t b) ∷ touch_buckets k t rest

-- The mutation in memory, and the `UPDATE` of the row.
unfoldable pub advance : (rule_id t : ℕ) → Session → Session
unfolding touch_buckets
advance k t s = record {
  db = record (s.db) { alert_rules = map (fired_at k t) s.db.alert_rules };
  index = record { buckets = touch_buckets k t s.index.buckets };
}

-- `past_price_by_rule_id.get(rule.id)`
unfoldable pub past_price_of : List (ℕ × Option Decimal) → ℕ → Option Decimal
past_price_of [] k = none
past_price_of ((j, past) ∷ rest) k = if j == k then past else past_price_of rest k

module _ (P : Platform) where
  open P use {Float, str_decimal, str_int, isoformat, json_float}

  -- What the loop reads besides the rule: the observation, and what the matching has computed.
  pub record Context : Type 0 where
    pub observation : Observation
    pub open observation use *
    pub zscore_result : Option (ZScoreResult Float)
    pub past_prices : List (ℕ × Option Decimal)

  unfoldable pub key_of : Observation → AlertRule → String
  unfolding idempotency_key detected_state_hash
  key_of o r = idempotency_key P r.id o.pair.id (detected_state_hash P r o.last_price o.observed_at)

  abbrev pub status_of : Observation → AlertRule → Status
  status_of o r = if in_cooldown r o.observed_at then suppressed_cooldown else pending

  abbrev pub new_notification : Observation → AlertRule → Db → Notification
  new_notification o r db = record {
    id = db.next_id;
    rule_id = r.id;
    pair_id = o.pair.id;
    type = r.rule_type;
    detected_price = o.last_price;
    detected_state_hash = detected_state_hash P r o.last_price o.observed_at;
    idempotency_key = key_of o r;
    status = status_of o r;
    triggered_at = db.now;
    sent_at = none;
  }

  abbrev score_text : RuleType → Option (ZScoreResult Float) → Option String
  score_text zscore_move (some result) = elim result.z [
    | none ↦ none
    | some z ↦ some (json_float z)
  ]
  score_text _ _ = none

  abbrev spread_text : RuleType → Decimal → Option String
  spread_text spread_widen d = some (str_decimal d)
  spread_text _ d = none

  abbrev show_option : Option Decimal → Option String
  show_option none = none
  show_option (some d) = some (str_decimal d)

  abbrev pub new_payload : Context → AlertRule → Notification → (message : String) → Payload
  new_payload c r n message = record {
    notification_id = str_int n.id;
    rule_id = str_int r.id;
    pair_id = str_int c.pair.id;
    pair_display_name = c.pair.display_name;
    rule_type = r.rule_type;
    threshold = show_option r.threshold;
    percent = show_option r.percent;
    window_seconds = r.window_seconds;
    sigma = show_option r.sigma;
    direction = r.direction;
    z_score = score_text r.rule_type c.zscore_result;
    past_price = show_option (past_price_of c.past_prices r.id);
    bid_price = spread_text r.rule_type c.bid_price;
    ask_price = spread_text r.rule_type c.ask_price;
    detected_price = str_decimal c.last_price;
    triggered_at = isoformat c.observed_at;
    message = message;
  }

  abbrev pub new_event : Payload → Notification → Db → OutboxEvent
  new_event payload n db = record {
    id = db.next_id;
    notification_id = n.id;
    payload = payload;
    publish_attempts = 0;
    published_at = none;
    next_attempt_at = none;
    last_error = none;
    created_at = db.now;
  }

  abbrev pub message_of : Context → AlertRule → Result String
  message_of c r =
      format_message P r.rule_type c.pair r c.last_price c.observed_at c.zscore_result
        (past_price_of c.past_prices r.id) c.bid_price c.ask_price

  -- `session.add(OutboxEvent(…))`
  abbrev pub add_event : Context → AlertRule → Notification → String → Exec Unit
  add_event c r n message s = (
    ok tt,
    record s {
      db = record (s.db) {
        outbox_events = s.db.outbox_events ++ new_event (new_payload c r n message) n s.db ∷ [];
        next_id = s.db.next_id + 1;
      };
    },
  )

  unfoldable pub deliver : Context → AlertRule → Notification → Exec Unit
  deliver c r n = do message ← lift (message_of c r); add_event c r n message

  -- The rest of the body once the notification is inserted.
  unfoldable pub finish : Context → AlertRule → Notification → Exec (Option Notification)
  unfolding deliver advance
  finish c r n s =
      if in_cooldown r c.observed_at
      then (ok (some n), advance r.id c.observed_at s)
      else and_then (deliver c r n s) (λ _ s'. (ok (some n), advance r.id c.observed_at s'))

  abbrev pub inserted :
      Context
      → AlertRule
      → Notification
      → Session
      → Option Db
      → Result (Option Notification) × Session
  inserted c r n s none = (ok none, s)
  inserted c r n s (some db) = finish c r n (record s { db = db })

  -- The body of the loop: the notification created, if any.
  unfoldable pub fire_candidate : Context → AlertRule → Exec (Option Notification)
  unfolding insert_notification
  fire_candidate c r s =
      if has_key (key_of c.observation r) s.db.notifications
      then (ok none, s)
      else let n = new_notification c.observation r s.db in
        inserted c r n s (insert_notification c.race n s.db)

  abbrev pub collect : Option Notification → List Notification → List Notification
  collect none ns = ns
  collect (some n) ns = n ∷ ns

  unfoldable pub fire_candidates : Context → List AlertRule → Exec (List Notification)
  unfolding fire_candidate
  fire_candidates c [] = pure []
  fire_candidates c (r ∷ rs) = do
    created ← fire_candidate c r
    rest ← fire_candidates c rs
    pure (collect created rest)

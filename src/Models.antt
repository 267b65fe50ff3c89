-- ===== src/Models.antt =====
-- db/models.py: the rows of the tables, and the database as their lists. A row's id is a number: ids
-- are only compared. A time is a number of microseconds since the epoch (UTC).
use dropwatch.Base.{ℕ, Bool, Option, List, ◌==◌, find, String}
use dropwatch.Decimal.{Decimal}

-- The strings of `AlertRule.rule_type`; `other` is any string but the five of rules/rule_types.py.
pub data RuleType : Type 0 where
  absolute_below absolute_above zscore_move percent_change spread_widen : RuleType
  other : String → RuleType

-- The strings of `AlertRule.direction`: "", the three of `DIRECTIONS`, and any other.
pub data Direction : Type 0 where
  up down both empty : Direction
  unknown : String → Direction

-- The strings of `Notification.status`.
pub data Status : Type 0 where
  pending suppressed_cooldown sent : Status

pub record Pair : Type 0 where
  pub id : ℕ
  pub kraken_pair_name : String
  pub display_name : String
  pub base_currency : String
  pub quote_currency : String
  pub poll_interval_seconds : ℕ
  pub is_active : Bool
  pub notional_24h : Option Decimal
  pub current_last_price : Option Decimal
  pub current_bid_price : Option Decimal
  pub current_ask_price : Option Decimal
  pub last_checked_at : Option ℕ
  pub created_at : ℕ

pub record PriceHistory : Type 0 where
  pub id : ℕ
  pub pair_id : ℕ
  pub last_price : Decimal
  pub bid_price : Decimal
  pub ask_price : Decimal
  pub volume_24h : Option Decimal
  pub observed_at : ℕ

pub record User : Type 0 where
  pub id : ℕ
  pub contact : String
  pub created_at : ℕ

pub record AlertRule : Type 0 where
  pub id : ℕ
  pub user_id : ℕ
  pub pair_id : ℕ
  pub rule_type : RuleType
  pub threshold : Option Decimal
  pub percent : Option Decimal
  pub window_seconds : Option ℕ
  pub sigma : Option Decimal
  pub direction : Option Direction
  pub cooldown_seconds : ℕ
  pub is_enabled : Bool
  pub last_fired_at : Option ℕ
  pub created_at : ℕ

pub record Notification : Type 0 where
  pub id : ℕ
  pub rule_id : ℕ
  pub pair_id : ℕ
  pub type : RuleType
  pub detected_price : Decimal
  pub detected_state_hash : String
  pub idempotency_key : String
  pub status : Status
  pub triggered_at : ℕ
  pub sent_at : Option ℕ

-- The JSON object of `OutboxEvent.payload`, as `json.loads` gives back what `json.dumps` was given.
pub record Payload : Type 0 where
  pub notification_id : String
  pub rule_id : String
  pub pair_id : String
  pub pair_display_name : String
  pub rule_type : RuleType
  pub threshold : Option String
  pub percent : Option String
  pub window_seconds : Option ℕ
  pub sigma : Option String
  pub direction : Option Direction
  pub z_score : Option String
  pub past_price : Option String
  pub bid_price : Option String
  pub ask_price : Option String
  pub detected_price : String
  pub triggered_at : String
  pub message : String

pub record OutboxEvent : Type 0 where
  pub id : ℕ
  pub notification_id : ℕ
  pub payload : Payload
  pub publish_attempts : ℕ
  pub published_at : Option ℕ
  pub next_attempt_at : Option ℕ
  pub last_error : Option String
  pub created_at : ℕ

-- `now` is the database's `now()`, the time of the transaction; `next_id` stands for `uuid4`.
pub record Db : Type 0 where
  pub pairs : List Pair
  pub price_history : List PriceHistory
  pub users : List User
  pub alert_rules : List AlertRule
  pub notifications : List Notification
  pub outbox_events : List OutboxEvent
  pub now : ℕ
  pub next_id : ℕ

-- `session.get(Model, id)`.
abbrev pub get_pair : ℕ → List Pair → Option Pair
get_pair k = find (λ p. p.id == k)

abbrev pub get_user : ℕ → List User → Option User
get_user k = find (λ u. u.id == k)

abbrev pub get_rule : ℕ → List AlertRule → Option AlertRule
get_rule k = find (λ r. r.id == k)

abbrev pub get_notification : ℕ → List Notification → Option Notification
get_notification k = find (λ n. n.id == k)

-- ===== src/Api/Alerts.antt =====
-- api/routes/alerts.py: the list of notifications with the state of their delivery.
use text.Mathlib.Text.{◌==◌ as str_eq}
use dropwatch.Base.{
  ℕ, ◌&&◌, Bool, true, Option, none, some, List, [], ◌∷◌, ◌++◌, map, String, ◌==◌, leb, filter,
  take, drop,
}
use dropwatch.Base.Sorting.{sorted}
use dropwatch.Decimal.{Decimal}
use dropwatch.Models.{
  RuleType, Status, pending, suppressed_cooldown, sent, Notification, Pair, AlertRule, OutboxEvent,
  Db, get_pair, get_rule,
}

pub record AlertResponse : Type 0 where
  pub id : ℕ
  pub rule_id : ℕ
  pub pair_id : ℕ
  pub pair_display_name : String
  pub rule_type : RuleType
  pub threshold : Option Decimal
  pub detected_price : Decimal
  pub status : Status
  pub triggered_at : ℕ
  pub sent_at : Option ℕ
  pub publish_attempts : Option ℕ
  pub last_error : Option String
  pub next_attempt_at : Option ℕ
  pub published_at : Option ℕ

-- The query's parameters, with the bounds of `limit` and the defaults left to the framework. The
-- status is any string.
pub record AlertQuery : Type 0 where
  pub pair_id : Option ℕ
  pub rule_id : Option ℕ
  pub status : Option String
  pub limit : ℕ
  pub offset : ℕ

abbrev pub status_name : Status → String
status_name pending = "pending"
status_name suppressed_cooldown = "suppressed_cooldown"
status_name sent = "sent"

abbrev pub given : {A : Type 0} → Option A → (A → Bool) → Bool
given none test = true
given (some a) test = test a

-- The three `WHERE` clauses.
abbrev pub is_wanted : AlertQuery → AlertResponse → Bool
is_wanted query a =
    given query.pair_id (λ k. a.pair_id == k)
    && given query.rule_id (λ k. a.rule_id == k)
    && given query.status (λ s. str_eq (status_name a.status) s)

abbrev pub response_of : Notification → Pair → AlertRule → Option OutboxEvent → AlertResponse
response_of n p r event = record {
  id = n.id;
  rule_id = n.rule_id;
  pair_id = n.pair_id;
  pair_display_name = p.display_name;
  rule_type = n.type;
  threshold = r.threshold;
  detected_price = n.detected_price;
  status = n.status;
  triggered_at = n.triggered_at;
  sent_at = n.sent_at;
  publish_attempts = elim event [ none ↦ none | some e ↦ some e.publish_attempts ];
  last_error = elim event [ none ↦ none | some e ↦ e.last_error ];
  next_attempt_at = elim event [ none ↦ none | some e ↦ e.next_attempt_at ];
  published_at = elim event [ none ↦ none | some e ↦ e.published_at ];
}

-- The outer join: one row for each event, or one without.
abbrev pub or_without : List OutboxEvent → List (Option OutboxEvent)
or_without [] = none ∷ []
or_without (e ∷ es) = some e ∷ map some es

abbrev pub events_of : ℕ → List OutboxEvent → List OutboxEvent
events_of k = filter (λ e. e.notification_id == k)

-- The inner joins: a notification whose pair or rule is gone has no row.
abbrev pub joined :
    Notification → Option Pair → Option AlertRule → List OutboxEvent → List AlertResponse
joined n none r events = []
joined n (some p) none events = []
joined n (some p) (some r) events = map (response_of n p r) (or_without (events_of n.id events))

unfoldable pub join_all : List Notification → Db → List AlertResponse
join_all [] db = []
join_all (n ∷ ns) db =
    joined n (get_pair n.pair_id db.pairs) (get_rule n.rule_id db.alert_rules) db.outbox_events
    ++ join_all ns db

-- `ORDER BY triggered_at DESC`
abbrev pub newest_first : AlertResponse → AlertResponse → Bool
newest_first a b = leb b.triggered_at a.triggered_at

unfoldable pub list_alerts : AlertQuery → Db → List AlertResponse
unfolding join_all
list_alerts query db = take query.limit (
    drop query.offset
      (sorted newest_first (filter (is_wanted query) (join_all db.notifications db))))

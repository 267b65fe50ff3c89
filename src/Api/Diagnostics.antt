-- ===== src/Api/Diagnostics.antt =====
-- api/routes/alerts.py: the list of alerts over rows that are consistent in the sense of
-- Evaluator/Consistency.antt.
use dropwatch.Base.{
  ℕ, Bool, true, false, Option, none, some, is_some, List, [], ◌∷◌, ◌++◌, map, length, All, ◌≡◌,
  refl, ◌∙◌, ap, arith,
}
use dropwatch.Models.{
  Status, pending, suppressed_cooldown, sent, Notification, Pair, AlertRule, OutboxEvent, Db,
  get_pair, get_rule,
}
use dropwatch.Evaluator.Consistency.{IsConsistent, events_for, expected}
use dropwatch.Api.Alerts.{AlertResponse, response_of, or_without, events_of, joined, join_all}

-- The pair and the rule of the notification are in their tables.
abbrev pub IsLinked : Db → Notification → Type 0
IsLinked db n =
    (is_some (get_pair n.pair_id db.pairs) ≡ true)
    × (is_some (get_rule n.rule_id db.alert_rules) ≡ true)

-- A row of a notification: its id, and whether it tells of a delivery.
abbrev pub summary : AlertResponse → ℕ × Bool
summary a = (a.id, is_some a.publish_attempts)

abbrev pub has_event : Status → Bool
has_event suppressed_cooldown = false
has_event pending = true
has_event sent = true

one_row :
    (n : Notification) (p : Pair) (r : AlertRule) (es : List OutboxEvent)
    → length es ≡ expected n.status
    → map summary (map (response_of n p r) (or_without es)) ≡ (n.id, has_event n.status) ∷ []
one_row n p r es h = go n.status es h
  where
    go :
        (s : Status) (es : List OutboxEvent)
        → length es ≡ expected s
        → map summary (map (response_of n p r) (or_without es)) ≡ (n.id, has_event s) ∷ []
    go suppressed_cooldown [] h = refl
    go suppressed_cooldown (e ∷ es) h = absurd (omega arith)
    go pending [] h = absurd (omega arith)
    go pending (e ∷ []) h = refl
    go pending (e ∷ f ∷ es) h = absurd (omega arith)
    go sent [] h = absurd (omega arith)
    go sent (e ∷ []) h = refl
    go sent (e ∷ f ∷ es) h = absurd (omega arith)

map-append : {A B : Type 0} (f : A → B) (xs ys : List A) → map f (xs ++ ys) ≡ map f xs ++ map f ys
map-append f [] ys = refl
map-append f (x ∷ xs) ys = ap (λ zs. f x ∷ zs) (map-append f xs ys)

joined_once :
    (n : Notification) (p : Option Pair) (r : Option AlertRule) (es : List OutboxEvent)
    → is_some p ≡ true
    → is_some r ≡ true
    → events_for n.id es ≡ expected n.status
    → map summary (joined n p r es) ≡ (n.id, has_event n.status) ∷ []
joined_once n none r es hp hr h = absurd (cc hp)
joined_once n (some p) none es hp hr h = absurd (cc hr)
joined_once n (some p) (some r) es hp hr h = one_row n p r (events_of n.id es) h

join_all-rows :
    (ns : List Notification) (db : Db)
    → All (IsLinked db) ns
    → All (λ n. events_for n.id db.outbox_events ≡ expected n.status) ns
    → map summary (join_all ns db) ≡ map (λ n. (n.id, has_event n.status)) ns
unfolding join_all
join_all-rows [] db hs gs = refl
join_all-rows (n ∷ ns) db ((hp, hr), hs) (g, gs) =
    map-append summary
      (joined n (get_pair n.pair_id db.pairs) (get_rule n.rule_id db.alert_rules) db.outbox_events)
      (join_all ns db)
    ∙ (λ i.
        joined_once n (get_pair n.pair_id db.pairs) (get_rule n.rule_id db.alert_rules)
          db.outbox_events hp hr g i
        ++ join_all-rows ns db hs gs i)

-- Where the rows are consistent and every notification's pair and rule are in their tables, the joined
-- rows that the list of alerts filters and sorts are one for each notification, in order, and the row
-- tells of a delivery exactly if the notification is not suppressed.
pub join_all-IsConsistent :
    (db : Db)
    → IsConsistent db
    → All (IsLinked db) db.notifications
    → map summary (join_all db.notifications db)
      ≡ map (λ n. (n.id, has_event n.status)) db.notifications
join_all-IsConsistent db c linked = join_all-rows db.notifications db linked c.matched

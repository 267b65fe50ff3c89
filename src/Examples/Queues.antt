-- ===== src/Examples/Queues.antt =====
-- One tick of the scheduler and one of the publisher, on small tables.
use text.Mathlib.Text.{◌==◌ as str_eq}
use dropwatch.Base.{
  ◌==◌, if◌then◌else◌, ℕ, suc, ◌+◌, ◌*◌, ◌≤◌, ◌<◌, min, Bool, true, false, Option, none, some, List,
  [], ◌∷◌, ◌++◌, map, String, length, Result, ok, err, Error, queue_error, arith, ◌≡◌, refl, All,
}
use dropwatch.Decimal.{of_ℕ}
use dropwatch.Settings.{default_settings}
use dropwatch.Models.{absolute_below, pending, Notification, OutboxEvent, Db}
use dropwatch.Scheduler.{PollMessage, Tick, get_due_pairs, enqueue_due_pairs}
use dropwatch.Scheduler.Claims.{
  claimed, queued_ids, ids, is_among, enqueue_due_pairs-ok, no_double_enqueue,
}
use dropwatch.Scheduler.Stops.{StopsAt, enqueue_due_pairs-err}
use dropwatch.Outbox.{Sns, get_due_events, publish_pending, backoff_seconds}
use dropwatch.Outbox.Backoff.{backoff_seconds-doubles, backoff_seconds-bounds}
use dropwatch.Outbox.Delivery as Delivery
use dropwatch.Outbox.Delivery.{handled_all, publish_pending-events, no_early_retry}
use dropwatch.Evaluator.Consistency.{IsConsistent}
use dropwatch.Api.Alerts.{join_all}
use dropwatch.Api.Diagnostics.{summary, has_event, join_all-IsConsistent}
use dropwatch.Outbox.Returns.{accepted_count, publish_pending-returns}
use dropwatch.Outbox.Consistency.{publish_pending-IsConsistent}
use dropwatch.Examples.Fixtures.{test_platform, bitcoin, small_db}

-- Two pairs that were never checked.
abbrev idle : Tick
idle = record {
  pairs = bitcoin ∷ record bitcoin { id = 2; kraken_pair_name = "XETHZUSD" } ∷ [];
  queue = [];
}

abbrev accepts : ℕ → Bool
accepts _ = true

-- The queue takes the first message and refuses the second.
abbrev takes_one : ℕ → Bool
takes_one id = id == 1

abbrev ticked : Tick
unfolding enqueue_due_pairs
ticked = (enqueue_due_pairs test_platform default_settings accepts true 5 6 idle).1

tick : enqueue_due_pairs test_platform default_settings accepts true 5 6 idle ≡ (ok 2, ticked)
unfolding enqueue_due_pairs test_platform ticked dropwatch.Scheduler.enqueue_from
    dropwatch.Scheduler.stagger_delay_seconds dropwatch.Decimal.is_zero
tick = refl

enqueue_due_pairs-ok_example :
    (ticked.pairs ≡ map (claimed (get_due_pairs 5 idle.pairs) 6) idle.pairs)
    × (queued_ids ticked ≡ queued_ids idle ++ ids (get_due_pairs 5 idle.pairs))
    × (2 ≡ length (get_due_pairs 5 idle.pairs))
enqueue_due_pairs-ok_example =
    enqueue_due_pairs-ok test_platform default_settings accepts true 6 5 2 idle ticked tick

no_double_enqueue_example :
    All (λ p. is_among (get_due_pairs 5 idle.pairs) p ≡ false) (get_due_pairs 7 ticked.pairs)
no_double_enqueue_example =
    no_double_enqueue test_platform default_settings accepts true 5 6 7 2 idle ticked tick
      (omega arith, (omega arith, tt))

abbrev stopped : Tick
unfolding enqueue_due_pairs
stopped = (enqueue_due_pairs test_platform default_settings takes_one true 5 6 idle).1

stop :
    enqueue_due_pairs test_platform default_settings takes_one true 5 6 idle
    ≡ (err queue_error, stopped)
unfolding enqueue_due_pairs test_platform stopped dropwatch.Scheduler.enqueue_from
    dropwatch.Scheduler.stagger_delay_seconds dropwatch.Decimal.is_zero
stop = refl

enqueue_due_pairs-err_example :
    (stopped.pairs ≡ idle.pairs)
    × StopsAt test_platform default_settings takes_one true 6
        (length (get_due_pairs 5 idle.pairs))
        0
        (get_due_pairs 5 idle.pairs)
        queue_error
        idle
        stopped
enqueue_due_pairs-err_example =
    enqueue_due_pairs-err test_platform default_settings takes_one true 6 5 queue_error idle stopped
      stop

abbrev event : (id notification_id : ℕ) → (message : String) → OutboxEvent
event id notification_id message = record {
  id = id;
  notification_id = notification_id;
  payload = record {
    notification_id = "1";
    rule_id = "3";
    pair_id = "1";
    pair_display_name = "XBT/USD";
    rule_type = absolute_below;
    threshold = none;
    percent = none;
    window_seconds = none;
    sigma = none;
    direction = none;
    z_score = none;
    past_price = none;
    bid_price = none;
    ask_price = none;
    detected_price = "90";
    triggered_at = "0";
    message = message;
  };
  publish_attempts = 0;
  published_at = none;
  next_attempt_at = none;
  last_error = none;
  created_at = id;
}

abbrev notification : (id : ℕ) → (key : String) → Notification
notification id key = record {
  id = id;
  rule_id = 3;
  pair_id = 1;
  type = absolute_below;
  detected_price = of_ℕ 90;
  detected_state_hash = "hash";
  idempotency_key = key;
  status = pending;
  triggered_at = 0;
  sent_at = none;
}

-- Two events that were not tried yet.
abbrev waiting : Db
waiting = record small_db {
  notifications = notification 20 "first" ∷ notification 21 "second" ∷ [];
  outbox_events = event 30 20 "first" ∷ event 31 21 "second" ∷ [];
  next_id = 40;
}

-- The topic takes the first message and refuses the second.
abbrev takes_first : Sns
takes_first event_id subject message = if str_eq message "first" then none else some "unavailable"

abbrev delivered : Db
unfolding publish_pending
delivered = (publish_pending default_settings 7 5 takes_first true waiting).1

delivery : publish_pending default_settings 7 5 takes_first true waiting ≡ (ok 1, delivered)
unfolding publish_pending delivered dropwatch.Outbox.publish_due dropwatch.Outbox.publish_all
    dropwatch.Base.Sorting.sorted
delivery = refl

publish_pending-events_example :
    delivered.outbox_events
    ≡ map
        (handled_all default_settings 7 takes_first (get_due_events 5 waiting.outbox_events))
        waiting.outbox_events
publish_pending-events_example =
    publish_pending-events default_settings 7 takes_first 5 1 true waiting delivered delivery

early : 5000006 < 7 + backoff_seconds default_settings 1 * 1000000
unfolding backoff_seconds
early = omega arith

no_early_retry_example :
    All
      (λ x. Delivery.is_among (get_due_events 5 waiting.outbox_events) x ≡ false)
      (get_due_events 5000006 delivered.outbox_events)
no_early_retry_example =
    no_early_retry default_settings 7 takes_first 5 5000006 1 true waiting delivered delivery early

backoff_seconds-doubles_example :
    (backoff_seconds default_settings 1 ≡ min 5 300)
    × (backoff_seconds default_settings 4 ≡ min (2 * backoff_seconds default_settings 3) 300)
backoff_seconds-doubles_example = backoff_seconds-doubles default_settings 2

backoff_seconds-bounds_example :
    (backoff_seconds default_settings 9 ≤ 300)
    × (backoff_seconds default_settings 3 ≤ backoff_seconds default_settings 9)
backoff_seconds-bounds_example = backoff_seconds-bounds default_settings 3 9 (omega arith)

waiting-IsConsistent : IsConsistent waiting
waiting-IsConsistent = record {
  keys = (refl, (refl, tt));
  ids = (omega arith, (omega arith, tt));
  event_ids = (omega arith, (omega arith, tt));
  matched = (refl, (refl, tt));
}

join_all-IsConsistent_example :
    map summary (join_all waiting.notifications waiting)
    ≡ map (λ n. (n.id, has_event n.status)) waiting.notifications
join_all-IsConsistent_example =
    join_all-IsConsistent waiting waiting-IsConsistent ((refl, refl), ((refl, refl), tt))

publish_pending-IsConsistent_example :
    IsConsistent (publish_pending default_settings 7 5 takes_first true waiting).1
publish_pending-IsConsistent_example =
    publish_pending-IsConsistent default_settings 7 5 takes_first true waiting waiting-IsConsistent

publish_pending-returns_example :
    (publish_pending default_settings 7 5 takes_first true waiting).0
    ≡ ok (accepted_count takes_first (get_due_events 5 waiting.outbox_events))
publish_pending-returns_example =
    publish_pending-returns default_settings 7 takes_first 5 waiting (refl, (refl, tt))
